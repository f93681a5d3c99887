-- ===== src/Shell/Jobs/Lookup.antt =====
-- Jobs are found by their identifiers, and jobs_remove_done drops the finished ones only.
use embedded_systems_runtime.Prelude.{
  ℕ, ◌<◌, ◌≡◌, ◌≢◌, refl, sym, ap, ◌∙◌, inl, inr, some, false, List, [], ◌∷◌, ◌++◌, ◌==◌, All-right,
  subst, All, Bool-cases, if◌then◌else◌, append_assoc, arith,
}
use embedded_systems_runtime.Shell.Jobs.{
  Job, JobList, find_id, jobs_find_id, remove_address, jobs_remove, is_done, remove_done_loop,
  jobs_remove_done,
}
use embedded_systems_runtime.Shell.Jobs.Table.{Below, Apart, IsValid}

Below-member :
    (n : ℕ) (pre post : List Job) (job : Job) → Below n (pre ++ (job ∷ post)) → job.id < n
Below-member n [] post job (lt, b) = lt
Below-member n (first ∷ pre) post job (lt, b) = omega (arith, Below-member first.id pre post job b)

find_id-Below :
    (n : ℕ) (pre post : List Job) (job : Job)
    → Below n (pre ++ (job ∷ post))
    → find_id job.id (pre ++ (job ∷ post)) ≡ some job
unfolding find_id
find_id-Below n [] post job b = ground arith
find_id-Below n (first ∷ pre) post job (lt, b) = rw apart (find_id-Below first.id pre post job b)
  where
    apart : (first.id == job.id) ≡ false
    apart = ground (arith, Below-member first.id pre post job b)

-- In a valid table jobs_find_id finds every job by its identifier.
pub jobs_find_id-member :
    (list : JobList) (pre post : List Job) (job : Job)
    → IsValid list
    → list.jobs ≡ pre ++ (job ∷ post)
    → jobs_find_id list job.id ≡ some job
unfolding jobs_find_id
jobs_find_id-member list pre post job v e =
    ap (find_id job.id) e
    ∙ find_id-Below list.next_id pre post job (subst (Below list.next_id) e v.ids)

-- The jobs that are not done.
abbrev pub unfinished : List Job → List Job
unfinished [] = []
unfinished (job ∷ jobs) = if is_done job.state then unfinished jobs else job ∷ unfinished jobs

remove_address-there :
    (kept rest : List Job) (job : Job)
    → Apart (kept ++ (job ∷ rest))
    → remove_address job.address (kept ++ (job ∷ rest)) ≡ kept ++ rest
unfolding remove_address
remove_address-there [] rest job apart = ground arith
remove_address-there (k ∷ kept) rest job (ne, apart) =
    rw differs (ap (λ l. k ∷ l) (remove_address-there kept rest job apart))
  where
    differs : (k.address == job.address) ≡ false
    differs = ground (arith, (All-right (λ o. k.address ≢ o.address) kept (job ∷ rest) ne).0)

All-without :
    (P : Job → Type 0) (kept rest : List Job) (job : Job)
    → All P (kept ++ (job ∷ rest))
    → All P (kept ++ rest)
All-without P [] rest job (p, h) = h
All-without P (k ∷ kept) rest job (p, h) = (p, All-without P kept rest job h)

Apart-without :
    (kept rest : List Job) (job : Job) → Apart (kept ++ (job ∷ rest)) → Apart (kept ++ rest)
Apart-without [] rest job (ne, apart) = apart
Apart-without (k ∷ kept) rest job (ne, apart) =
    (All-without (λ o. k.address ≢ o.address) kept rest job ne, Apart-without kept rest job apart)

remove_done_loop-kept :
    (kept rest : List Job) (next_id : ℕ)
    → Apart (kept ++ rest)
    → remove_done_loop rest (record { jobs = kept ++ rest; next_id = next_id })
      ≡ record { jobs = kept ++ unfinished rest; next_id = next_id }
unfolding remove_done_loop jobs_remove
remove_done_loop-kept kept [] next_id apart = refl
remove_done_loop-kept kept (job ∷ rest) next_id apart = elim (Bool-cases (is_done job.state)) [
  | inl e ↦
      rw (e, remove_address-there kept rest job apart)
        (remove_done_loop-kept kept rest next_id (Apart-without kept rest job apart))
  | inr e ↦
      rw (e, regroup rest, regroup (unfinished rest))
        (remove_done_loop-kept (kept ++ (job ∷ [])) rest next_id (rw (sym (regroup rest)) apart))
]
  where
    regroup : (l : List Job) → kept ++ (job ∷ l) ≡ (kept ++ (job ∷ [])) ++ l
    regroup l = sym (append_assoc kept (job ∷ []) l)

-- jobs_remove_done, which removes by pointer from the list that it goes through, leaves exactly the
-- jobs that are not done, in their order.
pub jobs_remove_done_lem :
    (list : JobList)
    → IsValid list
    → jobs_remove_done list ≡ record list { jobs = unfinished list.jobs }
unfolding jobs_remove_done
jobs_remove_done_lem list v = remove_done_loop-kept [] list.jobs list.next_id v.apart
