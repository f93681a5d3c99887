-- ===== src/Shell/Jobs/Table.antt =====
-- The job table keeps its identifiers unique, and drops finished jobs only.
use embedded_systems_runtime.Prelude.{
  ℕ, ◌≤◌, ◌<◌, ◌≡◌, ◌≢◌, refl, inl, inr, Bool, List, [], ◌∷◌, length, All, Bool-cases, arith,
}
use embedded_systems_runtime.Shell.Jobs.{
  Job, JobList, JobState, WaitStatus, was_stopped, was_continued, exited, signaled, other,
  jobs_init, jobs_add, update_job, one_less, update_pid, jobs_update_status, jobs_reap, has_pid,
}

-- The identifiers fall from the head on, and stay below `n`.
abbrev pub Below : ℕ → List Job → Type 0
Below n [] = Unit
Below n (job ∷ jobs) = (job.id < n) × Below job.id jobs

-- No node is twice in the list.
abbrev pub Apart : List Job → Type 0
Apart [] = Unit
Apart (job ∷ jobs) = All (λ o. job.address ≢ o.address) jobs × Apart jobs

abbrev pub Counted : Job → Type 0
Counted job = job.remaining ≤ length job.pids

pub record IsValid (list : JobList) : Type 0 where
  pub ids : Below list.next_id list.jobs
  pub apart : Apart list.jobs
  pub counted : All Counted list.jobs

-- The empty table is valid.
pub jobs_init-IsValid : IsValid jobs_init
unfolding jobs_init
jobs_init-IsValid = record { ids = tt; apart = tt; counted = tt }

-- A valid table stays valid when a job is added at an address that no job of the table has.
pub jobs_add-IsValid :
    (address : ℕ) (list : JobList) (pgid : ℕ) (pids command : List ℕ) (state : JobState)
    → All (λ o. address ≢ o.address) list.jobs
    → IsValid list
    → IsValid (jobs_add address list pgid pids command state)
unfolding jobs_add
jobs_add-IsValid address list pgid pids command state fresh v = record {
  ids = (omega arith, v.ids);
  apart = (fresh, v.apart);
  counted = (omega arith, v.counted);
}

update_job-same :
    (status : WaitStatus) (job : Job)
    → Counted job
    → ((update_job status job).id ≡ job.id)
      × ((update_job status job).address ≡ job.address)
      × ((update_job status job).pids ≡ job.pids)
      × Counted (update_job status job)
unfolding update_job one_less
update_job-same was_stopped job c = (refl, refl, refl, c)
update_job-same was_continued job c = (refl, refl, refl, c)
update_job-same exited job c = ground arith
update_job-same signaled job c = ground arith
update_job-same other job c = (refl, refl, refl, c)

Below-le : (n m : ℕ) (jobs : List Job) → n ≤ m → Below n jobs → Below m jobs
Below-le n m [] h b = tt
Below-le n m (job ∷ jobs) h (lt, b) = (omega arith, b)

module _ (pid : ℕ) (status : WaitStatus) where
  update_pid-Below :
      (n : ℕ) (jobs : List Job)
      → All Counted jobs
      → Below n jobs
      → Below n (update_pid pid status jobs)
  unfolding update_pid
  update_pid-Below n [] c b = tt
  update_pid-Below n (job ∷ jobs) (cj, c) (lt, b) = elim (Bool-cases (has_pid pid job.pids)) [
    | inl e ↦ rw e (rw (update_job-same status job cj).0 (lt, b))
    | inr e ↦ rw e (lt, update_pid-Below job.id jobs c b)
  ]

  update_pid-Counted :
      (jobs : List Job) → All Counted jobs → All Counted (update_pid pid status jobs)
  unfolding update_pid
  update_pid-Counted [] c = tt
  update_pid-Counted (job ∷ jobs) (cj, c) = elim (Bool-cases (has_pid pid job.pids)) [
    | inl e ↦ rw e ((update_job-same status job cj).3, c)
    | inr e ↦ rw e (cj, update_pid-Counted jobs c)
  ]

  pub update_pid-other :
      (a : ℕ) (jobs : List Job)
      → All Counted jobs
      → All (λ o. a ≢ o.address) jobs
      → All (λ o. a ≢ o.address) (update_pid pid status jobs)
  unfolding update_pid
  update_pid-other a [] c h = tt
  update_pid-other a (job ∷ jobs) (cj, c) (ne, h) = elim (Bool-cases (has_pid pid job.pids)) [
    | inl e ↦ rw (e, (update_job-same status job cj).1) (ne, h)
    | inr e ↦ rw e (ne, update_pid-other a jobs c h)
  ]

  update_pid-Apart :
      (jobs : List Job) → All Counted jobs → Apart jobs → Apart (update_pid pid status jobs)
  unfolding update_pid
  update_pid-Apart [] c h = tt
  update_pid-Apart (job ∷ jobs) (cj, c) (ne, h) = elim (Bool-cases (has_pid pid job.pids)) [
    | inl e ↦ rw (e, (update_job-same status job cj).1) (ne, h)
    | inr e ↦ rw e (update_pid-other job.address jobs c ne, update_pid-Apart jobs c h)
  ]

-- A wait status keeps a valid table valid, whatever its pid and kind.
pub jobs_update_status-IsValid :
    (list : JobList) (pid : ℕ) (status : WaitStatus)
    → IsValid list
    → IsValid (jobs_update_status list pid status)
unfolding jobs_update_status
jobs_update_status-IsValid list pid status v = record {
  ids = update_pid-Below pid status list.next_id list.jobs v.counted v.ids;
  apart = update_pid-Apart pid status list.jobs v.counted v.apart;
  counted = update_pid-Counted pid status list.jobs v.counted;
}

-- A run of jobs_reap over any statuses keeps a valid table valid.
pub jobs_reap-IsValid :
    (list : JobList) (notify : Bool) (events : List (ℕ × WaitStatus))
    → IsValid list
    → IsValid (jobs_reap list notify events).0
unfolding jobs_reap
jobs_reap-IsValid list notify [] v = v
jobs_reap-IsValid list notify ((pid, status) ∷ events) v =
    jobs_reap-IsValid (jobs_update_status list pid status) notify events
      (jobs_update_status-IsValid list pid status v)
