-- ===== src/Shell/Jobs/Removal.antt =====
-- The removals of shell/jobs.c keep the table valid.
use embedded_systems_runtime.Prelude.{
  ℕ, ◌<◌, ◌≢◌, inl, inr, Option, none, some, Bool, List, [], ◌∷◌, ◌==◌, All, Bool-cases,
  if◌then◌else◌, if_both, arith,
}
use embedded_systems_runtime.Shell.Jobs.{
  Job, JobList, WaitStatus, remove_address, jobs_remove, is_done, remove_done_loop,
  jobs_remove_done, jobs_update_status, jobs_reap,
}
use embedded_systems_runtime.Shell.Jobs.Table.{
  Below, Apart, Counted, IsValid, update_pid-other, jobs_update_status-IsValid,
}

Below-weaken : (n m : ℕ) (jobs : List Job) → n < m → Below n jobs → Below m jobs
Below-weaken n m [] h b = tt
Below-weaken n m (job ∷ jobs) h (lt, b) = (omega arith, b)

module _ (target : ℕ) where
  remove_address-Below :
      (n : ℕ) (jobs : List Job) → Below n jobs → Below n (remove_address target jobs)
  unfolding remove_address
  remove_address-Below n [] b = tt
  remove_address-Below n (job ∷ jobs) (lt, b) = elim (Bool-cases (job.address == target)) [
    | inl e ↦ rw e (Below-weaken job.id n jobs lt b)
    | inr e ↦ rw e (lt, remove_address-Below job.id jobs b)
  ]

  remove_address-All :
      (P : Job → Type 0) (jobs : List Job) → All P jobs → All P (remove_address target jobs)
  unfolding remove_address
  remove_address-All P [] h = tt
  remove_address-All P (job ∷ jobs) (p, h) = elim (Bool-cases (job.address == target)) [
    | inl e ↦ rw e h
    | inr e ↦ rw e (p, remove_address-All P jobs h)
  ]

  remove_address-Apart : (jobs : List Job) → Apart jobs → Apart (remove_address target jobs)
  unfolding remove_address
  remove_address-Apart [] h = tt
  remove_address-Apart (job ∷ jobs) (ne, h) = elim (Bool-cases (job.address == target)) [
    | inl e ↦ rw e h
    | inr e ↦
        rw e
          (remove_address-All (λ o. job.address ≢ o.address) jobs ne, remove_address-Apart jobs h)
  ]

pub jobs_remove-IsValid :
    (list : JobList) (job : Option Job) → IsValid list → IsValid (jobs_remove list job)
unfolding jobs_remove
jobs_remove-IsValid list none v = v
jobs_remove-IsValid list (some job) v = record {
  ids = remove_address-Below job.address list.next_id list.jobs v.ids;
  apart = remove_address-Apart job.address list.jobs v.apart;
  counted = remove_address-All job.address Counted list.jobs v.counted;
}

remove_done_loop-IsValid :
    (jobs : List Job) (list : JobList) → IsValid list → IsValid (remove_done_loop jobs list)
unfolding remove_done_loop
remove_done_loop-IsValid [] list v = v
remove_done_loop-IsValid (job ∷ jobs) list v =
    remove_done_loop-IsValid jobs (if is_done job.state then jobs_remove list (some job) else list)
      (if_both IsValid (is_done job.state) (jobs_remove list (some job)) list
        (jobs_remove-IsValid list (some job) v) v)

pub jobs_remove_done-IsValid : (list : JobList) → IsValid list → IsValid (jobs_remove_done list)
unfolding jobs_remove_done
jobs_remove_done-IsValid list v = remove_done_loop-IsValid list.jobs list v

-- An address that no job has is still free after jobs_reap.
pub jobs_reap-other :
    (address : ℕ) (list : JobList) (notify : Bool) (events : List (ℕ × WaitStatus))
    → IsValid list
    → All (λ o. address ≢ o.address) list.jobs
    → All (λ o. address ≢ o.address) (jobs_reap list notify events).0.jobs
unfolding jobs_reap jobs_update_status
jobs_reap-other address list notify [] v h = h
jobs_reap-other address list notify ((pid, status) ∷ events) v h =
    jobs_reap-other address (jobs_update_status list pid status) notify events
      (jobs_update_status-IsValid list pid status v)
      (update_pid-other pid status address list.jobs v.counted h)
