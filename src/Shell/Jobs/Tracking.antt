-- ===== src/Shell/Jobs/Tracking.antt =====
-- A job is done exactly when all of its processes have ended.
use embedded_systems_runtime.Prelude.{
  ℕ, suc, ◌≡◌, ◌↔◌, refl, ap, ◌∙◌, inl, inr, Bool, true, false, List, [], ◌∷◌, ◌++◌, ◌==◌, length,
  All, Bool-cases, if◌then◌else◌, arith,
}
use embedded_systems_runtime.Shell.Jobs.{
  Job, done, WaitStatus, was_stopped, was_continued, exited, signaled, other, has_pid, update_job,
  one_less, update_pid, jobs_update_status, jobs_reap,
}

-- One process fewer.
unfoldable pub without : ℕ → List ℕ → List ℕ
without pid [] = []
without pid (p ∷ pids) = if p == pid then pids else p ∷ without pid pids

-- The processes that are left after a status of `pid`.
abbrev pub left_by : ℕ → WaitStatus → List ℕ → List ℕ
left_by pid exited alive = without pid alive
left_by pid signaled alive = without pid alive
left_by pid _ alive = alive

abbrev pub left_after : List (ℕ × WaitStatus) → List ℕ → List ℕ
left_after [] alive = alive
left_after ((pid, status) ∷ events) alive = left_after events (left_by pid status alive)

-- What waitpid(2) promises: a status is one of a process that has not ended before.
abbrev pub Lawful : List (ℕ × WaitStatus) → List ℕ → Type 0
Lawful [] alive = Unit
Lawful ((pid, status) ∷ events) alive =
    (has_pid pid alive ≡ true) × Lawful events (left_by pid status alive)

length-without :
    (pid : ℕ) (alive : List ℕ)
    → has_pid pid alive ≡ true
    → suc (length (without pid alive)) ≡ length alive
unfolding has_pid without
length-without pid [] h = absurd (ground arith)
length-without pid (p ∷ alive) h = elim (Bool-cases (p == pid)) [
  | inl e ↦ rw e refl
  | inr e ↦ rw e (ap suc (length-without pid alive (rw e at h)))
]

has_pid-without :
    (q pid : ℕ) (alive : List ℕ) → has_pid q (without pid alive) ≡ true → has_pid q alive ≡ true
unfolding has_pid without
has_pid-without q pid [] h = h
has_pid-without q pid (p ∷ alive) h = elim (Bool-cases (p == q)) [
  | inl f ↦ rw f refl
  | inr f ↦ elim (Bool-cases (p == pid)) [
    | inl e ↦ rw f (rw e at h)
    | inr e ↦ rw f (has_pid-without q pid alive (rw (e, f) at h))
  ]
]

-- The job counts the processes that are left, and is done if there are none.
pub record Counts (job : Job) (alive : List ℕ) : Type 0 where
  pub remaining : job.remaining ≡ length alive
  pub ended : (job.state ≡ done) ↔ (length alive ≡ 0)

pub update_job-Counts :
    (job : Job) (pid : ℕ) (status : WaitStatus) (alive : List ℕ)
    → has_pid pid alive ≡ true
    → Counts job alive
    → Counts (update_job status job) (left_by pid status alive)
unfolding update_job one_less
update_job-Counts job pid was_stopped alive h c = record {
  remaining = c.remaining;
  ended = ground (arith, length-without pid alive h);
}
update_job-Counts job pid was_continued alive h c = record {
  remaining = c.remaining;
  ended = ground (arith, length-without pid alive h);
}
update_job-Counts job pid exited alive h c = record {
  remaining = ground (arith, length-without pid alive h, c.remaining);
  ended = ground (arith, length-without pid alive h, c.remaining, c.ended);
}
update_job-Counts job pid signaled alive h c = record {
  remaining = ground (arith, length-without pid alive h, c.remaining);
  ended = ground (arith, length-without pid alive h, c.remaining, c.ended);
}
update_job-Counts job pid other alive h c = c

pub left_by-has_pid :
    (q pid : ℕ) (status : WaitStatus) (alive : List ℕ)
    → has_pid q (left_by pid status alive) ≡ true
    → has_pid q alive ≡ true
left_by-has_pid q pid was_stopped alive h = h
left_by-has_pid q pid was_continued alive h = h
left_by-has_pid q pid exited alive h = has_pid-without q pid alive h
left_by-has_pid q pid signaled alive h = has_pid-without q pid alive h
left_by-has_pid q pid other alive h = h

-- The updates of one job.
unfoldable pub run_job : List (ℕ × WaitStatus) → Job → Job
run_job [] job = job
run_job ((pid, status) ∷ events) job = run_job events (update_job status job)

run_job-Counts :
    (job : Job) (events : List (ℕ × WaitStatus)) (alive : List ℕ)
    → Lawful events alive
    → Counts job alive
    → Counts (run_job events job) (left_after events alive)
unfolding run_job
run_job-Counts job [] alive law c = c
run_job-Counts job ((pid, status) ∷ events) alive (h, law) c =
    run_job-Counts (update_job status job) events (left_by pid status alive) law
      (update_job-Counts job pid status alive h c)

-- No job before ours has a process of this number.
abbrev pub NoneHas : ℕ → List Job → Type 0
NoneHas pid jobs = All (λ j. has_pid pid j.pids ≡ false) jobs

pub update_job-pids : (status : WaitStatus) (job : Job) → (update_job status job).pids ≡ job.pids
unfolding update_job one_less
update_job-pids was_stopped job = refl
update_job-pids was_continued job = refl
update_job-pids exited job = ground arith
update_job-pids signaled job = ground arith
update_job-pids other job = refl

pub update_pid-first :
    (pid : ℕ) (status : WaitStatus) (pre post : List Job) (job : Job)
    → NoneHas pid pre
    → has_pid pid job.pids ≡ true
    → update_pid pid status (pre ++ (job ∷ post)) ≡ pre ++ (update_job status job ∷ post)
unfolding update_pid
update_pid-first pid status [] post job none_has h = rw h refl
update_pid-first pid status (k ∷ pre) post job (k_lacks, none_has) h =
    rw k_lacks (ap (λ l. k ∷ l) (update_pid-first pid status pre post job none_has h))

module _ (notify : Bool) (next_id : ℕ) (pre post : List Job) (pids : List ℕ)
    (first : (pid : ℕ) → has_pid pid pids ≡ true → NoneHas pid pre) where
  jobs_reap-first :
      (events : List (ℕ × WaitStatus)) (job : Job) (alive : List ℕ)
      → job.pids ≡ pids
      → ((q : ℕ) → has_pid q alive ≡ true → has_pid q pids ≡ true)
      → Lawful events alive
      → (jobs_reap (record { jobs = pre ++ (job ∷ post); next_id = next_id }) notify events).0
        ≡ record { jobs = pre ++ (run_job events job ∷ post); next_id = next_id }
  unfolding jobs_reap jobs_update_status run_job
  jobs_reap-first [] job alive e sub law = refl
  jobs_reap-first ((pid, status) ∷ events) job alive e sub (h, law) =
      rw (update_pid-first pid status pre post job (first pid (sub pid h)) (rw e (sub pid h))) (
        jobs_reap-first events (update_job status job) (left_by pid status alive)
          (update_job-pids status job ∙ e) (λ q hq. sub q (left_by-has_pid q pid status alive hq))
          law)

  -- jobs_reap over lawful statuses of a job that counts its processes, which are in no job
  -- before it, changes only that job; afterwards the job counts the processes that have not ended,
  -- and it is done exactly if there are none.
  pub jobs_reap_tracks :
      (events : List (ℕ × WaitStatus)) (job : Job)
      → job.pids ≡ pids
      → Counts job pids
      → Lawful events pids
      → ((jobs_reap (record { jobs = pre ++ (job ∷ post); next_id = next_id }) notify events).0
          ≡ record { jobs = pre ++ (run_job events job ∷ post); next_id = next_id })
        × Counts (run_job events job) (left_after events pids)
  jobs_reap_tracks events job e c law =
      (jobs_reap-first events job pids e (λ q h. h) law, run_job-Counts job events pids law c)
