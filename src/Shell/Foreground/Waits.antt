-- ===== src/Shell/Foreground/Waits.antt =====
-- How wait_foreground_job of shell/shell.c ends, when waitpid keeps what waitpid(2) promises.
use embedded_systems_runtime.Prelude.{
  ℕ, ◌<◌, ◌≡◌, ◌⊎◌, refl, ap, ◌∙◌, inl, inr, some, true, false, List, [], ◌∷◌, ◌++◌, length,
  Bool-cases, arith,
}
use embedded_systems_runtime.Shell.Jobs.{
  Job, JobList, JobState, done, stopped, running, WaitStatus, was_stopped, was_continued, exited,
  signaled, other, has_pid, update_job, one_less, jobs_update_status, same_state,
}
use embedded_systems_runtime.Shell.Jobs.Tracking.{
  left_by, left_after, Counts, update_job-Counts, update_pid-first, left_by-has_pid,
}
use embedded_systems_runtime.Shell.Foreground.{
  WaitAnswer, reported, interrupted, no_child, wait_failed, job_at, waits_for, Waited, over, still,
  wait_loop,
}

-- The statuses among the answers.
abbrev pub reports : List WaitAnswer → List (ℕ × WaitStatus)
reports [] = []
reports (reported pid status ∷ answers) = (pid, status) ∷ reports answers
reports (_ ∷ answers) = reports answers

-- waitpid(2): a status is one of a process that has not ended before, ECHILD comes only when there is
-- none left, and no other error than EINTR comes.
abbrev pub LawfulAnswers : List WaitAnswer → List ℕ → Type 0
LawfulAnswers [] alive = Unit
LawfulAnswers (reported pid status ∷ answers) alive =
    (has_pid pid alive ≡ true) × LawfulAnswers answers (left_by pid status alive)
LawfulAnswers (interrupted ∷ answers) alive = LawfulAnswers answers alive
LawfulAnswers (no_child ∷ answers) alive = alive ≡ []
LawfulAnswers (wait_failed ∷ answers) alive = ⊥

-- What never changes of a job.
pub record Same (job job' : Job) : Type 0 where
  pub address : job'.address ≡ job.address
  pub id : job'.id ≡ job.id
  pub pgid : job'.pgid ≡ job.pgid
  pub pids : job'.pids ≡ job.pids
  pub command : job'.command ≡ job.command

update_job-Same : (status : WaitStatus) (job : Job) → Same job (update_job status job)
unfolding update_job one_less
update_job-Same was_stopped job = ground arith
update_job-Same was_continued job = ground arith
update_job-Same exited job = ground arith
update_job-Same signaled job = ground arith
update_job-Same other job = ground arith

Same-trans : (a b c : Job) → Same a b → Same b c → Same a c
Same-trans a b c p q = record {
  address = q.address ∙ p.address;
  id = q.id ∙ p.id;
  pgid = q.pgid ∙ p.pgid;
  pids = q.pids ∙ p.pids;
  command = q.command ∙ p.command;
}

Same-refl : (job : Job) → Same job job
Same-refl job = record { address = refl; id = refl; pgid = refl; pids = refl; command = refl }

pub same_state-stopped : (s : JobState) → same_state s stopped ≡ true → s ≡ stopped
unfolding same_state
same_state-stopped running h = absurd (ground arith)
same_state-stopped stopped h = refl
same_state-stopped done h = absurd (ground arith)

-- The loop is left where no process is alive or the job is stopped, and goes on where one is.
test_failed :
    (job : Job) (alive : List ℕ)
    → Counts job alive
    → waits_for (some job) ≡ false
    → (alive ≡ []) ⊎ (job.state ≡ stopped)
test_failed job [] c h = inl refl
test_failed job (p ∷ alive) c h = inr (same_state-stopped job.state (is_stopped h))
  where
    is_stopped : waits_for (some job) ≡ false → same_state job.state stopped ≡ true
    is_stopped e = unfold waits_for in ground (arith, c.remaining)

test_passed :
    (job : Job) (alive : List ℕ) → Counts job alive → waits_for (some job) ≡ true → 0 < length alive
unfolding waits_for
test_passed job alive c h = ground (arith, c.remaining)

module _ (post : List Job) (next_id : ℕ) where
  abbrev pub table_of : Job → JobList
  table_of job = record { jobs = job ∷ post; next_id = next_id }

  -- The job when the loop is left after the answers `seen`, which leave the processes `alive`. The loop
  -- waits on only when all the answers are used up.
  pub data LoopEnd (job : Job) (w : Waited) (answers : List WaitAnswer) (left : List ℕ)
      : Type 0 where
    loop_over :
        (job' : Job) (alive : List ℕ) (seen rest : List WaitAnswer)
        → answers ≡ seen ++ rest
        → alive ≡ left_after (reports seen) left
        → Same job job'
        → Counts job' alive
        → (alive ≡ []) ⊎ (job'.state ≡ stopped)
        → w ≡ over (table_of job')
        → LoopEnd job w answers left
    loop_still :
        (job' : Job) (alive : List ℕ)
        → Same job job'
        → Counts job' alive
        → alive ≡ left_after (reports answers) left
        → 0 < length alive
        → w ≡ still (table_of job')
        → LoopEnd job w answers left

  pub job_at-head :
      (job : Job) (address : ℕ) → job.address ≡ address → job_at address (job ∷ post) ≡ some job
  unfolding job_at
  job_at-head job address e = ground arith

  -- An answer that tells of no process, and one that does, before the others.
  LoopEnd-interrupted :
      (job : Job) (w : Waited) (answers : List WaitAnswer) (alive : List ℕ)
      → LoopEnd job w answers alive
      → LoopEnd job w (interrupted ∷ answers) alive
  LoopEnd-interrupted job w answers alive (loop_over job' a seen rest split from s c e f) =
      loop_over job' a (interrupted ∷ seen) rest (ap (λ l. interrupted ∷ l) split) from s c e f
  LoopEnd-interrupted job w answers alive (loop_still job' a s c e l f) =
      loop_still job' a s c e l f

  LoopEnd-reported :
      (pid : ℕ) (status : WaitStatus) (a b : Job) (w : Waited) (answers : List WaitAnswer)
      (alive : List ℕ)
      → Same a b
      → LoopEnd b w answers (left_by pid status alive)
      → LoopEnd a w (reported pid status ∷ answers) alive
  LoopEnd-reported pid status a b w answers alive s
        (loop_over job' k seen rest split from q c e f) =
      loop_over job' k (reported pid status ∷ seen) rest (ap (λ l. reported pid status ∷ l) split)
        from (Same-trans a b job' s q) c e f
  LoopEnd-reported pid status a b w answers alive s (loop_still job' k q c e l f) =
      loop_still job' k (Same-trans a b job' s q) c e l f

  -- The loop is left before the first answer.
  left_at_once :
      (job : Job) (answers : List WaitAnswer) (alive : List ℕ)
      → Counts job alive
      → (alive ≡ []) ⊎ (job.state ≡ stopped)
      → LoopEnd job (over (table_of job)) answers alive
  left_at_once job answers alive c e =
      loop_over job alive [] answers refl refl (Same-refl job) c e refl

  update_head :
      (pid : ℕ) (status : WaitStatus) (job : Job)
      → has_pid pid job.pids ≡ true
      → jobs_update_status (table_of job) pid status ≡ table_of (update_job status job)
  unfolding jobs_update_status
  update_head pid status job h =
      ap (λ (l : List Job). record { jobs = l; next_id = next_id })
        (update_pid-first pid status [] post job tt h)

  -- The loop, from a job at the head of the table on.
  pub wait_loop-head :
      (answers : List WaitAnswer) (job : Job) (alive pids : List ℕ) (address : ℕ)
      → job.address ≡ address
      → job.pids ≡ pids
      → ((q : ℕ) → has_pid q alive ≡ true → has_pid q pids ≡ true)
      → Counts job alive
      → LawfulAnswers answers alive
      → LoopEnd job (wait_loop address (table_of job) answers) answers alive
  unfolding wait_loop
  wait_loop-head [] job alive pids address a p sub c law =
      elim (Bool-cases (waits_for (some job))) [
        | inl e ↦
            rw (job_at-head job address a, e)
              (loop_still job alive (Same-refl job) c refl (test_passed job alive c e) refl)
        | inr e ↦
            rw (job_at-head job address a, e)
              (left_at_once job _ alive c (test_failed job alive c e))
      ]
  wait_loop-head (reported pid status ∷ answers) job alive pids address a p sub (c) (h, law) =
      elim (Bool-cases (waits_for (some job))) [
        | inl e ↦
            rw (job_at-head job address a, e, update_head pid status job (rw p (sub pid h)))
              (LoopEnd-reported pid status job (update_job status job) _ answers alive
                (update_job-Same status job)
                (wait_loop-head answers (update_job status job) (left_by pid status alive) pids
                  address ((update_job-Same status job).address ∙ a)
                  ((update_job-Same status job).pids ∙ p)
                  (λ q hq. sub q (left_by-has_pid q pid status alive hq))
                  (update_job-Counts job pid status alive h c) law))
        | inr e ↦
            rw (job_at-head job address a, e)
              (left_at_once job _ alive c (test_failed job alive c e))
      ]
  wait_loop-head (interrupted ∷ answers) job alive pids address a p sub c law =
      elim (Bool-cases (waits_for (some job))) [
        | inl e ↦
            rw (job_at-head job address a, e)
              (LoopEnd-interrupted job _ answers alive
                (wait_loop-head answers job alive pids address a p sub c law))
        | inr e ↦
            rw (job_at-head job address a, e)
              (left_at_once job _ alive c (test_failed job alive c e))
      ]
  wait_loop-head (no_child ∷ answers) job alive pids address a p sub c law =
      left_at_once job (no_child ∷ answers) alive c (inl law)
  wait_loop-head (wait_failed ∷ answers) job alive pids address a p sub c law = absurd law
