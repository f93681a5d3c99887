-- ===== src/Shell/Foreground/Ends.antt =====
-- How a foreground job of shell/shell.c ends: by wait_foreground_job, and by
-- execute_external_pipeline, which starts it.
use embedded_systems_runtime.Prelude.{
  ℕ, ◌<◌, ◌≡◌, ◌⊎◌, refl, sym, subst, ap, ap₂, inl, inr, some, List, [], ◌∷◌, ◌++◌, length, arith,
}
use embedded_systems_runtime.Shell.Jobs.{
  Job, JobList, done, stopped, running, jobs_remove, remove_address, same_state,
}
use embedded_systems_runtime.Shell.Jobs.Tracking.{left_after, Counts}
use embedded_systems_runtime.Shell.History.{ShellState}
use embedded_systems_runtime.Shell.Foreground.{
  Run, returned, waiting, job_stopped, WaitAnswer, Waited, wait_loop, leave_job, after_wait,
  wait_foreground_job,
}
use embedded_systems_runtime.Shell.Foreground.Waits.{
  reports, LawfulAnswers, Same, LoopEnd, loop_over, loop_still, job_at-head, wait_loop-head,
}
use embedded_systems_runtime.Shell.Foreground.{Answers}
use embedded_systems_runtime.Prelude.{get_or}

-- How the wait for the first job of the table ends: after answers by which all its processes have
-- ended, it is removed; after answers by which it is stopped and processes are left, it stays; or, when
-- all the answers came, processes are left.
pub data ForegroundEnd (state : ShellState) (job : Job) (post : List Job)
    (answers : List WaitAnswer) (r : Run) : Type 0 where
  has_ended :
      (seen rest : List WaitAnswer)
      → answers ≡ seen ++ rest
      → left_after (reports seen) job.pids ≡ []
      → r
        ≡ returned 0
            (record state { jobs = record { jobs = post; next_id = state.jobs.next_id } })
            []
      → ForegroundEnd state job post answers r
  has_stopped :
      (job' : Job) (seen rest : List WaitAnswer)
      → answers ≡ seen ++ rest
      → Same job job'
      → Counts job' (left_after (reports seen) job.pids)
      → 0 < length (left_after (reports seen) job.pids)
      → job'.state ≡ stopped
      → r
        ≡ returned 0
            (record state { jobs = record { jobs = job' ∷ post; next_id = state.jobs.next_id } })
            (job_stopped job.id job.command ∷ [])
      → ForegroundEnd state job post answers r
  not_ended :
      (job' : Job)
      → Same job job'
      → Counts job' (left_after (reports answers) job.pids)
      → 0 < length (left_after (reports answers) job.pids)
      → r
        ≡ waiting
            (record state { jobs = record { jobs = job' ∷ post; next_id = state.jobs.next_id } })
      → ForegroundEnd state job post answers r

module _ (state : ShellState) (job : Job) (post : List Job) where
  leave_job-end :
      (job' : Job) (alive : List ℕ) (answers seen rest : List WaitAnswer)
      → answers ≡ seen ++ rest
      → alive ≡ left_after (reports seen) job.pids
      → Same job job'
      → Counts job' alive
      → (alive ≡ []) ⊎ (job'.state ≡ stopped)
      → ForegroundEnd state job post answers (
          leave_job state (record { jobs = job' ∷ post; next_id = state.jobs.next_id }) (some job'))
  unfolding leave_job same_state jobs_remove remove_address
  leave_job-end job' [] answers seen rest split from s c e =
      let f : job'.state ≡ done = c.ended.1 refl in
      has_ended seen rest split (sym from) (ground arith)
  leave_job-end job' (p ∷ alive) answers seen rest split from s c (inl e) = absurd (ground arith)
  leave_job-end job' (p ∷ alive) answers seen rest split from s c (inr e) =
      has_stopped job' seen rest split s (subst (Counts job') from c)
        (subst (λ (l : List ℕ). 0 < length l) from (omega arith)) e
        (simp e (
          ap₂
            (λ (i : ℕ) (t : List ℕ).
              returned 0
                (record state {
                  jobs = record { jobs = job' ∷ post; next_id = state.jobs.next_id };
                })
                (job_stopped i t ∷ []))
            s.id s.command))

  after_wait-end :
      (w : Waited) (answers : List WaitAnswer)
      → LoopEnd post state.jobs.next_id job w answers job.pids
      → ForegroundEnd state job post answers (after_wait state job.address w)
  unfolding after_wait
  after_wait-end w answers (loop_over job' alive seen rest split from s c e f) =
      rw (f, job_at-head post state.jobs.next_id job' job.address s.address)
        (leave_job-end job' alive answers seen rest split from s c e)
  after_wait-end w answers (loop_still job' alive s c e l f) =
      rw f
        (not_ended job' s (subst (Counts job') e c) (subst (λ (k : List ℕ). 0 < length k) e l) refl)

  -- wait_foreground_job for the first job of the table, which counts its processes.
  pub wait_foreground_job-end :
      (answers : List WaitAnswer)
      → state.jobs.jobs ≡ job ∷ post
      → Counts job job.pids
      → LawfulAnswers answers job.pids
      → ForegroundEnd state job post answers (wait_foreground_job state job.address answers)
  unfolding wait_foreground_job after_wait
  wait_foreground_job-end answers e c law =
      after_wait-end (wait_loop job.address state.jobs answers) answers (
        subst
          (λ (l : JobList).
            LoopEnd post state.jobs.next_id job (wait_loop job.address l answers) answers job.pids)
          (sym (ap (λ (l : List Job). record { jobs = l; next_id = state.jobs.next_id }) e))
          (wait_loop-head post state.jobs.next_id answers job job.pids job.pids job.address refl
            refl (λ q h. h) c law))

-- The job of a pipeline, when its last process is forked.
abbrev pub new_job : Answers → ShellState → List ℕ → List ℕ → Job
new_job answers state pids source = record {
  address = answers.address;
  id = state.jobs.next_id;
  pgid = get_or pids 0 0;
  pids = pids;
  remaining = length pids;
  state = running;
  command = source;
}
