-- ===== src/Shell/Line/Valid.antt =====
-- shell_run_line of shell/shell.c keeps the state of the shell valid.
use embedded_systems_runtime.Prelude.{
  ℕ, ◌≤◌, ◌≡◌, ◌≢◌, Option, none, some, List, [], ◌∷◌, All, ◌-◌, ◌||◌, length, get_or,
  length-append, length-drop, drop, if_both, arith,
}
use embedded_systems_runtime.Shell.Jobs.{
  Job, JobList, running, done, stopped, same_state, jobs_update_status,
}
use embedded_systems_runtime.Shell.Jobs.Table.{
  IsValid, jobs_add-IsValid, jobs_update_status-IsValid,
}
use embedded_systems_runtime.Shell.Jobs.Removal.{jobs_remove-IsValid}
use embedded_systems_runtime.Shell.Parser.{ShellPipeline, is_empty}
use embedded_systems_runtime.Shell.History.{ShellState, strip_line, push_line, history_add}
use embedded_systems_runtime.Shell.Foreground.{
  Run, returned, waiting, WaitAnswer, reported, interrupted, no_child, wait_failed, job_at,
  waits_for, Waited, over, still, wait_loop, leave_job, after_wait, wait_foreground_job, all_made,
  forked, Answers, add_job, track_children, execute_external_pipeline,
}

-- The table is valid, and the history is not longer than its array.
pub record IsSound (state : ShellState) : Type 0 where
  pub table : IsValid state.jobs
  pub bounded : length state.history ≤ 100

-- No job is where the next one is allocated.
abbrev pub Fresh : ℕ → ShellState → Type 0
Fresh address state = All (λ o. address ≢ o.address) state.jobs.jobs

abbrev pub SoundRun : Run → Type 0
SoundRun (returned rc state out) = IsSound state
SoundRun (waiting state) = IsSound state

abbrev SoundWaited : Waited → Type 0
SoundWaited (over list) = IsValid list
SoundWaited (still list) = IsValid list

wait_loop-Sound :
    (address : ℕ) (list : JobList) (answers : List WaitAnswer)
    → IsValid list
    → SoundWaited (wait_loop address list answers)
unfolding wait_loop
wait_loop-Sound address list [] v =
    if_both SoundWaited (waits_for (job_at address list.jobs)) (still list) (over list) v v
wait_loop-Sound address list (reported pid status ∷ answers) v =
    if_both SoundWaited (waits_for (job_at address list.jobs))
      (wait_loop address (jobs_update_status list pid status) answers) (over list)
      (wait_loop-Sound address (jobs_update_status list pid status) answers
        (jobs_update_status-IsValid list pid status v))
      v
wait_loop-Sound address list (interrupted ∷ answers) v =
    if_both SoundWaited (waits_for (job_at address list.jobs)) (wait_loop address list answers)
      (over list) (wait_loop-Sound address list answers v) v
wait_loop-Sound address list (no_child ∷ answers) v = v
wait_loop-Sound address list (wait_failed ∷ answers) v = v

leave_job-Sound :
    (state : ShellState) (list : JobList) (job : Option Job)
    → IsSound state
    → IsValid list
    → SoundRun (leave_job state list job)
unfolding leave_job
leave_job-Sound state list none s v = record { table = v; bounded = s.bounded }
leave_job-Sound state list (some job) s v =
    if_both SoundRun (same_state job.state done) _ _
      (record { table = jobs_remove-IsValid list (some job) v; bounded = s.bounded })
      (if_both SoundRun (same_state job.state stopped) _ _
        (record { table = v; bounded = s.bounded }) (record { table = v; bounded = s.bounded }))

after_wait-Sound :
    (state : ShellState) (address : ℕ) (w : Waited)
    → IsSound state
    → SoundWaited w
    → SoundRun (after_wait state address w)
unfolding after_wait
after_wait-Sound state address (over list) s v =
    leave_job-Sound state list (job_at address list.jobs) s v
after_wait-Sound state address (still list) s v = record { table = v; bounded = s.bounded }

pub wait_foreground_job-Sound :
    (state : ShellState) (address : ℕ) (answers : List WaitAnswer)
    → IsSound state
    → SoundRun (wait_foreground_job state address answers)
unfolding wait_foreground_job
wait_foreground_job-Sound state address answers s =
    after_wait-Sound state address (wait_loop address state.jobs answers) s
      (wait_loop-Sound address state.jobs answers s.table)

track_children-Sound :
    (answers : Answers) (state : ShellState) (pipeline : ShellPipeline) (source : List ℕ)
    → (pids : Option (List ℕ)) → IsSound state
    → Fresh answers.address state
    → SoundRun (track_children answers state pipeline source pids)
unfolding track_children add_job
track_children-Sound answers state pipeline source none s fresh = s
track_children-Sound answers state pipeline source (some pids) s fresh =
    let added = record state { jobs = add_job answers state.jobs pids source } in
    let sound : IsSound added = record {
      table =
          jobs_add-IsValid answers.address state.jobs (get_or pids 0 0) pids source running fresh
            s.table;
      bounded = s.bounded;
    } in
    if_both SoundRun pipeline.is_background _ _ sound
      (wait_foreground_job-Sound added answers.address answers.waited sound)

pub execute_external_pipeline-Sound :
    (answers : Answers) (state : ShellState) (pipeline : ShellPipeline) (source : List ℕ)
    → IsSound state
    → Fresh answers.address state
    → SoundRun (execute_external_pipeline answers state pipeline source)
unfolding execute_external_pipeline
execute_external_pipeline-Sound answers state pipeline source s fresh =
    if_both SoundRun (all_made answers.pipe_made (length pipeline.commands - 1) 0) _ _
      (track_children-Sound answers state pipeline source
        (forked answers.fork (length pipeline.commands) 0) s fresh)
      s

push_line-Sound :
    (state : ShellState) (copy : List ℕ) → IsSound state → IsSound (push_line state copy)
unfolding push_line
push_line-Sound state copy s = record {
  table = ground (arith, s.table);
  bounded = ground (
    arith,
    s.bounded,
    length-append (drop 1 state.history) (copy ∷ []),
    length-append state.history (copy ∷ []),
    length-drop 1 state.history,
  );
}

pub history_add-Sound :
    (state : ShellState) (line : List ℕ) → IsSound state → IsSound (history_add state line)
unfolding history_add
history_add-Sound state line s =
    if_both IsSound (is_empty line || is_empty (strip_line line)) state
      (push_line state (strip_line line)) s (push_line-Sound state (strip_line line) s)

pub history_add-jobs :
    (state : ShellState) (line : List ℕ) → (history_add state line).jobs ≡ state.jobs
unfolding history_add push_line
history_add-jobs state line = ground arith
