-- ===== src/Shell/Foreground.antt =====
-- wait_foreground_job and execute_external_pipeline of shell/shell.c, as the shell's own process sees
-- them; what a child does before its command runs is in Shell/Redirect. The complaints about a failing
-- setpgid, tcsetpgrp of the shell or waitpid are left out: they change nothing.
pub mod Waits
pub mod Ends
use embedded_systems_runtime.Prelude.{
  ℕ, zero, suc, ◌+◌, ◌-◌, Option, none, some, Bool, true, false, List, [], ◌∷◌, ◌++◌, ◌==◌, ltb,
  not, ◌&&◌, if◌then◌else◌, length, get_or,
}
use embedded_systems_runtime.Shell.Jobs.{
  JobState, running, stopped, done, Job, JobList, Notice, WaitStatus, jobs_add, jobs_update_status,
  jobs_remove, same_state,
}
use embedded_systems_runtime.Shell.Parser.{ShellPipeline, ParseError}
use embedded_systems_runtime.Shell.History.{ShellState, HistoryError}
use embedded_systems_runtime.Prelude.Int.{ℤ}

-- What is printed on err_fd,
pub data Complaint : Type 0 where
  home_not_set cd_failed no_job_id invalid_job_id bg_failed fg_terminal_failed fg_failed pipe_failed
        fork_failed background_refused :
      Complaint
  job_missing : ℤ → Complaint
  history_refused : HistoryError → Complaint
  parse_refused : ParseError → Complaint
  builtin_refused : List ℕ → Complaint

-- and on out_fd or the standard output.
pub data Message : Type 0 where
  complaint : Complaint → Message
  job_notice : Notice → Message
  job_line : Job → Message
  job_stopped job_resumed : ℕ → List ℕ → Message
  job_started : ℕ → ℕ → Message
  history_line : ℕ → List ℕ → Message
  echoed : List ℕ → Message
  help_text : Message

-- A call returned, or it still waits for a process.
pub data Run : Type 0 where
  returned : ℕ → ShellState → List Message → Run
  waiting : ShellState → Run

-- What waitpid(-pgid, &status, WUNTRACED) returns.
pub data WaitAnswer : Type 0 where
  reported : ℕ → WaitStatus → WaitAnswer
  interrupted no_child wait_failed : WaitAnswer

-- What a pointer to a job shows.
unfoldable pub job_at : ℕ → List Job → Option Job
job_at address [] = none
job_at address (job ∷ jobs) = if job.address == address then some job else job_at address jobs

-- job->remaining > 0 && job->state != JOB_STOPPED
unfoldable pub waits_for : Option Job → Bool
unfolding same_state
waits_for none = false
waits_for (some job) = ltb 0 job.remaining && not (same_state job.state stopped)

pub data Waited : Type 0 where
  over still : JobList → Waited

unfoldable pub wait_loop : ℕ → JobList → List WaitAnswer → Waited
unfolding waits_for job_at jobs_update_status
wait_loop address list [] = if waits_for (job_at address list.jobs) then still list else over list
wait_loop address list (reported pid status ∷ answers) =
    let next = wait_loop address (jobs_update_status list pid status) answers in
    if waits_for (job_at address list.jobs) then next else over list
wait_loop address list (interrupted ∷ answers) =
    let next = wait_loop address list answers in
    if waits_for (job_at address list.jobs) then next else over list
wait_loop address list (no_child ∷ answers) = over list
wait_loop address list (wait_failed ∷ answers) = over list

-- What follows the loop, by the state of the job.
unfoldable pub leave_job : ShellState → JobList → Option Job → Run
unfolding jobs_remove same_state
leave_job state list none = returned 0 (record state { jobs = list }) []
leave_job state list (some job) =
    if same_state job.state done
    then returned 0 (record state { jobs = jobs_remove list (some job) }) []
    else (if same_state job.state stopped
        then returned 0 (record state { jobs = list }) (job_stopped job.id job.command ∷ [])
        else returned 0 (record state { jobs = list }) [])

unfoldable pub after_wait : ShellState → ℕ → Waited → Run
unfolding leave_job job_at
after_wait state address (over list) = leave_job state list (job_at address list.jobs)
after_wait state address (still list) = waiting (record state { jobs = list })

unfoldable pub wait_foreground_job : ShellState → ℕ → List WaitAnswer → Run
unfolding wait_loop after_wait
wait_foreground_job state address answers =
    after_wait state address (wait_loop address state.jobs answers)

-- Whether each of the `n` calls of pipe from number `i` on succeeds.
unfoldable pub all_made : (ℕ → Bool) → ℕ → ℕ → Bool
all_made made zero i = true
all_made made (suc n) i = made i && all_made made n (suc i)

unfoldable pub with_pid : Option ℕ → Option (List ℕ) → Option (List ℕ)
with_pid (some pid) (some pids) = some (pid ∷ pids)
with_pid _ _ = none

-- The processes of the `n` calls of fork from number `i` on, or `none`, where one fails.
unfoldable pub forked : (ℕ → Option ℕ) → ℕ → ℕ → Option (List ℕ)
unfolding with_pid
forked fork zero i = some []
forked fork (suc n) i = with_pid (fork i) (forked fork n (suc i))

-- The answers of the system: which pipes are made, the pid of each child, where the job is allocated,
-- and what waitpid returns.
pub record Answers : Type 0 where
  pub pipe_made : ℕ → Bool
  pub fork : ℕ → Option ℕ
  pub address : ℕ
  pub waited : List WaitAnswer

-- pgid is the first child's.
unfoldable pub add_job : Answers → JobList → List ℕ → List ℕ → JobList
unfolding jobs_add
add_job answers list pids source =
    jobs_add answers.address list (get_or pids 0 0) pids source running

-- What follows the last fork, with track_jobs.
unfoldable pub track_children :
    Answers → ShellState → ShellPipeline → List ℕ → Option (List ℕ) → Run
unfolding add_job wait_foreground_job
track_children answers state pipeline source none = returned 1 state (complaint fork_failed ∷ [])
track_children answers state pipeline source (some pids) =
    let added = record state { jobs = add_job answers state.jobs pids source } in
    if pipeline.is_background
    then returned 0 added (job_started state.jobs.next_id (get_or pids 0 0) ∷ [])
    else wait_foreground_job added answers.address answers.waited

-- execute_external_pipeline(state, pipeline, out_fd, err_fd, 1); `source` is pipeline->source.
unfoldable pub execute_external_pipeline : Answers → ShellState → ShellPipeline → List ℕ → Run
unfolding all_made forked track_children
execute_external_pipeline answers state pipeline source =
    if all_made answers.pipe_made (length pipeline.commands - 1) 0
    then track_children answers state pipeline source
        (forked answers.fork (length pipeline.commands) 0)
    else returned 1 state (complaint pipe_failed ∷ [])
