-- ===== src/Shell/Remote.antt =====
-- shell_run_noninteractive of shell/shell.c, with the part of execute_external_pipeline that it uses
-- (track_jobs is 0), and shell_state_init.
pub mod Status
use embedded_systems_runtime.Prelude.{
  ℕ, zero, suc, ◌+◌, ◌-◌, Option, none, some, Bool, true, false, ◌==◌, ◌&&◌, ◌||◌, List, [], ◌∷◌,
  if◌then◌else◌, length, get_or, codes,
}
use embedded_systems_runtime.Shell.Jobs.{jobs_init}
use embedded_systems_runtime.Shell.Parser.{
  Outcome, good, bad, stuck, ShellCommand, ShellPipeline, is_empty, shell_parse_line,
}
use embedded_systems_runtime.Shell.History.{ShellState}
use embedded_systems_runtime.Shell.Foreground.{
  Complaint, pipe_failed, fork_failed, background_refused, builtin_refused, parse_refused, all_made,
  forked,
}
use embedded_systems_runtime.Shell.Interpreter.{same_text}

-- What the macros of <sys/wait.h> tell of the status of a process that has ended.
pub data ExitStatus : Type 0 where
  exited_with killed_by : ℕ → ExitStatus
  unknown_status : ExitStatus

-- What waitpid(pid, &status, 0) returns; on an error `status` stays 0.
pub data ChildAnswer : Type 0 where
  child_ended : ExitStatus → ChildAnswer
  child_interrupted child_failed : ChildAnswer

-- The waits for the `n` processes that are left; `none`, where a wait does not return.
unfoldable pub wait_children : ℕ → List ChildAnswer → ExitStatus → Option ExitStatus
wait_children zero answers last = some last
wait_children (suc n) [] last = none
wait_children (suc n) (child_ended status ∷ answers) last =
    wait_children n answers (if n == 0 then status else last)
wait_children (suc n) (child_interrupted ∷ answers) last = wait_children (suc n) answers last
wait_children (suc n) (child_failed ∷ answers) last =
    wait_children n answers (if n == 0 then exited_with 0 else last)

unfoldable pub exit_code : ExitStatus → ℕ
exit_code (exited_with code) = code
exit_code (killed_by signal) = 128 + signal
exit_code unknown_status = 1

pub data RemoteRun : Type 0 where
  completed : ℕ → RemoteRun
  rejected : ℕ → Complaint → RemoteRun
  unfinished : RemoteRun

unfoldable pub completed_by : Option ExitStatus → RemoteRun
unfolding exit_code
completed_by none = unfinished
completed_by (some status) = completed (exit_code status)

pub record RemoteAnswers : Type 0 where
  pub pipe_made : ℕ → Bool
  pub fork : ℕ → Option ℕ
  pub waited : List ChildAnswer

-- last_status is 0 at first.
unfoldable pub untracked : List ChildAnswer → Option (List ℕ) → RemoteRun
unfolding wait_children completed_by
untracked answers none = rejected 1 fork_failed
untracked answers (some pids) = completed_by (wait_children (length pids) answers (exited_with 0))

unfoldable pub execute_untracked : RemoteAnswers → ShellPipeline → RemoteRun
unfolding all_made forked untracked
execute_untracked answers pipeline =
    if all_made answers.pipe_made (length pipeline.commands - 1) 0
    then untracked answers.waited (forked answers.fork (length pipeline.commands) 0)
    else rejected 1 pipe_failed

unfoldable pub is_forbidden : List ℕ → Bool
unfolding same_text
is_forbidden name =
    same_text name (codes "cd")
    || (same_text name (codes "exit")
        || (same_text name (codes "quit")
            || (same_text name (codes "history")
                || (same_text name (codes "jobs")
                    || (same_text name (codes "fg") || same_text name (codes "bg"))))))

-- The loop over the forbidden names, for a pipeline of these commands.
unfoldable pub forbidden_in : List ShellCommand → Bool
unfolding is_forbidden
forbidden_in (cmd ∷ []) = is_forbidden (get_or cmd.argv 0 [])
forbidden_in _ = false

unfoldable pub first_name : List ShellCommand → List ℕ
first_name [] = []
first_name (cmd ∷ cmds) = get_or cmd.argv 0 []

unfoldable pub run_remote : RemoteAnswers → Outcome ShellPipeline → RemoteRun
unfolding is_empty forbidden_in first_name execute_untracked
run_remote answers (bad e) = rejected 2 (parse_refused e)
run_remote answers stuck = unfinished
run_remote answers (good pipeline) =
    if is_empty pipeline.commands
    then completed 0
    else (if pipeline.is_background
        then rejected 2 background_refused
        else (if forbidden_in pipeline.commands
            then rejected 2 (builtin_refused (first_name pipeline.commands))
            else execute_untracked answers pipeline))

unfoldable pub shell_run_noninteractive : RemoteAnswers → List ℕ → RemoteRun
unfolding run_remote shell_parse_line
shell_run_noninteractive answers line = run_remote answers (shell_parse_line line)

-- The state after the memset and the stores of shell_state_init.
unfoldable pub initial_state : Bool → ShellState
unfolding jobs_init
initial_state interactive = record {
  jobs = jobs_init;
  history = [];
  history_base = 1;
  interactive = interactive;
  should_exit = false;
  sigchld_seen = false;
}
