-- ===== src/Shell/Line.antt =====
-- run_builtin and shell_run_line of shell/shell.c, from the parts in Shell/Interpreter.
pub mod Valid
pub mod Builtins
pub mod Keeps
pub mod JobId
use embedded_systems_runtime.Prelude.{
  ℕ, Option, none, some, Bool, true, false, not, ◌&&◌, List, [], ◌∷◌, ◌++◌, if◌then◌else◌, get_or,
}
use embedded_systems_runtime.Prelude.Int.{ℤ}
use embedded_systems_runtime.Shell.Jobs.{JobList, jobs_reap, jobs_remove_done}
use embedded_systems_runtime.Shell.Parser.{
  Outcome, good, bad, stuck, ShellCommand, ShellPipeline, is_empty, empty_command_record,
  shell_parse_line,
}
use embedded_systems_runtime.Shell.History.{
  ShellState, Unsigned, Signed, Expanded, expanded, refused, strip_line, history_add,
  history_expand, builtin_history,
}
use embedded_systems_runtime.Shell.Foreground.{
  Message, complaint, echoed, help_text, Run, returned, waiting, execute_external_pipeline,
  history_refused, parse_refused, no_job_id, invalid_job_id,
}
use embedded_systems_runtime.Shell.Interpreter.{
  same_text, Builtin, change_directory, leave, show_history, show_jobs, foreground, background,
  show_help, external, builtin_of, System, reap, positive, job_text, find_job, messages,
  history_lines, job_lines, builtin_cd, cd_path, add_message, with_job,
}

module _ (strtol : List ℕ → Signed) where
  -- parse_job_id behind the test of argc, from the first argument.
  unfoldable pub parse_job_id : List ℕ → Option ℤ
  unfolding job_text positive is_empty
  parse_job_id text =
      let n = strtol (job_text text) in if is_empty n.end then positive n.value else none

  unfoldable pub with_job_id : System → ShellState → Bool → Option ℤ → Run
  unfolding with_job find_job
  with_job_id system state is_bg none = returned 1 state (complaint invalid_job_id ∷ [])
  with_job_id system state is_bg (some id) = with_job system state is_bg id (find_job state.jobs id)

  -- The builtins fg and bg, behind their call of jobs_reap.
  unfoldable pub builtin_resume : System → ShellState → Bool → List (List ℕ) → Run
  unfolding parse_job_id with_job_id
  builtin_resume system state is_bg (name ∷ text ∷ words) =
      with_job_id system state is_bg (parse_job_id text)
  builtin_resume system state is_bg _ = returned 1 state (complaint no_job_id ∷ [])

  -- jobs_print, behind its call of jobs_reap.
  unfoldable pub builtin_jobs : ShellState → Run
  unfolding jobs_remove_done job_lines
  builtin_jobs state =
      returned 0 (record state { jobs = jobs_remove_done state.jobs }) (job_lines state.jobs.jobs)

  -- `none` where *handled stays 0.
  unfoldable pub run_named : System → ShellState → Builtin → List (List ℕ) → Option Run
  unfolding builtin_cd cd_path history_lines builtin_history builtin_jobs builtin_resume
  run_named system state change_directory argv =
      some (builtin_cd system state (cd_path system argv))
  run_named system state leave argv = some (returned 0 (record state { should_exit = true }) [])
  run_named system state show_history argv =
      some (returned 0 state (history_lines (builtin_history strtol state argv)))
  run_named system state show_jobs argv =
      some (builtin_jobs (reap state false system.reaped_by_builtin))
  run_named system state foreground argv =
      some (builtin_resume system (reap state false system.reaped_by_builtin) false argv)
  run_named system state background argv =
      some (builtin_resume system (reap state false system.reaped_by_builtin) true argv)
  run_named system state show_help argv = some (returned 0 state (help_text ∷ []))
  run_named system state external argv = none

  unfoldable pub run_commands : System → ShellState → List ShellCommand → Option Run
  unfolding run_named builtin_of
  run_commands system state (cmd ∷ []) =
      run_named system state (builtin_of (get_or cmd.argv 0 [])) cmd.argv
  run_commands system state _ = none

  unfoldable pub run_builtin : System → ShellState → ShellPipeline → Option Run
  unfolding run_commands
  run_builtin system state pipeline = run_commands system state pipeline.commands

  unfoldable pub or_external : System → ShellState → ShellPipeline → List ℕ → Option Run → Run
  unfolding execute_external_pipeline
  or_external system state pipeline source none =
      execute_external_pipeline system.execution state pipeline source
  or_external system state pipeline source (some run) = run

  -- The expansion is shown, where it is not the line that was typed.
  unfoldable pub echo : ShellState → List ℕ → List ℕ → List Message
  unfolding same_text
  echo state line typed =
      if not (same_text line typed) && state.interactive then echoed line ∷ [] else []

  -- From the parsed line on; `line` is what was parsed, and `typed` what was typed.
  unfoldable pub run_parsed : System → ShellState → List ℕ → List ℕ → Outcome ShellPipeline → Run
  unfolding is_empty history_add run_builtin or_external add_message echo
  run_parsed system state line typed (bad e) = returned 2 state (complaint (parse_refused e) ∷ [])
  run_parsed system state line typed stuck = waiting state
  run_parsed system state line typed (good pipeline) =
      let added = history_add state line in
      if is_empty pipeline.commands
      then returned 0 state []
      else add_message (echo state line typed)
          (or_external system added pipeline line (run_builtin system added pipeline))

  -- From the expanded line on, less its line ends.
  unfoldable pub run_expanded : System → ShellState → List ℕ → List ℕ → Run
  unfolding is_empty run_parsed shell_parse_line
  run_expanded system state typed line =
      if is_empty line
      then returned 0 state []
      else run_parsed system state line typed (shell_parse_line line)

  unfoldable pub run_expansion : System → ShellState → List ℕ → Expanded → Run
  unfolding run_expanded strip_line
  run_expansion system state typed (refused e) =
      returned 1 state (complaint (history_refused e) ∷ [])
  run_expansion system state typed (expanded line) =
      run_expanded system state typed (strip_line line)

-- The call of jobs_reap, where SIGCHLD was seen, and its notices.
unfoldable pub reap_seen : System → ShellState → ShellState
reap_seen system state =
    if state.sigchld_seen
    then record (reap state state.interactive system.reaped) { sigchld_seen = false }
    else state

unfoldable pub reap_notices : System → ShellState → List Message
unfolding messages
reap_notices system state =
    if state.sigchld_seen
    then messages (jobs_reap state.jobs state.interactive system.reaped).1
    else []

unfoldable pub shell_run_line :
    (List ℕ → Signed) → (List ℕ → Unsigned) → System → ShellState → List ℕ → Run
unfolding reap_seen reap_notices history_expand run_expansion add_message
shell_run_line strtol strtoul system state line = add_message (reap_notices system state) (
    run_expansion strtol system (reap_seen system state) line
      (history_expand strtoul (reap_seen system state) line))
