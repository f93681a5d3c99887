-- ===== src/Shell/Line/Keeps.antt =====
-- Every line that shell_run_line of shell/shell.c runs leaves a valid state.
use embedded_systems_runtime.Prelude.{
  ℕ, ◌≢◌, Option, none, some, false, List, All, subst, sym, if_both,
}
use embedded_systems_runtime.Shell.Jobs.{JobList}
use embedded_systems_runtime.Shell.Jobs.Removal.{jobs_reap-other}
use embedded_systems_runtime.Shell.Parser.{
  Outcome, good, bad, stuck, ShellPipeline, is_empty, shell_parse_line,
}
use embedded_systems_runtime.Shell.History.{
  ShellState, Unsigned, Signed, Expanded, expanded, refused, strip_line, history_add,
  history_expand,
}
use embedded_systems_runtime.Shell.Foreground.{Run}
use embedded_systems_runtime.Shell.Interpreter.{System, reap}
use embedded_systems_runtime.Shell.Line.{
  run_commands, run_builtin, or_external, echo, run_parsed, run_expanded, run_expansion, reap_seen,
  reap_notices, shell_run_line,
}
use embedded_systems_runtime.Shell.Line.Valid.{
  IsSound, Fresh, SoundRun, execute_external_pipeline-Sound, history_add-Sound, history_add-jobs,
}
use embedded_systems_runtime.Shell.Line.Builtins.{
  reap-Sound, add_message-Sound, SoundOption, run_commands-Sound,
}

module _ (strtol : List ℕ → Signed) (system : System) where
  or_external-Sound :
      (state : ShellState) (pipeline : ShellPipeline) (source : List ℕ) (r : Option Run)
      → IsSound state
      → Fresh system.execution.address state
      → SoundOption system r
      → SoundRun (or_external strtol system state pipeline source r)
  unfolding or_external
  or_external-Sound state pipeline source none s fresh h =
      execute_external_pipeline-Sound system.execution state pipeline source s fresh
  or_external-Sound state pipeline source (some run) s fresh h = h

  run_parsed-Sound :
      (state : ShellState) (line typed : List ℕ) (o : Outcome ShellPipeline)
      → IsSound state
      → Fresh system.execution.address state
      → SoundRun (run_parsed strtol system state line typed o)
  unfolding run_parsed run_builtin
  run_parsed-Sound state line typed (bad e) s fresh = s
  run_parsed-Sound state line typed stuck s fresh = s
  run_parsed-Sound state line typed (good pipeline) s fresh =
      let added = history_add state line in
      let sound = history_add-Sound state line s in
      let fresh' : Fresh system.execution.address added =
        subst (λ (l : JobList). All (λ o. system.execution.address ≢ o.address) l.jobs)
          (sym (history_add-jobs state line)) fresh in
      let ran = run_commands strtol system added pipeline.commands in
      if_both SoundRun (is_empty pipeline.commands) _ _ s (
        add_message-Sound (echo strtol state line typed)
          (or_external strtol system added pipeline line ran)
          (or_external-Sound added pipeline line ran sound fresh'
            (run_commands-Sound system strtol added pipeline.commands sound)))

  run_expansion-Sound :
      (state : ShellState) (typed : List ℕ) (e : Expanded)
      → IsSound state
      → Fresh system.execution.address state
      → SoundRun (run_expansion strtol system state typed e)
  unfolding run_expansion run_expanded
  run_expansion-Sound state typed (refused e) s fresh = s
  run_expansion-Sound state typed (expanded line) s fresh =
      if_both SoundRun (is_empty (strip_line line)) _ _ s (
        run_parsed-Sound state (strip_line line) typed (shell_parse_line (strip_line line)) s fresh)

-- Whatever line is run and whatever the system answers, the state that shell_run_line leaves, or in
-- which it waits, has a valid job table and at most a hundred lines of history, if the state before
-- has and the memory for a new job is that of no job.
pub shell_run_line-Sound :
    (strtol : List ℕ → Signed) (strtoul : List ℕ → Unsigned) (system : System) (state : ShellState)
    (line : List ℕ)
    → IsSound state
    → Fresh system.execution.address state
    → SoundRun (shell_run_line strtol strtoul system state line)
unfolding shell_run_line reap_seen
shell_run_line-Sound strtol strtoul system state line s fresh =
    add_message-Sound (reap_notices system state)
      (run_expansion strtol system (reap_seen system state) line
        (history_expand strtoul (reap_seen system state) line))
      (run_expansion-Sound strtol system (reap_seen system state) line
        (history_expand strtoul (reap_seen system state) line)
        (if_both IsSound state.sigchld_seen _ _ reaped s)
        (if_both (Fresh system.execution.address) state.sigchld_seen _ _
          (jobs_reap-other system.execution.address state.jobs state.interactive system.reaped
            s.table fresh)
          fresh))
  where
    reaped : IsSound (record (reap state state.interactive system.reaped) { sigchld_seen = false })
    reaped =
        let r = reap-Sound state state.interactive system.reaped s in
        record { table = r.table; bounded = r.bounded }
