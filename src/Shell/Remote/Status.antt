-- ===== src/Shell/Remote/Status.antt =====
-- What shell_run_noninteractive of shell/shell.c runs, and the status that it returns.
use embedded_systems_runtime.Prelude.{
  ℕ, zero, suc, ◌+◌, ◌-◌, ◌≡◌, ◌⊎◌, refl, sym, subst, ap, ◌∙◌, inl, inr, none, some, true, false,
  ◌==◌, List, [], ◌∷◌, ◌++◌, if◌then◌else◌, length, get_or, Bool-cases, arith, replicate,
}
use embedded_systems_runtime.Shell.Parser.{
  ShellCommand, ShellPipeline, good, is_empty, shell_parse_line,
}
use embedded_systems_runtime.Shell.History.{ShellState, Signed}
use embedded_systems_runtime.Shell.Foreground.{
  builtin_refused, returned, help_text, all_made, forked,
}
use embedded_systems_runtime.Shell.Interpreter.{show_help, external, builtin_of, System}
use embedded_systems_runtime.Shell.Line.{run_named, run_commands, run_builtin}
use embedded_systems_runtime.Shell.Remote.{
  ExitStatus, exited_with, killed_by, unknown_status, RemoteRun, ChildAnswer, child_ended,
  child_interrupted, wait_children, exit_code, completed, rejected, completed_by, RemoteAnswers,
  untracked, execute_untracked, is_forbidden, forbidden_in, first_name, run_remote,
  shell_run_noninteractive,
}

allowed_name :
    (name : List ℕ)
    → is_forbidden name ≡ false
    → (builtin_of name ≡ show_help) ⊎ (builtin_of name ≡ external)
unfolding is_forbidden builtin_of
allowed_name name h = ground arith

-- The answers when each process ends with its status, after some interruptions.
unfoldable pub ends_of : List (ℕ × ExitStatus) → List ChildAnswer
ends_of [] = []
ends_of ((k, status) ∷ ends) = replicate k child_interrupted ++ (child_ended status ∷ ends_of ends)

unfoldable pub last_status : ExitStatus → List (ℕ × ExitStatus) → ExitStatus
last_status last [] = last
last_status last ((k, status) ∷ ends) = last_status status ends

wait_children-interrupted :
    (k n : ℕ) (answers : List ChildAnswer) (last : ExitStatus)
    → wait_children (suc n) (replicate k child_interrupted ++ answers) last
      ≡ wait_children (suc n) answers last
unfolding wait_children
wait_children-interrupted zero n answers last = refl
wait_children-interrupted (suc k) n answers last = wait_children-interrupted k n answers last

last_wins :
    (status last : ExitStatus) (ends : List (ℕ × ExitStatus))
    → last_status (if length ends == 0 then status else last) ends ≡ last_status status ends
unfolding last_status
last_wins status last [] = refl
last_wins status last ((k, s) ∷ ends) = refl

wait_children-ends :
    (ends : List (ℕ × ExitStatus)) (last : ExitStatus)
    → wait_children (length ends) (ends_of ends) last ≡ some (last_status last ends)
unfolding wait_children ends_of last_status
wait_children-ends [] last = refl
wait_children-ends ((k, status) ∷ ends) last =
    wait_children-interrupted k (length ends) (child_ended status ∷ ends_of ends) last
    ∙ wait_children-ends ends (if length ends == 0 then status else last)
    ∙ ap some (last_wins status last ends)

-- What a run returns after a last process with this status: its exit status, 128 and the number of the
-- signal that killed it, or 1 where the status is of neither kind.
abbrev pub Reports : ExitStatus → RemoteRun → Type 0
Reports (exited_with code) run = run ≡ completed code
Reports (killed_by signal) run = run ≡ completed (128 + signal)
Reports unknown_status run = run ≡ completed 1

completed_by-Reports : (status : ExitStatus) → Reports status (completed_by (some status))
unfolding completed_by exit_code
completed_by-Reports (exited_with code) = refl
completed_by-Reports (killed_by signal) = refl
completed_by-Reports unknown_status = refl

-- A line whose pipeline runs in the foreground and is no forbidden builtin, when its pipes and
-- processes are made and each process ends, however often the waits are interrupted, returns the
-- status of the last process: its exit status, or 128 and the number of the signal that killed it (1,
-- where the system reports neither).
pub shell_run_noninteractive-status :
    (answers : RemoteAnswers) (line : List ℕ) (pipeline : ShellPipeline) (pids : List ℕ)
    (ends : List (ℕ × ExitStatus))
    → shell_parse_line line ≡ good pipeline
    → is_empty pipeline.commands ≡ false
    → pipeline.is_background ≡ false
    → forbidden_in pipeline.commands ≡ false
    → all_made answers.pipe_made (length pipeline.commands - 1) 0 ≡ true
    → forked answers.fork (length pipeline.commands) 0 ≡ some pids
    → answers.waited ≡ ends_of ends
    → length ends ≡ length pids
    → Reports (last_status (exited_with 0) ends) (shell_run_noninteractive answers line)
unfolding shell_run_noninteractive run_remote execute_untracked untracked
shell_run_noninteractive-status answers line pipeline pids ends parsed some_commands fg allowed made
      f w l =
    subst (Reports (last_status (exited_with 0) ends))
      (sym (
        rw (parsed, some_commands, fg, allowed, made, f, w, ← l)
          (ap completed_by (wait_children-ends ends (exited_with 0)))))
      (completed_by-Reports (last_status (exited_with 0) ends))

named_allowed :
    (strtol : List ℕ → Signed) (system : System) (state : ShellState) (name : List ℕ)
    (argv : List (List ℕ))
    → is_forbidden name ≡ false
    → (run_named strtol system state (builtin_of name) argv ≡ none)
      ⊎ (run_named strtol system state (builtin_of name) argv
          ≡ some (returned 0 state (help_text ∷ [])))
unfolding run_named
named_allowed strtol system state name argv h = either (allowed_name name h)
  where
    either :
        (builtin_of name ≡ show_help) ⊎ (builtin_of name ≡ external)
        → (run_named strtol system state (builtin_of name) argv ≡ none)
          ⊎ (run_named strtol system state (builtin_of name) argv
              ≡ some (returned 0 state (help_text ∷ [])))
    either (inl e) = inr (rw e refl)
    either (inr e) = inl (rw e refl)

commands_allowed :
    (strtol : List ℕ → Signed) (system : System) (state : ShellState) (cmds : List ShellCommand)
    → forbidden_in cmds ≡ false
    → (run_commands strtol system state cmds ≡ none)
      ⊎ (run_commands strtol system state cmds ≡ some (returned 0 state (help_text ∷ [])))
unfolding run_commands forbidden_in
commands_allowed strtol system state [] h = inl refl
commands_allowed strtol system state (cmd ∷ []) h =
    named_allowed strtol system state (get_or cmd.argv 0 []) cmd.argv h
commands_allowed strtol system state (cmd ∷ c ∷ cmds) h = inl refl

-- No builtin that reads or changes the state of the shell runs noninteractively: a line whose pipeline
-- is not empty and runs in the foreground is refused with status 2 and the name of its command,
-- whatever the system answers, or the interactive shell too would run it as a command of the system
-- or print the help, whatever its state.
pub shell_run_noninteractive-refuses :
    (strtol : List ℕ → Signed) (system : System) (state : ShellState) (line : List ℕ)
    (pipeline : ShellPipeline)
    → shell_parse_line line ≡ good pipeline
    → is_empty pipeline.commands ≡ false
    → pipeline.is_background ≡ false
    → ((answers : RemoteAnswers)
        → shell_run_noninteractive answers line
          ≡ rejected 2 (builtin_refused (first_name pipeline.commands)))
      ⊎ ((run_builtin strtol system state pipeline ≡ none)
          ⊎ (run_builtin strtol system state pipeline ≡ some (returned 0 state (help_text ∷ []))))
unfolding shell_run_noninteractive run_remote run_builtin
shell_run_noninteractive-refuses strtol system state line pipeline parsed some_commands fg =
    elim (Bool-cases (forbidden_in pipeline.commands)) [
      | inl e ↦ inl (λ answers. rw (parsed, some_commands, fg, e) refl)
      | inr e ↦ inr (commands_allowed strtol system state pipeline.commands e)
    ]
