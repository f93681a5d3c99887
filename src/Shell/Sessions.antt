-- ===== src/Shell/Sessions.antt =====
-- The theorems on the shell of shell/shell.c at short sessions.
use embedded_systems_runtime.Prelude.{
  ℕ, ◌+◌, ◌*◌, ◌^◌, ◌≤◌, ◌≡◌, refl, inl, none, some, true, false, List, [], ◌∷◌, length, codes,
  arith,
}
use embedded_systems_runtime.Prelude.Int.{pos}
use embedded_systems_runtime.Shell.Jobs.{jobs_init, exited}
use embedded_systems_runtime.Shell.Jobs.Table.{jobs_init-IsValid}
use embedded_systems_runtime.Shell.Parser.{
  ShellCommand, ShellPipeline, shell_parse_line, is_space, read_word, action, is_empty,
}
use embedded_systems_runtime.Shell.History.{ShellState, Unsigned, Signed, history_lookup}
use embedded_systems_runtime.Shell.History.Numbering.{
  Stands, enter, log_of, recent, history_keeps_numbers,
}
use embedded_systems_runtime.Shell.Redirect.{at_fork, setup_command_fds}
use embedded_systems_runtime.Shell.Redirect.Ends.{wired}
use embedded_systems_runtime.Shell.Redirect.Wiring.{Gives, setup_command_fds-Gives}
use embedded_systems_runtime.Shell.Foreground.{
  Answers, reported, interrupted, all_made, forked, with_pid,
}
use embedded_systems_runtime.Shell.Interpreter.{System, continued}
use embedded_systems_runtime.Shell.Line.{parse_job_id, shell_run_line}
use embedded_systems_runtime.Shell.Line.Valid.{IsSound, SoundRun}
use embedded_systems_runtime.Shell.Line.Keeps.{shell_run_line-Sound}
use embedded_systems_runtime.Shell.Line.JobId.{parse_job_id-wraps}
use embedded_systems_runtime.Shell.Remote.{
  RemoteAnswers, completed, killed_by, exited_with, shell_run_noninteractive, forbidden_in,
}
use embedded_systems_runtime.Shell.Remote.Status.{
  ends_of, last_status, shell_run_noninteractive-status,
}

-- strtol and strtoul, where the text is `7`, and where it is not.
abbrev reads_seven : List ℕ → Signed
reads_seven text = record { value = pos (2 ^ 32 * 1 + 7); end = [] }

abbrev reads_two : List ℕ → Unsigned
reads_two text = record { value = 2; end = []; errno = false }

abbrev fresh_state : ShellState
fresh_state = record {
  jobs = jobs_init;
  history = [];
  history_base = 1;
  interactive = true;
  should_exit = false;
  sigchld_seen = true;
}

fresh_state-IsSound : IsSound fresh_state
fresh_state-IsSound = record { table = jobs_init-IsValid; bounded = omega arith }

fresh_state-Stands : Stands fresh_state []
fresh_state-Stands = record {
  before = [];
  whole = refl;
  number = refl;
  bounded = omega arith;
  full = inl refl;
}

abbrev some_answers : Answers
some_answers = record {
  pipe_made = λ i. true;
  fork = λ i. some (10 + i);
  address = 4096;
  waited = interrupted ∷ reported 10 exited ∷ [];
}

abbrev some_system : System
some_system = record {
  reaped = [];
  reaped_by_builtin = [];
  home = none;
  chdir = λ path. true;
  kill = continued;
  terminal = true;
  execution = some_answers;
}

shell_run_line-Sound_example :
    SoundRun (shell_run_line reads_seven reads_two some_system fresh_state (codes "ls"))
unfolding jobs_init
shell_run_line-Sound_example =
    shell_run_line-Sound reads_seven reads_two some_system fresh_state (codes "ls")
      fresh_state-IsSound tt

abbrev one_line : List (List ℕ)
one_line = codes "ls" ∷ codes "wc" ∷ []

history_keeps_numbers_example :
    (length (enter fresh_state one_line).history ≤ 100)
    × (history_lookup (enter fresh_state one_line) 2 ≡ recent (log_of [] one_line) 2)
history_keeps_numbers_example =
    history_keeps_numbers fresh_state [] one_line 2 fresh_state-Stands (omega arith)

parse_job_id-wraps_example : parse_job_id reads_seven (codes "%4294967303") ≡ some (pos 7)
parse_job_id-wraps_example =
    parse_job_id-wraps reads_seven (codes "%4294967303") 1 7 refl (omega arith) (omega arith)

abbrev command_of : List ℕ → ShellCommand
command_of name = record {
  argv = name ∷ [];
  input_path = none;
  output_path = none;
  append_output = false;
}

abbrev ls_only : ShellPipeline
ls_only = record { commands = command_of (codes "ls") ∷ []; is_background = false }

abbrev ls_wc : ShellPipeline
ls_wc = record {
  commands = command_of (codes "ls") ∷ command_of (codes "wc") ∷ [];
  is_background = false;
}

setup_command_fds-Gives_example :
    Gives
      (λ s t. true)
      (λ path flags. true)
      (setup_command_fds (λ s t. true) (λ path flags. true) ls_wc 1 (some 5) (some 1_000) at_fork)
      (wired ls_wc 1 (some 5) (some 1_000))
unfolding shell_parse_line is_space read_word action
setup_command_fds-Gives_example =
    setup_command_fds-Gives (λ s t. true) (λ path flags. true) (codes "ls|wc") ls_wc 1 (some 5)
      (some 1_000) refl (omega arith) (λ e. absurd (ground arith)) (λ e. absurd (ground arith))
      (λ e. absurd (ground arith))

abbrev remote_answers : RemoteAnswers
remote_answers = record {
  pipe_made = λ i. true;
  fork = λ i. some (10 + i);
  waited = ends_of ((0, exited_with 3) ∷ (2, killed_by 9) ∷ []);
}

shell_run_noninteractive-status_example :
    shell_run_noninteractive remote_answers (codes "ls|wc") ≡ completed 137
unfolding shell_parse_line is_space read_word action is_empty forbidden_in all_made forked with_pid
    ends_of last_status
shell_run_noninteractive-status_example =
    shell_run_noninteractive-status remote_answers (codes "ls|wc") ls_wc (10 ∷ 11 ∷ [])
      ((0, exited_with 3) ∷ (2, killed_by 9) ∷ []) refl refl refl refl refl refl refl refl
