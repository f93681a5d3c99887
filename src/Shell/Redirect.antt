-- ===== src/Shell/Redirect.antt =====
-- redirect_file and setup_command_fds of shell/shell.c: what the first three descriptors of a child
-- of the pipeline stand for when it runs its command.
pub mod Ends
pub mod Wiring
use embedded_systems_runtime.Prelude.{
  ℕ, zero, suc, ◌+◌, ◌-◌, Option, none, some, Bool, List, [], ◌==◌, ltb, not, ◌&&◌, if◌then◌else◌,
  length, get_or,
}
use embedded_systems_runtime.Shell.Parser.{ShellPipeline, ShellCommand, empty_command_record}

-- O_RDONLY, O_WRONLY | O_CREAT | O_TRUNC and O_WRONLY | O_CREAT | O_APPEND
pub data Flags : Type 0 where
  read_only truncate append_to : Flags

-- An open file: that of a descriptor which the shell had, an end of pipe `i`, or a file that was
-- opened.
pub data Stream : Type 0 where
  inherited : ℕ → Stream
  pipe_read pipe_write : ℕ → Stream
  file : List ℕ → Flags → Stream

pub record Descriptors : Type 0 where
  pub stdin : Stream
  pub stdout : Stream
  pub stderr : Stream

abbrev pub at_fork : Descriptors
at_fork = record { stdin = inherited 0; stdout = inherited 1; stderr = inherited 2 }

unfoldable pub stream_of : Descriptors → ℕ → Stream
stream_of fds n =
    if n == 0
    then fds.stdin
    else (if n == 1 then fds.stdout else (if n == 2 then fds.stderr else inherited n))

unfoldable pub replace : Descriptors → ℕ → Stream → Descriptors
replace fds target stream =
    if target == 0
    then record fds { stdin = stream }
    else (if target == 1 then record fds { stdout = stream } else record fds { stderr = stream })

unfoldable pub and_then :
    Option Descriptors → (Descriptors → Option Descriptors) → Option Descriptors
and_then none next = none
and_then (some fds) next = next fds

-- `dup2` and `open_file` tell which calls the system lets succeed. A negative descriptor is `none`, and
-- so is a result of -1.
module _ (dup2 : Stream → ℕ → Bool) (open_file : List ℕ → Flags → Bool) where
  unfoldable pub dup2_onto : Stream → ℕ → Descriptors → Option Descriptors
  unfolding replace
  dup2_onto stream target fds =
      if dup2 stream target then some (replace fds target stream) else none

  -- dup2(fd, target), where fd >= 0 and it is another one.
  unfoldable pub dup2_other : Option ℕ → ℕ → Descriptors → Option Descriptors
  unfolding dup2_onto stream_of
  dup2_other none target fds = some fds
  dup2_other (some fd) target fds =
      if fd == target then some fds else dup2_onto (stream_of fds fd) target fds

  unfoldable pub redirect_file : List ℕ → ℕ → Flags → Descriptors → Option Descriptors
  unfolding dup2_onto
  redirect_file path target flags fds =
      if open_file path flags then dup2_onto (file path flags) target fds else none

  unfoldable pub redirect_to : Option (List ℕ) → ℕ → Flags → Descriptors → Option Descriptors
  unfolding redirect_file
  redirect_to none target flags fds = some fds
  redirect_to (some path) target flags fds = redirect_file path target flags fds

  unfoldable pub from_pipe : ℕ → Descriptors → Option Descriptors
  unfolding dup2_onto
  from_pipe zero fds = some fds
  from_pipe (suc i) fds = dup2_onto (pipe_read i) 0 fds

  unfoldable pub to_pipe : ShellPipeline → ℕ → Option ℕ → Descriptors → Option Descriptors
  unfolding dup2_onto dup2_other
  to_pipe pipeline index out_fd fds =
      if ltb (index + 1) (length pipeline.commands)
      then dup2_onto (pipe_write index) 1 fds
      else dup2_other out_fd 1 fds

  unfoldable pub setup_command_fds :
      ShellPipeline → ℕ → Option ℕ → Option ℕ → Descriptors → Option Descriptors
  unfolding and_then from_pipe to_pipe redirect_to
  setup_command_fds pipeline index out_fd err_fd fds =
      let cmd = get_or pipeline.commands index empty_command_record in
      and_then
        (and_then
          (and_then (and_then (from_pipe index fds) (to_pipe pipeline index out_fd))
            (dup2_other err_fd 2))
          (redirect_to cmd.input_path 0 read_only))
        (redirect_to cmd.output_path 1 (if cmd.append_output then append_to else truncate))
