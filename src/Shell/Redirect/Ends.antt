-- ===== src/Shell/Redirect/Ends.antt =====
-- What a command of a pipeline in shell/shell.c is to read and write, and the ends of a pipeline.
use embedded_systems_runtime.Prelude.{
  ℕ, zero, suc, ◌+◌, ◌<◌, ◌≡◌, ◌≢◌, ◌⊎◌, refl, inl, inr, Option, none, some, Bool, false, List, [],
  ◌∷◌, ltb, if◌then◌else◌, length, get_or, arith,
}
use embedded_systems_runtime.Shell.Parser.{ShellPipeline, ShellCommand, empty_command_record}
use embedded_systems_runtime.Shell.Parser.Stages.{WellFormed}
use embedded_systems_runtime.Shell.Redirect.{
  Flags, read_only, truncate, append_to, Stream, inherited, pipe_read, pipe_write, file,
  Descriptors, stream_of, replace,
}

-- A file, where a path is given.
unfoldable pub file_or : Option (List ℕ) → Flags → Stream → Stream
file_or none flags stream = stream
file_or (some path) flags stream = file path flags

unfoldable pub given_or : Option ℕ → ℕ → Stream
given_or none n = inherited n
given_or (some fd) n = inherited fd

unfoldable pub piped_from : ℕ → Stream → Stream
piped_from zero stream = stream
piped_from (suc i) stream = pipe_read i

-- What command `index` is to read and write: the pipes to its neighbours, and at the two ends of the
-- pipeline its file, or what the shell was given.
unfoldable pub wired : ShellPipeline → ℕ → Option ℕ → Option ℕ → Descriptors
unfolding file_or given_or piped_from
wired pipeline index out_fd err_fd =
    let cmd = get_or pipeline.commands index empty_command_record in
    let flags = (if cmd.append_output then append_to else truncate) in
    record {
      stdin = piped_from index (file_or cmd.input_path read_only (inherited 0));
      stdout =
          if ltb (index + 1) (length pipeline.commands)
          then pipe_write index
          else file_or cmd.output_path flags (given_or out_fd 1);
      stderr = given_or err_fd 2;
    }

-- The ends of a well-formed pipeline.
pub WellFormed-at :
    (k : ℕ) (cmds : List ShellCommand) (index : ℕ)
    → WellFormed k cmds
    → index < length cmds
    → ((k + index ≡ 0) ⊎ ((get_or cmds index empty_command_record).input_path ≡ none))
      × ((index + 1 ≡ length cmds) ⊎ ((get_or cmds index empty_command_record).output_path ≡ none))
WellFormed-at k [] index w h = absurd (omega arith)
WellFormed-at k (cmd ∷ []) zero w h = (add_zero w.1, inl refl)
  where
    add_zero : (k ≡ 0) ⊎ (cmd.input_path ≡ none) → (k + 0 ≡ 0) ⊎ (cmd.input_path ≡ none)
    add_zero e = ground arith
WellFormed-at k (cmd ∷ c ∷ cmds) zero w h = (ground (arith, w.1), last w.2)
  where
    last :
        ((c ∷ cmds ≡ []) ⊎ (cmd.output_path ≡ none))
        → (1 ≡ suc (suc (length cmds))) ⊎ (cmd.output_path ≡ none)
    last (inl e) = absurd (ground arith)
    last (inr e) = inr e
WellFormed-at k (cmd ∷ cmds) (suc index) w h = ground (arith, WellFormed-at (suc k) cmds index w.3)

pub replace_self :
    (fds : Descriptors) (t : ℕ) (s : Stream) → t < 3 → stream_of fds t ≡ s → replace fds t s ≡ fds
unfolding replace stream_of
replace_self fds zero s h e = ground arith
replace_self fds (suc zero) s h e = ground arith
replace_self fds (suc (suc zero)) s h e = ground arith
replace_self fds (suc (suc (suc t))) s h e = absurd (omega arith)

pub stream_of-shell :
    (stdin stdout : Stream) (n : ℕ)
    → n ≢ 0
    → (n ≡ 1 → stdout ≡ inherited 1)
    → stream_of (record { stdin = stdin; stdout = stdout; stderr = inherited 2 }) n ≡ inherited n
unfolding stream_of
stream_of-shell stdin stdout zero h e = absurd (h refl)
stream_of-shell stdin stdout (suc zero) h e = e refl
stream_of-shell stdin stdout (suc (suc zero)) h e = refl
stream_of-shell stdin stdout (suc (suc (suc n))) h e = ground arith

pub piped_from-file_or :
    (index : ℕ) (path : Option (List ℕ)) (stream : Stream)
    → (index ≡ 0) ⊎ (path ≡ none)
    → file_or path read_only (piped_from index stream)
      ≡ piped_from index (file_or path read_only stream)
unfolding piped_from file_or
piped_from-file_or zero path stream h = refl
piped_from-file_or (suc i) path stream (inl h) = absurd (omega arith)
piped_from-file_or (suc i) path stream (inr h) = rw h refl

pub file_or-if :
    (more : Bool) (path : Option (List ℕ)) (flags : Flags) (s t : Stream)
    → (more ≡ false) ⊎ (path ≡ none)
    → file_or path flags (if more then s else t) ≡ (if more then s else file_or path flags t)
unfolding file_or
file_or-if more path flags s t (inl h) = rw h refl
file_or-if more path flags s t (inr h) = rw h refl
