-- ===== src/Shell/Redirect/Wiring.antt =====
-- In a pipeline that the parser accepts, no redirection of a file takes the place of a pipe.
use embedded_systems_runtime.Prelude.{
  ℕ, zero, suc, ◌+◌, ◌<◌, ◌≡◌, ◌≢◌, ◌⊎◌, refl, sym, ap, ap₂, subst, ◌∙◌, inl, inr, Option, none,
  some, Bool, false, List, ◌==◌, ltb, if◌then◌else◌, length, get_or, arith, Bool-cases,
}
use embedded_systems_runtime.Shell.Parser.{
  ShellPipeline, empty_command_record, good, shell_parse_line,
}
use embedded_systems_runtime.Shell.Parser.Stages.{shell_parse_line-WellFormed}
use embedded_systems_runtime.Shell.Redirect.{
  Flags, read_only, truncate, append_to, Stream, inherited, pipe_read, pipe_write, file,
  Descriptors, at_fork, stream_of, replace, and_then, dup2_onto, dup2_other, redirect_file,
  redirect_to, from_pipe, to_pipe, setup_command_fds,
}
use embedded_systems_runtime.Shell.Redirect.Ends.{
  file_or, given_or, piped_from, wired, WellFormed-at, replace_self, stream_of-shell,
  piped_from-file_or, file_or-if,
}

module _ (dup2 : Stream → ℕ → Bool) (open_file : List ℕ → Flags → Bool) where
  -- Some call failed.
  pub data Refused : Type 0 where
    dup2_failed : (s : Stream) (t : ℕ) → dup2 s t ≡ false → Refused
    open_failed : (path : List ℕ) (flags : Flags) → open_file path flags ≡ false → Refused

  abbrev pub Gives : Option Descriptors → Descriptors → Type 0
  Gives o fds = (o ≡ some fds) ⊎ ((o ≡ none) × Refused)

  and_then-Gives :
      (o : Option Descriptors) (f : Descriptors → Option Descriptors) (a b : Descriptors)
      → Gives o a
      → Gives (f a) b
      → Gives (and_then o f) b
  unfolding and_then
  and_then-Gives o f a b (inl e) g = rw e g
  and_then-Gives o f a b (inr (e, r)) g = rw e (inr (refl, r))

  dup2_onto-Gives :
      (s : Stream) (t : ℕ) (fds : Descriptors)
      → Gives (dup2_onto dup2 open_file s t fds) (replace fds t s)
  unfolding dup2_onto
  dup2_onto-Gives s t fds = elim (Bool-cases (dup2 s t)) [
    | inl e ↦ rw e (inl refl)
    | inr e ↦ rw e (inr (refl, dup2_failed s t e))
  ]

  dup2_other-Gives :
      (fd : Option ℕ) (t : ℕ) (fds : Descriptors)
      → t < 3
      → stream_of fds t ≡ inherited t
      → ((n : ℕ) → fd ≡ some n → stream_of fds n ≡ inherited n)
      → Gives (dup2_other dup2 open_file fd t fds) (replace fds t (given_or fd t))
  unfolding dup2_other given_or
  dup2_other-Gives none t fds b e h = inl (ap some (sym (replace_self fds t (inherited t) b e)))
  dup2_other-Gives (some n) t fds b e h = elim (Bool-cases (n == t)) [
    | inl same ↦
        rw same (
          inl
            (ap some (sym (replace_self fds t (inherited n) b (e ∙ ap inherited (ground arith))))))
    | inr apart ↦ rw (apart, h n refl) (dup2_onto-Gives (inherited n) t fds)
  ]

  redirect_to-Gives :
      (path : Option (List ℕ)) (t : ℕ) (flags : Flags) (fds : Descriptors)
      → t < 3
      → Gives
          (redirect_to dup2 open_file path t flags fds)
          (replace fds t (file_or path flags (stream_of fds t)))
  unfolding redirect_to redirect_file file_or
  redirect_to-Gives none t flags fds b =
      inl (ap some (sym (replace_self fds t (stream_of fds t) b refl)))
  redirect_to-Gives (some path) t flags fds b = elim (Bool-cases (open_file path flags)) [
    | inl e ↦ rw e (dup2_onto-Gives (file path flags) t fds)
    | inr e ↦ rw e (inr (refl, open_failed path flags e))
  ]

  from_pipe-Gives :
      (index : ℕ) (fds : Descriptors)
      → Gives
          (from_pipe dup2 open_file index fds)
          (record fds { stdin = piped_from index fds.stdin })
  unfolding from_pipe piped_from replace
  from_pipe-Gives zero fds = inl refl
  from_pipe-Gives (suc i) fds = dup2_onto-Gives (pipe_read i) 0 fds

  to_pipe-Gives :
      (pipeline : ShellPipeline) (index : ℕ) (out_fd : Option ℕ) (fds : Descriptors)
      → fds.stdout ≡ inherited 1
      → ((n : ℕ) → out_fd ≡ some n → stream_of fds n ≡ inherited n)
      → Gives (to_pipe dup2 open_file pipeline index out_fd fds) (record fds {
        stdout =
            if ltb (index + 1) (length pipeline.commands)
            then pipe_write index
            else given_or out_fd 1;
      })
  unfolding to_pipe replace stream_of
  to_pipe-Gives pipeline index out_fd fds e h =
      elim (Bool-cases (ltb (index + 1) (length pipeline.commands))) [
        | inl m ↦ rw m (dup2_onto-Gives (pipe_write index) 1 fds)
        | inr m ↦ rw m (dup2_other-Gives out_fd 1 fds (omega arith) e h)
      ]

  -- For a pipeline that the parser accepts, and descriptors for output and errors that are not yet
  -- replaced, either the child of each command reads and writes what it is to, or the set-up returns
  -- -1 and some call has failed.
  pub setup_command_fds-Gives :
      (line : List ℕ) (pipeline : ShellPipeline) (index : ℕ) (out_fd err_fd : Option ℕ)
      → shell_parse_line line ≡ good pipeline
      → index < length pipeline.commands
      → out_fd ≢ some 0
      → err_fd ≢ some 0
      → err_fd ≢ some 1
      → Gives
          (setup_command_fds dup2 open_file pipeline index out_fd err_fd at_fork)
          (wired pipeline index out_fd err_fd)
  unfolding setup_command_fds wired replace stream_of
  setup_command_fds-Gives line pipeline index out_fd err_fd parsed h o0 e0 e1 =
      let cmd = get_or pipeline.commands index empty_command_record in
      let ends =
        WellFormed-at 0 pipeline.commands index (shell_parse_line-WellFormed line pipeline parsed)
          h in
      let flags = (if cmd.append_output then append_to else truncate) in
      let more = ltb (index + 1) (length pipeline.commands) in
      let start = piped_from index (inherited 0) in
      let fds1 : Descriptors = record {
        stdin = start;
        stdout = inherited 1;
        stderr = inherited 2;
      } in
      let fds2 : Descriptors = record fds1 {
        stdout = if more then pipe_write index else given_or out_fd 1;
      } in
      let fds3 : Descriptors = record fds2 { stderr = given_or err_fd 2 } in
      let fds4 : Descriptors = record fds3 { stdin = file_or cmd.input_path read_only start } in
      let fds5 : Descriptors = record fds4 { stdout = file_or cmd.output_path flags fds2.stdout } in
      let same : fds5 ≡ wired pipeline index out_fd err_fd =
        ap₂ (λ (a b : Stream). record { stdin = a; stdout = b; stderr = given_or err_fd 2 })
          (piped_from-file_or index cmd.input_path (inherited 0) (ground (arith, ends.0)))
          (file_or-if more cmd.output_path flags (pipe_write index) (given_or out_fd 1)
            (ground (arith, ends.1))) in
      subst
        (λ (fds : Descriptors).
          Gives (setup_command_fds dup2 open_file pipeline index out_fd err_fd at_fork) fds)
        same
        (and_then-Gives _ _ fds4 fds5
          (and_then-Gives _ _ fds3 fds4
            (and_then-Gives _ _ fds2 fds3
              (and_then-Gives _ _ fds1 fds2 (from_pipe-Gives index at_fork) (
                to_pipe-Gives pipeline index out_fd fds1 refl (λ n e.
                  stream_of-shell start (inherited 1) n (λ z. o0 (e ∙ ap some z)) (λ _. refl))))
              (dup2_other-Gives err_fd 2 fds2 (omega arith) refl (λ n e.
                stream_of-shell start fds2.stdout n (λ z. e0 (e ∙ ap some z))
                  (λ z. absurd (e1 (e ∙ ap some z))))))
            (redirect_to-Gives cmd.input_path 0 read_only fds3 (omega arith)))
          (redirect_to-Gives cmd.output_path 1 flags fds4 (omega arith)))
