-- ===== src/Shell/Parser/Stages.antt =====
-- The pipelines that shell_parse_line of shell/parser.c accepts are well formed.
use embedded_systems_runtime.Prelude.{
  ℕ, suc, ◌≡◌, ◌⊎◌, refl, subst, inl, inr, Option, none, some, true, false, List, [], ◌∷◌, length,
  ltb, not, ◌&&◌, Bool-cases, arith,
}
use embedded_systems_runtime.Shell.Parser.{
  Token, Outcome, good, bad, stuck, ParseError, after_stages, ShellCommand, ShellPipeline,
  empty_command_record, is_some, is_empty, build, check_stages, checked, parse_tokens, tokenize,
  shell_parse_line,
}

-- From stage `i` on: every command has a name, only the first stage reads a file, and only the last
-- one writes a file.
abbrev pub WellFormed : ℕ → List ShellCommand → Type 0
WellFormed i [] = Unit
WellFormed i (cmd ∷ cmds) =
    (is_empty cmd.argv ≡ false)
    × ((i ≡ 0) ⊎ (cmd.input_path ≡ none))
    × ((cmds ≡ []) ⊎ (cmd.output_path ≡ none))
    × WellFormed (suc i) cmds

is_some-none : (o : Option (List ℕ)) → is_some o ≡ false → o ≡ none
unfolding is_some
is_some-none none h = refl
is_some-none (some p) h = absurd (ground arith)

is_empty-[] : (cmds : List ShellCommand) → is_empty cmds ≡ true → cmds ≡ []
unfolding is_empty
is_empty-[] [] h = refl
is_empty-[] (c ∷ cs) h = absurd (ground arith)

check_stages-WellFormed :
    (i : ℕ) (cmds : List ShellCommand) → check_stages i cmds ≡ none → WellFormed i cmds
unfolding check_stages
check_stages-WellFormed i [] h = tt
check_stages-WellFormed i (cmd ∷ cmds) h =
    (facts.0, early, late, check_stages-WellFormed (suc i) cmds facts.3)
  where
    facts :
        (is_empty cmd.argv ≡ false)
        × ((ltb 0 i && is_some cmd.input_path) ≡ false)
        × ((not (is_empty cmds) && is_some cmd.output_path) ≡ false)
        × (check_stages (suc i) cmds ≡ none)
    facts = ground arith

    early : (i ≡ 0) ⊎ (cmd.input_path ≡ none)
    early = elim (Bool-cases (is_some cmd.input_path)) [
      | inl e ↦ inl (ground (arith, facts.1))
      | inr e ↦ inr (is_some-none cmd.input_path e)
    ]

    late : (cmds ≡ []) ⊎ (cmd.output_path ≡ none)
    late = elim (Bool-cases (is_empty cmds)) [
      | inl e ↦ inl (is_empty-[] cmds e)
      | inr e ↦ inr (is_some-none cmd.output_path (ground (arith, facts.2)))
    ]

abbrev WellFormedOutcome : Outcome ShellPipeline → Type 0
WellFormedOutcome (good p) = WellFormed 0 p.commands
WellFormedOutcome (bad e) = Unit
WellFormedOutcome stuck = Unit

-- What the last loop of shell_parse_line lets through.
staged :
    (q p : ShellPipeline) (r : Option ParseError)
    → check_stages 0 q.commands ≡ r
    → after_stages q r ≡ good p
    → WellFormed 0 p.commands
unfolding after_stages
staged q p none e h =
    subst (λ (o : Outcome ShellPipeline). WellFormedOutcome o) h
      (check_stages-WellFormed 0 q.commands e)
staged q p (some err) e h = absurd (ground arith)

checked-WellFormed :
    (o : Outcome ShellPipeline) (p : ShellPipeline) → checked o ≡ good p → WellFormed 0 p.commands
unfolding checked
checked-WellFormed (bad e) p h = absurd (ground arith)
checked-WellFormed stuck p h = absurd (ground arith)
checked-WellFormed (good q) p h = staged q p (check_stages 0 q.commands) refl h

-- In every pipeline that shell_parse_line accepts, each command has a name, no command but the first
-- reads from a file, and no command but the last writes to a file.
pub shell_parse_line-WellFormed :
    (line : List ℕ) (p : ShellPipeline) → shell_parse_line line ≡ good p → WellFormed 0 p.commands
unfolding shell_parse_line parse_tokens
shell_parse_line-WellFormed line p h = accepted (tokenize (length line) line) h
  where
    accepted : (ts : Outcome (List Token)) → parse_tokens ts ≡ good p → WellFormed 0 p.commands
    accepted (good []) e = subst (λ (r : Outcome ShellPipeline). WellFormedOutcome r) e tt
    accepted (good (t ∷ ts)) e =
        checked-WellFormed (build [] empty_command_record false (t ∷ ts)) p e
    accepted (bad err) e = absurd (ground arith)
    accepted stuck e = absurd (ground arith)
