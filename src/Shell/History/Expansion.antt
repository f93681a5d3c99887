-- ===== src/Shell/History/Expansion.antt =====
-- history_expand of shell/shell.c: what "!!" and "!n" stand for.
use embedded_systems_runtime.Prelude.{
  ℕ, ◌-◌, ◌≤◌, ◌<◌, ◌≡◌, refl, ap, ◌∙◌, some, true, false, List, [], ◌∷◌, ◌++◌, if◌then◌else◌,
  length, get_or, All, arith,
}
use embedded_systems_runtime.Shell.Parser.{is_empty}
use embedded_systems_runtime.Shell.History.{
  ShellState, is_line_end, first_line, skip_blanks, is_repeat, event_text, Unsigned, expanded,
  refused, no_previous, expand_event, found, history_expand, history_lookup,
}
use embedded_systems_runtime.Shell.History.Numbering.{Stands, recent, history_lookup-Stands}

abbrev pub IsDigit : ℕ → Type 0
IsDigit c = (48 ≤ c) × (c ≤ 57)

-- What follows the words of a line: nothing, or a line end first.
abbrev pub LineEnd : List ℕ → Type 0
LineEnd [] = Unit
LineEnd (c ∷ cs) = is_line_end c ≡ true

first_line-digits :
    (text rest : List ℕ) → All IsDigit text → LineEnd rest → first_line (text ++ rest) ≡ text
unfolding first_line
first_line-digits [] [] d l = refl
first_line-digits [] (c ∷ cs) d l = rw l refl
first_line-digits (c ∷ text) rest (digit, d) l =
    rw inside (ap (λ t. c ∷ t) (first_line-digits text rest d l))
  where
    inside : is_line_end c ≡ false
    inside = ground (arith, digit.0, digit.1)

module _ (strtoul : List ℕ → Unsigned) where
  expand_event-number :
      (state : ShellState) (line text : List ℕ) (n : ℕ)
      → length text < 63
      → strtoul text ≡ record { value = n; end = []; errno = false }
      → expand_event strtoul state line (some text) ≡ found n (history_lookup state n)
  unfolding expand_event is_empty
  expand_event-number state line text n short e = rw e (ground arith)

  not_repeat : (d : ℕ) (ds : List ℕ) → IsDigit d → is_repeat (33 ∷ d ∷ ds) ≡ false
  unfolding is_repeat
  not_repeat d [] h = ground (arith, h.0)
  not_repeat d (e ∷ ds) h = refl

  -- "!n", with a number of fewer than 63 digits that strtoul reads and nothing but the end of the
  -- line behind it, stands for line n of the log, where it is among the last hundred, and is refused
  -- as not found otherwise.
  pub history_expand-number :
      (state : ShellState) (log : List (List ℕ)) (n d : ℕ) (ds rest : List ℕ)
      → Stands state log
      → strtoul (d ∷ ds) ≡ record { value = n; end = []; errno = false }
      → All IsDigit (d ∷ ds)
      → LineEnd rest
      → length (d ∷ ds) < 63
      → history_expand strtoul state (33 ∷ (d ∷ ds) ++ rest) ≡ found n (recent log n)
  unfolding history_expand skip_blanks first_line event_text
  history_expand-number state log n d ds rest s e digits l short =
      rw (first_line-digits (d ∷ ds) rest digits l, not_repeat d ds digits.0)
        (expand_event-number state (33 ∷ (d ∷ ds) ++ rest) (d ∷ ds) n short e
          ∙ ap (found n) (history_lookup-Stands state log n s))

  -- "!!" stands for the last line of the history, and is refused where there is none.
  pub history_expand-repeat :
      (state : ShellState) (rest : List ℕ)
      → LineEnd rest
      → history_expand strtoul state (33 ∷ 33 ∷ rest) ≡ (
          if is_empty state.history
          then refused no_previous
          else expanded (get_or state.history (length state.history - 1) []))
  unfolding history_expand skip_blanks first_line is_repeat
  history_expand-repeat state [] l = refl
  history_expand-repeat state (c ∷ cs) l = rw l refl
