-- ===== src/Shell/History/Numbering.antt =====
-- The history of shell/shell.c against the log of all lines that were ever entered: it keeps the last
-- hundred, and each keeps its number.
use embedded_systems_runtime.Prelude.{
  ℕ, suc, ◌+◌, ◌-◌, ◌^◌, ◌%◌, ◌≤◌, ◌<◌, ◌≡◌, sym, ap, ◌∙◌, ◌⊎◌, inl, inr, Option, none, some, List,
  [], ◌∷◌, ◌++◌, ◌==◌, ltb, leb, ◌&&◌, if◌then◌else◌, length, get_or, drop, arith, Bool-cases,
  append_assoc, append-nil, length-append, get_or-append,
}
use embedded_systems_runtime.Shell.Parser.{is_empty}
use embedded_systems_runtime.Shell.History.{
  ShellState, shell_history_max, strip_line, push_line, history_add, history_lookup,
}

-- `log` is what was entered so far, and `before` what the history no longer holds of it.
pub record Stands (state : ShellState) (log : List (List ℕ)) : Type 0 where
  pub before : List (List ℕ)
  pub whole : log ≡ before ++ state.history
  pub number : state.history_base ≡ suc (length before)
  pub bounded : length state.history ≤ 100
  pub full : (length before ≡ 0) ⊎ (length state.history ≡ 100)

-- What a line adds to the log: nothing, where it is blank.
unfoldable pub entry : List ℕ → List (List ℕ)
unfolding is_empty
entry line = if is_empty (strip_line line) then [] else strip_line line ∷ []

push_line-Stands :
    (state : ShellState) (log : List (List ℕ)) (copy : List ℕ)
    → Stands state log
    → length log + 1 < 2 ^ 64
    → Stands (push_line state copy) (log ++ copy ∷ [])
unfolding push_line
push_line-Stands state log copy s h =
    elim (Bool-cases (length state.history == shell_history_max)) [
      | inl e ↦ rw e (shifted state.history (ground arith) s.whole)
      | inr e ↦ rw e (record {
        before = s.before;
        whole = ap (λ l. l ++ copy ∷ []) s.whole ∙ append_assoc s.before state.history (copy ∷ []);
        number = s.number;
        bounded = ground (arith, s.bounded, length-append state.history (copy ∷ []));
        full = ground (arith, s.full, s.bounded);
      })
    ]
  where
    shifted :
        (lines : List (List ℕ))
        → length lines ≡ 100
        → log ≡ s.before ++ lines
        → Stands
            (record state {
              history = drop 1 lines ++ copy ∷ [];
              history_base = (state.history_base + 1) % 2 ^ 64;
            })
            (log ++ copy ∷ [])
    shifted [] e w = absurd (omega arith)
    shifted (first ∷ rest) e w = record {
      before = s.before ++ first ∷ [];
      whole =
          ap (λ l. l ++ copy ∷ []) w
          ∙ append_assoc s.before (first ∷ rest) (copy ∷ [])
          ∙ sym (append_assoc s.before (first ∷ []) (rest ++ copy ∷ []));
      number = omega (
        arith,
        s.number,
        ap length w,
        length-append s.before (first ∷ rest),
        length-append s.before (first ∷ []),
      );
      bounded = omega (arith, length-append rest (copy ∷ []));
      full = inr (omega (arith, length-append rest (copy ∷ [])));
    }

-- Entering a line of a state that stands for a log of fewer than 2^64 - 1 lines leaves one that stands
-- for the log with the line, less its line ends, at the end; a blank line adds nothing.
pub history_add-Stands :
    (state : ShellState) (log : List (List ℕ)) (line : List ℕ)
    → Stands state log
    → length log + 1 < 2 ^ 64
    → Stands (history_add state line) (log ++ entry line)
unfolding history_add entry strip_line is_empty
history_add-Stands state log [] s h = rw append-nil s
history_add-Stands state log (c ∷ cs) s h = elim (Bool-cases (is_empty (strip_line (c ∷ cs)))) [
  | inl e ↦ rw (e, append-nil) s
  | inr e ↦ rw e (push_line-Stands state log (strip_line (c ∷ cs)) s h)
]

-- Line `n` of the log, counted from 1, where it is among the last hundred.
unfoldable pub recent : List (List ℕ) → ℕ → Option (List ℕ)
recent log n =
    if ltb 0 n && (leb n (length log) && ltb (length log) (n + 100))
    then some (get_or log (n - 1) [])
    else none

-- A number finds the line of the log that it counts, if the line is among the last hundred, and
-- nothing otherwise.
pub history_lookup-Stands :
    (state : ShellState) (log : List (List ℕ)) (n : ℕ)
    → Stands state log
    → history_lookup state n ≡ recent log n
unfolding history_lookup recent
history_lookup-Stands state log n s = ground (arith, size, s.number, s.bounded, s.full, same)
  where
    size : length log ≡ length s.before + length state.history
    size = ap length s.whole ∙ length-append s.before state.history

    same :
        suc (length s.before) ≤ n
        → get_or state.history (n - state.history_base) [] ≡ get_or log (n - 1) []
    same h =
        sym (get_or-append s.before state.history (n - state.history_base) [])
        ∙ ap (λ (k : ℕ). get_or (s.before ++ state.history) k []) (omega (arith, s.number))
        ∙ ap (λ (l : List (List ℕ)). get_or l (n - 1) []) (sym s.whole)

-- The log after the lines, and the state.
unfoldable pub log_of : List (List ℕ) → List (List ℕ) → List (List ℕ)
unfolding entry
log_of log [] = log
log_of log (line ∷ lines) = log_of (log ++ entry line) lines

unfoldable pub enter : ShellState → List (List ℕ) → ShellState
enter state [] = state
enter state (line ∷ lines) = enter (history_add state line) lines

length-entry : (line : List ℕ) → length (entry line) ≤ 1
unfolding entry
length-entry line = ground arith

enter-Stands :
    (state : ShellState) (log lines : List (List ℕ))
    → Stands state log
    → length log + length lines < 2 ^ 64
    → Stands (enter state lines) (log_of log lines)
unfolding enter log_of
enter-Stands state log [] s h = s
enter-Stands state log (line ∷ lines) s h =
    enter-Stands (history_add state line) (log ++ entry line) lines
      (history_add-Stands state log line s (omega arith))
      (omega (arith, length-entry line, length-append log (entry line)))

-- From a state that stands for a log, after any lines of which there are fewer than 2^64 with those
-- of the log, the history holds at most a hundred lines, and a number finds the line that it counts
-- in the whole log, where it is among the last hundred, and nothing otherwise.
pub history_keeps_numbers :
    (state : ShellState) (log lines : List (List ℕ)) (n : ℕ)
    → Stands state log
    → length log + length lines < 2 ^ 64
    → (length (enter state lines).history ≤ 100)
      × (history_lookup (enter state lines) n ≡ recent (log_of log lines) n)
history_keeps_numbers state log lines n s h =
    let end = enter-Stands state log lines s h in
    (end.bounded, history_lookup-Stands (enter state lines) (log_of log lines) n end)
