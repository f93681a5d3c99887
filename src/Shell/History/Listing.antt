-- ===== src/Shell/History/Listing.antt =====
-- builtin_history of shell/shell.c prints the lines under the numbers that history_lookup knows.
use embedded_systems_runtime.Prelude.{
  ℕ, suc, ◌+◌, ◌-◌, ◌^◌, ◌%◌, ◌≤◌, ◌<◌, ◌≡◌, sym, ap, ◌∙◌, some, List, [], ◌∷◌, ◌++◌, length,
  get_or, drop, take, subst, length-take, take-append-drop, All, arith, append_assoc, length-append,
  get_or-append,
}
use embedded_systems_runtime.Prelude.Int.{ℤ, pos, negsuc}
use embedded_systems_runtime.Shell.History.{
  ShellState, history_lookup, numbered, Signed, history_begin, begin_of, builtin_history,
}

abbrev pub Found : ShellState → ℕ × List ℕ → Type 0
Found state (n, line) = history_lookup state n ≡ some line

history_lookup-at :
    (state : ShellState) (pre rest : List (List ℕ)) (line : List ℕ)
    → state.history ≡ pre ++ line ∷ rest
    → history_lookup state (state.history_base + length pre) ≡ some line
unfolding history_lookup
history_lookup-at state pre rest line e = ground (arith, there, size)
  where
    size : length state.history ≡ length pre + suc (length rest)
    size = ap length e ∙ length-append pre (line ∷ rest)

    there : get_or state.history (state.history_base + length pre - state.history_base) [] ≡ line
    there =
        ap
          (λ (l : List (List ℕ)).
            get_or l (state.history_base + length pre - state.history_base) [])
          e
        ∙ ap (λ (k : ℕ). get_or (pre ++ line ∷ rest) k []) (omega arith)
        ∙ get_or-append pre (line ∷ rest) 0 []

numbered-Found :
    (state : ShellState) (pre lines : List (List ℕ))
    → state.history ≡ pre ++ lines
    → state.history_base + length state.history < 2 ^ 64
    → All (Found state) (numbered ((state.history_base + length pre) % 2 ^ 64) lines)
unfolding numbered
numbered-Found state pre [] e h = tt
numbered-Found state pre (line ∷ rest) e h = (
  rw fits (history_lookup-at state pre rest line e),
  subst (λ (k : ℕ). All (Found state) (numbered k rest)) next
      (numbered-Found state (pre ++ line ∷ []) rest (e ∙ sym (append_assoc pre (line ∷ []) rest))
        h),
)
  where
    size : length state.history ≡ length pre + suc (length rest)
    size = ap length e ∙ length-append pre (line ∷ rest)

    fits : (state.history_base + length pre) % 2 ^ 64 ≡ state.history_base + length pre
    fits = omega (arith, size)

    next :
        (state.history_base + length (pre ++ line ∷ [])) % 2 ^ 64
        ≡ ((state.history_base + length pre) % 2 ^ 64 + 1) % 2 ^ 64
    next = omega (arith, size, length-append pre (line ∷ []))

begin_of-le : (count : ℕ) (n : ℤ) → begin_of count n ≤ count
unfolding begin_of
begin_of-le count (pos n) = ground arith
begin_of-le count (negsuc n) = omega arith

module _ (strtol : List ℕ → Signed) where
  history_begin-le :
      (state : ShellState) (argv : List (List ℕ))
      → history_begin strtol state argv ≤ length state.history
  unfolding history_begin
  history_begin-le state [] = omega arith
  history_begin-le state (name ∷ []) = omega arith
  history_begin-le state (name ∷ count ∷ []) =
      ground (arith, begin_of-le (length state.history) (strtol count).value)
  history_begin-le state (name ∷ count ∷ more ∷ words) = omega arith

  -- If the numbers are below 2^64, the history command, with any words, prints each line under the
  -- number that finds it.
  pub builtin_history-Found :
      (state : ShellState) (argv : List (List ℕ))
      → state.history_base + length state.history < 2 ^ 64
      → All (Found state) (builtin_history strtol state argv)
  unfolding builtin_history
  builtin_history-Found state argv h =
      let begin = history_begin strtol state argv in
      let front = length-take begin state.history (history_begin-le state argv) in
      subst
        (λ (k : ℕ).
          All (Found state)
            (numbered ((state.history_base + k) % 2 ^ 64) (drop begin state.history)))
        front
        (numbered-Found state (take begin state.history) (drop begin state.history)
          (sym (take-append-drop begin state.history)) h)
