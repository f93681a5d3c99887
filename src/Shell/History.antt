-- ===== src/Shell/History.antt =====
-- The history of shell/shell.c: history_add, history_lookup, history_expand and builtin_history, on
-- the ShellState of shell/shell.h. A string is the list of its bytes before the NUL.
pub mod Numbering
pub mod Listing
pub mod Expansion
use embedded_systems_runtime.Prelude.{
  ℕ, ◌+◌, ◌-◌, ◌^◌, ◌%◌, Option, none, some, Bool, true, false, List, [], ◌∷◌, ◌++◌, ◌==◌, ltb, not,
  ◌&&◌, ◌||◌, if◌then◌else◌, length, get_or, drop,
}
use embedded_systems_runtime.Prelude.Int.{ℤ, pos, negsuc}
use embedded_systems_runtime.Shell.Jobs.{JobList}
use embedded_systems_runtime.Shell.Parser.{is_empty}

abbrev pub shell_history_max : ℕ
shell_history_max = 100

-- `history` is the part of the array below history_count; `sigchld_seen` is the flag of shell.c that
-- the handler of SIGCHLD sets.
pub record ShellState : Type 0 where
  pub jobs : JobList
  pub history : List (List ℕ)
  pub history_base : ℕ
  pub interactive : Bool
  pub should_exit : Bool
  pub sigchld_seen : Bool

-- '\n' or '\r'
abbrev pub is_line_end : ℕ → Bool
is_line_end c = c == 10 || c == 13

unfoldable pub strip_cons : ℕ → List ℕ → List ℕ
strip_cons c [] = if is_line_end c then [] else c ∷ []
strip_cons c (d ∷ ds) = c ∷ d ∷ ds

-- The loop from the end over '\n' and '\r': what it leaves of a line.
unfoldable pub strip_line : List ℕ → List ℕ
unfolding strip_cons
strip_line [] = []
strip_line (c ∷ cs) = strip_cons c (strip_line cs)

-- The store of `copy`, where the oldest line leaves a full history.
unfoldable pub push_line : ShellState → List ℕ → ShellState
push_line state copy =
    if length state.history == shell_history_max
    then record state {
      history = drop 1 state.history ++ copy ∷ [];
      history_base = (state.history_base + 1) % 2 ^ 64;
    }
    else record state { history = state.history ++ copy ∷ [] }

unfoldable pub history_add : ShellState → List ℕ → ShellState
unfolding strip_line push_line
history_add state line =
    if is_empty line || is_empty (strip_line line) then state else push_line state (strip_line line)

-- A null pointer is `none`.
unfoldable pub history_lookup : ShellState → ℕ → Option (List ℕ)
history_lookup state number =
    if ltb number state.history_base
    then none
    else (if ltb (number - state.history_base) (length state.history)
        then some (get_or state.history (number - state.history_base) [])
        else none)

-- What strtoul and strtol give: the value, and the text from `end` on; `errno` tells whether it was set.
pub record Unsigned : Type 0 where
  pub value : ℕ
  pub end : List ℕ
  pub errno : Bool

pub record Signed : Type 0 where
  pub value : ℤ
  pub end : List ℕ

pub data HistoryError : Type 0 where
  no_previous too_long invalid_event : HistoryError
  not_found : ℕ → HistoryError

pub data Expanded : Type 0 where
  expanded : List ℕ → Expanded
  refused : HistoryError → Expanded

-- The leading spaces and tabs are skipped.
unfoldable pub skip_blanks : List ℕ → List ℕ
skip_blanks [] = []
skip_blanks (c ∷ cs) = if c == 32 || c == 9 then skip_blanks cs else c ∷ cs

-- The bytes that strcspn(line, "\r\n") counts.
unfoldable pub first_line : List ℕ → List ℕ
first_line [] = []
first_line (c ∷ cs) = if is_line_end c then [] else c ∷ first_line cs

-- The line is "!!".
unfoldable pub is_repeat : List ℕ → Bool
is_repeat (a ∷ b ∷ []) = a == 33 && b == 33
is_repeat _ = false

-- The text after '!', where the line starts with it and more follows.
unfoldable pub event_text : List ℕ → Option (List ℕ)
event_text (a ∷ b ∷ cs) = if a == 33 then some (b ∷ cs) else none
event_text _ = none

unfoldable pub found : ℕ → Option (List ℕ) → Expanded
found n none = refused (not_found n)
found n (some line) = expanded line

module _ (strtoul : List ℕ → Unsigned) where
  -- `buf` has 64 bytes, the '!' is not in it.
  unfoldable pub expand_event : ShellState → List ℕ → Option (List ℕ) → Expanded
  unfolding found history_lookup
  expand_event state line none = expanded line
  expand_event state line (some buf) =
      let n = strtoul buf in
      if ltb 62 (length buf)
      then refused too_long
      else (if n.errno || not (is_empty n.end)
          then refused invalid_event
          else found n.value (history_lookup state n.value))

  unfoldable pub history_expand : ShellState → List ℕ → Expanded
  unfolding skip_blanks first_line is_repeat event_text expand_event
  history_expand state typed =
      let line = skip_blanks typed in
      if is_repeat (first_line line)
      then (if is_empty state.history
          then refused no_previous
          else expanded (get_or state.history (length state.history - 1) []))
      else expand_event state line (event_text (first_line line))

-- The lines that builtin_history prints, with their numbers.
unfoldable pub numbered : ℕ → List (List ℕ) → List (ℕ × List ℕ)
numbered n [] = []
numbered n (line ∷ lines) = (n, line) ∷ numbered ((n + 1) % 2 ^ 64) lines

-- n >= 0 && (size_t)n < history_count
unfoldable pub begin_of : ℕ → ℤ → ℕ
begin_of count (pos n) = if ltb n count then count - n else 0
begin_of count (negsuc n) = 0

module _ (strtol : List ℕ → Signed) where
  -- The index of the first line, by the words of the command.
  unfoldable pub history_begin : ShellState → List (List ℕ) → ℕ
  unfolding begin_of
  history_begin state (name ∷ count ∷ []) =
      let n = strtol count in if is_empty n.end then begin_of (length state.history) n.value else 0
  history_begin state _ = 0

  unfoldable pub builtin_history : ShellState → List (List ℕ) → List (ℕ × List ℕ)
  unfolding history_begin numbered
  builtin_history state argv =
      let begin = history_begin state argv in
      numbered ((state.history_base + begin) % 2 ^ 64) (drop begin state.history)
