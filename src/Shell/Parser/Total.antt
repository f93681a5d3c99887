-- ===== src/Shell/Parser/Total.antt =====
-- tokenize of shell/parser.c ends on every line.
use embedded_systems_runtime.Prelude.{
  ℕ, zero, suc, ◌≤◌, ◌==◌, ◌≡◌, ◌≢◌, ◌⊎◌, refl, inl, inr, Option, none, some, Bool, true, false,
  List, [], ◌∷◌, ◌++◌, length, not, if◌then◌else◌, Bool-cases, arith, if_both,
}
use embedded_systems_runtime.Shell.Parser.{
  Token, word, pipe, input, output, append, background, Outcome, good, bad, stuck, WordEnd, ended,
  failed, Action, stop, open_quote, close_quote, escape, plain, action, is_space, ends_word,
  read_word, push, push_word, push_output, tokenize, is_empty, ParseError, unterminated_quote,
  parse_tokens, shell_parse_line, build, checked, after_stages, check_stages, ShellPipeline,
  is_some, ShellCommand, empty_command_record,
}

Action-cases :
    (a : Action) → (a ≡ stop) ⊎ (a ≡ open_quote) ⊎ (a ≡ close_quote) ⊎ (a ≡ escape) ⊎ (a ≡ plain)
Action-cases stop = inl refl
Action-cases open_quote = inr (inl refl)
Action-cases close_quote = inr (inr (inl refl))
Action-cases escape = inr (inr (inr (inl refl)))
Action-cases plain = inr (inr (inr (inr refl)))

-- The rest that a word leaves is shorter than what it was read from.
abbrev Shorter : ℕ → WordEnd → Type 0
Shorter n (ended w rest) = length rest ≤ n
Shorter n (failed e) = Unit

Shorter-if :
    (n : ℕ) (b : Bool) (x y : WordEnd) → Shorter n x → Shorter n y → Shorter n (if b then x else y)
Shorter-if n true x y hx hy = hx
Shorter-if n false x y hx hy = hy

read_word-Shorter :
    (n quote : ℕ) (buf cs : List ℕ) → length cs ≤ n → Shorter n (read_word quote buf cs)
unfolding read_word
read_word-Shorter n quote buf [] h =
    Shorter-if n (quote == 0) (ended buf []) (failed unterminated_quote) h tt
read_word-Shorter n quote buf (c ∷ []) h = elim (Action-cases (action quote c)) [
  | inl e ↦ rw (Shorter, e) h
  | inr (inl e) ↦ rw (Shorter, e) (read_word-Shorter n c buf [] (omega arith))
  | inr (inr (inl e)) ↦ rw (Shorter, e) (read_word-Shorter n 0 buf [] (omega arith))
  | inr (inr (inr (inl e))) ↦ rw (Shorter, e) tt
  | inr (inr (inr (inr e))) ↦
      rw (Shorter, e) (read_word-Shorter n quote (buf ++ (c ∷ [])) [] (omega arith))
]
read_word-Shorter n quote buf (c ∷ d ∷ cs) h = elim (Action-cases (action quote c)) [
  | inl e ↦ rw (Shorter, e) h
  | inr (inl e) ↦ rw (Shorter, e) (read_word-Shorter n c buf (d ∷ cs) (omega arith))
  | inr (inr (inl e)) ↦ rw (Shorter, e) (read_word-Shorter n 0 buf (d ∷ cs) (omega arith))
  | inr (inr (inr (inl e))) ↦
      rw (Shorter, e) (read_word-Shorter n quote (buf ++ (d ∷ [])) cs (omega arith))
  | inr (inr (inr (inr e))) ↦
      rw (Shorter, e) (read_word-Shorter n quote (buf ++ (c ∷ [])) (d ∷ cs) (omega arith))
]

-- A character that starts a word is taken off the line.
first-Shorter :
    (n quote c : ℕ) (buf cs : List ℕ)
    → length cs ≤ n
    → action quote c ≢ stop
    → Shorter n (read_word quote buf (c ∷ cs))
unfolding read_word
first-Shorter n quote c buf [] h ne = elim (Action-cases (action quote c)) [
  | inl e ↦ absurd (ne e)
  | inr (inl e) ↦ rw (Shorter, e) (read_word-Shorter n c buf [] h)
  | inr (inr (inl e)) ↦ rw (Shorter, e) (read_word-Shorter n 0 buf [] h)
  | inr (inr (inr (inl e))) ↦ rw (Shorter, e) tt
  | inr (inr (inr (inr e))) ↦ rw (Shorter, e) (read_word-Shorter n quote (buf ++ (c ∷ [])) [] h)
]
first-Shorter n quote c buf (d ∷ cs) h ne = elim (Action-cases (action quote c)) [
  | inl e ↦ absurd (ne e)
  | inr (inl e) ↦ rw (Shorter, e) (read_word-Shorter n c buf (d ∷ cs) h)
  | inr (inr (inl e)) ↦ rw (Shorter, e) (read_word-Shorter n 0 buf (d ∷ cs) h)
  | inr (inr (inr (inl e))) ↦
      rw (Shorter, e) (read_word-Shorter n quote (buf ++ (d ∷ [])) cs (omega arith))
  | inr (inr (inr (inr e))) ↦
      rw (Shorter, e) (read_word-Shorter n quote (buf ++ (c ∷ [])) (d ∷ cs) h)
]

abbrev pub Ends : {A : Type 0} → Outcome A → Type 0
Ends (good x) = Unit
Ends (bad e) = Unit
Ends stuck = ⊥

push-Ends : (t : Token) (o : Outcome (List Token)) → Ends o → Ends (push t o)
unfolding push
push-Ends t (good ts) h = tt
push-Ends t (bad e) h = tt
push-Ends t stuck h = absurd h

push_word-Ends :
    (n : ℕ) (e : WordEnd) (next : List ℕ → Outcome (List Token))
    → Shorter n e
    → ((l : List ℕ) → length l ≤ n → Ends (next l))
    → Ends (push_word e next)
unfolding push_word
push_word-Ends n (failed e) next s h = tt
push_word-Ends n (ended w rest) next s h = push-Ends (word w) (next rest) (h rest s)

push_output-Ends :
    (cs : List ℕ) (next : List ℕ → Outcome (List Token))
    → ((l : List ℕ) → length l ≤ length cs → Ends (next l))
    → Ends (push_output cs next)
unfolding push_output
push_output-Ends [] next h = push-Ends output (next []) (h [] (omega arith))
push_output-Ends (d ∷ ds) next h =
    if_both Ends (d == 62) (push append (next ds)) (push output (next (d ∷ ds)))
      (push-Ends append (next ds) (h ds (omega arith)))
      (push-Ends output (next (d ∷ ds)) (h (d ∷ ds) (omega arith)))

not_stop :
    (c : ℕ)
    → is_space c ≡ false
    → (c == 124) ≡ false
    → (c == 60) ≡ false
    → (c == 62) ≡ false
    → (c == 38) ≡ false
    → action 0 c ≢ stop
unfolding action ends_word
not_stop c e1 e2 e3 e4 e5 h = ground arith

tokenize-Ends : (fuel : ℕ) (line : List ℕ) → length line ≤ fuel → Ends (tokenize fuel line)
unfolding tokenize
tokenize-Ends fuel [] h = tt
tokenize-Ends zero (c ∷ cs) h = absurd (omega arith)
tokenize-Ends (suc fuel) (c ∷ cs) h = elim (Bool-cases (is_space c)) [
  | inl e ↦ rw e (tokenize-Ends fuel cs (omega arith))
  | inr e1 ↦ elim (Bool-cases (c == 124)) [
    | inl e ↦ rw (e1, e) (push-Ends pipe (tokenize fuel cs) (tokenize-Ends fuel cs (omega arith)))
    | inr e2 ↦ elim (Bool-cases (c == 60)) [
      | inl e ↦
          rw (e1, e2, e) (push-Ends input (tokenize fuel cs) (tokenize-Ends fuel cs (omega arith)))
      | inr e3 ↦ elim (Bool-cases (c == 62)) [
        | inl e ↦
            rw (e1, e2, e3, e)
              (push_output-Ends cs (tokenize fuel) (λ l small. tokenize-Ends fuel l (omega arith)))
        | inr e4 ↦ elim (Bool-cases (c == 38)) [
          | inl e ↦
              rw (e1, e2, e3, e4, e)
                (push-Ends background (tokenize fuel cs) (tokenize-Ends fuel cs (omega arith)))
          | inr e5 ↦
              rw (e1, e2, e3, e4, e5)
                (push_word-Ends (length cs) (read_word 0 [] (c ∷ cs)) (tokenize fuel)
                  (first-Shorter (length cs) 0 c [] cs (omega arith) (not_stop c e1 e2 e3 e4 e5))
                  (λ l small. tokenize-Ends fuel l (omega arith)))
        ]
      ]
    ]
  ]
]

checked-Ends : (o : Outcome ShellPipeline) → Ends o → Ends (checked o)
unfolding checked
checked-Ends (good p) h = staged (check_stages 0 p.commands)
  where
    staged : (r : Option ParseError) → Ends (after_stages p r)
    staged none = tt
    staged (some e) = tt
checked-Ends (bad e) h = tt
checked-Ends stuck h = absurd h

build-Ends :
    (before : List ShellCommand) (cmd : ShellCommand) (bg : Bool) (ts : List Token)
    → Ends (build before cmd bg ts)
unfolding build
build-Ends before cmd bg [] = tt
build-Ends before cmd bg (word text ∷ ts) = build-Ends before _ bg ts
build-Ends before cmd bg (pipe ∷ ts) =
    if_both Ends (is_empty cmd.argv) _ _ tt
      (if_both Ends (is_empty ts) _ _ tt (build-Ends _ _ bg ts))
build-Ends before cmd bg (background ∷ ts) =
    if_both Ends (not (is_empty ts)) _ _ tt (build-Ends before cmd true ts)
build-Ends before cmd bg (input ∷ []) = tt
build-Ends before cmd bg (input ∷ pipe ∷ ts) = tt
build-Ends before cmd bg (input ∷ input ∷ ts) = tt
build-Ends before cmd bg (input ∷ output ∷ ts) = tt
build-Ends before cmd bg (input ∷ append ∷ ts) = tt
build-Ends before cmd bg (input ∷ background ∷ ts) = tt
build-Ends before cmd bg (input ∷ word path ∷ ts) =
    if_both Ends (is_some cmd.input_path) _ _ tt (build-Ends before _ bg ts)
build-Ends before cmd bg (output ∷ []) = tt
build-Ends before cmd bg (output ∷ pipe ∷ ts) = tt
build-Ends before cmd bg (output ∷ input ∷ ts) = tt
build-Ends before cmd bg (output ∷ output ∷ ts) = tt
build-Ends before cmd bg (output ∷ append ∷ ts) = tt
build-Ends before cmd bg (output ∷ background ∷ ts) = tt
build-Ends before cmd bg (output ∷ word path ∷ ts) =
    if_both Ends (is_some cmd.output_path) _ _ tt (build-Ends before _ bg ts)
build-Ends before cmd bg (append ∷ []) = tt
build-Ends before cmd bg (append ∷ pipe ∷ ts) = tt
build-Ends before cmd bg (append ∷ input ∷ ts) = tt
build-Ends before cmd bg (append ∷ output ∷ ts) = tt
build-Ends before cmd bg (append ∷ append ∷ ts) = tt
build-Ends before cmd bg (append ∷ background ∷ ts) = tt
build-Ends before cmd bg (append ∷ word path ∷ ts) =
    if_both Ends (is_some cmd.output_path) _ _ tt (build-Ends before _ bg ts)

parse_tokens-Ends : (o : Outcome (List Token)) → Ends o → Ends (parse_tokens o)
unfolding parse_tokens
parse_tokens-Ends (good []) h = tt
parse_tokens-Ends (good (t ∷ ts)) h =
    checked-Ends (build [] empty_command_record false (t ∷ ts))
      (build-Ends [] empty_command_record false (t ∷ ts))
parse_tokens-Ends (bad e) h = tt
parse_tokens-Ends stuck h = absurd h

-- shell_parse_line ends on every line: it gives a pipeline or an error.
pub shell_parse_line-Ends : (line : List ℕ) → Ends (shell_parse_line line)
unfolding shell_parse_line
shell_parse_line-Ends line =
    parse_tokens-Ends (tokenize (length line) line) (tokenize-Ends (length line) line (omega arith))
