-- ===== src/Shell/Parser/RoundTrip.antt =====
-- Tokens that are written with every character of a word escaped are read back by tokenize of
-- shell/parser.c, and tokenize always ends.
use embedded_systems_runtime.Prelude.{
  ℕ, zero, suc, ◌≤◌, ◌≡◌, refl, ap, ◌∙◌, false, List, [], ◌∷◌, ◌++◌, append_assoc, append-nil,
  length, length-append, All, arith,
}
use embedded_systems_runtime.Shell.Parser.{
  Token, word, pipe, input, output, append, background, good, ended, action, is_space, ends_word,
  read_word, push, push_word, push_output, tokenize, is_empty,
}

-- A backslash before each character.
abbrev pub escaped : List ℕ → List ℕ
escaped [] = []
escaped (c ∷ cs) = 92 ∷ c ∷ escaped cs

abbrev pub written : Token → List ℕ
written (word w) = escaped w
written pipe = 124 ∷ []
written input = 60 ∷ []
written output = 62 ∷ []
written append = 62 ∷ 62 ∷ []
written background = 38 ∷ []

-- A line of tokens, each followed by a space.
abbrev pub line_of : List Token → List ℕ
line_of [] = []
line_of (t ∷ ts) = written t ++ (32 ∷ line_of ts)

read_word-escaped :
    (w buf rest : List ℕ)
    → read_word 0 buf (escaped w ++ (32 ∷ rest)) ≡ ended (buf ++ w) (32 ∷ rest)
unfolding read_word action ends_word is_space
read_word-escaped [] buf [] = rw append-nil
read_word-escaped [] buf (c ∷ rest) = rw append-nil
read_word-escaped (c ∷ w) buf rest =
    read_word-escaped w (buf ++ (c ∷ [])) rest
    ∙ ap (λ l. ended l (32 ∷ rest)) (append_assoc buf (c ∷ []) w)

-- No word is empty.
abbrev pub Writable : Token → Type 0
Writable (word w) = is_empty w ≡ false
Writable t = Unit

tokenize-line_of :
    (ts : List Token) (fuel : ℕ)
    → All Writable ts
    → length (line_of ts) ≤ fuel
    → tokenize fuel (line_of ts) ≡ good ts
unfolding tokenize is_space push push_word push_output is_empty
tokenize-line_of [] fuel w h = refl
tokenize-line_of (word [] ∷ ts) fuel (w, ws) h = absurd (ground arith)
tokenize-line_of (word (c ∷ cs) ∷ ts) zero (w, ws) h = absurd (omega arith)
tokenize-line_of (word (c ∷ cs) ∷ ts) (suc zero) (w, ws) h = absurd (omega arith)
tokenize-line_of (word (c ∷ cs) ∷ ts) (suc (suc fuel)) (w, ws) h =
    ap (λ e. push_word e (tokenize (suc fuel))) (read_word-escaped (c ∷ cs) [] (line_of ts))
    ∙ ap (push (word (c ∷ cs)))
        (tokenize-line_of ts fuel ws (omega (arith, length-append (escaped cs) (32 ∷ line_of ts))))
tokenize-line_of (pipe ∷ ts) zero (w, ws) h = absurd (omega arith)
tokenize-line_of (pipe ∷ ts) (suc zero) (w, ws) h = absurd (omega arith)
tokenize-line_of (pipe ∷ ts) (suc (suc fuel)) (w, ws) h =
    ap (push pipe) (tokenize-line_of ts fuel ws (omega arith))
tokenize-line_of (input ∷ ts) zero (w, ws) h = absurd (omega arith)
tokenize-line_of (input ∷ ts) (suc zero) (w, ws) h = absurd (omega arith)
tokenize-line_of (input ∷ ts) (suc (suc fuel)) (w, ws) h =
    ap (push input) (tokenize-line_of ts fuel ws (omega arith))
tokenize-line_of (output ∷ ts) zero (w, ws) h = absurd (omega arith)
tokenize-line_of (output ∷ ts) (suc zero) (w, ws) h = absurd (omega arith)
tokenize-line_of (output ∷ ts) (suc (suc fuel)) (w, ws) h =
    ap (push output) (tokenize-line_of ts fuel ws (omega arith))
tokenize-line_of (append ∷ ts) zero (w, ws) h = absurd (omega arith)
tokenize-line_of (append ∷ ts) (suc zero) (w, ws) h = absurd (omega arith)
tokenize-line_of (append ∷ ts) (suc (suc fuel)) (w, ws) h =
    ap (push append) (tokenize-line_of ts fuel ws (omega arith))
tokenize-line_of (background ∷ ts) zero (w, ws) h = absurd (omega arith)
tokenize-line_of (background ∷ ts) (suc zero) (w, ws) h = absurd (omega arith)
tokenize-line_of (background ∷ ts) (suc (suc fuel)) (w, ws) h =
    ap (push background) (tokenize-line_of ts fuel ws (omega arith))

-- A line of tokens without empty words, with every character of a word behind a backslash, is
-- tokenized back into those tokens.
pub tokenize_escaped :
    (ts : List Token) → All Writable ts → tokenize (length (line_of ts)) (line_of ts) ≡ good ts
tokenize_escaped ts w = tokenize-line_of ts (length (line_of ts)) w (omega arith)
