-- ===== src/Shell/Parser.antt =====
-- tokenize and shell_parse_line of shell/parser.c. A line is the list of its characters' codes,
-- without the zero at its end.
pub mod Stages
pub mod RoundTrip
pub mod Total
use embedded_systems_runtime.Prelude.{
  ℕ, zero, suc, ◌+◌, ◌≤◌, ◌<◌, Option, none, some, Bool, true, false, List, [], ◌∷◌, ◌++◌, ◌==◌,
  length, ltb, not, ◌||◌, ◌&&◌, if◌then◌else◌,
}

pub data Token : Type 0 where
  word : List ℕ → Token
  pipe input output append background : Token

pub data ParseError : Type 0 where
  trailing_escape unterminated_quote empty_before_pipe pipe_at_end background_inside no_path
        two_inputs two_outputs empty_command late_input early_output :
      ParseError

-- Outcomes: a value, an error, or a loop that ran out of fuel.
pub data Outcome (A : Type 0) : Type 0 where
  good : A → Outcome A
  bad : ParseError → Outcome A
  stuck : Outcome A

-- isspace, in the C locale.
unfoldable pub is_space : ℕ → Bool
is_space c = c == 32 || (not (ltb c 9) && not (ltb 13 c))

-- The characters that end a word outside quotes: spaces, '|', '<', '>' and '&'.
unfoldable pub ends_word : ℕ → Bool
unfolding is_space
ends_word c = is_space c || (c == 124 || (c == 60 || (c == 62 || c == 38)))

-- How the inner loop ends: the word and what follows it, or an error.
pub data WordEnd : Type 0 where
  ended : List ℕ → List ℕ → WordEnd
  failed : ParseError → WordEnd

-- What a turn of the inner loop does with a character.
pub data Action : Type 0 where
  stop open_quote close_quote escape plain : Action

-- The tests of the inner loop, in their order. `quote` is 0, or the code of the quote that is open
-- (39 or 34); 92 is the backslash.
unfoldable pub action : ℕ → ℕ → Action
unfolding ends_word
action quote c =
    if quote == 0 && ends_word c
    then stop
    else (if quote == 0 && (c == 39 || c == 34)
        then open_quote
        else (if not (quote == 0) && c == quote
            then close_quote
            else (if c == 92 && not (quote == 39) then escape else plain)))

-- The inner loop. The clauses differ only in what stands behind an escape.
unfoldable pub read_word : ℕ → List ℕ → List ℕ → WordEnd
read_word quote buf [] = if quote == 0 then ended buf [] else failed unterminated_quote
read_word quote buf (c ∷ []) = elim (action quote c) [
  | stop ↦ ended buf (c ∷ [])
  | open_quote ↦ read_word c buf []
  | close_quote ↦ read_word 0 buf []
  | escape ↦ failed trailing_escape
  | plain ↦ read_word quote (buf ++ (c ∷ [])) []
]
read_word quote buf (c ∷ d ∷ cs) = elim (action quote c) [
  | stop ↦ ended buf (c ∷ d ∷ cs)
  | open_quote ↦ read_word c buf (d ∷ cs)
  | close_quote ↦ read_word 0 buf (d ∷ cs)
  | escape ↦ read_word quote (buf ++ (d ∷ [])) cs
  | plain ↦ read_word quote (buf ++ (c ∷ [])) (d ∷ cs)
]

-- A token before those of the rest of the line.
unfoldable pub push : Token → Outcome (List Token) → Outcome (List Token)
push t (good ts) = good (t ∷ ts)
push t (bad e) = bad e
push t stuck = stuck

unfoldable pub push_word : WordEnd → (List ℕ → Outcome (List Token)) → Outcome (List Token)
unfolding push
push_word (failed e) next = bad e
push_word (ended buf rest) next = push (word buf) (next rest)

unfoldable pub push_output : List ℕ → (List ℕ → Outcome (List Token)) → Outcome (List Token)
unfolding push
push_output [] next = push output (next [])
push_output (d ∷ ds) next = if d == 62 then push append (next ds) else push output (next (d ∷ ds))

-- The outer loop.
unfoldable pub tokenize : ℕ → List ℕ → Outcome (List Token)
unfolding push push_word push_output
tokenize fuel [] = good []
tokenize zero (c ∷ cs) = stuck
tokenize (suc fuel) (c ∷ cs) =
    if is_space c
    then tokenize fuel cs
    else (if c == 124
        then push pipe (tokenize fuel cs)
        else (if c == 60
            then push input (tokenize fuel cs)
            else (if c == 62
                then push_output cs (tokenize fuel)
                else (if c == 38
                    then push background (tokenize fuel cs)
                    else push_word (read_word 0 [] (c ∷ cs)) (tokenize fuel)))))

pub record ShellCommand : Type 0 where
  pub argv : List (List ℕ)
  pub input_path : Option (List ℕ)
  pub output_path : Option (List ℕ)
  pub append_output : Bool

abbrev pub empty_command_record : ShellCommand
empty_command_record = record {
  argv = [];
  input_path = none;
  output_path = none;
  append_output = false;
}

pub record ShellPipeline : Type 0 where
  pub commands : List ShellCommand
  pub is_background : Bool

unfoldable pub is_some : Option (List ℕ) → Bool
is_some none = false
is_some (some p) = true

unfoldable pub is_empty {ℓ} : {A : Type ℓ} → List A → Bool
is_empty [] = true
is_empty (x ∷ xs) = false

-- The loop over the tokens. `before` are the commands that are complete, `cmd` is the last one.
unfoldable pub build : List ShellCommand → ShellCommand → Bool → List Token → Outcome ShellPipeline
unfolding is_some is_empty
build before cmd bg [] = good (record { commands = before ++ (cmd ∷ []); is_background = bg })
build before cmd bg (word text ∷ ts) =
    build before (record cmd { argv = cmd.argv ++ (text ∷ []) }) bg ts
build before cmd bg (pipe ∷ ts) =
    let rest = build (before ++ (cmd ∷ [])) empty_command_record bg ts in
    if is_empty cmd.argv
    then bad empty_before_pipe
    else (if is_empty ts then bad pipe_at_end else rest)
build before cmd bg (background ∷ ts) =
    let rest = build before cmd true ts in if not (is_empty ts) then bad background_inside else rest
build before cmd bg (input ∷ word path ∷ ts) =
    let rest = build before (record cmd { input_path = some path }) bg ts in
    if is_some cmd.input_path then bad two_inputs else rest
build before cmd bg (output ∷ word path ∷ ts) =
    let rest = build before (record cmd { output_path = some path; append_output = false }) bg ts in
    if is_some cmd.output_path then bad two_outputs else rest
build before cmd bg (append ∷ word path ∷ ts) =
    let rest = build before (record cmd { output_path = some path; append_output = true }) bg ts in
    if is_some cmd.output_path then bad two_outputs else rest
build before cmd bg (_ ∷ ts) = bad no_path

-- The checks of the last loop, from stage `i` on.
unfoldable pub check_stages : ℕ → List ShellCommand → Option ParseError
unfolding is_some is_empty
check_stages i [] = none
check_stages i (cmd ∷ cmds) =
    if is_empty cmd.argv
    then some empty_command
    else (if ltb 0 i && is_some cmd.input_path
        then some late_input
        else (if not (is_empty cmds) && is_some cmd.output_path
            then some early_output
            else check_stages (suc i) cmds))

unfoldable pub after_stages : ShellPipeline → Option ParseError → Outcome ShellPipeline
after_stages p none = good p
after_stages p (some e) = bad e

unfoldable pub checked : Outcome ShellPipeline → Outcome ShellPipeline
unfolding check_stages after_stages
checked (good p) = after_stages p (check_stages 0 p.commands)
checked (bad e) = bad e
checked stuck = stuck

unfoldable pub parse_tokens : Outcome (List Token) → Outcome ShellPipeline
unfolding build checked
parse_tokens (good []) = good (record { commands = []; is_background = false })
parse_tokens (good (t ∷ ts)) = checked (build [] empty_command_record false (t ∷ ts))
parse_tokens (bad e) = bad e
parse_tokens stuck = stuck

-- The fuel is the length of the line.
unfoldable pub shell_parse_line : List ℕ → Outcome ShellPipeline
unfolding tokenize parse_tokens
shell_parse_line line = parse_tokens (tokenize (length line) line)
