-- ===== src/Shell/Examples.antt =====
-- The theorems on the parser of the shell at two lines.
use embedded_systems_runtime.Prelude.{refl, none, false, [], ◌∷◌, codes}
use embedded_systems_runtime.Shell.Parser.{
  ShellPipeline, shell_parse_line, is_space, action, read_word,
}
use embedded_systems_runtime.Shell.Parser.Stages.{WellFormed, shell_parse_line-WellFormed}
use embedded_systems_runtime.Shell.Parser.Total.{Ends, shell_parse_line-Ends}

shell_parse_line-Ends_example : Ends (shell_parse_line (codes "'a"))
shell_parse_line-Ends_example = shell_parse_line-Ends (codes "'a")

abbrev one_command : ShellPipeline
one_command = record {
  commands =
      record {
        argv = codes "ls" ∷ [];
        input_path = none;
        output_path = none;
        append_output = false;
      }
      ∷ [];
  is_background = false;
}

shell_parse_line-WellFormed_example : WellFormed 0 (one_command.commands)
unfolding shell_parse_line is_space read_word action
shell_parse_line-WellFormed_example = shell_parse_line-WellFormed (codes "ls") one_command refl
