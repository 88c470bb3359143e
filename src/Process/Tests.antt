-- ===== src/Process/Tests.antt =====
-- Runs of the model of src/process.c, and its theorems at concrete inputs.
use mutineer.Prelude.{◌≡◌, refl, inl, inr, none, some, List, ℕ, [], ◌∷◌, arith}
use mutineer.Process.{
  argv_parse_template, argv_parse_door_template, command_contains_shell_meta, bad_byte, args_from,
  read_token, move, skip_spaces, empty_command, and_operator,
}
use mutineer.Process.Fuel.{IsAnswer, argv_parse-IsAnswer}
use mutineer.Process.Quoting.{escaped, quoted, spaced, command_line, argv_parse-command_line}
use mutineer.Process.Filling.{IsWithFile, argv_parse_template-fill}

-- sz "a b"
abbrev viewer : List ℕ
viewer = b's' ∷ b'z' ∷ b' ' ∷ b'"' ∷ b'a' ∷ b' ' ∷ b'b' ∷ b'"' ∷ []

-- A file's name with a space and a semicolon.
abbrev file : List ℕ
file = b'x' ∷ b' ' ∷ b';' ∷ []

viewer_args :
    argv_parse_template 9 viewer none
    ≡ some (inr ((b's' ∷ b'z' ∷ []) ∷ (b'a' ∷ b' ' ∷ b'b' ∷ []) ∷ []))
unfolding argv_parse_template command_contains_shell_meta bad_byte args_from read_token move
    skip_spaces
viewer_args = refl

viewer_door :
    argv_parse_door_template 9 viewer none
    ≡ some (inr ((b's' ∷ b'z' ∷ []) ∷ (b'a' ∷ b' ' ∷ b'b' ∷ []) ∷ []))
unfolding argv_parse_door_template command_contains_shell_meta bad_byte args_from read_token move
    skip_spaces
viewer_door = refl

-- A command line of one space is refused as empty, but with a file it runs the file.
blank_runs_file :
    (argv_parse_template 2 (b' ' ∷ []) none ≡ some (inl empty_command))
    × (argv_parse_template 2 (b' ' ∷ []) (some file) ≡ some (inr (file ∷ [])))
unfolding argv_parse_template command_contains_shell_meta bad_byte args_from read_token move
    skip_spaces
blank_runs_file = (refl, refl)

two_programs : argv_parse_template 6 (b'a' ∷ b'&' ∷ b'&' ∷ b'b' ∷ []) none ≡ some (inl and_operator)
unfolding argv_parse_template command_contains_shell_meta bad_byte
two_programs = refl

argv_parse-IsAnswer_example :
    IsAnswer none (argv_parse_template 9 viewer none)
    × IsAnswer none (argv_parse_door_template 9 viewer none)
argv_parse-IsAnswer_example = argv_parse-IsAnswer 9 viewer none (omega arith)

-- sz -f=%f -v
abbrev sender : List ℕ
sender = b's' ∷ b'z' ∷ b' ' ∷ b'-' ∷ b'f' ∷ b'=' ∷ b'%' ∷ b'f' ∷ b' ' ∷ b'-' ∷ b'v' ∷ []

abbrev sender_parts : List (List ℕ)
sender_parts =
    (b's' ∷ b'z' ∷ []) ∷ (b'-' ∷ b'f' ∷ b'=' ∷ b'%' ∷ b'f' ∷ []) ∷ (b'-' ∷ b'v' ∷ []) ∷ []

sender_args : argv_parse_template 12 sender none ≡ some (inr sender_parts)
unfolding argv_parse_template command_contains_shell_meta bad_byte args_from read_token move
    skip_spaces
sender_args = refl

argv_parse_template-fill_example :
    (result : List (List ℕ)) × (argv_parse_template 12 sender (some file) ≡ some (inr result))
    × IsWithFile file sender_parts result
argv_parse_template-fill_example = argv_parse_template-fill 12 sender file sender_parts sender_args

argv_parse-command_line_example :
    (argv_parse_template 12 (command_line file ([] ∷ [])) none ≡ some (inr (file ∷ [] ∷ [])))
    × (argv_parse_door_template 12 (command_line file ([] ∷ [])) none ≡ some (inr (file ∷ [] ∷ [])))
unfolding command_line quoted escaped spaced
argv_parse-command_line_example = argv_parse-command_line 12 file ([] ∷ []) refl (omega arith)
