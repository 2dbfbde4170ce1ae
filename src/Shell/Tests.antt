-- ===== src/Shell/Tests.antt =====
-- A line with a mistake in it.
use s_o.Base.{ℕ, ◌<◌, ◌≡◌, refl, true, false, some, List, [], ◌∷◌, ◌++◌, arith, get_or}
use s_o.Shell.{buffer_read}
use s_o.Shell.Names.{cat, first_of, name_of}
use s_o.Shell.Commands.{
  Surroundings, ampersand, branch, cat_program, close_pipe, get_room, give_back, give_way,
  open_pipe, run, run_words,
}
use s_o.Shell.Pipes.{pipes_name, run_text, shell_round, shell_round-pipe}
use s_o.Semaphore.Table.{same_name}
use s_o.Shell.Editing.{line_of, Shows, buffer_read-Shows}
use s_o.Shell.Parsing.{parse_string}
use s_o.Shell.Words.{words_of}
use s_o.Shell.Splitting.{cut, parse_string-words_of}

-- `l`, `x`, Backspace, `s` and Enter.
abbrev presses : List ℕ
presses = 108 ∷ 120 ∷ 8 ∷ 115 ∷ 0 ∷ []

edited_line : line_of [] presses ≡ 115 ∷ 108 ∷ []
unfolding line_of
edited_line = refl

buffer_read-Shows_example :
    Shows (buffer_read (λ n. 7) presses) (line_of [] presses)
    × (buffer_read (λ n. 7) presses).1 < 124
buffer_read-Shows_example = buffer_read-Shows (λ n. 7) presses

-- ` kill  12`
abbrev command : List ℕ
command = 32 ∷ 107 ∷ 105 ∷ 108 ∷ 108 ∷ 32 ∷ 32 ∷ 49 ∷ 50 ∷ []

command_words : words_of command ≡ (107 ∷ 105 ∷ 108 ∷ 108 ∷ []) ∷ (49 ∷ 50 ∷ []) ∷ []
command_words = refl

parse_string-words_of_example :
    (rows : ℕ → List ℕ) × (num : ℕ) × parse_string 10 command (λ i. 7 ∷ []) ≡ some (rows, num)
    × num ≡ 2
    × ((i : ℕ) → i < num → rows i ≡ cut (get_or (words_of command) i []))
    × rows num ≡ []
parse_string-words_of_example =
    parse_string-words_of 10 command (λ i. 7 ∷ []) (ground arith) (ground arith)

-- Each process gets the pid 4, and each pipe the descriptor 3.
abbrev around : Surroundings
around = record { pid_of = λ p. 4; pipe_of = λ name. 3; font_size = 1; stray = false }

-- The arguments "x" and "&".
abbrev x_ampersand : List (List ℕ)
x_ampersand = (120 ∷ []) ∷ ampersand ∷ []

in_background :
    (run_words around (name_of cat) x_ampersand (0, 1) 1).acts
    ≡ open_pipe ampersand ∷ run cat_program ((120 ∷ []) ∷ []) 0 (3, 1) ∷ []
unfolding run_words first_of branch same_name
in_background = refl

-- "cat|wc"
shell_round-pipe_example :
    shell_round around
      (record { for_left = true; for_right = true })
      (λ i. [])
      ((99 ∷ 97 ∷ 116 ∷ []) ++ 124 ∷ 119 ∷ 99 ∷ [])
    ≡ some (record {
      value = 1;
      acts =
          get_room 4
            ∷ get_room 3
            ∷ open_pipe pipes_name
            ∷ (run_text around (99 ∷ 97 ∷ 116 ∷ []) (0, 3) 0).acts
          ++ give_way ∷ (run_text around (119 ∷ 99 ∷ []) (3, 1) 1).acts
          ++ give_back ∷ give_back ∷ close_pipe 3 ∷ [];
    })
unfolding run_words first_of branch same_name
shell_round-pipe_example =
    shell_round-pipe around (λ i. []) (99 ∷ 97 ∷ 116 ∷ []) (119 ∷ 99 ∷ [])
      (ground arith, (ground arith, (ground arith, tt))) (ground arith) (ground arith) refl refl
