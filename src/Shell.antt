-- ===== src/Shell.antt =====
-- Userland/uCodeModule/shell.c: the line that the user edits.
-- A character that `getChar` returns is its byte, so a value from 128 on is a negative `char`. What is
-- printed on the way is left out.
pub mod Editing
pub mod Names
pub mod Commands
pub mod Pipes
pub mod PrintMem
pub mod Running
pub mod Parsing
pub mod Words
pub mod Splitting
mod Tests
use s_o.Base.{ℕ, ◌+◌, ◌-◌, ◌&&◌, List, [], ◌∷◌, ltb, leb, ◌==◌, if◌then◌else◌, update}

abbrev pub max_terminal_chars : ℕ
max_terminal_chars = 124

-- The memory behind `*buf`, and `i`.
abbrev pub LineBuffer : Type 0
LineBuffer = (ℕ → ℕ) × ℕ

-- The body of the loop. BACKSPACE is 8.
unfoldable pub edit : LineBuffer → ℕ → LineBuffer
unfolding update
edit (buf, i) c =
    if c == 8
    then (if ltb 0 i then (update buf (i - 1) 0, i - 1) else (buf, i))
    else if leb 32 c && ltb c 128
    then (update (update buf i c) (i + 1) 0, i + 1)
    else (buf, i)

-- The loop of `bufferRead`, over the characters that `getChar` returns, until a NUL or a full line.
unfoldable pub read_chars : LineBuffer → List ℕ → LineBuffer
read_chars (buf, i) [] = (buf, i)
read_chars (buf, i) (c ∷ cs) =
    let further = read_chars (edit (buf, i) c) cs in
    if ltb i (max_terminal_chars - 1)
    then (if c == 0 then edit (buf, i) c else further)
    else (buf, i)

unfoldable pub buffer_read : (ℕ → ℕ) → List ℕ → LineBuffer
unfolding read_chars update
buffer_read buf cs = read_chars (update buf 0 0, 0) cs
