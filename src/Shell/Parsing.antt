-- ===== src/Shell/Parsing.antt =====
-- `parseString` of Userland/uCodeModule/shell.c. The text is the list of its bytes in front of the NUL.
use s_o.Base.{
  ℕ, zero, suc, ◌+◌, min, Option, none, some, List, [], ◌∷◌, ltb, ◌==◌, if◌then◌else◌, length, take,
  update,
}

abbrev pub max_words : ℕ
max_words = 80

abbrev pub max_word_length : ℕ
max_word_length = 40

-- `while (*str == ' ') str++;`
abbrev pub skip_spaces : List ℕ → List ℕ
skip_spaces [] = []
skip_spaces (c ∷ cs) = if c == 32 then skip_spaces cs else c ∷ cs

-- What lies between `wordStart` and `str` behind the loop to the end of the word.
abbrev pub word : List ℕ → List ℕ
word [] = []
word (c ∷ cs) = if c == 32 then [] else c ∷ word cs

-- `str` behind that loop.
abbrev pub behind_word : List ℕ → List ℕ
behind_word [] = []
behind_word (c ∷ cs) = if c == 32 then c ∷ cs else behind_word cs

-- The rows of `words`, each up to its NUL, and `*numWords`.
abbrev pub Rows : Type 0
Rows = (ℕ → List ℕ) × ℕ

-- A word that is too long is cut off.
abbrev pub copy_word : Rows → List ℕ → Rows
copy_word (rows, num) w = (update rows num (take (min (length w) max_word_length) w), num + 1)

-- `words[*numWords][0] = '\0';` Row 80 stands for what lies behind the array.
abbrev pub end_words : Rows → Rows
end_words (rows, num) = (update rows num [], num)

-- The outer loop. Each round takes a byte at least.
unfoldable pub parse_loop : ℕ → List ℕ → Rows → Option Rows
unfolding update
parse_loop zero str s = none
parse_loop (suc fuel) str s =
    let found = skip_spaces str in
    let further = parse_loop fuel (behind_word found) (copy_word s (word found)) in
    if length str == 0
    then some (end_words s)
    else if ltb s.1 max_words
    then (if length found == 0 then some (end_words s) else further)
    else some (end_words s)

unfoldable pub parse_string : ℕ → List ℕ → (ℕ → List ℕ) → Option Rows
unfolding parse_loop
parse_string fuel str rows = parse_loop fuel str (rows, 0)
