-- ===== src/Keyboard/Tests.antt =====
-- Keys that a user presses, and the lines that a program reads.
use s_o.Base.{ℕ, ◌≤◌, ◌<◌, ◌≡◌, refl, List, [], ◌∷◌, ◌++◌, map, arith}
use s_o.Keyboard.Driver.{Keyboard, get_key, put_key, store_key, save_key}
use s_o.Keyboard.Reading.{Reading, sys_read, read, get_kbd_buffer, Input, broken, halted, save_keys}
use s_o.Keyboard.Rounds.{Holds, Plain}
use s_o.Keyboard.Lines.{line_halts, sys_read-line_halts}
use s_o.Keyboard.Room.{sys_read_inside}
use s_o.Keyboard.Overflow.{Stored, save_keys-Stored}

abbrev idle : Keyboard
idle = record { keys = λ n. 0; count = 0; shift = 0; ctrl = 0 }

-- `l`, `s` and Enter, each key released again.
abbrev ls : List (List ℕ)
ls = (38 ∷ 166 ∷ []) ∷ (31 ∷ 159 ∷ []) ∷ (28 ∷ 156 ∷ []) ∷ []

abbrev returned_line : Reading → List ℕ
returned_line (read n s) = n ∷ s.buf 0 ∷ s.buf 1 ∷ s.buf 2 ∷ s.buf 3 ∷ []
returned_line _ = []

ls_read : returned_line (sys_read (ls ++ [] ∷ []) (λ n. 77) 10 idle) ≡ 3 ∷ 108 ∷ 115 ∷ 0 ∷ 77 ∷ []
unfolding sys_read save_key get_kbd_buffer store_key get_key put_key
ls_read = refl

key_l : Plain 38
unfolding get_key
key_l = (
  ground arith,
  ground arith,
  ground arith,
  ground arith,
  ground arith,
  ground arith,
  ground arith,
)

key_s : Plain 31
unfolding get_key
key_s = (
  ground arith,
  ground arith,
  ground arith,
  ground arith,
  ground arith,
  ground arith,
  ground arith,
)

abbrev keys_ls : List ℕ
keys_ls = 38 ∷ 31 ∷ []

sys_read-line_halts_example :
    (s : Input) × sys_read (line_halts keys_ls) (λ n. 77) 10 idle ≡ read 3 s
    × Holds s.buf 0 (map get_key keys_ls ++ 0 ∷ [])
sys_read-line_halts_example =
    sys_read-line_halts keys_ls (λ n. 77) 10 idle (key_l, (key_s, tt)) refl refl (ground arith)
      (ground arith)

abbrev input_of : Reading → Input
input_of (read n s) = s
input_of (halted s) = s
input_of (broken e) = record { buf = λ n. 0; i = 0; keyboard = idle }

-- A size of 3 leaves room for the two characters alone.
abbrev small_read : Input
small_read = input_of (sys_read (ls ++ [] ∷ []) (λ n. 77) 3 idle)

read_small : sys_read (ls ++ [] ∷ []) (λ n. 77) 3 idle ≡ read 2 small_read
unfolding sys_read save_key get_kbd_buffer store_key get_key put_key
read_small = refl

sys_read_inside_example : 2 < 3 × ((j : ℕ) → 3 ≤ j → small_read.buf j ≡ 77)
sys_read_inside_example =
    sys_read_inside (ls ++ [] ∷ []) (λ n. 77) 3 idle 2 small_read (ground arith) (ground arith)
      read_small

-- A keyboard with 54 keys: one more fits.
abbrev busy : Keyboard
busy = record { keys = λ n. 97; count = 54; shift = 0; ctrl = 0 }

save_keys-Stored_example : Stored busy keys_ls (save_keys busy keys_ls)
save_keys-Stored_example =
    save_keys-Stored keys_ls busy (key_l, (key_s, tt)) refl refl (ground arith)
