-- ===== src/Keyboard/Lines.antt =====
-- A line that a user types arrives at the program that called `sys_read`.
use s_o.Base.{
  ℕ, suc, ◌+◌, ◌^◌, ◌<◌, ◌≡◌, refl, sym, ap, ◌∙◌, List, [], ◌∷◌, ◌++◌, map, arith, length, All,
  update,
}
use s_o.Keyboard.Driver.{get_key, Keyboard, clear_keyboard_buffer}
use s_o.Keyboard.Reading.{
  Input, read_loop, read, with_end, Reading, after_halt, halted, save_keys, sys_read,
}
use s_o.Keyboard.Rounds.{
  Plain, press, Holds, Empty, with_key, taken, enter_typed, key_typed, round_enter, round_idle,
  round_key,
}

-- The halts for the keys `cs` and Enter.
abbrev pub line_halts : List ℕ → List (List ℕ)
line_halts cs = map press cs ++ press 28 ∷ []

-- What a call of `read_loop` makes of the keys `cs` and Enter: the characters from the position
-- on, a NUL, and the memory in front of the position as it was.
abbrev Line : List ℕ → ℕ → Input → Type 0
Line cs count s =
    (s' : Input) × read_loop (line_halts cs) count s ≡ read (s.i + length cs + 1) s'
    × Holds s'.buf s.i (map get_key cs ++ 0 ∷ [])
    × ((j : ℕ) → j < s.i → s'.buf j ≡ s.buf j)

-- A round on an empty keyboard waits for the first halt.
halt_taken :
    (halts : List (List ℕ)) (cs : List ℕ) (count : ℕ) (s : Input)
    → Empty s.keyboard
    → suc s.i < count
    → count < 2 ^ 32
    → read_loop (cs ∷ halts) count s
      ≡ after_halt
          (λ k. read_loop halts count (record s { keyboard = k }))
          (save_keys s.keyboard cs)
unfolding read_loop
halt_taken halts cs count s e lt fits =
    round_idle count s
      (λ s'.
        after_halt (λ k. read_loop halts count (record s' { keyboard = k }))
          (save_keys s'.keyboard cs))
      e lt fits

enter-Line :
    (count : ℕ) (s : Input) → Empty s.keyboard → suc s.i < count → count < 2 ^ 32 → Line [] count s
unfolding read_loop update
enter-Line count s e lt fits =
    let s' = with_end (taken (record s { keyboard = with_key s.keyboard 10 }) 10) s.i in
    let go_on : Keyboard → Reading = λ k. read_loop [] count (record s { keyboard = k }) in
    let reads : read_loop (press 28 ∷ []) count s ≡ read (s.i + 0 + 1) s' =
      halt_taken [] (press 28) count s e lt fits
      ∙ ap (after_halt go_on) (enter_typed s.keyboard e)
      ∙ round_enter count s halted e lt fits
      ∙ ap (λ n. read n s') (omega arith) in
    (s', reads, (ground arith, tt), λ j below. ground (arith, below))

-- The keyboard with the first key may as well be empty, and the key in the memory.
key_taken :
    (halts : List (List ℕ)) (cs : List ℕ) (count : ℕ) (s : Input) (c : ℕ)
    → Empty s.keyboard
    → Plain c
    → suc (suc s.i) < count
    → count < 2 ^ 32
    → read_loop (cs ∷ halts) count (record s { keyboard = with_key s.keyboard (get_key c) })
      ≡ read_loop
          (cs ∷ halts)
          count
          (taken (record s { keyboard = with_key s.keyboard (get_key c) }) (get_key c))
unfolding read_loop
key_taken halts cs count s c e plain lt fits =
    let s' = taken (record s { keyboard = with_key s.keyboard (get_key c) }) (get_key c) in
    let go_on : Input → Reading = λ s''.
      after_halt (λ k. read_loop halts count (record s'' { keyboard = k }))
        (save_keys s''.keyboard cs) in
    round_key count s go_on (get_key c) e plain.5 plain.6 (omega (arith, lt)) fits
    ∙ sym (round_idle count s' go_on (refl, e.1, e.2) (ground (arith, lt)) fits)

key_line :
    (c : ℕ) (cs : List ℕ) (count : ℕ) (s : Input)
    → Empty s.keyboard
    → Plain c
    → suc (suc s.i) < count
    → count < 2 ^ 32
    → read_loop (line_halts (c ∷ cs)) count s
      ≡ read_loop
          (line_halts cs)
          count
          (taken (record s { keyboard = with_key s.keyboard (get_key c) }) (get_key c))
key_line c cs count s e plain lt fits =
    halt_taken (line_halts cs) (press c) count s e (omega (arith, lt)) fits
    ∙ ap (after_halt (λ k. read_loop (line_halts cs) count (record s { keyboard = k })))
        (key_typed s.keyboard c e plain)
    ∙ next cs
  where
    next :
        (cs' : List ℕ)
        → read_loop (line_halts cs') count (record s { keyboard = with_key s.keyboard (get_key c) })
          ≡ read_loop
              (line_halts cs')
              count
              (taken (record s { keyboard = with_key s.keyboard (get_key c) }) (get_key c))
    next [] = key_taken [] (press 28) count s c e plain lt fits
    next (c' ∷ cs') = key_taken (line_halts cs') (press c') count s c e plain lt fits

read-Line :
    (cs : List ℕ) (count : ℕ) (s : Input)
    → All Plain cs
    → Empty s.keyboard
    → s.i + length cs + 1 < count
    → count < 2 ^ 32
    → Line cs count s
unfolding update
read-Line [] count s plain e lt fits = enter-Line count s e (omega (arith, lt)) fits
read-Line (c ∷ cs) count s plain e lt fits =
    let s' = taken (record s { keyboard = with_key s.keyboard (get_key c) }) (get_key c) in
    let line = read-Line cs count s' plain.1 (refl, e.1, e.2) (omega (arith, lt)) fits in
    let reads = key_line c cs count s e plain.0 (omega (arith, lt)) fits in
    (
      line.0,
      reads ∙ line.1 ∙ ap (λ n. read n line.0) (omega arith),
      (line.3 s.i (omega arith) ∙ ground arith, line.2),
      λ j below. line.3 j (omega (arith, below)) ∙ ground (arith, below),
    )

-- On an idle keyboard, a user types a line: each key is pressed and released at a halt of its own,
-- is none of Shift, Ctrl and Enter, and has a character. When the line with its end is shorter than
-- the size, `sys_read` returns, with the number of the keys and Enter, and the buffer holds the
-- characters and a NUL.
pub sys_read-line_halts :
    (cs : List ℕ) (b : ℕ → ℕ) (count : ℕ) (k : Keyboard)
    → All Plain cs
    → k.shift ≡ 0
    → k.ctrl ≡ 0
    → length cs + 1 < count
    → count < 2 ^ 32
    → (s : Input) × sys_read (line_halts cs) b count k ≡ read (length cs + 1) s
      × Holds s.buf 0 (map get_key cs ++ 0 ∷ [])
unfolding sys_read
sys_read-line_halts cs b count k plain shift ctrl lt fits =
    let line =
      read-Line cs count (record { buf = b; i = 0; keyboard = clear_keyboard_buffer k }) plain
        (refl, shift, ctrl) (omega (arith, lt)) fits in
    (line.0, line.1 ∙ ap (λ n. read n line.0) (omega arith), line.2)
