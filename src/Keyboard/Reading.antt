-- ===== src/Keyboard/Reading.antt =====
-- `getKbdBuffer` and `sys_read` of Kernel/syscallManager.c. An interrupt comes at a `_hlt`: the
-- list of each halt has the codes that `saveKey` is called with before the process goes on.
use s_o.Base.{
  ℕ, ◌+◌, ◌-◌, ◌%◌, ◌^◌, Bool, true, false, ◌&&◌, ◌||◌, List, [], ◌∷◌, ltb, ◌==◌, if◌then◌else◌,
  update,
}
use s_o.Keyboard.Driver.{
  Keyboard, Saved, saved, interrupted, overflow, save_key, read_buf, clear_keyboard_buffer,
}

-- The memory behind `buf`, the position `i` and the keyboard.
pub record Input : Type 0 where
  pub buf : ℕ → ℕ
  pub i : ℕ
  pub keyboard : Keyboard

-- `getKbdBuffer`; the third argument of `readBuf` is a `uint32_t`.
unfoldable pub get_kbd_buffer : ℕ → Input → Bool × Input
unfolding read_buf
get_kbd_buffer count s =
    if s.keyboard.count == 0
    then (false, s)
    else (let read = read_buf s.keyboard s.buf s.i ((count + 2 ^ 32 + 2 ^ 32 - s.i - 1) % 2 ^ 32) in
        (
          true,
          record { buf = read.1.0; i = s.i + read.0; keyboard = clear_keyboard_buffer (read.1.1) },
        ))

-- The calls of `saveKey` at one halt.
unfoldable pub save_keys : Keyboard → List ℕ → Saved
save_keys k [] = saved k
save_keys k (c ∷ cs) = elim (save_key k c) [
  | saved k' ↦ save_keys k' cs
  | interrupted k' ↦ interrupted k'
  | overflow ↦ overflow
]

-- How a call comes out: it returns a number, it still halts when the codes end, or a halt ends
-- with Ctrl-C or an overflow.
pub data Reading : Type 0 where
  read : ℕ → Input → Reading
  halted : Input → Reading
  broken : Saved → Reading

-- A line end, or a NUL, as the last byte read.
abbrev pub line_end : Input → Bool
line_end s = (s.buf (s.i - 1) == 10) || (s.buf (s.i - 1) == 0)

abbrev pub with_end : Input → ℕ → Input
with_end s at_ = record s { buf = update s.buf at_ 0 }

-- The loop of `sys_read` up to the halt of a round, where it goes on with `go_on`.
unfoldable pub round : ℕ → Input → (Input → Reading) → Reading
round count s go_on =
    let got = get_kbd_buffer count s in
    if ltb s.i ((count + 2 ^ 32 - 1) % 2 ^ 32)
    then (if got.0 && line_end got.1
        then read got.1.i (with_end got.1 (got.1.i - 1))
        else go_on got.1)
    else read s.i (with_end s s.i)

abbrev pub after_halt : (Keyboard → Reading) → Saved → Reading
after_halt go_on (saved k) = go_on k
after_halt go_on (interrupted k) = broken (interrupted k)
after_halt go_on overflow = broken overflow

-- The rounds, one for each halt.
unfoldable pub read_loop : List (List ℕ) → ℕ → Input → Reading
unfolding round save_keys
read_loop [] count s = round count s halted
read_loop (cs ∷ halts) count s = round count s (λ s'.
    after_halt (λ k. read_loop halts count (record s' { keyboard = k })) (save_keys s'.keyboard cs))

-- `sys_read` of a process that reads from the keyboard.
unfoldable pub sys_read : List (List ℕ) → (ℕ → ℕ) → ℕ → Keyboard → Reading
unfolding read_loop
sys_read halts buf count k =
    read_loop halts count (record { buf = buf; i = 0; keyboard = clear_keyboard_buffer k })
