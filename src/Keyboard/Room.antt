-- ===== src/Keyboard/Room.antt =====
-- `sys_read` stays inside of the caller's buffer.
use s_o.Base.{
  ℕ, suc, ◌+◌, ◌-◌, ◌%◌, ◌^◌, ◌≤◌, ◌<◌, min, ◌≡◌, refl, ◌∙◌, subst, inl, inr, ◌&&◌, List, [], ◌∷◌,
  arith, ltb, leb, ◌==◌, if◌then◌else◌, Bool-cases, update,
}
use s_o.Keyboard.Reading.{
  Input, get_kbd_buffer, Reading, broken, halted, line_end, read, read_loop, round, sys_read,
  with_end, after_halt, save_keys,
}
use s_o.Keyboard.Keys.{read_buf-count, read_buf-copied}
use s_o.Keyboard.Driver.{Keyboard, clear_keyboard_buffer, Saved, interrupted, overflow, saved}

-- The room that `getKbdBuffer` gives `readBuf`.
abbrev pub room : ℕ → Input → ℕ
room count s = (count + 2 ^ 32 + 2 ^ 32 - s.i - 1) % 2 ^ 32

pub room_lem :
    (count : ℕ) (s : Input) → suc s.i < count → count < 2 ^ 32 → room count s ≡ count - s.i - 1
room_lem count s lt fits = omega (arith, lt, fits)

-- The position stays below the size, and moves on when a key is there.
get_kbd_buffer-position :
    (count : ℕ) (s : Input)
    → suc s.i < count
    → count < 2 ^ 32
    → (get_kbd_buffer count s).1.i ≡ s.i + min s.keyboard.count (count - s.i - 1)
unfolding get_kbd_buffer
get_kbd_buffer-position count s lt fits = elim (Bool-cases (s.keyboard.count == 0)) [
  | inl idle ↦ ground (arith, idle)
  | inr keys ↦
      ground
        (arith, keys, room_lem count s lt fits, read_buf-count s.keyboard s.buf s.i (room count s))
]

-- It writes at the position, as many bytes as it moves on.
get_kbd_buffer-copied :
    (count : ℕ) (s : Input) (j : ℕ)
    → suc s.i < count
    → count < 2 ^ 32
    → (get_kbd_buffer count s).1.buf j ≡ (
        if leb s.i j && ltb j (s.i + min s.keyboard.count (count - s.i - 1))
        then s.keyboard.keys (j - s.i)
        else s.buf j)
unfolding get_kbd_buffer
get_kbd_buffer-copied count s j lt fits = elim (Bool-cases (s.keyboard.count == 0)) [
  | inl idle ↦ ground (arith, idle)
  | inr keys ↦
      ground (
        arith,
        keys,
        room_lem count s lt fits,
        read_buf-copied s.keyboard s.buf s.i (room count s) j,
      )
]

abbrev Same : ℕ → (ℕ → ℕ) → (ℕ → ℕ) → Type 0
Same count b b' = (j : ℕ) → count ≤ j → b' j ≡ b j

-- The position is inside of the buffer, and the memory behind the buffer is as it was.
abbrev Kept : ℕ → (ℕ → ℕ) → Reading → Type 0
Kept count b (read n s) = (n < count) × Same count b s.buf
Kept count b (halted s) = (s.i < count) × Same count b s.buf
Kept count b (broken e) = Unit

got-Same :
    (count : ℕ) (s : Input)
    → suc s.i < count
    → count < 2 ^ 32
    → Same count s.buf (get_kbd_buffer count s).1.buf
got-Same count s lt fits j le = ground (arith, get_kbd_buffer-copied count s j lt fits)

end_inside :
    (count at_ : ℕ) (b : ℕ → ℕ) (s : Input)
    → at_ < count
    → Same count b s.buf
    → Same count b (with_end s at_).buf
unfolding update
end_inside count at_ b s lt same j le = ground (arith, same j le)

round-Kept :
    (count : ℕ) (s : Input) (go_on : Input → Reading)
    → s.i < count
    → count < 2 ^ 32
    → ((s' : Input) → s'.i < count → Same count s.buf s'.buf → Kept count s.buf (go_on s'))
    → Kept count s.buf (round count s go_on)
unfolding round
round-Kept count s go_on lt fits next =
    elim (Bool-cases (ltb s.i ((count + 2 ^ 32 - 1) % 2 ^ 32))) [
      | inl more ↦
          (let small : suc s.i < count = ground (arith, more, lt, fits) in
            let got = get_kbd_buffer count s in
            let moved : got.1.i < count =
              ground (arith, get_kbd_buffer-position count s small fits) in
            elim (Bool-cases (got.0 && line_end got.1)) [
              | inl line ↦
                  rw (more, line)
                    (
                      (ground (arith, moved)),
                      end_inside count (got.1.i - 1) s.buf got.1 (ground (arith, moved))
                          (got-Same count s small fits),
                    )
              | inr on ↦ rw (more, on) (next got.1 moved (got-Same count s small fits))
            ])
      | inr full ↦ rw full (lt, end_inside count s.i s.buf s lt (λ j le. refl))
    ]

after_halt-Kept :
    (count : ℕ) (b : ℕ → ℕ) (go_on : Keyboard → Reading) (e : Saved)
    → ((k : Keyboard) → Kept count b (go_on k))
    → Kept count b (after_halt go_on e)
after_halt-Kept count b go_on (saved k) next = next k
after_halt-Kept count b go_on (interrupted k) next = tt
after_halt-Kept count b go_on overflow next = tt

transfer :
    (count : ℕ) (b b' : ℕ → ℕ) (r : Reading) → Same count b b' → Kept count b' r → Kept count b r
transfer count b b' (read n s) same kept = (kept.0, λ j le. kept.1 j le ∙ same j le)
transfer count b b' (halted s) same kept = (kept.0, λ j le. kept.1 j le ∙ same j le)
transfer count b b' (broken e) same kept = tt

read_loop-Kept :
    (halts : List (List ℕ)) (count : ℕ) (s : Input)
    → s.i < count
    → count < 2 ^ 32
    → Kept count s.buf (read_loop halts count s)
unfolding read_loop
read_loop-Kept [] count s lt fits = round-Kept count s halted lt fits (λ s' h same. (h, same))
read_loop-Kept (cs ∷ halts) count s lt fits =
    round-Kept count s
      (λ s'.
        after_halt (λ k. read_loop halts count (record s' { keyboard = k }))
          (save_keys s'.keyboard cs))
      lt fits
      (λ s' h same.
        after_halt-Kept count s.buf (λ k. read_loop halts count (record s' { keyboard = k }))
          (save_keys s'.keyboard cs)
          (λ k.
            transfer count s.buf s'.buf (read_loop halts count (record s' { keyboard = k })) same
              (read_loop-Kept halts count (record s' { keyboard = k }) h fits)))

-- Whatever the keys are, `sys_read` of a process that reads from the keyboard, with a size from 1 on,
-- when it returns, returns a smaller number than the size, and has written nothing behind the buffer.
pub sys_read_inside :
    (halts : List (List ℕ)) (b : ℕ → ℕ) (count : ℕ) (k : Keyboard) (n : ℕ) (s : Input)
    → 1 ≤ count
    → count < 2 ^ 32
    → sys_read halts b count k ≡ read n s
    → (n < count) × ((j : ℕ) → count ≤ j → s.buf j ≡ b j)
unfolding sys_read
sys_read_inside halts b count k n s le fits e = subst (Kept count b) e (
    read_loop-Kept halts count (record { buf = b; i = 0; keyboard = clear_keyboard_buffer k }) le
      fits)
