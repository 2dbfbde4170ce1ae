-- ===== src/Syscalls/Speaker.antt =====
-- The speaker's calls of Kernel/syscallManager.c: what they write to the ports.
-- `tmp` is the byte that `inb(0x61)` reads.
use native.Mathlib.Nat.{mul-le-mul_left, div-mul-le_self, lt-div-mul-add}
use s_o.Base.{
  ℕ, ◌+◌, ◌*◌, ◌/◌, ◌%◌, ◌≤◌, ◌<◌, ◌≡◌, refl, Option, none, some, List, [], ◌∷◌, ◌++◌, arith, ◌==◌,
  if◌then◌else◌, ==_of_ne,
}

-- `outb` to a port, or `sys_wait`.
pub data Act : Type 0 where
  outb : ℕ → ℕ → Act
  wait : ℕ → Act

-- `tmp | 3` and `tmp & 0xFC`, for a byte
abbrev pub with_gate : ℕ → ℕ
with_gate tmp = tmp / 4 * 4 + 3

abbrev pub without_gate : ℕ → ℕ
without_gate tmp = tmp / 4 * 4

-- `playSound`; a frequency of 0 is a division by zero.
unfoldable pub play_sound : ℕ → ℕ → Option (List Act)
play_sound frequency tmp =
    let div = 1193180 / frequency in
    if frequency == 0
    then none
    else some (
        outb 67 182
        ∷ outb 66 (div % 256)
        ∷ outb 66 (div / 256 % 256)
        ∷ (if tmp == with_gate tmp then [] else outb 97 (with_gate tmp) ∷ []))

abbrev pub no_sound : ℕ → List Act
no_sound tmp = outb 97 (without_gate tmp) ∷ []

abbrev pub followed : Option (List Act) → List Act → Option (List Act)
followed none further = none
followed (some acts) further = some (acts ++ further)

-- `beep1`, with the bytes read before and after the wait, and `beep2`
abbrev pub beep1 : ℕ → ℕ → ℕ → Option (List Act)
beep1 frequency tmp tmp' = followed (play_sound frequency tmp) (wait 200 ∷ no_sound tmp')

abbrev pub beep2 : ℕ → ℕ → Option (List Act)
beep2 tmp tmp' = followed (play_sound 1193180 tmp) (wait 200 ∷ no_sound tmp')

abbrev pub joined : Option (List Act) → Option (List Act) → Option (List Act)
joined none b = none
joined (some a) b = elim b [ none ↦ none | some acts ↦ some (a ++ wait 100 ∷ acts) ]

-- `sys_beep`; `tmps` are the bytes read, in turn.
unfoldable pub sys_beep : ℕ → ℕ × ℕ × ℕ × ℕ → Option (List Act)
unfolding play_sound
sys_beep frequency (a, b, c, d) = joined (beep1 frequency a b) (beep2 c d)

-- For a frequency from 19 to 1193180 the two bytes that `playSound` writes to the port 0x42 are the
-- low and the high one of the divisor whose frequency comes nearest from above.
pub play_sound-divisor :
    (frequency tmp : ℕ)
    → 19 ≤ frequency
    → frequency ≤ 1193180
    → (low high : ℕ) × (gate : List Act) × (play_sound frequency tmp
        ≡ some (outb 67 182 ∷ outb 66 low ∷ outb 66 high ∷ gate))
      × (low < 256)
      × (high < 256)
      × (frequency * (low + 256 * high) ≤ 1193180)
      × (1193180 < frequency * (low + 256 * high + 1))
unfolding play_sound
play_sound-divisor frequency tmp lo hi =
    let div = 1193180 / frequency in
    let small : div * 19 ≤ div * frequency = mul-le-mul_left div lo in
    let below : div * frequency ≤ 1193180 = div-mul-le_self 1193180 frequency in
    let above : 1193180 < div * frequency + frequency =
      lt-div-mul-add {a = 1193180} {b = frequency} (omega (arith, lo)) in
    let whole : div % 256 + 256 * (div / 256 % 256) ≡ div = omega (arith, small, below) in
    (
      div % 256,
      div / 256 % 256,
      (if tmp == with_gate tmp then [] else outb 97 (with_gate tmp) ∷ []),
      rw (==_of_ne frequency 0 (omega (arith, lo))) refl,
      omega arith,
      omega arith,
      rw whole (omega (arith, below)),
      rw whole (omega (arith, above)),
    )
