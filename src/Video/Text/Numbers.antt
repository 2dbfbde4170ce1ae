-- ===== src/Video/Text/Numbers.antt =====
-- Kernel/videoDriver.c: numbers on the screen.
-- `uintToBase` is the same code as in the user library. Its buffer has 64 bytes.
use s_o.Base.{
  ℕ, zero, suc, ◌+◌, ◌-◌, ◌^◌, ◌≤◌, ◌<◌, ◌↔◌, inl, inr, List, [], ◌∷◌, arith, leb, Bool-cases,
}
use native.Mathlib.Nat.{pow-le-pow_right}
use s_o.UserLib.{Memory, uint_to_base}
use s_o.UserLib.Radix.{uint_to_base-chars}
use s_o.Video.{Screen}
use s_o.Video.Text.{print_string}

abbrev pub white : ℕ
white = 2 ^ 24 - 1

-- The bytes of the text at `p`.
unfoldable pub text_bytes : ℕ → Memory → ℕ → List ℕ
text_bytes zero mem p = []
text_bytes (suc n) mem p = mem p ∷ text_bytes n mem (p + 1)

abbrev pub number_text : ℕ → ℕ → ℕ → Memory → ℕ × Memory
number_text value buffer base mem = uint_to_base value buffer base mem

-- The screen and memory behind `printBase`; `buffer` is the address of the array.
abbrev pub print_base : (ℕ → ℕ) → ℕ → Screen → Memory → ℕ → ℕ → Screen × Memory
print_base font buffer s mem value base =
    let (digits, m) = number_text value buffer base mem in
    (print_string font s (text_bytes digits m buffer) white, m)

-- 98 is `'b'`.
abbrev pub print_bin : (ℕ → ℕ) → ℕ → Screen → Memory → ℕ → Screen × Memory
print_bin font buffer s mem value =
    let (s1, m) = print_base font buffer s mem value 2 in (print_string font s1 (98 ∷ []) white, m)

-- The digits of a 64-bit value with their NUL fit into the 64 bytes exactly when the value is below
-- base ^ 63: in base 2, a value from 2 ^ 63 on puts the NUL behind the array.
pub number_text-room :
    (value buffer base : ℕ) (mem : Memory)
    → 1 < base
    → value < 2 ^ 64
    → ((number_text value buffer base mem).0 + 1 ≤ 64) ↔ (value < base ^ 63)
number_text-room value buffer base mem two bound =
    let (above, below, _, _) = uint_to_base-chars value buffer base 0 mem two bound in
    let digits = (number_text value buffer base mem).0 in
    let some_base : 0 < base = omega (arith, two) in
    (
      (λ fits.
          let powers : base ^ digits ≤ base ^ 63 =
            pow-le-pow_right some_base (omega (arith, fits)) in
          omega (arith, above, powers)),
      (λ small. elim (Bool-cases (leb 64 digits)) [
        | inl many ↦
            let powers : base ^ 63 ≤ base ^ (digits - 1) =
              pow-le-pow_right some_base (ground (arith, many)) in
            elim below [
              | inl one ↦ absurd (ground (arith, many, one))
              | inr le ↦ absurd (omega (arith, le, small, powers))
            ]
        | inr few ↦ ground (arith, few)
      ]),
    )
