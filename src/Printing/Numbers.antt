-- ===== src/Printing/Numbers.antt =====
-- The digits that `numToBase` of Kernel/lib.c writes.
use native.Mathlib.Nat.{pow-zero, div-lt_iff_lt-mul, div-add-mod', mod-lt, pow-le-pow_left}
use s_o.Base.{
  ℕ, zero, suc, ◌+◌, ◌-◌, ◌*◌, ◌/◌, ◌%◌, ◌^◌, ◌≤◌, ◌<◌, ◌≡◌, refl, sym, ap, ap₂, ◌∙◌, inl, inr,
  false, List, [], ◌∷◌, ◌++◌, arith, ltb, ◌==◌, if◌then◌else◌, ==_iff, Bool-cases, pow-suc,
}
use s_o.Printing.{digit_char, digit_chars, turned, num_to_base, plus}

abbrev pub digit_value : ℕ → ℕ
digit_value c = if ltb c 58 then c - 48 else c - 55

-- The number that a text stands for, the highest digit first, behind digits of the value `acc`.
abbrev pub value_from : ℕ → ℕ → List ℕ → ℕ
value_from base acc [] = acc
value_from base acc (c ∷ cs) = value_from base (acc * base + digit_value c) cs

low_value : ℕ → List ℕ → ℕ
low_value base [] = 0
low_value base (c ∷ cs) = low_value base cs * base + digit_value c

value_from-append :
    (base acc c : ℕ) (cs : List ℕ)
    → value_from base acc (cs ++ c ∷ []) ≡ value_from base acc cs * base + digit_value c
value_from-append base acc c [] = refl
value_from-append base acc c (d ∷ ds) = value_from-append base (acc * base + digit_value d) c ds

value_from-turned : (base : ℕ) (cs : List ℕ) → value_from base 0 (turned cs) ≡ low_value base cs
unfolding low_value
value_from-turned base [] = refl
value_from-turned base (c ∷ cs) =
    value_from-append base 0 c (turned cs)
    ∙ ap (λ v. v * base + digit_value c) (value_from-turned base cs)

digit_value-digit_char : (r : ℕ) → r < 36 → digit_value (digit_char false r) ≡ r
digit_value-digit_char r lt = ground (arith, lt)

below_base : (base value : ℕ) → 0 < base → value / base ≡ 0 → 0 * base + value % base ≡ value
below_base base value positive e =
    ap (λ q. q * base + value % base) (sym e) ∙ div-add-mod' value base

small_digit : (base value : ℕ) → 2 ≤ base → base ≤ 36 → value % base < 36
small_digit base value lo hi = omega (arith, lo, hi, mod-lt value {m = base} (omega (arith, lo)))

-- A value below `base ^ rounds` is written with all of its digits.
low_value-digit_chars :
    (rounds value base : ℕ)
    → 2 ≤ base
    → base ≤ 36
    → value < base ^ suc rounds
    → low_value base (digit_chars (suc rounds) false value base) ≡ value
unfolding low_value digit_chars
low_value-digit_chars zero value base lo hi lt =
    let positive : 0 < base = omega (arith, lo) in
    let small : value < 1 * base =
      omega (arith, lt, pow-suc base 0, ap (λ p. p * base) (pow-zero base)) in
    let none_left : value / base < 1 = (div-lt_iff_lt-mul positive).1 small in
    let e : value / base ≡ 0 = omega (arith, none_left) in
    rw ((==_iff (value / base) 0).1 e) (
      ap (λ d. 0 * base + d) (digit_value-digit_char (value % base) (small_digit base value lo hi))
      ∙ below_base base value positive e)
low_value-digit_chars (suc rounds) value base lo hi lt =
    let positive : 0 < base = omega (arith, lo) in
    let last = digit_value-digit_char (value % base) (small_digit base value lo hi) in
    elim (Bool-cases (value / base == 0)) [
      | inl e ↦ rw e (
          ap (λ d. 0 * base + d) last
          ∙ below_base base value positive ((==_iff (value / base) 0).0 e))
      | inr more ↦
          let fewer : value / base < base ^ suc rounds =
            (div-lt_iff_lt-mul positive).1 (omega (arith, lt, pow-suc base (suc rounds))) in
          let higher = low_value-digit_chars rounds (value / base) base lo hi fewer in
          rw more (ap₂ (λ v d. v * base + d) higher last ∙ div-add-mod' value base)
    ]

-- The text of a number from 0 to 2 ^ 63 - 1, the range of a `long`, in a base from 2 to 36, read back in that base, is the number.
pub num_to_base-value :
    (n base : ℕ)
    → 2 ≤ base
    → base ≤ 36
    → n < 2 ^ 63
    → value_from base 0 (num_to_base (plus n) base) ≡ n
unfolding num_to_base
num_to_base-value n base lo hi lt =
    value_from-turned base (digit_chars 64 false n base)
    ∙ low_value-digit_chars 63 n base lo hi (omega (arith, lt, pow-le-pow_left lo 64))
