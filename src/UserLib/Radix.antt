-- ===== src/UserLib/Radix.antt =====
-- `uintToBase`: the text of a number in any base.
use native.Mathlib.Nat.{
  pow-zero, div-one, div-lt_iff_lt-mul, le-div_iff_mul-le, div-div-eq-div-mul, mul_comm,
  pow-le-pow_left,
}
use s_o.Base.{
  ℕ, zero, suc, ◌+◌, ◌-◌, ◌*◌, ◌/◌, ◌%◌, ◌^◌, ◌≤◌, ◌<◌, ◌≡◌, refl, sym, ap, ◌∙◌, subst, ◌⊎◌, inl,
  inr, true, arith, ltb, ◌==◌, ltb→lt, ltb_false→le, ==_iff, Bool-cases, update, update_self,
  update-ne, pow-suc,
}
use s_o.UserLib.Turn.{swap_loop-turned, turned_inside, turned_outside}
use s_o.UserLib.{Memory, swap_loop, Emitted, digit_char, emit, uint_to_base}

-- What the first loop leaves: `n` digits of `value`, the lowest first.
record Digits (base value : ℕ) (before after : Emitted) (n : ℕ) : Type 0 where
  end : after.end ≡ before.end + n
  digits : after.digits ≡ before.digits + n
  some_digit : 0 < n
  enough : value < base ^ n
  no_zero : (n ≡ 1) ⊎ (base ^ (n - 1) ≤ value)
  at : (j : ℕ) → j < n → after.mem (before.end + j) ≡ digit_char (value / base ^ j % base)
  frame : (x : ℕ) → x < before.end → after.mem x ≡ before.mem x

pow-one : (base : ℕ) → base ^ 1 ≡ base
pow-one base = pow-suc base 0 ∙ ap (λ p. p * base) (pow-zero base) ∙ omega arith

below_base : (base value : ℕ) → 0 < base → value / base ≡ 0 → value < base
below_base base value positive e =
    let h : value < 1 * base = (div-lt_iff_lt-mul positive).0 (omega (arith, e)) in omega (arith, h)

from_base : (base value : ℕ) → 0 < base → 0 < value / base → base ≤ value
from_base base value positive h =
    let g : 1 * base ≤ value = (le-div_iff_mul-le positive).0 h in omega (arith, g)

-- One round of the loop.
abbrev pushed : ℕ → ℕ → Emitted → Emitted
pushed base value e = record {
  mem = update e.mem e.end (digit_char (value % base));
  end = e.end + 1;
  digits = e.digits + 1;
}

digit_at-zero : (base value : ℕ) → digit_char (value % base) ≡ digit_char (value / base ^ 0 % base)
digit_at-zero base value =
    let e : value / base ^ 0 ≡ value = ap (λ p. value / p) (pow-zero base) ∙ div-one value in
    ap (λ v. digit_char (v % base)) (sym e)

pushed-Digits :
    (base value : ℕ) (e : Emitted) → value < base → Digits base value e (pushed base value e) 1
pushed-Digits base value e small = record {
  end = refl;
  digits = refl;
  some_digit = omega arith;
  enough = rw (pow-one base) small;
  no_zero = inl refl;
  at = λ j lt. first_digit j (omega (arith, lt));
  frame = λ x lt. update-ne e.mem e.end (digit_char (value % base)) x (omega (arith, lt));
}
  where
    first_digit :
        (j : ℕ)
        → j ≡ 0
        → update e.mem e.end (digit_char (value % base)) (e.end + j)
          ≡ digit_char (value / base ^ j % base)
    first_digit j z = rw z (
        ap (update e.mem e.end (digit_char (value % base))) (omega arith)
        ∙ update_self e.mem e.end (digit_char (value % base))
        ∙ digit_at-zero base value)

lead :
    (base value m : ℕ)
    → 0 < base
    → base ≤ value
    → 0 < m
    → (m ≡ 1) ⊎ (base ^ (m - 1) ≤ value / base)
    → base ^ m ≤ value
lead base value m positive large nonempty (inl e) = rw (e, pow-one base) large
lead base value zero positive large nonempty (inr h) = elim nonempty [ ]
lead base value (suc k) positive large nonempty (inr h) =
    let h' : base ^ k ≤ value / base = subst (λ z. base ^ z ≤ value / base) (omega arith) h in
    rw (pow-suc base k) ((le-div_iff_mul-le positive).0 h')

next-Digits :
    (base value m : ℕ) (e after : Emitted)
    → 1 < base
    → base ≤ value
    → Digits base (value / base) (pushed base value e) after m
    → Digits base value e after (suc m)
next-Digits base value m e after two large d = record {
  end = omega (arith, d.end);
  digits = omega (arith, d.digits);
  some_digit = omega arith;
  enough = rw (pow-suc base m) ((div-lt_iff_lt-mul (omega (arith, two))).0 d.enough);
  no_zero = inr (
      subst (λ z. base ^ z ≤ value) (omega arith)
        (lead base value m (omega (arith, two)) large d.some_digit d.no_zero));
  at = digit_next;
  frame = λ x lt.
      d.frame x (omega (arith, lt))
      ∙ update-ne e.mem e.end (digit_char (value % base)) x (omega (arith, lt));
}
  where
    digit_next : (j : ℕ) → j < suc m → after.mem (e.end + j) ≡ digit_char (value / base ^ j % base)
    digit_next zero lt =
        ap after.mem (omega arith)
        ∙ d.frame e.end (omega arith)
        ∙ update_self e.mem e.end (digit_char (value % base))
        ∙ digit_at-zero base value
    digit_next (suc j) lt =
        ap after.mem (omega arith)
        ∙ d.at j (omega (arith, lt))
        ∙ ap (λ v. digit_char (v % base))
            (div-div-eq-div-mul value base (base ^ j)
              ∙ ap (λ p. value / p) (mul_comm base (base ^ j) ∙ sym (pow-suc base j)))

emit-Digits :
    (rounds base value : ℕ) (e : Emitted)
    → 1 < base
    → value < base ^ suc rounds
    → (n : ℕ) × Digits base value e (emit (suc rounds) base value e) n × (n ≤ suc rounds)
unfolding emit
emit-Digits zero base value e two bound =
    let b : value < base = subst (λ p. value < p) (pow-one base) bound in
    let q : value / base < 1 = (div-lt_iff_lt-mul (omega (arith, two))).1 (omega (arith, b)) in
    let done : (value / base == 0) ≡ true = (==_iff (value / base) 0).1 (omega (arith, q)) in
    rw done (1, pushed-Digits base value e b, omega arith)
emit-Digits (suc rounds) base value e two bound = elim (Bool-cases (value / base == 0)) [
  | inl done ↦ rw done (
    1,
    pushed-Digits base value e
        (below_base base value (omega (arith, two)) ((==_iff (value / base) 0).0 done)),
    omega arith,
  )
  | inr more ↦
      let (m, d, l) = emit-Digits rounds base (value / base) (pushed base value e) two (
        (div-lt_iff_lt-mul (omega (arith, two))).1
          (subst (λ p. value < p) (pow-suc base (suc rounds)) bound)) in
      rw more (
        suc m,
        next-Digits base value m e (emit (suc rounds) base (value / base) (pushed base value e)) two
            (from_base base value (omega (arith, two)) (ground (arith, more))) d,
        omega (arith, l),
      )
]

-- The text of `value`, by the characters that the code gives to the digits.
pub uint_to_base-chars :
    (value buffer base j : ℕ) (mem : Memory)
    → 1 < base
    → value < 2 ^ 64
    → (value < base ^ (uint_to_base value buffer base mem).0)
      × (((uint_to_base value buffer base mem).0 ≡ 1)
          ⊎ (base ^ ((uint_to_base value buffer base mem).0 - 1) ≤ value))
      × ((uint_to_base value buffer base mem).1 (buffer + (uint_to_base value buffer base mem).0)
          ≡ 0)
      × (((uint_to_base value buffer base mem).0 ≤ j)
          ⊎ ((uint_to_base value buffer base mem).1
                (buffer + ((uint_to_base value buffer base mem).0 - 1 - j))
              ≡ digit_char (value / base ^ j % base)))
unfolding uint_to_base
uint_to_base-chars value buffer base j mem two bound =
    let before : Emitted = record { mem = mem; end = buffer; digits = 0 } in
    let after = emit 64 base value before in
    let (n, d, l) =
      emit-Digits 63 base value before two (omega (arith, bound, pow-le-pow_left two 64)) in
    let closed = update after.mem after.end 0 in
    let turn = λ (x : ℕ).
      swap_loop-turned 32 closed buffer (after.end - 1) x (omega (arith, d.end, l, d.some_digit)) in
    let digit_found : (n ≤ j)
        ⊎ (swap_loop 32 closed buffer (after.end - 1) (buffer + (n - 1 - j))
            ≡ digit_char (value / base ^ j % base)) =
      elim (Bool-cases (ltb j n)) [
        | inl lt ↦
            let lt' = ltb→lt j n lt in
            inr (
              turn (buffer + (n - 1 - j))
              ∙ turned_inside closed buffer (after.end - 1) (buffer + (n - 1 - j)) (buffer + j)
                  (omega arith) (omega (arith, d.end)) (omega (arith, d.end, lt'))
              ∙ update-ne after.mem after.end 0 (buffer + j) (omega (arith, d.end, lt'))
              ∙ d.at j lt')
        | inr ge ↦ inl (ltb_false→le j n ge)
      ] in
    let count : after.digits ≡ n = omega (arith, d.digits) in
    rw count (
      d.enough,
      d.no_zero,
      turn (buffer + n)
          ∙ turned_outside closed buffer (after.end - 1) (buffer + n)
              (omega (arith, d.end, d.some_digit))
          ∙ ap closed (omega (arith, d.end))
          ∙ update_self after.mem after.end 0,
      digit_found,
    )
