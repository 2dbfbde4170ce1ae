-- ===== src/UserLib/Decimal.antt =====
-- `ultoa` and `itoa` against `atoul`.
use s_o.Base.{
  ℕ, suc, ◌+◌, ◌-◌, ◌*◌, ◌/◌, ◌^◌, ◌≤◌, ◌<◌, ◌≡◌, refl, sym, ap, ◌∙◌, subst, inl, inr, true, some,
  arith, ◌==◌, ==_iff, Bool-cases, update, update_self, pow-suc,
}
use s_o.UserLib.{
  Memory, atoul, atoul_loop, digits_of, fill, ultoa, zero_char, strlen, count_digits, itoa,
}
use s_o.UserLib.Digits.{
  fill-outside, atoul_loop-fill, count_digits-bounds, atoul_loop-digit, fill-nonzero,
  strlen_loop-end, same_read,
}

-- A number has the digits that are counted for it.
digits_of-bounds :
    (n : ℕ) → n < 2 ^ 31 → (n < 10 ^ digits_of n) × (0 < digits_of n) × (digits_of n ≤ 21)
digits_of-bounds n h =
    let (j, c, b, l) = count_digits-bounds 20 (n / 10) 1 (omega arith) in
    let e : digits_of n ≡ suc j = omega (arith, c) in
    let p = pow-suc 10 j in rw e (omega (arith, p, b), omega arith, omega (arith, l))

atoul_loop-end :
    (fuel : ℕ) (mem : Memory) (p result : ℕ)
    → mem p ≡ 0
    → atoul_loop (suc fuel) mem p result ≡ some result
unfolding atoul_loop
atoul_loop-end fuel mem p result e = rw e

-- The text that the general case of both functions writes.
atoul-fill :
    (k fuel : ℕ) (mem : Memory) (str n : ℕ)
    → n < 10 ^ k
    → n < 2 ^ 31
    → atoul (k + suc fuel) (fill k (update mem (str + k) 0) str n) str ≡ some n
atoul-fill k fuel mem str n small bound =
    let m = update mem (str + k) 0 in
    let end : fill k m str n (str + k) ≡ 0 =
      fill-outside k m str n (str + k) (inr (omega arith)) ∙ update_self mem (str + k) 0 in
    atoul_loop-fill k (suc fuel) m str n 0 small (omega (arith, bound))
    ∙ atoul_loop-end fuel (fill k m str n) (str + k) (0 * 10 ^ k + n) end
    ∙ ap some (omega arith)

atoul-char :
    (fuel : ℕ) (mem : Memory) (p d : ℕ)
    → mem p ≡ d + zero_char
    → mem (p + 1) ≡ 0
    → d < 10
    → atoul_loop (suc (suc fuel)) mem p 0 ≡ some d
atoul-char fuel mem p d at end small =
    atoul_loop-digit (suc fuel) mem p d 0 at small (omega arith)
    ∙ atoul_loop-end fuel mem (p + 1) (0 * 10 + d) end
    ∙ ap some (omega arith)

one_digit : (n : ℕ) → n < 2 ^ 31 → (digits_of n == 1) ≡ true → n < 10
one_digit n h e = subst (λ k. n < 10 ^ k) ((==_iff (digits_of n) 1).0 e) (digits_of-bounds n h).0

enough_fuel :
    (n fuel : ℕ) (mem : Memory) (str : ℕ)
    → n < 2 ^ 31
    → 22 < fuel
    → atoul fuel (fill (digits_of n) (update mem (str + digits_of n) 0) str n) str ≡ some n
enough_fuel n fuel mem str h enough =
    let b = digits_of-bounds n h in
    let k = digits_of n in
    ap (λ f. atoul f (fill k (update mem (str + k) 0) str n) str) (omega (arith, b))
    ∙ atoul-fill k (fuel - k - 1) mem str n b.0 h

-- The bytes that `ultoa` writes for one digit.
one_char : Memory → ℕ → ℕ → Memory
one_char mem str n = update (update mem str (zero_char + n)) (str + 1) 0

one_char-at :
    (mem : Memory) (str n : ℕ)
    → (one_char mem str n str ≡ n + zero_char) × (one_char mem str n (str + 1) ≡ 0)
unfolding one_char update
one_char-at mem str n = ground arith

one_char_text : (mem : Memory) (str n j : ℕ) → j < 1 → 0 < one_char mem str n (str + j)
one_char_text mem str n j h =
    subst (λ x. 0 < one_char mem str n x) (omega arith) (positive (one_char-at mem str n).0)
  where
    positive : {c : ℕ} → c ≡ n + zero_char → 0 < c
    positive e = omega (arith, e)

-- What `ultoa` writes for a number that fits an `int`, `atoul` reads back.
pub atoul-ultoa :
    (n fuel str : ℕ) (mem : Memory)
    → n < 2 ^ 31
    → atoul (fuel + 23) (ultoa n str mem).1 str ≡ some n
unfolding ultoa one_char
atoul-ultoa n fuel str mem h =
    let at = one_char-at mem str n in
    elim (Bool-cases (digits_of n == 1)) [
      | inl e ↦ rw e (
          ap (λ f. atoul f (one_char mem str n) str) (omega arith)
          ∙ atoul-char (fuel + 21) (one_char mem str n) str n at.0 at.1 (one_digit n h e))
      | inr e ↦ rw e (enough_fuel n (fuel + 23) mem str h (omega arith))
    ]

filled_text :
    (k : ℕ) (mem : Memory) (str n j : ℕ)
    → j < k
    → 0 < fill k (update mem (str + k) 0) str n (str + j)
filled_text k mem str n j h = fill-nonzero k (update mem (str + k) 0) str n j h

-- `ultoa` returns the length of the text that it writes.
pub strlen-ultoa :
    (n fuel str : ℕ) (mem : Memory)
    → n < 2 ^ 31
    → strlen (fuel + 23) (ultoa n str mem).1 str ≡ some (ultoa n str mem).0
unfolding ultoa one_char
strlen-ultoa n fuel str mem h =
    let at = one_char-at mem str n in
    let k = digits_of n in
    let b = digits_of-bounds n h in
    elim (Bool-cases (digits_of n == 1)) [
      | inl e ↦ rw e (
          strlen_loop-end (fuel + 23) (one_char mem str n) str 0 1 (one_char_text mem str n) at.1
            (omega arith) (omega arith)
          ∙ ap some (sym ((==_iff k 1).0 e)))
      | inr e ↦ rw e (
          strlen_loop-end (fuel + 23) (fill k (update mem (str + k) 0) str n) str 0 k
            (filled_text k mem str n)
            (fill-outside k (update mem (str + k) 0) str n (str + k) (inr (omega arith))
              ∙ update_self mem (str + k) 0)
            (omega arith) (omega (arith, b)))
    ]

-- The bytes that `itoa` writes for one digit.
two_chars : Memory → ℕ → ℕ → Memory
two_chars mem str n =
    update (update (update mem str zero_char) (str + 1) (n + zero_char)) (str + 2) 0

two_chars-at :
    (mem : Memory) (str n : ℕ)
    → (two_chars mem str n str ≡ 0 + zero_char)
      × (two_chars mem str n (str + 1) ≡ n + zero_char)
      × (two_chars mem str n (str + 2) ≡ 0)
unfolding two_chars update
two_chars-at mem str n = ground arith

two_chars_text : (mem : Memory) (str n j : ℕ) → j < 2 → 0 < two_chars mem str n (str + j)
unfolding two_chars update
two_chars_text mem str n j h = ground arith

-- What `itoa` writes for a number that fits an `int` and is not negative, `atoul` reads back,
-- in spite of the zero in front of a single digit.
pub atoul-itoa :
    (n fuel str : ℕ) (mem : Memory) → n < 2 ^ 31 → atoul (fuel + 23) (itoa n str mem).1 str ≡ some n
unfolding itoa two_chars
atoul-itoa n fuel str mem h =
    let at = two_chars-at mem str n in
    let text = two_chars mem str n in
    elim (Bool-cases (digits_of n == 1)) [
      | inl e ↦
          let small = one_digit n h e in
          rw e (
            ap (λ f. atoul f text str) (omega arith)
            ∙ atoul_loop-digit (suc (suc (fuel + 20))) text str 0 0 at.0 (omega arith) (omega arith)
            ∙ same_read text (suc (suc (fuel + 20))) (str + 1) (str + 1) (0 * 10 + 0) 0 refl
                (omega arith)
            ∙ atoul-char (fuel + 20) text (str + 1) n at.1 (ap text (omega arith) ∙ at.2) small)
      | inr e ↦ rw e (enough_fuel n (fuel + 23) mem str h (omega arith))
    ]

digits_of_small : (n : ℕ) → n < 10 → digits_of n ≡ 1
unfolding count_digits
digits_of_small n h =
    let none_left : n / 10 ≡ 0 = omega arith in ap (λ x. count_digits 20 x 1) none_left ∙ refl

-- For a number below ten `itoa` returns 1, and the text that it writes is two characters long.
pub itoa-padded :
    (n fuel str : ℕ) (mem : Memory)
    → n < 10
    → ((itoa n str mem).0 ≡ 1) × (strlen (fuel + 3) (itoa n str mem).1 str ≡ some 2)
unfolding itoa two_chars
itoa-padded n fuel str mem h =
    let one = digits_of_small n h in
    let at = two_chars-at mem str n in
    rw ((==_iff (digits_of n) 1).1 one) (
      one,
      strlen_loop-end (fuel + 3) (two_chars mem str n) str 0 2 (two_chars_text mem str n) at.2
          (omega arith) (omega arith),
    )
