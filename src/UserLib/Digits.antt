-- ===== src/UserLib/Digits.antt =====
-- The loops of the decimal conversions.
use s_o.Base.{
  ℕ, zero, suc, ◌+◌, ◌-◌, ◌*◌, ◌/◌, ◌%◌, ◌^◌, ◌≤◌, ◌<◌, ◌≡◌, refl, ap, ◌∙◌, subst, ◌⊎◌, inl, inr,
  true, false, some, arith, ltb, ◌==◌, lt→ltb, ==_iff, ==_of_ne, Bool-cases, update, update_self,
  update-ne, pow-suc,
}
use s_o.UserLib.{Memory, atoul_loop, count_digits, fill, zero_char, is_digit, strlen_loop}

-- Enough rounds find how many digits are left.
pub count_digits-bounds :
    (rounds n digits : ℕ)
    → n < 10 ^ rounds
    → (j : ℕ) × (count_digits rounds n digits ≡ digits + j) × (n < 10 ^ j) × (j ≤ rounds)
unfolding count_digits
count_digits-bounds zero n digits h = (0, omega arith, h, omega arith)
count_digits-bounds (suc rounds) n digits h = elim (Bool-cases (n == 0)) [
  | inl e ↦ (0, rw e (omega arith), ground (arith, e), omega arith)
  | inr e ↦
      let (j, c, b, l) =
        count_digits-bounds rounds (n / 10) (digits + 1)
          (let p = pow-suc 10 rounds in omega arith) in
      (suc j, rw e (omega (arith, c)), (let p = pow-suc 10 j in omega (arith, b)), omega (arith, l))
]

-- Filling `k` places writes nothing outside them.
pub fill-outside :
    (k : ℕ) (mem : Memory) (str n p : ℕ) → (p < str) ⊎ (str + k ≤ p) → fill k mem str n p ≡ mem p
unfolding fill
fill-outside zero mem str n p h = refl
fill-outside (suc k) mem str n p h =
    fill-outside k (update mem (str + k) (n % 10 + zero_char)) str (n / 10) p (ground arith)
    ∙ update-ne mem (str + k) (n % 10 + zero_char) p (ground (arith, h))

-- One digit read.
pub atoul_loop-digit :
    (fuel : ℕ) (mem : Memory) (p d result : ℕ)
    → mem p ≡ d + zero_char
    → d < 10
    → result * 10 + d < 2 ^ 31
    → atoul_loop (suc fuel) mem p result ≡ atoul_loop fuel mem (p + 1) (result * 10 + d)
unfolding atoul_loop
atoul_loop-digit fuel mem p d result at small bound =
    let nonzero : (mem p == 0) ≡ false = ground (arith, at) in
    let digit : is_digit (mem p) ≡ true = ground (arith, at, small) in
    let value : mem p - zero_char ≡ d = omega (arith, at) in
    let fits : ltb (result * 10 + d) (2 ^ 31) ≡ true = lt→ltb (result * 10 + d) (2 ^ 31) bound in
    rw (nonzero, digit, value, fits) refl

pub same_read :
    (mem : Memory) (fuel p q r t : ℕ)
    → p ≡ q
    → r ≡ t
    → atoul_loop fuel mem p r ≡ atoul_loop fuel mem q t
same_read mem fuel p q r t e e' = rw (e, e') refl

-- The loop of `atoul` reads back the digits that were filled in.
pub atoul_loop-fill :
    (k fuel : ℕ) (mem : Memory) (str n result : ℕ)
    → n < 10 ^ k
    → result * 10 ^ k + n < 2 ^ 31
    → atoul_loop (k + fuel) (fill k mem str n) str result
      ≡ atoul_loop fuel (fill k mem str n) (str + k) (result * 10 ^ k + n)
unfolding fill
atoul_loop-fill zero fuel mem str n result h bound =
    ap (λ f. atoul_loop f mem str result) (omega arith)
    ∙ same_read mem fuel str (str + 0) result (result * 1 + n) (omega arith) (omega arith)
atoul_loop-fill (suc k) fuel mem str n result h bound =
    let m = update mem (str + k) (n % 10 + zero_char) in
    let filled = fill k m str (n / 10) in
    let p = pow-suc 10 k in
    let read = result * 10 ^ k + n / 10 in
    let q : result * 10 ^ suc k ≡ result * 10 ^ k * 10 = ap (λ x. result * x) p ∙ omega arith in
    let at : filled (str + k) ≡ n % 10 + zero_char =
      fill-outside k m str (n / 10) (str + k) (inr (omega arith))
      ∙ update_self mem (str + k) (n % 10 + zero_char) in
    ap (λ f. atoul_loop f filled str result) (omega arith)
    ∙ atoul_loop-fill k (suc fuel) m str (n / 10) result (omega (arith, p, h))
        (omega (arith, q, bound))
    ∙ atoul_loop-digit fuel filled (str + k) (n % 10) read at (omega arith)
        (omega (arith, q, bound))
    ∙ same_read filled fuel (str + k + 1) (str + suc k) (read * 10 + n % 10)
        (result * 10 ^ suc k + n) (omega arith) (omega (arith, q))

-- A place that was filled holds a digit.
pub fill-nonzero : (k : ℕ) (mem : Memory) (str n i : ℕ) → i < k → 0 < fill k mem str n (str + i)
unfolding fill
fill-nonzero zero mem str n i h = elim h [ ]
fill-nonzero (suc k) mem str n i h =
    let m = update mem (str + k) (n % 10 + zero_char) in
    elim (Bool-cases (i == k)) [
      | inl e ↦
          let at =
            ap (λ x. fill k m str (n / 10) (str + x)) ((==_iff i k).0 e)
            ∙ fill-outside k m str (n / 10) (str + k) (inr (omega arith))
            ∙ update_self mem (str + k) (n % 10 + zero_char) in
          omega (arith, at)
      | inr e ↦ fill-nonzero k m str (n / 10) i (ground (arith, e, h))
    ]

-- `strlen` of a text of `n` characters.
pub strlen_loop-end :
    (fuel : ℕ) (mem : Memory) (str i n : ℕ)
    → ((j : ℕ) → j < n → 0 < mem (str + j))
    → mem (str + n) ≡ 0
    → i ≤ n
    → n < i + fuel
    → strlen_loop fuel mem str i ≡ some n
unfolding strlen_loop
strlen_loop-end zero mem str i n text end lo hi = ground arith
strlen_loop-end (suc fuel) mem str i n text end lo hi = elim (Bool-cases (i == n)) [
  | inl e ↦
      let same = (==_iff i n).0 e in
      let stop = ap (λ x. mem (str + x)) same ∙ end in
      rw ((==_iff (mem (str + i)) 0).1 stop) (ap some same)
  | inr e ↦
      let below : i < n = ground (arith, e, lo) in
      let inner = text i below in
      let head : 0 < mem str = subst (λ x. 0 < mem x) (omega arith) (text 0 (omega arith)) in
      rw
        (
          ==_of_ne (mem (str + i)) 0 (omega (arith, inner)),
          ==_of_ne (mem str) 0 (omega (arith, head)),
        )
        (strlen_loop-end fuel mem str (i + 1) n text end (omega arith) (omega arith))
]
