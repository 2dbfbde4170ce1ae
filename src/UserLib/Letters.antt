-- ===== src/UserLib/Letters.antt =====
-- The characters of the text that `uintToBase` of Userland/uCodeModule/lib.c writes.
use native.Mathlib.Nat.{mod-lt}
use s_o.Base.{
  ℕ, zero, suc, ◌+◌, ◌-◌, ◌/◌, ◌%◌, ◌^◌, ◌≤◌, ◌<◌, ◌≡◌, refl, ap, ◌∙◌, ◌⊎◌, inl, inr, Bool, true,
  ◌&&◌, List, [], ◌∷◌, arith, ◌==◌, ==_iff, length, get_or,
}
use s_o.UserLib.{Memory, digit_char, uint_to_base}
use s_o.UserLib.Radix.{uint_to_base-chars}

-- "0123456789ABCDEFGHIJKLMNOPQRSTUVWXYZ"
abbrev pub alphabet : List ℕ
alphabet =
    48 ∷ 49 ∷ 50 ∷ 51 ∷ 52 ∷ 53 ∷ 54 ∷ 55 ∷ 56 ∷ 57 ∷ 65 ∷ 66 ∷ 67 ∷ 68 ∷ 69 ∷ 70 ∷ 71 ∷ 72 ∷ 73
    ∷ 74 ∷ 75 ∷ 76 ∷ 77 ∷ 78 ∷ 79 ∷ 80 ∷ 81 ∷ 82 ∷ 83 ∷ 84 ∷ 85 ∷ 86 ∷ 87 ∷ 88 ∷ 89 ∷ 90 ∷ []

-- The character of a digit.
abbrev pub character : ℕ → ℕ
character d = get_or alphabet d 0

-- The digits from `k` on have the characters of the list.
unfoldable are_written : List ℕ → ℕ → Bool
are_written [] k = true
are_written (c ∷ cs) k = digit_char k == c && are_written cs (k + 1)

written-at :
    (cs : List ℕ) (k d : ℕ)
    → are_written cs k ≡ true
    → d < length cs
    → digit_char (k + d) ≡ get_or cs d 0
unfolding are_written
written-at [] k d w lt = elim lt [ ]
written-at (c ∷ cs) k zero w lt =
    ap digit_char (omega arith) ∙ (==_iff (digit_char k) c).0 (first_of w)
  where
    first_of : (digit_char k == c && are_written cs (k + 1)) ≡ true → (digit_char k == c) ≡ true
    first_of h = ground (arith, h)
written-at (c ∷ cs) k (suc d) w lt =
    ap digit_char (omega arith) ∙ written-at cs (k + 1) d (ground (arith, w)) (omega (arith, lt))

alphabet-written : are_written alphabet 0 ≡ true
unfolding are_written
alphabet-written = refl

digit_char-character : (d : ℕ) → d < 36 → digit_char d ≡ character d
digit_char-character d lt =
    ap digit_char (omega arith) ∙ written-at alphabet 0 d alphabet-written lt

-- The text of a 64-bit `value` in a base from 2 to 36: it has as many characters as `uintToBase`
-- returns, no more than the value needs, and a NUL behind them, and its `j`-th character from the end
-- is the digit of `base ^ j`, out of "0" to "9" and "A" to "Z".
pub uint_to_base-digits :
    (value buffer base j : ℕ) (mem : Memory)
    → 1 < base
    → base ≤ 36
    → value < 2 ^ 64
    → (value < base ^ (uint_to_base value buffer base mem).0)
      × (((uint_to_base value buffer base mem).0 ≡ 1)
          ⊎ (base ^ ((uint_to_base value buffer base mem).0 - 1) ≤ value))
      × ((uint_to_base value buffer base mem).1 (buffer + (uint_to_base value buffer base mem).0)
          ≡ 0)
      × (((uint_to_base value buffer base mem).0 ≤ j)
          ⊎ ((uint_to_base value buffer base mem).1
                (buffer + ((uint_to_base value buffer base mem).0 - 1 - j))
              ≡ character (value / base ^ j % base)))
uint_to_base-digits value buffer base j mem two top bound =
    let (above, below, nul, char_found) = uint_to_base-chars value buffer base j mem two bound in
    let small : value / base ^ j % base < 36 =
      omega (arith, top, mod-lt (value / base ^ j) {m = base} (omega (arith, two))) in
    (
      above,
      below,
      nul,
      elim char_found [
        | inl behind ↦ inl behind
        | inr found ↦ inr (found ∙ digit_char-character (value / base ^ j % base) small)
      ],
    )
