-- ===== src/UserLib/Dates.antt =====
-- The text of the time and of the date that Userland/uCodeModule/timer.c writes.
use s_o.Base.{
  ℕ, ◌+◌, ◌/◌, ◌%◌, ◌^◌, ◌≤◌, ◌<◌, ◌≡◌, sym, ap, ap₂, ◌∙◌, subst, ◌⊎◌, inl, inr, true, ◌&&◌, List,
  [], ◌∷◌, arith, leb, ◌==◌, if◌then◌else◌, Bool-cases, update,
}
use s_o.UserLib.{Memory, count_digits, fill, itoa}
use s_o.Filter.Vowels.{Text}
use s_o.UserLib.Clock.{write_three, get_time_format, local_hours, packed}

-- The two digits of a number below 100.
abbrev pub two_digits : ℕ → List ℕ → List ℕ
two_digits n cs = (n / 10 + 48) ∷ (n % 10 + 48) ∷ cs

itoa-two_digits :
    (n str : ℕ) (mem : Memory) (a : ℕ)
    → n < 100
    → (itoa n str mem).1 a ≡ (
        if a == str
        then n / 10 + 48
        else if a == str + 1
        then n % 10 + 48
        else if a == str + 2
        then 0
        else mem a)
unfolding itoa fill count_digits update
itoa-two_digits n str mem a lt = elim (Bool-cases (n / 10 == 0)) [
  | inl small ↦ rw small (ground (arith, small))
  | inr large ↦
      let one_left : (n / 10 / 10 == 0) ≡ true = ground (arith, lt) in
      rw (large, one_left) (ground (arith, large, lt))
]

-- The text of three numbers.
abbrev pub three_numbers : ℕ → ℕ → ℕ → ℕ → List ℕ
three_numbers between a b c = two_digits a (between ∷ two_digits b (between ∷ two_digits c []))

module _ (between a b c p : ℕ) (mem : Memory) (la : a < 100) (lb : b < 100) (lc : c < 100) where
  written_at :
      (k : ℕ)
      → k ≤ 8
      → write_three between a b c p mem (p + k) ≡ (
          if k == 8
          then 0
          else if k == 7
          then c % 10 + 48
          else if k == 6
          then c / 10 + 48
          else if k == 5
          then between
          else if k == 4
          then b % 10 + 48
          else if k == 3
          then b / 10 + 48
          else if k == 2
          then between
          else if k == 1
          then a % 10 + 48
          else a / 10 + 48)
  unfolding write_three update
  written_at k le =
      let m1 = update (itoa a p mem).1 (p + 2) between in
      let m2 = update (itoa b (p + 3) m1).1 (p + 5) between in
      let first = itoa-two_digits a p mem (p + k) la in
      let second = itoa-two_digits b (p + 3) m1 (p + k) lb in
      let third = itoa-two_digits c (p + 6) m2 (p + k) lc in
      ground (arith, first, second, third, le)

  -- Place `k` by another name.
  from :
      (k q : ℕ)
      → q ≡ p + k
      → write_three between a b c p mem q ≡ write_three between a b c p mem (p + k)
  from k q e = ap (write_three between a b c p mem) e

  write_three-Text : Text (write_three between a b c p mem) p (three_numbers between a b c)
  write_three-Text = (
    from 0 (p) (omega arith) ∙ written_at 0 (omega arith),
    (
      from 1 (p + 1) (omega arith) ∙ written_at 1 (omega arith),
      (
        from 2 (p + 1 + 1) (omega arith) ∙ written_at 2 (omega arith),
        (
          from 3 (p + 1 + 1 + 1) (omega arith) ∙ written_at 3 (omega arith),
          (
            from 4 (p + 1 + 1 + 1 + 1) (omega arith) ∙ written_at 4 (omega arith),
            (
              from 5 (p + 1 + 1 + 1 + 1 + 1) (omega arith) ∙ written_at 5 (omega arith),
              (
                from 6 (p + 1 + 1 + 1 + 1 + 1 + 1) (omega arith) ∙ written_at 6 (omega arith),
                (
                  from 7 (p + 1 + 1 + 1 + 1 + 1 + 1 + 1) (omega arith) ∙ written_at 7 (omega arith),
                  from 8 (p + 1 + 1 + 1 + 1 + 1 + 1 + 1 + 1) (omega arith)
                      ∙ written_at 8 (omega arith),
                ),
              ),
            ),
          ),
        ),
      ),
    ),
  )

local_hours-small : (hours : ℕ) → hours < 24 → local_hours hours < 100
unfolding local_hours
local_hours-small hours lt = ground (arith, lt)

local_hours-zone :
    (hours : ℕ) → hours < 24 → (local_hours hours ≡ (hours + 21) % 24) ⊎ ((3 ≤ hours) × (hours ≤ 5))
unfolding local_hours
local_hours-zone hours lt = elim (Bool-cases (leb 3 hours && leb hours 5)) [
  | inl e ↦ inr (ground (arith, e), ground (arith, e))
  | inr e ↦ inl (ground (arith, e, lt))
]

-- The time of a clock that shows 0 to 23 hours is written with two digits each for the hours, the
-- minutes and the seconds, with a ':' between them and a NUL behind them. The hours are those of the
-- zone 3 hours earlier, but for the hours from 3 to 5.
pub get_time_format-Text :
    (hours minutes seconds p : ℕ) (mem : Memory)
    → hours < 24
    → minutes < 60
    → seconds < 60
    → Text
        (get_time_format (packed hours minutes seconds) p mem)
        p
        (three_numbers 58 (local_hours hours) minutes seconds)
      × ((local_hours hours ≡ (hours + 21) % 24) ⊎ ((3 ≤ hours) × (hours ≤ 5)))
unfolding get_time_format
get_time_format-Text hours minutes seconds p mem lh lm ls =
    let h : packed hours minutes seconds % 256 ≡ hours = omega (arith, lh) in
    let m : packed hours minutes seconds / 2 ^ 8 % 256 ≡ minutes = omega (arith, lh, lm) in
    let s : packed hours minutes seconds / 2 ^ 16 % 256 ≡ seconds = omega (arith, lh, lm, ls) in
    let text =
      write_three-Text 58 (local_hours hours) minutes seconds p mem (local_hours-small hours lh)
        (omega arith) (omega arith) in
    let same : get_time_format (packed hours minutes seconds) p mem
        ≡ write_three 58 (local_hours hours) minutes seconds p mem =
      ap
        (λ x.
          write_three 58 (local_hours x) (packed hours minutes seconds / 2 ^ 8 % 256)
            (packed hours minutes seconds / 2 ^ 16 % 256) p mem)
        h
      ∙ ap₂ (λ x y. write_three 58 (local_hours hours) x y p mem) m s in
    (
      subst (λ t. Text t p (three_numbers 58 (local_hours hours) minutes seconds)) (sym same) text,
      local_hours-zone hours lh,
    )
