-- ===== src/Buddy/Log2.antt =====
-- `log2`, and the level that `malloc` picks.
use s_o.Base.{
  ℕ, zero, suc, ◌+◌, ◌-◌, ◌*◌, ◌/◌, ◌^◌, ◌≤◌, ◌<◌, ◌≡◌, refl, ◌∙◌, subst, ◌⊎◌, inl, inr, arith,
  dec_lt, ltb, ◌==◌, if◌then◌else◌, ltb→lt, ltb_false→le, Bool-cases, pow-suc,
}
use s_o.Buddy.{log2_loop, level_for, log2, size_at, block_size}

abbrev Halved : ℕ → ℕ → ℕ → Type 0
Halved n ret result = (k : ℕ) × (result ≡ ret + k) × (2 ^ k ≤ n) × (n < 2 ^ k * 2)

one_more : (n ret result : ℕ) → Halved (n / 2) (ret + 1) result → Halved n ret result
one_more n ret result (k, e, low, high) =
    let p = pow-suc 2 k in (suc k, omega arith, omega arith, omega arith)

-- The loop adds the number of halvings that are left.
log2_loop-Halved :
    (rounds n ret : ℕ) → 0 < n → n < 2 ^ rounds → Halved n ret (log2_loop rounds n ret)
unfolding log2_loop
log2_loop-Halved zero n ret h bound = absurd (omega arith)
log2_loop-Halved (suc rounds) n ret h bound = elim (Bool-cases (n / 2 == 0)) [
  | inl done ↦ rw done (0, omega arith, omega arith, ground arith)
  | inr more ↦ rw more (
      one_more n ret (log2_loop rounds (n / 2) (ret + 1)) (
        log2_loop-Halved rounds (n / 2) (ret + 1) (ground arith)
          (let p = pow-suc 2 rounds in omega arith)))
]

-- `log2` of a positive `size_t` is the exponent of the largest power of two that is not above it.
pub log2_bounds : (n : ℕ) → 0 < n → n < 2 ^ 64 → (2 ^ log2 n ≤ n) × (n < 2 ^ log2 n * 2)
unfolding log2
log2_bounds n h bound =
    let (k, e, low, high) = log2_loop-Halved 64 n 0 h bound in
    let e' : log2_loop 64 n 0 ≡ k = e ∙ omega arith in rw e' (low, high)

pub log2-zero : log2 0 ≡ 0
unfolding log2
log2-zero = refl

size_at-suc : (k : ℕ) → size_at (suc k) ≡ size_at k * 2
size_at-suc k = let p = pow-suc 2 k in omega arith

lower_row :
    {size : ℕ} (level : ℕ)
    → ((lower : ℕ) → level ≡ suc lower → size_at lower < size)
    → (level ≡ 0) ⊎ (size_at (level - 1) < size)
lower_row zero h = inl refl
lower_row {size} (suc lower) h = inr (subst (λ l. size_at l < size) (omega arith) (h lower refl))

level_for-bounds :
    (size : ℕ)
    → size < 2 ^ 64
    → (size ≤ size_at (level_for size))
      × ((lower : ℕ) → level_for size ≡ suc lower → size_at lower < size)
unfolding level_for
level_for-bounds size bound = elim (dec_lt 0 (size / block_size)) [
  | yes several ↦
      let (low, high) = log2_bounds (size / block_size) several (omega arith) in
      least (log2 (size / block_size)) low high several
  | no small ↦
      let none_ : size / block_size ≡ 0 = omega arith in rw (none_, log2-zero) (tiny (omega arith))
]
  where
    tiny :
        size < block_size
        → let level = if ltb (size_at 0) size then 0 + 1 else 0 in
          (size ≤ size_at level) × ((lower : ℕ) → level ≡ suc lower → size_at lower < size)
    tiny h = (ground arith, λ lower e. ground arith)

    least :
        (k : ℕ)
        → 2 ^ k ≤ size / block_size
        → size / block_size < 2 ^ k * 2
        → 0 < size / block_size
        → let level = if ltb (size_at k) size then k + 1 else k in
          (size ≤ size_at level) × ((lower : ℕ) → level ≡ suc lower → size_at lower < size)
    least k low high several = elim (Bool-cases (ltb (size_at k) size)) [
      | inl short ↦
          let e : k + 1 ≡ suc k = omega arith in
          rw (short, e)
            (
              omega (arith, size_at-suc k),
              λ lower q.
                  let same : k ≡ lower = omega arith in rw (← same) (ltb→lt (size_at k) size short),
            )
      | inr enough ↦ rw enough (
        ltb_false→le (size_at k) size enough,
        λ lower q.
            let s = size_at-suc lower in
            let low' : size_at (suc lower) ≤ size = rw q at (whole k low) in omega arith,
      )
    ]
      where
        whole : (k : ℕ) → 2 ^ k ≤ size / block_size → size_at k ≤ size
        whole k low = omega arith

-- `malloc` serves a size from the smallest blocks that hold it: they are large enough, and those of
-- the row below, if there is one, are not.
pub level_for_least :
    (size : ℕ)
    → size < 2 ^ 64
    → (size ≤ size_at (level_for size))
      × ((level_for size ≡ 0) ⊎ (size_at (level_for size - 1) < size))
level_for_least size bound =
    let (enough, least) = level_for-bounds size bound in (enough, lower_row (level_for size) least)
