-- ===== src/Tron/Cells.antt =====
-- The free cells of a board.
use s_o.Base.{
  ℕ, zero, suc, ◌+◌, ◌*◌, ◌≤◌, ◌<◌, ◌≡◌, refl, sym, ap, ◌∙◌, subst, ◌≢◌, inl, inr, arith, ◌==◌,
  if◌then◌else◌, Bool-cases, update, update_self, update-ne,
}
use native.Mathlib.Nat.{suc-mul}
use s_o.Tron.{Canvas, Player, mark}

abbrev pub sum : ℕ → (ℕ → ℕ) → ℕ
sum zero f = 0
sum (suc n) f = sum n f + f n

sum-same : (n : ℕ) (f f' : ℕ → ℕ) → ((i : ℕ) → i < n → f' i ≡ f i) → sum n f' ≡ sum n f
sum-same zero f f' h = refl
sum-same (suc n) f f' h =
    omega (arith, sum-same n f f' (λ i lt. h i (omega (arith, lt))), h n (omega arith))

-- A sum of which one item gets smaller by one.
sum-less :
    (n j : ℕ) (f f' : ℕ → ℕ)
    → j < n
    → ((i : ℕ) → i ≢ j → f' i ≡ f i)
    → f' j + 1 ≡ f j
    → sum n f' + 1 ≡ sum n f
sum-less zero j f f' lt h less = absurd (omega (arith, lt))
sum-less (suc n) j f f' lt h less = elim (Bool-cases (j == n)) [
  | inl here ↦
      (let at_n : j ≡ n = ground (arith, here) in
        let item : f' n + 1 ≡ f n = subst (λ i. f' i + 1 ≡ f i) at_n less in
        let others = sum-same n f f' (λ i lt'. h i (omega (arith, lt', at_n))) in
        omega (arith, item, others))
  | inr there ↦
      (let apart : j ≢ n = ground (arith, there) in
        let item = h n (λ e. apart (sym e)) in
        let others = sum-less n j f f' (omega (arith, lt, apart)) h less in
        omega (arith, item, others))
]

sum-bound : (n m : ℕ) (f : ℕ → ℕ) → ((i : ℕ) → f i ≤ m) → sum n f ≤ n * m
sum-bound zero m f h = omega arith
sum-bound (suc n) m f h = omega (arith, sum-bound n m f h, h n, suc-mul n m)

abbrev pub is_free : ℕ → ℕ
is_free c = if c == 0 then 1 else 0

abbrev column : Canvas → ℕ → ℕ
column c x = sum c.height (λ y. is_free (c.board x y))

-- The number of the free cells.
unfoldable pub free_cells : Canvas → ℕ
free_cells c = sum c.width (column c)

pub free_cells-bound : (c : Canvas) → free_cells c ≤ c.width * c.height
unfolding free_cells
free_cells-bound c =
    sum-bound c.width c.height (column c)
      (λ x. omega (arith, sum-bound c.height 1 (λ y. is_free (c.board x y)) (λ y. ground arith)))

-- A mark on a free cell takes that cell.
pub free_cells-mark :
    (c : Canvas) (p : Player)
    → p.x < c.width
    → p.y < c.height
    → c.board p.x p.y ≡ 0
    → free_cells (mark c p) + 1 ≡ free_cells c
unfolding free_cells update
free_cells-mark c p on_x on_y free =
    sum-less c.width p.x (column c) (column (mark c p)) on_x
      (λ x apart.
        ap (λ row. sum c.height (λ y. is_free (row y)))
          (update-ne c.board p.x (update (c.board p.x) p.y 1) x apart))
      (ap (λ row. sum c.height (λ y. is_free (row y)) + 1)
          (update_self c.board p.x (update (c.board p.x) p.y 1))
        ∙ sum-less c.height p.y (λ y. is_free (c.board p.x y))
            (λ y. is_free (update (c.board p.x) p.y 1 y)) on_y
            (λ y apart. ap is_free (update-ne (c.board p.x) p.y 1 y apart))
            (ap (λ v. is_free v + 1) (update_self (c.board p.x) p.y 1) ∙ ground (arith, free)))
