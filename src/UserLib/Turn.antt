-- ===== src/UserLib/Turn.antt =====
-- The loop of `uintToBase` that turns the text round.
use s_o.Base.{
  ℕ, zero, suc, ◌+◌, ◌-◌, ◌*◌, ◌≤◌, ◌<◌, ◌≡◌, ◌∙◌, ◌≢◌, inl, inr, ◌&&◌, arith, ltb, leb, ◌==◌,
  if◌then◌else◌, ltb→lt, ltb_false→le, Bool-cases, update,
}
use s_o.UserLib.{Memory, swap_loop}

-- Enough swaps turn the text from `p` to `q` round.
abbrev turned : Memory → ℕ → ℕ → ℕ → ℕ
turned mem p q x = if leb p x && leb x q then mem (p + (q - x)) else mem x

swapped : Memory → ℕ → ℕ → Memory
swapped mem p q = update (update mem p (mem q)) q (mem p)

swapped-at :
    (mem : Memory) (p q x : ℕ)
    → (x ≡ p → swapped mem p q x ≡ mem q)
      × (x ≡ q → swapped mem p q x ≡ mem p)
      × (x ≢ p → x ≢ q → swapped mem p q x ≡ mem x)
unfolding swapped update
swapped-at mem p q x = ground arith

turned-swapped :
    (mem : Memory) (p q x : ℕ)
    → p < q
    → turned (swapped mem p q) (p + 1) (q - 1) x ≡ turned mem p q x
turned-swapped mem p q x lt =
    let at = swapped-at mem p q in
    elim (Bool-cases (x == p)) [
      | inl e ↦
          let i : p + (q - x) ≡ q = ground (arith, e, lt) in rw i (ground (arith, e, lt, at x))
      | inr np ↦ elim (Bool-cases (x == q)) [
        | inl e ↦
            let i : p + (q - x) ≡ p = ground (arith, e, lt) in rw i (ground (arith, e, lt, at x))
        | inr nq ↦ elim (Bool-cases (leb p x && leb x q)) [
          | inl inner ↦
              let i : p + 1 + (q - 1 - x) ≡ p + (q - x) = ground (arith, inner, np, nq) in
              rw i (ground (arith, inner, np, nq, at (p + (q - x))))
          | inr outer ↦ ground (arith, outer, np, nq, at x)
        ]
      ]
    ]

turned-short : (mem : Memory) (p q x : ℕ) → q ≤ p → mem x ≡ turned mem p q x
turned-short mem p q x h = elim (Bool-cases (leb p x && leb x q)) [
  | inl inner ↦ let i : p + (q - x) ≡ x = ground (arith, inner, h) in rw i (ground (arith, inner))
  | inr outer ↦ ground (arith, outer)
]

pub swap_loop-turned :
    (rounds : ℕ) (mem : Memory) (p q x : ℕ)
    → q < p + 2 * rounds
    → swap_loop rounds mem p q x ≡ turned mem p q x
unfolding swap_loop swapped
swap_loop-turned zero mem p q x h = ground (arith, h)
swap_loop-turned (suc rounds) mem p q x h = elim (Bool-cases (ltb p q)) [
  | inl e ↦ rw e (
      swap_loop-turned rounds (swapped mem p q) (p + 1) (q - 1) x (ground (arith, h, e))
      ∙ turned-swapped mem p q x (ltb→lt p q e))
  | inr e ↦ rw e (turned-short mem p q x (ltb_false→le p q e))
]

pub turned_outside : (mem : Memory) (p q x : ℕ) → q < x → turned mem p q x ≡ mem x
turned_outside mem p q x h = ground (arith, h)

pub turned_inside :
    (mem : Memory) (p q x y : ℕ) → p ≤ x → x ≤ q → y ≡ p + (q - x) → turned mem p q x ≡ mem y
turned_inside mem p q x y lo hi e = rw e (ground (arith, lo, hi))
