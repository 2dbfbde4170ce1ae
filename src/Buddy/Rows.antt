-- ===== src/Buddy/Rows.antt =====
-- `malloc` where no row has a free block, and the rows as linked lists.
use s_o.Base.{
  ℕ, zero, suc, ◌+◌, ◌-◌, ◌≤◌, ◌≡◌, refl, ◌∙◌, inl, inr, false, none, arith, ltb, ◌==◌,
  if◌then◌else◌, ==_refl, Bool-cases,
}
use s_o.Buddy.{
  Buddy, exhausted, fault, level_for, malloc, row_above, split_block, split_down, take_head,
  malloc_at,
}

-- The search for a row stops at the end if all rows are empty.
row_above-empty :
    (rounds : ℕ) (b : Buddy) (row : ℕ)
    → ((r : ℕ) → row ≤ r → b.free_row r ≡ none)
    → row_above rounds b row ≡ row + rounds
unfolding row_above
row_above-empty zero b row h = omega arith
row_above-empty (suc rounds) b row h =
    rw (h row (omega arith), row_above)
      (row_above-empty rounds b (row + 1) (λ r le. h r (omega arith)) ∙ omega arith)

split_block-empty : (b : Buddy) (row : ℕ) → b.free_row row ≡ none → split_block b row ≡ b
unfolding split_block
split_block-empty b row h = elim (Bool-cases (row == 0)) [
  | inl z ↦ rw (z, split_block)
  | inr nz ↦ rw (nz, h, split_block)
]

split_down-one : (b : Buddy) (level : ℕ) → split_down 1 level b ≡ split_block b (level + 1)
unfolding split_down
split_down-one b level = refl

take_head-empty : (b : Buddy) (level : ℕ) → b.free_row level ≡ none → take_head b level ≡ fault
unfolding take_head
take_head-empty b level h = rw (h, take_head)

malloc_at-empty :
    (b : Buddy) (level : ℕ)
    → ((r : ℕ) → level ≤ r → b.free_row r ≡ none)
    → malloc_at b level ≡ (if ltb level b.lvl then exhausted else fault)
unfolding malloc_at
malloc_at-empty b level h =
    let above = row_above-empty (b.lvl - (level + 1)) b (level + 1) (λ r le. h r (omega arith)) in
    elim (Bool-cases (ltb level b.lvl)) [
      | inl row ↦
          let top : level + 1 + (b.lvl - (level + 1)) ≡ b.lvl = ground arith in
          rw (h level (omega arith), malloc_at, above, top, ==_refl b.lvl, row)
      | inr beyond ↦
          let over : (level + 1 + (b.lvl - (level + 1)) == b.lvl) ≡ false = ground arith in
          let one : level + 1 + (b.lvl - (level + 1)) - level ≡ 1 = ground arith in
          rw
            (
              h level (omega arith),
              malloc_at,
              above,
              over,
              one,
              split_down-one b level,
              split_block-empty b (level + 1) (h (level + 1) (omega arith)),
              beyond,
            )
            (take_head-empty b level (h level (omega arith)))
    ]

-- Where no row from the wanted level up has a free block, `malloc` returns NULL if the level is one
-- of the heap's rows; if the size is larger than the whole heap, it goes on to read the block at
-- NULL.
pub malloc-empty :
    (b : Buddy) (size : ℕ)
    → ((r : ℕ) → level_for size ≤ r → b.free_row r ≡ none)
    → malloc b size ≡ (if ltb (level_for size) b.lvl then exhausted else fault)
unfolding malloc
malloc-empty b size h = malloc_at-empty b (level_for size) h
