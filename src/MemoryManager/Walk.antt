-- ===== src/MemoryManager/Walk.antt =====
-- The pointer walks of `malloc` and `free`: where they stop.
use s_o.Base.{
  ℕ, zero, suc, ◌<◌, ◌≡◌, refl, ap, inl, inr, Bool, true, false, some, List, [], ◌∷◌, ◌++◌, arith,
  length, All, if◌then◌else◌, Bool-cases,
}
use s_o.MemoryManager.{Ptr, null, walk}
use s_o.MemoryManager.Blocks.{Block, Seg, head_addr, last_addr}

-- The blocks in front of the first one that fails the test, and those from it on.
unfoldable pub taken : (Block → Bool) → List Block → List Block
taken keep [] = []
taken keep (b ∷ bs) = if keep b then b ∷ taken keep bs else []

unfoldable pub left : (Block → Bool) → List Block → List Block
left keep [] = []
left keep (b ∷ bs) = if keep b then left keep bs else b ∷ bs

module _ (keep : Block → Bool) where
  pub taken-append-left : (bs : List Block) → taken keep bs ++ left keep bs ≡ bs
  unfolding taken left
  taken-append-left [] = refl
  taken-append-left (b ∷ bs) = elim (Bool-cases (keep b)) [
    | inl yes_ ↦ rw yes_ (ap (λ r. b ∷ r) (taken-append-left bs))
    | inr no_ ↦ rw no_
  ]

  pub All-taken : (bs : List Block) → All (λ b. keep b ≡ true) (taken keep bs)
  unfolding taken
  All-taken [] = tt
  All-taken (b ∷ bs) = elim (Bool-cases (keep b)) [
    | inl yes_ ↦ rw yes_ (yes_, All-taken bs)
    | inr no_ ↦ rw no_ tt
  ]

  -- The first block behind the walk fails the test.
  pub left-head :
      (bs : List Block) (b : Block) (r : List Block) → left keep bs ≡ b ∷ r → keep b ≡ false
  unfolding left
  left-head [] b r e = cc
  left-head (c ∷ bs) b r e = ground (arith, left-head bs b r)

-- A walk along a list ends at its first block that fails the test, or at the end of the list.
pub walk-Seg :
    (fuel : ℕ) (next size : Ptr → ℕ) (test : Ptr → Bool) (keep : Block → Bool) (previous p : Ptr)
    (bs : List Block)
    → Seg next size null p bs
    → All (λ b. test b.0 ≡ keep b) bs
    → length bs < fuel
    → walk fuel test next previous p
      ≡ some (last_addr previous (taken keep bs), head_addr null (left keep bs))
unfolding walk taken left
walk-Seg zero next size test keep previous p bs s agree f = absurd (omega arith)
walk-Seg (suc fuel) next size test keep previous p [] s agree f = ground arith
walk-Seg (suc fuel) next size test keep previous p ((a, k) ∷ bs) s agree f =
    ground (arith, walk-Seg fuel next size test keep a (next a) bs s.3 agree.1 (omega arith))
