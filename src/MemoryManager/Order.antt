-- ===== src/MemoryManager/Order.antt =====
-- The free list is sorted by address and no two of its blocks touch.
use s_o.Base.{
  ℕ, ◌+◌, ◌-◌, ◌≤◌, ◌<◌, ◌≡◌, inl, inr, Option, none, some, List, [], ◌∷◌, ◌++◌, arith, ltb, leb,
  ◌==◌, Bool-cases,
}
use s_o.MemoryManager.{header, min_block_size}
use s_o.MemoryManager.Blocks.{Block, cover, covers}
use s_o.MemoryManager.Malloc.{remainder}
use s_o.MemoryManager.FirstFit.{allocate}
use s_o.MemoryManager.Merge.{merge_from, merge_all}
use s_o.MemoryManager.Free.{insert_sorted}

-- Each block starts behind the end of the one before it, the first behind `lo`.
abbrev pub Gapped : ℕ → List Block → Type 0
Gapped lo [] = Unit
Gapped lo ((a, k) ∷ bs) = (lo < a) × Gapped (a + header + k) bs

-- The same, but blocks may touch.
abbrev Ordered : ℕ → List Block → Type 0
Ordered lo [] = Unit
Ordered lo ((a, k) ∷ bs) = (lo ≤ a) × Ordered (a + header + k) bs

Gapped-mono : (lo lo' : ℕ) (bs : List Block) → lo' ≤ lo → Gapped lo bs → Gapped lo' bs
Gapped-mono lo lo' [] h g = tt
Gapped-mono lo lo' ((a, k) ∷ bs) h g = (omega arith, g.1)

Gapped-Ordered : (lo lo' : ℕ) (bs : List Block) → lo' ≤ lo → Gapped lo bs → Ordered lo' bs
Gapped-Ordered lo lo' [] h g = tt
Gapped-Ordered lo lo' ((a, k) ∷ bs) h g =
    (omega arith, Gapped-Ordered (a + header + k) (a + header + k) bs (omega arith) g.1)

Ordered-Gapped_merge :
    (lo a k : ℕ) (bs : List Block)
    → lo < a
    → Ordered (a + header + k) bs
    → Gapped lo (merge_from (a, k) bs)
unfolding merge_from
Ordered-Gapped_merge lo a k [] h o = (h, tt)
Ordered-Gapped_merge lo a k ((b, j) ∷ bs) h o = elim (Bool-cases (a + header + k == b)) [
  | inl touch ↦
      let e : a + header + (k + (header + j)) ≡ b + header + j = ground arith in
      rw touch (Ordered-Gapped_merge lo a (k + (header + j)) bs h (rw e o.1))
  | inr apart ↦ rw apart (h, Ordered-Gapped_merge (a + header + k) b j bs (ground arith) o.1)
]

-- A block that shares no byte with the list goes between its neighbours.
insert_sorted-Ordered :
    (lo b j : ℕ) (fs : List Block)
    → lo ≤ b
    → ((i : ℕ) → covers i (b, j) + cover i fs ≤ 1)
    → Ordered lo fs
    → Ordered lo (insert_sorted (b, j) fs)
unfolding insert_sorted
insert_sorted-Ordered lo b j [] h single g = (h, tt)
insert_sorted-Ordered lo b j ((a, k) ∷ fs) h single g = elim (Bool-cases (ltb a b)) [
  | inl below_ ↦ rw below_ (
    g.0,
    insert_sorted-Ordered (a + header + k) b j fs (ground (arith, single b))
        (λ i. omega (arith, single i)) g.1,
  )
  | inr above ↦ rw above (h, (ground (arith, single a), g.1))
]

abbrev AllocatedGapped : ℕ → Option (Block × List Block) → Type 0
AllocatedGapped lo none = Unit
AllocatedGapped lo (some (got, fs)) = Gapped lo fs

abbrev behind : Block → Option (Block × List Block) → Option (Block × List Block)
behind b rest = elim rest [ none ↦ none | some (got, fs) ↦ some (got, b ∷ fs) ]

behind-AllocatedGapped :
    (lo a k : ℕ) (rest : Option (Block × List Block))
    → lo < a
    → AllocatedGapped (a + header + k) rest
    → AllocatedGapped lo (behind (a, k) rest)
behind-AllocatedGapped lo a k none h g = tt
behind-AllocatedGapped lo a k (some (got, fs)) h g = (h, g)

remainder-Gapped :
    (lo n a k : ℕ) (fs : List Block)
    → lo < a
    → Gapped (a + header + k) fs
    → Gapped lo (remainder (a, k) n ++ fs)
unfolding remainder
remainder-Gapped lo n a k fs h g = elim (Bool-cases (leb (n + min_block_size) k)) [
  | inl big ↦
      let e : a + header + n + header + (k - n - header) ≡ a + header + k = ground arith in
      rw big (omega arith, rw e g)
  | inr small ↦ rw small (Gapped-mono (a + header + k) lo fs (omega arith) g)
]

allocate-AllocatedGapped :
    (n lo : ℕ) (fs : List Block) → Gapped lo fs → AllocatedGapped lo (allocate n fs)
unfolding allocate
allocate-AllocatedGapped n lo [] g = tt
allocate-AllocatedGapped n lo ((a, k) ∷ fs) g = elim (Bool-cases (ltb k n)) [
  | inl small ↦ rw small (
      behind-AllocatedGapped lo a k (allocate n fs) g.0
        (allocate-AllocatedGapped n (a + header + k) fs g.1))
  | inr fits ↦ rw fits (remainder-Gapped lo n a k fs g.0 g.1)
]

-- A free list that is sorted by address, with no two blocks touching, is so after first fit has
-- taken a block, whatever the size asked for.
pub allocate-Gapped :
    (n : ℕ) (fs fs' : List Block) (got : Block)
    → Gapped 0 fs
    → allocate n fs ≡ some (got, fs')
    → Gapped 0 fs'
allocate-Gapped n fs fs' got g e = rw e at (allocate-AllocatedGapped n 0 fs g)

merge_all-Gapped : (bs : List Block) → Ordered 1 bs → Gapped 0 (merge_all bs)
unfolding merge_all
merge_all-Gapped [] o = tt
merge_all-Gapped ((a, k) ∷ bs) o = Ordered-Gapped_merge 0 a k bs (omega arith) o.1

from_zero : (bs : List Block) → Gapped 0 bs → Ordered 1 bs
from_zero [] g = tt
from_zero ((a, k) ∷ bs) g =
    (omega arith, Gapped-Ordered (a + header + k) (a + header + k) bs (omega arith) g.1)

-- A free list that is sorted by address, with no two blocks touching, is so after `free` has put
-- back a block at a nonzero address that shares no byte with it: sorted insertion and one merging
-- pass merge all that touches.
pub merge_all-insert_sorted :
    (b j : ℕ) (fs : List Block)
    → 0 < b
    → ((i : ℕ) → covers i (b, j) + cover i fs ≤ 1)
    → Gapped 0 fs
    → Gapped 0 (merge_all (insert_sorted (b, j) fs))
merge_all-insert_sorted b j fs h single g =
    merge_all-Gapped (insert_sorted (b, j) fs)
      (insert_sorted-Ordered 1 b j fs h single (from_zero fs g))
