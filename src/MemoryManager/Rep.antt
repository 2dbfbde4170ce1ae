-- ===== src/MemoryManager/Rep.antt =====
-- What the manager stands for: the two lists of blocks, which tile the arena.
use s_o.Base.{ℕ, ◌+◌, ◌-◌, ◌≤◌, ◌≡◌, false, ◌&&◌, List, ◌∷◌, ◌++◌, arith, ltb, leb, if◌then◌else◌}
use s_o.MemoryManager.{null, header, Manager}
use s_o.MemoryManager.Blocks.{Block, covers, cover, cover-append, has, has_of_cover, Seg}

-- 1 in the arena from `lo` up to `hi`, 0 outside.
abbrev pub arena : ℕ → ℕ → ℕ → ℕ
arena lo hi i = if leb lo i && ltb i hi then 1 else 0

-- The free list holds `fs` and the allocated list `used`. Each byte of the arena lies in exactly one
-- block, and no byte outside it lies in one: no overlap, no leak, nothing out of bounds.
pub record Rep (lo hi : ℕ) (m : Manager) (fs used : List Block) : Type 0 where
  pub free_list : Seg m.next m.size null m.free_mem fs
  pub alloc_list : Seg m.next m.size null m.alloc_mem used
  pub tiles : (i : ℕ) → cover i fs + cover i used ≡ arena lo hi i

-- A block whose bytes all lie in the arena ends inside it.
pub end_in_arena :
    (lo hi b k : ℕ) → ((i : ℕ) → covers i (b, k) ≤ arena lo hi i) → (lo ≤ b) × (b + header + k ≤ hi)
end_in_arena lo hi b k h = (ground (arith, h b), ground (arith, h (b + header + k - 1)))

-- An address inside one block of a tiling is no block among the others.
pub alone :
    (i : ℕ) (b : Block) (pre post used : List Block)
    → cover i (pre ++ b ∷ post) + cover i used ≤ 1
    → covers i b ≡ 1
    → (has i pre ≡ false) × (has i post ≡ false) × (has i used ≡ false)
alone i b pre post used once inside =
    let e = cover-append i pre (b ∷ post) in
    (
      has_of_cover i pre (omega arith),
      has_of_cover i post (omega arith),
      has_of_cover i used (omega arith),
    )

pub arena-le_one : (lo hi i : ℕ) → arena lo hi i ≤ 1
arena-le_one lo hi i = ground arith
