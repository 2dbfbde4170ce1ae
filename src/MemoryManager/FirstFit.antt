-- ===== src/MemoryManager/FirstFit.antt =====
-- `malloc` against first fit on a list of blocks.
use s_o.Base.{
  ℕ, ◌+◌, ◌-◌, ◌%◌, ◌^◌, ◌≤◌, ◌<◌, ◌≡◌, refl, sym, ap, ◌∙◌, inl, inr, Bool, Option, none, some,
  List, [], ◌∷◌, ◌++◌, arith, ltb, ◌==◌, if◌then◌else◌, ltb_false→le, ==_of_ne, Bool-cases, length,
  All,
}
use s_o.MemoryManager.{null, Manager, Ptr, header, split, take_block, align, malloc, word}
use s_o.MemoryManager.Blocks.{Block, Seg, head_addr, last_addr}
use s_o.MemoryManager.Walk.{taken, left, left-head, taken-append-left, walk-Seg}
use s_o.MemoryManager.Rep.{Rep}
use s_o.MemoryManager.Malloc.{granted, move-Rep, parts, remainder, split-Rep}
use s_o.MemoryManager.Free.{below}

-- The first block of at least `n` bytes, cut down, and the free blocks that are left.
unfoldable pub allocate : ℕ → List Block → Option (Block × List Block)
allocate n [] = none
allocate n ((b, k) ∷ fs) =
    let rest = allocate n fs in
    if ltb k n
    then elim rest [ none ↦ none | some (got, fs') ↦ some (got, (b, k) ∷ fs') ]
    else some ((b, granted k n), remainder (b, k) n ++ fs)

abbrev too_small : ℕ → Block → Bool
too_small n b = ltb b.1 n

allocate-none : (n : ℕ) (fs : List Block) → left (too_small n) fs ≡ [] → allocate n fs ≡ none
unfolding allocate left
allocate-none n [] e = refl
allocate-none n ((b, k) ∷ fs) e = ground (arith, allocate-none n fs)

allocate-some :
    (n : ℕ) (fs : List Block) (b k : ℕ) (post : List Block)
    → left (too_small n) fs ≡ (b, k) ∷ post
    → allocate n fs
      ≡ some ((b, granted k n), taken (too_small n) fs ++ (remainder (b, k) n ++ post))
unfolding allocate left taken
allocate-some n [] b k post e = cc
allocate-some n ((a, j) ∷ fs) b k post e = elim (Bool-cases (ltb j n)) [
  | inl small ↦ rw small (rw (allocate-some n fs b k post (rw small at e)))
  | inr fits ↦ rw fits (ground arith)
]

-- A size is rounded up to the next multiple of the word, unless that passes 2 ^ 64.
pub align_bounds :
    (n : ℕ) → n ≤ 2 ^ 64 - word → (n ≤ align n) × (align n < n + word) × (align n % word ≡ 0)
unfolding align
align_bounds n h = ground arith

-- What `malloc` does on the lists `fs` and `used`, by what first fit finds.
abbrev pub Outcome :
    ℕ → ℕ → Manager → List Block → Option (Block × List Block) → Option (Ptr × Manager) → Type 0
Outcome lo hi m used none result = result ≡ some (null, m)
Outcome lo hi m used (some (got, fs)) result =
    (m' : Manager) × (result ≡ some (got.0 + header, m')) × Rep lo hi m' fs (got ∷ used)

agree_size :
    (next size : Ptr → ℕ) (n : ℕ) (stop p : Ptr) (fs : List Block)
    → Seg next size stop p fs
    → All (λ b. ltb (size b.0) n ≡ too_small n b) fs
agree_size next size n stop p [] s = tt
agree_size next size n stop p ((a, k) ∷ fs) s =
    (ap (λ j. ltb j n) s.2, agree_size next size n stop (next a) fs s.3)

module _ (lo hi : ℕ) (m : Manager) (used : List Block) where
  take_block-Rep :
      (pre post : List Block) (b k n : ℕ)
      → Rep lo hi m (pre ++ (b, k) ∷ post) used
      → n ≤ k
      → hi < 2 ^ 63
      → Rep lo hi
          (take_block m (last_addr null pre) b n)
          (pre ++ (remainder (b, k) n ++ post))
          ((b, granted k n) ∷ used)
  unfolding take_block
  take_block-Rep pre post b k n r small bound =
      move-Rep lo hi (split m b n) pre (remainder (b, k) n ++ post) used b (granted k n)
        (split-Rep lo hi m pre post used b k r n small bound)

  found :
      (fs : List Block) (n fuel : ℕ) (rest : List Block)
      → left (too_small n) fs ≡ rest
      → Rep lo hi m fs used
      → hi < 2 ^ 63
      → let previous = last_addr null (taken (too_small n) fs) in
        let current = head_addr null rest in
        Outcome lo hi m used (allocate n fs) (
          if current == null
          then some (null, m)
          else some (current + header, take_block m previous current n))
  found fs n fuel [] e r bound = rw (allocate-none n fs e) refl
  found fs n fuel ((b, k) ∷ post) e r bound =
      let pre = taken (too_small n) fs in
      let whole : pre ++ (b, k) ∷ post ≡ fs =
        ap (λ t. pre ++ t) (sym e) ∙ taken-append-left (too_small n) fs in
      let r' : Rep lo hi m (pre ++ (b, k) ∷ post) used = rw whole r in
      let nonnull : 0 < b = (parts lo hi m pre post used b k r').1 in
      let large : n ≤ k = ltb_false→le k n (left-head (too_small n) fs (b, k) post e) in
      rw (allocate-some n fs b k post e, ==_of_ne b null (omega arith))
        (take_block m (last_addr null pre) b n, refl, take_block-Rep pre post b k n r' large bound)

  -- `malloc` on the lists, for the size that `align` gives.
  pub malloc-allocate :
      (fs : List Block) (n fuel : ℕ)
      → Rep lo hi m fs used
      → hi < 2 ^ 63
      → 0 < n
      → length fs < fuel
      → Outcome lo hi m used (allocate (align n) fs) (malloc fuel n m)
  unfolding malloc
  malloc-allocate fs n fuel r bound positive enough =
      let walked =
        walk-Seg fuel m.next m.size (λ b. ltb (m.size b) (align n)) (too_small (align n)) null
          m.free_mem fs r.free_list
          (agree_size m.next m.size (align n) null m.free_mem fs r.free_list) enough in
      rw (==_of_ne n 0 (omega arith), walked)
        (found fs (align n) fuel (left (too_small (align n)) fs) refl r bound)

  -- `malloc` of a positive size, of at most 2 ^ 64 - 8, is first fit on the free list for the size
  -- rounded up to a whole number of words: if no free block is large enough it returns NULL and
  -- changes nothing, else it returns the address behind the header of the block found, moves that
  -- block (cut down, if it is much larger) to the front of the allocated list, and the blocks tile the
  -- arena as before. It ends if the fuel exceeds the number of free blocks.
  pub malloc_refines :
      (fs : List Block) (n fuel : ℕ)
      → Rep lo hi m fs used
      → hi < 2 ^ 63
      → 0 < n
      → n ≤ 2 ^ 64 - word
      → length fs < fuel
      → (size : ℕ) × (n ≤ size)
        × (size < n + word)
        × (size % word ≡ 0)
        × Outcome lo hi m used (allocate size fs) (malloc fuel n m)
  malloc_refines fs n fuel r bound positive small enough =
      let (above, below, whole) = align_bounds n small in
      (align n, above, below, whole, malloc-allocate fs n fuel r bound positive enough)

abbrev Enough : ℕ → Option (Block × List Block) → Type 0
Enough n none = Unit
Enough n (some (got, fs)) = n ≤ got.1

allocate-Enough : (n : ℕ) (fs : List Block) → Enough n (allocate n fs)
unfolding allocate granted
allocate-Enough n [] = tt
allocate-Enough n ((a, j) ∷ fs) = ground (arith, allocate-Enough n fs)

-- The block that first fit hands out has at least the size asked for.
pub allocate-ge :
    (n : ℕ) (fs fs' : List Block) (b k : ℕ) → allocate n fs ≡ some ((b, k), fs') → n ≤ k
allocate-ge n fs fs' b k e = rw e at (allocate-Enough n fs)
