-- ===== src/MemoryManager/Release.antt =====
-- `free` against removal, sorted insertion and merging on lists of blocks.
use s_o.Base.{
  ℕ, suc, ◌+◌, ◌^◌, ◌<◌, ◌≡◌, refl, sym, ap, ◌∙◌, subst, ◌≢◌, inl, inr, true, false, some, List, [],
  ◌∷◌, ◌++◌, arith, ltb, ◌==◌, if◌then◌else◌, ==_of_ne, Bool-cases, length, sub64,
}
use s_o.MemoryManager.{
  null, Manager, Ptr, count_free, insert_free, release, header, link_alloc, walk, free, free_block,
}
use s_o.MemoryManager.Blocks.{Block, last_addr, has, head_addr}
use s_o.MemoryManager.Rep.{Rep}
use s_o.MemoryManager.Walk.{taken, left, taken-append-left, walk-Seg}
use s_o.MemoryManager.Merge.{merge_all}
use s_o.MemoryManager.Free.{
  Loose, agree_refl, below, insert-Rep, insert_sorted, insert_sorted-taken, merge-Rep, detach-Loose,
  other_than, other_than-left, other_than-left_none, remove, size_of,
}

count_free-Rep :
    (lo hi : ℕ) (m : Manager) (b : Ptr) (fs used : List Block)
    → Rep lo hi m fs used
    → Rep lo hi (count_free m b) fs used
unfolding count_free
count_free-Rep lo hi m b fs used r = record {
  free_list = r.free_list;
  alloc_list = r.alloc_list;
  tiles = r.tiles;
}

module _ (lo hi fuel b j : ℕ) (m : Manager) (used : List Block) where
  placed :
      (fs : List Block)
      → Loose lo hi m b j fs used
      → Rep lo hi
          (count_free (insert_free m (last_addr null (taken (below b) fs)) b) b)
          (insert_sorted (b, j) fs)
          used
  placed fs l =
      let pre = taken (below b) fs in
      let post = left (below b) fs in
      let l' : Loose lo hi m b j (pre ++ post) used =
        subst (λ t. Loose lo hi m b j t used) (sym (taken-append-left (below b) fs)) l in
      count_free-Rep lo hi _ b (insert_sorted (b, j) fs) used (
        subst (λ t. Rep lo hi (insert_free m (last_addr null pre) b) t used)
          (sym (insert_sorted-taken (b, j) fs)) (insert-Rep lo hi m pre post used b j l'))

  length-insert_sorted :
      (c : Block) (fs : List Block) → length (insert_sorted c fs) ≡ suc (length fs)
  unfolding insert_sorted
  length-insert_sorted c [] = refl
  length-insert_sorted c (d ∷ fs) = ground (arith, length-insert_sorted c fs)

  release-Rep :
      (fs : List Block)
      → Loose lo hi m b j fs used
      → length fs < fuel
      → (m' : Manager) × (release fuel b m ≡ some m')
        × Rep lo hi m' (merge_all (insert_sorted (b, j) fs)) used
  unfolding release
  release-Rep fs l enough =
      let walked =
        walk-Seg fuel m.next m.size (λ c. ltb c b) (below b) null m.free_mem fs l.free_list
          (agree_refl (λ c. ltb c b) fs) enough in
      rw (walked, release)
        (merge-Rep lo hi fuel _ (insert_sorted (b, j) fs) used (placed fs l)
          (omega (arith, length-insert_sorted (b, j) fs))
          (omega (arith, length-insert_sorted (b, j) fs)))

module _ (lo hi fuel b : ℕ) (m : Manager) (fs used : List Block) (r : Rep lo hi m fs used)
    (enough : length fs + length used < fuel) where
  found_at :
      walk fuel (λ c. if c == b then false else true) m.next null m.alloc_mem
      ≡ some (last_addr null (taken (other_than b) used), head_addr null (left (other_than b) used))
  found_at =
      walk-Seg fuel m.next m.size (λ c. if c == b then false else true) (other_than b) null
        m.alloc_mem used r.alloc_list (agree_refl (λ c. if c == b then false else true) used)
        (omega arith)

  reached :
      (post : List Block)
      → left (other_than b) used ≡ (b, size_of b used) ∷ post
      → b ≢ null
      → free_block fuel b m
        ≡ release fuel b (link_alloc m (last_addr null (taken (other_than b) used)) (m.next b))
  unfolding free_block
  reached post at_b nonnull = rw (found_at, free_block, at_b, ==_of_ne b null nonnull)

  pub free_block-Rep :
      has b used ≡ true
      → (m' : Manager) × (free_block fuel b m ≡ some m')
        × Rep lo hi m' (merge_all (insert_sorted (b, size_of b used) fs)) (remove b used)
  free_block-Rep mine =
      let (post, at_b, rest) = other_than-left b used mine in
      let pre = taken (other_than b) used in
      let whole : pre ++ (b, size_of b used) ∷ post ≡ used =
        ap (λ t. pre ++ t) (sym at_b) ∙ taken-append-left (other_than b) used in
      let r' : Rep lo hi m fs (pre ++ (b, size_of b used) ∷ post) =
        subst (λ t. Rep lo hi m fs t) (sym whole) r in
      let l = detach-Loose lo hi m fs pre post b (size_of b used) r' in
      let l' : Loose lo hi (link_alloc m (last_addr null pre) (m.next b)) b (size_of b used) fs
          (remove b used) =
        subst
          (λ t. Loose lo hi (link_alloc m (last_addr null pre) (m.next b)) b (size_of b used) fs t)
          (sym rest) l in
      let (m', ran, done) =
        release-Rep lo hi fuel b (size_of b used) _ (remove b used) fs l' (omega arith) in
      (m', reached post at_b (omega (arith, l.nonnull)) ∙ ran, done)

  -- `free` of the address of an allocated block ends with that block off the allocated list and in
  -- its place on the free list, merged with the free blocks that it touches; the blocks tile the
  -- arena as before. It ends if the fuel exceeds the number of blocks.
  pub free_refines :
      has b used ≡ true
      → b + header < 2 ^ 64
      → (m' : Manager) × (free fuel (b + header) m ≡ some m')
        × Rep lo hi m' (merge_all (insert_sorted (b, size_of b used) fs)) (remove b used)
  unfolding free
  free_refines mine bound =
      let (m', ran, done) = free_block-Rep mine in
      let ptr : sub64 (b + header) header ≡ b = omega arith in
      let test : (b + header == null) ≡ false = ==_of_ne (b + header) null (omega arith) in
      (m', rw (test, ptr) ran, done)

  pub free_block-unknown : has b used ≡ false → free_block fuel b m ≡ some m
  unfolding free_block
  free_block-unknown other = rw (found_at, free_block, other_than-left_none b used other)

  -- `free` of any other pointer, NULL included, changes nothing.
  pub free-unknown :
      (ptr : Ptr) → b ≡ sub64 ptr header → has b used ≡ false → free fuel ptr m ≡ some m
  unfolding free
  free-unknown ptr e other = elim (Bool-cases (ptr == null)) [
    | inl nothing ↦ rw nothing
    | inr something ↦ rw (something, ← e) (free_block-unknown other)
  ]
