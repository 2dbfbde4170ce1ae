-- ===== src/MemoryManager/Malloc.antt =====
-- `malloc`, step by step.
use s_o.Base.{
  ℕ, ◌+◌, ◌-◌, ◌^◌, ◌≤◌, ◌<◌, ◌≡◌, refl, ap, ◌∙◌, inl, inr, true, false, List, [], ◌∷◌, ◌++◌, arith,
  leb, if◌then◌else◌, Bool-cases, update, add64, sub64, update_self, update-ne,
}
use s_o.MemoryManager.{null, header, min_block_size, Manager, split, Ptr, link_free, push_alloc}
use s_o.MemoryManager.Blocks.{
  Block, covers, cover, cover-append, has, Seg, Seg-split, covers_self, Seg-append, Seg-frame_two,
  Seg-next_frame, last_addr,
}
use s_o.MemoryManager.Link.{link-Seg, link-frame, link_free-fields, linked_head, linked_next}
use s_o.MemoryManager.Rep.{Rep, arena-le_one, end_in_arena, alone}

-- What `malloc` hands out of a block of `k` bytes when `n` are asked for, and the block that is
-- left, if there is one.
unfoldable pub granted : ℕ → ℕ → ℕ
granted k n = if leb (n + min_block_size) k then n else k

unfoldable pub remainder : Block → ℕ → List Block
remainder (b, k) n =
    if leb (n + min_block_size) k then (b + header + n, k - n - header) ∷ [] else []

module _ (lo hi : ℕ) (m : Manager) (pre post used : List Block) (b k : ℕ)
    (r : Rep lo hi m (pre ++ (b, k) ∷ post) used) where
  pub once : (i : ℕ) → cover i (pre ++ (b, k) ∷ post) + cover i used ≤ 1
  once i = omega (arith, r.tiles i, arena-le_one lo hi i)

  pub block_in_arena : (lo ≤ b) × (b + header + k ≤ hi)
  block_in_arena =
      end_in_arena lo hi b k λ i. omega (arith, r.tiles i, cover-append i pre ((b, k) ∷ post))

  -- No other block starts inside this one.
  pub others :
      (i : ℕ)
      → covers i (b, k) ≡ 1
      → (has i pre ≡ false) × (has i post ≡ false) × (has i used ≡ false)
  others i c = alone i (b, k) pre post used (once i) c

  pub parts :
      Seg m.next m.size b m.free_mem pre
      × (0 < b)
      × (m.size b ≡ k)
      × Seg m.next m.size null (m.next b) post
  parts =
      let p = Seg-split m.next m.size null m.free_mem pre ((b, k) ∷ post) r.free_list in
      (p.0, p.1.1, p.1.2, p.1.3)

  split_test :
      (n : ℕ)
      → n ≤ k
      → hi < 2 ^ 63
      → leb (add64 n min_block_size) (m.size b) ≡ leb (n + min_block_size) k
  split_test n small bound =
      let in_arena = block_in_arena in
      let e : add64 n min_block_size ≡ n + min_block_size = omega arith in rw (parts.2, e)

  -- The split keeps the lists, with the block in one or two pieces.
  pub split-Rep :
      (n : ℕ)
      → n ≤ k
      → hi < 2 ^ 63
      → Rep lo hi (split m b n) (pre ++ (b, granted k n) ∷ (remainder (b, k) n ++ post)) used
  unfolding split granted remainder
  split-Rep n small bound =
      rw (split_test n small bound) (elim (Bool-cases (leb (n + min_block_size) k)) [
        | inl big ↦ rw big (two big)
        | inr fits ↦ rw fits r
      ])
    where
      new_block : ℕ
      new_block = b + header + n

      at_b : (has b pre ≡ false) × (has b post ≡ false) × (has b used ≡ false)
      at_b = others b (covers_self b k)

      two :
          leb (n + min_block_size) k ≡ true
          → Rep lo hi
              (record m {
                size = update (update m.size new_block (m.size b - n - header)) b n;
                next = update (update m.next new_block (m.next b)) b new_block;
                info = record m.info {
                  allocated = add64 m.info.allocated header;
                  free = sub64 m.info.free header;
                };
              })
              (pre ++ ((b, n) ∷ (new_block, k - n - header) ∷ post))
              used
      two big = record {
        free_list =
            Seg-append next' size' null b m.free_mem pre
              ((b, n) ∷ (new_block, k - n - header) ∷ post)
              (framed b m.free_mem pre at_new.0 at_b.0 parts.0)
              (
                refl,
                parts.1,
                update_self _ b n,
                (
                  update_self _ b new_block,
                  omega (arith, parts.1),
                  update-ne _ b n new_block (omega arith)
                      ∙ update_self m.size new_block _
                      ∙ ap (λ s. s - n - header) parts.2,
                  rw
                      (
                        update-ne (update m.next new_block (m.next b)) b new_block new_block
                            (omega arith),
                        update_self m.next new_block (m.next b),
                      )
                      (framed null (m.next b) post at_new.1 at_b.1 parts.3),
                ),
              );
        alloc_list = framed null m.alloc_mem used at_new.2 at_b.2 r.alloc_list;
        tiles = λ i. omega (
          arith,
          r.tiles i,
          cover-append i pre ((b, k) ∷ post),
          cover-append i pre ((b, n) ∷ (new_block, k - n - header) ∷ post),
          cover-two i,
        );
      }
        where
          size' : Ptr → ℕ
          size' = update (update m.size new_block (m.size b - n - header)) b n

          next' : Ptr → Ptr
          next' = update (update m.next new_block (m.next b)) b new_block

          at_new :
              (has new_block pre ≡ false)
              × (has new_block post ≡ false)
              × (has new_block used ≡ false)
          at_new = others new_block (ground arith)

          framed :
              (stop p : Ptr) (bs : List Block)
              → has new_block bs ≡ false
              → has b bs ≡ false
              → Seg m.next m.size stop p bs
              → Seg next' size' stop p bs
          framed stop p bs hx hy seg =
              Seg-frame_two m.next m.size stop p bs new_block b (m.next b) new_block
                (m.size b - n - header) n hx hy seg

          cover-two :
              (i : ℕ) → covers i (b, n) + covers i (new_block, k - n - header) ≡ covers i (b, k)
          cover-two i = ground arith

  -- Off the free list, onto the allocated one.
  pub move-Rep :
      Rep lo hi
        (push_alloc (link_free m (last_addr null pre) (m.next b)) b)
        (pre ++ post)
        ((b, k) ∷ used)
  unfolding push_alloc
  move-Rep = rw (link_free-fields m (last_addr null pre) (m.next b)) (record {
    free_list =
        Seg-append next' m.size null (m.next b) (linked_head m.free_mem prev (m.next b)) pre post
          (Seg-next_frame linked m.size (m.next b) _ pre b m.alloc_mem at_b.0 (
            link-Seg m.next m.size b m.free_mem (m.next b) pre
              (λ i. omega (arith, once i, cover-append i pre ((b, k) ∷ post))) parts.0))
          (Seg-next_frame linked m.size null (m.next b) post b m.alloc_mem at_b.1 (
            link-frame m.next m.size null (m.next b) (m.next b) pre post
              (λ i. omega (arith, once i, cover-append i pre ((b, k) ∷ post))) parts.3));
    alloc_list = (
      refl,
      parts.1,
      parts.2,
      rw (update_self linked b m.alloc_mem) (
          Seg-next_frame linked m.size null m.alloc_mem used b m.alloc_mem at_b.2 (
            link-frame m.next m.size null m.alloc_mem (m.next b) pre used
              (λ i. omega (arith, once i, cover-append i pre ((b, k) ∷ post))) r.alloc_list)),
    );
    tiles =
        λ i. omega (arith, r.tiles i, cover-append i pre ((b, k) ∷ post), cover-append i pre post);
  })
    where
      prev : Ptr
      prev = last_addr null pre

      linked : Ptr → Ptr
      linked = linked_next m.next prev (m.next b)

      next' : Ptr → Ptr
      next' = update linked b m.alloc_mem

      at_b : (has b pre ≡ false) × (has b post ≡ false) × (has b used ≡ false)
      at_b = others b (covers_self b k)
