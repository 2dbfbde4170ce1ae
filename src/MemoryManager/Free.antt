-- ===== src/MemoryManager/Free.antt =====
-- `free`, step by step: off the allocated list, into the free list.
use s_o.Base.{
  ℕ, ◌+◌, ◌≤◌, ◌<◌, ◌≡◌, refl, sym, ap, ◌∙◌, subst, inl, inr, Bool, true, false, some, List, [],
  ◌∷◌, ◌++◌, arith, ltb, ◌==◌, if◌then◌else◌, ==_of_ne, Bool-cases, length, All, update,
  update_self,
}
use s_o.MemoryManager.{null, Manager, Ptr, insert_free, link_alloc, merge_loop}
use s_o.MemoryManager.Blocks.{
  Block, Seg, Seg-append, Seg-next_frame, Seg-split, cover, cover-append, covers, covers_self, has,
  has_of_cover, head_addr, last_addr,
}
use s_o.MemoryManager.Rep.{Rep, arena, arena-le_one}
use s_o.MemoryManager.Walk.{taken, left}
use s_o.MemoryManager.Link.{
  link-Seg, link-frame, link_alloc-fields, link_free-fields, cover_of_has, last_addr-pos,
}
use s_o.MemoryManager.Merge.{merge_all, Seg-same, cover-merge_from, merge_loop-Merged, merge_from}

-- The block at `b` is on neither list.
pub record Loose (lo hi : ℕ) (m : Manager) (b j : ℕ) (fs used : List Block) : Type 0 where
  pub free_list : Seg m.next m.size null m.free_mem fs
  pub alloc_list : Seg m.next m.size null m.alloc_mem used
  pub nonnull : 0 < b
  pub size : m.size b ≡ j
  pub tiles : (i : ℕ) → covers i (b, j) + (cover i fs + cover i used) ≡ arena lo hi i

last-next :
    (next size : Ptr → ℕ) (stop p a k : ℕ) (bs : List Block)
    → Seg next size stop p ((a, k) ∷ bs)
    → next (last_addr a bs) ≡ stop
last-next next size stop p a k [] s = s.3
last-next next size stop p a k ((b, j) ∷ bs) s = last-next next size stop (next a) b j bs s.3

pub detach-Loose :
    (lo hi : ℕ) (m : Manager) (fs pre post : List Block) (b j : ℕ)
    → Rep lo hi m fs (pre ++ (b, j) ∷ post)
    → Loose lo hi (link_alloc m (last_addr null pre) (m.next b)) b j fs (pre ++ post)
detach-Loose lo hi m fs pre post b j r =
    let s = Seg-split m.next m.size null m.alloc_mem pre ((b, j) ∷ post) r.alloc_list in
    let once : (i : ℕ) → cover i fs + cover i pre + covers i (b, j) + cover i post ≤ 1 =
      λ i. omega (arith, r.tiles i, arena-le_one lo hi i, cover-append i pre ((b, j) ∷ post)) in
    rw (link_alloc-fields m (last_addr null pre) (m.next b)) (record {
      free_list =
          link-frame m.next m.size null m.free_mem (m.next b) pre fs (λ i. omega (arith, once i))
            r.free_list;
      alloc_list =
          Seg-append _ m.size null (m.next b) _ pre post
            (link-Seg m.next m.size b m.alloc_mem (m.next b) pre (λ i. omega (arith, once i)) s.0)
            (link-frame m.next m.size null (m.next b) (m.next b) pre post
              (λ i. omega (arith, once i)) s.1.3);
      nonnull = s.1.1;
      size = s.1.2;
      tiles = λ i.
          omega (arith, r.tiles i, cover-append i pre ((b, j) ∷ post), cover-append i pre post);
    })

module _ (lo hi : ℕ) (m : Manager) (pre post used : List Block) (b j : ℕ)
    (l : Loose lo hi m b j (pre ++ post) used) where
  apart : (i : ℕ) → covers i (b, j) + cover i pre + cover i post + cover i used ≤ 1
  apart i = omega (arith, l.tiles i, arena-le_one lo hi i, cover-append i pre post)

  not_in : (bs : List Block) → ((i : ℕ) → covers i (b, j) + cover i bs ≤ 1) → has b bs ≡ false
  not_in bs once = has_of_cover b bs (omega (arith, once b, covers_self b j))

  segs :
      Seg m.next m.size (head_addr null post) m.free_mem pre
      × Seg m.next m.size null (head_addr null post) post
  segs = Seg-split m.next m.size null m.free_mem pre post l.free_list

  -- The block behind the place of insertion.
  after-head :
      (pre' : List Block)
      → Seg m.next m.size (head_addr null post) m.free_mem pre'
      → (if last_addr null pre' == null then m.free_mem else m.next (last_addr null pre'))
        ≡ head_addr null post
  after-head [] s = s
  after-head ((a, k) ∷ bs) s =
      rw
        (==_of_ne (last_addr a bs) null
          (omega (arith, last_addr-pos m.next m.size (head_addr null post) m.free_mem a k bs s)))
        (last-next m.next m.size (head_addr null post) m.free_mem a k bs s)

  pub insert-Rep : Rep lo hi (insert_free m (last_addr null pre) b) (pre ++ (b, j) ∷ post) used
  unfolding insert_free
  insert-Rep =
      rw
        (
          after-head pre segs.0,
          link_free-fields (record m { next = update m.next b (head_addr null post) })
              (last_addr null pre) b,
        )
        (record {
          free_list =
              Seg-append _ m.size null b _ pre ((b, j) ∷ post)
                (link-Seg next' m.size (head_addr null post) m.free_mem b pre
                  (λ i. omega (arith, apart i))
                  (framed (head_addr null post) m.free_mem pre (λ i. omega (arith, apart i))
                    segs.0))
                (link-frame next' m.size null b b pre ((b, j) ∷ post) (λ i. omega (arith, apart i))
                  (
                    refl,
                    l.nonnull,
                    l.size,
                    rw (update_self m.next b (head_addr null post)) (
                        framed null (head_addr null post) post (λ i. omega (arith, apart i))
                          segs.1),
                  ));
          alloc_list =
              link-frame next' m.size null m.alloc_mem b pre used (λ i. omega (arith, apart i))
                (framed null m.alloc_mem used (λ i. omega (arith, apart i)) l.alloc_list);
          tiles = λ i.
              omega (arith, l.tiles i, cover-append i pre post, cover-append i pre ((b, j) ∷ post));
        })
    where
      next' : Ptr → Ptr
      next' = update m.next b (head_addr null post)

      framed :
          (stop p : Ptr) (bs : List Block)
          → ((i : ℕ) → covers i (b, j) + cover i bs ≤ 1)
          → Seg m.next m.size stop p bs
          → Seg next' m.size stop p bs
      framed stop p bs once s =
          Seg-next_frame m.next m.size stop p bs b (head_addr null post) (not_in bs once) s

-- Merging keeps the tiling.
pub merge-Rep :
    (lo hi fuel : ℕ) (m : Manager) (fs used : List Block)
    → Rep lo hi m fs used
    → 0 < length fs
    → length fs ≤ fuel
    → (m' : Manager) × (merge_loop fuel m m.free_mem ≡ some m') × Rep lo hi m' (merge_all fs) used
unfolding merge_all
merge-Rep lo hi fuel m [] used r some_block enough = absurd (omega arith)
merge-Rep lo hi fuel m ((a, k) ∷ fs) used r some_block enough =
    let head = r.free_list.0 in
    let once : (i : ℕ) → cover i ((a, k) ∷ fs) + cover i used ≤ 1 =
      λ i. omega (arith, r.tiles i, arena-le_one lo hi i) in
    let (m', ran, done) =
      merge_loop-Merged fuel m a k fs (λ i. omega (arith, once i))
        (refl, r.free_list.1, r.free_list.2, r.free_list.3) (omega arith) in
    (
      m',
      ap (merge_loop fuel m) head ∙ ran,
      record {
        free_list =
            subst (λ p. Seg m'.next m'.size null p (merge_from (a, k) fs))
              (sym (done.free_mem ∙ head)) done.list;
        alloc_list =
            subst (λ p. Seg m'.next m'.size null p used) (sym done.alloc_mem)
              (Seg-same m.next m.size m'.next m'.size null m.alloc_mem used
                (λ x h.
                  done.same x
                    (has_of_cover x ((a, k) ∷ fs) (omega (arith, once x, cover_of_has x used h))))
                r.alloc_list);
        tiles = λ i. omega (arith, r.tiles i, cover-merge_from i a k fs);
      },
    )

-- The address comes off the allocated list.
unfoldable pub remove : ℕ → List Block → List Block
remove b [] = []
remove b ((a, k) ∷ bs) = if a == b then bs else (a, k) ∷ remove b bs

unfoldable pub size_of : ℕ → List Block → ℕ
size_of b [] = 0
size_of b ((a, k) ∷ bs) = if a == b then k else size_of b bs

-- A block goes in front of the first one that does not lie below it.
unfoldable pub insert_sorted : Block → List Block → List Block
insert_sorted b [] = b ∷ []
insert_sorted b (c ∷ bs) = if ltb c.0 b.0 then c ∷ insert_sorted b bs else b ∷ c ∷ bs

abbrev pub other_than : ℕ → Block → Bool
other_than b c = if c.0 == b then false else true

abbrev pub below : ℕ → Block → Bool
below b c = ltb c.0 b

pub insert_sorted-taken :
    (b : Block) (fs : List Block)
    → insert_sorted b fs ≡ taken (below b.0) fs ++ b ∷ left (below b.0) fs
unfolding insert_sorted taken left
insert_sorted-taken b [] = refl
insert_sorted-taken b (c ∷ fs) = elim (Bool-cases (ltb c.0 b.0)) [
  | inl lt_ ↦ rw lt_ (rw (insert_sorted-taken b fs))
  | inr ge_ ↦ rw ge_
]

-- The walk to a block of the list stops there.
pub other_than-left :
    (b : ℕ) (bs : List Block)
    → has b bs ≡ true
    → (post : List Block) × (left (other_than b) bs ≡ (b, size_of b bs) ∷ post)
      × (remove b bs ≡ taken (other_than b) bs ++ post)
unfolding left taken size_of remove
other_than-left b [] h = cc
other_than-left b ((a, k) ∷ bs) h = elim (Bool-cases (a == b)) [
  | inl e ↦ (bs, ground arith, rw e)
  | inr ne ↦
      let (post, l, r) = other_than-left b bs (rw ne at h) in
      (post, rw ne l, rw ne (ap (λ t. (a, k) ∷ t) r))
]

pub other_than-left_none :
    (b : ℕ) (bs : List Block) → has b bs ≡ false → left (other_than b) bs ≡ []
unfolding left
other_than-left_none b [] h = refl
other_than-left_none b ((a, k) ∷ bs) h = ground (arith, other_than-left_none b bs)

pub agree_refl : (test : Ptr → Bool) (bs : List Block) → All (λ b. test b.0 ≡ test b.0) bs
agree_refl test [] = tt
agree_refl test (b ∷ bs) = (refl, agree_refl test bs)
