-- ===== src/MemoryManager/Link.antt =====
-- Turning the link behind a part of a list to another block: `previous->next = target`, or the
-- list's head where there is no previous block.
use s_o.Base.{
  ℕ, ◌+◌, ◌≤◌, ◌<◌, ◌≡◌, refl, sym, subst, inl, inr, true, false, List, [], ◌∷◌, arith, ◌==◌,
  if◌then◌else◌, ==_of_ne, Bool-cases, update,
}
use s_o.MemoryManager.{null, Manager, Ptr, link_alloc, link_free}
use s_o.MemoryManager.Blocks.{
  Block, Seg, Seg-next_frame, Seg-relink, cover, has, has-last_addr, has-tail, has_of_cover,
  last_addr,
}

-- The `next` fields, and the list's head, after the write.
abbrev pub linked_next : (Ptr → Ptr) → Ptr → Ptr → Ptr → Ptr
linked_next next previous target = if previous == null then next else update next previous target

abbrev pub linked_head : Ptr → Ptr → Ptr → Ptr
linked_head p previous target = if previous == null then target else p

pub link_free-fields :
    (m : Manager) (previous target : Ptr)
    → link_free m previous target ≡ record m {
      free_mem = linked_head m.free_mem previous target;
      next = linked_next m.next previous target;
    }
unfolding link_free
link_free-fields m previous target = ground arith

pub link_alloc-fields :
    (m : Manager) (previous target : Ptr)
    → link_alloc m previous target ≡ record m {
      alloc_mem = linked_head m.alloc_mem previous target;
      next = linked_next m.next previous target;
    }
unfolding link_alloc
link_alloc-fields m previous target = ground arith

pub cover_of_has : (x : ℕ) (bs : List Block) → has x bs ≡ true → 1 ≤ cover x bs
cover_of_has x bs h = ground (arith, has_of_cover x bs)

pub last_addr-pos :
    (next size : Ptr → ℕ) (stop p a k : ℕ) (bs : List Block)
    → Seg next size stop p ((a, k) ∷ bs)
    → 0 < last_addr a bs
last_addr-pos next size stop p a k [] s = s.1
last_addr-pos next size stop p a k ((b, j) ∷ bs) s =
    last_addr-pos next size stop (next a) b j bs s.3

module _ (next size : Ptr → ℕ) where
  -- The part in front now leads to the target.
  pub link-Seg :
      (stop p target : Ptr) (pre : List Block)
      → ((i : ℕ) → cover i pre ≤ 1)
      → Seg next size stop p pre
      → Seg
          (linked_next next (last_addr null pre) target)
          size
          target
          (linked_head p (last_addr null pre) target)
          pre
  link-Seg stop p target [] once s = refl
  link-Seg stop p target ((a, k) ∷ bs) once s =
      let last = last_addr a bs in
      let test : (last == null) ≡ false =
        ==_of_ne last null (omega (arith, last_addr-pos next size stop p a k bs s)) in
      let e : linked_next next last target ≡ update next last target = rw test refl in
      let h : p ≡ linked_head p last target = rw test refl in
      subst (λ f. Seg f size target (linked_head p last target) ((a, k) ∷ bs)) (sym e)
        (subst (λ q. Seg (update next last target) size target q ((a, k) ∷ bs)) h
          (Seg-relink next size stop p target a k bs (has-tail a k bs (once a)) once s))

  -- A list that shares no byte with the part in front is left alone.
  pub link-frame :
      (stop p target : Ptr) (pre bs : List Block)
      → ((i : ℕ) → cover i pre + cover i bs ≤ 1)
      → Seg next size stop p bs
      → Seg (linked_next next (last_addr null pre) target) size stop p bs
  link-frame stop p target [] bs once s = s
  link-frame stop p target ((a, k) ∷ pre) bs once s = elim (Bool-cases (last_addr a pre == null)) [
    | inl e ↦ rw e s
    | inr e ↦ rw e (
        Seg-next_frame next size stop p bs (last_addr a pre) target
          (has_of_cover (last_addr a pre) bs (
            omega (
              arith,
              once (last_addr a pre),
              cover_of_has (last_addr a pre) ((a, k) ∷ pre) (has-last_addr a k pre),
            )))
          s)
  ]
