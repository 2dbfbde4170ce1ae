-- ===== src/MemoryManager/Accounts.antt =====
-- The figures that `getInfoMem` reports, and the heap that the boot sets up.
use s_o.Base.{
  ℕ, zero, suc, ◌+◌, ◌-◌, ◌%◌, ◌^◌, ◌≤◌, ◌≡◌, refl, sym, subst, ◌⊎◌, inl, inr, true, false, ◌||◌,
  Option, none, some, [], ◌∷◌, arith, ltb, leb, ◌==◌, if◌then◌else◌, Bool-cases, Option-cases,
  update, add64, sub64, update_self,
}
use s_o.MemoryManager.Link.{link_free-fields, link_alloc-fields}
use s_o.MemoryManager.Client.{IsHeap}
use s_o.MemoryManager.{
  header, InfoMem, Manager, Ptr, absorb, free, merge_loop, min_block_size, push_alloc, split,
  take_block, free_block, initialize, malloc, manager_size, null, release, align, count_free,
  insert_free, link_alloc, walk, first_block, misaligned, word,
}

-- `allocated` and `free` make up `total`, modulo the word.
abbrev pub IsBalanced : InfoMem → Type 0
IsBalanced i = (i.allocated + i.free) % 2 ^ 64 ≡ i.total

move_balance : (a f t s : ℕ) → (a + f) % 2 ^ 64 ≡ t → (add64 a s + sub64 f s) % 2 ^ 64 ≡ t
move_balance a f t s h = omega arith

back_balance : (a f t s : ℕ) → (a + f) % 2 ^ 64 ≡ t → (sub64 a s + add64 f s) % 2 ^ 64 ≡ t
back_balance a f t s h = omega arith

split-IsBalanced :
    (m : Manager) (b : Ptr) (n : ℕ) → IsBalanced m.info → IsBalanced (split m b n).info
unfolding split
split-IsBalanced m b n h = elim (Bool-cases (leb (add64 n min_block_size) (m.size b))) [
  | inl big ↦ rw big (move_balance m.info.allocated m.info.free m.info.total header h)
  | inr small ↦ rw small h
]

take_block-IsBalanced :
    (m : Manager) (previous b : Ptr) (n : ℕ)
    → IsBalanced m.info
    → IsBalanced (take_block m previous b n).info
unfolding take_block push_alloc
take_block-IsBalanced m previous b n h =
    let m1 = split m b n in
    let kept = link_free-fields m1 previous (m1.next b) in
    rw kept (
      move_balance m1.info.allocated m1.info.free m1.info.total (m1.size b)
        (split-IsBalanced m b n h))

merge_loop-info :
    (fuel : ℕ) (m m' : Manager) (b : Ptr) → merge_loop fuel m b ≡ some m' → m'.info ≡ m.info
unfolding merge_loop absorb
merge_loop-info zero m m' b e = cc
merge_loop-info (suc fuel) m m' b e =
    ground (arith, merge_loop-info fuel (absorb m b) m' b, merge_loop-info fuel m m' (m.next b))

-- Every manager that an outcome holds is balanced.
abbrev AllBalanced : Option Manager → Type 0
AllBalanced none = Unit
AllBalanced (some m) = IsBalanced m.info

abbrev PairBalanced : Option (Ptr × Manager) → Type 0
PairBalanced none = Unit
PairBalanced (some (ptr, m)) = IsBalanced m.info

found-PairBalanced :
    (m : Manager) (n : ℕ) (walked : Option (Ptr × Ptr))
    → IsBalanced m.info
    → PairBalanced (elim walked [
      | none ↦ none
      | some (previous, current) ↦
          if current == null
          then some (null, m)
          else some (current + header, take_block m previous current n)
    ])
found-PairBalanced m n none h = tt
found-PairBalanced m n (some (previous, current)) h = elim (Bool-cases (current == null)) [
  | inl nothing ↦ rw nothing h
  | inr block ↦ rw block (take_block-IsBalanced m previous current n h)
]

malloc-PairBalanced :
    (fuel n : ℕ) (m : Manager) → IsBalanced m.info → PairBalanced (malloc fuel n m)
unfolding malloc
malloc-PairBalanced fuel n m h = elim (Bool-cases (n == 0)) [
  | inl none_ ↦ rw none_ h
  | inr some_ ↦ rw some_ (
      found-PairBalanced m (align n)
        (walk fuel (λ b. ltb (m.size b) (align n)) m.next null m.free_mem) h)
]

merge_loop-AllBalanced :
    (fuel : ℕ) (m : Manager) (b : Ptr) → IsBalanced m.info → AllBalanced (merge_loop fuel m b)
merge_loop-AllBalanced fuel m b h = elim (Option-cases (merge_loop fuel m b)) [
  | inl out ↦ rw out tt
  | inr (m', e) ↦ rw e (subst IsBalanced (sym (merge_loop-info fuel m m' b e)) h)
]

insert-IsBalanced :
    (m : Manager) (previous b : Ptr)
    → IsBalanced m.info
    → IsBalanced (count_free (insert_free m previous b) b).info
unfolding count_free insert_free
insert-IsBalanced m previous b h =
    let after = if previous == null then m.free_mem else m.next previous in
    rw (link_free-fields (record m { next = update m.next b after }) previous b)
      (back_balance m.info.allocated m.info.free m.info.total (m.size b + header) h)

placed-AllBalanced :
    (fuel b : ℕ) (m : Manager) (walked : Option (Ptr × Ptr))
    → IsBalanced m.info
    → AllBalanced (elim walked [
      | none ↦ none
      | some (previous, _) ↦
          let freed = count_free (insert_free m previous b) b in
          merge_loop fuel freed freed.free_mem
    ])
placed-AllBalanced fuel b m none h = tt
placed-AllBalanced fuel b m (some (previous, _)) h =
    merge_loop-AllBalanced fuel _ _ (insert-IsBalanced m previous b h)

release-AllBalanced :
    (fuel b : ℕ) (m : Manager) → IsBalanced m.info → AllBalanced (release fuel b m)
unfolding release
release-AllBalanced fuel b m h =
    placed-AllBalanced fuel b m (walk fuel (λ c. ltb c b) m.next null m.free_mem) h

detached-AllBalanced :
    (fuel b : ℕ) (m : Manager) (walked : Option (Ptr × Ptr))
    → IsBalanced m.info
    → AllBalanced (elim walked [
      | none ↦ none
      | some (previous, current) ↦
          if current == null
          then some m
          else release fuel b (link_alloc m previous (m.next current))
    ])
detached-AllBalanced fuel b m none h = tt
detached-AllBalanced fuel b m (some (previous, current)) h = elim (Bool-cases (current == null)) [
  | inl nothing ↦ rw nothing h
  | inr block ↦ rw block (
      release-AllBalanced fuel b (link_alloc m previous (m.next current))
        (rw (link_alloc-fields m previous (m.next current)) h))
]

free-AllBalanced :
    (fuel : ℕ) (ptr : Ptr) (m : Manager) → IsBalanced m.info → AllBalanced (free fuel ptr m)
unfolding free free_block
free-AllBalanced fuel ptr m h = elim (Bool-cases (ptr == null)) [
  | inl nothing ↦ rw nothing h
  | inr something ↦ rw something (
      detached-AllBalanced fuel (sub64 ptr header) m
        (walk fuel (λ b. if b == sub64 ptr header then false else true) m.next null m.alloc_mem) h)
]

-- Where the allocated and the free bytes make up the total (modulo the word), they do so after any
-- call of `malloc` and of `free` that ends: what one figure loses the other gains.
pub calls-IsBalanced :
    (fuel n : ℕ) (ptr p : Ptr) (m m' : Manager)
    → IsBalanced m.info
    → (malloc fuel n m ≡ some (p, m')) ⊎ (free fuel ptr m ≡ some m')
    → IsBalanced m'.info
calls-IsBalanced fuel n ptr p m m' h (inl e) = rw e at (malloc-PairBalanced fuel n m h)
calls-IsBalanced fuel n ptr p m m' h (inr e) = rw e at (free-AllBalanced fuel ptr m h)

-- What the boot sets up in `size` bytes from `address` on, where the memory manager's own fields
-- are zero, is a heap of one free block. Its arena ends at `address + 16 + size`: the 16 bytes of
-- the manager's own fields, which lie in front of the block, are not taken off the block's size.
pub initialize-IsHeap :
    (address size : ℕ) (m : Manager)
    → (initialize address size m).0 ≡ 0
    → m.alloc_mem ≡ null
    → IsHeap
        (address + manager_size)
        (address + manager_size + size)
        (initialize address size m).1
        1
      × IsBalanced (initialize address size m).1.info
unfolding initialize
initialize-IsHeap address size m ok_ empty =
    elim (Bool-cases (ltb size (header + word) || misaligned size || misaligned address)) [
      | inl refused ↦ absurd (ground arith)
      | inr accepted ↦ rw accepted (set_up (ground arith))
    ]
  where
    first : Ptr
    first = first_block address

    m' : Manager
    m' = record m {
      free_mem = first;
      size = update m.size first (size - header);
      next = update m.next first null;
      info = record {
        allocated = header;
        free = sub64 (size - header) manager_size;
        total = sub64 size manager_size;
      };
    }

    set_up : header + word ≤ size → IsHeap first (first + size) m' 1 × IsBalanced m'.info
    set_up large = (
      record {
        fs = (first, size - header) ∷ [];
        used = [];
        rep = record {
          free_list = (
            refl,
            omega arith,
            update_self m.size first (size - header),
            update_self m.next first null,
          );
          alloc_list = empty;
          tiles = λ i. ground arith;
        };
        merged = (omega arith, tt);
        few = omega arith;
      },
      omega arith,
    )
