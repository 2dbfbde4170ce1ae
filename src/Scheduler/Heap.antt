-- ===== src/Scheduler/Heap.antt =====
-- The heap while processes are made and given back: Kernel/process.c and Kernel/scheduler.c on
-- Kernel/MemoryManager.c.
use s_o.Base.{
  ℕ, suc, ◌+◌, ◌*◌, ◌^◌, ◌≤◌, ◌<◌, ◌≡◌, refl, sym, ap, subst, inl, inr, Option, none, some, List,
  [], ◌∷◌, ◌++◌, arith, ◌==◌, Bool-cases, length, length-append,
}
use s_o.MemoryManager.{Manager, Ptr, free, malloc, null}
use s_o.MemoryManager.Client.{IsHeap, ask, give, serve, serve-IsHeap, Served}
use s_o.Scheduler.Creation.{
  Copied, copied, no_array, null_copy, Added, Created, Freed, added, at_null, broken, copy_args,
  copy_loop, count_args, free_each, made, no_memory, null_used, past_null, take_back,
}

-- A call ends, and leaves a heap of at most `count` blocks.
abbrev pub Ends {ℓ} : {A : Type ℓ} → ℕ → ℕ → ℕ → (A → Manager) → Option A → Type ℓ
Ends {A = A} lo hi count heap_of result =
    (r : A) × (result ≡ some r) × IsHeap lo hi (heap_of r) count

pub weaken : (lo hi a b : ℕ) (m : Manager) → a ≤ b → IsHeap lo hi m a → IsHeap lo hi m b
weaken lo hi a b m le h = record {
  fs = h.fs;
  used = h.used;
  rep = h.rep;
  merged = h.merged;
  few = omega (arith, h.few, le);
}

abbrev pub heap_of_copied : Copied → Manager
heap_of_copied (no_array m) = m
heap_of_copied (copied _ _ m) = m
heap_of_copied (null_copy m) = m

abbrev pub heap_of_created : Created → Manager
heap_of_created (made _ m) = m
heap_of_created (no_memory m) = m
heap_of_created (broken m) = m

abbrev pub heap_of_freed : Freed → Manager
heap_of_freed (at_null m) = m
heap_of_freed (past_null m) = m

abbrev pub heap_of_added : Added → Manager
heap_of_added (added _ _ w) = w.heap
heap_of_added (null_used m) = m

some_inside : Option Manager → Manager → Manager
some_inside none m = m
some_inside (some m') m = m'

asked-Ends :
    (lo hi count : ℕ) (result : Option (Ptr × Manager))
    → Served lo hi count (elim result [ none ↦ none | some (ptr, m') ↦ some m' ])
    → Ends lo hi count (λ r. r.1) result
unfolding some_inside
asked-Ends lo hi count none (m', e, h) = cc
asked-Ends lo hi count (some (ptr, m)) (m', e, h) =
    ((ptr, m), refl, subst (λ x. IsHeap lo hi x count) (sym (ap (λ o. some_inside o m) e)) h)

-- Each lemma counts the blocks that the calls can add.
module _ (lo hi fuel : ℕ) (bound : hi < 2 ^ 63) where
  pub malloc-Ends :
      (count n : ℕ) (m : Manager)
      → count < fuel
      → IsHeap lo hi m count
      → Ends lo hi (suc count) (λ r. r.1) (malloc fuel n m)
  unfolding serve
  malloc-Ends count n m enough h =
      asked-Ends lo hi (suc count) (malloc fuel n m)
        (serve-IsHeap lo hi fuel count m bound enough h (ask n))

  pub free-Ends :
      (count : ℕ) (p : Ptr) (m : Manager)
      → count < fuel
      → IsHeap lo hi m count
      → Ends lo hi (suc count) (λ r. r) (free fuel p m)
  unfolding serve
  free-Ends count p m enough h = serve-IsHeap lo hi fuel count m bound enough h (give p)

  free_each-Ends :
      (count : ℕ) (ps : List Ptr) (m : Manager)
      → count + length ps ≤ fuel
      → IsHeap lo hi m count
      → Ends lo hi (count + length ps) (λ r. r) (free_each fuel ps m)
  unfolding free_each
  free_each-Ends count [] m enough h = (m, refl, weaken lo hi count (count + 0) m (omega arith) h)
  free_each-Ends count (p ∷ ps) m enough h =
      let (m1, e1, h1) = free-Ends count p m (omega arith) h in
      let (m2, e2, h2) = free_each-Ends (suc count) ps m1 (omega arith) h1 in
      (
        m2,
        rw (e1, free_each) e2,
        weaken lo hi (suc count + length ps) (count + suc (length ps)) m2 (omega arith) h2,
      )

  take_back-Ends :
      (count : ℕ) (array : Ptr) (ps : List Ptr) (m : Manager)
      → count + length ps < fuel
      → IsHeap lo hi m count
      → Ends lo hi (suc (count + length ps)) heap_of_copied (take_back fuel array ps m)
  unfolding take_back
  take_back-Ends count array ps m enough h =
      let (m1, e1, h1) = free_each-Ends count ps m (omega arith) h in
      let (m2, e2, h2) = free-Ends (count + length ps) array m1 enough h1 in
      (null_copy m2, rw (e1, e2, take_back) refl, h2)

  copy_loop-Ends :
      (count total : ℕ) (args : List (List ℕ)) (array : Ptr) (ps : List Ptr) (m : Manager)
      → count + 2 * length args + length ps < total
      → total ≤ fuel
      → IsHeap lo hi m count
      → Ends lo hi total heap_of_copied (copy_loop fuel args array ps m)
  unfolding copy_loop
  copy_loop-Ends count total [] array ps m room enough h =
      (copied array ps m, refl, weaken lo hi count total m (omega arith) h)
  copy_loop-Ends count total (arg ∷ args) array ps m room enough h =
      let ((ptr, m1), e1, h1) = malloc-Ends count (length arg + 1) m (omega arith) h in
      elim (Bool-cases (ptr == null)) [
        | inl full ↦
            let (r, e, h2) = take_back-Ends (suc count) array ps m1 (omega arith) h1 in
            (
              r,
              rw (e1, full, copy_loop) e,
              weaken lo hi (suc (suc count + length ps)) total (heap_of_copied r) (omega arith) h2,
            )
        | inr room_left ↦
            let (r, e, h2) =
              copy_loop-Ends (suc count) total args array (ps ++ ptr ∷ []) m1
                (omega (arith, length-append ps (ptr ∷ []), room)) enough h1 in
            (r, rw (e1, room_left, copy_loop) e, h2)
      ]

  pub copy_args-Ends :
      (count : ℕ) (argv : List (List ℕ)) (m : Manager)
      → count + 2 * length argv + 2 ≤ fuel
      → IsHeap lo hi m count
      → Ends lo hi (count + 2 * length argv + 2) heap_of_copied (copy_args fuel argv m)
  unfolding copy_args
  copy_args-Ends count argv m enough h =
      let total = count + 2 * length argv + 2 in
      let ((array, m1), e1, h1) = malloc-Ends count ((count_args argv + 1) * 8) m (omega arith) h in
      elim (Bool-cases (array == null)) [
        | inl full ↦ (
          no_array m1,
          rw (e1, full, copy_args) refl,
          weaken lo hi (suc count) total m1 (omega arith) h1,
        )
        | inr room_left ↦
            let (r, e, h2) =
              copy_loop-Ends (suc count) total argv array [] m1 (omega arith) enough h1 in
            (r, rw (e1, room_left, copy_args) e, h2)
      ]
