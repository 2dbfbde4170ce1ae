-- ===== src/Scheduler/Blocks.antt =====
-- `createProcess`, `freeProcess` and `addProcess` leave a heap.
use s_o.Base.{
  ℕ, suc, ◌+◌, ◌*◌, ◌^◌, ◌≤◌, ◌<◌, ◌≡◌, refl, inl, inr, Bool, some, List, [], ◌∷◌, arith, ◌==◌,
  Bool-cases, length,
}
use s_o.MemoryManager.{Manager, Ptr, null}
use s_o.MemoryManager.Client.{IsHeap}
use s_o.Scheduler.Creation.{
  Added, Copied, Created, Freed, Machine, Made, add_node, add_process_blocks, after_loop, at_null,
  broken, copied, create_blocks, create_rest, free_loop, free_process, made, no_array, no_memory,
  node_size, null_copy, null_used, of_copied, past_null, process_size,
}
use s_o.Scheduler.Heap.{
  Ends, copy_args-Ends, free-Ends, heap_of_added, heap_of_copied, heap_of_created, heap_of_freed,
  malloc-Ends, weaken,
}
use s_o.MemoryManager.Malloc.{others}
use s_o.Scheduler.Processes.{stack_size}

module _ (lo hi fuel : ℕ) (bound : hi < 2 ^ 63) where
  of_copied-heap :
      (p stack : Ptr) (r : Copied) (count : ℕ)
      → IsHeap lo hi (heap_of_copied r) count
      → Ends lo hi count heap_of_created (of_copied p stack (some r))
  of_copied-heap p stack (no_array m) count h = (_, refl, h)
  of_copied-heap p stack (copied array args m) count h = (_, refl, h)
  of_copied-heap p stack (null_copy m) count h = (_, refl, h)

  create_rest-Ends :
      (count : ℕ) (argv : List (List ℕ)) (p : Ptr) (m : Manager)
      → count + 2 * length argv + 3 ≤ fuel
      → IsHeap lo hi m count
      → Ends lo hi (count + 2 * length argv + 3) heap_of_created (create_rest fuel argv p m)
  unfolding create_rest
  create_rest-Ends count argv p m enough h =
      let total = count + 2 * length argv + 3 in
      let ((stack, m1), e1, h1) = malloc-Ends lo hi fuel bound count stack_size m (omega arith) h in
      elim (Bool-cases (stack == null)) [
        | inl full ↦
            let (m2, e2, h2) = free-Ends lo hi fuel bound (suc count) p m1 (omega arith) h1 in
            (
              no_memory m2,
              rw (e1, full, e2, create_rest) refl,
              weaken lo hi (suc (suc count)) total m2 (omega arith) h2,
            )
        | inr room_left ↦
            let (r, e2, h2) =
              copy_args-Ends lo hi fuel bound (suc count) argv m1 (omega arith) h1 in
            let (made_, e3, h3) = of_copied-heap p stack r (suc count + 2 * length argv + 2) h2 in
            (
              made_,
              rw (e1, room_left, e2, create_rest) e3,
              weaken lo hi (suc count + 2 * length argv + 2) total (heap_of_created made_)
                  (omega arith) h3,
            )
      ]

  pub create_blocks-Ends :
      (count : ℕ) (argv : List (List ℕ)) (m : Manager)
      → count + 2 * length argv + 4 ≤ fuel
      → IsHeap lo hi m count
      → Ends lo hi (count + 2 * length argv + 4) heap_of_created (create_blocks fuel argv m)
  unfolding create_blocks
  create_blocks-Ends count argv m enough h =
      let total = count + 2 * length argv + 4 in
      let ((p, m1), e1, h1) = malloc-Ends lo hi fuel bound count process_size m (omega arith) h in
      elim (Bool-cases (p == null)) [
        | inl full ↦ (
          no_memory m1,
          rw (e1, full, create_blocks) refl,
          weaken lo hi (suc count) total m1 (omega arith) h1,
        )
        | inr room_left ↦
            let (r, e, h2) = create_rest-Ends (suc count) argv p m1 (omega arith) h1 in
            (
              r,
              rw (e1, room_left, create_blocks) e,
              weaken lo hi (suc count + 2 * length argv + 3) total (heap_of_created r) (omega arith)
                  h2,
            )
      ]

  free_loop-Ends :
      (count : ℕ) (args : List Ptr) (m : Manager)
      → count + length args ≤ fuel
      → IsHeap lo hi m count
      → Ends lo hi (count + length args) heap_of_freed (free_loop fuel args m)
  unfolding free_loop
  free_loop-Ends count [] m enough h =
      (at_null m, refl, weaken lo hi count (count + 0) m (omega arith) h)
  free_loop-Ends count (a ∷ []) m enough h =
      let (m1, e1, h1) = free-Ends lo hi fuel bound count a m (omega arith) h in
      (
        past_null m1,
        rw (e1, free_loop) refl,
        weaken lo hi (suc count) (count + 1) m1 (omega arith) h1,
      )
  free_loop-Ends count (a ∷ b ∷ others) m enough h =
      let (m1, e1, h1) = free-Ends lo hi fuel bound count a m (omega arith) h in
      let (r, e2, h2) = free_loop-Ends (suc count) others m1 (omega arith) h1 in
      (
        r,
        rw (e1, free_loop) e2,
        weaken lo hi (suc count + length others) (count + suc (suc (length others)))
            (heap_of_freed r) (omega arith) h2,
      )

  after_loop-Ends :
      (count : ℕ) (q : Made) (r : Freed)
      → count + 2 ≤ fuel
      → IsHeap lo hi (heap_of_freed r) count
      → Ends lo hi (count + 2) heap_of_freed (after_loop fuel q (some r))
  unfolding after_loop
  after_loop-Ends count q (past_null m) enough h =
      (past_null m, refl, weaken lo hi count (count + 2) m (omega arith) h)
  after_loop-Ends count q (at_null m) enough h =
      let (m1, e1, h1) = free-Ends lo hi fuel bound count q.argv m (omega arith) h in
      let (m2, e2, h2) = free-Ends lo hi fuel bound (suc count) q.p m1 (omega arith) h1 in
      (
        at_null m2,
        rw (e1, e2, after_loop) refl,
        weaken lo hi (suc (suc count)) (count + 2) m2 (omega arith) h2,
      )

  pub free_process-Ends :
      (count : ℕ) (q : Made) (m : Manager)
      → count + length q.args + 3 ≤ fuel
      → IsHeap lo hi m count
      → Ends lo hi (count + length q.args + 3) heap_of_freed (free_process fuel q m)
  unfolding free_process
  free_process-Ends count q m enough h =
      let (m1, e1, h1) = free-Ends lo hi fuel bound count q.stack m (omega arith) h in
      let (r, e2, h2) = free_loop-Ends (suc count) q.args m1 (omega arith) h1 in
      let (r', e3, h3) = after_loop-Ends (suc count + length q.args) q r (omega arith) h2 in
      (
        r',
        rw (e1, e2, free_process) e3,
        weaken lo hi (suc count + length q.args + 2) (count + length q.args + 3) (heap_of_freed r')
            (omega arith) h3,
      )

  add_node-Ends :
      (count : ℕ) (q : Made) (priority : ℕ) (fg_flag : Bool) (w : Machine)
      → count < fuel
      → IsHeap lo hi w.heap count
      → Ends lo hi (suc count) heap_of_added (add_node fuel q priority fg_flag w)
  unfolding add_node
  add_node-Ends count q priority fg_flag w enough h =
      let (r, e, h1) = malloc-Ends lo hi fuel bound count node_size w.heap enough h in
      rw (e, add_node) (_, refl, h1)

-- From a heap, with enough fuel for `addProcess` to walk the blocks, it always ends, whether the
-- process is made or the memory runs out at one of its allocations, and leaves a heap.
pub add_process_blocks-Ends :
    (lo hi fuel count : ℕ) (argv : List (List ℕ)) (priority : ℕ) (fg_flag : Bool) (w : Machine)
    → hi < 2 ^ 63
    → count + 2 * length argv + 5 ≤ fuel
    → IsHeap lo hi w.heap count
    → (r : Added) × (add_process_blocks fuel argv priority fg_flag w ≡ some r)
      × IsHeap lo hi (heap_of_added r) (count + 2 * length argv + 5)
unfolding add_process_blocks
add_process_blocks-Ends lo hi fuel count argv priority fg_flag w bound enough h =
    let (r, e, h1) = create_blocks-Ends lo hi fuel bound count argv w.heap (omega arith) h in
    finish r e h1
  where
    finish :
        (r : Created)
        → create_blocks fuel argv w.heap ≡ some r
        → IsHeap lo hi (heap_of_created r) (count + 2 * length argv + 4)
        → Ends lo hi
            (count + 2 * length argv + 5)
            heap_of_added
            (add_process_blocks fuel argv priority fg_flag w)
    finish (made q m) e h1 =
        let (r2, e2, h2) =
          add_node-Ends lo hi fuel bound (count + 2 * length argv + 4) q priority fg_flag
            (record w { heap = m }) (omega arith) h1 in
        (
          r2,
          rw (e, add_process_blocks) e2,
          weaken lo hi (suc (count + 2 * length argv + 4)) (count + 2 * length argv + 5)
              (heap_of_added r2) (omega arith) h2,
        )
    finish (no_memory m) e h1 = (
      null_used m,
      rw (e, add_process_blocks) refl,
      weaken lo hi (count + 2 * length argv + 4) (count + 2 * length argv + 5) m (omega arith) h1,
    )
    finish (broken m) e h1 = (
      null_used m,
      rw (e, add_process_blocks) refl,
      weaken lo hi (count + 2 * length argv + 4) (count + 2 * length argv + 5) m (omega arith) h1,
    )
