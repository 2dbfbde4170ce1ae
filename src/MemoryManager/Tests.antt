-- ===== src/MemoryManager/Tests.antt =====
-- The memory manager at the addresses of a small heap: runs, and the theorems at its states.
use mathlib.Core.Option
use s_o.Base.{ℕ, ◌+◌, ◌%◌, ◌≤◌, ◌<◌, ◌≡◌, refl, Option, none, some, List, [], ◌∷◌, arith, update}
use s_o.MemoryManager.{Manager, free, initialize, malloc}
use s_o.MemoryManager.Blocks.{Block}
use s_o.MemoryManager.Rep.{Rep}
use s_o.MemoryManager.FirstFit.{allocate, Outcome, malloc_refines}
use s_o.MemoryManager.Client.{IsHeap, ask, give, serve_all, serve_all-IsHeap}
use s_o.MemoryManager.Free.{insert_sorted, size_of, remove}
use s_o.MemoryManager.Release.{free_refines}
use s_o.MemoryManager.Merge.{merge_all}
use s_o.MemoryManager.Order.{allocate-Gapped, Gapped}
use s_o.MemoryManager.Malloc.{granted, remainder}

abbrev blank : Manager
blank = record {
  alloc_mem = 0;
  free_mem = 0;
  size = λ _. 0;
  next = λ _. 0;
  info = record { allocated = 0; free = 0; total = 0 };
}

-- The heap of 4096 bytes at address 4096.
abbrev boot : Manager
unfolding initialize update
boot = (initialize 4096 4096 blank).1

abbrev whole : List Block
whole = (4112, 4072) ∷ []

boot-Rep : Rep 4112 8208 boot whole []
unfolding boot
boot-Rep = record {
  free_list = (refl, omega arith, refl, refl);
  alloc_list = refl;
  tiles = λ i. ground arith;
}

boot-IsHeap : IsHeap 4112 8208 boot 1
unfolding boot
boot-IsHeap = record {
  fs = whole;
  used = [];
  rep = boot-Rep;
  merged = (omega arith, tt);
  few = omega arith;
}

-- Two allocations and a release.
served : Option (ℕ × ℕ)
unfolding serve_all malloc free boot
served =
    Option.map (λ m. (m.free_mem, m.info.allocated))
      (serve_all 10 (ask 100 ∷ ask 50 ∷ give 4136 ∷ []) boot)

served_lem : served ≡ some (4112, 104)
unfolding served
served_lem = refl

malloc_refines_example :
    (size : ℕ) × (100 ≤ size)
    × (size < 100 + 8)
    × (size % 8 ≡ 0)
    × Outcome 4112 8208 boot [] (allocate size whole) (malloc 5 100 boot)
malloc_refines_example =
    malloc_refines 4112 8208 boot [] whole 100 5 boot-Rep (omega arith) (omega arith) (omega arith)
      (omega arith)

serve_all-IsHeap_example :
    (m' : Manager) × (serve_all 10 (ask 100 ∷ ask 50 ∷ give 4136 ∷ []) boot ≡ some m')
    × IsHeap 4112 8208 m' (1 + 3)
serve_all-IsHeap_example =
    serve_all-IsHeap 4112 8208 10 1 (ask 100 ∷ ask 50 ∷ give 4136 ∷ []) boot (omega arith)
      (omega arith) boot-IsHeap

-- After `malloc(100)`.
abbrev one : Manager
unfolding malloc boot
one = elim (malloc 5 100 boot) [ none ↦ boot | some (ptr, m) ↦ m ]

one-Rep : Rep 4112 8208 one ((4240, 3944) ∷ []) ((4112, 104) ∷ [])
unfolding one
one-Rep = record {
  free_list = (refl, omega arith, refl, refl);
  alloc_list = (refl, omega arith, refl, refl);
  tiles = λ i. ground arith;
}

free_refines_example :
    (m' : Manager) × (free 5 (4112 + 24) one ≡ some m')
    × Rep 4112 8208 m'
        (merge_all (insert_sorted (4112, size_of 4112 ((4112, 104) ∷ [])) ((4240, 3944) ∷ [])))
        (remove 4112 ((4112, 104) ∷ []))
free_refines_example =
    free_refines 4112 8208 5 4112 one ((4240, 3944) ∷ []) ((4112, 104) ∷ []) one-Rep (omega arith)
      refl (omega arith)

allocate-Gapped_example : Gapped 0 ((4240, 3944) ∷ [])
unfolding allocate granted remainder
allocate-Gapped_example =
    allocate-Gapped 104 whole ((4240, 3944) ∷ []) (4112, 104) (omega arith, tt) refl
