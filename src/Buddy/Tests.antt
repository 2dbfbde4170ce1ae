-- ===== src/Buddy/Tests.antt =====
-- The buddy allocator at a small heap: runs, and the theorems at its states.
use s_o.Base.{ℕ, ◌≡◌, refl, none, some, arith, ◌==◌, if◌then◌else◌, update}
use s_o.Buddy.{
  Buddy, Outcome, exhausted, fault, free, get_address, get_buddy, granted, halve, level_for, log2,
  malloc, malloc_at, remove_block, row_above, set_at, split_block, split_down, take_head, add_block,
}
use s_o.Buddy.Pairs.{InFront, free-InFront}

-- A heap of two levels above the smallest: four blocks, the whole of which are free as one.
abbrev four : Buddy
four = record {
  size = λ _. 0;
  level = λ i. if i == 0 then 2 else 0;
  next = λ _. none;
  prev = λ _. none;
  free_row = λ r. if r == 2 then some 0 else none;
  lvl = 3;
  used = 4;
  start = 8192;
  info = record { allocated = 0; free = 2048; total = 2048 };
}

-- The same with nothing left.
abbrev nothing_left : Buddy
nothing_left = record four { free_row = λ _. none }

-- The same with the one block handed out.
abbrev held : Buddy
held = record four { free_row = λ _. none; size = λ i. if i == 0 then 2048 else 0 }

address_of : Outcome → ℕ
address_of (granted ptr b) = ptr
address_of exhausted = 0
address_of fault = 1

four_runs : address_of (malloc four 600) ≡ 8192
unfolding address_of malloc malloc_at level_for log2 row_above split_down split_block halve
    take_head get_address remove_block add_block get_buddy update set_at
four_runs = refl

free-InFront_example :
    (t : Buddy) × (free 1 held (get_address held 0) ≡ some t) × InFront held 0 (held.level 0) none t
unfolding get_address
free-InFront_example = free-InFront 0 held 0 (omega arith) (omega arith) (omega arith)
