-- ===== src/Boot/Start.antt =====
-- Kernel/kernel.c, and `init_scheduler` of Kernel/scheduler.c.
-- The blocks' headers are apart from the other bytes of memory, as in MemoryManager.
use s_o.Base.{
  ℕ, ◌+◌, ◌-◌, ◌*◌, ◌%◌, ◌^◌, ◌≤◌, ◌<◌, ◌≡◌, refl, ap, ◌∙◌, inl, inr, Option, none, some, List, [],
  ◌∷◌, ◌++◌, arith, ◌==◌, if◌then◌else◌, ==_iff, Bool-cases, update, add64, update_self,
}
use s_o.KernelLib.{Memory, memset}
use s_o.Modules.{load_modules}
use s_o.MemoryManager.{Manager, initialize, malloc, null, manager_size}
use s_o.MemoryManager.Client.{IsHeap}
use s_o.Scheduler.Nodes.{Sched, running}
use s_o.Scheduler.Processes.{create_process}
use s_o.Scheduler.Creation.{
  Machine, Made, Created, made, no_memory, broken, create_blocks, node_size,
}
use s_o.Semaphore.Names.{Distinct}
use s_o.Syscalls.Names.{Table, sys_sem_open}
use s_o.Semaphore.Table.{first}
use s_o.Scheduler.Blocks.{create_blocks-Ends}
use s_o.Scheduler.Heap.{malloc-Ends, weaken, heap_of_created}
use s_o.Syscalls.Tables.{sem_open-Distinct}
use s_o.MemoryManager.Rep.{alone}
use s_o.MemoryManager.Accounts.{initialize-IsHeap}

abbrev pub page_size : ℕ
page_size = 4096

abbrev pub clear_bss : Memory → ℕ → ℕ → Memory
clear_bss mem address size = memset mem address 0 size

abbrev pub stack_base : ℕ → ℕ
stack_base end_of_kernel = end_of_kernel + page_size * 8 - 8

-- `uCodeModuleAddress` and `uDataModuleAddress`
abbrev pub module_addresses : ℕ → ℕ
module_addresses i = if i == 0 then 4 * 2 ^ 20 else 5 * 2 ^ 20

abbrev pub start_of_mem : ℕ → ℕ
start_of_mem end_of_modules = end_of_modules + page_size - end_of_modules % page_size

-- SCHEDULER_SEM, CHILDREN_SEM and PID_SEM
abbrev pub mutex : List ℕ → List ℕ
mutex name = name ++ b'_' ∷ b'M' ∷ b'U' ∷ b'T' ∷ b'E' ∷ b'X' ∷ []

abbrev pub scheduler_sem : List ℕ
scheduler_sem = mutex (b'S' ∷ b'C' ∷ b'H' ∷ b'E' ∷ b'D' ∷ b'U' ∷ b'L' ∷ b'E' ∷ b'R' ∷ [])

abbrev pub children_sem : List ℕ
children_sem = mutex (b'C' ∷ b'H' ∷ b'I' ∷ b'L' ∷ b'D' ∷ b'R' ∷ b'E' ∷ b'N' ∷ [])

abbrev pub pid_sem : List ℕ
pid_sem = mutex (b'P' ∷ b'I' ∷ b'D' ∷ [])

-- The three semaphores, each with the value 1.
abbrev pub open_mutexes : Table → Table
open_mutexes t =
    (sys_sem_open (sys_sem_open (sys_sem_open t scheduler_sem 1).1 children_sem 1).1 pid_sem 1).1

-- The idle process alone in the ring.
unfoldable pub first_process : Sched → ℕ → Made → Sched
unfolding create_process update
first_process s first q =
    let created = (create_process s q.p q.stack 5).1 in
    record created {
      proc = update created.proc first q.p;
      quantums = update created.quantums first 5;
      root = first;
      next = update created.next first first;
      current = first;
      state = update created.state q.p running;
      node_count = add64 created.node_count 1;
    }

-- How `init_scheduler` ends: with the ring; with the message "Memory Error"; or it writes the state of
-- a process that is NULL.
pub data Started : Type 0 where
  started : Machine → Table → Started
  memory_error : Manager → Started
  null_used : Manager → Started

abbrev pub of_created : Sched → Table → ℕ → Option Created → Option Started
of_created s t first none = none
of_created s t first (some (made q m)) =
    some (started (record { heap = m; sched = first_process s first q }) (open_mutexes t))
of_created s t first (some (no_memory m)) = some (null_used m)
of_created s t first (some (broken m)) = some (null_used m)

unfoldable pub init_scheduler : ℕ → Manager → Sched → Table → Option Started
init_scheduler fuel heap s t = elim (malloc fuel node_size heap) [
  | none ↦ none
  | some (first, m) ↦
      if first == null
      then some (memory_error m)
      else of_created s t first (create_blocks fuel [] m)
]

-- What the boot leaves: memory, the processes, and the base of the stack.
pub record Booted : Type 0 where
  pub mem : Memory
  pub processes : Option Started
  pub stack : ℕ

-- `initializeKernelBinary`; the variables of the file are what they are at the start, and what
-- `initalizeMemoryManager` returns is dropped.
unfoldable pub initialize_kernel_binary :
    ℕ → ℕ → Memory → Manager → Sched → Table → ℕ → ℕ → ℕ → Booted
unfolding load_modules init_scheduler
initialize_kernel_binary fuel garbage mem m s t end_of_binary bss end_of_kernel =
    let l = load_modules garbage mem end_of_binary module_addresses in
    record {
      mem = clear_bss l.mem bss (end_of_kernel - bss);
      processes = init_scheduler fuel (initialize (start_of_mem l.end_of_modules) (2 ^ 20) m).1 s t;
      stack = stack_base end_of_kernel;
    }

abbrev pub heap_of_started : Started → Manager
heap_of_started (started w t) = w.heap
heap_of_started (memory_error m) = m
heap_of_started (null_used m) = m

-- One process runs, the ring leads from its node back to it, and the semaphores' names differ.
abbrev pub IsReady : Started → Type 0
IsReady (started w t) =
    (w.sched.next w.sched.root ≡ w.sched.root)
    × (w.sched.current ≡ w.sched.root)
    × (w.sched.state (w.sched.proc w.sched.root) ≡ running)
    × Distinct t
IsReady _ = Unit

accepted : (e : ℕ) (m : Manager) → (initialize (start_of_mem e) (2 ^ 20) m).0 ≡ 0
unfolding initialize
accepted e m =
    let aligned : start_of_mem e % 8 ≡ 0 = omega arith in
    rw ((==_iff (start_of_mem e % 8) 0).1 aligned) refl

mutexes-Distinct : (t : Table) → Distinct t → Distinct (open_mutexes t)
mutexes-Distinct t d =
    let t1 = (sys_sem_open t scheduler_sem 1).1 in
    let t2 = (sys_sem_open t1 children_sem 1).1 in
    sem_open-Distinct t2 pid_sem 1
      (sem_open-Distinct t1 children_sem 1 (sem_open-Distinct t scheduler_sem 1 d))

abbrev Starts : ℕ → ℕ → Option Started → Type 0
Starts lo hi result =
    (r : Started) × (result ≡ some r) × IsHeap lo hi (heap_of_started r) 6 × IsReady r

created-Starts :
    (lo hi : ℕ) (s : Sched) (t : Table) (first : ℕ) (c : Created)
    → Distinct t
    → IsHeap lo hi (heap_of_created c) 6
    → Starts lo hi (of_created s t first (some c))
unfolding first_process update
created-Starts lo hi s t first (made q m) d h = (
  _,
  refl,
  h,
  (
    update_self (create_process s q.p q.stack 5).1.next first first,
    refl,
    ap (update (create_process s q.p q.stack 5).1.state q.p running)
          (update_self (create_process s q.p q.stack 5).1.proc first q.p)
        ∙ update_self (create_process s q.p q.stack 5).1.state q.p running,
    mutexes-Distinct t d,
  ),
)
created-Starts lo hi s t first (no_memory m) d h = (_, refl, h, tt)
created-Starts lo hi s t first (broken m) d h = (_, refl, h, tt)

init_scheduler-Starts :
    (lo hi fuel : ℕ) (m : Manager) (s : Sched) (t : Table)
    → hi < 2 ^ 63
    → 10 ≤ fuel
    → IsHeap lo hi m 1
    → Distinct t
    → Starts lo hi (init_scheduler fuel m s t)
unfolding init_scheduler
init_scheduler-Starts lo hi fuel m s t bound enough h d =
    let ((first, m1), e1, h1) =
      malloc-Ends lo hi fuel bound 1 node_size m (omega (arith, enough)) h in
    elim (Bool-cases (first == null)) [
      | inl full ↦ (
        memory_error m1,
        rw (e1, full, init_scheduler) refl,
        weaken lo hi 2 6 m1 (omega arith) h1,
        tt,
      )
      | inr room ↦
          let (c, e2, h2) =
            create_blocks-Ends lo hi fuel bound 2 [] m1 (omega (arith, enough)) h1 in
          let (r, e3, h3, alone) = created-Starts lo hi s t first c d h2 in
          (r, rw (e1, room, e2, init_scheduler) e3, h3, alone)
    ]

-- The boot ends, with fuel for ten blocks, wherever the modules end. The heap starts at a page behind
-- the modules, is well formed when memory is zero there, and stays so while the idle process is made.
-- When that succeeds, it runs alone in its ring, and the semaphores in use have different names.
pub initialize_kernel_binary-IsHeap :
    (fuel garbage : ℕ) (mem : Memory) (m : Manager) (s : Sched) (t : Table)
    (end_of_binary bss end_of_kernel : ℕ)
    → 10 ≤ fuel
    → m.alloc_mem ≡ null
    → Distinct t
    → start_of_mem (load_modules garbage mem end_of_binary module_addresses).end_of_modules < 2 ^ 62
    → (r : Started) × ((initialize_kernel_binary fuel garbage mem m s t end_of_binary bss
          end_of_kernel).processes
        ≡ some r)
      × IsHeap
          (start_of_mem (load_modules garbage mem end_of_binary module_addresses).end_of_modules
            + manager_size)
          (start_of_mem (load_modules garbage mem end_of_binary module_addresses).end_of_modules
            + manager_size
            + 2 ^ 20)
          (heap_of_started r)
          6
      × IsReady r
unfolding initialize_kernel_binary
initialize_kernel_binary-IsHeap fuel garbage mem m s t end_of_binary bss end_of_kernel enough zero_
      d low =
    let e = (load_modules garbage mem end_of_binary module_addresses).end_of_modules in
    init_scheduler-Starts (start_of_mem e + manager_size) (start_of_mem e + manager_size + 2 ^ 20)
      fuel (initialize (start_of_mem e) (2 ^ 20) m).1 s t (omega (arith, low)) enough
      (initialize-IsHeap (start_of_mem e) (2 ^ 20) m (accepted e m) zero_).0 d
