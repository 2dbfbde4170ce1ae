-- ===== src/Boot/Tests.antt =====
-- The boot of a kernel with two empty modules, and its interrupt table.
use s_o.Base.{ℕ, ◌+◌, ◌^◌, ◌≡◌, refl, true, false, some, List, [], ◌∷◌, arith, update}
use s_o.KernelLib.{Memory}
use s_o.Modules.{load_modules, load_loop}
use s_o.MemoryManager.{
  Manager, manager_size, null, align, initialize, link_free, malloc, push_alloc, split, take_block,
  walk,
}
use s_o.MemoryManager.Client.{IsHeap}
use s_o.Scheduler.Nodes.{Sched, running}
use s_o.Semaphore.Table.{Table}
use s_o.Semaphore.Names.{Distinct}
use s_o.Semaphore.Protocol.{init}
use s_o.Scheduler.Creation.{Machine, create_blocks, create_rest, copy_args, copy_loop}
use s_o.Scheduler.Processes.{create_process}
use s_o.Syscalls.Kernel.{Kernel, Syscall, exec, get_memory, write}
use s_o.Pipe.{Pipe}
use s_o.Boot.Idt.{Descriptor, Handlers}
use s_o.Boot.Start.{
  IsReady, Started, heap_of_started, initialize_kernel_binary, initialize_kernel_binary-IsHeap,
  module_addresses, start_of_mem, first_process, init_scheduler, open_mutexes, started,
}

abbrev handlers : Handlers
handlers = record {
  irq00 = 2 ^ 40 + 5;
  irq01 = 16;
  exception0 = 32;
  exception6 = 48;
  syscall_int = 64;
}

abbrev no_entries : ℕ → Descriptor
no_entries i = record {
  offset_l = 0;
  selector = 0;
  cero = 0;
  access = 0;
  offset_m = 0;
  offset_h = 0;
  other_cero = 0;
}

-- Memory is zero; the number of the modules is so too.
abbrev zeros : Memory
zeros a = 0

abbrev blank : Manager
blank = record {
  alloc_mem = null;
  free_mem = null;
  size = λ p. 0;
  next = λ p. null;
  info = record { allocated = 0; free = 0; total = 0 };
}

abbrev nobody : Sched
nobody = record {
  quantums = λ _. 0;
  proc = λ _. 0;
  next = λ _. 0;
  state = λ _. running;
  pid = λ _. 0;
  priority = λ _. 0;
  children = λ _. 0;
  parent_pid = λ _. 0;
  sp = λ _. 0;
  root = 0;
  current = 0;
  foreground = 0;
  background = 0;
  force_next = false;
  pending_disables = 0;
  node_count = 0;
  current_pid = 0;
  freed_nodes = [];
  freed_procs = [];
}

abbrev no_sems : Table
no_sems i = record { sem_id = 0; name = []; open_count = 0; shared = (init 0).mem }

no_sems-Distinct : Distinct no_sems
no_sems-Distinct name i j hi hj ni nj = ground arith

-- Without a module the end of the modules is what the variable held.
abbrev modules_end : ℕ
modules_end = (load_modules 9000 zeros 2048 module_addresses).end_of_modules

initialize_kernel_binary-IsHeap_example :
    (r : Started) × ((initialize_kernel_binary 10 9000 zeros blank nobody no_sems 2048 3000
        4000).processes
      ≡ some r)
    × IsHeap
        (start_of_mem modules_end + manager_size)
        (start_of_mem modules_end + manager_size + 2 ^ 20)
        (heap_of_started r)
        6
    × IsReady r
unfolding load_modules
initialize_kernel_binary-IsHeap_example =
    initialize_kernel_binary-IsHeap 10 9000 zeros blank nobody no_sems 2048 3000 4000 (omega arith)
      refl no_sems-Distinct (omega arith)

abbrev no_pipe : Pipe
no_pipe = record {
  name = [];
  initialized = 0;
  in_use = 0;
  fd = 0;
  data_bytes = λ _. 0;
  r_pids = λ _. 0;
  w_pids = λ _. 0;
  pos_read = 0;
  pos_write = 0;
}

-- The machine after the boot.
abbrev booted_machine : Machine
unfolding initialize_kernel_binary init_scheduler load_modules load_loop initialize malloc walk
    align take_block split link_free push_alloc create_blocks create_rest copy_args copy_loop
    first_process create_process update
booted_machine =
    elim (initialize_kernel_binary 20 9000 zeros blank nobody no_sems 2048 3000 4000).processes [
      | some (started w t) ↦ w
      | _ ↦ record { heap = blank; sched = nobody }
    ]

abbrev booted : Kernel
booted = record {
  machine = booted_machine;
  semaphores = open_mutexes no_sems;
  pipes = λ i. no_pipe;
  screen = record {
    width = 80;
    height = 96;
    pixels = λ n. 0;
    pos_x = 0;
    y_char = 0;
    font_size = 1;
  };
  fd_read = 0;
  fd_write = 1;
}

-- The shell is started, memory is taken, and a line is written.
abbrev first_calls : List Syscall
first_calls = exec [] 1 true ∷ get_memory 100 ∷ write 1 (104 ∷ 105 ∷ 10 ∷ []) 7 ∷ []
