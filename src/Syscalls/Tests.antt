-- ===== src/Syscalls/Tests.antt =====
-- A kernel after the boot, and calls of its processes.
use s_o.Base.{ℕ, ◌+◌, ◌≤◌, ◌<◌, ◌≡◌, ◌⊎◌, true, false, some, List, [], ◌∷◌, arith}
use s_o.MemoryManager.{Manager, initialize, null}
use s_o.MemoryManager.Client.{give, serve_all}
use s_o.Scheduler.Nodes.{Sched, running}
use s_o.Scheduler.Creation.{Machine, Made, free_process}
use s_o.Scheduler.Leaks.{ended, way, free_process-gives}
use s_o.Semaphore.Table.{Table}
use s_o.Semaphore.Protocol.{init}
use s_o.Pipe.{Pipe}
use s_o.Keyboard.Driver.{Keyboard}
use s_o.Syscalls.Kernel.{Kernel, Syscall, exec, get_memory, open_sem, write, font_size, write_at}
use s_o.Syscalls.Clock.{Halt, sys_wait, sys_timed_read, milliseconds_elapsed}
use s_o.Syscalls.Waiting.{IsEnded, sys_wait-time, sys_timed_read-IsEnded}

abbrev blank : Manager
blank = record {
  alloc_mem = null;
  free_mem = null;
  size = λ p. 0;
  next = λ p. null;
  info = record { allocated = 0; free = 0; total = 0 };
}

abbrev heap : Manager
heap = (initialize 4096 65536 blank).1

-- Only the idle process, at node 10.
abbrev idle : Sched
idle = record {
  quantums = λ _. 5;
  proc = λ _. 11;
  next = λ _. 10;
  state = λ _. running;
  pid = λ _. 0;
  priority = λ _. 5;
  children = λ _. 0;
  parent_pid = λ _. 0;
  sp = λ _. 0;
  root = 10;
  current = 10;
  foreground = 10;
  background = 0;
  force_next = false;
  pending_disables = 0;
  node_count = 1;
  current_pid = 1;
  freed_nodes = [];
  freed_procs = [];
}

abbrev machine : Machine
machine = record { heap = heap; sched = idle }

-- The arguments "a" and "b".
abbrev two_args : List (List ℕ)
two_args = (97 ∷ []) ∷ (98 ∷ []) ∷ []

abbrev process : Made
process = record { p = 5000; stack = 6000; argv = 7000; args = 8000 ∷ 9000 ∷ [] }

free_process-gives_example :
    free_process 20 process heap
    ≡ ended (way true) (serve_all 20 (give 6000 ∷ give 8000 ∷ give 7000 ∷ give 5000 ∷ []) heap)
free_process-gives_example = free_process-gives 20 process heap

abbrev no_sems : Table
no_sems i = record { sem_id = 0; name = []; open_count = 0; shared = (init 0).mem }

abbrev no_pipe : Pipe
no_pipe = record {
  name = [];
  initialized = 0;
  in_use = 0;
  fd = 0;
  data_bytes = λ _. 0;
  r_pids = λ _. 0;
  w_pids = λ _. 0;
  pos_read = 0;
  pos_write = 0;
}

abbrev kernel : Kernel
kernel = record {
  machine = machine;
  semaphores = no_sems;
  pipes = λ i. no_pipe;
  screen = record {
    width = 80;
    height = 96;
    pixels = λ n. 0;
    pos_x = 0;
    y_char = 0;
    font_size = 1;
  };
  fd_read = 0;
  fd_write = 1;
}

abbrev session : List Syscall
session =
    exec two_args 1 true
    ∷ get_memory 100
    ∷ open_sem (97 ∷ []) 1
    ∷ write 1 (104 ∷ 105 ∷ 10 ∷ []) 7
    ∷ font_size 1
    ∷ write_at 0 1 (104 ∷ []) 7
    ∷ []

-- 100 milliseconds are two ticks.
sys_wait-time_example :
    (t : ℕ) × (sys_wait (1 ∷ 0 ∷ 1 ∷ []) 100 18 ≡ some t)
    × (milliseconds_elapsed 18 + 100 ≤ milliseconds_elapsed t)
    × ((t ≡ 18) ⊎ (milliseconds_elapsed t < milliseconds_elapsed 18 + 100 + 56))
sys_wait-time_example =
    sys_wait-time (1 ∷ 0 ∷ 1 ∷ []) 100 18 (omega arith, (omega arith, (omega arith, tt)))
      (omega arith) (omega arith)

abbrev no_keys : Keyboard
no_keys = record { keys = λ n. 0; count = 0; shift = 0; ctrl = 0 }

-- One key is pressed and released, then the time is up.
abbrev two_halts : List Halt
two_halts = record { passed = 0; codes = 38 ∷ 166 ∷ [] } ∷ record { passed = 1; codes = [] } ∷ []

sys_timed_read-IsEnded_example : IsEnded (sys_timed_read two_halts 0 0 (λ n. 0) 10 40 18 no_keys)
sys_timed_read-IsEnded_example =
    sys_timed_read-IsEnded two_halts 0 0 (λ n. 0) 10 40 18 no_keys (omega arith)
