-- ===== src/Syscalls/Kernel.antt =====
-- Kernel/syscallManager.c: the calls that return at once.
-- The processes' own semaphores, PID_SEM and CHILDREN_SEM, are free at each call.
use s_o.Base.{
  ℕ, ◌*◌, ◌^◌, Bool, true, false, Option, none, some, List, [], ◌∷◌, ◌==◌, if◌then◌else◌, length,
  get_or,
}
use s_o.MemoryManager.{Manager, Ptr, free, malloc}
use s_o.Scheduler.Creation.{Added, Machine, add_process_blocks, added, null_used}
use s_o.Semaphore.Table.{Table, count_from}
use s_o.Syscalls.Thin.{
  sys_change_font_size, sys_clear_screen, sys_draw_rectangle, sys_exec, sys_free, sys_get_pid,
  sys_height_scr, sys_malloc, sys_pipe_close, sys_pipe_open, sys_pipe_read, sys_pipe_write,
  sys_sem_count, sys_width_scr, sys_write_at,
}
use s_o.Syscalls.Names.{sys_sem_open, sys_sem_post, sys_sem_close}
use s_o.Pipe.{Pipe, Answer, Call, sem_open, sem_close, pipe_read, pipe_write}
use s_o.Pipe.Table.{pipe_open, pipe_close}
use s_o.Video.{Screen, change_font_size, fillrect}
use s_o.Video.Text.{print_string, print_string_at}

-- `fd_read` and `fd_write` are those of the running process, which `pRead` and `pWrite` return.
pub record Kernel : Type 0 where
  pub machine : Machine
  pub semaphores : Table
  pub pipes : ℕ → Pipe
  pub screen : Screen
  pub fd_read : ℕ
  pub fd_write : ℕ

-- A text is the list of its bytes before the NUL.
pub data Syscall : Type 0 where
  write : ℕ → List ℕ → ℕ → Syscall
  write_at : ℕ → ℕ → List ℕ → ℕ → Syscall
  clear : Syscall
  draw_rectangle : ℕ → ℕ → ℕ → ℕ → ℕ → Syscall
  font_size : ℕ → Syscall
  width_scr : Syscall
  height_scr : Syscall
  get_memory : ℕ → Syscall
  free_memory : Ptr → Syscall
  exec : List (List ℕ) → ℕ → Bool → Syscall
  get_pid : Syscall
  open_sem : List ℕ → ℕ → Syscall
  post_sem : List ℕ → Syscall
  close_sem : List ℕ → Syscall
  sem_count : Syscall
  open_pipe : List ℕ → Syscall
  close_pipe : ℕ → Syscall
  read_pipe : ℕ → (ℕ → ℕ) → ℕ → Syscall
  write_pipe : ℕ → (ℕ → ℕ) → ℕ → Syscall

-- How a call ends: it returns, with a number where it is no `void`; a pipe goes on with its calls; or
-- a NULL is used as an address.
pub data Ended : Type 0 where
  returned : Option ℕ → Kernel → Ended
  piped : Answer → Kernel → Ended
  broken : Manager → Ended

abbrev pub with_screen : Kernel → Screen → Kernel
with_screen k s = record k { screen = s }

abbrev pub with_heap : Kernel → Manager → Kernel
with_heap k m = record k { machine = record k.machine { heap = m } }

abbrev pub red : ℕ
red = 255 * 2 ^ 16

-- `sys_write`: STDIN is 0, STDOUT is 1 and STDERR is 2. A colour is its bytes, the blue one first.
unfoldable pub sys_write : (ℕ → ℕ) → Kernel → ℕ → List ℕ → ℕ → Ended
unfolding print_string_at pipe_write
sys_write font k fd text color =
    let color' = if fd == 2 then red else color in
    if fd == 0
    then returned (some 0) k
    else if k.fd_write == 1
    then returned (some 0) (with_screen k (print_string font k.screen text color'))
    else piped
        (pipe_write (sys_get_pid k.machine.sched) k.pipes k.fd_write (λ i. get_or text i 0)
          (length text))
        k

-- `pipeOpen` and `pipeClose` do not look at what comes of their calls.
abbrev pub run_call : Table → Call → Table
run_call t (sem_open name value) = (sys_sem_open t name value).1
run_call t (sem_close name) = (sys_sem_close t name).1
run_call t _ = t

unfoldable pub run_calls : Table → List Call → Table
run_calls t [] = t
run_calls t (c ∷ cs) = run_calls (run_call t c) cs

abbrev pub of_sem : Kernel → ℕ × Table → Ended
of_sem k r = returned (some r.0) (record k { semaphores = r.1 })

abbrev pub of_malloc : Kernel → Option (Ptr × Manager) → Option Ended
of_malloc k none = none
of_malloc k (some (ptr, m)) = some (returned (some ptr) (with_heap k m))

abbrev pub of_free : Kernel → Option Manager → Option Ended
of_free k none = none
of_free k (some m) = some (returned none (with_heap k m))

-- "Memory Error"
abbrev pub no_node_text : List ℕ
no_node_text = 77 ∷ 101 ∷ 109 ∷ 111 ∷ 114 ∷ 121 ∷ 32 ∷ 69 ∷ 114 ∷ 114 ∷ 111 ∷ 114 ∷ []

-- `insertNode` writes a message when it finds no room.
abbrev pub told : (ℕ → ℕ) → Screen → Bool → Screen
told font s true = s
told font s false = print_string font s no_node_text red

abbrev pub of_added : (ℕ → ℕ) → Kernel → Option Added → Option Ended
of_added font k none = none
of_added font k (some (added pid linked w)) =
    some (returned (some pid) (record k { machine = w; screen = told font k.screen linked }))
of_added font k (some (null_used m)) = some (broken m)

-- `none` is the fuel used up.
unfoldable pub dispatch : ℕ → (ℕ → ℕ) → Kernel → Syscall → Option Ended
unfolding sys_write print_string_at change_font_size fillrect malloc free add_process_blocks
    pipe_open pipe_close pipe_read pipe_write count_from
dispatch fuel font k (write fd text color) = some (sys_write font k fd text color)
dispatch fuel font k (write_at x y text color) =
    some (returned (some 0) (with_screen k (sys_write_at font k.screen x y text color)))
dispatch fuel font k clear = some (returned (some 0) (with_screen k (sys_clear_screen k.screen)))
dispatch fuel font k (draw_rectangle x y width height color) =
    some (returned (some 0) (with_screen k (sys_draw_rectangle k.screen x y width height color)))
dispatch fuel font k (font_size size) =
    let r = sys_change_font_size k.screen size in some (returned (some r.0) (with_screen k r.1))
dispatch fuel font k width_scr = some (returned (some (sys_width_scr k.screen)) k)
dispatch fuel font k height_scr = some (returned (some (sys_height_scr k.screen)) k)
dispatch fuel font k (get_memory size) = of_malloc k (sys_malloc fuel size k.machine.heap)
dispatch fuel font k (free_memory ptr) = of_free k (sys_free fuel ptr k.machine.heap)
dispatch fuel font k (exec argv priority fg_flag) =
    of_added font k (sys_exec fuel argv priority fg_flag k.machine)
dispatch fuel font k get_pid = some (returned (some (sys_get_pid k.machine.sched)) k)
dispatch fuel font k (open_sem name value) = some (of_sem k (sys_sem_open k.semaphores name value))
dispatch fuel font k (post_sem name) = some (of_sem k (sys_sem_post k.semaphores name))
dispatch fuel font k (close_sem name) = some (of_sem k (sys_sem_close k.semaphores name))
dispatch fuel font k sem_count = some (returned (some (sys_sem_count k.semaphores)) k)
dispatch fuel font k (open_pipe name) =
    let r = sys_pipe_open k.pipes name in
    some (returned (some r.0) (record k { semaphores = run_calls k.semaphores r.1.0 }))
dispatch fuel font k (close_pipe index) =
    let r = sys_pipe_close k.pipes index in
    some (returned none (record k { semaphores = run_calls k.semaphores r.0 }))
dispatch fuel font k (read_pipe index buff n) =
    some (piped (sys_pipe_read (sys_get_pid k.machine.sched) k.pipes index buff n) k)
dispatch fuel font k (write_pipe index addr n) =
    some (piped (sys_pipe_write (sys_get_pid k.machine.sched) k.pipes index addr n) k)

-- Calls in a row; a pipe's further calls of the scheduler and of the semaphores wait, and its caller
-- with them.
unfoldable pub dispatch_all : ℕ → (ℕ → ℕ) → Kernel → List Syscall → Option Ended
unfolding dispatch
dispatch_all fuel font k [] = some (returned none k)
dispatch_all fuel font k (c ∷ cs) = elim (dispatch fuel font k c) [
  | none ↦ none
  | some (returned value k') ↦ dispatch_all fuel font k' cs
  | some (piped answer k') ↦ dispatch_all fuel font k' cs
  | some (broken m) ↦ some (broken m)
]
