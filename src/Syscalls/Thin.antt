-- ===== src/Syscalls/Thin.antt =====
-- Kernel/syscallManager.c: the calls that pass their arguments on to one function of the kernel.
use s_o.Base.{ℕ, ◌%◌, Bool, true, Option, List, ◌==◌, if◌then◌else◌}
use s_o.MemoryManager.{Manager, Ptr, InfoMem, malloc, free, get_info_mem}
use s_o.Scheduler.Nodes.{Sched, block_process, process_ready, change_priority}
use s_o.Scheduler.Processes.{wait_pid}
use s_o.Scheduler.Switch.{Outcome, kill_process}
use s_o.Scheduler.Creation.{Machine, Added, add_process_blocks}
use s_o.Semaphore.Table.{Table, get_sem_count}
use s_o.Pipe.{Pipe, Answer, Call, pipe_read, pipe_write}
use s_o.Pipe.Table.{Opened, pipe_open, pipe_close}
use s_o.Video.{Screen, clear_screen, fillrect, change_font_size}
use s_o.Video.Text.{print_string_at}

abbrev pub sys_clear_screen : Screen → Screen
sys_clear_screen s = clear_screen s

abbrev pub sys_draw_rectangle : Screen → ℕ → ℕ → ℕ → ℕ → ℕ → Screen
sys_draw_rectangle s x y width height color = fillrect s x y width height color

abbrev pub sys_width_scr : Screen → ℕ
sys_width_scr s = s.width

abbrev pub sys_height_scr : Screen → ℕ
sys_height_scr s = s.height

-- The line becomes a `uint8_t`.
abbrev pub sys_write_at : (ℕ → ℕ) → Screen → ℕ → ℕ → List ℕ → ℕ → Screen
sys_write_at font s x y text color = print_string_at font s x (y % 256) text color

abbrev pub sys_change_font_size : Screen → ℕ → ℕ × Screen
sys_change_font_size s size = change_font_size s size

abbrev pub sys_malloc : ℕ → ℕ → Manager → Option (Ptr × Manager)
sys_malloc fuel mem_size m = malloc fuel mem_size m

abbrev pub sys_free : ℕ → Ptr → Manager → Option Manager
sys_free fuel mem m = free fuel mem m

abbrev pub sys_memory_status : Manager → InfoMem
sys_memory_status m = get_info_mem m

abbrev pub sys_exec : ℕ → List (List ℕ) → ℕ → Bool → Machine → Option Added
sys_exec fuel argv priority fg_flag w = add_process_blocks fuel argv priority fg_flag w

abbrev pub sys_kill_process : ℕ → Sched → ℕ → Outcome
sys_kill_process fuel s pid = kill_process fuel s pid

abbrev pub sys_block_process : ℕ → Sched → ℕ → Option (ℕ × Sched)
sys_block_process fuel s pid = block_process fuel s pid

abbrev pub sys_process_ready : ℕ → Sched → ℕ → Option (ℕ × Sched)
sys_process_ready fuel s pid = process_ready fuel s pid

abbrev pub sys_get_pid : Sched → ℕ
sys_get_pid s = if s.current == 0 then 0 else s.pid (s.proc s.current)

abbrev pub sys_wait_pid : Sched → Sched
sys_wait_pid s = wait_pid s

-- `forceNextSwitch`, up to the interrupt.
abbrev pub sys_yield : Sched → Sched
sys_yield s = record s { force_next = true }

abbrev pub sys_nice : ℕ → Sched → ℕ → ℕ → Option (ℕ × Sched)
sys_nice fuel s priority pid = change_priority fuel s priority pid

abbrev pub sys_sem_count : Table → ℕ
sys_sem_count t = get_sem_count t

abbrev pub sys_pipe_read : ℕ → (ℕ → Pipe) → ℕ → (ℕ → ℕ) → ℕ → Answer
sys_pipe_read pid pipes index buff n = pipe_read pid pipes index buff n

abbrev pub sys_pipe_write : ℕ → (ℕ → Pipe) → ℕ → (ℕ → ℕ) → ℕ → Answer
sys_pipe_write pid pipes index addr n = pipe_write pid pipes index addr n

abbrev pub sys_pipe_close : (ℕ → Pipe) → ℕ → List Call × Option Pipe
sys_pipe_close pipes index = pipe_close pipes index

abbrev pub sys_pipe_open : (ℕ → Pipe) → List ℕ → Opened
sys_pipe_open pipes name = pipe_open pipes name
