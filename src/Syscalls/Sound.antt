-- ===== src/Syscalls/Sound.antt =====
-- What the system calls keep of the kernel's state.
use s_o.Base.{
  ℕ, suc, ◌+◌, ◌*◌, ◌%◌, ◌^◌, ◌≤◌, ◌<◌, ◌≡◌, refl, Bool, true, false, Option, some, List, [], ◌∷◌,
  arith, ◌==◌, if◌then◌else◌, length,
}
use s_o.MemoryManager.{malloc, free}
use s_o.MemoryManager.Client.{IsHeap}
use s_o.Scheduler.Creation.{Added, add_process_blocks, added, null_used}
use s_o.Scheduler.Heap.{heap_of_added, free-Ends, weaken, malloc-Ends}
use s_o.Scheduler.Blocks.{add_process_blocks-Ends}
use s_o.Semaphore.Names.{Distinct}
use s_o.Pipe.{
  max_pipes, Call, block_process, process_ready, sem_open, sem_wait, sem_post, sem_close,
}
use s_o.Pipe.Table.{pipe_open, pipe_close}
use s_o.Video.{Screen, clear_screen, fillrect, change_font_size}
use s_o.Video.Text.{print_string, print_string_at}
use s_o.Syscalls.Names.{sys_sem_open, sys_sem_close, Table}
use s_o.Syscalls.Tables.{sem_close-Distinct, sem_open-Distinct, sem_post-Distinct}
use s_o.Syscalls.Display.{
  Shows, cleared-Shows, filled-Shows, placed_fits, printed-Shows, resized-Shows,
}
use s_o.Syscalls.Kernel.{
  Ended, Kernel, Syscall, broken, exec, free_memory, get_memory, piped, returned, write_at,
  run_calls, of_added, of_free, of_malloc, sys_write, with_screen, clear, close_pipe, close_sem,
  draw_rectangle, font_size, get_pid, height_scr, open_pipe, open_sem, post_sem, read_pipe, red,
  sem_count, dispatch, width_scr, write, write_pipe, no_node_text,
}

pub record IsSound (lo hi height count : ℕ) (k : Kernel) : Type 0 where
  pub heap : IsHeap lo hi k.machine.heap count
  pub names : Distinct k.semaphores
  pub shows : Shows height k.screen
  pub output : k.fd_write < max_pipes

-- How many blocks a call can add.
abbrev pub cost : Syscall → ℕ
cost (get_memory _) = 1
cost (free_memory _) = 1
cost (exec argv _ _) = 2 * length argv + 5
cost _ = 0

abbrev pub cost_all : List Syscall → ℕ
cost_all [] = 0
cost_all (c ∷ cs) = cost c + cost_all cs

-- `sys_writeAt` moves the cursor's line: three lines of the largest font fit on the screen for each. A
-- pipe is given by an index of the table.
abbrev pub IsPlaced : ℕ → Syscall → Type 0
IsPlaced height (write_at x y text color) = (y % 256 + 1) * 48 ≤ height
IsPlaced height (close_pipe index) = index < max_pipes
IsPlaced height (read_pipe index addr n) = index < max_pipes
IsPlaced height (write_pipe index addr n) = index < max_pipes
IsPlaced height _ = Unit

abbrev pub IsKept : ℕ → ℕ → ℕ → ℕ → Ended → Type 0
IsKept lo hi height count (returned value k) = IsSound lo hi height count k
IsKept lo hi height count (piped answer k) = IsSound lo hi height count k
IsKept lo hi height count (broken m) = IsHeap lo hi m count

run_calls-Distinct : (t : Table) (cs : List Call) → Distinct t → Distinct (run_calls t cs)
unfolding run_calls
run_calls-Distinct t [] d = d
run_calls-Distinct t (sem_open name v ∷ cs) d =
    run_calls-Distinct (sys_sem_open t name v).1 cs (sem_open-Distinct t name v d)
run_calls-Distinct t (sem_close name ∷ cs) d =
    run_calls-Distinct (sys_sem_close t name).1 cs (sem_close-Distinct t name d)
run_calls-Distinct t (block_process _ ∷ cs) d = run_calls-Distinct t cs d
run_calls-Distinct t (process_ready _ ∷ cs) d = run_calls-Distinct t cs d
run_calls-Distinct t (sem_wait _ ∷ cs) d = run_calls-Distinct t cs d
run_calls-Distinct t (sem_post _ ∷ cs) d = run_calls-Distinct t cs d

module _ (lo hi height fuel count : ℕ) (font : ℕ → ℕ) (k : Kernel) (bound : hi < 2 ^ 63)
    (tall : 48 ≤ height) (h : IsSound lo hi height count k) where
  abbrev pub Serves : ℕ → Option Ended → Type 0
  Serves added_blocks result =
      (e : Ended) × (result ≡ some e) × IsKept lo hi height (count + added_blocks) e

  pub stays : IsSound lo hi height (count + 0) k
  stays = record {
    heap = weaken lo hi count (count + 0) k.machine.heap (omega arith) h.heap;
    names = h.names;
    shows = h.shows;
    output = h.output;
  }

  shown : (s : Screen) → Shows height s → IsSound lo hi height (count + 0) (with_screen k s)
  shown s d = record { heap = stays.heap; names = h.names; shows = d; output = h.output }

  tabled : (t : Table) → Distinct t → IsSound lo hi height (count + 0) (record k { semaphores = t })
  tabled t d = record { heap = stays.heap; names = d; shows = h.shows; output = h.output }

  either :
      (e e' : Ended) (b : Bool)
      → IsKept lo hi height (count + 0) e
      → IsKept lo hi height (count + 0) e'
      → IsKept lo hi height (count + 0) (if b then e else e')
  either e e' true p q = p
  either e e' false p q = q

  write-IsKept :
      (fd : ℕ) (text : List ℕ) (color : ℕ)
      → IsKept lo hi height (count + 0) (sys_write font k fd text color)
  unfolding sys_write
  write-IsKept fd text color =
      let color' = if fd == 2 then red else color in
      let line =
        printed-Shows font height k.screen (k.screen.pos_x % 2 ^ 16) k.screen.y_char text color'
          h.shows.line_fits h.shows in
      either (returned (some 0) k) _ (fd == 0) stays (
        either (returned (some 0) (with_screen k (print_string font k.screen text color'))) _
          (k.fd_write == 1) (shown (print_string font k.screen text color') line) stays)

  malloc-Serves : (n : ℕ) → count < fuel → Serves 1 (of_malloc k (malloc fuel n k.machine.heap))
  malloc-Serves n enough =
      let (r, e, h1) = malloc-Ends lo hi fuel bound count n k.machine.heap enough h.heap in
      rw e (
        _,
        refl,
        record {
          heap = weaken lo hi (suc count) (count + 1) r.1 (omega arith) h1;
          names = h.names;
          shows = h.shows;
          output = h.output;
        },
      )

  free-Serves : (p : ℕ) → count < fuel → Serves 1 (of_free k (free fuel p k.machine.heap))
  free-Serves p enough =
      let (m, e, h1) = free-Ends lo hi fuel bound count p k.machine.heap enough h.heap in
      rw e (
        _,
        refl,
        record {
          heap = weaken lo hi (suc count) (count + 1) m (omega arith) h1;
          names = h.names;
          shows = h.shows;
          output = h.output;
        },
      )

  added-IsKept :
      (r : Added) (total : ℕ)
      → IsHeap lo hi (heap_of_added r) (count + total)
      → Serves total (of_added font k (some r))
  added-IsKept (added pid true w) total g =
      (_, refl, record { heap = g; names = h.names; shows = h.shows; output = h.output })
  added-IsKept (added pid false w) total g = (
    _,
    refl,
    record {
      heap = g;
      names = h.names;
      shows =
          printed-Shows font height k.screen (k.screen.pos_x % 2 ^ 16) k.screen.y_char no_node_text
            red h.shows.line_fits h.shows;
      output = h.output;
    },
  )
  added-IsKept (null_used m) total g = (_, refl, g)

  exec-Serves :
      (argv : List (List ℕ)) (priority : ℕ) (fg_flag : Bool)
      → count + (2 * length argv + 5) ≤ fuel
      → Serves
          (2 * length argv + 5)
          (of_added font k (add_process_blocks fuel argv priority fg_flag k.machine))
  exec-Serves argv priority fg_flag enough =
      let (r, e, g) =
        add_process_blocks-Ends lo hi fuel count argv priority fg_flag k.machine bound
          (omega (arith, enough)) h.heap in
      rw e (
        added-IsKept r (2 * length argv + 5) (
          weaken lo hi (count + 2 * length argv + 5) (count + (2 * length argv + 5))
            (heap_of_added r) (omega arith) g))

  pub dispatch-Sound :
      (c : Syscall)
      → count + cost c ≤ fuel
      → IsPlaced height c
      → Serves (cost c) (dispatch fuel font k c)
  unfolding dispatch
  dispatch-Sound (write fd text color) enough placed = (_, refl, write-IsKept fd text color)
  dispatch-Sound (write_at x y text color) enough placed = (
    _,
    refl,
    shown (print_string_at font k.screen x (y % 256) text color) (
        printed-Shows font height k.screen x (y % 256) text color
          (placed_fits (y % 256) k.screen.font_size height h.shows.allowed_size placed) h.shows),
  )
  dispatch-Sound clear enough placed = (
    _,
    refl,
    shown (clear_screen k.screen)
        (cleared-Shows height k.screen tall h.shows.same_height h.shows.allowed_size),
  )
  dispatch-Sound (draw_rectangle x y w l color) enough placed = (
    _,
    refl,
    shown (fillrect k.screen x y w l color) (filled-Shows height k.screen x y w l color h.shows),
  )
  dispatch-Sound (font_size size) enough placed = (
    _,
    refl,
    shown (change_font_size k.screen size).1 (resized-Shows height k.screen size tall h.shows),
  )
  dispatch-Sound width_scr enough placed = (_, refl, stays)
  dispatch-Sound height_scr enough placed = (_, refl, stays)
  dispatch-Sound (get_memory n) enough placed = malloc-Serves n (omega (arith, enough))
  dispatch-Sound (free_memory p) enough placed = free-Serves p (omega (arith, enough))
  dispatch-Sound (exec argv priority fg_flag) enough placed =
      exec-Serves argv priority fg_flag enough
  dispatch-Sound get_pid enough placed = (_, refl, stays)
  dispatch-Sound (open_sem name v) enough placed =
      (_, refl, tabled _ (sem_open-Distinct k.semaphores name v h.names))
  dispatch-Sound (post_sem name) enough placed =
      (_, refl, tabled _ (sem_post-Distinct k.semaphores name h.names))
  dispatch-Sound (close_sem name) enough placed =
      (_, refl, tabled _ (sem_close-Distinct k.semaphores name h.names))
  dispatch-Sound sem_count enough placed = (_, refl, stays)
  dispatch-Sound (open_pipe name) enough placed =
      (_, refl, tabled _ (run_calls-Distinct k.semaphores (pipe_open k.pipes name).1.0 h.names))
  dispatch-Sound (close_pipe index) enough placed =
      (_, refl, tabled _ (run_calls-Distinct k.semaphores (pipe_close k.pipes index).0 h.names))
  dispatch-Sound (read_pipe index buff n) enough placed = (_, refl, stays)
  dispatch-Sound (write_pipe index addr n) enough placed = (_, refl, stays)
