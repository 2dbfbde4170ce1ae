-- ===== src/Syscalls/Source.antt =====
-- Kernel/syscallManager.c: where `sys_read` reads from.
use s_o.Base.{ℕ, ◌≤◌, ◌≡◌, ◌↔◌, not, ◌||◌, List, arith, ◌==◌, if◌then◌else◌}
use s_o.Keyboard.Driver.{Keyboard}
use s_o.Keyboard.Reading.{Reading, sys_read}
use s_o.Syscalls.Kernel.{Kernel}
use s_o.Syscalls.Thin.{sys_get_pid}
use s_o.Pipe.{Answer, pipe_read}

-- A call of `pipeRead`, or the loop over the keys; nothing is read from an output.
pub data Source : Type 0 where
  nothing : Source
  pipe : ℕ → Source
  keys : Source

-- `pIsReading`: STDIN is 0, STDOUT is 1 and STDERR is 2.
abbrev pub is_reading : Kernel → ℕ → ℕ
is_reading k fd = if fd == 0 || fd == 1 || fd == 2 then k.fd_read else fd

unfoldable pub read_source : Kernel → ℕ → Source
read_source k fd =
    let source = is_reading k fd in
    if source == 1 || source == 2
    then nothing
    else (if not (source == 0) then pipe source else keys)

pub data ReadEnd : Type 0 where
  from_nothing : ReadEnd
  from_pipe : Answer → ReadEnd
  from_keys : Reading → ReadEnd

-- `halts` are the keys that come at each halt.
abbrev pub read_from : List (List ℕ) → Keyboard → Kernel → (ℕ → ℕ) → ℕ → Source → ReadEnd
read_from halts keyboard k buf count nothing = from_nothing
read_from halts keyboard k buf count (pipe i) =
    from_pipe (pipe_read (sys_get_pid k.machine.sched) k.pipes i buf count)
read_from halts keyboard k buf count keys = from_keys (sys_read halts buf count keyboard)

abbrev pub sys_read_fd : List (List ℕ) → Keyboard → Kernel → ℕ → (ℕ → ℕ) → ℕ → ReadEnd
sys_read_fd halts keyboard k fd buf count = read_from halts keyboard k buf count (read_source k fd)

-- The keys are read where the descriptor is a standard one and the process's input is the keyboard.
pub read_source-keys :
    (k : Kernel) (fd : ℕ) → (read_source k fd ≡ keys) ↔ ((fd ≤ 2) × (k.fd_read ≡ 0))
unfolding read_source
read_source-keys k fd = (ground arith, ground arith)
