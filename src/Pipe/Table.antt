-- ===== src/Pipe/Table.antt =====
-- `pipeOpen` and `pipeClose` of Kernel/pipe.c, and the calls of all processes in a row.
use s_o.Base.{
  ℕ, zero, suc, ◌+◌, ◌-◌, Bool, Option, none, some, List, [], ◌∷◌, ltb, ◌==◌, if◌then◌else◌,
}
use s_o.Semaphore.Table.{same_name}
use s_o.Pipe.{
  initial_fd, clean_data, pipe_buffer_size, max_processes_per_pipe, Pipe, Answer, Call, sem_open,
  sem_close, max_pipes, minus_one, pipe_read, pipe_write,
}

-- The first of the last `left` indices of the table that passes a test.
unfoldable pub first_index : (ℕ → Bool) → ℕ → Option ℕ
first_index test zero = none
first_index test (suc left) =
    let further = first_index test left in
    if test (max_pipes - suc left) then some (max_pipes - suc left) else further

unfoldable pub find_pipe : (ℕ → Pipe) → List ℕ → Option ℕ
unfolding first_index same_name
find_pipe pipes name = first_index (λ i. same_name (pipes i).name name) max_pipes

unfoldable pub next_avail_pipe : (ℕ → Pipe) → Option ℕ
unfolding first_index
next_avail_pipe pipes = first_index (λ i. (pipes i).in_use == 0) max_pipes

-- The copy that `pipeOpen` fills in.
abbrev pub fresh_pipe : Pipe → List ℕ → ℕ → Pipe
fresh_pipe pipe name index = record pipe {
  name = name;
  fd = index + initial_fd;
  initialized = 1;
  in_use = 0;
  pos_read = 0;
  pos_write = 0;
  data_bytes = clean_data pipe.data_bytes pipe_buffer_size;
}

-- What a call comes to: the number returned, the calls, and the copy, which is dropped.
abbrev pub Opened : Type 0
Opened = ℕ × (List Call × Option Pipe)

-- The number returned for a new pipe is that of the table.
unfoldable pub pipe_open : (ℕ → Pipe) → List ℕ → Opened
pipe_open pipes name = elim (find_pipe pipes name) [
  | some i ↦ ((pipes i).fd, ([], none))
  | none ↦ elim (next_avail_pipe pipes) [
    | none ↦ (minus_one, ([], none))
    | some index ↦
        ((pipes index).fd, (sem_open name 1 ∷ [], some (fresh_pipe (pipes index) name index)))
  ]
]

-- The copy that `pipeClose` resets.
abbrev pub closed_pipe : Pipe → Pipe
closed_pipe pipe = record pipe {
  data_bytes = clean_data pipe.data_bytes pipe_buffer_size;
  name = [];
  w_pids = λ i. if ltb i max_processes_per_pipe then minus_one else pipe.w_pids i;
  r_pids = λ i. if ltb i max_processes_per_pipe then minus_one else pipe.r_pids i;
  pos_read = 0;
  pos_write = 0;
  initialized = 0;
}

-- `pipeClose` returns nothing.
unfoldable pub pipe_close : (ℕ → Pipe) → ℕ → List Call × Option Pipe
pipe_close pipes index =
    if (pipes index).initialized == 1
    then (sem_close (pipes index).name ∷ [], some (closed_pipe (pipes index)))
    else ([], none)

-- A call of a process: the pid, and the memory behind `buff`.
pub data Request : Type 0 where
  open_pipe : List ℕ → Request
  close_pipe : ℕ → Request
  read_pipe : ℕ → ℕ → (ℕ → ℕ) → ℕ → Request
  write_pipe : ℕ → ℕ → (ℕ → ℕ) → ℕ → Request

abbrev pub of_answer : Answer → Option ℕ × List Call
of_answer a = (some a.value, a.calls)

-- The number returned, if there is one, and the calls. The table stays as it is.
unfoldable pub serve : (ℕ → Pipe) → Request → Option ℕ × List Call
unfolding pipe_close pipe_read pipe_write
serve pipes (open_pipe name) = (some (pipe_open pipes name).0, (pipe_open pipes name).1.0)
serve pipes (close_pipe index) = (none, (pipe_close pipes index).0)
serve pipes (read_pipe pid index buff n) = of_answer (pipe_read pid pipes index buff n)
serve pipes (write_pipe pid index buff n) = of_answer (pipe_write pid pipes index buff n)
