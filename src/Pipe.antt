-- ===== src/Pipe.antt =====
-- Kernel/pipe.c: the table of pipes.
-- The functions work on a copy of `pipes[index]`, the variable `pipe`: what they store is in the copy,
-- which they drop. The map of the pipes goes on behind the 50 entries of the table, for what lies
-- behind the array; no index is tested in the code. An `int` below 0 is its 32-bit pattern, a `char` its byte, a name the list of its
-- bytes. The calls of the scheduler and of the semaphores are listed in their order.
pub mod Table
pub mod Boot
pub mod Data
mod Tests
use s_o.Base.{
  ℕ, zero, suc, ◌+◌, ◌-◌, ◌%◌, ◌^◌, not, ◌&&◌, ◌||◌, List, [], ◌∷◌, ◌++◌, ltb, ◌==◌, if◌then◌else◌,
  update,
}

abbrev pub max_pipes : ℕ
max_pipes = 50

abbrev pub pipe_buffer_size : ℕ
pipe_buffer_size = 3000

abbrev pub max_processes_per_pipe : ℕ
max_processes_per_pipe = 10

abbrev pub initial_fd : ℕ
initial_fd = 3

abbrev pub minus_one : ℕ
minus_one = 2 ^ 32 - 1

-- `pipe_t`
pub record Pipe : Type 0 where
  pub name : List ℕ
  pub initialized : ℕ
  pub in_use : ℕ
  pub fd : ℕ
  pub data_bytes : ℕ → ℕ
  pub r_pids : ℕ → ℕ
  pub w_pids : ℕ → ℕ
  pub pos_read : ℕ
  pub pos_write : ℕ

pub data Call : Type 0 where
  block_process : ℕ → Call
  process_ready : ℕ → Call
  sem_open : List ℕ → ℕ → Call
  sem_wait : List ℕ → Call
  sem_post : List ℕ → Call
  sem_close : List ℕ → Call

-- The loop of `blockProcPipe`, over the last `left` entries, with what comes behind it.
abbrev pub block_loop : ℕ → (ℕ → ℕ) → ℕ → (ℕ → ℕ) × List Call
block_loop zero processes pid = (processes, [])
block_loop (suc left) processes pid =
    let index = max_processes_per_pipe - suc left in
    let further = block_loop left processes pid in
    if processes index == 0
    then (update processes index pid, block_process pid ∷ [])
    else if processes index == pid
    then (processes, block_process pid ∷ [])
    else further

abbrev pub block_proc_pipe : (ℕ → ℕ) → ℕ → (ℕ → ℕ) × List Call
block_proc_pipe processes pid = block_loop max_processes_per_pipe processes pid

-- The loop of `freeProcPipe`.
abbrev pub free_loop : ℕ → (ℕ → ℕ) → ℕ → (ℕ → ℕ) × List Call
free_loop zero processes pid = (processes, [])
free_loop (suc left) processes pid =
    let index = max_processes_per_pipe - suc left in
    let further = free_loop left processes pid in
    if processes index == pid
    then (update processes index minus_one, process_ready pid ∷ [])
    else further

abbrev pub free_proc_pipe : (ℕ → ℕ) → ℕ → (ℕ → ℕ) × List Call
free_proc_pipe processes pid = free_loop max_processes_per_pipe processes pid

-- `cleanData`
abbrev pub clean_data : (ℕ → ℕ) → ℕ → ℕ → ℕ
clean_data data_ len i = if ltb i len then 0 else data_ i

-- What a call comes to: the number returned, the caller's memory behind `buff`, and the calls.
pub record Answer : Type 0 where
  pub value : ℕ
  pub buff : ℕ → ℕ
  pub calls : List Call

-- The loop of `pipeRead`: `i`, the copy and the memory behind it. At most `n - 1` rounds.
unfoldable pub read_chars : ℕ → ℕ → Pipe → (ℕ → ℕ) → ℕ × (Pipe × (ℕ → ℕ))
unfolding update
read_chars zero i pipe buff = (i, (pipe, buff))
read_chars (suc rounds) i pipe buff =
    let c = pipe.data_bytes (pipe.pos_read % pipe_buffer_size) in
    let further =
      read_chars rounds (i + 1) (record pipe { pos_read = pipe.pos_read + 1 }) (update buff i c) in
    if not (c == 255) && not (pipe.pos_read + 1 == pipe.pos_write)
    then further
    else (i, (pipe, buff))

-- The last character, and the NUL.
abbrev pub read_end : ℕ × (Pipe × (ℕ → ℕ)) → ℕ × (ℕ → ℕ)
read_end (i, (pipe, buff)) =
    if pipe.pos_read + 1 == pipe.pos_write
    then (i, update (update buff i (pipe.data_bytes (pipe.pos_read % pipe_buffer_size))) (i + 1) 0)
    else (i, update buff i 0)

unfoldable pub pipe_read : ℕ → (ℕ → Pipe) → ℕ → (ℕ → ℕ) → ℕ → Answer
unfolding read_chars
pipe_read pid pipes index buff n =
    let pipe = pipes index in
    if pipe.initialized == 0
    then record { value = minus_one; buff = buff; calls = [] }
    else (let got = read_end (read_chars (n - 1) 0 pipe buff) in
        record {
          value = got.0;
          buff = got.1;
          calls =
              (block_proc_pipe pipe.r_pids pid).1
              ++ sem_wait pipe.name ∷ (free_proc_pipe pipe.w_pids pid).1
              ++ sem_post pipe.name ∷ [];
        })

-- The loop of `pipeWrite`: `i` and the copy.
unfoldable pub write_chars : ℕ → ℕ → Pipe → (ℕ → ℕ) → ℕ × Pipe
unfolding update
write_chars zero i pipe buff = (i, pipe)
write_chars (suc rounds) i pipe buff =
    let further =
      write_chars rounds (i + 1)
        (record pipe {
          data_bytes = update pipe.data_bytes (pipe.pos_write % pipe_buffer_size) (buff i);
          pos_write = pipe.pos_write + 1;
        })
        buff in
    if not (buff i == 0) && not (pipe.pos_write == pipe.pos_read + 1) then further else (i, pipe)

-- The sentinel goes to the copy, which is dropped then.
unfoldable pub pipe_write : ℕ → (ℕ → Pipe) → ℕ → (ℕ → ℕ) → ℕ → Answer
unfolding write_chars
pipe_write pid pipes index buff n =
    let pipe = pipes index in
    if pipe.initialized == 0 || n == 0
    then record { value = minus_one; buff = buff; calls = [] }
    else (let blocked = block_proc_pipe pipe.w_pids pid in
        record {
          value = (write_chars n 0 pipe buff).0;
          buff = buff;
          calls =
              blocked.1
              ++ sem_wait pipe.name ∷ (free_proc_pipe blocked.0 pid).1
              ++ sem_post pipe.name ∷ [];
        })
