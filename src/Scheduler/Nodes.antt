-- ===== src/Scheduler/Nodes.antt =====
-- Kernel/scheduler.c: the ring of nodes, and the operations on it.
use s_o.Base.{
  ℕ, zero, suc, ◌-◌, ◌^◌, Bool, true, false, Option, none, some, List, ◌∷◌, ◌==◌, if◌then◌else◌,
  update, add64, sub64,
}

pub data ProcState : Type 0 where
  ready : ProcState
  running : ProcState
  blocked : ProcState
  new : ProcState
  killed : ProcState

abbrev pub quantum_max : ℕ
quantum_max = 5

-- `(uint64_t) -1`
abbrev pub no_pid : ℕ
no_pid = 2 ^ 64 - 1

-- The fields of `node`, then those of `process`, then the variables of the file, `current_pid` of
-- Kernel/process.c, and the nodes and processes that were given to `free`.
pub record Sched : Type 0 where
  pub quantums : ℕ → ℕ
  pub proc : ℕ → ℕ
  pub next : ℕ → ℕ
  pub state : ℕ → ProcState
  pub pid : ℕ → ℕ
  pub priority : ℕ → ℕ
  pub children : ℕ → ℕ
  pub parent_pid : ℕ → ℕ
  pub sp : ℕ → ℕ
  pub root : ℕ
  pub current : ℕ
  pub foreground : ℕ
  pub background : ℕ
  pub force_next : Bool
  pub pending_disables : ℕ
  pub node_count : ℕ
  pub current_pid : ℕ
  pub freed_nodes : List ℕ
  pub freed_procs : List ℕ

abbrev pub state_at : Sched → ℕ → ProcState
state_at s n = s.state (s.proc n)

abbrev pub set_state : Sched → ℕ → ProcState → Sched
set_state s n st = record s { state = update s.state (s.proc n) st }

-- `state == READY || state == NEW`
abbrev pub is_waiting : ProcState → Bool
is_waiting ready = true
is_waiting new = true
is_waiting _ = false

unfoldable pub find_next : ℕ → Sched → ℕ → Option ℕ
find_next zero s candidate = none
find_next (suc fuel) s candidate =
    let rest = find_next fuel s (s.next candidate) in
    if is_waiting (state_at s candidate) then some candidate else rest

-- `currentNode = ...; state = RUNNING; quantums = priority`
unfoldable pub run_node : Sched → ℕ → Sched
unfolding update
run_node s n = record s {
  current = n;
  state = update s.state (s.proc n) running;
  quantums = update s.quantums n (s.priority (s.proc n));
}

unfoldable pub run_next : ℕ → Sched → ℕ → Option Sched
unfolding find_next run_node
run_next fuel s from = elim (find_next fuel s from) [ none ↦ none | some n ↦ some (run_node s n) ]

-- The loop of `findNode` from `aux` on; the result 0 is NULL.
unfoldable pub find_loop : ℕ → Sched → ℕ → ℕ → Option ℕ
find_loop zero s pid aux = none
find_loop (suc fuel) s pid aux =
    let rest = find_loop fuel s pid (s.next aux) in
    if aux == s.root then some 0 else (if s.pid (s.proc aux) == pid then some aux else rest)

unfoldable pub find_node : ℕ → Sched → ℕ → Option ℕ
unfolding find_loop
find_node fuel s pid =
    if s.pid (s.proc s.root) == pid then some s.root else find_loop fuel s pid (s.next s.root)

-- A write to the process found: `if (aux != NULL) ...`
unfoldable pub with_node : ℕ → Sched → ℕ → (ℕ → Sched) → Option (ℕ × Sched)
unfolding find_node
with_node fuel s pid write = elim (find_node fuel s pid) [
  | none ↦ none
  | some aux ↦ if aux == 0 then some (no_pid, s) else some (s.pid (s.proc aux), write aux)
]

unfoldable pub process_ready : ℕ → Sched → ℕ → Option (ℕ × Sched)
unfolding with_node update
process_ready fuel s pid = with_node fuel s pid (λ n. set_state s n ready)

unfoldable pub change_priority : ℕ → Sched → ℕ → ℕ → Option (ℕ × Sched)
unfolding with_node update
change_priority fuel s priority pid =
    with_node fuel s pid (λ n. record s { priority = update s.priority (s.proc n) priority })

-- The state when `blockProcess` raises the scheduler's interrupt.
unfoldable pub block_process : ℕ → Sched → ℕ → Option (ℕ × Sched)
unfolding with_node update
block_process fuel s pid = with_node fuel s pid (λ n. set_state s n blocked)

-- `insertNode` at the address that `malloc` gave.
unfoldable pub insert_node : Sched → ℕ → ℕ → Sched
unfolding update
insert_node s node process = record s {
  proc = update s.proc node process;
  quantums = update s.quantums node (s.priority process);
  next = update (update s.next node (s.next s.current)) s.current node;
}

-- `addProcess`, once `createProcess` has made the process at `process`, with its fields filled in,
-- and `malloc` has given `node`. Between the disabling and the enabling of the scheduler nothing
-- else runs.
unfoldable pub add_process : Sched → ℕ → ℕ → Bool → Sched
unfolding insert_node update
add_process s node process fg_flag =
    let s1 = record s {
      children = update s.children (s.proc s.current) (add64 (s.children (s.proc s.current)) 1);
    } in
    let s2 = insert_node s1 node process in
    let s3 = if fg_flag then to_front s2 else s2 in record s3 { node_count = add64 s3.node_count 1 }
  where
    to_front : Sched → Sched
    to_front s' = record s' {
      background = if s'.background == 0 then s'.foreground else s'.background;
      foreground = node;
    }

-- `--parent->p->children`
abbrev pub drop_child : Sched → ℕ → Sched
drop_child s parent = record s {
  children = update s.children (s.proc parent) (sub64 (s.children (s.proc parent)) 1);
}

-- `freeProcess`, and the node behind `n` moves into `n`.
unfoldable pub unlink : Sched → ℕ → Sched
unfolding update
unlink s n =
    let behind = s.next n in
    record s {
      node_count = sub64 s.node_count 1;
      current_pid = sub64 s.current_pid 1;
      freed_procs = s.proc n ∷ s.freed_procs;
      proc = update s.proc n (s.proc behind);
      next = update s.next n (s.next behind);
      root = if s.pid (s.proc behind) == 0 then n else s.root;
      freed_nodes = behind ∷ s.freed_nodes;
    }

-- What `removeNode` does once the parent of the current process is found.
unfoldable pub remove_child : ℕ → Sched → ℕ → ℕ → Option Sched
unfolding process_ready unlink update
remove_child fuel s n parent =
    let s1 = drop_child s parent in
    if s1.children (s1.proc parent) == 0
    then elim (process_ready fuel s1 (s1.pid (s1.proc parent))) [
      | none ↦ none
      | some r ↦ some (unlink r.1 n)
    ]
    else some (unlink s1 n)

unfoldable pub remove_node : ℕ → Sched → ℕ → Option Sched
unfolding find_node remove_child
remove_node fuel s n = elim (find_node fuel s (s.parent_pid (s.proc s.current))) [
  | none ↦ none
  | some parent ↦ if parent == 0 then some s else remove_child fuel s n parent
]
