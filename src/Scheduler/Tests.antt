-- ===== src/Scheduler/Tests.antt =====
-- A ring of three processes: the idle process at node 10, a shell at 20 and its child at 30. The
-- process of node `n` lies at `n + 1`, and its pid is the node's number over 10, less 1.
use s_o.Base.{
  ℕ, ◌+◌, ◌-◌, ◌/◌, ◌≤◌, ◌≡◌, refl, false, some, [], ◌∷◌, map, arith, ◌==◌, if◌then◌else◌,
}
use s_o.Scheduler.Nodes.{Sched, ProcState, blocked, find_loop, find_node, ready, running, state_at}
use s_o.Scheduler.Removal.{kill_process-Ring}
use s_o.Scheduler.Turns.{all_yield-turn, all_yield}
use s_o.Scheduler.Switch.{kill_process, returned}
use s_o.Scheduler.Ring.{Chain}

abbrev three : (ℕ → ProcState) → ℕ → Sched
three states current = record {
  quantums = λ _. 5;
  proc = λ n. if n == 10 then 11 else (if n == 20 then 21 else (if n == 30 then 31 else 0));
  next = λ n. if n == 10 then 20 else (if n == 20 then 30 else 10);
  state = states;
  pid = λ p. p / 10 - 1;
  priority = λ _. 2;
  children = λ _. 1;
  parent_pid = λ _. 0;
  sp = λ _. 0;
  root = 10;
  current = current;
  foreground = 20;
  background = 0;
  force_next = false;
  pending_disables = 0;
  node_count = 3;
  current_pid = 3;
  freed_nodes = [];
  freed_procs = [];
}

-- The shell runs, its child is blocked, the idle process is ready.
abbrev shell_runs : ℕ → ProcState
shell_runs p = if p == 21 then running else (if p == 31 then blocked else ready)

abbrev shell_blocked : ℕ → ProcState
shell_blocked p = if p == 11 then ready else blocked

all_yield-turn_example :
    (n : ℕ) × (t : Sched) × (n ≤ 1 + 1)
    × (all_yield 3 n (λ _. 99) (three shell_runs 20) ≡ some t)
    × (t.current ≡ 10)
    × (state_at t 10 ≡ running)
all_yield-turn_example =
    all_yield-turn 1 3 (λ _. 99) (three shell_runs 20) 10 (omega arith) (refl, omega arith) refl
      (λ n e. ground (arith, e)) refl refl

-- The shell kills its child, at node 30; the node behind it, 10, is freed.
kill_process-Ring_example :
    (t : Sched) × (kill_process 4 (three shell_runs 20) 2 ≡ returned t)
    × Chain t.next 30 (30 ∷ 20 ∷ []) 30
    × (map t.proc (30 ∷ 20 ∷ []) ≡ map (three shell_runs 20).proc (10 ∷ 20 ∷ []))
    × (t.freed_nodes ≡ 10 ∷ [])
    × (t.current ≡ 20)
unfolding find_node find_loop
kill_process-Ring_example =
    kill_process-Ring 4 (three shell_runs 20) 2 30 10 10 (20 ∷ []) (omega arith) refl (omega arith)
      refl (omega arith) (omega arith) (omega arith)
