-- ===== src/Scheduler/Processes.antt =====
-- Kernel/process.c: the record of a new process, and waiting for the children.
use s_o.Base.{ℕ, ◌+◌, ◌-◌, ◌*◌, ◌||◌, ltb, ◌==◌, if◌then◌else◌, update, add64}
use s_o.Scheduler.Nodes.{Sched, blocked, new, set_state}

-- `sizeof(stackFrame)`: 21 words.
abbrev pub frame_size : ℕ
frame_size = 21 * 8

abbrev pub stack_size : ℕ
stack_size = 4000

-- `createProcess` with the two addresses that `malloc` gave: the process, or NULL. The name, the
-- arguments, the stack's contents and the descriptors are left out.
unfoldable pub create_process : Sched → ℕ → ℕ → ℕ → ℕ × Sched
unfolding update
create_process s p stack priority = if p == 0 || stack == 0 then (0, s) else (
  p,
  record s {
    state = update s.state p new;
    children = update s.children p 0;
    priority = update s.priority p priority;
    pid = update s.pid p s.current_pid;
    current_pid = add64 s.current_pid 1;
    parent_pid = update s.parent_pid p (running_pid s);
    sp = update s.sp p (stack + stack_size - frame_size);
  },
)
  where
    -- `getCurrentPID`, once the new pid is written
    running_pid : Sched → ℕ
    running_pid s' =
        if s'.current == 0 then 0 else update s'.pid p s'.current_pid (s'.proc s'.current)

-- `blockCurrentProcess` up to the interrupt, and `wait_pid` of Kernel/process.c.
abbrev pub block_current : Sched → Sched
block_current s = set_state s s.current blocked

unfoldable pub wait_pid : Sched → Sched
unfolding update
wait_pid s = if ltb 0 (s.children (s.proc s.current)) then block_current s else s
