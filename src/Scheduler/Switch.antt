-- ===== src/Scheduler/Switch.antt =====
-- Kernel/scheduler.c: killing, and the choice of the process that runs.
use s_o.Base.{
  ℕ, false, ◌&&◌, ◌||◌, Option, none, some, ltb, ◌==◌, if◌then◌else◌, update, add64, sub64,
}
use s_o.Scheduler.Nodes.{
  Sched, blocked, find_node, killed, no_pid, quantum_max, ready, remove_node, run_next, running,
  set_state, state_at,
}

-- What a call comes to: it returns; or it raises the scheduler's interrupt for a killed process,
-- and nothing behind that runs; or the fuel is used up.
pub data Outcome : Type 0 where
  returned : Sched → Outcome
  raised : Sched → Outcome
  stopped : Outcome

abbrev pub of_option : Option Sched → Outcome
of_option none = stopped
of_option (some s) = returned s

-- The part of `killProcess` for a process that does not run, with what it returns.
unfoldable pub kill_other : ℕ → Sched → ℕ → Option (ℕ × Sched)
unfolding find_node remove_node update
kill_other fuel s pid = elim (find_node fuel s pid) [
  | none ↦ none
  | some aux ↦
      if aux == 0 then some (no_pid, s) else elim (remove_node fuel (set_state s aux killed) aux) [
        | none ↦ none
        | some s' ↦ some (s.pid (s.proc aux), s')
      ]
]

abbrev pub after_kill : Option (ℕ × Sched) → Outcome
after_kill none = stopped
after_kill (some (_, s)) = returned s

unfoldable pub kill_process : ℕ → Sched → ℕ → Outcome
unfolding kill_other update
kill_process fuel s pid =
    if s.pid (s.proc s.current) == pid
    then raised (set_state s s.current killed)
    else after_kill (kill_other fuel s pid)

unfoldable pub kill_fground : ℕ → Sched → Outcome
unfolding kill_process update
kill_fground fuel s =
    if s.background == 0
    then returned s
    else kill_process fuel (record (waken s) { foreground = s.background; background = 0 })
        (s.pid (s.proc s.foreground))
  where
    waken : Sched → Sched
    waken s' = elim (state_at s' s'.background) [
      | blocked ↦ set_state s' s'.background ready
      | _ ↦ s'
    ]

-- The end of `schedule`: a blocked process gives way, and one whose quantum is used up.
unfoldable pub give_way : ℕ → Sched → Option Sched
unfolding run_next update
give_way fuel s = elim (state_at s s.current) [
  | blocked ↦ run_next fuel s (s.next s.current)
  | _ ↦
      if ltb quantum_max (s.quantums s.current) || s.force_next
      then run_next fuel (record (set_state s s.current ready) { force_next = false })
          (s.next s.current)
      else some s
]

-- `schedule` for a process that was killed.
unfoldable pub bury : ℕ → Sched → Outcome
unfolding kill_fground remove_node run_next
bury fuel s =
    elim (if s.proc s.current == s.proc s.foreground
      then kill_fground fuel s
      else of_option (remove_node fuel s s.current)) [
        | returned s' ↦ of_option (run_next fuel s' s'.current)
        | raised s' ↦ raised s'
        | stopped ↦ stopped
      ]

unfoldable pub schedule_on : ℕ → Sched → Outcome
unfolding give_way bury update
schedule_on fuel s = elim (state_at s s.current) [
  | running ↦ of_option (
      give_way fuel
        (record s { quantums = update s.quantums s.current (add64 (s.quantums s.current) 1) }))
  | killed ↦ bury fuel s
  | _ ↦ of_option (give_way fuel s)
]

-- The state after `schedule(SP)`.
unfoldable pub schedule : ℕ → Sched → ℕ → Outcome
unfolding schedule_on update
schedule fuel s stack =
    if s.pending_disables == 0
    then (if s.node_count == 1
        then returned s
        else schedule_on fuel (record s { sp = update s.sp (s.proc s.current) stack }))
    else returned s

unfoldable pub disable_scheduler : Sched → Sched
disable_scheduler s = record s { pending_disables = add64 s.pending_disables 1 }

unfoldable pub enable_scheduler : Sched → Sched
enable_scheduler s =
    if ltb 0 s.pending_disables
    then record s { pending_disables = sub64 s.pending_disables 1 }
    else s

-- The stack pointer that `schedule(SP)` returns where it leaves the state `after`.
abbrev pub resume_sp : Sched → ℕ → Sched → ℕ
resume_sp s stack after =
    if s.pending_disables == 0 && s.node_count == 1
    then stack
    else after.sp (after.proc after.current)
