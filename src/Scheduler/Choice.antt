-- ===== src/Scheduler/Choice.antt =====
-- The choice of `schedule`: the first waiting process behind the current one.
use s_o.Base.{
  ℕ, zero, suc, ◌≤◌, ◌<◌, ◌≡◌, refl, ap, ◌∙◌, ◌≢◌, ◌⊎◌, inl, inr, true, false, ◌||◌, some, arith,
  ltb, ==_iff, ==_of_ne, Bool-cases, update, add64, update_self,
}
use s_o.Scheduler.Nodes.{
  Sched, find_next, is_waiting, run_next, run_node, state_at, blocked, quantum_max, ready, running,
  set_state,
}
use s_o.Scheduler.Switch.{returned, schedule_on, give_way, schedule, of_option}

-- The node `k` links behind `a`.
abbrev pub hops : (ℕ → ℕ) → ℕ → ℕ → ℕ
hops next zero a = a
hops next (suc k) a = hops next k (next a)

abbrev pub Waits : Sched → ℕ → Type 0
Waits s n = is_waiting (state_at s n) ≡ true

-- `n` is the first waiting node from `a` on, `j` links behind it.
pub record First (s : Sched) (a n j : ℕ) : Type 0 where
  pub at : n ≡ hops s.next j a
  pub waits : Waits s n
  pub before : (i : ℕ) → i < j → is_waiting (state_at s (hops s.next i a)) ≡ false

find_next-First :
    (fuel : ℕ) (s : Sched) (a k : ℕ)
    → Waits s (hops s.next k a)
    → k < fuel
    → (n j : ℕ) × (find_next fuel s a ≡ some n) × First s a n j × (j ≤ k)
unfolding find_next
find_next-First zero s a k w lt = elim lt [ ]
find_next-First (suc fuel) s a zero w lt =
    (a, 0, rw w, record { at = refl; waits = w; before = λ i l. elim l [ ] }, omega arith)
find_next-First (suc fuel) s a (suc k) w lt = elim (Bool-cases (is_waiting (state_at s a))) [
  | inl here ↦
      (a, 0, rw here, record { at = refl; waits = here; before = λ i l. elim l [ ] }, omega arith)
  | inr there ↦
      let (n, j, ran, f, le) = find_next-First fuel s (s.next a) k w (omega (arith, lt)) in
      (
        n,
        suc j,
        rw there ran,
        record { at = f.at; waits = f.waits; before = later there f.before },
        omega (arith, le),
      )
]
  where
    later :
        {j : ℕ}
        → is_waiting (state_at s a) ≡ false
        → ((i : ℕ) → i < j → is_waiting (state_at s (hops s.next i (s.next a))) ≡ false)
        → (i : ℕ) → i < suc j
        → is_waiting (state_at s (hops s.next i a)) ≡ false
    later h rest zero l = h
    later h rest (suc i) l = rest i (omega (arith, l))

-- The first waiting node of `s` from `a` on is made the current one: its process is running, with as
-- many ticks as its priority, and nothing else of `s` changes.
pub record Chosen (s : Sched) (a : ℕ) (t : Sched) : Type 0 where
  pub steps : ℕ
  pub first : First s a t.current steps
  pub run : t ≡ record s {
    current = t.current;
    state = update s.state (s.proc t.current) running;
    quantums = update s.quantums t.current (s.priority (s.proc t.current));
  }

run_next-Chosen :
    (fuel : ℕ) (s : Sched) (a k : ℕ)
    → Waits s (hops s.next k a)
    → k < fuel
    → (t : Sched) × (run_next fuel s a ≡ some t) × (c : Chosen s a t) × (c.steps ≤ k)
unfolding run_next run_node update
run_next-Chosen fuel s a k w lt =
    let (n, j, ran, f, le) = find_next-First fuel s a k w lt in
    (run_node s n, rw (ran, run_next) refl, record { steps = j; first = f; run = refl }, le)

-- The scheduler is not disabled, and there is more than the idle process.
abbrev pub Active : Sched → Type 0
Active s = (s.pending_disables ≡ 0) × (s.node_count ≢ 1)

-- The stack pointer of the current process is saved.
abbrev pub saved : Sched → ℕ → Sched
saved s stack = record s { sp = update s.sp (s.proc s.current) stack }

-- The current process has run for one more tick, and is ready again.
abbrev pub yielded : Sched → ℕ → Sched
yielded s stack = record s {
  sp = update s.sp (s.proc s.current) stack;
  quantums = update s.quantums s.current (add64 (s.quantums s.current) 1);
  state = update s.state (s.proc s.current) ready;
  force_next = false;
}

schedule-Active :
    (fuel : ℕ) (s : Sched) (stack : ℕ)
    → Active s
    → schedule fuel s stack ≡ schedule_on fuel (saved s stack)
unfolding schedule update
schedule-Active fuel s stack h =
    rw ((==_iff s.pending_disables 0).1 h.0, ==_of_ne s.node_count 1 h.1) refl

-- The current process has run for one more tick.
abbrev counted : Sched → Sched
counted s = record s { quantums = update s.quantums s.current (add64 (s.quantums s.current) 1) }

schedule_on-running :
    (fuel : ℕ) (s : Sched)
    → state_at s s.current ≡ running
    → schedule_on fuel s ≡ of_option (give_way fuel (counted s))
unfolding schedule_on update
schedule_on-running fuel s e = rw (e, schedule_on) refl

schedule_on-blocked :
    (fuel : ℕ) (s : Sched)
    → state_at s s.current ≡ blocked
    → schedule_on fuel s ≡ of_option (give_way fuel s)
unfolding schedule_on update
schedule_on-blocked fuel s e = rw (e, schedule_on) refl

give_way-blocked :
    (fuel : ℕ) (s : Sched)
    → state_at s s.current ≡ blocked
    → give_way fuel s ≡ run_next fuel s (s.next s.current)
unfolding give_way update
give_way-blocked fuel s e = rw (e, give_way) refl

give_way-over :
    (fuel : ℕ) (s : Sched)
    → state_at s s.current ≡ running
    → (ltb quantum_max (s.quantums s.current) || s.force_next) ≡ true
    → give_way fuel s
      ≡ run_next fuel
          (record (set_state s s.current ready) { force_next = false })
          (s.next s.current)
unfolding give_way update
give_way-over fuel s e over = rw (e, over, give_way) refl

over_test :
    (s : Sched)
    → (quantum_max < add64 (s.quantums s.current) 1) ⊎ (s.force_next ≡ true)
    → (ltb quantum_max ((counted s).quantums s.current) || s.force_next) ≡ true
over_test s over =
    rw (update_self s.quantums s.current (add64 (s.quantums s.current) 1)) (ground (arith, over))

pub schedule-expired :
    (fuel : ℕ) (s : Sched) (stack k : ℕ)
    → Active s
    → state_at s s.current ≡ running
    → (quantum_max < add64 (s.quantums s.current) 1) ⊎ (s.force_next ≡ true)
    → Waits (yielded s stack) (hops s.next k (s.next s.current))
    → k < fuel
    → (t : Sched) × (schedule fuel s stack ≡ returned t)
      × (c : Chosen (yielded s stack) (s.next s.current) t) × (c.steps ≤ k)
schedule-expired fuel s stack k active run over w lt =
    let (t, ran, c, le) = run_next-Chosen fuel (yielded s stack) (s.next s.current) k w lt in
    (
      t,
      schedule-Active fuel s stack active
          ∙ schedule_on-running fuel (saved s stack) run
          ∙ ap of_option
              (give_way-over fuel (counted (saved s stack)) run (over_test s over) ∙ ran),
      c,
      le,
    )

-- A blocked process gives way to the first waiting process behind it.
pub schedule-blocked :
    (fuel : ℕ) (s : Sched) (stack k : ℕ)
    → Active s
    → state_at s s.current ≡ blocked
    → Waits s (hops s.next k (s.next s.current))
    → k < fuel
    → (t : Sched) × (schedule fuel s stack ≡ returned t)
      × (c : Chosen (saved s stack) (s.next s.current) t) × (c.steps ≤ k)
schedule-blocked fuel s stack k active stop w lt =
    let (t, ran, c, le) = run_next-Chosen fuel (saved s stack) (s.next s.current) k w lt in
    (
      t,
      schedule-Active fuel s stack active
          ∙ schedule_on-blocked fuel (saved s stack) stop
          ∙ ap of_option (give_way-blocked fuel (saved s stack) stop ∙ ran),
      c,
      le,
    )
