-- ===== src/Scheduler/Turns.antt =====
-- Nobody starves: where every process yields, each waiting process gets its turn.
use s_o.Base.{
  ℕ, zero, suc, ◌+◌, ◌-◌, ◌≤◌, ◌<◌, ◌≡◌, refl, sym, ap, ◌∙◌, subst, ◌≢◌, ◌⊎◌, inl, inr, true,
  Option, none, some, arith, ◌==◌, ==_iff, ==_of_ne, Bool-cases, update, update_self,
}
use s_o.Scheduler.Nodes.{Sched, run_node, running, state_at}
use s_o.Scheduler.Switch.{schedule, raised, returned, stopped}
use s_o.Scheduler.Choice.{Waits, hops, yielded, Active, schedule-expired}

-- `sys_yield`, up to the interrupt.
abbrev pub yield : Sched → Sched
yield s = record s { force_next = true }

-- `n` processes yield, one after the other, each with a stack pointer from outside.
unfoldable pub all_yield : ℕ → ℕ → (ℕ → ℕ) → Sched → Option Sched
unfolding schedule
all_yield fuel zero stacks s = some s
all_yield fuel (suc n) stacks s = elim (schedule fuel (yield s) (stacks s.current)) [
  | returned t ↦ all_yield fuel n stacks t
  | raised t ↦ none
  | stopped ↦ none
]

-- No other node has the process of `b`.
abbrev pub Own : Sched → ℕ → Type 0
Own s b = (n : ℕ) → s.proc n ≡ s.proc b → n ≡ b

lt_of_ne : {m n : ℕ} → m ≤ n → m ≢ n → m < n
lt_of_ne h ne = omega (arith, h, ne)

hops-next :
    (next : ℕ → ℕ) (j e a : ℕ) → hops next (j + suc e) a ≡ hops next e (next (hops next j a))
hops-next next zero e a = let k : zero + suc e ≡ suc e = omega arith in ap (λ m. hops next m a) k
hops-next next (suc j) e a =
    let k : suc j + suc e ≡ suc (j + suc e) = omega arith in
    ap (λ m. hops next m a) k ∙ hops-next next j e (next a)

Waits-yielded : (s : Sched) (stack b : ℕ) → Waits s b → Waits (yielded s stack) b
unfolding update
Waits-yielded s stack b w = elim (Bool-cases (s.proc b == s.proc s.current)) [
  | inl e ↦ rw e refl
  | inr e ↦ rw e w
]

Waits-run_node : (s : Sched) (n b : ℕ) → Own s b → n ≢ b → Waits s b → Waits (run_node s n) b
unfolding run_node update
Waits-run_node s n b own ne w = rw (==_of_ne (s.proc b) (s.proc n) (λ e. ne (own n (sym e)))) w

run_node-running : (s : Sched) (n : ℕ) → state_at (run_node s n) n ≡ running
unfolding run_node
run_node-running s n = update_self s.state (s.proc n) running

all_yield-one :
    (fuel n : ℕ) (stacks : ℕ → ℕ) (s t : Sched)
    → schedule fuel (yield s) (stacks s.current) ≡ returned t
    → all_yield fuel (suc n) stacks s ≡ all_yield fuel n stacks t
unfolding all_yield
all_yield-one fuel n stacks s t e = rw (e, all_yield) refl

record Turn (fuel : ℕ) (stacks : ℕ → ℕ) (s : Sched) (b d : ℕ) : Type 0 where
  count : ℕ
  after : Sched
  few : count ≤ d + 1
  ran : all_yield fuel count stacks s ≡ some after
  is_current : after.current ≡ b
  runs : state_at after b ≡ running

-- `b` waits `d` links behind the current process, which runs.
record Awaits (fuel : ℕ) (s : Sched) (b d : ℕ) : Type 0 where
  near : d < fuel
  active : Active s
  run : state_at s s.current ≡ running
  own : Own s b
  waits : Waits s b
  at : b ≡ hops s.next d (s.next s.current)

-- After one turn `b` runs, or is nearer.
next_chosen :
    (d fuel : ℕ) (stacks : ℕ → ℕ) (s : Sched) (b : ℕ)
    → Awaits fuel s b d
    → (Turn fuel stacks s b d)
      ⊎ ((t : Sched) × (e : ℕ) × (e < d)
          × (schedule fuel (yield s) (stacks s.current) ≡ returned t)
          × Awaits fuel t b e)
unfolding all_yield run_node
next_chosen d fuel stacks s b h =
    let stack = stacks s.current in
    let y = yielded (yield s) stack in
    let wy = Waits-yielded (yield s) stack b h.waits in
    let (t, ran, c, less) =
      schedule-expired fuel (yield s) stack d h.active h.run (inr refl) (subst (Waits y) h.at wy)
        h.near in
    let ran' : schedule fuel (yield s) stack ≡ returned (run_node y t.current) =
      ran ∙ ap returned c.run in
    elim (Bool-cases (t.current == b)) [
      | inl e ↦
          let same = (==_iff t.current b).0 e in
          inl (record {
            count = 1;
            after = run_node y t.current;
            few = omega arith;
            ran = all_yield-one fuel 0 stacks s (run_node y t.current) ran';
            is_current = same;
            runs =
                subst (λ n. state_at (run_node y t.current) n ≡ running) same
                  (run_node-running y t.current);
          })
      | inr e ↦
          let other : t.current ≢ b = ground (arith, e) in
          let gap = d - c.steps - 1 in
          let short : c.steps < d =
            lt_of_ne less
              (λ q. other (c.first.at ∙ ap (λ k. hops s.next k (s.next s.current)) q ∙ sym h.at)) in
          let split : d ≡ c.steps + suc gap = omega (arith, short) in
          inr (
            run_node y t.current,
            gap,
            omega (arith, short),
            ran',
            record {
              near = omega (arith, h.near);
              active = h.active;
              run = run_node-running y t.current;
              own = h.own;
              waits = Waits-run_node y t.current b h.own other wy;
              at =
                  h.at
                  ∙ ap (λ k. hops s.next k (s.next s.current)) split
                  ∙ hops-next s.next c.steps gap (s.next s.current)
                  ∙ ap (λ a. hops s.next gap (s.next a)) (sym c.first.at);
            },
          )
    ]

turns :
    (bound d fuel : ℕ) (stacks : ℕ → ℕ) (s : Sched) (b : ℕ)
    → d ≤ bound
    → Awaits fuel s b d
    → Turn fuel stacks s b d
turns zero d fuel stacks s b le h = elim (next_chosen d fuel stacks s b h) [
  | inl done ↦ done
  | inr later ↦ absurd (omega (arith, later.2))
]
turns (suc bound) d fuel stacks s b le h = elim (next_chosen d fuel stacks s b h) [
  | inl done ↦ done
  | inr later ↦
      let (t, e, less, ran, h') = later in
      let rest = turns bound e fuel stacks t b (omega (arith, less)) h' in
      record {
        count = suc rest.count;
        after = rest.after;
        few = omega (arith, rest.few, less);
        ran = all_yield-one fuel rest.count stacks s t ran ∙ rest.ran;
        is_current = rest.is_current;
        runs = rest.runs;
      }
]

-- No starvation: where every process yields as soon as it runs, a waiting process that has its node
-- to itself runs after at most as many turns as there are links to it from the current process.
pub all_yield-turn :
    (d fuel : ℕ) (stacks : ℕ → ℕ) (s : Sched) (b : ℕ)
    → d < fuel
    → Active s
    → state_at s s.current ≡ running
    → Own s b
    → Waits s b
    → b ≡ hops s.next d (s.next s.current)
    → (n : ℕ) × (t : Sched) × (n ≤ d + 1)
      × (all_yield fuel n stacks s ≡ some t)
      × (t.current ≡ b)
      × (state_at t b ≡ running)
all_yield-turn d fuel stacks s b near active run own waits at =
    let awaits : Awaits fuel s b d = record {
      near = near;
      active = active;
      run = run;
      own = own;
      waits = waits;
      at = at;
    } in
    let turn = turns d d fuel stacks s b (omega arith) awaits in
    (turn.count, turn.after, turn.few, turn.ran, turn.is_current, turn.runs)
