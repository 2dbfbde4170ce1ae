-- ===== src/Scheduler/Removal.antt =====
-- `removeNode`, `killProcess` and what they leave in the ring.
use s_o.Base.{
  ℕ, zero, suc, ◌+◌, ◌^◌, ◌<◌, ◌≡◌, refl, sym, ap, ap₂, ◌∙◌, subst, ◌≢◌, inl, inr, some, List, ◌∷◌,
  map, arith, ◌==◌, ==_iff, ==_of_ne, Bool-cases, update, sub64, update_self, update-ne,
}
use s_o.Scheduler.Nodes.{
  Sched, find_loop, find_node, drop_child, process_ready, ready, remove_child, set_state, unlink,
  with_node, ProcState, killed, remove_node,
}
use s_o.Scheduler.Switch.{kill_process, kill_other, returned}
use s_o.Scheduler.Ring.{Chain, Without, unlink-Chain}
use s_o.Scheduler.Processes.{create_process}

-- A search looks at the links and the pids only.
find_loop-fields :
    (fuel : ℕ) (s : Sched) (c : ℕ → ℕ) (st : ℕ → ProcState) (pid aux : ℕ)
    → find_loop fuel (record s { children = c; state = st }) pid aux ≡ find_loop fuel s pid aux
unfolding find_loop
find_loop-fields zero s c st pid aux = refl
find_loop-fields (suc fuel) s c st pid aux =
    let ih = find_loop-fields fuel s c st pid (s.next aux) in rw ih refl

find_node-fields :
    (fuel : ℕ) (s : Sched) (c : ℕ → ℕ) (st : ℕ → ProcState) (pid : ℕ)
    → find_node fuel (record s { children = c; state = st }) pid ≡ find_node fuel s pid
unfolding find_node
find_node-fields fuel s c st pid = rw (find_loop-fields fuel s c st pid (s.next s.root)) refl

-- A node that a search finds has the pid.
find_loop-pid :
    (fuel : ℕ) (s : Sched) (pid aux n : ℕ)
    → find_loop fuel s pid aux ≡ some n
    → n ≢ 0
    → s.pid (s.proc n) ≡ pid
unfolding find_loop
find_loop-pid zero s pid aux n e ne = ground arith
find_loop-pid (suc fuel) s pid aux n e ne = elim (Bool-cases (aux == s.root)) [
  | inl a ↦ absurd (ground (arith, (rw a at e), ne))
  | inr a ↦ elim (Bool-cases (s.pid (s.proc aux) == pid)) [
    | inl b ↦
        let q : some aux ≡ some n = rw (a, b) at e in
        let same : aux ≡ n = ground (arith, q) in
        subst (λ z. s.pid (s.proc z) ≡ pid) same ((==_iff (s.pid (s.proc aux)) pid).0 b)
    | inr b ↦ find_loop-pid fuel s pid (s.next aux) n (rw (a, b) at e) ne
  ]
]

find_node-pid :
    (fuel : ℕ) (s : Sched) (pid n : ℕ)
    → find_node fuel s pid ≡ some n
    → n ≢ 0
    → s.pid (s.proc n) ≡ pid
unfolding find_node
find_node-pid fuel s pid n e ne = elim (Bool-cases (s.pid (s.proc s.root) == pid)) [
  | inl b ↦
      let q : some s.root ≡ some n = rw b at e in
      let same : s.root ≡ n = ground (arith, q) in
      subst (λ z. s.pid (s.proc z) ≡ pid) same ((==_iff (s.pid (s.proc s.root)) pid).0 b)
  | inr b ↦ find_loop-pid fuel s pid (s.next s.root) n (rw b at e) ne
]

process_ready-found :
    (fuel : ℕ) (s : Sched) (pid n : ℕ)
    → find_node fuel s pid ≡ some n
    → n ≢ 0
    → process_ready fuel s pid ≡ some (s.pid (s.proc n), set_state s n ready)
unfolding process_ready with_node update
process_ready-found fuel s pid n e ne = rw (e, process_ready, with_node, ==_of_ne n 0 ne) refl

-- What a removal comes to: `unlink`, in a state that has the same ring.
record Unlinked (s : Sched) (n : ℕ) (t : Sched) : Type 0 where
  from : Sched
  same_next : from.next ≡ s.next
  same_proc : from.proc ≡ s.proc
  same_freed : from.freed_nodes ≡ s.freed_nodes
  same_current : from.current ≡ s.current
  done : t ≡ unlink from n

remove_child-Unlinked :
    (fuel : ℕ) (s : Sched) (n parent pid : ℕ)
    → find_node fuel s pid ≡ some parent
    → parent ≢ 0
    → (t : Sched) × (remove_child fuel s n parent ≡ some t) × Unlinked s n t
unfolding remove_child update unlink
remove_child-Unlinked fuel s n parent pid e ne =
    let s1 = drop_child s parent in
    let at : find_node fuel s1 (s1.pid (s1.proc parent)) ≡ some parent =
      find_node-fields fuel s s1.children s.state (s.pid (s.proc parent))
      ∙ ap (find_node fuel s) (find_node-pid fuel s pid parent e ne)
      ∙ e in
    elim (Bool-cases (s1.children (s1.proc parent) == 0)) [
      | inl last ↦
          let up = process_ready-found fuel s1 (s1.pid (s1.proc parent)) parent at ne in
          let s2 = set_state s1 parent ready in
          (
            unlink s2 n,
            rw (last, up, remove_child) refl,
            record {
              from = s2;
              same_next = refl;
              same_proc = refl;
              same_freed = refl;
              same_current = refl;
              done = refl;
            },
          )
      | inr more ↦ (
        unlink s1 n,
        rw (more, remove_child) refl,
        record {
          from = s1;
          same_next = refl;
          same_proc = refl;
          same_freed = refl;
          same_current = refl;
          done = refl;
        },
      )
    ]

-- What is said of the ring after a removal.
abbrev Shortened : Sched → ℕ → ℕ → List ℕ → Sched → Type 0
Shortened s n m xs t =
    Chain t.next n (n ∷ xs) n
    × (map t.proc (n ∷ xs) ≡ map s.proc (m ∷ xs))
    × (t.freed_nodes ≡ s.next n ∷ s.freed_nodes)
    × (t.current ≡ s.current)

Unlinked-Shortened :
    (s : Sched) (n m : ℕ) (xs : List ℕ) (t : Sched)
    → Unlinked s n t
    → Chain s.next n (n ∷ m ∷ xs) n
    → Without n (m ∷ xs)
    → Shortened s n m xs t
unfolding unlink
Unlinked-Shortened s n m xs t u ring out =
    let f = u.from in
    let ring' : Chain f.next n (n ∷ m ∷ xs) n =
      subst (λ nx. Chain nx n (n ∷ m ∷ xs) n) (sym u.same_next) ring in
    let (chain, procs) = unlink-Chain f n m xs ring' out in
    subst (Shortened s n m xs) (sym u.done) (
      chain,
      procs ∙ ap (λ p. map p (m ∷ xs)) u.same_proc,
      ap₂ (λ y ys. y ∷ ys) (ap (λ nx. nx n) u.same_next) u.same_freed,
      u.same_current,
    )

-- Killing a process that does not run takes its node out of the ring: the others stay, in their
-- order. It is the next node whose memory is freed, since its process moves into the node; nothing
-- updates the current node, which may be that one. The links to the process and to the parent of
-- the current process have to be found.
pub kill_process-Ring :
    (fuel : ℕ) (s : Sched) (pid n m parent : ℕ) (xs : List ℕ)
    → s.pid (s.proc s.current) ≢ pid
    → find_node fuel s pid ≡ some n
    → n ≢ 0
    → find_node fuel s (s.parent_pid (s.proc s.current)) ≡ some parent
    → parent ≢ 0
    → Chain s.next n (n ∷ m ∷ xs) n
    → Without n (m ∷ xs)
    → (t : Sched) × (kill_process fuel s pid ≡ returned t)
      × Chain t.next n (n ∷ xs) n
      × (map t.proc (n ∷ xs) ≡ map s.proc (m ∷ xs))
      × (t.freed_nodes ≡ s.next n ∷ s.freed_nodes)
      × (t.current ≡ s.current)
unfolding kill_process kill_other remove_node unlink update
kill_process-Ring fuel s pid n m parent xs other at ne pat pne ring out =
    let k = set_state s n killed in
    let pat' : find_node fuel k (s.parent_pid (s.proc s.current)) ≡ some parent =
      find_node-fields fuel s s.children k.state (s.parent_pid (s.proc s.current)) ∙ pat in
    let (t, ran, u) =
      remove_child-Unlinked fuel k n parent (s.parent_pid (s.proc s.current)) pat' pne in
    let removed : remove_node fuel k n ≡ some t =
      rw (pat', remove_node, ==_of_ne parent 0 pne) ran in
    let killed_it : kill_other fuel s pid ≡ some (s.pid (s.proc n), t) =
      rw (at, kill_other, ==_of_ne n 0 ne, removed) refl in
    let short = Unlinked-Shortened k n m xs t u ring out in
    (
      t,
      rw (==_of_ne (s.pid (s.proc s.current)) pid other, kill_process, killed_it) refl,
      short.0,
      short.1,
      short.2,
      short.3,
    )

-- A removal gives the newest pid away again: where the process that was made last is still alive
-- (it is another one that goes), the next process that is made gets the same pid.
pub create_process-unlink :
    (s : Sched) (n p stack priority q : ℕ)
    → p ≢ 0
    → stack ≢ 0
    → s.pid q + 1 ≡ s.current_pid
    → s.current_pid < 2 ^ 64
    → q ≢ p
    → (create_process (unlink s n) p stack priority).1.pid p
      ≡ (create_process (unlink s n) p stack priority).1.pid q
unfolding create_process unlink
create_process-unlink s n p stack priority q h h' last small ne =
    rw (==_of_ne p 0 h, ==_of_ne stack 0 h')
      (update_self s.pid p (sub64 s.current_pid 1)
        ∙ omega (arith, last, small)
        ∙ sym (update-ne s.pid p (sub64 s.current_pid 1) q ne))
