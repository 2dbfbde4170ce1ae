-- ===== src/Semaphore/Stuck.antt =====
-- What happens to the lock of Kernel/semaphore.c when a process finds the value 0.
use s_o.Base.{ℕ, ◌^◌, ◌<◌, ◌≡◌, refl, ◌∙◌, ◌≢◌, ◌⊎◌, inl, inr, true, false, arith, update, add64}
use s_o.Semaphore.Protocol.{
  System, Move, Pc, Shared, store, post, push, signal, takes, unqueue, Reach, Step, after, got,
  here, init, next, pick, read_none, read_some, regot, reread_none, reread_some, rexchg_free,
  xchg_free,
}
use s_o.Semaphore.Safety.{inside, Reach-Inv, pop-fields, update_proc-fields, Inv}

-- The lock is held and nobody will reset it.
pub record Dead (t : System) : Type 0 where
  pub held : t.mem.lock ≢ 0
  pub nobody : (i : ℕ) → inside (t.pc i) ≡ false

module _ {i : ℕ} where
  Move-held :
      {m m' : Shared} {p p' : Pc}
      → Move i m p m' p'
      → m.lock ≢ 0
      → inside p ≡ false
      → (m'.lock ≢ 0) × (inside p' ≡ false)
  unfolding post push
  Move-held (signal s h) l e =
      ground (arith, update_proc-fields (record s { value = add64 s.value 1 }))
  Move-held (unqueue s) l e = ground (arith, pop-fields s)
  Move-held (xchg_free s h) l e = elim (l h) [ ]
  Move-held (rexchg_free s h) l e = elim (l h) [ ]
  Move-held mv l e = ground arith

  takes-inside :
      {m m' : Shared} {p p' : Pc} (mv : Move i m p m' p') → inside p ≡ false → takes mv ≡ 0
  takes-inside (store s v) e = ground arith
  takes-inside mv e = refl

  -- With the value 0, the step after a successful exchange leaves the lock taken.
  Move-lost :
      {m m' : Shared} {p p' : Pc} (mv : Move i m p m' p')
      → (p ≡ got) ⊎ (p ≡ regot)
      → m.value ≡ 0
      → (m'.lock ≡ m.lock) × (inside p' ≡ false) × (takes mv ≡ 0)
  Move-lost (read_none s h) e z = ground arith
  Move-lost (reread_none s h) e z = ground arith
  Move-lost (read_some s h) e z = ground arith
  Move-lost (reread_some s h) e z = ground arith
  Move-lost mv e z = ground arith

got-inside : {p : Pc} → (p ≡ got) ⊎ (p ≡ regot) → inside p ≡ true
got-inside (inl e) = rw e
got-inside (inr e) = rw e

update-inside :
    (f : ℕ → Pc) (i : ℕ) (p : Pc)
    → inside p ≡ false
    → ((a : ℕ) → a ≢ i → inside (f a) ≡ false)
    → (a : ℕ) → inside (update f i p a) ≡ false
unfolding update
update-inside f i p hp hf a = ground (arith, hf a)

Dead-Step : {t u : System} → Dead t → Step t u → Dead u × (u.taken ≡ t.taken)
Dead-Step {t} d (pick i mv) =
    let r = Move-held mv d.held (d.nobody i) in
    (
      record { held = r.0; nobody = update-inside t.pc i _ r.1 (λ a n. d.nobody a) },
      omega (arith, takes-inside mv (d.nobody i)),
    )

Dead-Reach : {t u : System} → Dead t → Reach t u → Dead u × (u.taken ≡ t.taken)
Dead-Reach d here = (d, refl)
Dead-Reach d (next r st) =
    let before = Dead-Reach d r in let now = Dead-Step before.0 st in (now.0, now.1 ∙ before.1)

Reach-Dead :
    {value : ℕ} {t : System} {m' : Shared} {p' : Pc}
    → Inv value t
    → (i : ℕ) → (t.pc i ≡ got) ⊎ (t.pc i ≡ regot)
    → t.mem.value ≡ 0
    → (mv : Move i t.mem (t.pc i) m' p') → Dead (after t i mv)
Reach-Dead {t = t} {p' = p'} inv i e z mv =
    let lost = Move-lost mv e z in
    let here_inside = got-inside e in
    record {
      held = ground (arith, lost.0, inv.locked i here_inside);
      nobody = update-inside t.pc i p' lost.1 (λ a n. ground (arith, inv.unique a i));
    }

-- In a reachable state where a process has just taken the lock and the value is 0: once that
-- process takes its next step, the lock stays taken and no wait takes a unit any more, whatever
-- the processes do, and however many posts there are.
pub lost_lock :
    {value : ℕ} {t u : System} {m' : Shared} {p' : Pc}
    → value < 2 ^ 64
    → Reach (init value) t
    → (i : ℕ) → (t.pc i ≡ got) ⊎ (t.pc i ≡ regot)
    → t.mem.value ≡ 0
    → (mv : Move i t.mem (t.pc i) m' p') → Reach (after t i mv) u
    → (u.mem.lock ≢ 0) × (u.taken ≡ t.taken)
lost_lock {t = t} {p' = p'} hv r i e z mv later =
    let end = Dead-Reach (Reach-Dead (Reach-Inv hv r) i e z mv) later in
    let lost = Move-lost mv e z in (end.0.held, omega (arith, end.1, lost.2))
