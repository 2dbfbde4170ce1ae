-- ===== src/Semaphore/Safety.antt =====
-- What holds in every state that the processes can reach.
use s_o.Base.{ℕ, ◌+◌, ◌^◌, ◌≤◌, ◌<◌, ◌≡◌, refl, ap, ◌≢◌, Bool, true, false, arith, update, add64}
use s_o.Semaphore.Protocol.{
  Shared, Move, Pc, System, dequeue, got, pass, pop, regot, rexchg_free, start, unlock, update_proc,
  xchg_free, store, storing, post, posts, push, release, signal, takes, unqueue, Reach, Step, here,
  init, next, pick, read_some, reread_some, load,
}

-- The steps between a successful exchange of the lock and its reset.
abbrev pub inside : Pc → Bool
inside got = true
inside regot = true
inside dequeue = true
inside pass = true
inside (storing v) = true
inside unlock = true
inside _ = false

-- The steps that rely on a positive value.
abbrev pub stocked : Pc → Bool
stocked dequeue = true
stocked pass = true
stocked _ = false

pub record Inv (value : ℕ) (t : System) : Type 0 where
  pub unique : (i j : ℕ) → inside (t.pc i) ≡ true → inside (t.pc j) ≡ true → i ≡ j
  pub locked : (i : ℕ) → inside (t.pc i) ≡ true → t.mem.lock ≢ 0
  pub positive : (i : ℕ) → stocked (t.pc i) ≡ true → 0 < t.mem.value
  pub small : t.mem.value < 2 ^ 64
  pub loaded : (i v : ℕ) → t.pc i ≡ storing v → (0 < v) × (v ≤ t.mem.value)
  pub account : t.mem.value + t.taken ≤ value + t.posted

pub update_proc-fields :
    (s : Shared) → ((update_proc s).value ≡ s.value) × ((update_proc s).lock ≡ s.lock)
unfolding update_proc
update_proc-fields s = ground arith

pub pop-fields : (s : Shared) → ((pop s).value ≡ s.value) × ((pop s).lock ≡ s.lock)
unfolding pop
pop-fields s = ground arith

stocked→inside : (p : Pc) → stocked p ≡ true → inside p ≡ true
stocked→inside dequeue h = refl
stocked→inside pass h = refl
stocked→inside _ h = ground arith

module _ {value : ℕ} {t : System} (inv : Inv value t) (i : ℕ) where
  open inv use {unique, locked, positive, small, loaded, account}

  Move-unique :
      {p p' : Pc} {m' : Shared}
      → Move i t.mem p m' p'
      → t.pc i ≡ p
      → (a b : ℕ) → inside (update t.pc i p' a) ≡ true
      → inside (update t.pc i p' b) ≡ true
      → a ≡ b
  unfolding update
  Move-unique (start s) e a b ha hb = ground (arith, unique a b)
  Move-unique (xchg_free s h) e a b ha hb = ground (arith, unique a b, locked a, locked b)
  Move-unique (rexchg_free s h) e a b ha hb = ground (arith, unique a b, locked a, locked b)
  Move-unique mv e a b ha hb = ground (arith, unique a b, unique i a, unique i b)

  Move-locked :
      {p p' : Pc} {m' : Shared}
      → Move i t.mem p m' p'
      → t.pc i ≡ p
      → (a : ℕ) → inside (update t.pc i p' a) ≡ true
      → m'.lock ≢ 0
  unfolding update post push
  Move-locked (release s) e a ha = ground (arith, unique i a)
  Move-locked (unqueue s) e a ha = ground (arith, locked a, locked i, pop-fields s)
  Move-locked (signal s h) e a ha =
      ground (arith, locked a, locked i, update_proc-fields (record s { value = add64 s.value 1 }))
  Move-locked mv e a ha = ground (arith, locked a, locked i)

  Move-positive :
      {p p' : Pc} {m' : Shared}
      → Move i t.mem p m' p'
      → t.pc i ≡ p
      → (a : ℕ) → stocked (update t.pc i p' a) ≡ true
      → 0 < m'.value
  unfolding update post push
  Move-positive (store s v) e a ha = ground (arith, unique a i, stocked→inside (t.pc a))
  Move-positive (unqueue s) e a ha = ground (arith, positive a, positive i, pop-fields s)
  Move-positive (signal s h) e a ha =
      ground
        (arith, positive a, positive i, update_proc-fields (record s { value = add64 s.value 1 }))
  Move-positive (read_some s h) e a ha = ground (arith, positive a)
  Move-positive (reread_some s h) e a ha = ground (arith, positive a)
  Move-positive mv e a ha = ground (arith, positive a, positive i)

  Move-value :
      {p p' : Pc} {m' : Shared} (mv : Move i t.mem p m' p')
      → t.pc i ≡ p
      → (m'.value < 2 ^ 64) × (m'.value + takes mv ≤ t.mem.value + posts mv)
  unfolding post push
  Move-value (unqueue s) e = ground (arith, small, pop-fields s)
  Move-value (store s v) e = ground (arith, small, loaded i v e)
  Move-value (signal s h) e =
      ground (arith, small, update_proc-fields (record s { value = add64 s.value 1 }))
  Move-value mv e = ground (arith, small)

  -- A post between the load and the store leaves the loaded value the smaller one.
  Move-loaded :
      {p p' : Pc} {m' : Shared}
      → Move i t.mem p m' p'
      → t.pc i ≡ p
      → (a v : ℕ) → update t.pc i p' a ≡ storing v
      → (0 < v) × (v ≤ m'.value)
  unfolding update post push
  Move-loaded (load s) e a v ha = ground (arith, loaded a v, positive i)
  Move-loaded (store s w) e a v ha = ground (arith, loaded a v, unique a i, ap inside)
  Move-loaded (unqueue s) e a v ha = ground (arith, loaded a v, pop-fields s)
  Move-loaded (signal s h) e a v ha =
      ground (arith, loaded a v, update_proc-fields (record s { value = add64 s.value 1 }))
  Move-loaded mv e a v ha = ground (arith, loaded a v)

Step-Inv : {value : ℕ} {t u : System} → Inv value t → Step t u → Inv value u
Step-Inv {t = t} inv (pick i mv) = record {
  unique = λ a b. Move-unique inv i mv refl a b;
  locked = λ a. Move-locked inv i mv refl a;
  positive = λ a. Move-positive inv i mv refl a;
  small = (Move-value inv i mv refl).0;
  loaded = λ a. Move-loaded inv i mv refl a;
  account = omega (arith, inv.account, (Move-value inv i mv refl).1);
}

init-Inv : (value : ℕ) → value < 2 ^ 64 → Inv value (init value)
init-Inv value h = record {
  unique = λ a b ha hb. ground arith;
  locked = λ a ha. ground arith;
  positive = λ a ha. ground arith;
  small = h;
  loaded = λ a v ha. ground arith;
  account = omega arith;
}

pub Reach-Inv : {value : ℕ} {t : System} → value < 2 ^ 64 → Reach (init value) t → Inv value t
Reach-Inv h here = init-Inv _ h
Reach-Inv h (next r st) = Step-Inv (Reach-Inv h r) st

-- Mutual exclusion: in every state that the processes can reach, two processes between a
-- successful exchange of the lock and its reset are the same process.
pub inside_unique :
    {value : ℕ} {t : System}
    → value < 2 ^ 64
    → Reach (init value) t
    → (i j : ℕ) → inside (t.pc i) ≡ true
    → inside (t.pc j) ≡ true
    → i ≡ j
inside_unique h r = (Reach-Inv h r).unique

-- A process that is about to load the value for `sem->value--` finds a positive one: no wait passes
-- without a unit, and the value does not wrap around.
pub pass-positive :
    {value : ℕ} {t : System}
    → value < 2 ^ 64
    → Reach (init value) t
    → (i : ℕ) → t.pc i ≡ pass
    → 0 < t.mem.value
pass-positive h r i e = (Reach-Inv h r).positive i (rw e)

-- In every state that the processes can reach, the value and the units taken by waits together are at
-- most the initial value and the posts: no wait takes a unit that is not there. A post between the
-- load and the store of `sem->value--` is lost, so they can be fewer.
pub Reach-account :
    {value : ℕ} {t : System}
    → value < 2 ^ 64
    → Reach (init value) t
    → t.mem.value + t.taken ≤ value + t.posted
Reach-account h r = (Reach-Inv h r).account
