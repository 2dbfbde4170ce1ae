-- ===== src/Semaphore/Names.antt =====
-- The table of Kernel/semaphore.c: what an open and a close do to the names.
use s_o.Base.{
  ℕ, zero, suc, ◌+◌, ◌*◌, ◌%◌, ◌≤◌, ◌<◌, ◌≡◌, refl, sym, ◌∙◌, subst, ◌⊎◌, inl, inr, Bool, true,
  false, none, some, List, [], ◌∷◌, arith, ◌==◌, ==_iff, ==_refl, ==_of_ne, Bool-cases, update,
  add64, sub64,
}
use s_o.Semaphore.Table.{
  first, same_name, Table, get_name, max_sems, named, Sem, closed, fresh, opened, last_user,
  carries, exist,
}
use s_o.Semaphore.Protocol.{post}

same_name-eq : (a b : List ℕ) → same_name a b ≡ true → a ≡ b
unfolding same_name
same_name-eq [] [] h = refl
same_name-eq (a ∷ xs) (b ∷ ys) h = ground (arith, ==_iff a b, same_name-eq xs ys)
same_name-eq _ _ h = ground arith

pub same_name_refl : (a : List ℕ) → same_name a a ≡ true
unfolding same_name
same_name_refl [] = refl
same_name_refl (a ∷ xs) = rw (==_refl a, same_name_refl xs)

pub first-some :
    (p : ℕ → Bool) (n i j : ℕ) → first p n i ≡ some j → (p j ≡ true) × (i ≤ j) × (j < i + n)
unfolding first
first-some p zero i j h = ground arith
first-some p (suc n) i j h = ground (arith, first-some p n (i + 1) j)

pub first-none : (p : ℕ → Bool) (n i j : ℕ) → first p n i ≡ none → i ≤ j → j < i + n → p j ≡ false
unfolding first
first-none p zero i j h lo hi = ground arith
first-none p (suc n) i j h lo hi = ground (arith, first-none p n (i + 1) j)

-- The only index that the test accepts is found.
first-only :
    (p : ℕ → Bool) (n i j : ℕ)
    → p j ≡ true
    → ((k : ℕ) → p k ≡ true → k < i + n → k ≡ j)
    → i ≤ j
    → j < i + n
    → first p n i ≡ some j
unfolding first
first-only p zero i j h u lo hi = ground arith
first-only p (suc n) i j h u lo hi = elim (Bool-cases (p i)) [
  | inl e ↦ rw (e, u i e (omega arith))
  | inr e ↦ rw (
    e,
    first-only p n (i + 1) j h (λ k hk b. u k hk (omega (arith, b))) (ground (arith, e, h, lo))
        (omega (arith, hi)),
  )
]

-- The entries that are in use have different names.
abbrev pub Distinct : Table → Type 0
Distinct t =
    (name : List ℕ) (i j : ℕ)
    → i < max_sems
    → j < max_sems
    → named t name i ≡ true
    → named t name j ≡ true
    → i ≡ j

pub get_name-found :
    (t : Table) (name : List ℕ) (i : ℕ)
    → Distinct t
    → i < max_sems
    → named t name i ≡ true
    → get_name t name ≡ some i
get_name-found t name i d lt h =
    first-only (named t name) max_sems 0 i h (λ k hk lk. d name k i lk lt hk h) (omega arith) lt

exist_even : (i : ℕ) → exist (2 * i) ≡ false
exist_even i = rw ((==_iff (2 * i % 2) 0).1 (omega arith))

pub fresh-carries : (i : ℕ) (name : List ℕ) (v : ℕ) → carries (fresh i name v) name ≡ true
fresh-carries i name v =
    rw (same_name_refl name, ==_of_ne ((i * 2 + 1) % 2) 0 (λ e. omega (arith, e))) refl

-- An entry that still has a name after a close had it before, and has a user left.
pub closed-carries :
    (i : ℕ) (e : Sem) (name : List ℕ)
    → carries (closed i e) name ≡ true
    → (carries e name ≡ true) × (last_user (sub64 e.open_count 1) ≡ false)
unfolding closed
closed-carries i e name h = elim (Bool-cases (last_user (sub64 e.open_count 1))) [
  | inl l ↦
      (let k : carries (record e { open_count = sub64 e.open_count 1; sem_id = 2 * i; name = [] })
              name
            ≡ true =
          rw l at h in
        ground (arith, k, exist_even i))
  | inr l ↦ (rw l at h, l)
]

module _ (t : Table) (i : ℕ) where
  -- Writing an entry that keeps its identity changes no name.
  named-update :
      (e : Sem)
      → e.sem_id ≡ (t i).sem_id
      → e.name ≡ (t i).name
      → (name : List ℕ) (k : ℕ) → named (update t i e) name k ≡ named t name k
  unfolding update
  named-update e hid hname name k = elim (Bool-cases (k == i)) [
    | inl h ↦ rw (h, (==_iff k i).0 h, hid, hname)
    | inr h ↦ rw h
  ]

  pub named-opened : (name : List ℕ) (k : ℕ) → named (opened t i) name k ≡ named t name k
  unfolding opened
  named-opened = named-update (record (t i) { open_count = add64 (t i).open_count 1 }) refl refl

  pub named-posted :
      (name : List ℕ) (k : ℕ)
      → named (update t i (record (t i) { shared = post (t i).shared })) name k ≡ named t name k
  named-posted = named-update (record (t i) { shared = post (t i).shared }) refl refl

  pub named-closed :
      (name : List ℕ) (k : ℕ)
      → named (update t i (closed i (t i))) name k ≡ true
      → named t name k ≡ true
  unfolding update
  named-closed name k h = elim (Bool-cases (k == i)) [
    | inl e ↦
        subst (λ x. named t name x ≡ true) (sym ((==_iff k i).0 e))
          (closed-carries i (t i) name (rw e at h)).0
    | inr e ↦ rw e at h
  ]

  named-fresh :
      (fname name : List ℕ) (v k : ℕ)
      → named (update t i (fresh i fname v)) name k ≡ true
      → ((k ≡ i) × (fname ≡ name)) ⊎ (named t name k ≡ true)
  unfolding update
  named-fresh fname name v k h = ground (arith, same_name-eq fname name, ==_iff k i)

pub Distinct-sub :
    (t u : Table)
    → Distinct t
    → ((name : List ℕ) (k : ℕ) → named u name k ≡ true → named t name k ≡ true)
    → Distinct u
Distinct-sub t u d sub name i j li lj hi hj = d name i j li lj (sub name i hi) (sub name j hj)

unnamed :
    (t : Table) (name other : List ℕ) (k : ℕ)
    → get_name t name ≡ none
    → k < max_sems
    → name ≡ other
    → named t other k ≡ false
unnamed t name other k h lk e =
    subst (λ x. named t x k ≡ false) e (first-none (named t name) max_sems 0 k h (omega arith) lk)

pub Distinct-fresh :
    (t : Table) (i : ℕ) (name : List ℕ) (v : ℕ)
    → Distinct t
    → get_name t name ≡ none
    → Distinct (update t i (fresh i name v))
Distinct-fresh t i name v d h other a b la lb ha hb = elim (named-fresh t i name other v a ha) [
  | inl p ↦ elim (named-fresh t i name other v b hb) [
    | inl q ↦ p.0 ∙ sym q.0
    | inr q ↦ ground (arith, q, unnamed t name other b h lb p.1)
  ]
  | inr p ↦ elim (named-fresh t i name other v b hb) [
    | inl q ↦ ground (arith, p, unnamed t name other a h la q.1)
    | inr q ↦ d other a b la lb p q
  ]
]
