-- ===== src/Semaphore/Users.antt =====
-- The users of a semaphore of Kernel/semaphore.c: from its first open to its last close.
use s_o.Base.{
  ℕ, ◌<◌, ◌≡◌, refl, ◌∙◌, subst, inl, inr, true, false, none, some, List, arith, ◌==◌,
  if◌then◌else◌, Bool-cases, Option-cases, update, add64, update_self,
}
use s_o.Semaphore.Table.{
  Table, close_sem, closed, get_name, max_sems, named, open_sem, opened, serve, carries,
}
use s_o.Semaphore.Open.{opened-Distinct, get_name-named, serve-close, serve-open}
use s_o.Semaphore.Names.{
  Distinct, first-some, named-opened, get_name-found, closed-carries, named-closed,
}

get_name-opened :
    (t : Table) (name : List ℕ) (i : ℕ)
    → Distinct t
    → i < max_sems
    → named t name i ≡ true
    → get_name (opened t i) name ≡ some i
get_name-opened t name i d lt h =
    get_name-found (opened t i) name i (opened-Distinct t i d) lt (named-opened t i name i ∙ h)

opened-at :
    (t : Table) (i : ℕ)
    → ((opened t i i).shared ≡ (t i).shared)
      × ((opened t i i).open_count ≡ add64 (t i).open_count 1)
unfolding opened
opened-at t i =
    rw (update_self t i (record (t i) { open_count = add64 (t i).open_count 1 })) (refl, refl)

-- An open of a name that is in use adds a user to its entry and keeps the value and the queue,
-- whatever value it asks for.
pub open_again :
    (t : Table) (name : List ℕ) (i v : ℕ)
    → Distinct t
    → get_name t name ≡ some i
    → (get_name (serve t (open_sem name v)) name ≡ some i)
      × ((serve t (open_sem name v) i).shared ≡ (t i).shared)
      × ((serve t (open_sem name v) i).open_count ≡ add64 (t i).open_count 1)
open_again t name i v d e =
    let r = get_name-named t name i e in
    rw (serve-open t name i v e)
      (get_name-opened t name i d r.0 r.1, (opened-at t i).0, (opened-at t i).1)

-- What the user count of entry `j` becomes when entry `i` is made.
abbrev pub users_of_new : Table → ℕ → ℕ → ℕ
users_of_new t i j =
    if j == 0
    then (if i == 0 then 1 else add64 (t 0).open_count 1)
    else (if j == i then 0 else (t j).open_count)

-- No entry has the name that the only user closes.
closed-unnamed :
    (t : Table) (name : List ℕ) (i j : ℕ)
    → Distinct t
    → get_name t name ≡ some i
    → (t i).open_count ≡ 1
    → j < max_sems
    → named (update t i (closed i (t i))) name j ≡ false
closed-unnamed t name i j d e one lt =
    elim (Bool-cases (named (update t i (closed i (t i))) name j)) [
      | inl h ↦
          let r = get_name-named t name i e in
          let same = d name j i lt r.0 (named-closed t i name j h) r.1 in
          let at : carries (closed i (t i)) name ≡ true =
            subst (λ s. carries s name ≡ true) (update_self t i (closed i (t i)))
              (subst (λ k. named (update t i (closed i (t i))) name k ≡ true) same h) in
          ground (arith, (closed-carries i (t i) name at).1, one)
      | inr h ↦ h
    ]

-- The close of the only user frees the name.
pub close_last :
    (t : Table) (name : List ℕ) (i : ℕ)
    → Distinct t
    → get_name t name ≡ some i
    → (t i).open_count ≡ 1
    → get_name (serve t (close_sem name)) name ≡ none
close_last t name i d e one =
    let w = update t i (closed i (t i)) in
    rw (serve-close t name i e) (elim (Option-cases (get_name w name)) [
      | inl h ↦ h
      | inr r ↦
          let f = first-some (named w name) max_sems 0 r.0 r.1 in
          ground (arith, f, closed-unnamed t name i r.0 d e one (omega (arith, f)))
    ])
