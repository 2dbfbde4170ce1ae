-- ===== src/Semaphore/Open.antt =====
-- What `sem_open`, `sem_post` and `sem_close` of Kernel/semaphore.c promise to their callers.
use s_o.Base.{
  ℕ, ◌<◌, ◌≡◌, sym, ◌∙◌, subst, inl, inr, true, none, some, List, [], ◌∷◌, arith, Option-cases,
  update,
}
use s_o.Semaphore.Table.{
  Table, Call, close_sem, closed, find_sem, fresh, get_name, kept, max_sems, named, open_sem,
  opened, post_sem, sem_close, sem_init, sem_open, sem_post, serve, serve_all,
}
use s_o.Semaphore.Protocol.{post}
use s_o.Semaphore.Names.{
  first-some, named-closed, named-posted, Distinct-sub, Distinct-fresh, Distinct, named-opened,
}

module _ (t : Table) (name : List ℕ) (i : ℕ) where
  pub serve-open : (v : ℕ) → get_name t name ≡ some i → serve t (open_sem name v) ≡ opened t i
  unfolding serve kept sem_open
  serve-open v e = rw (e, serve, sem_open)

  pub serve-open_new :
      (v : ℕ)
      → get_name t name ≡ none
      → find_sem t ≡ some i
      → serve t (open_sem name v) ≡ opened (update t i (fresh i name v)) 0
  unfolding serve kept sem_open sem_init update
  serve-open_new v e f = rw (e, f, serve, sem_open, sem_init)

  pub serve-close :
      get_name t name ≡ some i → serve t (close_sem name) ≡ update t i (closed i (t i))
  unfolding serve kept sem_close update
  serve-close e = rw (e, serve, sem_close)

  pub serve-post :
      get_name t name ≡ some i
      → serve t (post_sem name) ≡ update t i (record (t i) { shared = post (t i).shared })
  unfolding serve kept sem_post update
  serve-post e = rw (e, serve, sem_post)

  pub get_name-named : get_name t name ≡ some i → (i < max_sems) × (named t name i ≡ true)
  get_name-named e = let r = first-some (named t name) max_sems 0 i e in (omega (arith, r), r.0)

module _ (t : Table) (name : List ℕ) where
  serve-open_full :
      (v : ℕ) → get_name t name ≡ none → find_sem t ≡ none → serve t (open_sem name v) ≡ t
  unfolding serve kept sem_open sem_init update
  serve-open_full v e f = rw (e, f, serve, sem_open, sem_init)

  serve-post_none : get_name t name ≡ none → serve t (post_sem name) ≡ t
  unfolding serve kept sem_post update
  serve-post_none e = rw (e, serve, sem_post)

  serve-close_none : get_name t name ≡ none → serve t (close_sem name) ≡ t
  unfolding serve kept sem_close update
  serve-close_none e = rw (e, serve, sem_close)

pub opened-Distinct : (t : Table) (i : ℕ) → Distinct t → Distinct (opened t i)
opened-Distinct t i d =
    Distinct-sub t (opened t i) d (λ name k h. sym (named-opened t i name k) ∙ h)

posted-Distinct :
    (t : Table) (i : ℕ)
    → Distinct t
    → Distinct (update t i (record (t i) { shared = post (t i).shared }))
posted-Distinct t i d =
    Distinct-sub t (update t i (record (t i) { shared = post (t i).shared })) d
      (λ other k h. sym (named-posted t i other k) ∙ h)

closed-Distinct : (t : Table) (i : ℕ) → Distinct t → Distinct (update t i (closed i (t i)))
closed-Distinct t i d = Distinct-sub t (update t i (closed i (t i))) d (named-closed t i)

pub serve-Distinct : (t : Table) (c : Call) → Distinct t → Distinct (serve t c)
serve-Distinct t (open_sem name v) d = elim (Option-cases (get_name t name)) [
  | inl e ↦ elim (Option-cases (find_sem t)) [
    | inl f ↦ subst Distinct (sym (serve-open_full t name v e f)) d
    | inr r ↦
        subst Distinct (sym (serve-open_new t name r.0 v e r.1))
          (opened-Distinct (update t r.0 (fresh r.0 name v)) 0 (Distinct-fresh t r.0 name v d e))
  ]
  | inr r ↦ subst Distinct (sym (serve-open t name r.0 v r.1)) (opened-Distinct t r.0 d)
]
serve-Distinct t (post_sem name) d = elim (Option-cases (get_name t name)) [
  | inl e ↦ subst Distinct (sym (serve-post_none t name e)) d
  | inr r ↦ subst Distinct (sym (serve-post t name r.0 r.1)) (posted-Distinct t r.0 d)
]
serve-Distinct t (close_sem name) d = elim (Option-cases (get_name t name)) [
  | inl e ↦ subst Distinct (sym (serve-close_none t name e)) d
  | inr r ↦ subst Distinct (sym (serve-close t name r.0 r.1)) (closed-Distinct t r.0 d)
]

-- Whatever calls are served, the semaphores in use keep different names.
pub serve_all-Distinct : (t : Table) (cs : List Call) → Distinct t → Distinct (serve_all t cs)
unfolding serve_all
serve_all-Distinct t [] d = d
serve_all-Distinct t (c ∷ cs) d = serve_all-Distinct (serve t c) cs (serve-Distinct t c d)
