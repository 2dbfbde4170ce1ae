-- ===== src/Scheduler/Leaks.antt =====
-- Which blocks `freeProcess` of Kernel/process.c gives back.
use s_o.Base.{
  ℕ, ◌≡◌, refl, inl, inr, Bool, true, false, Option, none, some, List, [], ◌∷◌, ◌++◌, Option-cases,
}
use s_o.MemoryManager.{Manager, Ptr, free}
use s_o.MemoryManager.Client.{Request, give, serve, serve_all}
use s_o.Scheduler.Creation.{Freed, Made, after_loop, at_null, free_loop, free_process, past_null}

-- Every other one, from the first on.
abbrev pub alternate : List Ptr → List Ptr
alternate [] = []
alternate (a ∷ []) = a ∷ []
alternate (a ∷ b ∷ further) = a ∷ alternate further

abbrev pub is_even : List Ptr → Bool
is_even [] = true
is_even (a ∷ []) = false
is_even (a ∷ b ∷ further) = is_even further

abbrev pub gives : List Ptr → List Request
gives [] = []
gives (p ∷ ps) = give p ∷ gives ps

abbrev pub ended : (Manager → Freed) → Option Manager → Option Freed
ended as_ none = none
ended as_ (some m) = some (as_ m)

-- What is given back behind the arguments, if the loop ends at the NULL.
abbrev pub behind : Made → Bool → List Ptr
behind q true = q.argv ∷ q.p ∷ []
behind q false = []

abbrev pub way : Bool → Manager → Freed
way true m = at_null m
way false m = past_null m

after_loop-gives :
    (fuel : ℕ) (q : Made) (args : List Ptr) (m : Manager)
    → after_loop fuel q (free_loop fuel args m)
      ≡ ended
          (way (is_even args))
          (serve_all fuel (gives (alternate args ++ behind q (is_even args))) m)
unfolding after_loop free_loop serve_all serve
after_loop-gives fuel q [] m = elim (Option-cases (free fuel q.argv m)) [
  | inl e ↦ rw (e, serve_all, serve, after_loop, free_loop) refl
  | inr r ↦
      rw (r.1, serve_all, serve, after_loop, free_loop)
        (elim (Option-cases (free fuel q.p r.0)) [
          | inl e ↦ rw (e, serve_all, serve, after_loop, free_loop) refl
          | inr t ↦ rw (t.1, serve_all, serve, after_loop, free_loop) refl
        ])
]
after_loop-gives fuel q (a ∷ []) m = elim (Option-cases (free fuel a m)) [
  | inl e ↦ rw (e, serve_all, serve, after_loop, free_loop) refl
  | inr r ↦ rw (r.1, serve_all, serve, after_loop, free_loop) refl
]
after_loop-gives fuel q (a ∷ b ∷ further) m = elim (Option-cases (free fuel a m)) [
  | inl e ↦ rw (e, serve_all, serve, after_loop, free_loop) refl
  | inr r ↦ rw (r.1, serve_all, serve, after_loop, free_loop) (after_loop-gives fuel q further r.0)
]

-- `freeProcess` gives back the stack, every other argument from the first on, and, if their number
-- is even, the array and the record. The arguments between are never given back; if the number is
-- odd, the loop leaves the array behind its NULL.
pub free_process-gives :
    (fuel : ℕ) (q : Made) (m : Manager)
    → free_process fuel q m
      ≡ ended
          (way (is_even q.args))
          (serve_all fuel (gives (q.stack ∷ alternate q.args ++ behind q (is_even q.args))) m)
unfolding free_process serve_all serve
free_process-gives fuel q m = elim (Option-cases (free fuel q.stack m)) [
  | inl e ↦ rw (e, serve_all, serve, free_process) refl
  | inr r ↦ rw (r.1, serve_all, serve, free_process) (after_loop-gives fuel q q.args r.0)
]
