-- ===== src/Phylo/Forks.antt =====
-- Neighbours at the table of Userland/uCodeModule/phylo.c, and what `test` does for them.
use native.Mathlib.Nat.{mod-eq_of_lt, mod_self, add-mod_left}
use s_o.Base.{
  ℕ, ◌+◌, ◌-◌, ◌%◌, ◌≤◌, ◌<◌, ◌≡◌, ap, ◌∙◌, ◌≢◌, inl, inr, true, false, arith, ◌==◌, if◌then◌else◌,
  ==_iff, Bool-cases, update,
}
use s_o.Phylo.{Table, PhyloState, is_eating, left, right, test}

module _ (c k : ℕ) (seat : k < c) where
  pub right_of : right c k ≡ (if k + 1 == c then 0 else k + 1)
  right_of = elim (Bool-cases (k + 1 == c)) [
    | inl e ↦ rw e (ap (λ m. m % c) ((==_iff (k + 1) c).0 e) ∙ mod_self c)
    | inr e ↦ rw e (mod-eq_of_lt (ground (arith, seat, e)))
  ]

  left_of : left c k ≡ (if k == 0 then c - 1 else k - 1)
  left_of = elim (Bool-cases (k == 0)) [
    | inl e ↦
        let z = (==_iff k 0).0 e in
        let m : k + c - 1 ≡ c - 1 = omega (arith, z) in
        rw e (ap (λ x. x % c) m ∙ mod-eq_of_lt (omega (arith, seat)))
    | inr e ↦
        let m : k + c - 1 ≡ c + (k - 1) = ground (arith, e) in
        rw e (ap (λ x. x % c) m ∙ add-mod_left c (k - 1) ∙ mod-eq_of_lt (omega (arith, seat)))
  ]

  pub right-lt : right c k < c
  right-lt = rw right_of (ground (arith, seat))

  pub left-lt : left c k < c
  left-lt = rw left_of (ground (arith, seat))

  pub right-ne : 2 ≤ c → right c k ≢ k
  right-ne two = rw right_of (ground (arith, seat, two))

left-right : (c k : ℕ) → k < c → left c (right c k) ≡ k
left-right c k seat =
    left_of c (right c k) (right-lt c k seat) ∙ rw (right_of c k seat) (ground (arith, seat))

-- No two neighbours eat.
abbrev pub Forks : ℕ → (ℕ → PhyloState) → Type 0
Forks c st = (i : ℕ) → i < c → is_eating (st i) ≡ true → is_eating (st (right c i)) ≡ false

pub Forks-quiet :
    (c : ℕ) (st : ℕ → PhyloState) (id : ℕ) (v : PhyloState)
    → is_eating v ≡ false
    → Forks c st
    → Forks c (update st id v)
unfolding update
Forks-quiet c st id v h f i lt e = ground (arith, h, e, f i lt, ==_iff i id)

pub test-Forks :
    (t : Table) (id : ℕ)
    → 2 ≤ t.count
    → id < t.count
    → Forks t.count t.state
    → Forks t.count (test t id).state
unfolding test update
test-Forks t id two seat f i lt e = ground (
  arith,
  e,
  f i lt,
  f id seat,
  left-right t.count i lt,
  right-ne t.count id seat two,
  ==_iff i id,
)

pub test-count : (t : Table) (id : ℕ) → (test t id).count ≡ t.count
unfolding test
test-count t id = ground arith

pub test-place : (t : Table) (id : ℕ) → (test t id).place ≡ t.place
unfolding test
test-place t id = ground arith
