-- ===== src/Phylo/Core.antt =====
-- What relates the states, the `hungry_lock`s and the places in Userland/uCodeModule/phylo.c, and
-- what each kind of step does to it.
use s_o.Base.{
  ℕ, ◌+◌, ◌-◌, ◌≤◌, ◌<◌, ◌≡◌, refl, sym, subst, Bool, true, false, arith, ==_iff, update,
}
use s_o.Phylo.{
  Table, PhyloState, Place, at_table, eating, gone, is_eating, is_hungry, test, thinking, to_eat,
  to_take,
}
use s_o.Phylo.Forks.{Forks, Forks-quiet, right_of, test-Forks, test-count}

abbrev pub sits : Place → Bool
sits at_table = true
sits _ = false

abbrev pub waits : Place → Bool
waits to_eat = true
waits _ = false

abbrev pub is_gone : Place → Bool
is_gone gone = true
is_gone _ = false

eats_not : (s : PhyloState) → is_eating s ≡ true → is_hungry s ≡ false
eats_not eating h = refl
eats_not _ h = ground arith

-- What relates the states, the `hungry_lock`s and the places.
pub record Core (c : ℕ) (st : ℕ → PhyloState) (lock : ℕ → ℕ) (pl : ℕ → Place) : Type 0 where
  pub forks : Forks c st
  pub eats : (i : ℕ) → sits (pl i) ≡ true → is_eating (st i) ≡ true
  pub token :
      (i : ℕ) → 0 < lock i → (is_eating (st i) ≡ true) × (waits (pl i) ≡ true) × (lock i ≡ 1)
  pub hungers : (i : ℕ) → is_hungry (st i) ≡ true → waits (pl i) ≡ true

test-Core :
    (t : Table) (id : ℕ) (pl : ℕ → Place)
    → 2 ≤ t.count
    → id < t.count
    → Core t.count t.state t.hungry_lock pl
    → Core t.count (test t id).state (test t id).hungry_lock pl
unfolding test update
test-Core t id pl two seat k = record {
  forks = test-Forks t id two seat k.forks;
  eats = λ i h. ground (arith, k.eats i h);
  token = λ i h. ground (arith, h, k.token i, k.token id, k.hungers id, ==_iff i id);
  hungers = λ i h. ground (arith, h, k.hungers i);
}

-- The same, with the count as `test` leaves it.
unfoldable pub Tested : Table → (ℕ → Place) → Type 0
Tested t pl = (2 ≤ t.count) × Core t.count t.state t.hungry_lock pl

pub test-Tested :
    (t : Table) (id : ℕ) (pl : ℕ → Place) → id < t.count → Tested t pl → Tested (test t id) pl
unfolding Tested
test-Tested t id pl seat (two, k) = (
  subst (λ c. 2 ≤ c) (sym (test-count t id)) two,
  subst (λ c. Core c (test t id).state (test t id).hungry_lock pl) (sym (test-count t id))
      (test-Core t id pl two seat k),
)

-- A philosopher goes hungry, or gets up.
pub leave-Core :
    (c : ℕ) (st : ℕ → PhyloState) (lock : ℕ → ℕ) (pl : ℕ → Place) (i : ℕ) (v : PhyloState)
    (p : Place)
    → is_eating v ≡ false
    → (is_hungry v ≡ true → waits p ≡ true)
    → sits p ≡ false
    → waits (pl i) ≡ false
    → Core c st lock pl
    → Core c (update st i v) lock (update pl i p)
unfolding update
leave-Core c st lock pl i v p calm ready_ off was k = record {
  forks = Forks-quiet c st i v calm k.forks;
  eats = λ j h. ground (arith, h, off, k.eats j);
  token = λ j h. ground (arith, h, was, k.token j, ==_iff j i, k.token i);
  hungers = λ j h. ground (arith, h, ready_, k.hungers j);
}

-- A philosopher goes from one place to another, neither of them at or before the table.
pub walk-Core :
    (c : ℕ) (st : ℕ → PhyloState) (lock : ℕ → ℕ) (pl : ℕ → Place) (i : ℕ) (p : Place)
    → sits p ≡ false
    → waits (pl i) ≡ false
    → Core c st lock pl
    → Core c st lock (update pl i p)
unfolding update
walk-Core c st lock pl i p off was k = record {
  forks = k.forks;
  eats = λ j h. ground (arith, h, off, k.eats j);
  token = λ j h. ground (arith, h, was, k.token j, ==_iff j i, k.token i);
  hungers = λ j h. ground (arith, h, was, k.hungers j, ==_iff j i, k.hungers i);
}

pub sit-Core :
    (c : ℕ) (st : ℕ → PhyloState) (lock : ℕ → ℕ) (pl : ℕ → Place) (i : ℕ)
    → 0 < lock i
    → Core c st lock pl
    → Core c st (update lock i (lock i - 1)) (update pl i at_table)
unfolding update
sit-Core c st lock pl i h k = record {
  forks = k.forks;
  eats = λ j g. ground (arith, g, h, k.eats j, ==_iff j i, k.token i);
  token = λ j g. ground (arith, g, h, k.token j, ==_iff j i, k.token i);
  hungers = λ j g. ground (arith, g, h, k.hungers j, ==_iff j i, k.token i, eats_not (st i));
}

-- A new philosopher sits down between the last one and the first.
pub grow-Core :
    (c : ℕ) (st : ℕ → PhyloState) (lock : ℕ → ℕ) (pl : ℕ → Place)
    → 2 ≤ c
    → pl c ≡ gone
    → Core c st lock pl
    → Core (c + 1) (update st c thinking) lock (update pl c to_take)
unfolding update
grow-Core c st lock pl two nobody k = record {
  forks = λ i lt h.
      ground (arith, two, lt, h, k.forks i, right_of (c + 1) i lt, right_of c i, ==_iff i c);
  eats = λ j h. ground (arith, h, k.eats j);
  token = λ j h. ground (arith, h, nobody, k.token j, ==_iff j c, k.token c);
  hungers = λ j h. ground (arith, h, nobody, k.hungers j, ==_iff j c);
}
