-- ===== src/Phylo.antt =====
-- Userland/uCodeModule/phylo.c: the dining philosophers.
-- Each section between `sem_wait(MUTEX)` and `sem_post(MUTEX)` is one step, and so is each wait and
-- each post on another semaphore. Any philosopher, or the main loop, may take the next step.
pub mod Forks
pub mod Core
pub mod Meals
mod Tests
use s_o.Base.{
  ℕ, ◌+◌, ◌-◌, ◌%◌, ◌<◌, ◌≡◌, ◌≢◌, Bool, true, false, not, ◌&&◌, ltb, if◌then◌else◌, update,
}

pub data PhyloState : Type 0 where
  thinking : PhyloState
  hungry : PhyloState
  eating : PhyloState
  leaving : PhyloState

abbrev pub max_phylos : ℕ
max_phylos = 10

abbrev pub min_phylos : ℕ
min_phylos = 2

abbrev pub is_eating : PhyloState → Bool
is_eating eating = true
is_eating _ = false

abbrev pub is_hungry : PhyloState → Bool
is_hungry hungry = true
is_hungry _ = false

-- Where a philosopher stands in `phylo_proc`.
pub data Place : Type 0 where
  -- about to enter `take_fork`
  to_take : Place
  -- at `sem_wait(hungry_lock)`
  to_eat : Place
  -- between `take_fork` and `put_fork`
  at_table : Place
  -- about to post its `think_unlock`
  to_offer : Place
  -- about to wait for it
  to_rest : Place
  -- about to look whether it has to leave
  to_check : Place
  -- it has returned, or was never started
  gone : Place

-- Where the main loop stands: `removePhylo` has waited for the philosopher, or not.
pub data Main : Type 0 where
  free_hand : Main
  removing : Main

-- `SharedData`, the values of the semaphores, and where everybody stands.
pub record Table : Type 0 where
  pub count : ℕ
  pub state : ℕ → PhyloState
  pub hungry_lock : ℕ → ℕ
  pub think_unlock : ℕ → ℕ
  pub place : ℕ → Place
  pub main : Main

-- LEFT and RIGHT
abbrev pub left : ℕ → ℕ → ℕ
left count id = (id + count - 1) % count

abbrev pub right : ℕ → ℕ → ℕ
right count id = (id + 1) % count

unfoldable pub test : Table → ℕ → Table
unfolding update
test t id =
    if is_hungry (t.state id)
      && not (is_eating (t.state (left t.count id)))
      && not (is_eating (t.state (right t.count id)))
    then record t {
      state = update t.state id eating;
      hungry_lock = update t.hungry_lock id (t.hungry_lock id + 1);
    }
    else t

-- The section of `take_fork`.
unfoldable pub take_fork : Table → ℕ → Table
unfolding test update
take_fork t id = test (record t { state = update t.state id hungry }) id

unfoldable pub put_fork : Table → ℕ → Table
unfolding test update
put_fork t id =
    let t1 = record t { state = update t.state id thinking } in
    test (test t1 (left t.count id)) (right t.count id)

-- The section of `addPhylo`, with the process that it starts.
unfoldable pub add_phylo : Table → Table
unfolding update
add_phylo t = record t {
  state = update t.state t.count thinking;
  place = update t.place t.count to_take;
  count = t.count + 1;
}

-- `removePhylo` behind its first wait: the section and the post.
unfoldable pub remove_phylo : Table → Table
unfolding update
remove_phylo t =
    let id = t.count - 1 in
    record t {
      state = update t.state id leaving;
      count = t.count - 1;
      think_unlock = update t.think_unlock id (t.think_unlock id + 1);
      main = free_hand;
    }

abbrev pub stand : Table → ℕ → Place → Table
stand t i p = record t { place = update t.place i p }

pub data Step (t : Table) : Table → Type 0 where
  take_up : (i : ℕ) → t.place i ≡ to_take → Step t (stand (take_fork t i) i to_eat)
  sit :
      (i : ℕ)
      → t.place i ≡ to_eat
      → 0 < t.hungry_lock i
      → Step t (
          stand
            (record t { hungry_lock = update t.hungry_lock i (t.hungry_lock i - 1) })
            i
            at_table)
  rise : (i : ℕ) → t.place i ≡ at_table → Step t (stand (put_fork t i) i to_offer)
  offer :
      (i : ℕ)
      → t.place i ≡ to_offer
      → Step t (
          stand
            (record t { think_unlock = update t.think_unlock i (t.think_unlock i + 1) })
            i
            to_rest)
  rest :
      (i : ℕ)
      → t.place i ≡ to_rest
      → 0 < t.think_unlock i
      → Step t (
          stand
            (record t { think_unlock = update t.think_unlock i (t.think_unlock i - 1) })
            i
            to_check)
  stay : (i : ℕ) → t.place i ≡ to_check → t.state i ≢ leaving → Step t (stand t i to_take)
  leave : (i : ℕ) → t.place i ≡ to_check → t.state i ≡ leaving → Step t (stand t i gone)
  -- A philosopher comes to a place that nobody uses any more.
  add : t.main ≡ free_hand → t.count < max_phylos → t.place t.count ≡ gone → Step t (add_phylo t)
  claim :
      t.main ≡ free_hand
      → min_phylos < t.count
      → 0 < t.think_unlock (t.count - 1)
      → Step t (record t {
        think_unlock = update t.think_unlock (t.count - 1) (t.think_unlock (t.count - 1) - 1);
        main = removing;
      })
  remove : t.main ≡ removing → Step t (remove_phylo t)

-- What `phylo` sets up. It does not initialise `state`: `left_over` is what the array holds.
abbrev pub opening : (ℕ → PhyloState) → Table
opening left_over = record {
  count = 5;
  state = left_over;
  hungry_lock = λ _. 0;
  think_unlock = λ _. 0;
  place = λ i. if ltb i 5 then to_take else gone;
  main = free_hand;
}

-- Whether a step takes a philosopher away.
abbrev pub removes : {t u : Table} → Step t u → Bool
removes (remove e) = true
removes _ = false

-- Runs in which nobody is taken away.
pub data Reach (t : Table) : Table → Type 0 where
  here : Reach t t
  next : {u v : Table} → Reach t u → (st : Step u v) → removes st ≡ false → Reach t v
