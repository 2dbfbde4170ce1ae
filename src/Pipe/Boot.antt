-- ===== src/Pipe/Boot.antt =====
-- Kernel/pipe.c after the boot: no pipe ever comes into use.
use s_o.Base.{
  ℕ, zero, suc, ◌-◌, ◌<◌, ◌≡◌, refl, Bool, true, false, Option, none, some, List, [], ◌∷◌, arith,
  ◌==◌,
}
use s_o.Semaphore.Table.{same_name}
use s_o.Pipe.{Pipe, Call, sem_open, minus_one, max_pipes, pipe_read, pipe_write}
use s_o.Pipe.Table.{
  Request, open_pipe, close_pipe, read_pipe, write_pipe, serve, first_index, find_pipe,
  next_avail_pipe, pipe_close, pipe_open,
}
use s_o.Semaphore.Safety.{inside}

-- The entries as the loader leaves them: zeros.
abbrev pub Unused : Pipe → Type 0
Unused pipe = pipe.name ≡ [] × pipe.initialized ≡ 0 × pipe.in_use ≡ 0 × pipe.fd ≡ 0

abbrev pub AllUnused : (ℕ → Pipe) → Type 0
AllUnused pipes = (i : ℕ) → i < max_pipes → Unused (pipes i)

-- The index of a call is one of the table.
abbrev pub IsInside : Request → Type 0
IsInside (open_pipe name) = Unit
IsInside (close_pipe index) = index < max_pipes
IsInside (read_pipe pid index buff n) = index < max_pipes
IsInside (write_pipe pid index buff n) = index < max_pipes

-- What each call then comes to.
unfoldable pub no_pipe : Request → Option ℕ × List Call
no_pipe (open_pipe []) = (some 0, [])
no_pipe (open_pipe (c ∷ name)) = (some 0, sem_open (c ∷ name) 1 ∷ [])
no_pipe (close_pipe index) = (none, [])
no_pipe (read_pipe pid index buff n) = (some minus_one, [])
no_pipe (write_pipe pid index buff n) = (some minus_one, [])

first_index-all :
    (test : ℕ → Bool) (left : ℕ)
    → ((i : ℕ) → i < max_pipes → test i ≡ true)
    → first_index test (suc left) ≡ some (max_pipes - suc left)
unfolding first_index
first_index-all test left h = rw (h (max_pipes - suc left) (omega arith)) refl

first_index-none :
    (test : ℕ → Bool) (left : ℕ)
    → ((i : ℕ) → i < max_pipes → test i ≡ false)
    → first_index test left ≡ none
unfolding first_index
first_index-none test zero h = refl
first_index-none test (suc left) h =
    rw (h (max_pipes - suc left) (omega arith)) (first_index-none test left h)

find_unnamed : (pipes : ℕ → Pipe) → AllUnused pipes → find_pipe pipes [] ≡ some 0
unfolding find_pipe same_name
find_unnamed pipes h =
    first_index-all (λ i. same_name (pipes i).name []) 49 (λ i lt. rw ((h i lt).0) refl)

find_named :
    (pipes : ℕ → Pipe) (c : ℕ) (name : List ℕ) → AllUnused pipes → find_pipe pipes (c ∷ name) ≡ none
unfolding find_pipe same_name
find_named pipes c name h =
    first_index-none (λ i. same_name (pipes i).name (c ∷ name)) 50 (λ i lt. rw ((h i lt).0) refl)

avail_first : (pipes : ℕ → Pipe) → AllUnused pipes → next_avail_pipe pipes ≡ some 0
unfolding next_avail_pipe
avail_first pipes h = first_index-all (λ i. (pipes i).in_use == 0) 49 (λ i lt. rw ((h i lt).2) refl)

open_unnamed :
    (pipes : ℕ → Pipe)
    → AllUnused pipes
    → (pipe_open pipes []).0 ≡ 0 × (pipe_open pipes []).1.0 ≡ []
unfolding pipe_open
open_unnamed pipes h = rw (pipe_open, find_unnamed pipes h, (h 0 (omega arith)).3) (refl, refl)

open_named :
    (pipes : ℕ → Pipe) (c : ℕ) (name : List ℕ)
    → AllUnused pipes
    → (pipe_open pipes (c ∷ name)).0 ≡ 0
      × (pipe_open pipes (c ∷ name)).1.0 ≡ sem_open (c ∷ name) 1 ∷ []
unfolding pipe_open
open_named pipes c name h =
    rw (pipe_open, find_named pipes c name h, avail_first pipes h, (h 0 (omega arith)).3)
      (refl, refl)

-- While the table is as the boot leaves it, and no call with an index of the table changes that, every
-- open returns 0, for an empty name without a semaphore, every read and every write of an index of the
-- table returns -1 and calls nobody, and a close of one does nothing.
pub serve-no_pipe :
    (pipes : ℕ → Pipe) (r : Request) → AllUnused pipes → IsInside r → serve pipes r ≡ no_pipe r
unfolding serve no_pipe pipe_close pipe_read pipe_write
serve-no_pipe pipes (open_pipe []) h inside =
    rw ((open_unnamed pipes h).0, (open_unnamed pipes h).1) refl
serve-no_pipe pipes (open_pipe (c ∷ name)) h inside =
    rw ((open_named pipes c name h).0, (open_named pipes c name h).1) refl
serve-no_pipe pipes (close_pipe index) h inside = rw ((h index inside).1) refl
serve-no_pipe pipes (read_pipe pid index buff n) h inside = rw ((h index inside).1) refl
serve-no_pipe pipes (write_pipe pid index buff n) h inside = rw ((h index inside).1) refl
