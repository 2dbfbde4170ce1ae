-- ===== src/Semaphore/Table.antt =====
-- Kernel/semaphore.c: the table `semaphores` of named semaphores, and `sem_open`, `sem_post` and
-- `sem_close` on it, for one caller at a time. A name is the list of its bytes before the NUL.
use s_o.Base.{
  ℕ, zero, suc, ◌+◌, ◌*◌, ◌%◌, ◌^◌, Bool, true, false, not, ◌&&◌, ◌||◌, Option, none, some, List,
  [], ◌∷◌, leb, ◌==◌, if◌then◌else◌, update, add64, sub64,
}
use s_o.Semaphore.Protocol.{Shared, init, post}

-- `sem_ts`, with the fields of the protocol together.
pub record Sem : Type 0 where
  pub sem_id : ℕ
  pub name : List ℕ
  pub open_count : ℕ
  pub shared : Shared

abbrev pub max_sems : ℕ
max_sems = 256

abbrev pub Table : Type 0
Table = ℕ → Sem

-- `strcmp(a, b) == 0`
unfoldable pub same_name : List ℕ → List ℕ → Bool
same_name [] [] = true
same_name [] (b ∷ ys) = false
same_name (a ∷ xs) [] = false
same_name (a ∷ xs) (b ∷ ys) = a == b && same_name xs ys

abbrev pub exist : ℕ → Bool
exist i = not (i % 2 == 0)

-- The first index from `i` on, of `n`, that a test accepts: the loops of `findSem` and `getName`.
unfoldable pub first : (ℕ → Bool) → ℕ → ℕ → Option ℕ
first p zero i = none
first p (suc n) i = let rest = first p n (i + 1) in if p i then some i else rest

abbrev pub find_sem : Table → Option ℕ
find_sem t = first (λ i. not (exist (t i).sem_id)) max_sems 0

abbrev pub carries : Sem → List ℕ → Bool
carries e name = same_name e.name name && exist e.sem_id

abbrev pub named : Table → List ℕ → ℕ → Bool
named t name i = carries (t i) name

abbrev pub get_name : Table → List ℕ → Option ℕ
get_name t name = first (named t name) max_sems 0

-- The entry that `semInit` writes; `value` is the argument converted to `uint64_t`.
abbrev pub fresh : ℕ → List ℕ → ℕ → Sem
fresh index name value = record {
  sem_id = index * 2 + 1;
  name = name;
  open_count = 0;
  shared = (init value).mem;
}

-- The index it returns is 0, whichever entry it writes.
unfoldable pub sem_init : Table → List ℕ → ℕ → Option (ℕ × Table)
unfolding update
sem_init t name value = elim (find_sem t) [
  | none ↦ none
  | some i ↦ some (0, update t i (fresh i name value))
]

-- The increment of `open_count`.
unfoldable pub opened : Table → ℕ → Table
unfolding update
opened t i = update t i (record (t i) { open_count = add64 (t i).open_count 1 })

-- `none` for the result -1.
unfoldable pub sem_open : Table → List ℕ → ℕ → Option Table
sem_open t name value = elim (get_name t name) [
  | some i ↦ some (opened t i)
  | none ↦ elim (sem_init t name value) [ none ↦ none | some r ↦ some (opened r.1 r.0) ]
]

unfoldable pub sem_post : Table → List ℕ → Option Table
unfolding update
sem_post t name = elim (get_name t name) [
  | none ↦ none
  | some i ↦ some (update t i (record (t i) { shared = post (t i).shared }))
]

-- `(int) count < 1`
abbrev pub last_user : ℕ → Bool
last_user count = (count % 2 ^ 32 == 0) || leb (2 ^ 31) (count % 2 ^ 32)

unfoldable pub closed : ℕ → Sem → Sem
closed index s =
    let count = sub64 s.open_count 1 in
    if last_user count
    then record s { open_count = count; sem_id = 2 * index; name = [] }
    else record s { open_count = count }

unfoldable pub sem_close : Table → List ℕ → Option Table
unfolding update
sem_close t name = elim (get_name t name) [
  | none ↦ none
  | some i ↦ some (update t i (closed i (t i)))
]

-- How many of the `n` entries from `i` on are in use.
unfoldable pub count_from : Table → ℕ → ℕ → ℕ
count_from t zero i = 0
count_from t (suc n) i =
    let rest = count_from t n (i + 1) in if exist (t i).sem_id then rest + 1 else rest

abbrev pub get_sem_count : Table → ℕ
get_sem_count t = count_from t max_sems 0

-- The calls of the processes on the table. A call that fails changes nothing.
pub data Call : Type 0 where
  open_sem : List ℕ → ℕ → Call
  post_sem : List ℕ → Call
  close_sem : List ℕ → Call

unfoldable pub kept : Table → Option Table → Table
kept t none = t
kept t (some u) = u

unfoldable pub serve : Table → Call → Table
serve t (open_sem name value) = kept t (sem_open t name value)
serve t (post_sem name) = kept t (sem_post t name)
serve t (close_sem name) = kept t (sem_close t name)

unfoldable pub serve_all : Table → List Call → Table
serve_all t [] = t
serve_all t (c ∷ cs) = serve_all (serve t c) cs
