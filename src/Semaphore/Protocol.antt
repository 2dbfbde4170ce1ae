-- ===== src/Semaphore/Protocol.antt =====
-- `sem_wait` and `sem_post` on one semaphore as the atomic steps of the processes that call them.
-- Any process may take the next step: this includes every order that the scheduler allows, with
-- `disableScheduler` and without. Changes of scheduling state (`processReady`, `forceNextSwitch`)
-- only decide who runs next.
use s_o.Base.{ℕ, ◌+◌, ◌-◌, ◌%◌, ◌^◌, ◌<◌, ◌≡◌, ◌≢◌, ◌||◌, ◌==◌, if◌then◌else◌, update, add64, sub64}

-- The fields of `sem_ts` that the protocol uses.
pub record Shared : Type 0 where
  pub value : ℕ
  pub lock : ℕ
  pub blocked_processes : ℕ → ℕ
  pub blocked_first : ℕ
  pub blocked_last : ℕ

abbrev pub max_proc : ℕ
max_proc = 50

-- `(uint64_t) -1`
abbrev pub no_pid : ℕ
no_pid = 2 ^ 64 - 1

-- Where a process stands.
pub data Pc : Type 0 where
  -- outside, or returned
  idle : Pc
  -- `while (!checkSem(sem))`: about to exchange the lock
  check : Pc
  -- the exchange gave 0: about to read the value
  got : Pc
  -- `blocked_processes[last % MAX_PROC] = pid` and `blocked_last + 1`
  enqueue : Pc
  -- `if (checkSem(sem))`, inside the loop
  recheck : Pc
  regot : Pc
  -- the second check passed: the entry is taken back
  dequeue : Pc
  -- `sem->value--`: about to load the value, and about to store what is loaded less one
  pass : Pc
  storing : ℕ → Pc
  -- `sem->lock = 0`
  unlock : Pc

-- `updateProc`: the oldest waiter leaves the queue.
unfoldable pub update_proc : Shared → Shared
unfolding update
update_proc s =
    let slot = s.blocked_first % max_proc in
    if s.blocked_last == s.blocked_first || s.blocked_processes slot == no_pid
    then s
    else record s {
      blocked_first = add64 s.blocked_first 1;
      blocked_processes = update s.blocked_processes slot no_pid;
    }

-- The increment of `sem_post`, and `updateProc`.
unfoldable pub post : Shared → Shared
post s = update_proc (record s { value = add64 s.value 1 })

unfoldable pub push : Shared → ℕ → Shared
unfolding update
push s pid = record s {
  blocked_processes = update s.blocked_processes (s.blocked_last % max_proc) pid;
  blocked_last = add64 s.blocked_last 1;
}

-- `while ((last = blocked_last) != blocked_first && _cmpxchg(...) != last);`
unfoldable pub pop : Shared → Shared
pop s =
    if s.blocked_last == s.blocked_first
    then s
    else record s { blocked_last = sub64 s.blocked_last 1 }

-- One step of process `pid`. A post is counted up to the range of the value.
pub data Move (pid : ℕ) : Shared → Pc → Shared → Pc → Type 0 where
  start : (s : Shared) → Move pid s idle s check
  xchg_free : (s : Shared) → s.lock ≡ 0 → Move pid s check (record s { lock = 1 }) got
  xchg_held : (s : Shared) → s.lock ≢ 0 → Move pid s check (record s { lock = 1 }) enqueue
  read_some : (s : Shared) → 0 < s.value → Move pid s got s pass
  read_none : (s : Shared) → s.value ≡ 0 → Move pid s got s enqueue
  queue : (s : Shared) → Move pid s enqueue (push s pid) recheck
  rexchg_free : (s : Shared) → s.lock ≡ 0 → Move pid s recheck (record s { lock = 1 }) regot
  rexchg_held : (s : Shared) → s.lock ≢ 0 → Move pid s recheck (record s { lock = 1 }) check
  reread_some : (s : Shared) → 0 < s.value → Move pid s regot s dequeue
  reread_none : (s : Shared) → s.value ≡ 0 → Move pid s regot s check
  unqueue : (s : Shared) → Move pid s dequeue (pop s) pass
  load : (s : Shared) → Move pid s pass s (storing s.value)
  store : (s : Shared) (v : ℕ) → Move pid s (storing v) (record s { value = sub64 v 1 }) unlock
  release : (s : Shared) → Move pid s unlock (record s { lock = 0 }) idle
  signal : (s : Shared) → s.value + 1 < 2 ^ 64 → Move pid s idle (post s) idle

-- The semaphore, where each process stands, and, for the statements, how many waits have taken a
-- unit and how many posts there were.
pub record System : Type 0 where
  pub mem : Shared
  pub pc : ℕ → Pc
  pub taken : ℕ
  pub posted : ℕ

abbrev pub takes : {pid : ℕ} {s s' : Shared} {p p' : Pc} → Move pid s p s' p' → ℕ
takes (store s v) = 1
takes _ = 0

abbrev pub posts : {pid : ℕ} {s s' : Shared} {p p' : Pc} → Move pid s p s' p' → ℕ
posts (signal s h) = 1
posts _ = 0

-- The system when process `i` has taken one step.
abbrev pub after :
    (t : System) (i : ℕ) {m' : Shared} {p' : Pc} → Move i t.mem (t.pc i) m' p' → System
after t i {m'} {p'} mv = record {
  mem = m';
  pc = update t.pc i p';
  taken = t.taken + takes mv;
  posted = t.posted + posts mv;
}

pub data Step (t : System) : System → Type 0 where
  pick : (i : ℕ) {m' : Shared} {p' : Pc} (mv : Move i t.mem (t.pc i) m' p') → Step t (after t i mv)

-- `semInit` with the given value; nobody is inside.
abbrev pub init : ℕ → System
init value = record {
  mem = record {
    value = value;
    lock = 0;
    blocked_processes = λ _. no_pid;
    blocked_first = 0;
    blocked_last = 0;
  };
  pc = λ _. idle;
  taken = 0;
  posted = 0;
}

pub data Reach (s : System) : System → Type 0 where
  here : Reach s s
  next : {t u : System} → Reach s t → Step t u → Reach s u
