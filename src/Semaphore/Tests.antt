-- ===== src/Semaphore/Tests.antt =====
-- Kernel/semaphore.c at concrete inputs.
use s_o.Semaphore.Table.{Table, Call, close_sem, open_sem, serve}
use s_o.Base.{ℕ, ◌+◌, ◌≤◌, ◌≡◌, refl, ◌≢◌, inl, List, [], ◌∷◌, arith, update}
use s_o.Semaphore.Protocol.{
  System, Reach, after, here, init, next, pick, read_none, read_some, signal, start, xchg_free,
  post, update_proc,
}
use s_o.Semaphore.Safety.{Reach-account, inside_unique}
use s_o.Semaphore.Stuck.{lost_lock}

-- Process 3 enters a semaphore with one unit and has taken the lock.
abbrev one_started : System
unfolding update
one_started = after (init 1) 3 (start (init 1).mem)

abbrev one_taken : System
unfolding update
one_taken = after one_started 3 (xchg_free one_started.mem refl)

one_taken-Reach : Reach (init 1) one_taken
unfolding update
one_taken-Reach =
    next (next here (pick 3 (start (init 1).mem))) (pick 3 (xchg_free one_started.mem refl))

abbrev one_pass : System
unfolding update
one_pass = after one_taken 3 (read_some one_taken.mem (omega arith))

one_pass-Reach : Reach (init 1) one_pass
unfolding update
one_pass-Reach = next one_taken-Reach (pick 3 (read_some one_taken.mem (omega arith)))

inside_unique_example : ◌≡◌ {A = ℕ} 3 3
unfolding update
inside_unique_example = inside_unique (omega arith) one_pass-Reach 3 3 refl refl

Reach-account_example : 1 + 0 ≤ 1 + 0
unfolding update
Reach-account_example = Reach-account (omega arith) one_pass-Reach

-- Process 3 enters a semaphore without units; process 4 then posts.
abbrev empty_started : System
unfolding update
empty_started = after (init 0) 3 (start (init 0).mem)

abbrev empty_taken : System
unfolding update
empty_taken = after empty_started 3 (xchg_free empty_started.mem refl)

empty_taken-Reach : Reach (init 0) empty_taken
unfolding update
empty_taken-Reach =
    next (next here (pick 3 (start (init 0).mem))) (pick 3 (xchg_free empty_started.mem refl))

abbrev empty_lost : System
unfolding update
empty_lost = after empty_taken 3 (read_none empty_taken.mem refl)

abbrev empty_posted : System
unfolding update post update_proc
empty_posted = after empty_lost 4 (signal empty_lost.mem (omega arith))

lost_lock_example : (empty_posted.mem.lock ≢ 0) × (empty_posted.taken ≡ 0)
unfolding update post update_proc
lost_lock_example =
    lost_lock (omega arith) empty_taken-Reach 3 (inl refl) refl (read_none empty_taken.mem refl)
      (next here (pick 4 (signal empty_lost.mem (omega arith))))

-- The table at boot: no entry is in use. The kernel then opens two semaphores.
abbrev blank : Table
blank = λ i. record { sem_id = 0; name = []; open_count = 0; shared = (init 0).mem }

abbrev mutex_pid : List ℕ
mutex_pid = 80 ∷ 73 ∷ 68 ∷ []

abbrev mutex_scheduler : List ℕ
mutex_scheduler = 83 ∷ 67 ∷ []

abbrev boot_calls : List Call
boot_calls =
    open_sem mutex_pid 1
    ∷ open_sem mutex_scheduler 1
    ∷ open_sem mutex_pid 5
    ∷ close_sem mutex_scheduler
    ∷ []

abbrev one_open : Table
one_open = serve blank (open_sem mutex_pid 1)
