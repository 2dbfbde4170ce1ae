-- ===== src/Syscalls/Tables.antt =====
-- The calls on the semaphores keep the names of the semaphores in use different.
use s_o.Base.{ℕ, ◌≡◌, refl, subst, Option, none, some, List}
use s_o.Semaphore.Table.{
  Table, close_sem, kept, open_sem, post_sem, sem_close, sem_open, sem_post, serve,
}
use s_o.Semaphore.Names.{Distinct}
use s_o.Semaphore.Open.{serve-Distinct}
use s_o.Syscalls.Names.{sem_answer, sys_sem_close, sys_sem_open, sys_sem_post}

answer-kept : (t : Table) (o : Option Table) → kept t o ≡ (sem_answer t o).1
unfolding kept
answer-kept t none = refl
answer-kept t (some u) = refl

pub sem_open-Distinct :
    (t : Table) (name : List ℕ) (v : ℕ) → Distinct t → Distinct (sys_sem_open t name v).1
unfolding serve
sem_open-Distinct t name v d =
    subst Distinct (answer-kept t (sem_open t name v)) (serve-Distinct t (open_sem name v) d)

pub sem_post-Distinct : (t : Table) (name : List ℕ) → Distinct t → Distinct (sys_sem_post t name).1
unfolding serve
sem_post-Distinct t name d =
    subst Distinct (answer-kept t (sem_post t name)) (serve-Distinct t (post_sem name) d)

pub sem_close-Distinct :
    (t : Table) (name : List ℕ) → Distinct t → Distinct (sys_sem_close t name).1
unfolding serve
sem_close-Distinct t name d =
    subst Distinct (answer-kept t (sem_close t name)) (serve-Distinct t (close_sem name) d)
