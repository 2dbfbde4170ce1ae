-- ===== src/Syscalls/Names.antt =====
-- The calls of Kernel/syscallManager.c on the semaphores, and those that Kernel/pipe.c makes.
use s_o.Base.{ℕ, ◌-◌, ◌^◌, Option, none, some, List}
pub use s_o.Semaphore.Table.{Table}
use s_o.Semaphore.Table.{sem_close, sem_open, sem_post}

-- The number returned, 0 or -1, and the table.
abbrev pub sem_answer : Table → Option Table → ℕ × Table
sem_answer t none = (2 ^ 32 - 1, t)
sem_answer t (some u) = (0, u)

abbrev pub sys_sem_open : Table → List ℕ → ℕ → ℕ × Table
sys_sem_open t name value = sem_answer t (sem_open t name value)

abbrev pub sys_sem_post : Table → List ℕ → ℕ × Table
sys_sem_post t name = sem_answer t (sem_post t name)

abbrev pub sys_sem_close : Table → List ℕ → ℕ × Table
sys_sem_close t name = sem_answer t (sem_close t name)
