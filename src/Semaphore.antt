-- ===== src/Semaphore.antt =====
-- Kernel/semaphore.c: the table of named semaphores, and the protocol of `sem_wait` and `sem_post`.
pub mod Table
pub mod Names
pub mod Open
pub mod Users
pub mod Protocol
pub mod Safety
pub mod Stuck
mod Tests
