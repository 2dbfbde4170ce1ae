-- ===== src/Syscalls.antt =====
-- Kernel/syscallManager.c: the system calls, one after the other, on the state of the whole kernel.
-- The calls that halt until an interrupt are in Keyboard/Reading and Syscalls/Clock. A call of a pipe
-- ends with the calls of the scheduler and of the semaphores that it still makes.
pub mod Names
pub mod Thin
pub mod Source
pub mod Kernel
pub mod Clock
pub mod Speaker
pub mod Waiting
pub mod Tables
pub mod Display
pub mod Sound
pub mod Runs
mod Tests
