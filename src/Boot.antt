-- ===== src/Boot.antt =====
-- Kernel/kernel.c, Kernel/idtLoader.c and `init_scheduler` of Kernel/scheduler.c: what the kernel sets
-- up before the first process runs. The addresses of the handlers and of the ends of the kernel are
-- what the linker gives.
pub mod Idt
pub mod Start
pub mod Session
mod Tests
