-- ===== src/Keyboard.antt =====
-- Kernel/keyboardDriver.c and the read calls of Kernel/syscallManager.c.
pub mod Driver
pub mod Reading
mod Keys
mod Rounds
pub mod Lines
pub mod Overflow
pub mod Room
mod Tests
