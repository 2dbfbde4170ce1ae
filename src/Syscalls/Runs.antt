-- ===== src/Syscalls/Runs.antt =====
-- Any sequence of system calls: what it keeps of the kernel's state.
use s_o.Syscalls.Kernel.{Kernel}
