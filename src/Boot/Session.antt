-- ===== src/Boot/Session.antt =====
-- From the boot of Kernel/kernel.c to the calls of the processes in Kernel/syscallManager.c.
use s_o.Base.{ℕ, ◌+◌, Option, some}
use s_o.KernelLib.{Memory}
use s_o.Modules.{load_modules}
use s_o.MemoryManager.{manager_size}
use s_o.Syscalls.Kernel.{Kernel}
use s_o.Boot.Start.{Started, module_addresses, start_of_mem}

-- The first address of the heap.
abbrev pub heap_start : ℕ → Memory → ℕ → ℕ
heap_start garbage mem end_of_binary =
    start_of_mem (load_modules garbage mem end_of_binary module_addresses).end_of_modules
    + manager_size

some_started : Option Started → Started → Started
some_started (some r) other = r
some_started _ other = other
