-- ===== src/MemoryManager/Header.antt =====
-- Pointers, and the sizes of Kernel/include/MemoryManager.h.
use s_o.Base.{ℕ, ◌+◌}

abbrev pub Ptr : Type 0
Ptr = ℕ

abbrev pub null : Ptr
null = 0

-- `sizeof(MemBlock)`, `sizeof(MemoryManager)`, `sizeof(size_t)` and MIN_BLOCK_SIZE
abbrev pub header : ℕ
header = 24

abbrev pub manager_size : ℕ
manager_size = 16

abbrev pub word : ℕ
word = 8

abbrev pub min_block_size : ℕ
min_block_size = header + 100
