-- ===== src/KernelLib/Tests.antt =====
-- `memset` and `memcpy` at concrete areas.
use s_o.Base.{◌%◌, ◌≡◌, inr, arith}
use s_o.KernelLib.{Memory, memcpy}
use s_o.KernelLib.Copy.{memcpy-copied, copied}

-- Every byte tells its address.
abbrev ramp : Memory
ramp = λ a. a % 256

-- Eight bytes, word by word.
memcpy-copied_example : memcpy ramp 64 16 8 66 ≡ copied ramp 64 16 8 66
memcpy-copied_example = memcpy-copied ramp 64 16 8 66 (inr (omega arith))
