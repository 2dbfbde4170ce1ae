-- ===== src/Exceptions/Tests.antt =====
-- A division by zero on a screen of three lines, with 180 ticks of the timer.
use s_o.Base.{ℕ, zero, suc, ◌+◌, ◌≤◌, ◌≡◌, ◌≢◌, ◌⊎◌, List, [], ◌∷◌, arith, All}
use s_o.UserLib.{Memory}
use s_o.Video.{Screen}
use s_o.Syscalls.Clock.{milliseconds_elapsed}
use s_o.Exceptions.{exception_dispatcher, returned, to_shell}
use s_o.Exceptions.Shown.{Kept, exception_dispatcher-ends}

abbrev screen : Screen
screen = record { width = 40; height = 48; pixels = λ n. 7; pos_x = 3; y_char = 1; font_size = 1 }

abbrev filled : ℕ → ℕ
filled n = 255

abbrev memory : Memory
memory p = 9

abbrev ones : ℕ → List ℕ
ones zero = []
ones (suc n) = 1 ∷ ones n

ones-steady : (n : ℕ) → All (λ passed. passed ≤ 1) (ones n)
ones-steady zero = tt
ones-steady (suc n) = (omega arith, ones-steady n)

exception_dispatcher-ends_example :
    ((◌≢◌ {A = ℕ} 0 0)
      × (◌≢◌ {A = ℕ} 0 6)
      × (exception_dispatcher (ones 180) 36 filled 500 filled 0 (screen, memory) ≡ returned))
    ⊎ ((shown : Screen × Memory) × (t : ℕ) × (exception_dispatcher
            (ones 180)
            36
            filled
            500
            filled
            0
            (screen, memory)
          ≡ to_shell shown t)
        × Kept screen shown.0
        × (milliseconds_elapsed 36 + 10000 ≤ milliseconds_elapsed t))
exception_dispatcher-ends_example =
    exception_dispatcher-ends (ones 180) 36 filled 500 filled 0 screen memory (omega arith)
      (ones-steady 180) (omega arith) (omega arith)
