-- ===== src/Exceptions.antt =====
-- Kernel/exceptions.c: the two exceptions that the kernel handles.
-- A text is the list of its bytes before the NUL. `registers` is what the assembly has saved.
pub mod Shown
mod Tests
use s_o.Base.{
  ℕ, zero, suc, ◌+◌, ◌-◌, ◌*◌, ◌^◌, Option, none, some, List, [], ◌∷◌, ◌==◌, if◌then◌else◌, get_or,
}
use s_o.UserLib.{Memory}
use s_o.Video.{Screen, clear_screen, color_screen}
use s_o.Video.Text.{print_string, print_string_at}
use s_o.Video.Text.Numbers.{print_base}
use s_o.Syscalls.Kernel.{red}
use s_o.Syscalls.Clock.{sys_wait}

-- "Divide Zero Exception"
abbrev pub error0 : List ℕ
error0 =
    68 ∷ 105 ∷ 118 ∷ 105 ∷ 100 ∷ 101 ∷ 32 ∷ 90 ∷ 101 ∷ 114 ∷ 111 ∷ 32 ∷ 69 ∷ 120 ∷ 99 ∷ 101 ∷ 112
    ∷ 116 ∷ 105 ∷ 111 ∷ 110 ∷ []

-- "Invalid Operand Code Exception"
abbrev pub error6 : List ℕ
error6 =
    73 ∷ 110 ∷ 118 ∷ 97 ∷ 108 ∷ 105 ∷ 100 ∷ 32 ∷ 79 ∷ 112 ∷ 101 ∷ 114 ∷ 97 ∷ 110 ∷ 100 ∷ 32 ∷ 67
    ∷ 111 ∷ 100 ∷ 101 ∷ 32 ∷ 69 ∷ 120 ∷ 99 ∷ 101 ∷ 112 ∷ 116 ∷ 105 ∷ 111 ∷ 110 ∷ []

-- "YOU WILL BE RETURNED TO THE SHELL IN TEN SECONDS", with a line end before it and two behind it
abbrev pub notice : List ℕ
notice =
    10 ∷ 89 ∷ 79 ∷ 85 ∷ 32 ∷ 87 ∷ 73 ∷ 76 ∷ 76 ∷ 32 ∷ 66 ∷ 69 ∷ 32 ∷ 82 ∷ 69 ∷ 84 ∷ 85 ∷ 82 ∷ 78
    ∷ 69 ∷ 68 ∷ 32 ∷ 84 ∷ 79 ∷ 32 ∷ 84 ∷ 72 ∷ 69 ∷ 32 ∷ 83 ∷ 72 ∷ 69 ∷ 76 ∷ 76 ∷ 32 ∷ 73 ∷ 78 ∷ 32
    ∷ 84 ∷ 69 ∷ 78 ∷ 32 ∷ 83 ∷ 69 ∷ 67 ∷ 79 ∷ 78 ∷ 68 ∷ 83 ∷ 10 ∷ 10 ∷ []

-- `REGISTER_NAMES`, from "RIP" and "RAX" to "R15".
abbrev pub register_names : List (List ℕ)
register_names =
    (82 ∷ 73 ∷ 80 ∷ [])
    ∷ (82 ∷ 65 ∷ 88 ∷ [])
    ∷ (82 ∷ 66 ∷ 88 ∷ [])
    ∷ (82 ∷ 67 ∷ 88 ∷ [])
    ∷ (82 ∷ 68 ∷ 88 ∷ [])
    ∷ (82 ∷ 83 ∷ 73 ∷ [])
    ∷ (82 ∷ 68 ∷ 73 ∷ [])
    ∷ (82 ∷ 66 ∷ 80 ∷ [])
    ∷ (82 ∷ 83 ∷ 80 ∷ [])
    ∷ (82 ∷ 56 ∷ 32 ∷ [])
    ∷ (82 ∷ 57 ∷ 32 ∷ [])
    ∷ (82 ∷ 49 ∷ 48 ∷ [])
    ∷ (82 ∷ 49 ∷ 49 ∷ [])
    ∷ (82 ∷ 49 ∷ 50 ∷ [])
    ∷ (82 ∷ 49 ∷ 51 ∷ [])
    ∷ (82 ∷ 49 ∷ 52 ∷ [])
    ∷ (82 ∷ 49 ∷ 53 ∷ [])
    ∷ []

abbrev pub register_num : ℕ
register_num = 17

-- Colours by their bytes, the blue one first.
abbrev pub green : ℕ
green = 31 + 2 ^ 8 * 237 + 2 ^ 16 * 17

abbrev pub magenta : ℕ
magenta = 135 + 2 ^ 8 * 24 + 2 ^ 16 * 214

abbrev pub six_tabs : List ℕ
six_tabs = 9 ∷ 9 ∷ 9 ∷ 9 ∷ 9 ∷ 9 ∷ []

-- A round of the loop of `printSavedRegisters`.
unfoldable pub print_register : (ℕ → ℕ) → ℕ → List ℕ → ℕ → Screen × Memory → Screen × Memory
unfolding print_string_at
print_register font buffer name value (s, mem) =
    let named = print_string font (print_string font s name magenta) six_tabs magenta in
    let (s1, m) = print_base font buffer named mem value 2 in
    (print_string font s1 (10 ∷ []) magenta, m)

-- The loop, from the register with number `i`, for the rounds that are left.
unfoldable pub print_registers :
    ℕ → (ℕ → ℕ) → ℕ → (ℕ → ℕ) → List (List ℕ) → ℕ → Screen × Memory → Screen × Memory
unfolding print_register
print_registers zero font buffer registers names i shown = shown
print_registers (suc rounds) font buffer registers names i shown =
    print_registers rounds font buffer registers names (i + 1)
      (print_register font buffer (get_or names i []) (registers i) shown)

abbrev pub print_saved_registers : (ℕ → ℕ) → ℕ → (ℕ → ℕ) → Screen × Memory → Screen × Memory
print_saved_registers font buffer registers shown =
    print_registers (register_num - 1) font buffer registers register_names 0 shown

-- The screen behind the messages of `endException`. BLUE is 255.
unfoldable pub show_exception : (ℕ → ℕ) → ℕ → (ℕ → ℕ) → List ℕ → Screen × Memory → Screen × Memory
unfolding print_string_at print_registers
show_exception font buffer registers error (s, mem) =
    let titled = print_string_at font (color_screen s 255) 0 0 error red in
    print_saved_registers font buffer registers (print_string font titled notice green, mem)

-- How far an exception gets: it returns, it waits in `sys_wait`, or it starts the shell again at some
-- number of ticks.
pub data Handled : Type 0 where
  returned : Handled
  waiting : Screen × Memory → Handled
  to_shell : Screen × Memory → ℕ → Handled

abbrev pub waited : Screen × Memory → Option ℕ → Handled
waited shown none = waiting shown
waited shown (some ticks) = to_shell shown ticks

abbrev pub end_exception : List ℕ → ℕ → (ℕ → ℕ) → ℕ → (ℕ → ℕ) → List ℕ → Screen × Memory → Handled
end_exception halts ticks font buffer registers error shown =
    waited (show_exception font buffer registers error shown) (sys_wait halts 10000 ticks)

-- The message of an exception: `divideZeroException` is called for 0, `invalidOpcodeException` for 6.
unfoldable pub error_of : ℕ → Option (List ℕ)
error_of e = if e == 0 then some error0 else (if e == 6 then some error6 else none)

abbrev pub dispatched :
    List ℕ → ℕ → (ℕ → ℕ) → ℕ → (ℕ → ℕ) → Screen × Memory → Option (List ℕ) → Handled
dispatched halts ticks font buffer registers shown none = returned
dispatched halts ticks font buffer registers (s, mem) (some error) =
    end_exception halts ticks font buffer registers error (clear_screen s, mem)

-- `halts` are the ticks that pass at each halt.
abbrev pub exception_dispatcher : List ℕ → ℕ → (ℕ → ℕ) → ℕ → (ℕ → ℕ) → ℕ → Screen × Memory → Handled
exception_dispatcher halts ticks font buffer registers e shown =
    dispatched halts ticks font buffer registers shown (error_of e)
