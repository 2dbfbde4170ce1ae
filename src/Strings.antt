-- ===== src/Strings.antt =====
-- Userland/uCodeModule/lib.c: copying, joining and comparing strings.
-- `none` stands for the fuel used up before the NUL is found.
pub mod Copying
pub mod Joining
pub mod Comparing
pub mod Searching
pub mod Kernel
mod Tests
use s_o.Base.{
  ℕ, zero, suc, ◌+◌, ◌-◌, not, ◌&&◌, ◌||◌, Option, none, some, ◌==◌, if◌then◌else◌, update,
}
use s_o.UserLib.{Memory}

-- `for (; *src != 0;) *(aux++) = *(src++); *aux = 0;` The result is `aux` and memory.
unfoldable pub copy_text : ℕ → Memory → ℕ → ℕ → Option (ℕ × Memory)
unfolding update
copy_text zero mem aux src = none
copy_text (suc fuel) mem aux src =
    let rest = copy_text fuel (update mem aux (mem src)) (aux + 1) (src + 1) in
    if mem src == 0 then some (aux, update mem aux 0) else rest

abbrev pub strcpy : ℕ → Memory → ℕ → ℕ → Option (ℕ × Memory)
strcpy fuel mem dest src = copy_text fuel mem dest src

-- `for (aux = dest; *aux != 0; aux++);`
unfoldable pub find_end : ℕ → Memory → ℕ → Option ℕ
find_end zero mem aux = none
find_end (suc fuel) mem aux =
    let rest = find_end fuel mem (aux + 1) in if mem aux == 0 then some aux else rest

unfoldable pub strcat : ℕ → Memory → ℕ → ℕ → Option (ℕ × Memory)
unfolding find_end copy_text
strcat fuel mem dest src = elim (find_end fuel mem dest) [
  | none ↦ none
  | some aux ↦ copy_text fuel mem aux src
]

-- The loop of `strncpy` and `strncat`, which also stops when the count reaches 0.
unfoldable pub copy_part : ℕ → Memory → ℕ → ℕ → ℕ → Option (ℕ × Memory)
unfolding update
copy_part zero mem aux src n = none
copy_part (suc fuel) mem aux src n =
    let rest = copy_part fuel (update mem aux (mem src)) (aux + 1) (src + 1) (n - 1) in
    if mem src == 0 || n == 0 then some (aux, update mem aux 0) else rest

abbrev pub strncpy : ℕ → Memory → ℕ → ℕ → ℕ → Option (ℕ × Memory)
strncpy fuel mem dest src n = copy_part fuel mem dest src n

unfoldable pub strncat : ℕ → Memory → ℕ → ℕ → ℕ → Option (ℕ × Memory)
unfolding find_end copy_part
strncat fuel mem dest src n = elim (find_end fuel mem dest) [
  | none ↦ none
  | some aux ↦ copy_part fuel mem aux src n
]

-- `for (; *str1 == *str2 && *str1 != 0; str1++, str2++);` The result is the two characters whose
-- difference `strcmp` returns.
unfoldable pub strcmp : ℕ → Memory → ℕ → ℕ → Option (ℕ × ℕ)
strcmp zero mem str1 str2 = none
strcmp (suc fuel) mem str1 str2 =
    let rest = strcmp fuel mem (str1 + 1) (str2 + 1) in
    if mem str1 == mem str2 && not (mem str1 == 0) then rest else some (mem str1, mem str2)
