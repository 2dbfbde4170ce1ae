-- ===== src/Strings/Kernel.antt =====
-- Kernel/lib.c: `strleng` and `strcpy`, the same loops as in the user library.
use s_o.Base.{ℕ, zero, suc, ◌+◌, ◌<◌, ◌≡◌, ap, ◌∙◌, Option, some, List, [], ◌∷◌, arith, length}
use s_o.UserLib.{Memory, strlen_loop}
use s_o.UserLib.Digits.{strlen_loop-end}
use s_o.Strings.{copy_text}
use s_o.Strings.Copying.{Text}

abbrev pub strleng : ℕ → Memory → ℕ → Option ℕ
strleng fuel mem str = strlen_loop fuel mem str 0

abbrev pub kernel_strcpy : ℕ → Memory → ℕ → ℕ → Option (ℕ × Memory)
kernel_strcpy fuel mem dest src = copy_text fuel mem dest src

Text-positive :
    (xs : List ℕ) (mem : Memory) (p j : ℕ) → Text mem p xs → j < length xs → 0 < mem (p + j)
Text-positive [] mem p j t lt = elim lt [ ]
Text-positive (x ∷ xs) mem p zero t lt =
    let at : mem (p + 0) ≡ mem p = ap mem (omega arith) in omega (arith, at, t.0, t.1)
Text-positive (x ∷ xs) mem p (suc j) t lt =
    let at : mem (p + suc j) ≡ mem (p + 1 + j) = ap mem (omega arith) in
    let rest = Text-positive xs mem (p + 1) j t.2 (omega (arith, lt)) in omega (arith, at, rest)

Text-end : (xs : List ℕ) (mem : Memory) (p : ℕ) → Text mem p xs → mem (p + length xs) ≡ 0
Text-end [] mem p t = ap mem (omega arith) ∙ t
Text-end (x ∷ xs) mem p t = ap mem (omega arith) ∙ Text-end xs mem (p + 1) t.2

-- `strleng` of a text is its length. It ends if the fuel exceeds the length.
pub strleng-Text :
    (xs : List ℕ) (fuel : ℕ) (mem : Memory) (p : ℕ)
    → Text mem p xs
    → length xs < fuel
    → strleng fuel mem p ≡ some (length xs)
strleng-Text xs fuel mem p t enough =
    strlen_loop-end fuel mem p 0 (length xs) (λ j lt. Text-positive xs mem p j t lt)
      (Text-end xs mem p t) (omega arith) (omega (arith, enough))
