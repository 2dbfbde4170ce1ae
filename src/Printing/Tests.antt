-- ===== src/Printing/Tests.antt =====
-- Runs of `print` and `numToBase` of Kernel/lib.c on concrete inputs.
use s_o.Base.{ℕ, ◌≡◌, refl, false, some, List, [], ◌∷◌, arith, All}
use s_o.Printing.{conversion, digit_chars, int_arg, minus, num_to_base, plus, print, printf}
use s_o.Printing.Formats.{
  IsPlain, Part, args_of, concat, format_of, hexadecimal, itself, long, percent, printf-concat,
  WritesAll,
}
use s_o.Printing.Numbers.{num_to_base-value, value_from}

-- The format "A%x%%%ld" for 10 and 5.
abbrev parts : List Part
parts = itself 65 ∷ hexadecimal 10 ∷ percent ∷ long 5 ∷ []

parts-IsPlain : All IsPlain parts
parts-IsPlain = ((ground arith, omega arith, omega arith), (omega arith, (tt, (omega arith, tt))))

printf-concat_example :
    (out : List ℕ) × (printf (concat format_of parts) (concat args_of parts) ≡ some out)
    × WritesAll parts out
printf-concat_example = printf-concat parts parts-IsPlain

-- `numToBase(255, 16)` is "FF".
hexadecimal_text : num_to_base (plus 255) 16 ≡ 70 ∷ 70 ∷ []
unfolding num_to_base digit_chars
hexadecimal_text = refl

-- `printf("%x", 10)` writes "0x12".
octal_text : print false (37 ∷ 120 ∷ []) (int_arg (plus 10) ∷ []) ≡ some (48 ∷ 120 ∷ 49 ∷ 50 ∷ [])
unfolding print conversion num_to_base digit_chars
octal_text = refl

-- -7 is written ")", the character 7 places in front of '0'.
negative_text : num_to_base (minus 7) 10 ≡ 41 ∷ []
unfolding num_to_base digit_chars
negative_text = refl

num_to_base-value_example : value_from 16 0 (num_to_base (plus 255) 16) ≡ 255
num_to_base-value_example = num_to_base-value 255 16 (omega arith) (omega arith) (omega arith)
