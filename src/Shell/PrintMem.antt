-- ===== src/Shell/PrintMem.antt =====
-- `printmem` and `itoa2` of Userland/uCodeModule/shell.c: the argument of the command.
-- A text is the list of its bytes before the NUL. A `long long` is its 64-bit pattern.
use s_o.Base.{
  ℕ, zero, suc, ◌+◌, ◌-◌, ◌*◌, ◌%◌, ◌^◌, ◌≤◌, ◌<◌, ◌≡◌, refl, ap, ◌∙◌, inl, inr, Bool, ◌&&◌, Option,
  none, some, List, [], ◌∷◌, ◌++◌, map, arith, ltb, leb, ◌==◌, if◌then◌else◌, Bool-cases, All,
}
use s_o.Shell.Names.{first_of, name_of, printmem}
use s_o.Shell.Commands.{
  Surroundings, branch, ends_in_ampersand, print_mem, run_words, ampersand, open_pipe,
}
use s_o.Shell.Parsing.{skip_spaces}

-- What is shown: a message, or the memory from an address on.
pub data Shown : Type 0 where
  no_argument : Shown
  no_hexadecimal : Shown
  too_big : Shown
  memory_at : ℕ → Shown

-- The value of a digit, for `a` to `f` and `0` to `9`.
abbrev pub hex_value : ℕ → Option ℕ
hex_value c =
    if leb 97 c && leb c 102
    then some (c - 97 + 10)
    else if leb 48 c && leb c 57
    then some (c - 48)
    else none

-- The loop over the digits.
unfoldable pub accumulate : ℕ → List ℕ → Option ℕ
accumulate accum [] = some accum
accumulate accum (c ∷ cs) = elim (hex_value c) [
  | none ↦ none
  | some v ↦ accumulate ((16 * accum + v) % 2 ^ 64) cs
]

-- `0xFFFFFFFF - accum <= 32`, as signed numbers
abbrev pub is_too_big : ℕ → Bool
is_too_big accum = leb (2 ^ 32 - 33) accum && ltb accum (2 ^ 63)

abbrev pub of_accum : Option ℕ → Shown
of_accum none = no_hexadecimal
of_accum (some accum) = if is_too_big accum then too_big else memory_at accum

-- The text behind "0x".
abbrev pub digits_shown : List ℕ → Shown
digits_shown [] = no_hexadecimal
digits_shown (c ∷ cs) = of_accum (accumulate 0 (c ∷ cs))

abbrev pub behind_zero : List ℕ → Shown
behind_zero [] = no_hexadecimal
behind_zero (c ∷ cs) = if c == 120 then digits_shown cs else no_hexadecimal

abbrev pub behind_spaces : List ℕ → Shown
behind_spaces [] = no_argument
behind_spaces (c ∷ cs) = if c == 48 then behind_zero cs else no_hexadecimal

unfoldable pub printmem_shown : List ℕ → Shown
unfolding accumulate
printmem_shown buf = behind_spaces (skip_spaces buf)

-- The character of a digit below 16.
abbrev pub hex_char : ℕ → ℕ
hex_char d = if ltb d 10 then d + 48 else d + 87

-- The number that digits stand for behind those of `acc`, the highest first.
abbrev pub hex_number : ℕ → List ℕ → ℕ
hex_number acc [] = acc
hex_number acc (d ∷ ds) = hex_number (16 * acc + d) ds

hex_number-grows : (acc : ℕ) (ds : List ℕ) → acc ≤ hex_number acc ds
hex_number-grows acc [] = omega arith
hex_number-grows acc (d ∷ ds) = omega (arith, hex_number-grows (16 * acc + d) ds)

hex_value-hex_char : (d : ℕ) → d < 16 → hex_value (hex_char d) ≡ some d
hex_value-hex_char d lt = ground (arith, lt)

accumulate-digits :
    (acc : ℕ) (ds : List ℕ)
    → All (λ d. d < 16) ds
    → hex_number acc ds < 2 ^ 32
    → accumulate acc (map hex_char ds) ≡ some (hex_number acc ds)
unfolding accumulate
accumulate-digits acc [] digits fits = refl
accumulate-digits acc (d ∷ ds) digits fits =
    let small : (16 * acc + d) % 2 ^ 64 ≡ 16 * acc + d =
      omega (arith, hex_number-grows (16 * acc + d) ds, fits) in
    rw (hex_value-hex_char d digits.0, small, accumulate)
      (accumulate-digits (16 * acc + d) ds digits.1 fits)

-- A text with spaces in front.
abbrev pub blanks : ℕ → List ℕ → List ℕ
blanks zero cs = cs
blanks (suc n) cs = 32 ∷ blanks n cs

-- "0x" with one or more digits in small letters behind it, after any spaces, is read as the number
-- that they stand for, when that is below 0xFFFFFFDF.
pub printmem_shown-number :
    (spaces d : ℕ) (ds : List ℕ)
    → All (λ c. c < 16) (d ∷ ds)
    → hex_number 0 (d ∷ ds) < 2 ^ 32 - 33
    → printmem_shown (blanks spaces (48 ∷ 120 ∷ map hex_char (d ∷ ds)))
      ≡ memory_at (hex_number 0 (d ∷ ds))
unfolding printmem_shown
printmem_shown-number spaces d ds digits fits =
    skipped spaces
    ∙ ap of_accum (accumulate-digits 0 (d ∷ ds) digits (omega (arith, fits)))
    ∙ ground (arith, fits)
  where
    skipped :
        (n : ℕ)
        → behind_spaces (skip_spaces (blanks n (48 ∷ 120 ∷ map hex_char (d ∷ ds))))
          ≡ of_accum (accumulate 0 (map hex_char (d ∷ ds)))
    skipped zero = refl
    skipped (suc n) = skipped n

-- "printmem" never shows memory: `readBuffer` passes on what stands behind the name in the first word,
-- which is nothing, and so `printmem` finds no argument, whatever the arguments are.
pub printmem-no_argument :
    (e : Surroundings) (args : List (List ℕ)) (fd : ℕ × ℕ) (fg_flag : ℕ)
    → ((run_words e (name_of printmem) args fd fg_flag).acts
        ≡ (if ends_in_ampersand e.stray args then open_pipe ampersand ∷ [] else [])
          ++ print_mem [] ∷ [])
      × (printmem_shown [] ≡ no_argument)
unfolding run_words printmem_shown first_of branch
printmem-no_argument e args fd fg_flag = elim (Bool-cases (ends_in_ampersand e.stray args)) [
  | inl amp ↦ (rw (amp, run_words) refl, refl)
  | inr no_amp ↦ (rw (no_amp, run_words) refl, refl)
]
