-- ===== src/Printing.antt =====
-- `print` of Kernel/lib.c and, in the same words, of Userland/uCodeModule/lib.c.
-- What is written is the list of the bytes that the calls of `sys_write` on STDOUT get, all in white.
-- A number below 0 is kept apart by its sign: `%` and `/` of C cut off towards 0.
pub mod Numbers
pub mod Formats
pub mod User
mod Tests
use s_o.Base.{
  ℕ, zero, suc, ◌+◌, ◌-◌, ◌/◌, ◌%◌, Bool, true, false, ◌||◌, Option, none, some, List, [], ◌∷◌,
  ◌++◌, ltb, ◌==◌, if◌then◌else◌,
}

-- A `long`, or an `int`.
pub data Signed : Type 0 where
  plus : ℕ → Signed
  minus : ℕ → Signed

-- `(remainder < 10) ? remainder + '0' : remainder + 'A' - 10`, for the remainder of a number of the
-- sign; one below 0 is below 10.
abbrev pub digit_char : Bool → ℕ → ℕ
digit_char true r = 48 - r
digit_char false r = if ltb r 10 then r + 48 else r + 55

-- `do { ... } while (value /= base);`: the characters, the lowest digit first. A number of 64 bits has
-- at most 64 digits.
unfoldable pub digit_chars : ℕ → Bool → ℕ → ℕ → List ℕ
digit_chars zero below value base = []
digit_chars (suc rounds) below value base =
    let further = digit_chars rounds below (value / base) base in
    digit_char below (value % base) ∷ (if value / base == 0 then [] else further)

-- The second loop turns the text round.
abbrev pub turned : List ℕ → List ℕ
turned [] = []
turned (c ∷ cs) = turned cs ++ c ∷ []

unfoldable pub num_to_base : Signed → ℕ → List ℕ
unfolding digit_chars
num_to_base (plus n) base = turned (digit_chars 64 false n base)
num_to_base (minus n) base = turned (digit_chars 64 true n base)

-- What a call passes behind the format. `va_arg` reads whatever is there; a mismatch, and an argument
-- too few, is `none`.
pub data Arg : Type 0 where
  int_arg : Signed → Arg
  long_arg : Signed → Arg
  char_arg : ℕ → Arg
  text_arg : List ℕ → Arg

-- `putChar`: the byte is the text, so a NUL writes nothing.
abbrev pub put_char : ℕ → List ℕ
put_char c = if c % 256 == 0 then [] else c % 256 ∷ []

-- What is written, and the arguments that are left.
abbrev pub Printed : Type 0
Printed = Option (List ℕ × List Arg)

abbrev pub print_char : List Arg → Printed
print_char (char_arg c ∷ args) = some (put_char c, args)
print_char _ = none

abbrev pub print_text : List Arg → Printed
print_text (text_arg s ∷ args) = some (s, args)
print_text _ = none

abbrev pub print_int : List ℕ → ℕ → List Arg → Printed
print_int before base (int_arg n ∷ args) = some (before ++ num_to_base n base, args)
print_int before base _ = none

abbrev pub print_long : List Arg → Printed
print_long (long_arg n ∷ args) = some (num_to_base n 8, args)
print_long _ = none

-- The `switch` on the letter behind `%`.
unfoldable pub conversion : ℕ → List Arg → Printed
conversion c args =
    if c == 99
    then print_char args
    else if c == 115
    then print_text args
    else if c == 105 || c == 100
    then print_int [] 10 args
    else if c == 111
    then print_int [] 8 args
    else if c == 120 || c == 88 || c == 112
    then print_int (48 ∷ 120 ∷ []) 8 args
    else if c == 37
    then some (37 ∷ [], args)
    else if c == 108
    then print_long args
    else some ([], args)

abbrev pub with_text : List ℕ → Option (List ℕ) → Option (List ℕ)
with_text out none = none
with_text out (some rest_out) = some (out ++ rest_out)

-- The loop over the format, with `state`.
unfoldable pub print : Bool → List ℕ → List Arg → Option (List ℕ)
print state [] args = some []
print false (c ∷ fmt) args =
    if c == 37 then print true fmt args else with_text (put_char c) (print false fmt args)
print true (c ∷ fmt) args = elim (conversion c args) [
  | none ↦ none
  | some (out, args') ↦ with_text out (print false fmt args')
]

abbrev pub printf : List ℕ → List Arg → Option (List ℕ)
printf fmt args = print false fmt args
