-- ===== src/Printing/User.antt =====
-- Userland/uCodeModule/lib.c: its own copies of `numToBase`, `print` and `printf`, which have the
-- words of those of Kernel/lib.c, and what stands on `putChar`; `scan`.
use s_o.Base.{
  ℕ, ◌%◌, ◌<◌, ◌≡◌, refl, sym, ap, ap₂, ◌≢◌, Bool, true, false, ◌||◌, Option, none, some, List, [],
  ◌∷◌, ◌++◌, arith, ◌==◌, if◌then◌else◌, ==_of_ne, length, All,
}
use s_o.Printing.{Arg, Signed, num_to_base, print, put_char, text_arg, conversion}

abbrev pub user_num_to_base : Signed → ℕ → List ℕ
user_num_to_base value base = num_to_base value base

abbrev pub user_print : List ℕ → List Arg → Option (List ℕ)
user_print fmt args = print false fmt args

abbrev pub user_printf : List ℕ → List Arg → Option (List ℕ)
user_printf fmt args = user_print fmt args

-- What a call of `sys_write` on STDOUT gets: its text and its color.
pub record Written (Color : Type 0) : Type 0 where
  pub text : List ℕ
  pub color : Color

-- `putColorChar`, with what it returns: a `char`, the byte.
abbrev pub put_color_char : {Color : Type 0} → ℕ → Color → Written Color × ℕ
put_color_char car c = (record { text = put_char car; color = c }, car % 256)

-- The loop of `putStringColor`.
unfoldable pub put_string_color : {Color : Type 0} → List ℕ → Color → List (Written Color)
put_string_color [] c = []
put_string_color (car ∷ str) c = (put_color_char car c).0 ∷ put_string_color str c

-- The loop of `puts`, and its '\n'.
unfoldable pub puts : List ℕ → List ℕ
puts [] = put_char 10
puts (c ∷ str) = put_char c ++ puts str

abbrev pub texts : {Color : Type 0} → List (Written Color) → List ℕ
texts [] = []
texts (w ∷ ws) = w.text ++ texts ws

-- What `scan` does: it writes a character of the format, stores what `getChar` returns at an address,
-- or lets `sys_read` store up to `length` bytes at an address.
pub data Step : Type 0 where
  echo : List ℕ → Step
  store_char : ℕ → Step
  read_bytes : ℕ → ℕ → Step

abbrev pub then_step : Step → Option (List Step) → Option (List Step)
then_step step none = none
then_step step (some steps) = some (step ∷ steps)

-- The letters of the numbers, which all read as `%s` does.
abbrev pub is_number : ℕ → Bool
is_number c = c == 105 || c == 100 || c == 111 || c == 120 || c == 88 || c == 112

-- The loop over the format, with `state`, and the addresses that are passed.
unfoldable pub scan : ℕ → Bool → List ℕ → List ℕ → Option (List Step)
scan length state [] args = some []
scan length false (c ∷ fmt) args =
    if c == 37
    then scan length true fmt args
    else then_step (echo (put_char c)) (scan length false fmt args)
scan length true (c ∷ fmt) [] =
    let further = scan length false fmt [] in
    if c == 99 || c == 115 || is_number c then none else further
scan length true (c ∷ fmt) (arg ∷ args) =
    let taken = scan length false fmt args in
    let left = scan length false fmt (arg ∷ args) in
    if c == 99
    then then_step (store_char arg) taken
    else if c == 115 || is_number c
    then then_step (read_bytes arg length) taken
    else left

abbrev pub scanf : ℕ → List ℕ → List ℕ → Option (List Step)
scanf length fmt args = scan length false fmt args

abbrev IsText : ℕ → Type 0
IsText c = (c ≢ 37) × (0 < c) × (c < 256)

print-puts : (str : List ℕ) → All IsText str → print false (str ++ 10 ∷ []) [] ≡ some (puts str)
unfolding print puts
print-puts [] h = refl
print-puts (c ∷ str) h = rw (==_of_ne c 37 h.0.0, print-puts str h.1) refl

put_char-byte : (c : ℕ) → 0 < c → c < 256 → put_char c ≡ c ∷ []
put_char-byte c lo hi = ground (arith, lo, hi)

puts-append : (str : List ℕ) → All IsText str → puts str ≡ str ++ 10 ∷ []
unfolding puts
puts-append [] h = refl
puts-append (c ∷ str) h =
    ap₂ (λ (xs ys : List ℕ). xs ++ ys) (put_char-byte c h.0.1 h.0.2) (puts-append str h.1)

-- For a text of bytes other than 0 and '%', `puts` writes what `printf` writes for that text with a
-- '\n' behind it as the format, and what `printf("%s\n", str)` writes.
pub puts-printf :
    (str : List ℕ)
    → All (λ c. (c ≢ 37) × (0 < c) × (c < 256)) str
    → (user_printf (str ++ 10 ∷ []) [] ≡ some (puts str))
      × (user_printf (37 ∷ 115 ∷ 10 ∷ []) (text_arg str ∷ []) ≡ some (puts str))
unfolding print conversion
puts-printf str h = (print-puts str h, ap some (sym (puts-append str h)))

-- `scan` reads the text of a number as it reads any text: nothing is converted.
scan-number :
    (length c : ℕ) (fmt args : List ℕ)
    → is_number c ≡ true
    → scanf length (37 ∷ c ∷ fmt) args ≡ scanf length (37 ∷ 115 ∷ fmt) args
unfolding scan
scan-number length c fmt [] h = ground (arith, h)
scan-number length c fmt (a ∷ args) h = ground (arith, h)
