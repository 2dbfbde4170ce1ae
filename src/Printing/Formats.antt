-- ===== src/Printing/Formats.antt =====
-- A format of Kernel/lib.c, part by part.
use s_o.Base.{
  ℕ, zero, suc, ◌+◌, ◌/◌, ◌%◌, ◌^◌, ◌≤◌, ◌<◌, ◌≡◌, refl, sym, ap, ◌∙◌, ◌≢◌, inl, inr, false, Option,
  none, some, List, [], ◌∷◌, ◌++◌, append_assoc, arith, ◌==◌, Bool-cases, All, All-append,
}
use native.Mathlib.Nat.{mod-lt}
use s_o.Printing.Numbers.{num_to_base-value, value_from}
use s_o.Printing.{
  digit_chars, turned, plus, Arg, int_arg, long_arg, char_arg, text_arg, num_to_base, put_char,
  print, conversion, with_text, printf,
}

-- A part of a format with its argument: a character that stands for itself, or a conversion.
pub data Part : Type 0 where
  itself : ℕ → Part
  char : ℕ → Part
  text : List ℕ → Part
  decimal : ℕ → Part
  octal : ℕ → Part
  hexadecimal : ℕ → Part
  percent : Part
  long : ℕ → Part

abbrev pub format_of : Part → List ℕ
format_of (itself c) = c ∷ []
format_of (char c) = 37 ∷ 99 ∷ []
format_of (text s) = 37 ∷ 115 ∷ []
format_of (decimal n) = 37 ∷ 100 ∷ []
format_of (octal n) = 37 ∷ 111 ∷ []
format_of (hexadecimal n) = 37 ∷ 120 ∷ []
format_of percent = 37 ∷ 37 ∷ []
format_of (long n) = 37 ∷ 108 ∷ 100 ∷ []

abbrev pub args_of : Part → List Arg
args_of (char c) = char_arg c ∷ []
args_of (text s) = text_arg s ∷ []
args_of (decimal n) = int_arg (plus n) ∷ []
args_of (octal n) = int_arg (plus n) ∷ []
args_of (hexadecimal n) = int_arg (plus n) ∷ []
args_of (long n) = long_arg (plus n) ∷ []
args_of _ = []

-- What the code writes for a part.
abbrev written : Part → List ℕ
written (itself c) = put_char c
written (char c) = put_char c
written (text s) = s
written (decimal n) = num_to_base (plus n) 10
written (octal n) = num_to_base (plus n) 8
written (hexadecimal n) = 48 ∷ 120 ∷ num_to_base (plus n) 8
written percent = 37 ∷ []
written (long n) = num_to_base (plus n) 8 ++ 100 ∷ []

abbrev pub concat {ℓ} : {A : Type ℓ} → (Part → List A) → List Part → List A
concat f [] = []
concat f (p ∷ ps) = f p ++ concat f ps

-- A character is a byte, neither NUL nor, where it stands for itself, '%'; a number is not negative
-- and fits its type.
abbrev pub IsPlain : Part → Type 0
IsPlain (itself c) = (c ≢ 37) × (0 < c) × (c < 256)
IsPlain (char c) = (0 < c) × (c < 256)
IsPlain (text s) = Unit
IsPlain percent = Unit
IsPlain (long n) = n < 2 ^ 63
IsPlain (decimal n) = n < 2 ^ 31
IsPlain (octal n) = n < 2 ^ 31
IsPlain (hexadecimal n) = n < 2 ^ 31

-- Digits of a base up to 10 that stand for a number.
abbrev pub IsNumeral : ℕ → ℕ → List ℕ → Type 0
IsNumeral base n out = (value_from base 0 out ≡ n) × All (λ c. (48 ≤ c) × (c < 48 + base)) out

-- What a part is to write. A hexadecimal number comes in base 8, and so does a `long`, with the letter
-- of its conversion behind it.
abbrev pub Writes : Part → List ℕ → Type 0
Writes (itself c) out = out ≡ c ∷ []
Writes (char c) out = out ≡ c ∷ []
Writes (text s) out = out ≡ s
Writes (decimal n) out = IsNumeral 10 n out
Writes (octal n) out = IsNumeral 8 n out
Writes (hexadecimal n) out = (ds : List ℕ) × (out ≡ 48 ∷ 120 ∷ ds) × IsNumeral 8 n ds
Writes percent out = out ≡ 37 ∷ []
Writes (long n) out = (ds : List ℕ) × (out ≡ ds ++ 100 ∷ []) × IsNumeral 8 n ds

abbrev pub WritesAll : List Part → List ℕ → Type 0
WritesAll [] out = out ≡ []
WritesAll (p ∷ ps) out =
    (now : List ℕ) × (further : List ℕ) × (out ≡ now ++ further)
    × Writes p now
    × WritesAll ps further

turned-All : (P : ℕ → Type 0) (cs : List ℕ) → All P cs → All P (turned cs)
turned-All P [] h = tt
turned-All P (c ∷ cs) h = All-append P (turned cs) (c ∷ []) (turned-All P cs h.1) (h.0, tt)

digit_chars-All :
    (rounds n base : ℕ)
    → 0 < base
    → base ≤ 10
    → All (λ c. (48 ≤ c) × (c < 48 + base)) (digit_chars rounds false n base)
unfolding digit_chars
digit_chars-All zero n base lo hi = tt
digit_chars-All (suc rounds) n base lo hi =
    let small = mod-lt n {m = base} lo in
    (
      ground (arith, small, hi),
      elim (Bool-cases (n / base == 0)) [
        | inl e ↦ rw e tt
        | inr e ↦ rw e (digit_chars-All rounds (n / base) base lo hi)
      ],
    )

num_to_base-IsNumeral :
    (n base : ℕ) → 2 ≤ base → base ≤ 10 → n < 2 ^ 63 → IsNumeral base n (num_to_base (plus n) base)
unfolding num_to_base
num_to_base-IsNumeral n base lo hi small = (
  num_to_base-value n base lo (omega (arith, hi)) small,
  turned-All (λ c. (48 ≤ c) × (c < 48 + base)) (digit_chars 64 false n base)
      (digit_chars-All 64 n base (omega (arith, lo)) hi),
)

put_char-byte : (c : ℕ) → 0 < c → c < 256 → put_char c ≡ c ∷ []
put_char-byte c lo hi = let same : c % 256 ≡ c = omega (arith, hi) in ground (arith, same, lo)

written-Writes : (p : Part) → IsPlain p → Writes p (written p)
written-Writes (itself c) h = put_char-byte c h.1 h.2
written-Writes (char c) h = put_char-byte c h.0 h.1
written-Writes (text s) h = refl
written-Writes (decimal n) h =
    num_to_base-IsNumeral n 10 (omega arith) (omega arith) (omega (arith, h))
written-Writes (octal n) h =
    num_to_base-IsNumeral n 8 (omega arith) (omega arith) (omega (arith, h))
written-Writes (hexadecimal n) h =
    (_, refl, num_to_base-IsNumeral n 8 (omega arith) (omega arith) (omega (arith, h)))
written-Writes percent h = refl
written-Writes (long n) h = (_, refl, num_to_base-IsNumeral n 8 (omega arith) (omega arith) h)

concat-WritesAll : (ps : List Part) → All IsPlain ps → WritesAll ps (concat written ps)
concat-WritesAll [] h = refl
concat-WritesAll (p ∷ ps) h =
    (written p, concat written ps, refl, written-Writes p h.0, concat-WritesAll ps h.1)

with_text-append :
    (xs ys : List ℕ) (r : Option (List ℕ)) → with_text xs (with_text ys r) ≡ with_text (xs ++ ys) r
with_text-append xs ys none = refl
with_text-append xs ys (some zs) = ap some (sym (append_assoc xs ys zs))

print-part :
    (p : Part) (fmt : List ℕ) (args : List Arg)
    → IsPlain p
    → print false (format_of p ++ fmt) (args_of p ++ args)
      ≡ with_text (written p) (print false fmt args)
unfolding print conversion
print-part (itself c) fmt args h = ground (arith, h.0)
print-part (long n) fmt args h =
    with_text-append (num_to_base (plus n) 8) (100 ∷ []) (print false fmt args)
print-part _ fmt args h = refl

printf-written :
    (ps : List Part)
    → All IsPlain ps
    → printf (concat format_of ps) (concat args_of ps) ≡ some (concat written ps)
unfolding print
printf-written [] h = refl
printf-written (p ∷ ps) h =
    print-part p (concat format_of ps) (concat args_of ps) h.0
    ∙ ap (with_text (written p)) (printf-written ps h.1)

-- A format whose parts are bytes that stand for themselves, and conversions with an argument of their
-- type each, numbers from 0 on, writes the parts one behind the other: a byte as it is, a text as it
-- is, a number of `%d` in digits of base 10, one of `%o` and `%x`, with "0x" in front, in digits of
-- base 8, and a `long` of `%ld` in digits of base 8 with a 'd' behind them.
pub printf-concat :
    (ps : List Part)
    → All IsPlain ps
    → (out : List ℕ) × (printf (concat format_of ps) (concat args_of ps) ≡ some out)
      × WritesAll ps out
printf-concat ps h = (concat written ps, printf-written ps h, concat-WritesAll ps h)
