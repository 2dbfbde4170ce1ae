-- ===== src/UserLib.antt =====
-- Userland/uCodeModule/lib.c: numbers to text and back.
-- Memory is a map from addresses to bytes; a `char` that is tested here is a digit or the NUL.
pub mod Digits
pub mod Clock
pub mod Dates
pub mod Decimal
pub mod Turn
pub mod Radix
pub mod Letters
mod Tests
use s_o.Base.{
  ℕ, zero, suc, ◌+◌, ◌-◌, ◌*◌, ◌/◌, ◌%◌, ◌^◌, Bool, ◌&&◌, ◌||◌, Option, none, some, ltb, leb, ◌==◌,
  if◌then◌else◌, update,
}

abbrev pub Memory : Type 0
Memory = ℕ → ℕ

-- `'0'`
abbrev pub zero_char : ℕ
zero_char = 48

-- `for (; n != 0; digits++, n /= 10);` The 64 bits of `n` are at most 20 digits.
unfoldable pub count_digits : ℕ → ℕ → ℕ → ℕ
count_digits zero n digits = digits
count_digits (suc rounds) n digits =
    let rest = count_digits rounds (n / 10) (digits + 1) in if n == 0 then digits else rest

abbrev pub digits_of : ℕ → ℕ
digits_of number = count_digits 20 (number / 10) 1

-- `for (int i = count - 1; i >= 0; i--) { str[i] = (number % 10) + '0'; number /= 10; }`
unfoldable pub fill : ℕ → Memory → ℕ → ℕ → Memory
unfolding update
fill zero mem str number = mem
fill (suc i) mem str number =
    fill i (update mem (str + i) (number % 10 + zero_char)) str (number / 10)

unfoldable pub ultoa : ℕ → ℕ → Memory → ℕ × Memory
unfolding update
ultoa number str mem =
    let digits = digits_of number in
    if digits == 1
    then (digits, update (update mem str (zero_char + number)) (str + 1) 0)
    else (digits, fill digits (update mem (str + digits) 0) str number)

-- For a number that is not negative.
unfoldable pub itoa : ℕ → ℕ → Memory → ℕ × Memory
unfolding update
itoa number str mem =
    let digits = digits_of number in
    if digits == 1
    then (
      digits,
      update (update (update mem str zero_char) (str + 1) (number + zero_char)) (str + 2) 0,
    )
    else (digits, fill digits (update mem (str + digits) 0) str number)

abbrev pub is_digit : ℕ → Bool
is_digit c = leb zero_char c && leb c (zero_char + 9)

-- The loop of `atoul`. The result is an `int`: `none` where it passes 2 ^ 31 - 1, which is
-- undefined, and where the fuel is used up.
unfoldable pub atoul_loop : ℕ → Memory → ℕ → ℕ → Option ℕ
atoul_loop zero mem p result = none
atoul_loop (suc fuel) mem p result =
    let next = result * 10 + (mem p - zero_char) in
    let rest = atoul_loop fuel mem (p + 1) next in
    if mem p == 0
    then some result
    else (if is_digit (mem p) then (if ltb next (2 ^ 31) then rest else none) else some result)

abbrev pub atoul : ℕ → Memory → ℕ → Option ℕ
atoul fuel mem str = atoul_loop fuel mem str 0

-- The loop of `strlen`, which also tests the first character at each step.
unfoldable pub strlen_loop : ℕ → Memory → ℕ → ℕ → Option ℕ
strlen_loop zero mem str i = none
strlen_loop (suc fuel) mem str i =
    let rest = strlen_loop fuel mem str (i + 1) in
    if mem (str + i) == 0 || mem str == 0 then some i else rest

abbrev pub strlen : ℕ → Memory → ℕ → Option ℕ
strlen fuel mem str = strlen_loop fuel mem str 0

-- `(remainder < 10) ? remainder + '0' : remainder + 'A' - 10`, stored in a `uint8_t`.
abbrev pub digit_char : ℕ → ℕ
digit_char r = if ltb r 10 then r + zero_char else (r + 55) % 2 ^ 8

-- Memory, the pointer `p` and the count, when the `do` loop of `uintToBase` ends.
pub record Emitted : Type 0 where
  pub mem : Memory
  pub end : ℕ
  pub digits : ℕ

-- `do { ... } while (value /= base);` A 64-bit value has at most 64 digits.
unfoldable pub emit : ℕ → ℕ → ℕ → Emitted → Emitted
unfolding update
emit zero base value e = e
emit (suc rounds) base value e =
    let e1 : Emitted = record {
      mem = update e.mem e.end (digit_char (value % base));
      end = e.end + 1;
      digits = e.digits + 1;
    } in
    let rest = emit rounds base (value / base) e1 in if value / base == 0 then e1 else rest

-- `while (p1 < p2) { swap; p1++; p2--; }`
unfoldable pub swap_loop : ℕ → Memory → ℕ → ℕ → Memory
unfolding update
swap_loop zero mem p1 p2 = mem
swap_loop (suc rounds) mem p1 p2 =
    let rest = swap_loop rounds (update (update mem p1 (mem p2)) p2 (mem p1)) (p1 + 1) (p2 - 1) in
    if ltb p1 p2 then rest else mem

-- `uintToBase`, with rounds for the digits of 64 bits and for half as many swaps.
unfoldable pub uint_to_base : ℕ → ℕ → ℕ → Memory → ℕ × Memory
unfolding emit swap_loop update
uint_to_base value buffer base mem =
    let e = emit 64 base value (record { mem = mem; end = buffer; digits = 0 }) in
    (e.digits, swap_loop 32 (update e.mem e.end 0) buffer (e.end - 1))
