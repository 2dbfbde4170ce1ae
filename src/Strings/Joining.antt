-- ===== src/Strings/Joining.antt =====
-- `strcat` and `strncat` of Userland/uCodeModule/lib.c.
use s_o.Base.{
  ℕ, zero, suc, ◌+◌, ◌<◌, ◌≡◌, refl, ap, ◌∙◌, subst, inl, false, some, List, [], ◌∷◌, ◌++◌, arith,
  ◌==◌, ==_iff, ==_of_ne, length, take,
}
use s_o.UserLib.{Memory}
use s_o.Strings.{strcat, find_end, strncat}
use s_o.Strings.Copying.{Text, Away, Frame, copy_part-Text, copy_text-Text}

find_end-Text :
    (xs : List ℕ) (fuel : ℕ) (mem : Memory) (a : ℕ)
    → Text mem a xs
    → length xs < fuel
    → find_end fuel mem a ≡ some (a + length xs)
unfolding find_end
find_end-Text xs zero mem a t enough = elim enough [ ]
find_end-Text [] (suc fuel) mem a t enough = rw ((==_iff (mem a) 0).1 t) (ap some (omega arith))
find_end-Text (x ∷ xs) (suc fuel) mem a t enough =
    let going : (mem a == 0) ≡ false = ==_of_ne (mem a) 0 (omega (arith, t.0, t.1)) in
    rw going (find_end-Text xs fuel mem (a + 1) t.2 (omega (arith, enough)) ∙ ap some (omega arith))

-- A text behind the characters of another one.
Text-append :
    (ys xs : List ℕ) (mem m : Memory) (a b k : ℕ)
    → b ≡ a + length ys
    → Text mem a ys
    → Frame b k mem m
    → Text m b xs
    → Text m a (ys ++ xs)
Text-append [] xs mem m a b k e t f u = subst (λ z. Text m z xs) (omega (arith, e)) u
Text-append (y ∷ ys) xs mem m a b k e t f u = (
  f a (inl (omega (arith, e))) ∙ t.0,
  t.1,
  Text-append ys xs mem m (a + 1) b k (omega (arith, e)) t.2 f u,
)

-- `strcat` leaves the second text behind the first, and changes nothing else, where the second text
-- does not overlap the place it is copied to. It ends if the fuel exceeds both lengths.
pub strcat-Text :
    (ys xs : List ℕ) (fuel : ℕ) (mem : Memory) (dest src : ℕ)
    → Text mem dest ys
    → Text mem src xs
    → Away src (length xs + 1) (dest + length ys) (length xs + 1)
    → length ys < fuel
    → length xs < fuel
    → (m : Memory) × (strcat fuel mem dest src ≡ some (dest + length ys + length xs, m))
      × Text m dest (ys ++ xs)
      × Frame (dest + length ys) (length xs + 1) mem m
unfolding strcat
strcat-Text ys xs fuel mem dest src s t h enough enough' =
    let (m, ran, text, frame) = copy_text-Text xs fuel mem (dest + length ys) src t h enough' in
    (
      m,
      rw (find_end-Text ys fuel mem dest s enough, strcat) ran,
      Text-append ys xs mem m dest (dest + length ys) (length xs + 1) refl s frame text,
      frame,
    )

-- `strncat` leaves at most the given number of characters of the second text behind the first, and
-- changes nothing else, where the second text does not overlap the place it is copied to. It ends if
-- the fuel exceeds both lengths.
pub strncat-Text :
    (ys xs : List ℕ) (n fuel : ℕ) (mem : Memory) (dest src : ℕ)
    → Text mem dest ys
    → Text mem src xs
    → Away src (length xs + 1) (dest + length ys) (length xs + 1)
    → length ys < fuel
    → length xs < fuel
    → (m : Memory) × (strncat fuel mem dest src n ≡ some (dest + length ys + length (take n xs), m))
      × Text m dest (ys ++ take n xs)
      × Frame (dest + length ys) (length (take n xs) + 1) mem m
unfolding strncat
strncat-Text ys xs n fuel mem dest src s t h enough enough' =
    let (m, ran, text, frame) = copy_part-Text xs n fuel mem (dest + length ys) src t h enough' in
    (
      m,
      rw (find_end-Text ys fuel mem dest s enough, strncat) ran,
      Text-append ys (take n xs) mem m dest (dest + length ys) (length (take n xs) + 1) refl s frame
          text,
      frame,
    )
