-- ===== src/Strings/Searching.antt =====
-- Userland/uCodeModule/lib.c: `strchr` and `strncmp`.
-- A byte is a number below 128 here, which a `char` holds whatever its sign.
use s_o.Base.{
  ℕ, zero, suc, ◌+◌, ◌-◌, ◌<◌, ◌≡◌, refl, sym, ap, ap₂, ◌∙◌, subst, ◌≢◌, ◌↔◌, inl, inr, true, false,
  not, ◌&&◌, Option, none, some, List, [], ◌∷◌, arith, ltb, ◌==◌, if◌then◌else◌, ==_iff, ==_of_ne,
  Bool-cases, length, take,
}
use s_o.UserLib.{Memory}
use s_o.Strings.Copying.{Text}

-- `some none` is NULL.
unfoldable pub strchr : ℕ → Memory → ℕ → ℕ → Option (Option ℕ)
strchr zero mem str c = none
strchr (suc fuel) mem str c =
    let rest = strchr fuel mem (str + 1) c in
    if mem str == 0 then some none else (if mem str == c then some (some str) else rest)

-- The loop of `strncmp` behind `i` rounds, which goes on while `i < n - 1`. The result is the two
-- characters whose difference `strncmp` returns.
unfoldable pub strncmp_loop : ℕ → Memory → ℕ → ℕ → ℕ → ℕ → Option (ℕ × ℕ)
strncmp_loop zero mem str1 str2 n i = none
strncmp_loop (suc fuel) mem str1 str2 n i =
    let rest = strncmp_loop fuel mem str1 str2 n (i + 1) in
    if ltb i (n - 1) && not (mem (str1 + i) == 0) && mem (str1 + i) == mem (str2 + i)
    then rest
    else some (mem (str1 + i), mem (str2 + i))

abbrev pub strncmp : ℕ → Memory → ℕ → ℕ → ℕ → Option (ℕ × ℕ)
strncmp fuel mem str1 str2 n = strncmp_loop fuel mem str1 str2 n 0

abbrev next : Option ℕ → Option ℕ
next none = none
next (some k) = some (1 + k)

-- How many elements stand before the first `c`.
unfoldable pub position : ℕ → List ℕ → Option ℕ
position c [] = none
position c (x ∷ xs) = if x == c then some 0 else next (position c xs)

abbrev pub moved : ℕ → Option ℕ → Option ℕ
moved a none = none
moved a (some k) = some (a + k)

moved-next : (a : ℕ) (r : Option ℕ) → moved (a + 1) r ≡ moved a (next r)
moved-next a none = refl
moved-next a (some k) = ap some (omega arith)

-- `strchr` on a text gives the address of the first occurrence of the character, and NULL where it
-- does not occur. It ends if the fuel exceeds the length of the text.
pub strchr-Text :
    (xs : List ℕ) (fuel : ℕ) (mem : Memory) (str c : ℕ)
    → Text mem str xs
    → length xs < fuel
    → strchr fuel mem str c ≡ some (moved str (position c xs))
unfolding strchr position
strchr-Text xs zero mem str c t enough = elim enough [ ]
strchr-Text [] (suc fuel) mem str c t enough = rw t refl
strchr-Text (x ∷ xs) (suc fuel) mem str c t enough =
    let going : (mem str == 0) ≡ false = ==_of_ne (mem str) 0 (omega (arith, t.0, t.1)) in
    let rest = strchr-Text xs fuel mem (str + 1) c t.2 (omega (arith, enough)) in
    elim (Bool-cases (x == c)) [
      | inl same ↦ rw (going, t.0, same) (ap (λ z. some (some z)) (omega arith))
      | inr other ↦ rw (going, t.0, other) (rest ∙ ap some (moved-next str (position c xs)))
    ]

-- The last round.
strncmp_loop-last :
    (fuel : ℕ) (mem : Memory) (a b n i : ℕ)
    → (ltb i (n - 1) && not (mem (a + i) == 0) && mem (a + i) == mem (b + i)) ≡ false
    → strncmp_loop (suc fuel) mem a b n i ≡ some (mem (a + i), mem (b + i))
unfolding strncmp_loop
strncmp_loop-last fuel mem a b n i e = rw e refl

strncmp_loop-Text :
    (xs ys : List ℕ) (fuel : ℕ) (mem : Memory) (a b n i k : ℕ)
    → Text mem (a + i) xs
    → Text mem (b + i) ys
    → length xs < fuel
    → i + suc k ≡ n
    → (c d : ℕ) × (strncmp_loop fuel mem a b n i ≡ some (c, d))
      × ((c ≡ d) ↔ (take (suc k) xs ≡ take (suc k) ys))
unfolding strncmp_loop
strncmp_loop-Text xs ys zero mem a b n i k s t enough more = elim enough [ ]
strncmp_loop-Text [] [] (suc fuel) mem a b n i k s t enough more = (
  mem (a + i),
  mem (b + i),
  strncmp_loop-last fuel mem a b n i (ground (arith, s)),
  ground (arith, s, t),
)
strncmp_loop-Text [] (y ∷ ys) (suc fuel) mem a b n i k s t enough more = (
  mem (a + i),
  mem (b + i),
  strncmp_loop-last fuel mem a b n i (ground (arith, s)),
  ((λ e. absurd (omega (arith, s, t.0, t.1, e))), (λ e. ground (arith, e))),
)
strncmp_loop-Text (x ∷ xs) [] (suc fuel) mem a b n i k s t enough more = (
  mem (a + i),
  mem (b + i),
  strncmp_loop-last fuel mem a b n i (ground (arith, s.0, s.1, t)),
  ((λ e. absurd (omega (arith, s.0, s.1, t, e))), (λ e. ground (arith, e))),
)
strncmp_loop-Text (x ∷ xs) (y ∷ ys) (suc fuel) mem a b n i zero s t enough more = (
  mem (a + i),
  mem (b + i),
  strncmp_loop-last fuel mem a b n i (ground (arith, more)),
  ((λ e. ap (λ z. z ∷ []) (sym s.0 ∙ e ∙ t.0)), (λ e. ground (arith, s.0, t.0, e))),
)
strncmp_loop-Text (x ∷ xs) (y ∷ ys) (suc fuel) mem a b n i (suc k) s t enough more =
    elim (Bool-cases (mem (a + i) == mem (b + i))) [
      | inl same ↦
          let further : ltb i (n - 1) ≡ true = ground (arith, more) in
          let going : (mem (a + i) == 0) ≡ false =
            ==_of_ne (mem (a + i)) 0 (omega (arith, s.0, s.1)) in
          let heads : x ≡ y = sym s.0 ∙ (==_iff (mem (a + i)) (mem (b + i))).0 same ∙ t.0 in
          let (c, d, ran, verdict) =
            strncmp_loop-Text xs ys fuel mem a b n (i + 1) k
              (subst (λ z. Text mem z xs) (omega arith) s.2)
              (subst (λ z. Text mem z ys) (omega arith) t.2) (omega (arith, enough))
              (omega (arith, more)) in
          (
            c,
            d,
            rw (further, going, same) ran,
            ((λ e. ap₂ (λ z zs. z ∷ zs) heads (verdict.0 e)), (λ e. verdict.1 (ground (arith, e)))),
          )
      | inr other ↦
          let ne : mem (a + i) ≢ mem (b + i) = ground (arith, other) in
          (
            mem (a + i),
            mem (b + i),
            strncmp_loop-last fuel mem a b n i (ground (arith, other)),
            ((λ e. absurd (ne e)), (λ e. absurd (ground (arith, ne, s.0, t.0, e)))),
          )
    ]

-- `strncmp` on two texts, with a count of one or more, returns the difference of two characters that
-- are equal exactly when the first `n` characters of the texts are. It ends if the fuel exceeds the
-- length of the first text.
pub strncmp-Text :
    (xs ys : List ℕ) (fuel : ℕ) (mem : Memory) (a b k : ℕ)
    → Text mem a xs
    → Text mem b ys
    → length xs < fuel
    → (c d : ℕ) × (strncmp fuel mem a b (suc k) ≡ some (c, d))
      × ((c ≡ d) ↔ (take (suc k) xs ≡ take (suc k) ys))
strncmp-Text xs ys fuel mem a b k s t enough =
    strncmp_loop-Text xs ys fuel mem a b (suc k) 0 k (subst (λ z. Text mem z xs) (omega arith) s)
      (subst (λ z. Text mem z ys) (omega arith) t) enough (omega arith)
