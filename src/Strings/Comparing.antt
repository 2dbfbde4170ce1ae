-- ===== src/Strings/Comparing.antt =====
-- `strcmp` of Userland/uCodeModule/lib.c.
use s_o.Base.{
  ℕ, zero, suc, ◌+◌, ◌<◌, ◌≡◌, refl, sym, ap₂, ◌∙◌, ◌≢◌, ◌↔◌, inl, inr, false, some, List, [], ◌∷◌,
  arith, ◌==◌, ==_iff, ==_of_ne, Bool-cases, length,
}
use s_o.UserLib.{Memory}
use s_o.Strings.{strcmp}
use s_o.Strings.Copying.{Text}

differ :
    (fuel : ℕ) (mem : Memory) (a b : ℕ)
    → mem a ≢ mem b
    → strcmp (suc fuel) mem a b ≡ some (mem a, mem b)
unfolding strcmp
differ fuel mem a b h = rw (==_of_ne (mem a) (mem b) h)

-- `strcmp` of two texts returns the difference of two characters that are equal exactly when the
-- texts are. It ends if the fuel exceeds the length of the first.
pub strcmp-Text :
    (xs ys : List ℕ) (fuel : ℕ) (mem : Memory) (a b : ℕ)
    → Text mem a xs
    → Text mem b ys
    → length xs < fuel
    → (c d : ℕ) × (strcmp fuel mem a b ≡ some (c, d)) × ((c ≡ d) ↔ (xs ≡ ys))
unfolding strcmp
strcmp-Text xs ys zero mem a b s t enough = elim enough [ ]
strcmp-Text [] [] (suc fuel) mem a b s t enough =
    (mem a, mem b, rw (s, t) refl, ground (arith, s, t))
strcmp-Text [] (y ∷ ys) (suc fuel) mem a b s t enough = (
  mem a,
  mem b,
  differ fuel mem a b (λ e. omega (arith, s, t.0, t.1, e)),
  ((λ e. absurd (omega (arith, s, t.0, t.1, e))), (λ e. ground (arith, e))),
)
strcmp-Text (x ∷ xs) [] (suc fuel) mem a b s t enough = (
  mem a,
  mem b,
  differ fuel mem a b (λ e. omega (arith, s.0, s.1, t, e)),
  ((λ e. absurd (omega (arith, s.0, s.1, t, e))), (λ e. ground (arith, e))),
)
strcmp-Text (x ∷ xs) (y ∷ ys) (suc fuel) mem a b s t enough = elim (Bool-cases (mem a == mem b)) [
  | inl same ↦
      let going : (mem a == 0) ≡ false = ==_of_ne (mem a) 0 (omega (arith, s.0, s.1)) in
      let (c, d, ran, verdict) =
        strcmp-Text xs ys fuel mem (a + 1) (b + 1) s.2 t.2 (omega (arith, enough)) in
      let heads : x ≡ y = sym s.0 ∙ (==_iff (mem a) (mem b)).0 same ∙ t.0 in
      (
        c,
        d,
        rw (same, going) ran,
        ((λ e. ap₂ (λ z zs. z ∷ zs) heads (verdict.0 e)), (λ e. verdict.1 (ground (arith, e)))),
      )
  | inr other ↦
      let ne : mem a ≢ mem b = ground (arith, other) in
      (
        mem a,
        mem b,
        differ fuel mem a b ne,
        ((λ e. absurd (ne e)), (λ e. absurd (ground (arith, ne, s.0, t.0, e)))),
      )
]
