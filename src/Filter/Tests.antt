-- ===== src/Filter/Tests.antt =====
-- A word that is filtered.
use s_o.Base.{ℕ, ◌≡◌, refl, some, List, [], ◌∷◌, arith}
use s_o.Filter.{filter}
use s_o.Filter.Vowels.{vowels, typed, Text, filter-vowels}

-- `house`
abbrev house : List ℕ
house = 104 ∷ 111 ∷ 117 ∷ 115 ∷ 101 ∷ []

filtered_house : vowels house ≡ 111 ∷ 117 ∷ 101 ∷ []
filtered_house = refl

filter-vowels_example :
    (b : ℕ → ℕ) × filter 10 (λ k. 9) (typed house) ≡ some (b, 3) × Text b 0 (111 ∷ 117 ∷ 101 ∷ [])
filter-vowels_example =
    filter-vowels house 10 (λ k. 9) (refl, (refl, (refl, (refl, (refl, tt))))) (ground arith)
      (ground arith)
