-- ===== src/WordCount/Tests.antt =====
-- Two lines that are counted.
use s_o.Base.{ℕ, ◌≡◌, refl, some, List, [], ◌∷◌, arith}
use s_o.WordCount.{Counts, wc}
use s_o.WordCount.Counting.{typed_lines, wc-typed_lines}

-- `a b` and `hi you`
abbrev two_lines : List (List ℕ)
two_lines = (97 ∷ 32 ∷ 98 ∷ []) ∷ (104 ∷ 105 ∷ 32 ∷ 121 ∷ 111 ∷ 117 ∷ []) ∷ []

wc-typed_lines_example :
    (n : Counts) × wc 10 (λ i. 9) (typed_lines two_lines) ≡ some n
    × n.chars ≡ 6
    × n.words ≡ 2
    × n.lines ≡ 0
wc-typed_lines_example =
    wc-typed_lines two_lines 10 (λ i. 9)
      ((refl, (refl, (refl, tt))), ((refl, (refl, (refl, (refl, (refl, (refl, tt)))))), tt))
      (ground arith, (ground arith, tt)) (ground arith) (ground arith)
