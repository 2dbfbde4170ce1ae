-- ===== src/Cat/Tests.antt =====
-- Two lines that are typed.
use s_o.Base.{ℕ, ◌≡◌, refl, true, some, List, [], ◌∷◌}
use s_o.WordCount.Counting.{typed_lines}
use s_o.Cat.{cat, cat_loop}

-- "hi" and "a"
abbrev two_lines : List (List ℕ)
two_lines = (104 ∷ 105 ∷ []) ∷ (97 ∷ []) ∷ []

printed_lines :
    cat true (typed_lines two_lines)
    ≡ some (104 ∷ 105 ∷ 10 ∷ 104 ∷ 105 ∷ 10 ∷ 97 ∷ 10 ∷ 97 ∷ 10 ∷ [])
unfolding cat cat_loop
printed_lines = refl
