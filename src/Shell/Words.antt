-- ===== src/Shell/Words.antt =====
-- `parseString` against the words of a list.
use s_o.Base.{
  ℕ, ◌≤◌, ◌<◌, ◌≡◌, refl, inl, inr, Bool, true, false, not, List, [], ◌∷◌, arith, ◌==◌,
  if◌then◌else◌, Bool-cases, length,
}
use s_o.Shell.Parsing.{skip_spaces, word, behind_word}

abbrev pub begins_word : List ℕ → Bool
begins_word [] = false
begins_word (c ∷ cs) = not (c == 32)

-- A character joins the word behind it, if there is one right behind it.
abbrev pub attach : ℕ → Bool → List (List ℕ) → List (List ℕ)
attach c true (w ∷ ws) = (c ∷ w) ∷ ws
attach c _ ws = (c ∷ []) ∷ ws

-- The words of a text, which spaces stand between.
abbrev pub words_of : List ℕ → List (List ℕ)
words_of [] = []
words_of (c ∷ cs) = if c == 32 then words_of cs else attach c (begins_word cs) (words_of cs)

words_of-skip_spaces : (str : List ℕ) → words_of (skip_spaces str) ≡ words_of str
words_of-skip_spaces [] = refl
words_of-skip_spaces (c ∷ cs) = elim (Bool-cases (c == 32)) [
  | inl e ↦ ground (arith, e, words_of-skip_spaces cs)
  | inr e ↦ ground (arith, e)
]

words_of-word :
    (c : ℕ) (cs : List ℕ)
    → (c == 32) ≡ false
    → words_of (c ∷ cs) ≡ (c ∷ word cs) ∷ words_of (behind_word cs)
words_of-word c [] e = ground (arith, e)
words_of-word c (d ∷ ds) e = elim (Bool-cases (d == 32)) [
  | inl f ↦ ground (arith, e, f)
  | inr f ↦ ground (arith, e, f, words_of-word d ds f)
]

skip_spaces-shorter : (str : List ℕ) → length (skip_spaces str) ≤ length str
skip_spaces-shorter [] = omega arith
skip_spaces-shorter (c ∷ cs) = ground (arith, skip_spaces-shorter cs)

pub behind_word-shorter : (str : List ℕ) → length (behind_word str) ≤ length str
behind_word-shorter [] = omega arith
behind_word-shorter (c ∷ cs) = ground (arith, behind_word-shorter cs)

-- What a search for a word finds: nothing, or a byte that is no space.
pub data Found (str : List ℕ) : Type 0 where
  nothing : skip_spaces str ≡ [] → words_of str ≡ [] → Found str
  starts :
      (c : ℕ) (cs : List ℕ)
      → skip_spaces str ≡ c ∷ cs
      → (c == 32) ≡ false
      → words_of str ≡ (c ∷ word cs) ∷ words_of (behind_word cs)
      → length cs < length str
      → Found str

pub find : (str : List ℕ) → Found str
find [] = nothing refl refl
find (c ∷ cs) = elim (Bool-cases (c == 32)) [
  | inl e ↦ elim (find cs) [
    | nothing a b ↦ nothing (ground (arith, e, a)) (ground (arith, e, b))
    | starts d ds a b w lt ↦
        starts d ds (ground (arith, e, a)) b (ground (arith, e, w)) (omega (arith, lt))
  ]
  | inr e ↦ starts c cs (ground (arith, e)) e (words_of-word c cs e) (omega arith)
]
