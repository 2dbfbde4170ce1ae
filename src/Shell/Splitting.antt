-- ===== src/Shell/Splitting.antt =====
-- The loop of `parseString` of Userland/uCodeModule/shell.c, against the words of a list.
use s_o.Base.{
  ℕ, zero, suc, ◌+◌, ◌≤◌, ◌<◌, min, ◌≡◌, refl, sym, ap, ap₂, ◌∙◌, subst, inl, inr, false, Option,
  some, List, [], ◌∷◌, arith, ltb, ◌==◌, Bool-cases, length, get_or, take, update, update_self,
  update-ne,
}
use s_o.Shell.Parsing.{
  Rows, max_words, max_word_length, word, behind_word, end_words, parse_loop, copy_word,
  parse_string, skip_spaces,
}
use s_o.Shell.Words.{words_of, find, nothing, starts, behind_word-shorter}

-- A word as `parseString` stores it.
abbrev pub cut : List ℕ → List ℕ
cut w = take (min (length w) max_word_length) w

-- The rows and the count that come out, when `num` words are stored and the words `ws` follow.
abbrev Parsed : (ℕ → List ℕ) → ℕ → List (List ℕ) → Option Rows → Type 0
Parsed rows num ws r =
    (rows' : ℕ → List ℕ) × (m : ℕ) × r ≡ some (rows', m)
    × m ≡ min max_words (num + length ws)
    × ((i : ℕ) → i < num → rows' i ≡ rows i)
    × ((i : ℕ) → num + i < m → rows' (num + i) ≡ cut (get_or ws i []))
    × rows' m ≡ []

stopped-Parsed :
    (rows : ℕ → List ℕ) (num : ℕ) (ws : List (List ℕ))
    → num ≡ min max_words (num + length ws)
    → Parsed rows num ws (some (end_words (rows, num)))
stopped-Parsed rows num ws e = (
  update rows num [],
  num,
  refl,
  e,
  λ i lt. update-ne rows num [] i (λ h. omega (arith, h, lt)),
  λ i lt. absurd (omega (arith, lt)),
  update_self rows num [],
)

-- One more word in front.
word-Parsed :
    (rows : ℕ → List ℕ) (num : ℕ) (w : List ℕ) (ws : List (List ℕ)) (r : Option Rows)
    → num < max_words
    → Parsed (update rows num (cut w)) (num + 1) ws r
    → Parsed rows num (w ∷ ws) r
word-Parsed rows num w ws r room (rows', m, ran, count, before, stored, last) = (
  rows',
  m,
  ran,
  omega (arith, count),
  λ i lt. before i (omega (arith, lt)) ∙ update-ne rows num (cut w) i (λ h. omega (arith, h, lt)),
  λ i lt. at_word i lt,
  last,
)
  where
    at_word : (i : ℕ) → num + i < m → rows' (num + i) ≡ cut (get_or (w ∷ ws) i [])
    at_word zero lt =
        ap rows' (omega arith) ∙ before num (omega arith) ∙ update_self rows num (cut w)
    at_word (suc i) lt = ap rows' (omega arith) ∙ stored i (omega (arith, lt))

parse_loop-word :
    (fuel : ℕ) (str : List ℕ) (rows : ℕ → List ℕ) (num c : ℕ) (cs : List ℕ)
    → skip_spaces str ≡ c ∷ cs
    → (c == 32) ≡ false
    → 0 < length str
    → num < max_words
    → parse_loop (suc fuel) str (rows, num)
      ≡ parse_loop fuel (behind_word cs) (update rows num (cut (c ∷ word cs)), num + 1)
unfolding parse_loop
parse_loop-word fuel str rows num c cs at_word plain some_left room =
    let behind : behind_word (skip_spaces str) ≡ behind_word cs =
      ap behind_word at_word ∙ ground (arith, plain) in
    let taken : word (skip_spaces str) ≡ c ∷ word cs = ap word at_word ∙ ground (arith, plain) in
    let next = ap₂ (λ rest w. parse_loop fuel rest (copy_word (rows, num) w)) behind taken in
    ground (arith, at_word, some_left, room, next)

parse_loop-Parsed :
    (fuel : ℕ) (str : List ℕ) (rows : ℕ → List ℕ) (num : ℕ)
    → length str < fuel
    → num ≤ max_words
    → Parsed rows num (words_of str) (parse_loop fuel str (rows, num))
unfolding parse_loop
parse_loop-Parsed zero str rows num lt le = absurd (omega (arith, lt))
parse_loop-Parsed (suc fuel) str rows num lt le = elim (find str) [
  | nothing empty none_left ↦
      subst (Parsed rows num (words_of str)) (ground (arith, empty))
        (stopped-Parsed rows num (words_of str) (ground (arith, none_left, le)))
  | starts c cs at_word plain ws shorter ↦ elim (Bool-cases (ltb num max_words)) [
    | inr full ↦
        subst (Parsed rows num (words_of str)) (ground (arith, full))
          (stopped-Parsed rows num (words_of str) (ground (arith, ws, le, full)))
    | inl room ↦
        subst (λ v. Parsed rows num v (parse_loop (suc fuel) str (rows, num))) (sym ws)
          (word-Parsed rows num (c ∷ word cs) (words_of (behind_word cs))
            (parse_loop (suc fuel) str (rows, num)) (ground (arith, room))
            (subst
              (Parsed (update rows num (cut (c ∷ word cs))) (num + 1) (words_of (behind_word cs)))
              (sym (
                parse_loop-word fuel str rows num c cs at_word plain (omega (arith, shorter))
                  (ground (arith, room))))
              (parse_loop-Parsed fuel (behind_word cs) (update rows num (cut (c ∷ word cs)))
                (num + 1) (omega (arith, shorter, lt, behind_word-shorter cs))
                (ground (arith, room)))))
  ]
]

-- `parseString` of a text with fewer than 80 words ends, with fuel above its length. It finds all the
-- words, cuts each off behind 40 characters, and ends the rows with an empty one, inside of the array.
pub parse_string-words_of :
    (fuel : ℕ) (str : List ℕ) (rows : ℕ → List ℕ)
    → length str < fuel
    → length (words_of str) < max_words
    → (rows' : ℕ → List ℕ) × (num : ℕ) × parse_string fuel str rows ≡ some (rows', num)
      × num ≡ length (words_of str)
      × ((i : ℕ) → i < num → rows' i ≡ cut (get_or (words_of str) i []))
      × rows' num ≡ []
unfolding parse_string
parse_string-words_of fuel str rows lt few =
    let (rows', m, ran, count, before, stored, last) =
      parse_loop-Parsed fuel str rows 0 lt (omega arith) in
    (
      rows',
      m,
      ran,
      omega (arith, count, few),
      λ i below. ap rows' (omega arith) ∙ stored i (omega (arith, below)),
      last,
    )
