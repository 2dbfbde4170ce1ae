-- ===== src/Filter/Vowels.antt =====
-- `filter` of Userland/uCodeModule/filter.c against the filter of a list.
use s_o.Base.{
  ℕ, zero, suc, ◌+◌, ◌≤◌, ◌<◌, ◌≡◌, refl, sym, ap, ◌∙◌, subst, ◌≢◌, inl, inr, true, false, some,
  List, [], ◌∷◌, arith, ◌==◌, if◌then◌else◌, ==_iff, ==_of_ne, Bool-cases, length, All, update,
  update_self, update-ne,
}
use s_o.Filter.{is_vowel, compact, collect, filter, seen}

abbrev pub vowels : List ℕ → List ℕ
vowels [] = []
vowels (c ∷ cs) = if is_vowel c then c ∷ vowels cs else vowels cs

-- The text `cs`, with a NUL, from `p` on.
abbrev pub Text : (ℕ → ℕ) → ℕ → List ℕ → Type 0
Text b p [] = b p ≡ 0
Text b p (c ∷ cs) = b p ≡ c × Text b (p + 1) cs

Text-same :
    (b b' : ℕ → ℕ) (p : ℕ) (cs : List ℕ)
    → ((k : ℕ) → p ≤ k → b' k ≡ b k)
    → Text b p cs
    → Text b' p cs
Text-same b b' p [] same text = same p (omega arith) ∙ text
Text-same b b' p (c ∷ cs) same text = (
  same p (omega arith) ∙ text.0,
  Text-same b b' (p + 1) cs (λ k le. same k (omega (arith, le))) text.1,
)

-- A character in front of a text that a loop stores behind it.
pub Text-cons :
    (b buff : ℕ → ℕ) (i c : ℕ) (cs : List ℕ)
    → ((k : ℕ) → k < i + 1 → b k ≡ update buff i c k)
    → Text (update b (i + 1 + length cs) 0) (i + 1) cs
    → Text (update b (i + suc (length cs)) 0) i (c ∷ cs)
Text-cons b buff i c cs before text =
    let place : i + 1 + length cs ≡ i + suc (length cs) = omega arith in
    (
      update-ne b (i + suc (length cs)) 0 i (λ e. omega (arith, e))
          ∙ before i (omega arith)
          ∙ update_self buff i c,
      subst (λ n. Text (update b n 0) (i + 1) cs) place text,
    )

-- What is stored behind a place is not in front of it.
pub before-cons :
    (b buff : ℕ → ℕ) (i c k : ℕ)
    → ((k' : ℕ) → k' < i + 1 → b k' ≡ update buff i c k')
    → k < i
    → b k ≡ buff k
before-cons b buff i c k before below =
    before k (omega (arith, below)) ∙ update-ne buff i c k (λ e. omega (arith, e, below))

compact_end :
    (fuel : ℕ) (buff : ℕ → ℕ) (i j : ℕ)
    → buff i ≡ 0
    → compact (suc fuel) buff i j ≡ some (update buff j 0, j + 0)
unfolding compact
compact_end fuel buff i j e =
    rw ((==_iff (buff i) 0).1 e) (ap (λ n. some (update buff j 0, n)) (omega arith))

compact-Text :
    (cs : List ℕ) (fuel : ℕ) (buff : ℕ → ℕ) (i j : ℕ)
    → All (λ c. c ≢ 0) cs
    → Text buff i cs
    → j ≤ i
    → length cs < fuel
    → (b : ℕ → ℕ) × compact fuel buff i j ≡ some (b, j + length (vowels cs))
      × Text b j (vowels cs)
      × ((k : ℕ) → k < j → b k ≡ buff k)
unfolding compact
compact-Text cs zero buff i j plain text le lt = absurd (omega (arith, lt))
compact-Text [] (suc fuel) buff i j plain text le lt = (
  update buff j 0,
  compact_end fuel buff i j text,
  update_self buff j 0,
  λ k below. update-ne buff j 0 k (λ e. omega (arith, e, below)),
)
compact-Text (c ∷ cs) (suc fuel) buff i j plain text le lt =
    let more : (buff i == 0) ≡ false = ==_of_ne (buff i) 0 (λ e. plain.0 (sym text.0 ∙ e)) in
    let same : is_vowel (buff i) ≡ is_vowel c = ap is_vowel text.0 in
    elim (Bool-cases (is_vowel c)) [
      | inl vowel ↦
          (let further = update buff j (buff i) in
            let kept : Text further (i + 1) cs =
              Text-same buff further (i + 1) cs
                (λ k above. update-ne buff j (buff i) k (λ e. omega (arith, e, above, le)))
                text.1 in
            let (b, ran, out, before) =
              compact-Text cs fuel further (i + 1) (j + 1) plain.1 kept (omega (arith, le))
                (omega (arith, lt)) in
            let here : b j ≡ c = before j (omega arith) ∙ update_self buff j (buff i) ∙ text.0 in
            let length_same : j + 1 + length (vowels cs) ≡ j + suc (length (vowels cs)) =
              omega arith in
            rw vowel (
              b,
              rw (compact, more, same, vowel) (ran ∙ ap (λ n. some (b, n)) length_same),
              (here, out),
              λ k below.
                  before k (omega (arith, below))
                  ∙ update-ne buff j (buff i) k (λ e. omega (arith, e, below)),
            ))
      | inr other ↦
          (let (b, ran, out, before) =
              compact-Text cs fuel buff (i + 1) j plain.1 text.1 (omega (arith, le))
                (omega (arith, lt)) in
            rw other (b, rw (compact, more, same, other) ran, out, before))
    ]

-- The characters `cs`, each with the NUL that `read` puts behind it, and then the end of the input.
abbrev pub typed : List ℕ → List (ℕ × ℕ)
typed [] = (4, 0) ∷ []
typed (c ∷ cs) = (c, 0) ∷ typed cs

collect-typed :
    (cs : List ℕ) (buff : ℕ → ℕ) (i : ℕ)
    → All (λ c. seen c ≡ true) cs
    → (b : ℕ → ℕ) × collect (typed cs) (buff, i) ≡ some (b, i + length cs)
      × Text (update b (i + length cs) 0) i cs
      × ((k : ℕ) → k < i → b k ≡ buff k)
unfolding collect
collect-typed [] buff i plain = (
  buff,
  ap (λ n. some (buff, n)) (omega arith),
  ap (update buff (i + 0) 0) (omega arith) ∙ update_self buff (i + 0) 0,
  λ k below. refl,
)
collect-typed (c ∷ cs) buff i plain =
    let (b, ran, text, before) = collect-typed cs (update buff i c) (i + 1) plain.1 in
    (
      b,
      rw (collect, plain.0) (ran ∙ ap (λ n. some (b, n)) (omega arith)),
      Text-cons b buff i c cs before text,
      λ k below. before-cons b buff i c k before below,
    )

pub seen-nonzero : (cs : List ℕ) → All (λ c. seen c ≡ true) cs → All (λ c. c ≢ 0) cs
seen-nonzero [] h = tt
seen-nonzero (c ∷ cs) h = ((λ e. ground (arith, e, h.0)), seen-nonzero cs h.1)

-- A user types fewer than 2048 characters, which `buff` has room for with a NUL, none of them 0 or 4,
-- and ends the input: `filter` prints the vowels among
-- them, in their order. It ends if the fuel exceeds the number of the characters.
pub filter-vowels :
    (cs : List ℕ) (fuel : ℕ) (buff : ℕ → ℕ)
    → All (λ c. seen c ≡ true) cs
    → length cs < 2048
    → length cs < fuel
    → (b : ℕ → ℕ) × filter fuel buff (typed cs) ≡ some (b, length (vowels cs))
      × Text b 0 (vowels cs)
unfolding filter
filter-vowels cs fuel buff plain room lt =
    let (read_in, ran, text, before) = collect-typed cs buff 0 plain in
    let (b, done, out, kept) =
      compact-Text cs fuel (update read_in (0 + length cs) 0) 0 0 (seen-nonzero cs plain) text
        (omega arith) lt in
    (b, rw (filter, ran) (done ∙ ap (λ n. some (b, n)) (omega arith)), out)
