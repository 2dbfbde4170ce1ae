-- ===== src/WordCount/Counting.antt =====
-- `wc` of Userland/uCodeModule/wc.c, on lines that the user types.
use s_o.Base.{
  ℕ, zero, suc, ◌+◌, ◌-◌, ◌<◌, ◌≡◌, refl, sym, ap, ◌∙◌, ◌≢◌, inl, inr, Bool, true, false, ◌||◌,
  some, List, [], ◌∷◌, arith, ltb, ◌==◌, if◌then◌else◌, ==_iff, ==_of_ne, Bool-cases, length, All,
  update, update_self,
}
use s_o.Filter.Vowels.{Text, Text-cons, before-cons, seen-nonzero}
use s_o.Filter.{seen}
use s_o.WordCount.{Counts, collect, count_char, count_loop, last_line, no_counts, wc}

abbrev pub pairs : List ℕ → List (ℕ × ℕ) → List (ℕ × ℕ)
pairs [] reads = reads
pairs (c ∷ cs) reads = (c, 0) ∷ pairs cs reads

-- The pairs for lines that end with Enter, and for Ctrl-D behind them.
abbrev pub typed_lines : List (List ℕ) → List (ℕ × ℕ)
typed_lines [] = (4, 0) ∷ []
typed_lines (l ∷ ls) = pairs l ((0, 0) ∷ typed_lines ls)

abbrev pub Typed : List ℕ → Type 0
Typed l = All (λ c. seen c ≡ true) l

collect_plain :
    (c : ℕ) (reads : List (ℕ × ℕ)) (buff : ℕ → ℕ) (i : ℕ)
    → seen c ≡ true
    → collect ((c, 0) ∷ reads) (buff, i) ≡ collect reads (update buff i c, i + 1)
unfolding collect
collect_plain c reads buff i h = ground (arith, h)

collect-pairs :
    (cs : List ℕ) (reads : List (ℕ × ℕ)) (buff : ℕ → ℕ) (i : ℕ)
    → Typed cs
    → (b : ℕ → ℕ) × collect (pairs cs reads) (buff, i) ≡ collect reads (b, i + length cs)
      × Text (update b (i + length cs) 0) i cs
      × ((k : ℕ) → k < i → b k ≡ buff k)
unfolding collect
collect-pairs [] reads buff i plain = (
  buff,
  ap (λ n. collect reads (buff, n)) (omega arith),
  ap (update buff (i + 0) 0) (omega arith) ∙ update_self buff (i + 0) 0,
  λ k below. refl,
)
collect-pairs (c ∷ cs) reads buff i plain =
    let (b, ran, text, before) = collect-pairs cs reads (update buff i c) (i + 1) plain.1 in
    (
      b,
      collect_plain c (pairs cs reads) buff i plain.0
          ∙ ran
          ∙ ap (λ n. collect reads (b, n)) (omega arith),
      Text-cons b buff i c cs before text,
      λ k below. before-cons b buff i c k before below,
    )

-- What counting makes of a text.
abbrev pub counted : Counts → List ℕ → Counts
counted n [] = n
counted n (c ∷ cs) = counted (count_char n c) cs

count_loop-Text :
    (cs : List ℕ) (fuel : ℕ) (buff : ℕ → ℕ) (i : ℕ) (n : Counts)
    → All (λ c. c ≢ 0) cs
    → Text buff i cs
    → length cs < fuel
    → count_loop fuel buff i n ≡ some (counted n cs)
unfolding count_loop
count_loop-Text cs zero buff i n plain text lt = absurd (omega (arith, lt))
count_loop-Text [] (suc fuel) buff i n plain text lt = rw ((==_iff (buff i) 0).1 text) refl
count_loop-Text (c ∷ cs) (suc fuel) buff i n plain text lt =
    let more : (buff i == 0) ≡ false = ==_of_ne (buff i) 0 (λ e. plain.0 (sym text.0 ∙ e)) in
    rw (more, text.0)
      (count_loop-Text cs fuel buff (i + 1) (count_char n c) plain.1 text.1 (omega (arith, lt)))

-- The line that is typed last, and `l` when there is none.
abbrev pub last_of : List ℕ → List (List ℕ) → List ℕ
last_of l [] = l
last_of l (m ∷ ms) = last_of m ms

collect-typed_lines :
    (ls : List (List ℕ)) (l : List ℕ) (buff : ℕ → ℕ)
    → All Typed ls
    → Text buff 0 l
    → (b : ℕ → ℕ) × collect (typed_lines ls) (buff, 0) ≡ some (b, 0) × Text b 0 (last_of l ls)
unfolding collect
collect-typed_lines [] l buff plain text = (buff, refl, text)
collect-typed_lines (m ∷ ms) l buff plain text =
    let (b, ran, line, before) = collect-pairs m ((0, 0) ∷ typed_lines ms) buff 0 plain.0 in
    let (b', ran', text') = collect-typed_lines ms m (update b (0 + length m) 0) plain.1 line in
    (b', ran ∙ ran', text')

-- How many words begin in a text, in front of which there is a word or not.
abbrev pub word_starts : Bool → List ℕ → ℕ
word_starts inside [] = 0
word_starts inside (c ∷ cs) =
    if c == 32 || c == 9
    then word_starts false cs
    else if inside
    then word_starts true cs
    else suc (word_starts true cs)

count_char_lem :
    (n : Counts) (c : ℕ) (cs : List ℕ)
    → c ≢ 0
    → (count_char n c).chars ≡ n.chars + 1
      × (count_char n c).lines ≡ n.lines
      × (count_char n c).words + word_starts (count_char n c).in_word cs
        ≡ n.words + word_starts n.in_word (c ∷ cs)
unfolding count_char
count_char_lem n c cs h = elim (Bool-cases (c == 32 || c == 9)) [
  | inl blank ↦
      rw (count_char, blank)
        (ground (arith, h, blank), ground (arith, h, blank), ground (arith, h, blank))
  | inr black ↦ elim (Bool-cases n.in_word) [
    | inl inside ↦ (
      ground (arith, h, black, inside),
      ground (arith, h, black, inside),
      ground (arith, h, black, inside, ap (λ b. word_starts b cs) inside),
    )
    | inr between ↦ (
      ground (arith, h, black, between),
      ground (arith, h, black, between),
      ground (arith, h, black, between),
    )
  ]
]

counted_lem :
    (cs : List ℕ) (n : Counts)
    → All (λ c. c ≢ 0) cs
    → (counted n cs).chars ≡ n.chars + length cs
      × (counted n cs).lines ≡ n.lines
      × (counted n cs).words ≡ n.words + word_starts n.in_word cs
counted_lem [] n plain = (omega arith, refl, omega arith)
counted_lem (c ∷ cs) n plain =
    let (chars, lines, words) = counted_lem cs (count_char n c) plain.1 in
    let step = count_char_lem n c cs plain.0 in
    (omega (arith, chars, step.0), lines ∙ step.1, words ∙ step.2)

Text-nonzero :
    (cs : List ℕ) (b : ℕ → ℕ) (p k : ℕ)
    → All (λ c. c ≢ 0) cs
    → Text b p cs
    → k < length cs
    → b (p + k) ≢ 0
Text-nonzero [] b p k plain text lt = absurd (omega (arith, lt))
Text-nonzero (c ∷ cs) b p zero plain text lt = λ e. plain.0 (sym text.0 ∙ ap b (omega arith) ∙ e)
Text-nonzero (c ∷ cs) b p (suc k) plain text lt =
    λ e. Text-nonzero cs b (p + 1) k plain.1 text.1 (omega (arith, lt)) (ap b (omega arith) ∙ e)

last_of-Typed : (ls : List (List ℕ)) (l : List ℕ) → Typed l → All Typed ls → Typed (last_of l ls)
last_of-Typed [] l h hs = h
last_of-Typed (m ∷ ms) l h hs = last_of-Typed ms m hs.0 hs.1

last_line_lem :
    (b : ℕ → ℕ) (n : Counts) (cs : List ℕ)
    → All (λ c. c ≢ 0) cs
    → Text b 0 cs
    → 0 < length cs
    → n.chars ≡ length cs
    → last_line b n ≡ some n
last_line_lem b n cs plain text lt chars =
    let seen_last : b (n.chars - 1) ≢ 0 = λ e.
      Text-nonzero cs b 0 (n.chars - 1) plain text (omega (arith, chars, lt))
        (ap b (omega arith) ∙ e) in
    ground (arith, seen_last, chars, lt)

-- A user types lines of fewer than 2048 characters, which `buff` has room for with a NUL, without a
-- byte 0 or 4 in them, and ends the input behind the last one, which is
-- not empty: `wc` counts the characters and the words of the last line only, and no line. It ends if
-- the fuel exceeds the length of that line.
pub wc-typed_lines :
    (ls : List (List ℕ)) (fuel : ℕ) (buff : ℕ → ℕ)
    → All Typed ls
    → All (λ l. length l < 2048) ls
    → 0 < length (last_of [] ls)
    → length (last_of [] ls) < fuel
    → (n : Counts) × wc fuel buff (typed_lines ls) ≡ some n
      × n.chars ≡ length (last_of [] ls)
      × n.words ≡ word_starts false (last_of [] ls)
      × n.lines ≡ 0
unfolding wc
wc-typed_lines ls fuel buff plain room some_typed lt =
    let cs = last_of [] ls in
    let nonzero = seen-nonzero cs (last_of-Typed ls [] tt plain) in
    let (b, ran, text) =
      collect-typed_lines ls [] (λ i. if ltb i 2048 then 0 else buff i) plain refl in
    let n = counted no_counts cs in
    let (chars, lines, words) = counted_lem cs no_counts nonzero in
    let looped = count_loop-Text cs fuel b 0 no_counts nonzero text lt in
    let closed = last_line_lem b n cs nonzero text some_typed (omega (arith, chars)) in
    (n, rw (wc, ran, looped) closed, omega (arith, chars), omega (arith, words), lines)
