-- ===== src/Cat/Echo.antt =====
-- What `cat` of Userland/uCodeModule/cat.c prints of lines that the user types.
use s_o.Base.{
  ℕ, ◌<◌, ◌≡◌, refl, sym, ap, ◌∙◌, true, false, Option, none, some, List, [], ◌∷◌, ◌++◌,
  append_assoc, append-nil, arith, ◌==◌, length, All,
}
use s_o.WordCount.Counting.{pairs, typed_lines, Typed}
use s_o.Filter.{seen}
use s_o.Cat.{cat, cat_loop, prefixed}

-- Each line as it is typed, and once more on a line of its own.
abbrev pub twice : List (List ℕ) → List ℕ
twice [] = []
twice (l ∷ ls) = (l ++ (10 ∷ l ++ 10 ∷ [])) ++ twice ls

prefixed-nil : (r : Option (List ℕ)) → prefixed [] r ≡ r
prefixed-nil none = refl
prefixed-nil (some further) = refl

prefixed-append :
    (xs ys : List ℕ) (r : Option (List ℕ)) → prefixed xs (prefixed ys r) ≡ prefixed (xs ++ ys) r
prefixed-append xs ys none = refl
prefixed-append xs ys (some zs) = ap some (sym (append_assoc xs ys zs))

cat_loop-char :
    (c : ℕ) (reads : List (ℕ × ℕ)) (buff : List ℕ)
    → seen c ≡ true
    → cat_loop ((c, 0) ∷ reads) buff ≡ prefixed (c ∷ []) (cat_loop reads (buff ++ c ∷ []))
unfolding cat_loop
cat_loop-char c reads buff plain =
    let no_end : (c == 0) ≡ false = ground (arith, plain) in
    let no_stop : (c == 4) ≡ false = ground (arith, plain) in rw (no_end, no_stop, cat_loop) refl

cat_loop-pairs :
    (cs : List ℕ) (reads : List (ℕ × ℕ)) (buff : List ℕ)
    → Typed cs
    → cat_loop (pairs cs reads) buff ≡ prefixed cs (cat_loop reads (buff ++ cs))
cat_loop-pairs [] reads buff plain =
    ap (cat_loop reads) (sym (append-nil buff)) ∙ sym (prefixed-nil (cat_loop reads (buff ++ [])))
cat_loop-pairs (c ∷ cs) reads buff plain =
    cat_loop-char c (pairs cs reads) buff plain.0
    ∙ ap (prefixed (c ∷ [])) (
        cat_loop-pairs cs reads (buff ++ c ∷ []) plain.1
        ∙ ap (λ b. prefixed cs (cat_loop reads b)) (append_assoc buff (c ∷ []) cs))
    ∙ prefixed-append (c ∷ []) cs (cat_loop reads (buff ++ c ∷ cs))

-- The NUL behind a line.
cat_loop-line :
    (reads : List (ℕ × ℕ)) (buff : List ℕ)
    → cat_loop ((0, 0) ∷ reads) buff ≡ prefixed (10 ∷ buff ++ 10 ∷ []) (cat_loop reads [])
unfolding cat_loop
cat_loop-line reads buff =
    ap (λ b. prefixed (10 ∷ b ++ 10 ∷ []) (cat_loop reads [])) (append-nil buff)

-- A user types lines of fewer than 2048 characters, which `buff` has room for with a NUL, without 0 and
-- 4 in them, and ends the input: `cat` prints each line as it is typed and once more behind it.
pub cat-twice :
    (ls : List (List ℕ))
    → All Typed ls
    → All (λ l. length l < 2048) ls
    → cat true (typed_lines ls) ≡ some (twice ls)
unfolding cat cat_loop
cat-twice [] plain room = refl
cat-twice (l ∷ ls) plain room =
    cat_loop-pairs l ((0, 0) ∷ typed_lines ls) [] plain.0
    ∙ ap (prefixed l) (cat_loop-line (typed_lines ls) l)
    ∙ prefixed-append l (10 ∷ l ++ 10 ∷ []) (cat_loop (typed_lines ls) [])
    ∙ ap (prefixed (l ++ (10 ∷ l ++ 10 ∷ []))) (cat-twice ls plain.1 room.1)
