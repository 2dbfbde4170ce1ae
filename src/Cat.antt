-- ===== src/Cat.antt =====
-- Userland/uCodeModule/cat.c: lines that come back.
-- A character is its byte. Each `read` of two bytes gives a pair; the pairs are an argument. No 0 is
-- stored in `buff` between two lines, so its text is the list of the characters stored since the last
-- line; the code does not look at its size,
-- 2048 bytes.
pub mod Echo
mod Tests
use s_o.Base.{
  ℕ, Bool, true, false, not, ◌&&◌, ◌||◌, Option, none, some, List, [], ◌∷◌, ◌++◌, ◌==◌,
  if◌then◌else◌,
}
use s_o.Filter.{seen}

-- What a character adds to the output, and to `buff`.
abbrev pub shown : ℕ → List ℕ
shown c = if seen c then c ∷ [] else []

-- What is printed and what is in `buff` behind the round of a pair.
abbrev pub line_printed : ℕ × ℕ → List ℕ → List ℕ
line_printed (c0, c1) buff = if c0 == 0 && c1 == 0 then 10 ∷ buff ++ 10 ∷ [] else []

abbrev pub line_left : ℕ × ℕ → List ℕ → List ℕ
line_left (c0, c1) buff = if c0 == 0 && c1 == 0 then [] else buff

-- The condition of the loop.
abbrev pub goes_on : ℕ × ℕ → Bool
goes_on (c0, c1) = (not (c0 == 4) && c0 == 0) || (not (c0 == 4) && c1 == 0)

abbrev pub prefixed : List ℕ → Option (List ℕ) → Option (List ℕ)
prefixed out none = none
prefixed out (some further) = some (out ++ further)

-- The loop, over what the calls of `read` give; `none` while the program waits for more.
unfoldable pub cat_loop : List (ℕ × ℕ) → List ℕ → Option (List ℕ)
cat_loop [] buff = none
cat_loop ((c0, c1) ∷ reads) buff =
    let stored = buff ++ (shown c0 ++ shown c1) in
    let out = shown c0 ++ shown c1 ++ line_printed (c0, c1) stored in
    let further = prefixed out (cat_loop reads (line_left (c0, c1) stored)) in
    if goes_on (c0, c1) then further else some out

-- `cat`, when `malloc` finds room or not.
unfoldable pub cat : Bool → List (ℕ × ℕ) → Option (List ℕ)
unfolding cat_loop
cat false reads = some []
cat true reads = cat_loop reads []
