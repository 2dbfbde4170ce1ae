-- ===== src/Filter.antt =====
-- Userland/uCodeModule/filter.c: the vowels of what the user types.
-- A character is its byte. Each `read` of two bytes gives a pair; the pairs are an argument. `buff`
-- has 2048 bytes, which the code does not look at: the map goes on behind them.
pub mod Vowels
mod Tests
use s_o.Base.{
  ℕ, zero, suc, ◌+◌, Bool, not, ◌&&◌, ◌||◌, Option, none, some, List, [], ◌∷◌, ◌==◌, if◌then◌else◌,
  update,
}

abbrev pub is_vowel : ℕ → Bool
is_vowel c =
    c == 97
    || c == 101
    || c == 105
    || c == 111
    || c == 117
    || c == 65
    || c == 69
    || c == 73
    || c == 79
    || c == 85

-- The character is stored and shown unless it is 0 or 4.
abbrev pub seen : ℕ → Bool
seen c = not (c == 0) && not (c == 4)

abbrev pub put : (ℕ → ℕ) × ℕ → ℕ → (ℕ → ℕ) × ℕ
put (buff, i) c = if seen c then (update buff i c, i + 1) else (buff, i)

-- The first loop, over what the calls of `read` give; `none` while the program waits for more.
unfoldable pub collect : List (ℕ × ℕ) → (ℕ → ℕ) × ℕ → Option ((ℕ → ℕ) × ℕ)
unfolding update
collect [] s = none
collect ((c0, c1) ∷ reads) s =
    let further = collect reads (put (put s c0) c1) in
    if seen c0 || seen c1 then further else some (put (put s c0) c1)

-- The second loop, on fuel: `i` runs over `buff`, and the vowels move to `j`.
unfoldable pub compact : ℕ → (ℕ → ℕ) → ℕ → ℕ → Option ((ℕ → ℕ) × ℕ)
unfolding update
compact zero buff i j = none
compact (suc fuel) buff i j =
    let kept = compact fuel (update buff j (buff i)) (i + 1) (j + 1) in
    let skipped = compact fuel buff (i + 1) j in
    if buff i == 0 then some (update buff j 0, j) else if is_vowel (buff i) then kept else skipped

-- The text that is printed in the end, in `buff`, and its length. `buff[i] = 0` ends the input.
unfoldable pub filter : ℕ → (ℕ → ℕ) → List (ℕ × ℕ) → Option ((ℕ → ℕ) × ℕ)
unfolding update
filter fuel buff reads = elim (collect reads (buff, 0)) [
  | none ↦ none
  | some s ↦ compact fuel (update s.0 s.1 0) 0 0
]
