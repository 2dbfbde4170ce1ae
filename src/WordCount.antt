-- ===== src/WordCount.antt =====
-- Userland/uCodeModule/wc.c: the characters, the words and the lines of what the user types.
-- A character is its byte. Each `read` of two bytes gives a pair; the pairs are an argument.
pub mod Counting
mod Tests
use s_o.Base.{
  ℕ, zero, suc, ◌+◌, ◌-◌, Bool, true, false, not, ◌&&◌, ◌||◌, Option, none, some, List, [], ◌∷◌,
  ltb, ◌==◌, if◌then◌else◌, update,
}

-- The character goes to `buff` unless it is 0 or 4.
abbrev pub keep : (ℕ → ℕ) × ℕ → ℕ → (ℕ → ℕ) × ℕ
keep (buff, i) c = if not (c == 0) && not (c == 4) then (update buff i c, i + 1) else (buff, i)

-- The body of the first loop. Two NULs end a line, and the next one starts at 0 again.
abbrev pub read_pair : (ℕ → ℕ) × ℕ → ℕ → ℕ → (ℕ → ℕ) × ℕ
read_pair s c0 c1 =
    let (buff, i) = keep (keep s c0) c1 in
    if c0 == 0 && c1 == 0 then (update buff i 0, 0) else (buff, i)

-- The first loop; `none` while the program waits for more.
unfoldable pub collect : List (ℕ × ℕ) → (ℕ → ℕ) × ℕ → Option ((ℕ → ℕ) × ℕ)
unfolding update
collect [] s = none
collect ((c0, c1) ∷ reads) s =
    let further = collect reads (read_pair s c0 c1) in
    if (not (c0 == 4) && c0 == 0) || (not (c0 == 4) && c1 == 0)
    then further
    else some (read_pair s c0 c1)

-- `charCount`, `wordCount`, `lineCount` and `inWord`
pub record Counts : Type 0 where
  pub chars : ℕ
  pub words : ℕ
  pub lines : ℕ
  pub in_word : Bool

-- The body of the second loop.
unfoldable pub count_char : Counts → ℕ → Counts
count_char n c =
    let n' : Counts = record n {
      chars = n.chars + 1;
      lines = if c == 0 then n.lines + 1 else n.lines;
    } in
    if c == 32 || c == 9 || c == 0
    then record n' { in_word = false }
    else if n.in_word
    then n'
    else record n' { in_word = true; words = n.words + 1 }

-- The second loop, on fuel.
unfoldable pub count_loop : ℕ → (ℕ → ℕ) → ℕ → Counts → Option Counts
count_loop zero buff i n = none
count_loop (suc fuel) buff i n =
    let further = count_loop fuel buff (i + 1) (count_char n (buff i)) in
    if buff i == 0 then some n else further

-- The last look at the text; `none` is a read in front of `buff`, of an empty text.
abbrev pub last_line : (ℕ → ℕ) → Counts → Option Counts
last_line buff n =
    if n.chars == 0
    then none
    else if buff (n.chars - 1) == 0
    then some (record n { lines = n.lines + 1 })
    else some n

abbrev pub no_counts : Counts
no_counts = record { chars = 0; words = 0; lines = 0; in_word = false }

-- `wc`; the first BUFF_MAX bytes of `buff` are cleared.
unfoldable pub wc : ℕ → (ℕ → ℕ) → List (ℕ × ℕ) → Option Counts
wc fuel buff reads = elim (collect reads ((λ i. if ltb i 2048 then 0 else buff i), 0)) [
  | none ↦ none
  | some s ↦ elim (count_loop fuel s.0 0 no_counts) [ none ↦ none | some n ↦ last_line s.0 n ]
]
