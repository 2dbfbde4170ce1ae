-- ===== src/Shell/Editing.antt =====
-- `bufferRead` against a line that is a list, the last character first.
use s_o.Base.{
  ℕ, ◌+◌, ◌-◌, ◌≤◌, ◌<◌, ◌≡◌, refl, sym, ap, ◌∙◌, inl, inr, true, false, not, ◌&&◌, List, [], ◌∷◌,
  arith, ltb, leb, ◌==◌, if◌then◌else◌, ltb→lt, Bool-cases, length, update, update_self, update-ne,
}
use s_o.Shell.{LineBuffer, edit, buffer_read, max_terminal_chars, read_chars}

abbrev pub dropped : List ℕ → List ℕ
dropped [] = []
dropped (c ∷ cs) = cs

abbrev pub edited : List ℕ → ℕ → List ℕ
edited line c = if c == 8 then dropped line else if leb 32 c && ltb c 128 then c ∷ line else line

-- A line that is full takes no character any more, a NUL ends it, a backspace takes the last
-- character off, a printable character is added.
unfoldable pub line_of : List ℕ → List ℕ → List ℕ
line_of line [] = line
line_of line (c ∷ cs) =
    if ltb (length line) (max_terminal_chars - 1) && not (c == 0)
    then line_of (edited line c) cs
    else line

-- The first places of the memory hold the line.
abbrev Chars : (ℕ → ℕ) → List ℕ → Type 0
Chars buf [] = Unit
Chars buf (c ∷ cs) = buf (length cs) ≡ c × Chars buf cs

-- The memory holds the line and a NUL, and `i` is its length.
abbrev pub Shows : LineBuffer → List ℕ → Type 0
Shows (buf, i) line = i ≡ length line × buf i ≡ 0 × Chars buf line

Chars-update :
    (buf : ℕ → ℕ) (line : List ℕ) (p v : ℕ)
    → length line ≤ p
    → Chars buf line
    → Chars (update buf p v) line
Chars-update buf [] p v le chars = tt
Chars-update buf (c ∷ cs) p v le chars = (
  update-ne buf p v (length cs) (λ e. omega (arith, e, le)) ∙ chars.0,
  Chars-update buf cs p v (omega (arith, le)) chars.1,
)

typed-Shows :
    (buf : ℕ → ℕ) (i c : ℕ) (line : List ℕ)
    → Shows (buf, i) line
    → Shows (update (update buf i c) (i + 1) 0, i + 1) (c ∷ line)
typed-Shows buf i c line shows =
    let at_end : length line ≡ i = sym shows.0 in
    let stored : update (update buf i c) (i + 1) 0 (length line) ≡ c =
      update-ne (update buf i c) (i + 1) 0 (length line) (λ e. omega (arith, e, at_end))
      ∙ ap (update buf i c) at_end
      ∙ update_self buf i c in
    (
      omega (arith, at_end),
      update_self (update buf i c) (i + 1) 0,
      (
        stored,
        Chars-update (update buf i c) line (i + 1) 0 (omega (arith, at_end))
            (Chars-update buf line i c (omega (arith, at_end)) shows.2),
      ),
    )

abbrev erased : LineBuffer → LineBuffer
erased (buf, i) = if ltb 0 i then (update buf (i - 1) 0, i - 1) else (buf, i)

erased-Shows :
    (buf : ℕ → ℕ) (i : ℕ) (line : List ℕ)
    → Shows (buf, i) line
    → Shows (erased (buf, i)) (dropped line)
erased-Shows buf i [] shows =
    let none_typed : ltb 0 i ≡ false = ground (arith, shows.0) in rw none_typed shows
erased-Shows buf i (d ∷ ds) shows =
    let some_typed : ltb 0 i ≡ true = ground (arith, shows.0) in
    rw some_typed (
      omega (arith, shows.0),
      update_self buf (i - 1) 0,
      Chars-update buf ds (i - 1) 0 (omega (arith, shows.0)) (shows.2.1),
    )

edit-Shows :
    (buf : ℕ → ℕ) (i c : ℕ) (line : List ℕ)
    → Shows (buf, i) line
    → Shows (edit (buf, i) c) (edited line c)
unfolding edit
edit-Shows buf i c line shows = elim (Bool-cases (c == 8)) [
  | inl back ↦ rw (edit, back) (erased-Shows buf i line shows)
  | inr other ↦ elim (Bool-cases (leb 32 c && ltb c 128)) [
    | inl seen ↦ rw (edit, other, seen) (typed-Shows buf i c line shows)
    | inr unseen ↦ rw (edit, other, unseen) shows
  ]
]

-- The position moves on by one at most.
edit-step : (buf : ℕ → ℕ) (i c : ℕ) → (edit (buf, i) c).1 ≤ i + 1
unfolding edit
edit-step buf i c = ground arith

edit_end : (buf : ℕ → ℕ) (i c : ℕ) → (c == 0) ≡ true → edit (buf, i) c ≡ (buf, i)
unfolding edit
edit_end buf i c end = ground (arith, end)

read_chars-Shows :
    (cs : List ℕ) (buf : ℕ → ℕ) (i : ℕ) (line : List ℕ)
    → Shows (buf, i) line
    → i < max_terminal_chars
    → Shows (read_chars (buf, i) cs) (line_of line cs)
      × (read_chars (buf, i) cs).1 < max_terminal_chars
unfolding read_chars line_of
read_chars-Shows [] buf i line shows lt = (shows, lt)
read_chars-Shows (c ∷ cs) buf i line shows lt = elim (Bool-cases (ltb i (max_terminal_chars - 1))) [
  | inr full ↦
      (let at_end : ltb (length line) (max_terminal_chars - 1) ≡ false =
          ground (arith, full, shows.0) in
        rw (read_chars, line_of, full, at_end) (shows, lt))
  | inl more ↦
      (let room : ltb (length line) (max_terminal_chars - 1) ≡ true =
          ground (arith, more, shows.0) in
        elim (Bool-cases (c == 0)) [
          | inl end ↦ rw (read_chars, line_of, more, room, end, edit_end buf i c end) (shows, lt)
          | inr on ↦
              rw (read_chars, line_of, more, room, on)
                (read_chars-Shows cs (edit (buf, i) c).0 (edit (buf, i) c).1 (edited line c)
                  (edit-Shows buf i c line shows)
                  (omega (arith, edit-step buf i c, ltb→lt i 123 more)))
        ])
]

-- `bufferRead` leaves in the buffer, with a NUL, the line that the characters make, and stays inside
-- of the 124 bytes.
pub buffer_read-Shows :
    (buf : ℕ → ℕ) (cs : List ℕ)
    → Shows (buffer_read buf cs) (line_of [] cs) × (buffer_read buf cs).1 < max_terminal_chars
unfolding buffer_read
buffer_read-Shows buf cs =
    read_chars-Shows cs (update buf 0 0) 0 [] (refl, update_self buf 0 0, tt) (omega arith)
