-- ===== src/Pipe/Data.antt =====
-- What `pipeRead` and `pipeWrite` of Kernel/pipe.c do with the bytes of a pipe in use.
use s_o.Base.{
  ℕ, zero, suc, ◌+◌, ◌-◌, ◌%◌, ◌≤◌, ◌<◌, ◌≡◌, refl, sym, ap, ◌∙◌, ◌≢◌, inl, inr, ◌&&◌, arith, ltb,
  leb, ◌==◌, if◌then◌else◌, ==_of_ne, Bool-cases, update,
}
use s_o.Pipe.{Pipe, pipe_write, read_chars, pipe_buffer_size, pipe_read, read_end}

-- The byte that is `j` places behind the position of the reader.
abbrev pub byte_at : Pipe → ℕ → ℕ
byte_at pipe j = pipe.data_bytes ((pipe.pos_read + j) % pipe_buffer_size)

-- A pipe that was empty takes one byte of a text, however long the text is: the loop stops when the
-- writer is one place in front of the reader.
pub pipe_write_empty :
    (pid : ℕ) (pipes : ℕ → Pipe) (index n : ℕ) (buff : ℕ → ℕ)
    → (pipes index).initialized ≢ 0
    → (pipes index).pos_write ≡ (pipes index).pos_read
    → 1 ≤ n
    → buff 0 ≢ 0
    → (pipe_write pid pipes index buff n).value ≡ 1
unfolding pipe_write
pipe_write_empty pid pipes index zero buff used same le text = ground (arith, le)
pipe_write_empty pid pipes index (suc zero) buff used same le text =
    ground (arith, used, same, text)
pipe_write_empty pid pipes index (suc (suc n)) buff used same le text =
    ground (arith, used, same, text)

byte_at-first : (pipe : Pipe) → byte_at pipe 0 ≡ pipe.data_bytes (pipe.pos_read % pipe_buffer_size)
byte_at-first pipe = ap (λ p. pipe.data_bytes (p % pipe_buffer_size)) (omega arith)

byte_at-next :
    (pipe : Pipe) (j : ℕ)
    → byte_at (record pipe { pos_read = pipe.pos_read + 1 }) j ≡ byte_at pipe (j + 1)
byte_at-next pipe j = ap (λ p. pipe.data_bytes (p % pipe_buffer_size)) (omega arith)

-- The state of the loop, and its state `left` rounds on.
abbrev moved_from : ℕ → Pipe → (ℕ → ℕ) → ℕ × (Pipe × (ℕ → ℕ))
moved_from i pipe b = (i, (pipe, b))

abbrev moved : ℕ → ℕ → Pipe → (ℕ → ℕ) → ℕ × (Pipe × (ℕ → ℕ))
moved i left pipe b = (i + left, (record pipe { pos_read = pipe.pos_read + left }, b))

stay : (i : ℕ) (pipe : Pipe) (b : ℕ → ℕ) → moved i 0 pipe b ≡ moved_from i pipe b
stay i pipe b = ground arith

moved-next :
    (i left : ℕ) (pipe : Pipe) (b : ℕ → ℕ)
    → moved (i + 1) left (record pipe { pos_read = pipe.pos_read + 1 }) b
      ≡ moved i (suc left) pipe b
moved-next i left pipe b = ground arith

-- One round stores the first byte, and the others follow it.
copied :
    (pipe : Pipe) (buff : ℕ → ℕ) (c i left j : ℕ)
    → c ≡ byte_at pipe 0
    → (if leb (i + 1) j && ltb j (i + 1 + left)
        then byte_at (record pipe { pos_read = pipe.pos_read + 1 }) (j - (i + 1))
        else update buff i c j)
      ≡ (if leb i j && ltb j (i + suc left) then byte_at pipe (j - i) else buff j)
unfolding update
copied pipe buff c i left j first_byte = elim (Bool-cases (j == i)) [
  | inl here ↦
      (let at_i : byte_at pipe (j - i) ≡ byte_at pipe 0 =
          ap (byte_at pipe) (ground (arith, here)) in
        ground (arith, here, first_byte, at_i))
  | inr there ↦ elim (Bool-cases (ltb i j)) [
    | inl behind ↦
        (let at_j : byte_at (record pipe { pos_read = pipe.pos_read + 1 }) (j - (i + 1))
              ≡ byte_at pipe (j - i) =
            byte_at-next pipe (j - (i + 1)) ∙ ap (byte_at pipe) (ground (arith, behind)) in
          ground (arith, there, behind, at_j))
    | inr before ↦ ground (arith, there, before)
  ]
]

-- The memory behind `i`, and the copy, after the loop of `pipeRead`.
read_chars-rounds :
    (rounds i left : ℕ) (pipe : Pipe) (buff : ℕ → ℕ)
    → left ≤ rounds
    → pipe.pos_read + left + 1 ≡ pipe.pos_write
    → ((j : ℕ) → j < left → byte_at pipe j ≢ 255)
    → (b : ℕ → ℕ) × read_chars rounds i pipe buff ≡ moved i left pipe b
      × ((j : ℕ) → b j ≡ (if leb i j && ltb j (i + left) then byte_at pipe (j - i) else buff j))
unfolding read_chars
read_chars-rounds zero i zero pipe buff le full none_end =
    (buff, sym (stay i pipe buff), λ j. ground arith)
read_chars-rounds zero i (suc left) pipe buff le full none_end = absurd (omega (arith, le))
read_chars-rounds (suc rounds) i zero pipe buff le full none_end =
    (buff, ground (arith, full, sym (stay i pipe buff)), λ j. ground arith)
read_chars-rounds (suc rounds) i (suc left) pipe buff le full none_end =
    let c = pipe.data_bytes (pipe.pos_read % pipe_buffer_size) in
    let next : Pipe = record pipe { pos_read = pipe.pos_read + 1 } in
    let (b, ran, same) =
      read_chars-rounds rounds (i + 1) left next (update buff i c) (omega (arith, le))
        (omega (arith, full))
        (λ j lt. λ e. none_end (j + 1) (omega (arith, lt)) (sym (byte_at-next pipe j) ∙ e)) in
    let go_on : c ≢ 255 = λ e. none_end 0 (omega arith) (byte_at-first pipe ∙ e) in
    (
      b,
      ground (arith, go_on, full, ran ∙ moved-next i left pipe b),
      λ j. same j ∙ copied pipe buff c i left j (sym (byte_at-first pipe)),
    )

-- The end of `pipeRead`, behind the loop.
read_end-moved :
    (left : ℕ) (pipe : Pipe) (b buff : ℕ → ℕ)
    → pipe.pos_read + left + 1 ≡ pipe.pos_write
    → ((j : ℕ) → b j ≡ (if leb 0 j && ltb j (0 + left) then byte_at pipe (j - 0) else buff j))
    → (read_end (moved 0 left pipe b)).0 ≡ left
      × ((j : ℕ)
          → (read_end (moved 0 left pipe b)).1 j
            ≡ (if leb j left then byte_at pipe j else if j == left + 1 then 0 else buff j))
unfolding update
read_end-moved left pipe b buff full same = (
  ground (arith, full),
  λ j. elim (Bool-cases (j == left)) [
    | inl here ↦
        (let at_left : byte_at pipe left ≡ byte_at pipe j =
            ap (byte_at pipe) (ground (arith, here)) in
          ground (arith, full, here, at_left))
    | inr there ↦ ground (arith, full, there, same j)
  ],
)

answer-read_end :
    (pid : ℕ) (pipes : ℕ → Pipe) (index n : ℕ) (buff : ℕ → ℕ)
    → (pipes index).initialized ≢ 0
    → (pipe_read pid pipes index buff n).value
        ≡ (read_end (read_chars (n - 1) 0 (pipes index) buff)).0
      × (pipe_read pid pipes index buff n).buff
        ≡ (read_end (read_chars (n - 1) 0 (pipes index) buff)).1
unfolding pipe_read
answer-read_end pid pipes index n buff used =
    rw (==_of_ne (pipes index).initialized 0 used) (refl, refl)

-- `pipeRead` of a pipe that holds `left + 1` bytes, none of the first `left` the sentinel, with
-- `left < n`: the caller gets all of them and a NUL behind them, and the number `left`. The NUL lies
-- at `buff[left + 1]`, so outside of the `n` bytes when the pipe holds `n`.
pub pipe_read-bytes :
    (pid : ℕ) (pipes : ℕ → Pipe) (index n left : ℕ) (buff : ℕ → ℕ)
    → (pipes index).initialized ≢ 0
    → (pipes index).pos_read + left + 1 ≡ (pipes index).pos_write
    → left < n
    → ((j : ℕ) → j < left → byte_at (pipes index) j ≢ 255)
    → (pipe_read pid pipes index buff n).value ≡ left
      × ((j : ℕ) → j ≤ left → (pipe_read pid pipes index buff n).buff j ≡ byte_at (pipes index) j)
      × (pipe_read pid pipes index buff n).buff (left + 1) ≡ 0
      × ((j : ℕ) → left + 1 < j → (pipe_read pid pipes index buff n).buff j ≡ buff j)
pipe_read-bytes pid pipes index n left buff used full lt clean =
    let pipe = pipes index in
    let (b, ran, same) =
      read_chars-rounds (n - 1) 0 left pipe buff (omega (arith, lt)) full clean in
    let (value, stored) = answer-read_end pid pipes index n buff used in
    let ended = ap read_end ran in
    let memory = stored ∙ ap (λ r. r.1) ended in
    let (count, bytes) = read_end-moved left pipe b buff full same in
    (
      value ∙ ap (λ r. r.0) ended ∙ count,
      λ j le. ap (λ f. f j) memory ∙ bytes j ∙ ground (arith, le),
      ap (λ f. f (left + 1)) memory ∙ bytes (left + 1) ∙ ground arith,
      λ j behind. ap (λ f. f j) memory ∙ bytes j ∙ ground (arith, behind),
    )
