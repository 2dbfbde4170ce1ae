-- ===== src/Shell/Pipes.antt =====
-- `pipeCmd` and the loop of `shell` of Userland/uCodeModule/shell.c.
use s_o.Base.{
  ℕ, ◌+◌, ◌<◌, ◌≡◌, refl, ◌≢◌, Bool, true, false, not, Option, none, some, List, [], ◌∷◌, ◌++◌,
  ◌==◌, if◌then◌else◌, ==_of_ne, length, All,
}
use s_o.Shell.Parsing.{max_words}
use s_o.Shell.Words.{words_of}
use s_o.Shell.Running.{read_buffer-words_of, stored, stored_args}
use s_o.Shell.Commands.{
  Act, Run, Surroundings, call_kill, close_pipe, give_back, give_way, minus_one, open_pipe,
  read_buffer, with_acts, get_room, run_words,
}

-- The texts in front of the first `|` and behind it.
abbrev pub split_at_bar : List ℕ → Option (List ℕ × List ℕ)
split_at_bar [] = none
split_at_bar (c ∷ cs) =
    if c == 124
    then some ([], cs)
    else elim (split_at_bar cs) [ none ↦ none | some (left, right) ↦ some (c ∷ left, right) ]

-- "pipes"
abbrev pub pipes_name : List ℕ
pipes_name = b'p' ∷ b'i' ∷ b'p' ∷ b'e' ∷ b's' ∷ []

-- What `malloc` gives for the two texts: whether it is no NULL.
pub record Room : Type 0 where
  pub for_left : Bool
  pub for_right : Bool

abbrev pub gave_up : List Act → Run
gave_up acts = record { value = minus_one; acts = acts }

-- `pipeCmd` once both texts are copied, and the left one has been run.
abbrev pub after_left : ℕ → Run → Option Run → Option Run
after_left fd left none = none
after_left fd left (some right) = some (
    if right.value == minus_one
    then record {
      value = 3;
      acts =
          left.acts ++ give_way ∷ right.acts ++ give_back ∷ give_back ∷ call_kill left.value ∷ [];
    }
    else record {
      value = 1;
      acts = left.acts ++ give_way ∷ right.acts ++ give_back ∷ give_back ∷ close_pipe fd ∷ [];
    })

-- The two calls of `readBuffer`.
abbrev pub both : Surroundings → (ℕ → List ℕ) → List ℕ → List ℕ → ℕ → Option Run
both e words left right fd = elim (read_buffer e words left 0 fd 0) [
  | none ↦ none
  | some first ↦
      if first.value == minus_one
      then some (record { value = 2; acts = first.acts ++ give_back ∷ give_back ∷ [] })
      else after_left fd first (read_buffer e words right fd 1 1)
]

abbrev pub behind_acts : List Act → Option Run → Option Run
behind_acts acts none = none
behind_acts acts (some r) = some (with_acts acts r)

-- `pipeCmd`, with `malloc` of the two texts.
unfoldable pub pipe_cmd : Surroundings → Room → (ℕ → List ℕ) → List ℕ → Option Run
pipe_cmd e room words buf = elim (split_at_bar buf) [
  | none ↦ some (gave_up [])
  | some (left, right) ↦
      let size_left = length left + 1 in
      let size_right = length right + 1 in
      if not room.for_left
      then some (gave_up (get_room size_left ∷ []))
      else if not room.for_right
      then some (gave_up (get_room size_left ∷ get_room size_right ∷ give_back ∷ []))
      else behind_acts (get_room size_left ∷ get_room size_right ∷ open_pipe pipes_name ∷ [])
          (both e words left right (e.pipe_of pipes_name))
]

-- One round of the loop of `shell`, for the line that was read: `out`, and the acts.
unfoldable pub shell_round : Surroundings → Room → (ℕ → List ℕ) → List ℕ → Option Run
unfolding pipe_cmd
shell_round e room words line = elim (pipe_cmd e room words line) [
  | none ↦ none
  | some r ↦
      if r.value == minus_one then behind_acts r.acts (read_buffer e words line 0 1 1) else some r
]

split_at_bar-append :
    (left right : List ℕ)
    → All (λ c. c ≢ 124) left
    → split_at_bar (left ++ 124 ∷ right) ≡ some (left, right)
split_at_bar-append [] right plain = refl
split_at_bar-append (c ∷ cs) right plain =
    rw (==_of_ne c 124 plain.0, split_at_bar-append cs right plain.1) refl

split_at_bar-none : (line : List ℕ) → All (λ c. c ≢ 124) line → split_at_bar line ≡ none
split_at_bar-none [] plain = refl
split_at_bar-none (c ∷ cs) plain = rw (==_of_ne c 124 plain.0, split_at_bar-none cs plain.1) refl

-- What `readBuffer` makes of a text.
abbrev pub run_text : Surroundings → List ℕ → ℕ × ℕ → ℕ → Run
run_text e text fd fg_flag = run_words e (stored text 0) (stored_args text) fd fg_flag

-- A line without a `|`, of fewer than 80 words, is one command, in the foreground, from the keyboard to
-- the screen.
pub shell_round-command :
    (e : Surroundings) (room : Room) (words : ℕ → List ℕ) (line : List ℕ)
    → All (λ c. c ≢ 124) line
    → length (words_of line) < max_words
    → shell_round e room words line ≡ some (run_text e line (0, 1) 1)
unfolding shell_round pipe_cmd
shell_round-command e room words line plain few =
    rw
      (
        split_at_bar-none line plain,
        shell_round,
        pipe_cmd,
        read_buffer-words_of e words line 0 1 1 few,
      )
      refl

-- A line with a `|`, where both texts have fewer than 80 words and find room, and neither command
-- returns -1: `readBuffer` gets the first text without the foreground flag and with the number that
-- `pipe_open` returns as the output, then the shell yields, then `readBuffer` gets what follows the
-- first `|` with the flag and with that number as the input; the room is given back and the pipe
-- closed.
pub shell_round-pipe :
    (e : Surroundings) (words : ℕ → List ℕ) (left right : List ℕ)
    → All (λ c. c ≢ 124) left
    → length (words_of left) < max_words
    → length (words_of right) < max_words
    → ((run_text e left (0, e.pipe_of pipes_name) 0).value == minus_one) ≡ false
    → ((run_text e right (e.pipe_of pipes_name, 1) 1).value == minus_one) ≡ false
    → shell_round e (record { for_left = true; for_right = true }) words (left ++ 124 ∷ right)
      ≡ some (record {
        value = 1;
        acts =
            get_room (length left + 1)
              ∷ get_room (length right + 1)
              ∷ open_pipe pipes_name
              ∷ (run_text e left (0, e.pipe_of pipes_name) 0).acts
            ++ give_way ∷ (run_text e right (e.pipe_of pipes_name, 1) 1).acts
            ++ give_back ∷ give_back ∷ close_pipe (e.pipe_of pipes_name) ∷ [];
      })
unfolding shell_round pipe_cmd
shell_round-pipe e words left right plain few_left few_right first second =
    rw
      (
        split_at_bar-append left right plain,
        shell_round,
        pipe_cmd,
        read_buffer-words_of e words left 0 (e.pipe_of pipes_name) 0 few_left,
        first,
        read_buffer-words_of e words right (e.pipe_of pipes_name) 1 1 few_right,
        second,
      )
      refl
