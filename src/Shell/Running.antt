-- ===== src/Shell/Running.antt =====
-- What `readBuffer` of Userland/uCodeModule/shell.c makes of the words of a line.
use s_o.Base.{
  ℕ, zero, suc, ◌+◌, ◌-◌, ◌<◌, ◌≡◌, refl, sym, ap, ap₂, ◌∙◌, inl, inr, Bool, true, false, Option,
  none, some, List, [], ◌∷◌, arith, ltb, ◌==◌, Bool-cases, length, get_or,
}
use s_o.Semaphore.Table.{kept}
use s_o.Shell.Parsing.{max_words}
use s_o.Shell.Words.{words_of}
use s_o.Shell.Splitting.{cut, parse_string-words_of}
use s_o.Shell.Names.{
  Command, cat, filter, loop, name_of, phylo, test_mm, test_priority, test_processes, test_sync, wc,
  command_of-name_of, div_zero, exit, invalid_op,
}
use s_o.Shell.Commands.{
  Act, Program, Surroundings, ampersand, ask_wait, branch, cat_program, ends_in_ampersand,
  filter_program, greets, open_pipe, phylo_program, read_buffer, rows_from, run, run_words,
  test_mm_program, test_prio_program, test_processes_program, test_sync_program, wc_program,
  without_last, Run, goes_on, branch_of, command_not_found, fail,
}

rows_from-same :
    (n i : ℕ) (f g : ℕ → List ℕ)
    → ((j : ℕ) → j < i + n → f j ≡ g j)
    → rows_from n i f ≡ rows_from n i g
rows_from-same zero i f g h = refl
rows_from-same (suc n) i f g h =
    ap₂ (λ (w : List ℕ) (ws : List (List ℕ)). w ∷ ws) (h i (omega arith))
      (rows_from-same n (i + 1) f g (λ j lt. h j (omega (arith, lt))))

-- The `i`-th word of a line as it is stored, and the first `num` words but one.
abbrev pub stored : List ℕ → ℕ → List ℕ
stored input i = cut (get_or (words_of input) i [])

abbrev pub stored_args : List ℕ → List (List ℕ)
stored_args input = rows_from (length (words_of input) - 1) 1 (stored input)

first_row :
    (rows : ℕ → List ℕ) (num : ℕ) (ws : List (List ℕ))
    → num ≡ length ws
    → ((i : ℕ) → i < num → rows i ≡ cut (get_or ws i []))
    → rows num ≡ []
    → rows 0 ≡ cut (get_or ws 0 [])
first_row rows num [] count kept last = ap rows (omega (arith, count)) ∙ last
first_row rows num (w ∷ ws) count kept last = kept 0 (omega (arith, count))

-- `readBuffer` of a line with fewer than 80 words ends, with what its first word, as the command, and
-- its other words, as the arguments, make of it, each cut off behind 40 characters.
pub read_buffer-words_of :
    (e : Surroundings) (words : ℕ → List ℕ) (input : List ℕ) (read_fd write_fd fg_flag : ℕ)
    → length (words_of input) < max_words
    → read_buffer e words input read_fd write_fd fg_flag
      ≡ some (run_words e (stored input 0) (stored_args input) (read_fd, write_fd) fg_flag)
unfolding read_buffer
read_buffer-words_of e words input read_fd write_fd fg_flag few =
    let (rows, num, ran, count, kept, last) =
      parse_string-words_of (suc (length input)) input words (omega arith) few in
    let command : rows 0 ≡ stored input 0 = first_row rows num (words_of input) count kept last in
    let args : rows_from (num - 1) 1 rows ≡ stored_args input =
      rows_from-same (num - 1) 1 rows (stored input) (λ j lt. elim (Bool-cases (ltb 0 num)) [
        | inl some_word ↦ kept j (ground (arith, some_word, lt))
        | inr no_word ↦
            let e0 : j ≡ 0 = ground (arith, no_word, lt) in
            ap rows e0 ∙ command ∙ ap (stored input) (sym e0)
      ])
      ∙ ap (λ n. rows_from (n - 1) 1 (stored input)) count in
    rw (ran, read_buffer)
      (ap₂
        (λ (c : List ℕ) (as_ : List (List ℕ)). some (run_words e c as_ (read_fd, write_fd) fg_flag))
        command args)

-- The program that a command only runs.
abbrev pub program_of : Command → Option Program
program_of cat = some cat_program
program_of wc = some wc_program
program_of phylo = some phylo_program
program_of filter = some filter_program
program_of loop = some greets
program_of test_processes = some test_processes_program
program_of test_priority = some test_prio_program
program_of test_mm = some test_mm_program
program_of test_sync = some test_sync_program
program_of _ = none

-- The acts for a program whose process is made: in the background without the "&", on the pipe "&",
-- and with no wait; or as it is told.
abbrev pub started : Surroundings → Program → List (List ℕ) → ℕ × ℕ → ℕ → Bool → List Act
started e p args fd fg_flag true =
    open_pipe ampersand ∷ run p (without_last args) 0 (e.pipe_of ampersand, fd.1) ∷ []
started e p args fd fg_flag false = run p args fg_flag fd ∷ ask_wait fg_flag

branch_of-name_of :
    (e : Surroundings) (c : Command) (args : List (List ℕ)) (fg_flag : ℕ) (fd : ℕ × ℕ)
    → branch_of e (name_of c) args fg_flag fd ≡ branch e c (name_of c) args fg_flag fd
branch_of-name_of e c args fg_flag fd =
    ap
      (λ (o : Option Command). elim o as (λ _. Run) [
        | none ↦ goes_on (fail command_not_found ∷ [])
        | some d ↦ branch e d (name_of c) args fg_flag fd
      ])
      (command_of-name_of c)

abbrev pub ends_shell : Command → Bool
ends_shell div_zero = true
ends_shell invalid_op = true
ends_shell exit = true
ends_shell _ = false

branch-ends_shell :
    (e : Surroundings) (c : Command) (buf : List ℕ) (args : List (List ℕ)) (fg_flag : ℕ)
    (fd : ℕ × ℕ)
    → ((p : Program) → (e.pid_of p == 0) ≡ false)
    → ((branch e c buf args fg_flag fd).value == 0) ≡ ends_shell c
unfolding branch
branch-ends_shell e cat buf args fg_flag fd alive = alive cat_program
branch-ends_shell e wc buf args fg_flag fd alive = alive wc_program
branch-ends_shell e phylo buf args fg_flag fd alive = alive phylo_program
branch-ends_shell e filter buf args fg_flag fd alive = alive filter_program
branch-ends_shell e loop buf args fg_flag fd alive = alive greets
branch-ends_shell e test_processes buf args fg_flag fd alive = alive test_processes_program
branch-ends_shell e test_priority buf args fg_flag fd alive = alive test_prio_program
branch-ends_shell e test_mm buf args fg_flag fd alive = alive test_mm_program
branch-ends_shell e test_sync buf args fg_flag fd alive = alive test_sync_program
branch-ends_shell e _ buf args fg_flag fd alive = refl

-- Which numbers `readBuffer` returns: 0, which ends the shell, for "exit", "div-zero" and
-- "invalid-op", and no 0 for any other command, as long as no process gets the pid 0.
pub run_words-ends_shell :
    (e : Surroundings) (c : Command) (args : List (List ℕ)) (fd : ℕ × ℕ) (fg_flag : ℕ)
    → ((p : Program) → (e.pid_of p == 0) ≡ false)
    → ((run_words e (name_of c) args fd fg_flag).value == 0) ≡ ends_shell c
unfolding run_words
run_words-ends_shell e c args fd fg_flag alive =
    elim (Bool-cases (ends_in_ampersand e.stray args)) [
      | inl amp ↦
          let fd' : ℕ × ℕ = (e.pipe_of ampersand, fd.1) in
          rw (amp, run_words)
            (ap (λ (r : Run). r.value == 0) (branch_of-name_of e c (without_last args) 0 fd')
              ∙ branch-ends_shell e c (name_of c) (without_last args) 0 fd' alive)
      | inr no_amp ↦
          rw (no_amp, run_words)
            (ap (λ (r : Run). r.value == 0) (branch_of-name_of e c args fg_flag fd)
              ∙ branch-ends_shell e c (name_of c) args fg_flag fd alive)
    ]
