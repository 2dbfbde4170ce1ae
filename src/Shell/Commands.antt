-- ===== src/Shell/Commands.antt =====
-- `readBuffer` of Userland/uCodeModule/shell.c: what a line makes the shell do.
-- What is asked of the kernel and of the other programs is a list of acts, in their order; what comes
-- back is in the surroundings. An `int` below 0 is its 32-bit pattern.
use s_o.Base.{
  ℕ, zero, suc, ◌+◌, ◌-◌, ◌^◌, Bool, Option, none, some, List, [], ◌∷◌, ◌++◌, ltb, ◌==◌,
  if◌then◌else◌, length, get_or,
}
use s_o.Semaphore.Table.{same_name}
use s_o.UserLib.{atoul}
use s_o.Shell.Names.{
  Command, block, cat, clear, command_of, date, date_time, dec_font, div_zero, empty, exit, filter,
  help, inc_font, inforeg, invalid_op, kill, loop, mem, nice, phylo, pid, printmem, ps, test_mm,
  test_priority, test_processes, test_sync, time, tron, wc,
}
use s_o.Shell.Parsing.{parse_string}

pub data Program : Type 0 where
  main_tron : Program
  print_inforeg : Program
  greets : Program
  cat_program : Program
  wc_program : Program
  phylo_program : Program
  filter_program : Program
  test_processes_program : Program
  test_prio_program : Program
  test_mm_program : Program
  test_sync_program : Program

-- The messages of `printErrorMessage` and `printError`.
pub data Failure : Type 0 where
  creating_process : Failure
  printing_registers : Failure
  increase_font_fail : Failure
  decrease_font_fail : Failure
  command_not_found : Failure

-- `null_read` is `atoul` of NULL, `too_large` is `atoul` of a number that its `int` does not hold.
pub data Act : Type 0 where
  run : Program → List (List ℕ) → ℕ → ℕ × ℕ → Act
  wait_pid : Act
  open_pipe : List ℕ → Act
  close_pipe : ℕ → Act
  get_room : ℕ → Act
  give_back : Act
  give_way : Act
  call_kill : ℕ → Act
  call_nice : ℕ → ℕ → Act
  call_block : ℕ → Act
  call_ps : Act
  memory_status : Act
  show_pid : Act
  show_help : Act
  show_date : Act
  show_time : Act
  show_date_time : Act
  print_mem : List ℕ → Act
  clear_screen : Act
  font_up : Act
  font_down : Act
  fail : Failure → Act
  divide_zero : Act
  invalid_opcode : Act
  null_read : Act
  too_large : Act

-- What `exec` and `pipeOpen` return, the size of the font, and whether `argv[-1]`, which is no
-- variable of the program, leads to the text "&".
pub record Surroundings : Type 0 where
  pub pid_of : Program → ℕ
  pub pipe_of : List ℕ → ℕ
  pub font_size : ℕ
  pub stray : Bool

-- What a line comes to: the number returned, and the acts.
pub record Run : Type 0 where
  pub value : ℕ
  pub acts : List Act

abbrev pub minus_one : ℕ
minus_one = 2 ^ 32 - 1

abbrev pub ampersand : List ℕ
ampersand = b'&' ∷ []

-- `!strcmp(argv[numArgs - 1], AMPERSAND)`
abbrev pub ends_in_ampersand : Bool → List (List ℕ) → Bool
ends_in_ampersand stray [] = stray
ends_in_ampersand stray (a ∷ []) = same_name a ampersand
ends_in_ampersand stray (a ∷ b ∷ args) = ends_in_ampersand stray (b ∷ args)

-- `argv[numArgs - 1] = NULL;`
abbrev pub without_last : List (List ℕ) → List (List ℕ)
without_last [] = []
without_last (a ∷ []) = []
without_last (a ∷ b ∷ args) = a ∷ without_last (b ∷ args)

-- `argv[i]`, where `none` is the NULL behind the arguments.
abbrev pub argument : List (List ℕ) → ℕ → Option (List ℕ)
argument [] i = none
argument (a ∷ args) zero = some a
argument (a ∷ args) (suc i) = argument args i

-- The text `n` bytes further on.
abbrev pub behind : ℕ → List ℕ → List ℕ
behind zero cs = cs
behind (suc n) [] = []
behind (suc n) (c ∷ cs) = behind n cs

-- `askWait`
abbrev pub ask_wait : ℕ → List Act
ask_wait fg_flag = if fg_flag == 1 then wait_pid ∷ [] else []

-- `atoul` of a text; `none` for NULL.
abbrev pub number : Option (List ℕ) → (ℕ → List Act) → List Act
number none use_ = null_read ∷ []
number (some text) use_ = elim (atoul (suc (length text)) (λ i. get_or text i 0) 0) [
  | none ↦ too_large ∷ []
  | some n ↦ use_ n
]

abbrev pub repeat : ℕ → Act → List Act
repeat zero act = []
repeat (suc n) act = act ∷ repeat n act

-- A command that runs a program and returns what `exec` returns.
abbrev pub run_program : Surroundings → Program → List (List ℕ) → ℕ → ℕ × ℕ → Run
run_program e program args fg_flag fd = record {
  value = e.pid_of program;
  acts = run program args fg_flag fd ∷ ask_wait fg_flag;
}

abbrev pub goes_on : List Act → Run
goes_on acts = record { value = 1; acts = acts }

abbrev pub ends : List Act → Run
ends acts = record { value = 0; acts = acts }

-- The branches. The loop of "tron" makes the font smaller until that fails.
unfoldable pub branch : Surroundings → Command → List ℕ → List (List ℕ) → ℕ → ℕ × ℕ → Run
branch e empty buf args fg_flag fd = goes_on []
branch e printmem buf args fg_flag fd = goes_on (print_mem (behind 8 buf) ∷ [])
branch e help buf args fg_flag fd = goes_on (show_help ∷ [])
branch e clear buf args fg_flag fd = goes_on (clear_screen ∷ [])
branch e tron buf args fg_flag fd = goes_on (
    clear_screen ∷ repeat e.font_size font_down
    ++ run main_tron args fg_flag fd
      ∷ (if e.pid_of main_tron == 0 then [] else fail creating_process ∷ [])
    ++ ask_wait fg_flag
    ++ repeat (e.font_size - 1) font_up
    ++ clear_screen ∷ [])
branch e date buf args fg_flag fd = goes_on (show_date ∷ [])
branch e time buf args fg_flag fd = goes_on (show_time ∷ [])
branch e date_time buf args fg_flag fd = goes_on (show_date_time ∷ [])
branch e inc_font buf args fg_flag fd =
    goes_on (font_up ∷ (if ltb e.font_size 3 then clear_screen else fail increase_font_fail) ∷ [])
branch e dec_font buf args fg_flag fd =
    goes_on (font_down ∷ (if ltb 1 e.font_size then clear_screen else fail decrease_font_fail) ∷ [])
branch e inforeg buf args fg_flag fd = goes_on (
    run print_inforeg args fg_flag fd
      ∷ (if e.pid_of print_inforeg == minus_one then fail printing_registers ∷ [] else [])
    ++ ask_wait fg_flag)
branch e div_zero buf args fg_flag fd = ends (divide_zero ∷ [])
branch e invalid_op buf args fg_flag fd = ends (invalid_opcode ∷ [])
branch e exit buf args fg_flag fd = ends (clear_screen ∷ [])
branch e ps buf args fg_flag fd = goes_on (call_ps ∷ [])
branch e kill buf args fg_flag fd = goes_on (number (argument args 0) (λ pid. call_kill pid ∷ []))
branch e nice buf args fg_flag fd = goes_on (
    number (argument args 1)
      (λ priority. number (argument args 0) (λ pid. call_nice priority pid ∷ [])))
branch e block buf args fg_flag fd = goes_on (number (argument args 0) (λ pid. call_block pid ∷ []))
branch e loop buf args fg_flag fd =
    let pid = e.pid_of greets in
    record {
      value = pid;
      acts =
          run greets args fg_flag fd ∷ (if pid == minus_one then fail creating_process ∷ [] else [])
          ++ ask_wait fg_flag;
    }
branch e cat buf args fg_flag fd = run_program e cat_program args fg_flag fd
branch e wc buf args fg_flag fd = run_program e wc_program args fg_flag fd
branch e phylo buf args fg_flag fd = run_program e phylo_program args fg_flag fd
branch e filter buf args fg_flag fd = run_program e filter_program args fg_flag fd
branch e test_processes buf args fg_flag fd = run_program e test_processes_program args fg_flag fd
branch e test_priority buf args fg_flag fd = run_program e test_prio_program args fg_flag fd
branch e mem buf args fg_flag fd = goes_on (memory_status ∷ [])
branch e pid buf args fg_flag fd = goes_on (show_pid ∷ [])
branch e test_mm buf args fg_flag fd = run_program e test_mm_program args fg_flag fd
branch e test_sync buf args fg_flag fd = run_program e test_sync_program args fg_flag fd

abbrev pub branch_of : Surroundings → List ℕ → List (List ℕ) → ℕ → ℕ × ℕ → Run
branch_of e buf args fg_flag fd = elim (command_of buf) [
  | none ↦ goes_on (fail command_not_found ∷ [])
  | some c ↦ branch e c buf args fg_flag fd
]

abbrev pub with_acts : List Act → Run → Run
with_acts acts r = record { value = r.value; acts = acts ++ r.acts }

-- `readBuffer` behind `parseString`.
unfoldable pub run_words : Surroundings → List ℕ → List (List ℕ) → ℕ × ℕ → ℕ → Run
run_words e buf args fd fg_flag =
    if ends_in_ampersand e.stray args
    then with_acts (open_pipe ampersand ∷ [])
        (branch_of e buf (without_last args) 0 (e.pipe_of ampersand, fd.1))
    else branch_of e buf args fg_flag fd

-- The rows from `i` on.
abbrev pub rows_from : ℕ → ℕ → (ℕ → List ℕ) → List (List ℕ)
rows_from zero i words = []
rows_from (suc n) i words = words i ∷ rows_from n (i + 1) words

-- `words` is what the array holds before.
unfoldable pub read_buffer : Surroundings → (ℕ → List ℕ) → List ℕ → ℕ → ℕ → ℕ → Option Run
read_buffer e words input read_fd write_fd fg_flag =
    elim (parse_string (suc (length input)) input words) [
      | none ↦ none
      | some (rows, num) ↦
          some (run_words e (rows 0) (rows_from (num - 1) 1 rows) (read_fd, write_fd) fg_flag)
    ]
