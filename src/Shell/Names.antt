-- ===== src/Shell/Names.antt =====
-- The commands of Userland/uCodeModule/shell.c, by their names, in the order in which `readBuffer`
-- compares them.
use s_o.Base.{ℕ, ◌≡◌, refl, Option, none, some, List, [], ◌∷◌, if◌then◌else◌}
use s_o.Semaphore.Table.{same_name}

-- The branches of `readBuffer`; `empty` is that of a line without a word.
pub data Command : Type 0 where
  empty : Command
  printmem : Command
  help : Command
  clear : Command
  tron : Command
  date : Command
  time : Command
  date_time : Command
  inc_font : Command
  dec_font : Command
  inforeg : Command
  div_zero : Command
  invalid_op : Command
  exit : Command
  ps : Command
  kill : Command
  nice : Command
  block : Command
  loop : Command
  cat : Command
  wc : Command
  phylo : Command
  filter : Command
  test_processes : Command
  test_priority : Command
  mem : Command
  pid : Command
  test_mm : Command
  test_sync : Command

abbrev pub name_of : Command → List ℕ
name_of empty = []
name_of printmem = b'p' ∷ b'r' ∷ b'i' ∷ b'n' ∷ b't' ∷ b'm' ∷ b'e' ∷ b'm' ∷ []
name_of help = b'h' ∷ b'e' ∷ b'l' ∷ b'p' ∷ []
name_of clear = b'c' ∷ b'l' ∷ b'e' ∷ b'a' ∷ b'r' ∷ []
name_of tron = b't' ∷ b'r' ∷ b'o' ∷ b'n' ∷ []
name_of date = b'd' ∷ b'a' ∷ b't' ∷ b'e' ∷ []
name_of time = b't' ∷ b'i' ∷ b'm' ∷ b'e' ∷ []
name_of date_time = b'd' ∷ b'a' ∷ b't' ∷ b'e' ∷ b't' ∷ b'i' ∷ b'm' ∷ b'e' ∷ []
name_of inc_font = b'i' ∷ b'n' ∷ b'c' ∷ b'-' ∷ b'f' ∷ b'o' ∷ b'n' ∷ b't' ∷ []
name_of dec_font = b'd' ∷ b'e' ∷ b'c' ∷ b'-' ∷ b'f' ∷ b'o' ∷ b'n' ∷ b't' ∷ []
name_of inforeg = b'i' ∷ b'n' ∷ b'f' ∷ b'o' ∷ b'r' ∷ b'e' ∷ b'g' ∷ []
name_of div_zero = b'd' ∷ b'i' ∷ b'v' ∷ b'-' ∷ b'z' ∷ b'e' ∷ b'r' ∷ b'o' ∷ []
name_of invalid_op = b'i' ∷ b'n' ∷ b'v' ∷ b'a' ∷ b'l' ∷ b'i' ∷ b'd' ∷ b'-' ∷ b'o' ∷ b'p' ∷ []
name_of exit = b'e' ∷ b'x' ∷ b'i' ∷ b't' ∷ []
name_of ps = b'p' ∷ b's' ∷ []
name_of kill = b'k' ∷ b'i' ∷ b'l' ∷ b'l' ∷ []
name_of nice = b'n' ∷ b'i' ∷ b'c' ∷ b'e' ∷ []
name_of block = b'b' ∷ b'l' ∷ b'o' ∷ b'c' ∷ b'k' ∷ []
name_of loop = b'l' ∷ b'o' ∷ b'o' ∷ b'p' ∷ []
name_of cat = b'c' ∷ b'a' ∷ b't' ∷ []
name_of wc = b'w' ∷ b'c' ∷ []
name_of phylo = b'p' ∷ b'h' ∷ b'y' ∷ b'l' ∷ b'o' ∷ []
name_of filter = b'f' ∷ b'i' ∷ b'l' ∷ b't' ∷ b'e' ∷ b'r' ∷ []
name_of test_processes =
    b't' ∷ b'e' ∷ b's' ∷ b't' ∷ b'-' ∷ b'p' ∷ b'r' ∷ b'o' ∷ b'c' ∷ b'e' ∷ b's' ∷ b's' ∷ b'e' ∷ b's'
    ∷ []
name_of test_priority =
    b't' ∷ b'e' ∷ b's' ∷ b't' ∷ b'-' ∷ b'p' ∷ b'r' ∷ b'i' ∷ b'o' ∷ b'r' ∷ b'i' ∷ b't' ∷ b'y' ∷ []
name_of mem = b'm' ∷ b'e' ∷ b'm' ∷ []
name_of pid = b'p' ∷ b'i' ∷ b'd' ∷ []
name_of test_mm = b't' ∷ b'e' ∷ b's' ∷ b't' ∷ b'-' ∷ b'm' ∷ b'm' ∷ []
name_of test_sync = b't' ∷ b'e' ∷ b's' ∷ b't' ∷ b'-' ∷ b's' ∷ b'y' ∷ b'n' ∷ b'c' ∷ []

abbrev pub commands : List Command
commands =
    empty ∷ printmem ∷ help ∷ clear ∷ tron ∷ date ∷ time ∷ date_time ∷ inc_font ∷ dec_font ∷ inforeg
    ∷ div_zero ∷ invalid_op ∷ exit ∷ ps ∷ kill ∷ nice ∷ block ∷ loop ∷ cat ∷ wc ∷ phylo ∷ filter
    ∷ test_processes ∷ test_priority ∷ mem ∷ pid ∷ test_mm ∷ test_sync ∷ []

-- The chain of `if (!strcmp(buf, ...)) ... else if ...`
unfoldable pub first_of : List Command → List ℕ → Option Command
unfolding same_name
first_of [] buf = none
first_of (c ∷ cs) buf =
    let further = first_of cs buf in if same_name buf (name_of c) then some c else further

abbrev pub command_of : List ℕ → Option Command
command_of buf = first_of commands buf

-- No command stands behind another of its name: each name reaches its own branch.
pub command_of-name_of : (c : Command) → command_of (name_of c) ≡ some c
unfolding first_of same_name
command_of-name_of empty = refl
command_of-name_of printmem = refl
command_of-name_of help = refl
command_of-name_of clear = refl
command_of-name_of tron = refl
command_of-name_of date = refl
command_of-name_of time = refl
command_of-name_of date_time = refl
command_of-name_of inc_font = refl
command_of-name_of dec_font = refl
command_of-name_of inforeg = refl
command_of-name_of div_zero = refl
command_of-name_of invalid_op = refl
command_of-name_of exit = refl
command_of-name_of ps = refl
command_of-name_of kill = refl
command_of-name_of nice = refl
command_of-name_of block = refl
command_of-name_of loop = refl
command_of-name_of cat = refl
command_of-name_of wc = refl
command_of-name_of phylo = refl
command_of-name_of filter = refl
command_of-name_of test_processes = refl
command_of-name_of test_priority = refl
command_of-name_of mem = refl
command_of-name_of pid = refl
command_of-name_of test_mm = refl
command_of-name_of test_sync = refl
