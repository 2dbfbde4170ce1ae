-- ===== src/Scheduler/Creation.antt =====
-- Kernel/process.c and `addProcess` of Kernel/scheduler.c on the heap: what a process is made of, and
-- what `freeProcess` gives back. An argument is the list of its bytes before the NUL; what `strcpy`,
-- `memcpy` and `createStack` write into the new blocks is left out.
use s_o.Base.{
  ℕ, ◌+◌, ◌*◌, Bool, not, Option, none, some, List, [], ◌∷◌, ◌++◌, ◌==◌, if◌then◌else◌, length,
  update, add64,
}
use s_o.MemoryManager.{Manager, Ptr, free, malloc, null}
use s_o.Scheduler.Nodes.{Sched, add_process}
use s_o.Scheduler.Processes.{create_process, stack_size}

-- `count_args`: the entries before the NULL.
abbrev pub count_args : List (List ℕ) → ℕ
count_args argv = length argv

-- `for(...) free(toReturn[j]);`
unfoldable pub free_each : ℕ → List Ptr → Manager → Option Manager
free_each fuel [] m = some m
free_each fuel (p ∷ ps) m = elim (free fuel p m) [ none ↦ none | some m' ↦ free_each fuel ps m' ]

-- How `copy_args` ends: it returns NULL; it returns the array with the copies; or it has given all
-- back and calls `strcpy` with NULL.
pub data Copied : Type 0 where
  no_array : Manager → Copied
  copied : Ptr → List Ptr → Manager → Copied
  null_copy : Manager → Copied

-- What is given back when there is no room for a copy.
unfoldable pub take_back : ℕ → Ptr → List Ptr → Manager → Option Copied
unfolding free_each
take_back fuel array made m = elim (free_each fuel made m) [
  | none ↦ none
  | some m1 ↦ elim (free fuel array m1) [ none ↦ none | some m2 ↦ some (null_copy m2) ]
]

-- The loop over the arguments that are left, behind the copies made.
unfoldable pub copy_loop : ℕ → List (List ℕ) → Ptr → List Ptr → Manager → Option Copied
unfolding take_back
copy_loop fuel [] array made m = some (copied array made m)
copy_loop fuel (arg ∷ args) array made m = elim (malloc fuel (length arg + 1) m) [
  | none ↦ none
  | some (ptr, m') ↦
      let further = copy_loop fuel args array (made ++ ptr ∷ []) m' in
      if ptr == null then take_back fuel array made m' else further
]

unfoldable pub copy_args : ℕ → List (List ℕ) → Manager → Option Copied
unfolding copy_loop
copy_args fuel argv m = elim (malloc fuel ((count_args argv + 1) * 8) m) [
  | none ↦ none
  | some (array, m') ↦
      let further = copy_loop fuel argv array [] m' in
      if array == null then some (no_array m') else further
]

-- `sizeof(process)` and `sizeof(node)`
abbrev pub process_size : ℕ
process_size = 96

abbrev pub node_size : ℕ
node_size = 24

-- The blocks of a process: its record, its stack, and its arguments.
pub record Made : Type 0 where
  pub p : Ptr
  pub stack : Ptr
  pub argv : Ptr
  pub args : List Ptr

-- How `createProcess` ends: it returns a process, which has no arguments when there is no room for
-- their array; it returns NULL; or `copy_args` does not return.
pub data Created : Type 0 where
  made : Made → Manager → Created
  no_memory : Manager → Created
  broken : Manager → Created

abbrev pub of_copied : Ptr → Ptr → Option Copied → Option Created
of_copied p stack none = none
of_copied p stack (some (no_array m)) =
    some (made (record { p = p; stack = stack; argv = null; args = [] }) m)
of_copied p stack (some (copied array args m)) =
    some (made (record { p = p; stack = stack; argv = array; args = args }) m)
of_copied p stack (some (null_copy m)) = some (broken m)

abbrev pub without_stack : Option Manager → Option Created
without_stack none = none
without_stack (some m) = some (no_memory m)

-- What `createProcess` does once it has the block `p`.
unfoldable pub create_rest : ℕ → List (List ℕ) → Ptr → Manager → Option Created
unfolding copy_args
create_rest fuel argv p m = elim (malloc fuel stack_size m) [
  | none ↦ none
  | some (stack, m') ↦
      if stack == null
      then without_stack (free fuel p m')
      else of_copied p stack (copy_args fuel argv m')
]

unfoldable pub create_blocks : ℕ → List (List ℕ) → Manager → Option Created
unfolding create_rest
create_blocks fuel argv m = elim (malloc fuel process_size m) [
  | none ↦ none
  | some (p, m') ↦ if p == null then some (no_memory m') else create_rest fuel argv p m'
]

-- How the loop of `freeProcess` ends: at the NULL, or it goes on behind it.
pub data Freed : Type 0 where
  at_null : Manager → Freed
  past_null : Manager → Freed

-- `for(int i=0; p->argv[i]!=NULL; i++) free(p->argv[i++]);`
unfoldable pub free_loop : ℕ → List Ptr → Manager → Option Freed
free_loop fuel [] m = some (at_null m)
free_loop fuel (a ∷ []) m = elim (free fuel a m) [ none ↦ none | some m' ↦ some (past_null m') ]
free_loop fuel (a ∷ b ∷ rest_args) m = elim (free fuel a m) [
  | none ↦ none
  | some m' ↦ free_loop fuel rest_args m'
]

unfoldable pub after_loop : ℕ → Made → Option Freed → Option Freed
after_loop fuel q none = none
after_loop fuel q (some (past_null m)) = some (past_null m)
after_loop fuel q (some (at_null m)) = elim (free fuel q.argv m) [
  | none ↦ none
  | some m1 ↦ elim (free fuel q.p m1) [ none ↦ none | some m2 ↦ some (at_null m2) ]
]

-- `freeProcess` of a process whose `argv` is an array, not NULL; the decrement of `current_pid` is in `unlink`.
unfoldable pub free_process : ℕ → Made → Manager → Option Freed
unfolding free_loop after_loop
free_process fuel q m = elim (free fuel q.stack m) [
  | none ↦ none
  | some m' ↦ after_loop fuel q (free_loop fuel q.args m')
]

-- The heap and the processes.
pub record Machine : Type 0 where
  pub heap : Manager
  pub sched : Sched

-- How `addProcess` ends: it returns the pid, or a NULL is used as an address.
pub data Added : Type 0 where
  added : ℕ → Bool → Machine → Added
  null_used : Manager → Added

-- Where there is no room for the node, the process is counted and not linked.
abbrev pub add_nowhere : Sched → Bool → Sched
add_nowhere s fg_flag =
    let counted = record s {
      children = update s.children (s.proc s.current) (add64 (s.children (s.proc s.current)) 1);
      node_count = add64 s.node_count 1;
    } in
    if fg_flag
    then record counted {
      background = if s.background == 0 then s.foreground else s.background;
      foreground = 0;
    }
    else counted

unfoldable pub add_node : ℕ → Made → ℕ → Bool → Machine → Option Added
unfolding create_process add_process update
add_node fuel q priority fg_flag w =
    let created = create_process w.sched q.p q.stack priority in
    elim (malloc fuel node_size w.heap) [
      | none ↦ none
      | some (node, m) ↦ some (
          added (created.1.pid q.p) (not (node == null)) (record {
            heap = m;
            sched =
                if node == null
                then add_nowhere created.1 fg_flag
                else add_process created.1 node q.p fg_flag;
          }))
    ]

-- `addProcess`: without a process, `insertNode` reads the priority of NULL.
unfoldable pub add_process_blocks : ℕ → List (List ℕ) → ℕ → Bool → Machine → Option Added
unfolding create_blocks add_node
add_process_blocks fuel argv priority fg_flag w = elim (create_blocks fuel argv w.heap) [
  | none ↦ none
  | some (made q m) ↦ add_node fuel q priority fg_flag (record w { heap = m })
  | some (no_memory m) ↦ some (null_used m)
  | some (broken m) ↦ some (null_used m)
]
