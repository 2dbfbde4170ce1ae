-- ===== src/Buddy.antt =====
-- Kernel/MemoryManager.c with BUDDY: the buddy allocator, chosen by `make buddy`.
-- A `Block *` into `buddy->blocks` is its index, and NULL is `none`; the fields of the blocks are
-- functions of the index. The sizes (1 << level) * BLOCK_SIZE fit an `int` up to level 21.
pub mod Log2
pub mod Pairs
pub mod Rows
mod Tests
use Prim.Native.Nat.{bit_and}
use s_o.Base.{
  ℕ, zero, suc, ◌+◌, ◌-◌, ◌*◌, ◌/◌, ◌%◌, ◌^◌, min, Bool, false, not, ◌||◌, Option, none, some, ltb,
  leb, ◌==◌, if◌then◌else◌, update, add64, sub64,
}

abbrev pub block_size : ℕ
block_size = 512

abbrev pub tree_height : ℕ
tree_height = 15

abbrev pub block_limit : ℕ
block_limit = 2 ^ 14

-- `sizeof(BuddyInfo)`: 32 bytes for each block, 8 for each row, and three words.
abbrev pub info_size : ℕ
info_size = block_limit * 32 + tree_height * 8 + 24

-- SIZE(level)
abbrev pub size_at : ℕ → ℕ
size_at level = 2 ^ level * block_size

-- `info_Mem`; its `type` is the constant "BUDDY" here.
pub record InfoMem : Type 0 where
  pub allocated : ℕ
  pub free : ℕ
  pub total : ℕ

pub record Buddy : Type 0 where
  pub size : ℕ → ℕ
  pub level : ℕ → ℕ
  pub next : ℕ → Option ℕ
  pub prev : ℕ → Option ℕ
  pub free_row : ℕ → Option ℕ
  pub lvl : ℕ
  pub used : ℕ
  pub start : ℕ
  pub info : InfoMem

-- `while (n >>= 1) ++ret;` A `size_t` has 64 bits, so 64 rounds are enough.
unfoldable pub log2_loop : ℕ → ℕ → ℕ → ℕ
log2_loop zero n ret = ret
log2_loop (suc rounds) n ret =
    let rest = log2_loop rounds (n / 2) (ret + 1) in if n / 2 == 0 then ret else rest

unfoldable pub log2 : ℕ → ℕ
unfolding log2_loop
log2 n = log2_loop 64 n 0

-- IS_POW2(x), by the bits of `x` and `x - 1`
unfoldable pub is_pow2 : ℕ → Bool
is_pow2 x = if x == 0 then false else bit_and x (x - 1) == 0

-- `initalizeMemoryManager`, `none` where it returns -1
unfoldable pub initialize : ℕ → ℕ → Option Buddy
initialize address size =
    let level = log2 (size / block_size) in
    if not (address % 8 == 0) || not (size % block_size == 0) || not (is_pow2 (size / block_size))
    then none
    else (if level == 0 || leb tree_height level
        then none
        else some (record {
          size = λ _. 0;
          level = update (λ _. 0) 0 level;
          next = λ _. none;
          prev = λ _. none;
          free_row = update (λ _. none) level (some 0);
          lvl = level + 1;
          used = 2 ^ level;
          start = address + info_size;
          info = record {
            allocated = 0;
            free = sub64 size info_size;
            total = sub64 size info_size;
          };
        }))

unfoldable pub get_address : Buddy → ℕ → ℕ
get_address b i = b.start + i * block_size

unfoldable pub get_buddy : Buddy → ℕ → ℕ
get_buddy b i = if i / 2 ^ b.level i % 2 == 0 then i + 2 ^ b.level i else i - 2 ^ b.level i

-- `link->field = value`, where `link` is not NULL
unfoldable pub set_at : (ℕ → Option ℕ) → Option ℕ → Option ℕ → ℕ → Option ℕ
set_at field none value = field
set_at field (some i) value = update field i value

unfoldable pub add_block : Buddy → ℕ → Buddy
unfolding set_at
add_block b i =
    let row = b.level i in
    let head = b.free_row row in
    record b {
      next = update b.next i head;
      prev = set_at (update b.prev i none) head (some i);
      free_row = update b.free_row row (some i);
      size = update b.size i 0;
      info = record b.info {
        allocated = sub64 b.info.allocated (size_at row);
        free = add64 b.info.free (size_at row);
      };
    }

unfoldable pub remove_block : Buddy → ℕ → Buddy
unfolding set_at
remove_block b i =
    let row = b.level i in
    let after = b.next i in
    let before = set_at b.prev after (b.prev i) i in
    record b {
      next = update (set_at b.next before after) i none;
      prev = update (set_at b.prev after (b.prev i)) i none;
      free_row = elim before [ none ↦ update b.free_row row after | some _ ↦ b.free_row ];
      size = update b.size i (size_at row);
      info = record b.info {
        allocated = add64 b.info.allocated (size_at row);
        free = sub64 b.info.free (size_at row);
      };
    }

-- The block at the head of row `level` in two halves; the row is looked up by the caller.
unfoldable pub halve : Buddy → ℕ → ℕ → Buddy
unfolding remove_block add_block get_buddy
halve b level i =
    let b1 = remove_block b i in
    let b2 = record b1 { level = update b1.level i (level - 1) } in
    let j = get_buddy b2 i in
    let b3 = record b2 { level = update b2.level j (level - 1) } in add_block (add_block b3 j) i

unfoldable pub split_block : Buddy → ℕ → Buddy
unfolding halve
split_block b level =
    if level == 0 then b else elim (b.free_row level) [ none ↦ b | some i ↦ halve b level i ]

-- The level that `malloc` serves a size from.
unfoldable pub level_for : ℕ → ℕ
level_for size =
    let level = log2 (size / block_size) in if ltb (size_at level) size then level + 1 else level

-- `while (min_above < buddy->lvl && buddy->freeRow[min_above] == NULL) min_above++;`
unfoldable pub row_above : ℕ → Buddy → ℕ → ℕ
row_above zero b row = row
row_above (suc rounds) b row =
    let rest = row_above rounds b (row + 1) in elim (b.free_row row) [ none ↦ rest | some _ ↦ row ]

-- `while (min_above > level) splitBlock(min_above--);`, `count` rows above the level
unfoldable pub split_down : ℕ → ℕ → Buddy → Buddy
unfolding split_block
split_down zero level b = b
split_down (suc count) level b = split_down count level (split_block b (level + suc count))

pub data Outcome : Type 0 where
  granted : ℕ → Buddy → Outcome
  exhausted : Outcome
  -- A read through NULL.
  fault : Outcome

unfoldable pub take_head : Buddy → ℕ → Outcome
unfolding remove_block get_address
take_head b level = elim (b.free_row level) [
  | none ↦ fault
  | some i ↦ granted (get_address b i) (remove_block b i)
]

-- `malloc` from a level on.
unfoldable pub malloc_at : Buddy → ℕ → Outcome
malloc_at b level =
    let above = row_above (b.lvl - (level + 1)) b (level + 1) in
    elim (b.free_row level) [
      | some _ ↦ take_head b level
      | none ↦
          if above == b.lvl then exhausted else take_head (split_down (above - level) level b) level
    ]

unfoldable pub malloc : Buddy → ℕ → Outcome
malloc b size = malloc_at b (level_for size)

-- The pair joined, and the index of the joined block.
unfoldable pub join : Buddy → ℕ → ℕ → Buddy
unfolding remove_block add_block
join b i j =
    let b1 = remove_block (remove_block b i) j in
    let low = min i j in
    add_block (record b1 { level = update b1.level low (b1.level low + 1) }) low

unfoldable pub merge_buddy : ℕ → Buddy → ℕ → Option Buddy
merge_buddy zero b i = none
merge_buddy (suc fuel) b i =
    let j = get_buddy b i in
    let merged = merge_buddy fuel (join b i j) (min i j) in
    if b.level i == b.lvl - 1 || not (b.level i == b.level j) || (b.size i == 0 || b.size j == 0)
    then some b
    else merged

unfoldable pub free : ℕ → Buddy → ℕ → Option Buddy
free fuel b ptr =
    let offset = sub64 ptr b.start in
    let i = offset / block_size in
    if not (offset % block_size == 0) || leb b.used i || b.size i == 0
    then some b
    else merge_buddy fuel (add_block b i) i
