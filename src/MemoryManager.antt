-- ===== src/MemoryManager.antt =====
-- Kernel/MemoryManager.c without BUDDY: the first-fit allocator over two linked lists of blocks.
-- A `MemBlock *` is an address; `size` and `next` are the fields of the block at each address
-- (`prev` is never read or written). Loops run on fuel: `none` means that it ran out.
mod Header
pub mod Blocks
pub mod Walk
pub mod Rep
pub mod Link
pub mod Malloc
pub mod FirstFit
pub mod Merge
pub mod Free
pub mod Release
pub mod Order
pub mod Client
pub mod Accounts
mod Tests
pub use Header.*
use s_o.Base.{
  ℕ, zero, suc, ◌+◌, ◌-◌, ◌*◌, ◌%◌, Bool, true, false, ◌||◌, Option, none, some, ltb, leb, ◌==◌,
  if◌then◌else◌, update, add64, sub64,
}

-- `info_Mem`; its `type` is the constant "LIST" here.
pub record InfoMem : Type 0 where
  pub allocated : ℕ
  pub free : ℕ
  pub total : ℕ

pub record Manager : Type 0 where
  pub alloc_mem : Ptr
  pub free_mem : Ptr
  pub size : Ptr → ℕ
  pub next : Ptr → Ptr
  pub info : InfoMem

abbrev pub misaligned : ℕ → Bool
misaligned n = if n % word == 0 then false else true

-- The first block lies behind the manager's own fields.
abbrev pub first_block : ℕ → Ptr
first_block address = address + manager_size

-- `initalizeMemoryManager`. `m` is what memory holds before the call; `alloc_mem` is not written.
unfoldable pub initialize : ℕ → ℕ → Manager → ℕ × Manager
initialize address size m =
    if ltb size (header + word) || misaligned size || misaligned address then (1, m) else (
      0,
      record m {
        free_mem = first_block address;
        size = update m.size (first_block address) (size - header);
        next = update m.next (first_block address) null;
        info = record {
          allocated = header;
          free = sub64 (size - header) manager_size;
          total = sub64 size manager_size;
        };
      },
    )

-- `while (current != NULL && keep(current)) { previous = current; current = current->next; }`
unfoldable pub walk : ℕ → (Ptr → Bool) → (Ptr → Ptr) → Ptr → Ptr → Option (Ptr × Ptr)
walk zero keep next previous current = none
walk (suc fuel) keep next previous current =
    let rest = walk fuel keep next current (next current) in
    if current == null
    then some (previous, current)
    else (if keep current then rest else some (previous, current))

-- `size += sizeof(size_t) - (size % sizeof(size_t))`, if it is not aligned
unfoldable pub align : ℕ → ℕ
align n = if n % word == 0 then n else add64 n (word - n % word)

-- The block that a large enough block is split into.
unfoldable pub split : Manager → Ptr → ℕ → Manager
split m current n =
    if leb (add64 n min_block_size) (m.size current)
    then record m {
      size = update (update m.size new_block (m.size current - n - header)) current n;
      next = update (update m.next new_block (m.next current)) current new_block;
      info = record m.info {
        allocated = add64 m.info.allocated header;
        free = sub64 m.info.free header;
      };
    }
    else m
  where
    new_block : Ptr
    new_block = current + header + n

-- `previous->next = target`, or the list's head if there is no previous block
unfoldable pub link_free : Manager → Ptr → Ptr → Manager
link_free m previous target =
    if previous == null
    then record m { free_mem = target }
    else record m { next = update m.next previous target }

unfoldable pub link_alloc : Manager → Ptr → Ptr → Manager
link_alloc m previous target =
    if previous == null
    then record m { alloc_mem = target }
    else record m { next = update m.next previous target }

-- Adds a block at the front of the allocated list.
unfoldable pub push_alloc : Manager → Ptr → Manager
push_alloc m current = record m {
  next = update m.next current m.alloc_mem;
  alloc_mem = current;
  info = record m.info {
    allocated = add64 m.info.allocated (m.size current);
    free = sub64 m.info.free (m.size current);
  };
}

-- The block found is split, taken off the free list and put on the allocated one.
unfoldable pub take_block : Manager → Ptr → Ptr → ℕ → Manager
unfolding split link_free push_alloc
take_block m previous current n =
    let m1 = split m current n in push_alloc (link_free m1 previous (m1.next current)) current

unfoldable pub malloc : ℕ → ℕ → Manager → Option (Ptr × Manager)
unfolding walk align take_block
malloc fuel size m =
    if size == 0
    then some (null, m)
    else elim (walk fuel (λ b. ltb (m.size b) (align size)) m.next null m.free_mem) [
      | none ↦ none
      | some (previous, current) ↦
          if current == null
          then some (null, m)
          else some (current + header, take_block m previous current (align size))
    ]

-- `blockToFree->next = ...; previousFree->next = blockToFree` at the place found
unfoldable pub insert_free : Manager → Ptr → Ptr → Manager
unfolding link_free
insert_free m previous block =
    let after = if previous == null then m.free_mem else m.next previous in
    link_free (record m { next = update m.next block after }) previous block

-- A freed block counts with its header.
unfoldable pub count_free : Manager → Ptr → Manager
count_free m block = record m {
  info = record m.info {
    allocated = sub64 m.info.allocated (m.size block + header);
    free = add64 m.info.free (m.size block + header);
  };
}

-- `current` swallows the block behind it.
unfoldable pub absorb : Manager → Ptr → Manager
absorb m current = record m {
  size = update m.size current (m.size current + (header + m.size (m.next current)));
  next = update m.next current (m.next (m.next current));
}

-- The loop that merges neighbouring free blocks.
unfoldable pub merge_loop : ℕ → Manager → Ptr → Option Manager
unfolding absorb
merge_loop zero m current = none
merge_loop (suc fuel) m current =
    let merged = merge_loop fuel (absorb m current) current in
    let stepped = merge_loop fuel m (m.next current) in
    if current == null || m.next current == null
    then some m
    else (if current + header + m.size current == m.next current then merged else stepped)

-- What `free` does once the block is off the allocated list.
unfoldable pub release : ℕ → Ptr → Manager → Option Manager
unfolding walk insert_free count_free merge_loop
release fuel block m = elim (walk fuel (λ b. ltb b block) m.next null m.free_mem) [
  | none ↦ none
  | some (previous, _) ↦
      let freed = count_free (insert_free m previous block) block in
      merge_loop fuel freed freed.free_mem
]

-- `free` of the block whose header lies at `block`.
unfoldable pub free_block : ℕ → Ptr → Manager → Option Manager
unfolding walk link_alloc release
free_block fuel block m =
    elim (walk fuel (λ b. if b == block then false else true) m.next null m.alloc_mem) [
      | none ↦ none
      | some (previous, current) ↦
          if current == null
          then some m
          else release fuel block (link_alloc m previous (m.next current))
    ]

unfoldable pub free : ℕ → Ptr → Manager → Option Manager
unfolding free_block
free fuel ptr m = if ptr == null then some m else free_block fuel (sub64 ptr header) m

-- `getInfoMem`
unfoldable pub get_info_mem : Manager → InfoMem
get_info_mem m = m.info
