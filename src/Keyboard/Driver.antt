-- ===== src/Keyboard/Driver.antt =====
-- The keyboard buffer of Kernel/keyboardDriver.c. A byte is a number below 256; `none` is a store
-- outside of `keys`, whose effect C leaves open.
use s_o.Base.{
  ℕ, zero, suc, ◌+◌, ◌*◌, ◌%◌, ◌&&◌, ◌||◌, Option, none, some, List, [], ◌∷◌, ltb, leb, ◌==◌,
  if◌then◌else◌, get_or, update,
}
use s_o.Scheduler.Nodes.{Sched, process_ready}
use s_o.Scheduler.Switch.{Outcome, returned, raised, stopped, kill_fground}

abbrev pub buf_size : ℕ
buf_size = 55

-- `bufT buf`, `shift` and `ctrl`
pub record Keyboard : Type 0 where
  pub keys : ℕ → ℕ
  pub count : ℕ
  pub shift : ℕ
  pub ctrl : ℕ

-- `kbd_US`, as far as a key is defined; the rest of the array is 0.
abbrev pub kbd_us : List ℕ
kbd_us =
    0 ∷ 27 ∷ 49 ∷ 50 ∷ 51 ∷ 52 ∷ 53 ∷ 54 ∷ 55 ∷ 56 ∷ 57 ∷ 48 ∷ 45 ∷ 61 ∷ 8 ∷ 9 ∷ 113 ∷ 119 ∷ 101
    ∷ 114 ∷ 116 ∷ 121 ∷ 117 ∷ 105 ∷ 111 ∷ 112 ∷ 91 ∷ 93 ∷ 10 ∷ 5 ∷ 97 ∷ 115 ∷ 100 ∷ 102 ∷ 103 ∷ 104
    ∷ 106 ∷ 107 ∷ 108 ∷ 59 ∷ 39 ∷ 96 ∷ 94 ∷ 92 ∷ 122 ∷ 120 ∷ 99 ∷ 118 ∷ 98 ∷ 110 ∷ 109 ∷ 44 ∷ 46
    ∷ 47 ∷ 94 ∷ 42 ∷ 94 ∷ 32 ∷ 94 ∷ 94 ∷ 94 ∷ 94 ∷ 94 ∷ 94 ∷ 94 ∷ 94 ∷ 94 ∷ 94 ∷ 94 ∷ 94 ∷ 94 ∷ 94
    ∷ 3 ∷ 94 ∷ 45 ∷ 1 ∷ 94 ∷ 2 ∷ 43 ∷ 94 ∷ 4 ∷ 94 ∷ 94 ∷ 94 ∷ 94 ∷ 94 ∷ 94 ∷ 94 ∷ 94 ∷ 94 ∷ []

unfoldable pub get_key : ℕ → ℕ
get_key id = if leb 128 id then 255 else get_or kbd_us id 0

-- `buf.keys[buf.count++] = c`
unfoldable pub put_key : Keyboard → ℕ → Option Keyboard
unfolding update
put_key k c =
    if ltb k.count buf_size
    then some (record k { keys = update k.keys k.count c; count = (k.count + 1) % 256 })
    else none

-- What `saveKey` ends with: a stored key or none, or the call of `killFgroundProcess`.
pub data Saved : Type 0 where
  saved : Keyboard → Saved
  interrupted : Keyboard → Saved
  overflow : Saved

abbrev pub of_put : Option Keyboard → Saved
of_put none = overflow
of_put (some k) = saved k

-- `saveKey` behind its `switch`. `'A' - 'a'` is -32, and the sum is stored as a byte.
unfoldable pub store_key : Keyboard → ℕ → Saved
store_key k c =
    if ltb 128 c
    then saved k
    else if (k.ctrl == 1) && (get_key c == 99)
    then interrupted (record k { ctrl = 0 })
    else if (k.ctrl == 1) && (get_key c == 100)
    then of_put (put_key (record k { ctrl = 0 }) 4)
    else of_put (put_key k ((get_key c + 224 * k.shift) % 256))

-- The two cases of the `switch` that store a key of their own.
abbrev pub extra_key : Keyboard → ℕ → Option Keyboard
extra_key k sign = if k.shift == 0 then some k else put_key k sign

unfoldable pub save_key : Keyboard → ℕ → Saved
save_key k c =
    if (c == 42) || (c == 54)
    then saved (record k { shift = 1 })
    else if (c == 170) || (c == 182)
    then saved (record k { shift = 0 })
    else elim (switch k c) [ none ↦ overflow | some k' ↦ store_key k' c ]
  where
    switch : Keyboard → ℕ → Option Keyboard
    switch k' c' =
        if c' == 43
        then extra_key k' 124
        else if c' == 8
        then extra_key k' 38
        else if c' == 29
        then some (record k' { ctrl = 1 })
        else if (c' == 224) || (c' == 0)
        then some (record k' { ctrl = 0 })
        else some k'

-- `clearKeyboardBuffer`
abbrev pub clear_keyboard_buffer : Keyboard → Keyboard
clear_keyboard_buffer k = record k { count = 0 }

-- The loop of `readBuf`; `fuel` is `buf.count`, and the loop ends there.
unfoldable pub copy_keys : ℕ → Keyboard → (ℕ → ℕ) → ℕ → ℕ → ℕ → ℕ × (ℕ → ℕ)
unfolding update
copy_keys zero k str p count i = (i, str)
copy_keys (suc fuel) k str p count i =
    let rest = copy_keys fuel k (update str (p + i) (k.keys i)) p count (i + 1) in
    if ltb i k.count && ltb i count then rest else (i, str)

-- `readBuf(str + p, count)`: the number of keys, the memory and the keyboard.
unfoldable pub read_buf : Keyboard → (ℕ → ℕ) → ℕ → ℕ → ℕ × ((ℕ → ℕ) × Keyboard)
unfolding copy_keys
read_buf k str p count =
    let copied = copy_keys k.count k str p count 0 in
    (copied.0, (copied.1, clear_keyboard_buffer k))

-- The handler of a key interrupt. Ctrl-C kills the foreground process, and wakes the parent of
-- the process that ran.
unfoldable pub key_interrupt : ℕ → Keyboard → Sched → ℕ → Option (Keyboard × Outcome)
unfolding save_key kill_fground process_ready
key_interrupt fuel k s c = elim (save_key k c) [
  | saved k' ↦ some (k', returned s)
  | overflow ↦ none
  | interrupted k' ↦ some (k', wake (s.parent_pid (s.proc s.current)) (kill_fground fuel s))
]
  where
    wake : ℕ → Outcome → Outcome
    wake parent (returned s') = elim (process_ready fuel s' parent) [
      | none ↦ stopped
      | some r ↦ returned (r.1)
    ]
    wake parent (raised s') = raised s'
    wake parent stopped = stopped
