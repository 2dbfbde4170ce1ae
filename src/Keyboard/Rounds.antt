-- ===== src/Keyboard/Rounds.antt =====
-- The rounds of `sys_read` for one key at each halt.
use s_o.Base.{
  ℕ, zero, suc, ◌+◌, ◌-◌, ◌*◌, ◌%◌, ◌^◌, ◌≤◌, ◌<◌, ◌≡◌, refl, ap, ◌∙◌, ◌≢◌, inl, inr, Bool, true,
  ◌&&◌, some, List, [], ◌∷◌, arith, ltb, leb, Bool-cases, get_or, update,
}
use s_o.Keyboard.Driver.{
  Keyboard, saved, get_key, save_key, kbd_us, put_key, store_key, copy_keys, read_buf,
}
use s_o.Keyboard.Reading.{Input, get_kbd_buffer, Reading, round, save_keys, read, with_end}
use s_o.Keyboard.Room.{room_lem}

-- A key that types a character and ends no line.
abbrev pub Plain : ℕ → Type 0
Plain c = 1 ≤ c × c < 128 × c ≢ 42 × c ≢ 54 × c ≢ 29 × get_key c ≢ 0 × get_key c ≢ 10

-- The codes of a key that is pressed and released, with interrupts at one halt.
abbrev pub press : ℕ → List ℕ
press c = c ∷ (c + 128) ∷ []

-- The memory from `p` on.
abbrev pub Holds : (ℕ → ℕ) → ℕ → List ℕ → Type 0
Holds b p [] = Unit
Holds b p (v ∷ vs) = (b p ≡ v) × Holds b (p + 1) vs

abbrev all_below : ℕ → List ℕ → Bool
all_below n [] = true
all_below n (x ∷ xs) = ltb x n && all_below n xs

all_below-get_or : (n : ℕ) (xs : List ℕ) (i : ℕ) → 0 < n → all_below n xs ≡ true → get_or xs i 0 < n
all_below-get_or n [] i lt h = lt
all_below-get_or n (x ∷ xs) zero lt h = ground (arith, h)
all_below-get_or n (x ∷ xs) (suc i) lt h = all_below-get_or n xs i lt (ground (arith, h))

pub get_key-byte : (c : ℕ) → get_key c < 256
unfolding get_key
get_key-byte c = elim (Bool-cases (leb 128 c)) [
  | inl e ↦ rw e (omega arith)
  | inr e ↦ rw e (all_below-get_or 256 kbd_us c (omega arith) refl)
]

abbrev pub Empty : Keyboard → Type 0
Empty k = k.count ≡ 0 × k.shift ≡ 0 × k.ctrl ≡ 0

-- The keyboard after one key.
abbrev pub with_key : Keyboard → ℕ → Keyboard
with_key k v = record k { keys = update k.keys 0 v; count = 1 }

put_key_first : (k : Keyboard) (v : ℕ) → k.count ≡ 0 → put_key k v ≡ some (with_key k v)
unfolding put_key
put_key_first k v e =
    let keys : update k.keys k.count v ≡ update k.keys 0 v = ap (λ n. update k.keys n v) e in
    ground (arith, e, keys)

store_key-Empty :
    (k : Keyboard) (c : ℕ) → Empty k → c < 128 → store_key k c ≡ saved (with_key k (get_key c))
unfolding store_key
store_key-Empty k c e lt =
    let key : (get_key c + 224 * k.shift) % 256 ≡ get_key c = ground (arith, e, get_key-byte c) in
    let put : put_key k ((get_key c + 224 * k.shift) % 256) ≡ some (with_key k (get_key c)) =
      ap (put_key k) key ∙ put_key_first k (get_key c) (e.0) in
    ground (arith, e, lt, put)

key_pressed :
    (k : Keyboard) (c : ℕ) → Empty k → Plain c → save_key k c ≡ saved (with_key k (get_key c))
unfolding save_key
key_pressed k c e plain = ground (arith, e, plain, store_key-Empty k c e (plain.1))

Plain-defined : (c : ℕ) → Plain c → c ≢ 96
unfolding get_key
Plain-defined c plain h = plain.5 (ap get_key h)

key_released : (k : Keyboard) (c : ℕ) → Plain c → save_key k (c + 128) ≡ saved k
unfolding save_key store_key
key_released k c plain = ground (arith, plain, Plain-defined c plain)

-- A halt with one plain key.
pub key_typed :
    (k : Keyboard) (c : ℕ)
    → Empty k
    → Plain c
    → save_keys k (press c) ≡ saved (with_key k (get_key c))
unfolding save_keys
key_typed k c e plain =
    ground (arith, key_pressed k c e plain, key_released (with_key k (get_key c)) c plain)

-- Enter has the code 28.
pub enter_typed : (k : Keyboard) → Empty k → save_keys k (press 28) ≡ saved (with_key k 10)
unfolding save_keys save_key store_key get_key
enter_typed k e = ground (arith, e, put_key_first k 10 (e.0))

-- A round without a key goes on.
pub round_idle :
    (count : ℕ) (s : Input) (go_on : Input → Reading)
    → Empty s.keyboard
    → suc s.i < count
    → count < 2 ^ 32
    → round count s go_on ≡ go_on s
unfolding round get_kbd_buffer
round_idle count s go_on e lt fits = ground (arith, e, lt, fits)

-- The input behind a round with a key that ends no line.
abbrev pub taken : Input → ℕ → Input
taken s v = record {
  buf = update s.buf s.i v;
  i = s.i + 1;
  keyboard = record s.keyboard { count = 0 };
}

get_kbd_buffer_key :
    (count : ℕ) (s : Input) (v : ℕ)
    → suc s.i < count
    → count < 2 ^ 32
    → get_kbd_buffer count (record s { keyboard = with_key s.keyboard v })
      ≡ (true, taken (record s { keyboard = with_key s.keyboard v }) v)
unfolding get_kbd_buffer read_buf copy_keys
get_kbd_buffer_key count s v lt fits =
    let at_i : update s.buf (s.i + 0) v ≡ update s.buf s.i v =
      ap (λ p. update s.buf p v) (omega arith) in
    ground (arith, room_lem count s lt fits, at_i)

pub round_key :
    (count : ℕ) (s : Input) (go_on : Input → Reading) (v : ℕ)
    → Empty s.keyboard
    → v ≢ 0
    → v ≢ 10
    → suc s.i < count
    → count < 2 ^ 32
    → round count (record s { keyboard = with_key s.keyboard v }) go_on
      ≡ go_on (taken (record s { keyboard = with_key s.keyboard v }) v)
unfolding round update
round_key count s go_on v e nul line lt fits =
    let last : update s.buf s.i v (s.i + 1 - 1) ≡ v = ground arith in
    ground (arith, get_kbd_buffer_key count s v lt fits, last)

-- Enter ends the call: the line end becomes a NUL.
pub round_enter :
    (count : ℕ) (s : Input) (go_on : Input → Reading)
    → Empty s.keyboard
    → suc s.i < count
    → count < 2 ^ 32
    → round count (record s { keyboard = with_key s.keyboard 10 }) go_on
      ≡ read (s.i + 1) (with_end (taken (record s { keyboard = with_key s.keyboard 10 }) 10) s.i)
unfolding round update
round_enter count s go_on e lt fits =
    let last : update s.buf s.i 10 (s.i + 1 - 1) ≡ 10 = ground arith in
    let at_i : s.i + 1 - 1 ≡ s.i = omega arith in
    let end =
      ap (λ p. with_end (taken (record s { keyboard = with_key s.keyboard 10 }) 10) p) at_i in
    ground (arith, get_kbd_buffer_key count s 10 lt fits, last, end)
