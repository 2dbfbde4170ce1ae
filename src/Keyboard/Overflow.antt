-- ===== src/Keyboard/Overflow.antt =====
-- How many keys fit in the buffer of Kernel/keyboardDriver.c.
use s_o.Base.{
  ℕ, zero, suc, ◌+◌, ◌*◌, ◌%◌, ◌≤◌, ◌<◌, ◌≡◌, refl, ap, ◌∙◌, inl, inr, none, some, List, [], ◌∷◌,
  arith, ltb, Bool-cases, length, get_or, All, update, update_self, update-ne,
}
use s_o.Keyboard.Driver.{
  Keyboard, Saved, saved, overflow, get_key, save_key, store_key, put_key, buf_size, of_put,
}
use s_o.Keyboard.Reading.{save_keys}
use s_o.Keyboard.Rounds.{Plain, get_key-byte}

store_key-Plain :
    (k : Keyboard) (c : ℕ)
    → k.shift ≡ 0
    → k.ctrl ≡ 0
    → c < 128
    → store_key k c ≡ of_put (put_key k (get_key c))
unfolding store_key
store_key-Plain k c shift ctrl lt =
    let key : (get_key c + 224 * k.shift) % 256 ≡ get_key c =
      ground (arith, shift, get_key-byte c) in
    let put = ap (λ v. of_put (put_key k v)) key in ground (arith, ctrl, lt, put)

save_key-Plain :
    (k : Keyboard) (c : ℕ)
    → k.shift ≡ 0
    → k.ctrl ≡ 0
    → Plain c
    → save_key k c ≡ of_put (put_key k (get_key c))
unfolding save_key
save_key-Plain k c shift ctrl plain =
    ground (arith, shift, plain, store_key-Plain k c shift ctrl plain.1)

put_key_room :
    (k : Keyboard) (v : ℕ)
    → k.count < buf_size
    → put_key k v ≡ some (record k { keys = update k.keys k.count v; count = k.count + 1 })
unfolding put_key
put_key_room k v lt = ground (arith, lt)

put_key_full : (k : Keyboard) (v : ℕ) → buf_size ≤ k.count → put_key k v ≡ none
unfolding put_key
put_key_full k v le = ground (arith, le)

-- What the keys `cs` leave on the keyboard `k`: behind the bytes that it holds, the byte of each key,
-- in the order of the keys, while they fit in the buffer; and else a store outside of it.
abbrev pub Stored : Keyboard → List ℕ → Saved → Type 0
Stored k cs r =
    (k.count + length cs ≤ buf_size
      → (k' : Keyboard) × r ≡ saved k'
        × k'.count ≡ k.count + length cs
        × ((i : ℕ) → i < length cs → k'.keys (k.count + i) ≡ get_key (get_or cs i 0))
        × ((i : ℕ) → i < k.count → k'.keys i ≡ k.keys i))
    × (buf_size < k.count + length cs → r ≡ overflow)

-- With no read in between, and neither Shift nor Ctrl down, the bytes of the keys of a user are
-- stored in order behind those that the buffer holds while there are at most 55 of them; the 56th is
-- stored outside of `keys`.
pub save_keys-Stored :
    (cs : List ℕ) (k : Keyboard)
    → All Plain cs
    → k.shift ≡ 0
    → k.ctrl ≡ 0
    → k.count ≤ buf_size
    → Stored k cs (save_keys k cs)
unfolding save_keys
save_keys-Stored [] k plain shift ctrl le = (
  λ fits. (k, refl, omega arith, (λ i lt. elim lt [ ]), (λ i lt. refl)),
  λ full. absurd (omega (arith, full, le)),
)
save_keys-Stored (c ∷ cs) k plain shift ctrl le = elim (Bool-cases (ltb k.count buf_size)) [
  | inl lt ↦
      (let k1 : Keyboard = record k {
        keys = update k.keys k.count (get_key c);
        count = k.count + 1;
      } in
        let first_key : save_key k c ≡ saved k1 =
          save_key-Plain k c shift ctrl plain.0
          ∙ ap of_put (put_key_room k (get_key c) (ground (arith, lt))) in
        let ih = save_keys-Stored cs k1 plain.1 shift ctrl (ground (arith, lt)) in
        rw (save_keys, first_key)
          (
            (λ fits.
                let (k', r, n, bytes, older) = ih.0 (omega (arith, fits)) in
                (
                  k',
                  r,
                  omega (arith, n),
                  stored_bytes k' bytes (older k.count (omega arith)),
                  (λ i below.
                      older i (omega (arith, below))
                      ∙ update-ne k.keys k.count (get_key c) i (omega (arith, below))),
                )),
            λ full. ih.1 (omega (arith, full)),
          ))
  | inr ge ↦
      (let last : save_key k c ≡ overflow =
          save_key-Plain k c shift ctrl plain.0
          ∙ ap of_put (put_key_full k (get_key c) (ground (arith, ge))) in
        rw (save_keys, last) ((λ fits. absurd (ground (arith, fits, ge))), λ full. refl))
]
  where
    stored_bytes :
        (k' : Keyboard)
        → ((i : ℕ) → i < length cs → k'.keys (k.count + 1 + i) ≡ get_key (get_or cs i 0))
        → k'.keys k.count ≡ update k.keys k.count (get_key c) k.count
        → (i : ℕ) → i < suc (length cs)
        → k'.keys (k.count + i) ≡ get_key (get_or (c ∷ cs) i 0)
    stored_bytes k' bytes first zero lt =
        ap k'.keys (omega arith) ∙ first ∙ update_self k.keys k.count (get_key c)
    stored_bytes k' bytes first (suc i) lt = ap k'.keys (omega arith) ∙ bytes i (omega (arith, lt))
