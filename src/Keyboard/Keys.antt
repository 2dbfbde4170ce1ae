-- ===== src/Keyboard/Keys.antt =====
-- What `readBuf` copies.
use s_o.Base.{
  ℕ, zero, suc, ◌+◌, ◌-◌, ◌≤◌, min, ◌≡◌, ap, inl, inr, ◌&&◌, arith, ltb, leb, ◌==◌, if◌then◌else◌,
  Bool-cases, update,
}
use s_o.Keyboard.Driver.{Keyboard, copy_keys, read_buf}

copy_keys-count :
    (fuel : ℕ) (k : Keyboard) (str : ℕ → ℕ) (p count i : ℕ)
    → i + fuel ≡ k.count
    → i ≤ count
    → (copy_keys fuel k str p count i).0 ≡ min k.count count
unfolding copy_keys
copy_keys-count zero k str p count i e le = ground arith
copy_keys-count (suc fuel) k str p count i e le = elim (Bool-cases (ltb i count)) [
  | inl more ↦
      (let ih =
          copy_keys-count fuel k (update str (p + i) (k.keys i)) p count (i + 1) (omega (arith, e))
            (ground (arith, more)) in
        ground (arith, ih, more))
  | inr full ↦ ground (arith, full)
]

copy_keys-copied :
    (fuel : ℕ) (k : Keyboard) (str : ℕ → ℕ) (p count i j : ℕ)
    → i + fuel ≡ k.count
    → i ≤ count
    → (copy_keys fuel k str p count i).1 j
      ≡ (if leb (p + i) j && ltb j (p + min k.count count) then k.keys (j - p) else str j)
unfolding copy_keys update
copy_keys-copied zero k str p count i j e le = ground arith
copy_keys-copied (suc fuel) k str p count i j e le = elim (Bool-cases (ltb i count)) [
  | inl more ↦
      (let ih =
          copy_keys-copied fuel k (update str (p + i) (k.keys i)) p count (i + 1) j
            (omega (arith, e)) (ground (arith, more)) in
        elim (Bool-cases (j == p + i)) [
          | inl here ↦
              (let same : j - p ≡ i = ground (arith, here) in
                let key : k.keys (j - p) ≡ k.keys i = ap k.keys same in
                ground (arith, ih, more, here, key, e))
          | inr apart ↦ ground (arith, ih, more, apart, e)
        ])
  | inr full ↦ ground (arith, full)
]

-- `readBuf` returns the smaller one of the two counts.
pub read_buf-count :
    (k : Keyboard) (str : ℕ → ℕ) (p count : ℕ) → (read_buf k str p count).0 ≡ min k.count count
unfolding read_buf
read_buf-count k str p count = copy_keys-count k.count k str p count 0 (omega arith) (omega arith)

-- It copies that many keys to `p`, and keeps the rest of the memory.
pub read_buf-copied :
    (k : Keyboard) (str : ℕ → ℕ) (p count j : ℕ)
    → (read_buf k str p count).1.0 j
      ≡ (if leb p j && ltb j (p + min k.count count) then k.keys (j - p) else str j)
unfolding read_buf
read_buf-copied k str p count j =
    ground (arith, copy_keys-copied k.count k str p count 0 j (omega arith) (omega arith))
