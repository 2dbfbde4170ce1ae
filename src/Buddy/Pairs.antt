-- ===== src/Buddy/Pairs.antt =====
-- Buddies, and what `free` does with them.
use native.Mathlib.Nat.{mul-div_cancel}
use s_o.Base.{
  ℕ, zero, suc, ◌+◌, ◌-◌, ◌*◌, ◌/◌, ◌%◌, ◌^◌, ◌<◌, ◌≡◌, refl, sym, ap, ◌∙◌, ◌≢◌, true, false,
  Option, none, some, arith, leb, ◌==◌, if◌then◌else◌, ==_of_ne, update, sub64, update_self,
  update-ne, pow-suc,
}
use s_o.Buddy.{set_at, Buddy, add_block, block_size, free, get_buddy, merge_buddy, get_address}

-- `getBuddy` on a block of `s` units: the index is a whole number `c` of such blocks.
abbrev partner : ℕ → ℕ → ℕ
partner s i = if i / s % 2 == 0 then i + s else i - s

partner_even : (s d : ℕ) → 0 < s → partner s (2 * d * s) ≡ 2 * d * s + s
partner_even s d h =
    let e : 2 * d * s / s ≡ 2 * d = mul-div_cancel (2 * d) h in
    let even : (2 * d % 2 == 0) ≡ true = ground arith in rw (e, even)

partner_odd : (s d : ℕ) → 0 < s → partner s (2 * d * s + s) ≡ 2 * d * s
partner_odd s d h =
    let e : (2 * d * s + s) / s ≡ 2 * d + 1 =
      ap (λ t. t / s) (omega arith) ∙ mul-div_cancel (2 * d + 1) h in
    let odd : ((2 * d + 1) % 2 == 0) ≡ false = ground arith in rw (e, odd) (omega arith)

pow_pos : (k : ℕ) → 0 < 2 ^ k
pow_pos zero = omega arith
pow_pos (suc k) = let p = pow-suc 2 k in omega (arith, pow_pos k)

-- The two halves of block `d` of level `k + 1`, both of level `k`, are each other's buddies.
pub get_buddy-halves :
    (b : Buddy) (k d : ℕ)
    → b.level (2 * d * 2 ^ k) ≡ k
    → b.level (2 * d * 2 ^ k + 2 ^ k) ≡ k
    → (get_buddy b (2 * d * 2 ^ k) ≡ 2 * d * 2 ^ k + 2 ^ k)
      × (get_buddy b (2 * d * 2 ^ k + 2 ^ k) ≡ 2 * d * 2 ^ k)
unfolding get_buddy
get_buddy-halves b k d left right =
    (rw left (partner_even (2 ^ k) d (pow_pos k)), rw right (partner_odd (2 ^ k) d (pow_pos k)))

-- Putting a block on its row marks it as free.
add_block-size : (b : Buddy) (i : ℕ) → (add_block b i).size i ≡ 0
unfolding add_block
add_block-size b i = update_self b.size i 0

-- A block that is marked as free is never merged: the test that both buddies be free asks for the
-- opposite.
merge_buddy_of_free :
    (fuel : ℕ) (b : Buddy) (i : ℕ) → b.size i ≡ 0 → merge_buddy (suc fuel) b i ≡ some b
unfolding merge_buddy
merge_buddy_of_free fuel b i h = ground arith

-- `free` only calls `addBlock`: the merge finds the block itself free and stops.
free-add_block_lem :
    (fuel : ℕ) (b : Buddy) (i : ℕ)
    → i < b.used
    → b.size i ≢ 0
    → get_address b i < 2 ^ 64
    → free (suc fuel) b (get_address b i) ≡ some (add_block b i)
unfolding free get_address
free-add_block_lem fuel b i inside held bound =
    let off : sub64 (b.start + i * block_size) b.start ≡ i * block_size = omega arith in
    let whole : (i * block_size % block_size == 0) ≡ true = ground arith in
    let index : i * block_size / block_size ≡ i = omega arith in
    let below : leb b.used i ≡ false = ground arith in
    rw (off, whole, index, below, ==_of_ne (b.size i) 0 held)
      (merge_buddy_of_free fuel (add_block b i) i (add_block-size b i))

-- Block `i` is put in front of the row `level`, whose first block was `head`, and nothing else of the
-- rows changes.
pub record InFront (b : Buddy) (i level : ℕ) (head : Option ℕ) (t : Buddy) : Type 0 where
  pub row : t.free_row level ≡ some i
  pub other_rows : (r : ℕ) → r ≢ level → t.free_row r ≡ b.free_row r
  pub behind : t.next i ≡ head
  pub other_next : (j : ℕ) → j ≢ i → t.next j ≡ b.next j
  pub first : head ≢ some i → t.prev i ≡ none
  pub back : (j : ℕ) → head ≡ some j → t.prev j ≡ some i
  pub other_prev : (j : ℕ) → j ≢ i → head ≢ some j → t.prev j ≡ b.prev j
  pub is_free : t.size i ≡ 0
  pub other_size : (j : ℕ) → j ≢ i → t.size j ≡ b.size j
  pub levels : (j : ℕ) → t.level j ≡ b.level j

set_at-none :
    (field : ℕ → Option ℕ) (at : Option ℕ) (v : Option ℕ) (j : ℕ)
    → at ≢ some j
    → set_at field at v j ≡ field j
unfolding set_at
set_at-none field none v j ne = refl
set_at-none field (some k) v j ne = update-ne field k v j (λ e. ne (ap some (sym e)))

set_at-some :
    (field : ℕ → Option ℕ) (at : Option ℕ) (v : Option ℕ) (j : ℕ)
    → at ≡ some j
    → set_at field at v j ≡ v
unfolding set_at
set_at-some field at v j e = ap (λ o. set_at field o v j) e ∙ update_self field j v

add_block-InFront :
    (b : Buddy) (i : ℕ) → InFront b i (b.level i) (b.free_row (b.level i)) (add_block b i)
unfolding add_block
add_block-InFront b i =
    let head = b.free_row (b.level i) in
    let cleared = update b.prev i none in
    record {
      row = update_self b.free_row (b.level i) (some i);
      other_rows = λ r ne. update-ne b.free_row (b.level i) (some i) r ne;
      behind = update_self b.next i head;
      other_next = λ j ne. update-ne b.next i head j ne;
      first = λ ne. set_at-none cleared head (some i) i ne ∙ update_self b.prev i none;
      back = λ j is. set_at-some cleared head (some i) j is;
      other_prev =
          λ j ne other. set_at-none cleared head (some i) j other ∙ update-ne b.prev i none j ne;
      is_free = update_self b.size i 0;
      other_size = λ j ne. update-ne b.size i 0 j ne;
      levels = λ j. refl;
    }

-- `free` of the address of an allocated block ends with the block in front of the row of its level:
-- the row leads to it, it leads to the block that was first, which leads back to it, and it counts as
-- free; no other row, link, size or level changes. So it never merges, whatever its buddy is.
pub free-InFront :
    (fuel : ℕ) (b : Buddy) (i : ℕ)
    → i < b.used
    → b.size i ≢ 0
    → get_address b i < 2 ^ 64
    → (t : Buddy) × (free (suc fuel) b (get_address b i) ≡ some t)
      × InFront b i (b.level i) (b.free_row (b.level i)) t
free-InFront fuel b i inside held bound =
    (add_block b i, free-add_block_lem fuel b i inside held bound, add_block-InFront b i)
