-- ===== src/Modules/Image.antt =====
-- What the image holds, and reading it from memory.
use s_o.Base.{
  ℕ, zero, suc, ◌+◌, ◌%◌, ◌^◌, ◌<◌, ◌≡◌, refl, ap, ◌∙◌, [], ◌∷◌, ◌++◌, arith, length, get_or,
  length-append,
}
use s_o.KernelLib.{Memory}
use s_o.Modules.{Bytes, read_uint32, word_bytes}

-- The bytes lie in memory from `a` on.
abbrev pub Holds : Memory → ℕ → Bytes → Type 0
Holds mem a bs = (k : ℕ) → k < length bs → mem (a + k) ≡ get_or bs k 0

get_or-append_left : (xs ys : Bytes) (k : ℕ) → k < length xs → get_or (xs ++ ys) k 0 ≡ get_or xs k 0
get_or-append_left [] ys k h = elim h [ ]
get_or-append_left (x ∷ xs) ys zero h = refl
get_or-append_left (x ∷ xs) ys (suc k) h = get_or-append_left xs ys k (omega arith)

get_or-append_right : (xs ys : Bytes) (k : ℕ) → get_or (xs ++ ys) (length xs + k) 0 ≡ get_or ys k 0
get_or-append_right [] ys k = let e : 0 + k ≡ k = omega arith in ap (λ x. get_or ys x 0) e
get_or-append_right (x ∷ xs) ys k =
    let e : suc (length xs) + k ≡ suc (length xs + k) = omega arith in
    ap (λ i. get_or (x ∷ (xs ++ ys)) i 0) e ∙ get_or-append_right xs ys k

pub Holds-append :
    (mem : Memory) (a : ℕ) (xs ys : Bytes)
    → Holds mem a (xs ++ ys)
    → Holds mem a xs × Holds mem (a + length xs) ys
Holds-append mem a xs ys h = (
  (λ k lt. h k (omega (arith, length-append xs ys)) ∙ get_or-append_left xs ys k lt),
  (λ k lt.
      ap mem (omega arith)
      ∙ h (length xs + k) (omega (arith, length-append xs ys))
      ∙ get_or-append_right xs ys k),
)

pub read_uint32-word_bytes :
    (mem : Memory) (a n : ℕ) → n < 2 ^ 32 → Holds mem a (word_bytes n) → read_uint32 mem a ≡ n
read_uint32-word_bytes mem a n small h =
    let b0 : mem a ≡ n % 256 = ap mem (omega arith) ∙ h 0 (omega arith) in
    let b1 = h 1 (omega arith) in
    let b2 = h 2 (omega arith) in let b3 = h 3 (omega arith) in omega (arith, b0, b1, b2, b3)
