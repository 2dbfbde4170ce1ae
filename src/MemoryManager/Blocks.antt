-- ===== src/MemoryManager/Blocks.antt =====
-- Lists of blocks as values, list segments in memory, and the bytes that blocks cover.
use s_o.Base.{
  ℕ, ◌+◌, ◌≤◌, ◌<◌, ◌≡◌, refl, Bool, true, false, ◌&&◌, ◌||◌, List, [], ◌∷◌, ◌++◌, arith, ltb, leb,
  ◌==◌, if◌then◌else◌, ==_iff, update,
}
use s_o.MemoryManager.Header.{Ptr, header}

-- The address and the size of a block.
abbrev pub Block : Type 0
Block = ℕ × ℕ

-- Byte `i` lies in the block, header included.
abbrev pub covers : ℕ → Block → ℕ
covers i (a, k) = if leb a i && ltb i (a + header + k) then 1 else 0

-- How many blocks of the list byte `i` lies in.
abbrev pub cover : ℕ → List Block → ℕ
cover i [] = 0
cover i (b ∷ bs) = covers i b + cover i bs

pub cover-append : (i : ℕ) (xs ys : List Block) → cover i (xs ++ ys) ≡ cover i xs + cover i ys
cover-append i [] ys = omega arith
cover-append i (x ∷ xs) ys = omega (arith, cover-append i xs ys)

-- The list has a block at address `a`.
abbrev pub has : ℕ → List Block → Bool
has a [] = false
has a ((b, k) ∷ bs) = (b == a) || has a bs

-- An address that a list does not cover is no block of it.
pub has_of_cover : (a : ℕ) (bs : List Block) → cover a bs ≡ 0 → has a bs ≡ false
has_of_cover a [] h = refl
has_of_cover a ((b, k) ∷ bs) h = ground (arith, has_of_cover a bs)

pub covers_self : (a k : ℕ) → covers a (a, k) ≡ 1
covers_self a k = ground arith

module _ (next size : Ptr → ℕ) where
  -- From `p` the `next` fields lead through the blocks of the list to `stop`.
  abbrev pub Seg : Ptr → Ptr → List Block → Type 0
  Seg stop p [] = p ≡ stop
  Seg stop p ((a, k) ∷ bs) = (p ≡ a) × (0 < a) × (size a ≡ k) × Seg stop (next a) bs

abbrev pub head_addr : Ptr → List Block → Ptr
head_addr d [] = d
head_addr d ((a, k) ∷ bs) = a

abbrev pub last_addr : Ptr → List Block → Ptr
last_addr d [] = d
last_addr d ((a, k) ∷ bs) = last_addr a bs

pub has-last_addr : (a k : ℕ) (bs : List Block) → has (last_addr a bs) ((a, k) ∷ bs) ≡ true
has-last_addr a k [] = ground arith
has-last_addr a k ((b, j) ∷ bs) = ground (arith, has-last_addr b j bs)

-- In a list that covers no byte twice, the first block's address does not come again.
pub has-tail : (a k : ℕ) (bs : List Block) → cover a ((a, k) ∷ bs) ≤ 1 → has a bs ≡ false
has-tail a k bs h = has_of_cover a bs (omega (arith, covers_self a k))

module _ (next size : Ptr → ℕ) where
  pub Seg-head : (stop p : Ptr) (bs : List Block) → Seg next size stop p bs → p ≡ head_addr stop bs
  Seg-head stop p [] s = s
  Seg-head stop p (b ∷ bs) s = s.0

  -- A list of two parts is a segment up to the second part, and the rest.
  pub Seg-split :
      (stop p : Ptr) (xs ys : List Block)
      → Seg next size stop p (xs ++ ys)
      → Seg next size (head_addr stop ys) p xs × Seg next size stop (head_addr stop ys) ys
  Seg-split stop p [] ys s = let e = Seg-head stop p ys s in (e, rw e at s)
  Seg-split stop p ((a, k) ∷ xs) ys s =
      let r = Seg-split stop (next a) xs ys s.3 in ((s.0, s.1, s.2, r.0), r.1)

  pub Seg-append :
      (stop mid p : Ptr) (xs ys : List Block)
      → Seg next size mid p xs
      → Seg next size stop mid ys
      → Seg next size stop p (xs ++ ys)
  Seg-append stop mid p [] ys s t = rw s t
  Seg-append stop mid p ((a, k) ∷ xs) ys s t =
      (s.0, s.1, s.2, Seg-append stop mid (next a) xs ys s.3 t)

  -- A write at an address that is no block of the list leaves it alone.
  pub Seg-next_frame :
      (stop p : Ptr) (bs : List Block) (q v : ℕ)
      → has q bs ≡ false
      → Seg next size stop p bs
      → Seg (update next q v) size stop p bs
  unfolding update
  Seg-next_frame stop p [] q v out s = s
  Seg-next_frame stop p ((a, k) ∷ bs) q v out s =
      let e : update next q v a ≡ next a = ground arith in
      (s.0, s.1, s.2, rw e (Seg-next_frame stop (next a) bs q v (ground arith) s.3))

  pub Seg-size_frame :
      (stop p : Ptr) (bs : List Block) (q v : ℕ)
      → has q bs ≡ false
      → Seg next size stop p bs
      → Seg next (update size q v) stop p bs
  unfolding update
  Seg-size_frame stop p [] q v out s = s
  Seg-size_frame stop p ((a, k) ∷ bs) q v out s =
      (s.0, s.1, ground arith, Seg-size_frame stop (next a) bs q v (ground arith) s.3)

  -- A write to the last block's `next` turns the segment to another end.
  pub Seg-relink :
      (stop p target a k : ℕ) (bs : List Block)
      → has a bs ≡ false
      → ((i : ℕ) → cover i ((a, k) ∷ bs) ≤ 1)
      → Seg next size stop p ((a, k) ∷ bs)
      → Seg (update next (last_addr a bs) target) size target p ((a, k) ∷ bs)
  unfolding update
  Seg-relink stop p target a k [] out once s = (s.0, s.1, s.2, ground arith)
  Seg-relink stop p target a k ((b, j) ∷ bs) out once s =
      let ne : update next (last_addr b bs) target a ≡ next a =
        ground (arith, has-last_addr b j bs, ==_iff a (last_addr b bs)) in
      (
        s.0,
        s.1,
        s.2,
        rw ne (
            Seg-relink stop (next a) target b j bs (has-tail b j bs (omega (arith, once b)))
              (λ i. omega (arith, once i)) s.3),
      )

-- Writes of both fields of two blocks that are not in the list leave it alone.
pub Seg-frame_two :
    (next size : Ptr → ℕ) (stop p : Ptr) (bs : List Block) (x y u v s t : ℕ)
    → has x bs ≡ false
    → has y bs ≡ false
    → Seg next size stop p bs
    → Seg (update (update next x u) y v) (update (update size x s) y t) stop p bs
Seg-frame_two next size stop p bs x y u v s t hx hy seg =
    let next' = update next x u in
    let size' = update size x s in
    Seg-next_frame next' (update size' y t) stop p bs y v hy (
      Seg-size_frame next' size' stop p bs y t hy (
        Seg-next_frame next size' stop p bs x u hx (Seg-size_frame next size stop p bs x s hx seg)))
