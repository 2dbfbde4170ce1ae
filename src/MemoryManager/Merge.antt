-- ===== src/MemoryManager/Merge.antt =====
-- The loop of `free` that merges neighbouring free blocks.
use s_o.Base.{
  ℕ, zero, suc, ◌+◌, ◌≤◌, ◌<◌, ◌≡◌, refl, ap, ap₂, ◌∙◌, inl, inr, true, false, some, List, [], ◌∷◌,
  arith, ◌==◌, if◌then◌else◌, Bool-cases, length, update_self, update-ne,
}
use s_o.MemoryManager.{null, Manager, Ptr, absorb, header, merge_loop}
use s_o.MemoryManager.Blocks.{
  Block, Seg, cover, has, Seg-next_frame, Seg-size_frame, covers_self, has-tail, has_of_cover,
}

-- A block that ends where the next one starts swallows it.
unfoldable pub merge_from : Block → List Block → List Block
merge_from b [] = b ∷ []
merge_from (a, k) ((b, j) ∷ bs) =
    let merged = merge_from (a, k + (header + j)) bs in
    let kept = (a, k) ∷ merge_from (b, j) bs in if a + header + k == b then merged else kept

unfoldable pub merge_all : List Block → List Block
unfolding merge_from
merge_all [] = []
merge_all (b ∷ bs) = merge_from b bs

-- Merging covers the bytes that the blocks covered.
pub cover-merge_from :
    (i a k : ℕ) (bs : List Block) → cover i (merge_from (a, k) bs) ≡ cover i ((a, k) ∷ bs)
unfolding merge_from
cover-merge_from i a k [] = refl
cover-merge_from i a k ((b, j) ∷ bs) = elim (Bool-cases (a + header + k == b)) [
  | inl touch ↦ rw touch (ground (arith, cover-merge_from i a (k + (header + j)) bs))
  | inr apart ↦ rw apart (omega (arith, cover-merge_from i b j bs))
]

pub Seg-same :
    (next size next' size' : Ptr → ℕ) (stop p : Ptr) (bs : List Block)
    → ((x : ℕ) → has x bs ≡ true → (next' x ≡ next x) × (size' x ≡ size x))
    → Seg next size stop p bs
    → Seg next' size' stop p bs
Seg-same next size next' size' stop p [] same s = s
Seg-same next size next' size' stop p ((a, k) ∷ bs) same s =
    let at_a = same a (ground arith) in
    (
      s.0,
      s.1,
      at_a.1 ∙ s.2,
      rw at_a.0
          (Seg-same next size next' size' stop (next a) bs (λ x h. same x (ground arith)) s.3),
    )

-- What the loop leaves, started at the first of the blocks `bs`, which become `bs'`.
pub record Merged (m m' : Manager) (current : Ptr) (bs bs' : List Block) : Type 0 where
  pub list : Seg m'.next m'.size null current bs'
  pub same : (x : ℕ) → has x bs ≡ false → (m'.next x ≡ m.next x) × (m'.size x ≡ m.size x)
  pub free_mem : m'.free_mem ≡ m.free_mem
  pub alloc_mem : m'.alloc_mem ≡ m.alloc_mem
  pub info : m'.info ≡ m.info

absorb-Seg :
    (m : Manager) (a k b j : ℕ) (bs : List Block)
    → ((i : ℕ) → cover i ((a, k) ∷ (b, j) ∷ bs) ≤ 1)
    → Seg m.next m.size null a ((a, k) ∷ (b, j) ∷ bs)
    → Seg (absorb m a).next (absorb m a).size null a ((a, k + (header + j)) ∷ bs)
unfolding absorb
absorb-Seg m a k b j bs once s =
    let out : has a bs ≡ false = has_of_cover a bs (omega (arith, once a, covers_self a k)) in
    let next_b : m.next (m.next a) ≡ m.next b = ap m.next s.3.0 in
    let grown : m.size a + (header + m.size (m.next a)) ≡ k + (header + j) =
      ap₂ (λ u v. u + (header + v)) s.2 (ap m.size s.3.0 ∙ s.3.2) in
    (
      refl,
      s.1,
      update_self m.size a _ ∙ grown,
      rw (update_self m.next a (m.next (m.next a)), next_b)
          (Seg-next_frame m.next _ null (m.next b) bs a _ out
            (Seg-size_frame m.next m.size null (m.next b) bs a _ out s.3.3)),
    )

-- One round of the loop: at the end of the list, at a touching pair, at a pair with a gap.
loop-stop : (fuel : ℕ) (m : Manager) (a : ℕ) → m.next a ≡ null → merge_loop (suc fuel) m a ≡ some m
unfolding merge_loop
loop-stop fuel m a e = ground arith

loop-merge :
    (fuel : ℕ) (m : Manager) (a b k : ℕ)
    → 0 < a
    → 0 < b
    → m.next a ≡ b
    → m.size a ≡ k
    → (a + header + k == b) ≡ true
    → merge_loop (suc fuel) m a ≡ merge_loop fuel (absorb m a) a
unfolding merge_loop
loop-merge fuel m a b k ha hb e s touch = ground arith

loop-step :
    (fuel : ℕ) (m : Manager) (a b k : ℕ)
    → 0 < a
    → 0 < b
    → m.next a ≡ b
    → m.size a ≡ k
    → (a + header + k == b) ≡ false
    → merge_loop (suc fuel) m a ≡ merge_loop fuel m b
unfolding merge_loop
loop-step fuel m a b k ha hb e s apart = ground arith

abbrev Finished : ℕ → Manager → ℕ → List Block → List Block → Type 0
Finished fuel m a bs bs' = (m' : Manager) × (merge_loop fuel m a ≡ some m') × Merged m m' a bs bs'

after_absorb :
    (fuel : ℕ) (m : Manager) (a k b j : ℕ) (bs bs' : List Block)
    → merge_loop (suc fuel) m a ≡ merge_loop fuel (absorb m a) a
    → Finished fuel (absorb m a) a ((a, k + (header + j)) ∷ bs) bs'
    → Finished (suc fuel) m a ((a, k) ∷ (b, j) ∷ bs) bs'
unfolding absorb
after_absorb fuel m a k b j bs bs' e (m', ran, done) = (
  m',
  e ∙ ran,
  record {
    list = done.list;
    same = λ x out.
        let s = done.same x (ground arith) in
        (s.0 ∙ update-ne m.next a _ x (ground arith), s.1 ∙ update-ne m.size a _ x (ground arith));
    free_mem = done.free_mem;
    alloc_mem = done.alloc_mem;
    info = done.info;
  },
)

after_step :
    (fuel : ℕ) (m : Manager) (a k b j : ℕ) (bs bs' : List Block)
    → ((i : ℕ) → cover i ((a, k) ∷ (b, j) ∷ bs) ≤ 1)
    → Seg m.next m.size null a ((a, k) ∷ (b, j) ∷ bs)
    → merge_loop (suc fuel) m a ≡ merge_loop fuel m b
    → Finished fuel m b ((b, j) ∷ bs) bs'
    → Finished (suc fuel) m a ((a, k) ∷ (b, j) ∷ bs) ((a, k) ∷ bs')
after_step fuel m a k b j bs bs' once s e (m', ran, done) =
    let out : has a ((b, j) ∷ bs) ≡ false = has-tail a k ((b, j) ∷ bs) (once a) in
    let at_a = done.same a out in
    (
      m',
      e ∙ ran,
      record {
        list = (refl, s.1, at_a.1 ∙ s.2, rw (at_a.0, s.3.0) done.list);
        same = λ x h. done.same x (ground arith);
        free_mem = done.free_mem;
        alloc_mem = done.alloc_mem;
        info = done.info;
      },
    )

-- The loop merges as `merge_from` does, and ends within as many rounds as there are blocks.
pub merge_loop-Merged :
    (fuel : ℕ) (m : Manager) (a k : ℕ) (bs : List Block)
    → ((i : ℕ) → cover i ((a, k) ∷ bs) ≤ 1)
    → Seg m.next m.size null a ((a, k) ∷ bs)
    → length bs < fuel
    → Finished fuel m a ((a, k) ∷ bs) (merge_from (a, k) bs)
unfolding merge_from
merge_loop-Merged zero m a k bs once s enough = absurd (omega arith)
merge_loop-Merged (suc fuel) m a k [] once s enough = (
  m,
  loop-stop fuel m a s.3,
  record { list = s; same = λ x h. (refl, refl); free_mem = refl; alloc_mem = refl; info = refl },
)
merge_loop-Merged (suc fuel) m a k ((b, j) ∷ bs) once s enough =
    elim (Bool-cases (a + header + k == b)) [
      | inl touch ↦ rw touch (
          after_absorb fuel m a k b j bs (merge_from (a, k + (header + j)) bs)
            (loop-merge fuel m a b k s.1 s.3.1 s.3.0 s.2 touch)
            (merge_loop-Merged fuel (absorb m a) a (k + (header + j)) bs
              (λ i. ground (arith, once i)) (absorb-Seg m a k b j bs once s) (omega arith)))
      | inr apart ↦ rw apart (
          after_step fuel m a k b j bs (merge_from (b, j) bs) once s
            (loop-step fuel m a b k s.1 s.3.1 s.3.0 s.2 apart)
            (merge_loop-Merged fuel m b j bs (λ i. omega (arith, once i)) (rw s.3.0 at s.3)
              (omega arith)))
    ]
