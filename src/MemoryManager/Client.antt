-- ===== src/MemoryManager/Client.antt =====
-- Any sequence of calls of `malloc` and `free`, from the state that the boot sets up.
use s_o.Base.{
  ℕ, zero, suc, ◌+◌, ◌^◌, ◌≤◌, ◌<◌, ◌≡◌, refl, inl, inr, true, Option, none, some, List, [], ◌∷◌,
  arith, ◌==◌, Bool-cases, length, sub64,
}
use s_o.MemoryManager.{header, Manager, Ptr, free, malloc, align, free_block, null}
use s_o.MemoryManager.Blocks.{Block, cover, covers, has, Seg}
use s_o.MemoryManager.Rep.{Rep, arena-le_one}
use s_o.MemoryManager.Malloc.{remainder}
use s_o.MemoryManager.FirstFit.{allocate, Outcome, malloc-allocate}
use s_o.MemoryManager.Merge.{merge_all, merge_from}
use s_o.MemoryManager.Free.{insert_sorted, remove, size_of}
use s_o.MemoryManager.Release.{free_block-Rep, free_block-unknown}
use s_o.MemoryManager.Order.{Gapped, allocate-Gapped, merge_all-insert_sorted}

-- `malloc(n)` and `free(ptr)`
pub data Request : Type 0 where
  ask : ℕ → Request
  give : Ptr → Request

unfoldable pub serve : ℕ → Request → Manager → Option Manager
serve fuel (ask n) m = elim (malloc fuel n m) [ none ↦ none | some (ptr, m') ↦ some m' ]
serve fuel (give ptr) m = free fuel ptr m

unfoldable pub serve_all : ℕ → List Request → Manager → Option Manager
unfolding serve
serve_all fuel [] m = some m
serve_all fuel (q ∷ qs) m = elim (serve fuel q m) [ none ↦ none | some m' ↦ serve_all fuel qs m' ]

-- The blocks of both lists tile the arena, the free ones are sorted and merged, and there are at
-- most `count` blocks.
pub record IsHeap (lo hi : ℕ) (m : Manager) (count : ℕ) : Type 0 where
  pub fs : List Block
  pub used : List Block
  pub rep : Rep lo hi m fs used
  pub merged : Gapped 0 fs
  pub few : length fs + length used ≤ count

length-merge_from : (a k : ℕ) (bs : List Block) → length (merge_from (a, k) bs) ≤ suc (length bs)
unfolding merge_from
length-merge_from a k [] = omega arith
length-merge_from a k ((b, j) ∷ bs) =
    ground (arith, length-merge_from a (k + (header + j)) bs, length-merge_from b j bs)

length-merge_all : (bs : List Block) → length (merge_all bs) ≤ length bs
unfolding merge_all
length-merge_all [] = omega arith
length-merge_all ((a, k) ∷ bs) = length-merge_from a k bs

length-insert_sorted : (c : Block) (fs : List Block) → length (insert_sorted c fs) ≡ suc (length fs)
unfolding insert_sorted
length-insert_sorted c [] = refl
length-insert_sorted c (d ∷ fs) = ground (arith, length-insert_sorted c fs)

length-remove : (b : ℕ) (bs : List Block) → has b bs ≡ true → suc (length (remove b bs)) ≡ length bs
unfolding remove
length-remove b [] h = cc
length-remove b ((a, k) ∷ bs) h = ground (arith, length-remove b bs)

abbrev AtMost : ℕ → Option (Block × List Block) → Type 0
AtMost n none = Unit
AtMost n (some (got, fs)) = length fs ≤ n

allocate-AtMost : (n : ℕ) (fs : List Block) → AtMost (length fs) (allocate n fs)
unfolding allocate remainder
allocate-AtMost n [] = tt
allocate-AtMost n ((a, k) ∷ fs) = ground (arith, allocate-AtMost n fs)

size_of-cover :
    (i b : ℕ) (bs : List Block) → has b bs ≡ true → covers i (b, size_of b bs) ≤ cover i bs
unfolding size_of
size_of-cover i b [] h = cc
size_of-cover i b ((a, k) ∷ bs) h = elim (Bool-cases (a == b)) [
  | inl e ↦ rw e (ground arith)
  | inr ne ↦ rw ne (omega (arith, size_of-cover i b bs (rw ne at h)))
]

Seg-pos :
    (next size : Ptr → ℕ) (stop p b : Ptr) (bs : List Block)
    → Seg next size stop p bs
    → has b bs ≡ true
    → 0 < b
Seg-pos next size stop p b [] s h = cc
Seg-pos next size stop p b ((a, k) ∷ bs) s h =
    ground (arith, Seg-pos next size stop (next a) b bs s.3)

-- The bytes of an allocated block are no bytes of free ones.
used-apart :
    (lo hi : ℕ) (m : Manager) (fs used : List Block) (b : ℕ)
    → Rep lo hi m fs used
    → has b used ≡ true
    → (i : ℕ) → covers i (b, size_of b used) + cover i fs ≤ 1
used-apart lo hi m fs used b r mine i =
    omega (arith, r.tiles i, arena-le_one lo hi i, size_of-cover i b used mine)

abbrev pub Served : ℕ → ℕ → ℕ → Option Manager → Type 0
Served lo hi count result = (m' : Manager) × (result ≡ some m') × IsHeap lo hi m' count

module _ (lo hi fuel count : ℕ) (m : Manager) (bound : hi < 2 ^ 63) (enough : count < fuel)
    (h : IsHeap lo hi m count) where
  open h use {fs, used, rep, merged, few}

  asked :
      (n : ℕ) (found : Option (Block × List Block)) (result : Option (Ptr × Manager))
      → allocate n fs ≡ found
      → Outcome lo hi m used found result
      → Served lo hi (suc count) (elim result [ none ↦ none | some (ptr, m') ↦ some m' ])
  asked n none result e o =
      (m, rw o, record { fs = fs; used = used; rep = rep; merged = merged; few = omega arith })
  asked n (some (got, fs')) result e (m', o, r) = (
    m',
    rw o,
    record {
      fs = fs';
      used = got ∷ used;
      rep = r;
      merged = allocate-Gapped n fs fs' got merged e;
      few = omega (arith, few, rw e at (allocate-AtMost n fs));
    },
  )

  serve_ask : (n : ℕ) → Served lo hi (suc count) (serve fuel (ask n) m)
  unfolding serve malloc
  serve_ask zero =
      (m, refl, record { fs = fs; used = used; rep = rep; merged = merged; few = omega arith })
  serve_ask (suc n) =
      asked (align (suc n)) (allocate (align (suc n)) fs) (malloc fuel (suc n) m) refl
        (malloc-allocate lo hi m used fs (suc n) fuel rep bound (omega arith) (omega (arith, few)))

  given : (b : Ptr) → Served lo hi (suc count) (free_block fuel b m)
  given b = elim (Bool-cases (has b used)) [
    | inl mine ↦
        let (m', ran, r) = free_block-Rep lo hi fuel b m fs used rep (omega (arith, few)) mine in
        (
          m',
          ran,
          record {
            fs = merge_all (insert_sorted (b, size_of b used) fs);
            used = remove b used;
            rep = r;
            merged =
                merge_all-insert_sorted b (size_of b used) fs
                  (Seg-pos m.next m.size null m.alloc_mem b used rep.alloc_list mine)
                  (used-apart lo hi m fs used b rep mine) merged;
            few = omega (
              arith,
              few,
              length-merge_all (insert_sorted (b, size_of b used) fs),
              length-insert_sorted (b, size_of b used) fs,
              length-remove b used mine,
            );
          },
        )
    | inr other ↦ (
      m,
      free_block-unknown lo hi fuel b m fs used rep (omega (arith, few)) other,
      record { fs = fs; used = used; rep = rep; merged = merged; few = omega arith },
    )
  ]

  serve_give : (ptr : Ptr) → Served lo hi (suc count) (serve fuel (give ptr) m)
  unfolding serve free
  serve_give ptr = elim (Bool-cases (ptr == null)) [
    | inl nothing ↦ (
      m,
      rw nothing,
      record { fs = fs; used = used; rep = rep; merged = merged; few = omega arith },
    )
    | inr something ↦ rw something (given (sub64 ptr header))
  ]

  pub serve-IsHeap : (q : Request) → Served lo hi (suc count) (serve fuel q m)
  serve-IsHeap (ask n) = serve_ask n
  serve-IsHeap (give ptr) = serve_give ptr

-- From a heap with at most `count` blocks every sequence of calls runs to its end, given fuel for
-- one more block at each call, and leaves a heap: the blocks tile the arena, and the free ones are
-- sorted by address with no two of them touching.
pub serve_all-IsHeap :
    (lo hi fuel count : ℕ) (qs : List Request) (m : Manager)
    → hi < 2 ^ 63
    → count + length qs ≤ fuel
    → IsHeap lo hi m count
    → (m' : Manager) × (serve_all fuel qs m ≡ some m') × IsHeap lo hi m' (count + length qs)
unfolding serve_all
serve_all-IsHeap lo hi fuel count [] m bound enough h = (
  m,
  refl,
  record { fs = h.fs; used = h.used; rep = h.rep; merged = h.merged; few = omega (arith, h.few) },
)
serve_all-IsHeap lo hi fuel count (q ∷ qs) m bound enough h =
    let (m1, ran, h1) = serve-IsHeap lo hi fuel count m bound (omega arith) h q in
    let (m2, ran', h2) = serve_all-IsHeap lo hi fuel (suc count) qs m1 bound (omega arith) h1 in
    (
      m2,
      rw (ran, serve_all) ran',
      record {
        fs = h2.fs;
        used = h2.used;
        rep = h2.rep;
        merged = h2.merged;
        few = omega (arith, h2.few);
      },
    )
