-- ===== src/Modules/Load.antt =====
-- What the loader of Kernel/moduleLoader.c leaves at the modules' addresses.
use s_o.Base.{
  ℕ, ◌+◌, ◌-◌, ◌^◌, ◌≤◌, ◌<◌, ◌≡◌, refl, ap, ◌∙◌, ◌⊎◌, List, [], ◌∷◌, ◌++◌, arith, length,
  length-append,
}
use s_o.KernelLib.{Memory}
use s_o.KernelLib.Copy.{copied, memcpy-copied, Apart}
use s_o.Modules.{
  Bytes, Loader, load_module, pack, word_bytes, read_uint32, build_image, load_loop, load_modules,
}
use s_o.Modules.Image.{read_uint32-word_bytes, Holds, Holds-append}

-- The `n` bytes at `a` and the `k` bytes at `d` do not overlap.
abbrev pub Away : ℕ → ℕ → ℕ → ℕ → Type 0
Away a n d k = (a + n ≤ d) ⊎ (d + k ≤ a)

-- The targets of the modules, from number `i` on, keep off the `n` bytes at `a`.
abbrev pub Clear : ℕ → ℕ → (ℕ → ℕ) → ℕ → List Bytes → Type 0
Clear a n t i [] = a ≡ a
Clear a n t i (m ∷ ms) = Away a n (t i) (length m) × Clear a n t (i + 1) ms

-- The modules have sizes of 32 bits, and their targets keep off the image, which has `n` bytes
-- from `a` on, and off each other.
abbrev pub Placed : ℕ → ℕ → (ℕ → ℕ) → ℕ → List Bytes → Type 0
Placed a n t i [] = a ≡ a
Placed a n t i (m ∷ ms) =
    (length m < 2 ^ 32)
    × Away a n (t i) (length m)
    × Clear (t i) (length m) t (i + 1) ms
    × Placed a n t (i + 1) ms

-- Each module lies at its target.
abbrev pub Loaded : Memory → (ℕ → ℕ) → ℕ → List Bytes → Type 0
Loaded mem t i [] = i ≡ i
Loaded mem t i (m ∷ ms) = Holds mem (t i) m × Loaded mem t (i + 1) ms

-- A copy changes nothing outside its destination.
copied-outside : (mem : Memory) (d s k x : ℕ) → (x < d) ⊎ (d + k ≤ x) → copied mem d s k x ≡ mem x
copied-outside mem d s k x h = ground (arith, h)

copied-inside : (mem : Memory) (d s k j : ℕ) → j < k → copied mem d s k (d + j) ≡ mem (s + j)
copied-inside mem d s k j h =
    let e : s + (d + j - d) ≡ s + j = omega arith in rw e (ground (arith, h))

load_module-copied :
    (l : Loader) (target size x : ℕ)
    → read_uint32 l.mem l.current ≡ size
    → Apart target (l.current + 4) size
    → (load_module l target).mem x ≡ copied l.mem target (l.current + 4) size x
unfolding load_module
load_module-copied l target size x e h = rw e (memcpy-copied l.mem target (l.current + 4) size x h)

load_module-current :
    (l : Loader) (target : ℕ)
    → (load_module l target).current ≡ l.current + 4 + read_uint32 l.mem l.current
unfolding load_module
load_module-current l target = refl

module _ (a n : ℕ) (t : ℕ → ℕ) where
  -- One module: what changes, and that the rest of the image is in front of the loader.
  load_module-step :
      (i : ℕ) (m : Bytes) (ms : List Bytes) (l : Loader)
      → Holds l.mem l.current (pack (m ∷ ms))
      → a ≤ l.current
      → l.current + length (pack (m ∷ ms)) ≤ a + n
      → length m < 2 ^ 32
      → Away a n (t i) (length m)
      → ((x : ℕ) → (load_module l (t i)).mem x ≡ copied l.mem (t i) (l.current + 4) (length m) x)
        × ((load_module l (t i)).current ≡ l.current + 4 + length m)
        × Holds (load_module l (t i)).mem (load_module l (t i)).current (pack ms)
        × Holds l.mem (l.current + 4) m
        × (length (pack (m ∷ ms)) ≡ 4 + length m + length (pack ms))
  unfolding pack
  load_module-step i m ms l h lo hi small away =
      let (head, tail) = Holds-append l.mem l.current (word_bytes (length m)) (m ++ pack ms) h in
      let (body, rest) = Holds-append l.mem (l.current + 4) m (pack ms) tail in
      let size = read_uint32-word_bytes l.mem l.current (length m) small head in
      let len : length (m ++ pack ms) ≡ length m + length (pack ms) = length-append m (pack ms) in
      let apart : Apart (t i) (l.current + 4) (length m) = ground (arith, away, lo, hi, len) in
      let new : (x : ℕ)
          → (load_module l (t i)).mem x ≡ copied l.mem (t i) (l.current + 4) (length m) x =
        λ x. load_module-copied l (t i) (length m) x size apart in
      let at : (load_module l (t i)).current ≡ l.current + 4 + length m =
        load_module-current l (t i) ∙ ap (λ z. l.current + 4 + z) size in
      (
        new,
        at,
        (λ k lt.
            ap (load_module l (t i)).mem (ap (λ z. z + k) at)
            ∙ new (l.current + 4 + length m + k)
            ∙ copied-outside l.mem (t i) (l.current + 4) (length m) (l.current + 4 + length m + k)
                (ground (arith, away, lo, hi, len, lt))
            ∙ rest k lt),
        body,
        omega (arith, len),
      )

  -- The loads of the other modules leave alone what their targets keep off.
  load_loop-frame :
      (i : ℕ) (ms : List Bytes) (l : Loader) (b k x : ℕ)
      → Holds l.mem l.current (pack ms)
      → a ≤ l.current
      → l.current + length (pack ms) ≤ a + n
      → Placed a n t i ms
      → Clear b k t i ms
      → b ≤ x
      → x < b + k
      → (load_loop (length ms) i t l).mem x ≡ l.mem x
  unfolding load_loop
  load_loop-frame i [] l b k x h lo hi p c ge lt = refl
  load_loop-frame i (m ∷ ms) l b k x h lo hi p c ge lt =
      let s = load_module-step i m ms l h lo hi p.0 p.1 in
      load_loop-frame (i + 1) ms (load_module l (t i)) b k x s.2 (omega (arith, s.1))
        (omega (arith, s.1, s.4)) p.3 c.1 ge lt
      ∙ s.0 x
      ∙ copied-outside l.mem (t i) (l.current + 4) (length m) x (ground (arith, c.0))

  load_loop-Loaded :
      (i : ℕ) (ms : List Bytes) (l : Loader)
      → Holds l.mem l.current (pack ms)
      → a ≤ l.current
      → l.current + length (pack ms) ≤ a + n
      → Placed a n t i ms
      → Loaded (load_loop (length ms) i t l).mem t i ms
  unfolding load_loop
  load_loop-Loaded i [] l h lo hi p = refl
  load_loop-Loaded i (m ∷ ms) l h lo hi p =
      let s = load_module-step i m ms l h lo hi p.0 p.1 in
      let next = load_module l (t i) in
      let lo' : a ≤ next.current = omega (arith, s.1) in
      let hi' : next.current + length (pack ms) ≤ a + n = omega (arith, s.1, s.4) in
      (
        (λ k lt.
            load_loop-frame (i + 1) ms next (t i) (length m) (t i + k) s.2 lo' hi' p.3 p.2
              (omega arith) (omega (arith, lt))
            ∙ s.0 (t i + k)
            ∙ copied-inside l.mem (t i) (l.current + 4) (length m) k lt
            ∙ s.3 k lt),
        load_loop-Loaded (i + 1) ms next s.2 lo' hi' p.3,
      )

-- The round trip: where memory holds, behind the kernel, the rest of the image that the packer
-- wrote, and the targets keep off it and off each other, the loader puts every module, byte for
-- byte, at its target.
pub load_modules-pack :
    (garbage start : ℕ) (mem : Memory) (t : ℕ → ℕ) (kernel : Bytes) (ms : List Bytes)
    → length ms < 2 ^ 31
    → Holds mem start (build_image kernel ms)
    → Placed start (length (build_image kernel ms)) t 0 ms
    → Loaded (load_modules garbage mem (start + length kernel) t).mem t 0 ms
unfolding load_modules build_image
load_modules-pack garbage start mem t kernel ms few h placed =
    let payload = start + length kernel in
    let (head, behind) = Holds-append mem start kernel (word_bytes (length ms) ++ pack ms) h in
    let (count, body) = Holds-append mem payload (word_bytes (length ms)) (pack ms) behind in
    let n = read_uint32-word_bytes mem payload (length ms) (omega arith) count in
    let l1 = length-append kernel (word_bytes (length ms) ++ pack ms) in
    rw n (
      load_loop-Loaded start (length (build_image kernel ms)) t 0 ms
        (record { mem = mem; current = payload + 4; end_of_modules = garbage }) body (omega arith)
        (omega (arith, l1)) placed)
