-- ===== src/KernelLib/Copy.antt =====
-- What `memset` and `memcpy` of Kernel/lib.c leave in memory.
use s_o.Base.{
  ℕ, zero, suc, ◌+◌, ◌-◌, ◌*◌, ◌/◌, ◌%◌, ◌≤◌, ◌≡◌, refl, ap, ◌∙◌, ◌⊎◌, inl, inr, ◌&&◌, arith, ltb,
  leb, ◌==◌, if◌then◌else◌, Bool-cases, update,
}
use s_o.KernelLib.{Memory, copy_bytes, copy_word, copy_words, memcpy, memset, memset_loop}

-- Memory with the `n` bytes at `s` copied to `d`.
abbrev pub copied : Memory → ℕ → ℕ → ℕ → ℕ → ℕ
copied mem d s n a = if leb d a && ltb a (d + n) then mem (s + (a - d)) else mem a

-- Two areas of `n` bytes do not overlap.
abbrev pub Apart : ℕ → ℕ → ℕ → Type 0
Apart d s n = (d + n ≤ s) ⊎ (s + n ≤ d)

copy_word-copied : (mem : Memory) (d s a : ℕ) → copy_word mem d s a ≡ copied mem d s 4 a
unfolding copy_word update
copy_word-copied mem d s a = ground arith

copy_byte-copied : (mem : Memory) (d s a : ℕ) → update mem d (mem s) a ≡ copied mem d s 1 a
unfolding update
copy_byte-copied mem d s a = ground arith

-- A copy of `k` bytes, then one of the `n` behind them.
copied-next :
    (k n : ℕ) (mem m : Memory) (d s d' s' a : ℕ)
    → ((x : ℕ) → m x ≡ copied mem d s k x)
    → Apart d s (k + n)
    → d' ≡ d + k
    → s' ≡ s + k
    → copied m d' s' n a ≡ copied mem d s (k + n) a
copied-next k n mem m d s d' s' a agree h ed es = elim (Bool-cases (leb (d + k) a)) [
  | inl ge ↦
      let e : s' + (a - d') ≡ s + (a - d) = ground (arith, ge, ed, es) in
      rw e (ground (arith, h, ge, ed, agree (s + (a - d)), agree a))
  | inr lt ↦ ground (arith, lt, ed, agree a)
]

copy_bytes-copied :
    (n i : ℕ) (mem : Memory) (d s a : ℕ)
    → Apart (d + i) (s + i) n
    → copy_bytes n i mem d s a ≡ copied mem (d + i) (s + i) n a
unfolding copy_bytes update
copy_bytes-copied zero i mem d s a h = ground arith
copy_bytes-copied (suc n) i mem d s a h =
    copy_bytes-copied n (i + 1) (update mem (d + i) (mem (s + i))) d s a (ground (arith, h))
    ∙ copied-next 1 n mem (update mem (d + i) (mem (s + i))) (d + i) (s + i) (d + (i + 1))
        (s + (i + 1)) a (copy_byte-copied mem (d + i) (s + i)) (ground (arith, h)) (omega arith)
        (omega arith)
    ∙ ap (λ k. copied mem (d + i) (s + i) k a) (omega arith)

copy_words-copied :
    (n i : ℕ) (mem : Memory) (d s a : ℕ)
    → Apart (d + 4 * i) (s + 4 * i) (4 * n)
    → copy_words n i mem d s a ≡ copied mem (d + 4 * i) (s + 4 * i) (4 * n) a
unfolding copy_words
copy_words-copied zero i mem d s a h = ground arith
copy_words-copied (suc n) i mem d s a h =
    copy_words-copied n (i + 1) (copy_word mem (d + 4 * i) (s + 4 * i)) d s a (ground (arith, h))
    ∙ copied-next 4 (4 * n) mem (copy_word mem (d + 4 * i) (s + 4 * i)) (d + 4 * i) (s + 4 * i)
        (d + 4 * (i + 1)) (s + 4 * (i + 1)) a (copy_word-copied mem (d + 4 * i) (s + 4 * i))
        (ground (arith, h)) (omega arith) (omega arith)
    ∙ ap (λ k. copied mem (d + 4 * i) (s + 4 * i) k a) (omega arith)

same_copy :
    {d d' s s' n n' : ℕ} (mem : Memory) (a : ℕ)
    → d ≡ d'
    → s ≡ s'
    → n ≡ n'
    → copied mem d s n a ≡ copied mem d' s' n' a
same_copy mem a ed es en = rw (ed, es, en) refl

-- By words or by bytes, `memcpy` between areas that do not overlap copies every byte, and changes
-- nothing outside the destination.
pub memcpy-copied :
    (mem : Memory) (d s n a : ℕ) → Apart d s n → memcpy mem d s n a ≡ copied mem d s n a
unfolding memcpy
memcpy-copied mem d s n a h = elim (Bool-cases (d % 4 == 0 && s % 4 == 0 && n % 4 == 0)) [
  | inl e ↦ rw e (
      copy_words-copied (n / 4) 0 mem d s a (ground (arith, h, e))
      ∙ same_copy mem a (omega arith) (omega arith) (ground (arith, e)))
  | inr e ↦ rw e (
      copy_bytes-copied n 0 mem d s a (ground (arith, h))
      ∙ same_copy mem a (omega arith) (omega arith) refl)
]

-- `memset` writes the low byte of its argument all over the area, and nothing outside it.
pub memset-all :
    (mem : Memory) (destination c n a : ℕ)
    → memset mem destination c n a
      ≡ (if leb destination a && ltb a (destination + n) then c % 256 else mem a)
unfolding memset_loop update
memset-all mem destination c zero a = ground arith
memset-all mem destination c (suc n) a =
    memset-all (update mem (destination + n) (c % 256)) destination c n a ∙ ground arith
