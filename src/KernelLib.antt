-- ===== src/KernelLib.antt =====
-- Kernel/lib.c: `memset` and `memcpy` on memory as a map from addresses to bytes.
pub mod Copy
mod Tests
use s_o.Base.{ℕ, zero, suc, ◌+◌, ◌*◌, ◌/◌, ◌%◌, ◌&&◌, ◌==◌, if◌then◌else◌, length, update}

abbrev pub Memory : Type 0
Memory = ℕ → ℕ

-- `while (length--) dst[length] = chr;`
unfoldable pub memset_loop : ℕ → Memory → ℕ → ℕ → Memory
unfolding update
memset_loop zero mem dst chr = mem
memset_loop (suc length) mem dst chr = memset_loop length (update mem (dst + length) chr) dst chr

abbrev pub memset : Memory → ℕ → ℕ → ℕ → Memory
memset mem destination c length = memset_loop length mem destination (c % 256)

-- The `n` last rounds of `for (i = 0; i < length; i++) d[i] = s[i];` from `i` on, by bytes.
unfoldable pub copy_bytes : ℕ → ℕ → Memory → ℕ → ℕ → Memory
unfolding update
copy_bytes zero i mem d s = mem
copy_bytes (suc n) i mem d s = copy_bytes n (i + 1) (update mem (d + i) (mem (s + i))) d s

-- One assignment of a `uint32_t`: four bytes are read, then written.
unfoldable pub copy_word : Memory → ℕ → ℕ → Memory
unfolding update
copy_word mem d s =
    update (update (update (update mem d (mem s)) (d + 1) (mem (s + 1))) (d + 2) (mem (s + 2)))
      (d + 3) (mem (s + 3))

-- The loop by words.
unfoldable pub copy_words : ℕ → ℕ → Memory → ℕ → ℕ → Memory
unfolding copy_word
copy_words zero i mem d s = mem
copy_words (suc n) i mem d s = copy_words n (i + 1) (copy_word mem (d + 4 * i) (s + 4 * i)) d s

unfoldable pub memcpy : Memory → ℕ → ℕ → ℕ → Memory
unfolding copy_bytes copy_words
memcpy mem destination source length =
    if destination % 4 == 0 && source % 4 == 0 && length % 4 == 0
    then copy_words (length / 4) 0 mem destination source
    else copy_bytes length 0 mem destination source
