-- ===== src/Modules.antt =====
-- Toolchain/ModulePacker/main.c and Kernel/moduleLoader.c: the image that the packer writes, and how
-- the kernel takes it apart. A file is the list of its bytes.
pub mod Image
pub mod Load
mod Tests
use s_o.Base.{ℕ, zero, suc, ◌+◌, ◌*◌, ◌/◌, ◌%◌, List, [], ◌∷◌, ◌++◌, length}
use s_o.KernelLib.{Memory, memcpy}

abbrev pub Bytes : Type 0
Bytes = List ℕ

-- `fwrite` of a 32-bit number, lowest byte first.
abbrev pub word_bytes : ℕ → Bytes
word_bytes n = n % 256 ∷ n / 256 % 256 ∷ n / 65536 % 256 ∷ n / 16777216 % 256 ∷ []

-- The loop of `buildImage`: `write_size` and `write_file` for each module.
unfoldable pub pack : List Bytes → Bytes
pack [] = []
pack (m ∷ ms) = word_bytes (length m) ++ (m ++ pack ms)

unfoldable pub build_image : Bytes → List Bytes → Bytes
unfolding pack
build_image kernel ms = kernel ++ (word_bytes (length ms) ++ pack ms)

-- `*(uint32_t *) address`
abbrev pub read_uint32 : Memory → ℕ → ℕ
read_uint32 mem a = mem a + 256 * mem (a + 1) + 65536 * mem (a + 2) + 16777216 * mem (a + 3)

-- What the loader keeps: memory, `currentModule` and `endOfModules`.
pub record Loader : Type 0 where
  pub mem : Memory
  pub current : ℕ
  pub end_of_modules : ℕ

unfoldable pub load_module : Loader → ℕ → Loader
load_module l target =
    let size = read_uint32 l.mem l.current in
    record {
      mem = memcpy l.mem target (l.current + 4) size;
      current = l.current + 4 + size;
      end_of_modules = target + size;
    }

-- The `n` last rounds of the loop of `loadModules`, from `i` on.
unfoldable pub load_loop : ℕ → ℕ → (ℕ → ℕ) → Loader → Loader
unfolding load_module
load_loop zero i targets l = l
load_loop (suc n) i targets l = load_loop n (i + 1) targets (load_module l (targets i))

-- Where no module is loaded the result of the source is not initialised: `garbage`.
unfoldable pub load_modules : ℕ → Memory → ℕ → (ℕ → ℕ) → Loader
unfolding load_loop
load_modules garbage mem payload_start targets =
    load_loop (read_uint32 mem payload_start) 0 targets
      (record { mem = mem; current = payload_start + 4; end_of_modules = garbage })
