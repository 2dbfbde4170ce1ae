-- ===== src/Modules/Tests.antt =====
-- A kernel and two modules, packed and loaded.
use s_o.Base.{ℕ, ◌+◌, ◌-◌, ◌*◌, ◌≡◌, refl, ap, inl, List, [], ◌∷◌, arith, length, get_or}
use s_o.KernelLib.{Memory}
use s_o.Modules.Load.{Placed, Loaded, load_modules-pack}
use s_o.Modules.{build_image, load_modules, pack}
use s_o.Modules.Image.{Holds}

abbrev tiny_kernel : List ℕ
tiny_kernel = 1 ∷ 2 ∷ 3 ∷ []

abbrev two_modules : List (List ℕ)
two_modules = (10 ∷ 20 ∷ 30 ∷ 40 ∷ []) ∷ (50 ∷ []) ∷ []

abbrev booted : Memory
booted = λ a. get_or (build_image tiny_kernel two_modules) (a - 4096) 0

-- `moduleAddresses`
abbrev addresses : ℕ → ℕ
addresses = λ i. 4194304 + 1048576 * i

image_length : length (build_image tiny_kernel two_modules) ≡ 20
unfolding build_image pack
image_length = refl

booted-Holds : Holds booted 4096 (build_image tiny_kernel two_modules)
booted-Holds k lt =
    let e : 4096 + k - 4096 ≡ k = omega arith in
    ap (λ i. get_or (build_image tiny_kernel two_modules) i 0) e

addresses-Placed :
    Placed 4096 (length (build_image tiny_kernel two_modules)) addresses 0 two_modules
addresses-Placed = rw image_length (
  omega arith,
  inl (omega arith),
  (inl (omega arith), refl),
  (omega arith, inl (omega arith), refl, refl),
)

load_modules-pack_example :
    Loaded (load_modules 0 booted (4096 + 3) addresses).mem addresses 0 two_modules
load_modules-pack_example =
    load_modules-pack 0 4096 booted addresses tiny_kernel two_modules (omega arith) booted-Holds
      addresses-Placed
