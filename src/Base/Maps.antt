-- ===== src/Base/Maps.antt =====
-- Total maps from addresses: the fields of the structs that lie in memory.
use Prim.Native.Nat.{ℕ}
use mathlib.Core.Path.{◌≡◌}
use mathlib.Core.Logic.{◌≢◌}
use s_o.Base.Tests.{◌==◌, if◌then◌else◌, ==_refl, ==_of_ne}

-- A write at one address.
unfoldable pub update {ℓ} : {A : Type ℓ} → (ℕ → A) → ℕ → A → ℕ → A
update f p v a = if a == p then v else f a

pub update_self {ℓ} : {A : Type ℓ} (f : ℕ → A) (p : ℕ) (v : A) → update f p v p ≡ v
unfolding update
update_self f p v = rw (==_refl p)

pub update-ne {ℓ} : {A : Type ℓ} (f : ℕ → A) (p : ℕ) (v : A) (a : ℕ) → a ≢ p → update f p v a ≡ f a
unfolding update
update-ne f p v a h = rw (==_of_ne a p h)
