-- ===== src/Prelude/Maps.antt =====
-- Go maps, arrays and the fields of objects in memory, as functions of the key, index or address.
use Prim.Native.Nat.{ℕ}
use mathlib.Core.Path.{◌≡◌}
use mathlib.Core.Logic.{◌≢◌}
use mathlib.Core.Bool.{true, false}
use native.Mathlib.Omega.{arith}
use red_lease.Prelude.Tests.{◌==◌, if◌then◌else◌}

-- `m[k] = v`
abbrev pub update {ℓ} : {A : Type ℓ} → (ℕ → A) → ℕ → A → ℕ → A
update m k v j = if j == k then v else m j

pub ==_refl : (a : ℕ) → (a == a) ≡ true
==_refl a = ground arith

pub ==-true : (a b : ℕ) → a ≡ b → (a == b) ≡ true
==-true a b h = ground arith

pub ==-false : (a b : ℕ) → a ≢ b → (a == b) ≡ false
==-false a b h = ground arith

module _ {ℓ} {A : Type ℓ} (m : ℕ → A) (k : ℕ) (v : A) where
  pub update_self : update m k v k ≡ v
  update_self = ground arith

  pub update_ne : (j : ℕ) → j ≢ k → update m k v j ≡ m j
  update_ne j h = ground arith
