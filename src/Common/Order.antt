-- ===== src/Common/Order.antt =====
-- What a comparison function owes: the laws of a linear order whose `eq` is equality.
use Prim.Native.Nat.{compare, Ordering}
use Prim.Native.Nat.Ordering.{lt, eq}
use mathlib.Core.Path.{◌≡◌}
use native.Mathlib.Omega.{arith}
use samad_package_manager.Common.Tests.{flip}

pub record IsLinear {ℓ} {A : Type ℓ} (cmp : A → A → Ordering) : Type ℓ where
  pub cmp_refl : (a : A) → cmp a a ≡ eq
  pub eq_of_cmp : (a b : A) → cmp a b ≡ eq → a ≡ b
  pub cmp_flip : (a b : A) → cmp b a ≡ flip (cmp a b)
  pub lt_trans : (a b c : A) → cmp a b ≡ lt → cmp b c ≡ lt → cmp a c ≡ lt

-- The laws of a comparison that may call different values equal.
pub record IsPreorder {ℓ} {A : Type ℓ} (cmp : A → A → Ordering) : Type ℓ where
  pub cmp_refl : (a : A) → cmp a a ≡ eq
  pub cmp_flip : (a b : A) → cmp b a ≡ flip (cmp a b)
  pub cmp_congr : (a b c : A) → cmp a b ≡ eq → cmp a c ≡ cmp b c
  pub lt_trans : (a b c : A) → cmp a b ≡ lt → cmp b c ≡ lt → cmp a c ≡ lt

pub compare-IsLinear : IsLinear compare
compare-IsLinear = ground arith
