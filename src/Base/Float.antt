-- ===== src/Base/Float.antt =====
-- IEEE doubles, which this library does not define: a type `F` with the operations that the source
-- applies to its `f64` values. Proofs assume no law of them.
use Prim.Native.Nat.{ℕ}
use mathlib.Core.Bool.{Bool}

pub record Float (F : Type 0) : Type 0 where
  -- `n as f64`
  pub of_u64 : ℕ → F
  pub mul : F → F → F
  pub div : F → F → F
  pub lt : F → F → Bool
  pub le : F → F → Bool
  pub is_finite : F → Bool
