-- ===== src/Base/Maps.antt =====
-- `HashSet<String>` as a list without repeats, `HashMap` as an association list. The source never
-- depends on their order, except where a model says so.
use Prim.Native.Nat.{ℕ}
use mathlib.Core.Path.{◌≡◌, ap}
use mathlib.Core.Bool.{Bool, true, false, ◌||◌}
use mathlib.Core.Option.{Option, none, some}
use mathlib.Core.List.{List, [], ◌∷◌}
use native.Mathlib.Omega.{arith}
use crypto_payment_detector.Base.Tests.{◌==◌, if◌then◌else◌, ==→≡}
use crypto_payment_detector.Base.Text.{Text, same, same→≡, same_refl}

-- Membership of a text.
unfoldable pub mem : Text → List Text → Bool
mem k [] = false
mem k (x ∷ xs) = same k x || mem k xs

unfoldable pub insert : Text → List Text → List Text
insert k xs = if mem k xs then xs else k ∷ xs

pub mem-insert : (j k : Text) (xs : List Text) → mem j (insert k xs) ≡ (same j k || mem j xs)
unfolding insert mem
mem-insert j k xs = ground (arith, same→≡ j k)

pub mem-insert_self : (k : Text) (xs : List Text) → mem k (insert k xs) ≡ true
mem-insert_self k xs = ground (arith, mem-insert k k xs, same_refl k)

pub mem-insert_mono : (j k : Text) (xs : List Text) → mem j xs ≡ true → mem j (insert k xs) ≡ true
mem-insert_mono j k xs h = ground (arith, mem-insert j k xs)

same_test : (p : ℕ → Bool) (j i : ℕ) → (j == i) ≡ true → p j ≡ p i
same_test p j i h = ap p (==→≡ j i h)

module _ {ℓ} {V : Type ℓ} where
  abbrev pub lookup : ℕ → List (ℕ × V) → Option V
  lookup k [] = none
  lookup k ((j, v) ∷ m) = if k == j then some v else lookup k m

  abbrev pub remove : ℕ → List (ℕ × V) → List (ℕ × V)
  remove k [] = []
  remove k ((j, v) ∷ m) = if k == j then remove k m else (j, v) ∷ remove k m

  abbrev pub put : ℕ → V → List (ℕ × V) → List (ℕ × V)
  put k v m = (k, v) ∷ remove k m

  -- `retain(|&k, _| p(k))`
  abbrev pub retain_keys : (ℕ → Bool) → List (ℕ × V) → List (ℕ × V)
  retain_keys p [] = []
  retain_keys p ((j, v) ∷ m) = if p j then (j, v) ∷ retain_keys p m else retain_keys p m

  pub lookup-remove :
      (j k : ℕ) (m : List (ℕ × V)) → lookup j (remove k m) ≡ (if j == k then none else lookup j m)
  lookup-remove j k [] = ground arith
  lookup-remove j k ((i, v) ∷ m) = ground (arith, lookup-remove j k m)

  pub lookup-put :
      (j k : ℕ) (v : V) (m : List (ℕ × V))
      → lookup j (put k v m) ≡ (if j == k then some v else lookup j m)
  lookup-put j k v m = ground (arith, lookup-remove j k m)

  pub lookup-retain_keys :
      (p : ℕ → Bool) (j : ℕ) (m : List (ℕ × V))
      → lookup j (retain_keys p m) ≡ (if p j then lookup j m else none)
  lookup-retain_keys p j [] = ground arith
  lookup-retain_keys p j ((i, v) ∷ m) = ground (arith, lookup-retain_keys p j m, same_test p j i)
