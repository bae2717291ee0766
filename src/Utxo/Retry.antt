-- ===== src/Utxo/Retry.antt =====
-- `retry` of blockstream.rs, which repeats one request to one explorer.
use crypto_payment_detector.Base.{ℕ, zero, suc, ◌+◌, ◌≤◌, ◌<◌, ◌≡◌, refl, Option, none, some, arith}
use native.Mathlib.Decide.{ℕ_discrete}
use crypto_payment_detector.Error.Defs.{DetectorError, Result, ok, err}

module _ {A : Type 0} (answer : ℕ → Result A) where
  -- `Err(last_err.unwrap())`, which panics on `None`.
  unfoldable pub give_up : Option DetectorError → Option (Result A)
  give_up none = none
  give_up (some e) = some (err e)

  -- What the answer of one attempt does; the wait before the next is left out.
  unfoldable pub keep_trying : Result A → (DetectorError → Option (Result A)) → Option (Result A)
  keep_trying (ok a) next = some (ok a)
  keep_trying (err e) next = next e

  -- The attempts that are left, from the number `attempt` on.
  unfoldable pub retry_from : ℕ → ℕ → Option DetectorError → Option (Result A)
  unfolding give_up keep_trying
  retry_from attempt zero last_err = give_up last_err
  retry_from attempt (suc left) last_err =
      keep_trying (answer attempt) (λ e. retry_from (suc attempt) left (some e))

  -- `none` where the source panics.
  unfoldable pub retry : ℕ → Option (Result A)
  unfolding retry_from
  retry max_retries = retry_from 0 max_retries none

  -- The first attempt that succeeds decides, and if there is none, the last one does.
  pub data Decides (from to : ℕ) : Result A → Type 0 where
    succeeded :
        (i : ℕ) (a : A)
        → from ≤ i
        → i < to
        → answer i ≡ ok a
        → ((j : ℕ) → from ≤ j → j < i → (e : DetectorError) × (answer j ≡ err e))
        → Decides from to (ok a)
    failed :
        (i : ℕ) (e : DetectorError)
        → i + 1 ≡ to
        → answer i ≡ err e
        → ((j : ℕ) → from ≤ j → j < to → (e' : DetectorError) × (answer j ≡ err e'))
        → Decides from to (err e)

  Decides-earlier :
      (from to : ℕ) (e : DetectorError) (r : Result A)
      → answer from ≡ err e
      → Decides (suc from) to r
      → Decides from to r
  Decides-earlier from to e r h (succeeded i a lo hi s before) =
      succeeded i a (omega arith) hi s (λ j l u. elim (ℕ_discrete j from) [
        | yes t ↦ (e, rw t h)
        | no t ↦ before j (omega arith) u
      ])
  Decides-earlier from to e r h (failed i y last s before) =
      failed i y last s (λ j l u. elim (ℕ_discrete j from) [
        | yes t ↦ (e, rw t h)
        | no t ↦ before j (omega arith) u
      ])

  only_try :
      (attempt : ℕ) (x : Result A)
      → answer attempt ≡ x
      → (r : Result A) × (keep_trying x (λ e. give_up (some e)) ≡ some r)
        × Decides attempt (attempt + 1) r
  unfolding keep_trying give_up
  only_try attempt (ok a) h = (
    ok a,
    refl,
    succeeded attempt a (omega arith) (omega arith) h (λ j l u. absurd (omega arith)),
  )
  only_try attempt (err e) h = (
    err e,
    refl,
    failed attempt e refl h (λ j l u. let t : j ≡ attempt = omega arith in (e, rw t h)),
  )

  next_try :
      (attempt to : ℕ) (x : Result A) (next : DetectorError → Option (Result A))
      → attempt < to
      → answer attempt ≡ x
      → ((e : DetectorError) → (r : Result A) × (next e ≡ some r) × Decides (suc attempt) to r)
      → (r : Result A) × (keep_trying x next ≡ some r) × Decides attempt to r
  unfolding keep_trying
  next_try attempt to (ok a) next lt h k =
      (ok a, refl, succeeded attempt a (omega arith) lt h (λ j l u. absurd (omega arith)))
  next_try attempt to (err e) next lt h k =
      let (r, q, w) = k e in (r, q, Decides-earlier attempt to e r h w)

  retry_from-Decides :
      (left attempt to : ℕ) (last : Option DetectorError)
      → attempt + suc left ≡ to
      → (r : Result A) × (retry_from attempt (suc left) last ≡ some r) × Decides attempt to r
  unfolding retry_from
  retry_from-Decides zero attempt to last h =
      let t : to ≡ attempt + 1 = omega arith in rw t (only_try attempt (answer attempt) refl)
  retry_from-Decides (suc left) attempt to last h =
      next_try attempt to (answer attempt) _ (omega arith) refl
        (λ e. retry_from-Decides left (suc attempt) to (some e) (omega arith))

  -- With no retries configured `retry` panics. With `n + 1` configured it returns: the first success if one
  -- of the allowed attempts succeeds, where all before it failed, and otherwise the error of the last
  -- attempt.
  pub retry-Decides :
      (n : ℕ) → (retry 0 ≡ none) × (r : Result A) × (retry (suc n) ≡ some r) × Decides 0 (suc n) r
  unfolding retry give_up
  retry-Decides n =
      let (r, e, h) = retry_from-Decides n 0 (suc n) none (omega arith) in (refl, r, e, h)
