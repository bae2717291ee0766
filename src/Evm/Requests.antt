-- ===== src/Evm/Requests.antt =====
-- `with_rpc_retry` of ethereum.rs, which repeats one request to one node.
use native.Mathlib.Decide.{ℕ_discrete}
use crypto_payment_detector.Base.{
  ℕ, zero, suc, ◌+◌, ◌≤◌, ◌<◌, ◌≡◌, refl, Bool, true, false, ◌&&◌, ◌||◌, Option, none, some, [],
  ◌∷◌, if◌then◌else◌, ltb, any, arith,
}
use crypto_payment_detector.Base.Text.{text, contains, to_ascii_lowercase}
use crypto_payment_detector.Error.Defs.{DetectorError, Result, ok, err}
use crypto_payment_detector.Error.Display.{fmt}

unfoldable pub is_rpc_rate_limit_error : DetectorError → Bool
unfolding fmt
is_rpc_rate_limit_error error =
    let msg = to_ascii_lowercase (fmt error) in
    any (λ part. contains part msg)
      (text "over rate limit"
        ∷ text "rate limit"
        ∷ text "rate-limit"
        ∷ text "rate limited"
        ∷ text "-32016"
        ∷ text "-32005"
        ∷ text "request limit exceeded"
        ∷ text "too many requests"
        ∷ text "429"
        ∷ text "503 service"
        ∷ text "502 bad gateway"
        ∷ text "connection reset"
        ∷ text "connection refused"
        ∷ [])

unfoldable pub is_retryable_rpc_error : DetectorError → Bool
unfolding fmt is_rpc_rate_limit_error
is_retryable_rpc_error error =
    let msg = to_ascii_lowercase (fmt error) in
    is_rpc_rate_limit_error error
    || any (λ part. contains part msg)
        (text "returned null"
          ∷ text "unexpected end of file"
          ∷ text "error reading a body"
          ∷ text "timed out"
          ∷ text "timeout"
          ∷ text "connection closed"
          ∷ text "broken pipe"
          ∷ text "504"
          ∷ [])

abbrev pub max_attempts : ℕ
max_attempts = 3

module _ {A : Type 0} (answer : ℕ → Result A) where
  -- What the answer of one attempt does; the wait before the next is left out.
  unfoldable pub after_attempt : ℕ → Result A → Option (Result A) → Option (Result A)
  unfolding is_retryable_rpc_error
  after_attempt attempt (ok value) next = some (ok value)
  after_attempt attempt (err error) next =
      if ltb (attempt + 1) max_attempts && is_retryable_rpc_error error
      then next
      else some (err error)

  -- The attempts that are left, from the number `attempt` on; `none` where the source panics.
  unfoldable pub attempts_from : ℕ → ℕ → Option (Result A)
  unfolding after_attempt
  attempts_from attempt zero = none
  attempts_from attempt (suc left) =
      after_attempt attempt (answer attempt) (attempts_from (suc attempt) left)

  unfoldable pub with_rpc_retry : Option (Result A)
  unfolding attempts_from
  with_rpc_retry = attempts_from 0 max_attempts

  -- The attempt whose answer is returned, from the number `from` on.
  pub record Settles (from : ℕ) (result : Option (Result A)) : Type 0 where
    pub last : ℕ
    pub starts : from ≤ last
    pub bounded : last < max_attempts
    pub returned : result ≡ some (answer last)
    pub before :
        (j : ℕ)
        → from ≤ j
        → j < last
        → (e : DetectorError) × (answer j ≡ err e) × (is_retryable_rpc_error e ≡ true)
    pub final :
        (e : DetectorError)
        → answer last ≡ err e
        → last + 1 < max_attempts
        → is_retryable_rpc_error e ≡ false

  stop :
      (attempt : ℕ) (x : Result A)
      → attempt < max_attempts
      → answer attempt ≡ x
      → ((e : DetectorError)
          → x ≡ err e
          → attempt + 1 < max_attempts
          → is_retryable_rpc_error e ≡ false)
      → Settles attempt (some x)
  stop attempt x lt h f = record {
    last = attempt;
    starts = omega arith;
    bounded = lt;
    returned = rw h refl;
    before = λ j l u. absurd (omega arith);
    final = λ e q i. let t : x ≡ err e = cc in f e t i;
  }

  go_on :
      (attempt : ℕ) (e : DetectorError) (next : Option (Result A))
      → answer attempt ≡ err e
      → is_retryable_rpc_error e ≡ true
      → Settles (suc attempt) next
      → Settles attempt next
  go_on attempt e next h t s = record {
    last = s.last;
    starts = let l = s.starts in omega arith;
    bounded = s.bounded;
    returned = s.returned;
    before = λ j l u. elim (ℕ_discrete j attempt) [
      | yes q ↦ (e, rw q h, t)
      | no q ↦ s.before j (omega arith) u
    ];
    final = s.final;
  }

  judge_if :
      (attempt : ℕ) (e : DetectorError) (next : Option (Result A)) (early retryable : Bool)
      → attempt < max_attempts
      → answer attempt ≡ err e
      → ltb (attempt + 1) max_attempts ≡ early
      → is_retryable_rpc_error e ≡ retryable
      → (attempt + 1 < max_attempts → Settles (suc attempt) next)
      → Settles attempt (if early && retryable then next else some (err e))
  judge_if attempt e next true true lt h p q k =
      let early : attempt + 1 < max_attempts = ground arith in go_on attempt e next h q (k early)
  judge_if attempt e next true false lt h p q k =
      stop attempt (err e) lt h (λ x r i. let t : e ≡ x = ground arith in rw (← t) q)
  judge_if attempt e next false retryable lt h p q k =
      stop attempt (err e) lt h (λ x r i. absurd (ground arith))

  judge :
      (attempt : ℕ) (x : Result A) (next : Option (Result A))
      → attempt < max_attempts
      → answer attempt ≡ x
      → (attempt + 1 < max_attempts → Settles (suc attempt) next)
      → Settles attempt (after_attempt attempt x next)
  unfolding after_attempt
  judge attempt (ok a) next lt h k = stop attempt (ok a) lt h (λ e q i. absurd (ground arith))
  judge attempt (err e) next lt h k =
      judge_if attempt e next (ltb (attempt + 1) max_attempts) (is_retryable_rpc_error e) lt h refl
        refl k

  attempts_from-Settles :
      (left attempt : ℕ)
      → attempt + left ≡ max_attempts
      → attempt < max_attempts
      → Settles attempt (attempts_from attempt left)
  unfolding attempts_from
  attempts_from-Settles zero attempt h lt = absurd (omega arith)
  attempts_from-Settles (suc left) attempt h lt =
      judge attempt (answer attempt) (attempts_from (suc attempt) left) lt refl
        (λ early. attempts_from-Settles left (suc attempt) (omega arith) (omega arith))

  -- A request is repeated until it is answered, at most three times: what is returned is the answer of
  -- one attempt, every attempt before it met an error that may pass, and if it is an error itself,
  -- then of the last attempt or one that is not worth repeating. The end of the loop is not reached.
  pub with_rpc_retry-Settles : Settles 0 with_rpc_retry
  unfolding with_rpc_retry
  with_rpc_retry-Settles = attempts_from-Settles max_attempts 0 refl (omega arith)
