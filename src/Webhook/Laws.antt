-- ===== src/Webhook/Laws.antt =====
-- webhook.rs: what the endpoint's answers make of one delivery.
use crypto_payment_detector.Base.{
  ℕ, zero, suc, ◌+◌, ◌≤◌, ◌<◌, ◌≡◌, refl, sym, ◌∙◌, Bool, true, false, not, ◌&&◌, if◌then◌else◌,
  arith, Bool-cases, inl, inr,
}
use native.Mathlib.Decide.{ℕ_discrete}
use crypto_payment_detector.Error.Defs.{DetectorError, Result, ok, err}
use crypto_payment_detector.Webhook.{
  Response, status, failed, is_success, is_final, Delivery, judge, attempts, send_webhook,
}

-- An answer after which another request may be made.
unfoldable pub is_retryable : Response → Bool
is_retryable (status n) = not (is_success n) && not (is_final n)
is_retryable (failed e) = true

-- The result of a delivery that ends with this answer.
unfoldable pub verdict : (Response → DetectorError) → Response → Result (Unit {0})
verdict error_of (status n) = if is_success n then ok tt else err (error_of (status n))
verdict error_of (failed e) = err (error_of (failed e))

module _ (answer : ℕ → Response) (error_of : Response → DetectorError) where
  -- A delivery that started after `done` requests and had `left` to make; `final` is its last one.
  pub record IsDelivery (done left : ℕ) (d : Delivery) : Type 0 where
    pub final : ℕ
    pub counted : d.requests ≡ suc final
    pub some_made : done ≤ final
    pub bounded : final < done + left
    pub retried : (i : ℕ) → done ≤ i → i < final → is_retryable (answer i) ≡ true
    pub ended : final + 1 < done + left → is_retryable (answer final) ≡ false
    pub result : d.result ≡ verdict error_of (answer final)

  -- The rest of the loop, which makes no request if none is left.
  Rest : ℕ → ℕ → Delivery → Type 0
  Rest done zero d = (d.requests ≡ suc done) × (d.result ≡ err (error_of (answer done)))
  Rest done (suc left) d = IsDelivery (suc done) (suc left) d

  last_try :
      (done left : ℕ) (d : Delivery)
      → is_retryable (answer done) ≡ true
      → verdict error_of (answer done) ≡ err (error_of (answer done))
      → Rest done left d
      → IsDelivery done (suc left) d
  unfolding Rest
  last_try done zero d again e (n, r) = record {
    final = done;
    counted = n;
    some_made = omega arith;
    bounded = omega arith;
    retried = λ i lo hi. absurd (omega arith);
    ended = λ h. absurd (omega arith);
    result = r ∙ sym e;
  }
  last_try done (suc left) d again e h = record {
    final = h.final;
    counted = h.counted;
    some_made = let i = h.some_made in omega arith;
    bounded = let i = h.bounded in omega arith;
    retried = λ i lo hi. elim (ℕ_discrete i done) [
      | yes here ↦ rw here again
      | no later ↦ h.retried i (omega arith) hi
    ];
    ended = λ i. h.ended (omega arith);
    result = h.result;
  }

  last_made :
      (done left : ℕ) (r : Result (Unit {0}))
      → is_retryable (answer done) ≡ false
      → r ≡ verdict error_of (answer done)
      → IsDelivery done (suc left) (record { result = r; requests = suc done })
  last_made done left r finished e = record {
    final = done;
    counted = refl;
    some_made = omega arith;
    bounded = omega arith;
    retried = λ i lo hi. absurd (omega arith);
    ended = λ h. finished;
    result = e;
  }

  judge-IsDelivery :
      (done left : ℕ) (d : Delivery) (r : Response)
      → answer done ≡ r
      → Rest done left d
      → IsDelivery done (suc left) (judge (error_of (answer done)) done d r)
  unfolding judge is_retryable verdict
  judge-IsDelivery done left d (status n) e h = elim (Bool-cases (is_success n)) [
    | inl s ↦ rw s (last_made done left (ok tt) (rw e (rw s refl)) (rw e (rw s refl)))
    | inr s ↦ rw s (elim (Bool-cases (is_final n)) [
      | inl f ↦ rw f (last_made done left _ (rw e (rw s (rw f refl))) (rw e (rw s refl)))
      | inr f ↦ rw f (last_try done left d (rw e (rw s (rw f refl))) (rw e (rw s refl)) h)
    ])
  ]
  judge-IsDelivery done left d (failed t) e h = last_try done left d (rw e refl) (rw e refl) h

  attempts-IsDelivery :
      (left done : ℕ) (last : DetectorError)
      → IsDelivery done (suc left) (attempts answer error_of (suc left) done last)
  unfolding attempts Rest
  attempts-IsDelivery zero done last = judge-IsDelivery done zero _ (answer done) refl (refl, refl)
  attempts-IsDelivery (suc left) done last =
      judge-IsDelivery done (suc left) _ (answer done) refl
        (attempts-IsDelivery left (suc done) (error_of (answer done)))

  -- A delivery makes one to three requests. Each but the last was answered by a retryable response
  -- (none, 408, 429, or a status that is neither success nor a client error), it stops before the
  -- third only at an answer that is not retryable, and the last answer decides its result.
  pub send_webhook-IsDelivery : IsDelivery 0 3 (send_webhook answer error_of)
  unfolding send_webhook
  send_webhook-IsDelivery = attempts-IsDelivery 2 0 (error_of (answer 0))
