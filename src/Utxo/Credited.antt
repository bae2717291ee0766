-- ===== src/Utxo/Credited.antt =====
-- blockstream.rs where the webhook endpoint accepts and the disk writes: an entry of the outbox that
-- has its confirmations is credited, once.
use crypto_payment_detector.Base.{
  ℕ, ◌≤◌, ◌≡◌, refl, ◌∙◌, ap, Bool, true, false, not, ◌&&◌, Option, none, some, List, ◌∷◌, arith,
  if◌then◌else◌, inl, inr, ltb,
}
use crypto_payment_detector.Base.Text.{Text}
use crypto_payment_detector.Base.Maps.{insert}
use crypto_payment_detector.Base.Float.{Float}
use crypto_payment_detector.Types.Payments.{
  DetectedPayment, WebhookEvent, payment_detected, payment_credited, PendingPayment,
}
use crypto_payment_detector.Error.Defs.{DetectorError, Result, ok, err}
use crypto_payment_detector.Error.Exec.{pure, after, after_with, ◌>>◌}
use crypto_payment_detector.Webhook.{
  Response, status, judge, is_success, send_webhook as deliver, attempts,
}
use crypto_payment_detector.BitcoinSweep.{BitcoinSweepConfig, BitcoinSweepResult}
use crypto_payment_detector.Utxo.State.{Detector, World, Machine, modify_shared}
use crypto_payment_detector.Utxo.Outbox.{finish_save, persist_state, others, await_point}
use crypto_payment_detector.Utxo.Credit.{
  event_key, is_credited, delivered, send_webhook, sweep_with, maybe_sweep, get_price,
  notify_detected, notify_credited, drop_event, settle, announced, process_from,
  process_pending_payment, with_sweep, with_price, is_deferred, confirmations_at,
}
use crypto_payment_detector.Utxo.Quiet.{persist_state-Quiet, get_price-Quiet, maybe_sweep-Quiet}
use crypto_payment_detector.Utxo.Progress.{credit_ids, credits, threshold}
use crypto_payment_detector.Utxo.Process.{detect_first}
use crypto_payment_detector.Utxo.Once.{
  Sends, send_credit, with_price_id, with_sweep_id, is_credited_mark,
}

accepted :
    (answer : ℕ → Response) (error_of : Response → DetectorError)
    → answer 0 ≡ status 200
    → (deliver answer error_of).result ≡ ok tt
unfolding deliver attempts judge is_success
accepted answer error_of h = rw h refl

module _ {F : Type 0} (w : World F) where
  -- The endpoint accepts every event and the disk takes every state file.
  pub record IsUp : Type 0 where
    pub accepts : (n : ℕ) → w.webhook_answer n ≡ status 200
    pub saves : (n : ℕ) → w.save_answer n ≡ ok tt

module _ {F : Type 0} (fl : Float F) (w : World F) (d : Detector F) (up : IsUp w) where
  persist_state-ok : (m : Machine F) → (persist_state w m).0 ≡ ok tt
  unfolding persist_state finish_save
  persist_state-ok m = rw (up.saves m.clock) refl

  others-ok : (o : Option (List (DetectedPayment F))) (m : Machine F) → (others w o m).0 ≡ ok tt
  unfolding others
  others-ok none m = refl
  others-ok (some ps) m = refl

  await_point-ok : (m : Machine F) → (await_point w m).0 ≡ ok tt
  unfolding await_point
  await_point-ok m = others-ok _ m

  delivered-ok :
      (e : WebhookEvent F) (n : ℕ) (r : Result (Unit {0})) (m : Machine F)
      → r ≡ ok tt
      → (delivered fl w d e n r m).0 ≡ ok tt
  unfolding delivered
  delivered-ok e n (ok u) m h = refl
  delivered-ok e n (err x) m h = absurd (ground arith)

  send_webhook-ok : (e : WebhookEvent F) (m : Machine F) → (send_webhook fl w d e m).0 ≡ ok tt
  unfolding send_webhook
  send_webhook-ok e m =
      after_with (await_point w m) _ (λ x. x.0 ≡ ok tt) tt (await_point-ok m)
        (delivered-ok e _ _ _ (accepted _ _ (up.accepts _)))

  get_price-Succeeds : (m : Machine F) → (r : Result F) × ((get_price fl w d m).0 ≡ ok r)
  unfolding get_price
  get_price-Succeeds m =
      after_with (await_point w m) _ (λ x. (r : Result F) × (x.0 ≡ ok r)) tt (await_point-ok m)
        (_, refl)

  sweep_with-Succeeds :
      (c : Option (BitcoinSweepConfig F)) (index : ℕ) (address : Text) (m : Machine F)
      → (r : Option BitcoinSweepResult) × ((sweep_with fl w d c index address m).0 ≡ ok r)
  unfolding sweep_with
  sweep_with-Succeeds none index address m = (_, refl)
  sweep_with-Succeeds (some c) index address m =
      after_with (await_point w m) _ (λ x. (r : Option BitcoinSweepResult) × (x.0 ≡ ok r)) tt
        (await_point-ok m) (_, refl)

  maybe_sweep-Succeeds :
      (index : ℕ) (address : Text) (m : Machine F)
      → (r : Option BitcoinSweepResult) × ((maybe_sweep fl w d index address m).0 ≡ ok r)
  unfolding maybe_sweep
  maybe_sweep-Succeeds = sweep_with-Succeeds d.sweep_config

  notify_detected-ok :
      (key : Text) (p : DetectedPayment F) (m : Machine F)
      → (notify_detected fl w d key p m).0 ≡ ok tt
  unfolding notify_detected
  notify_detected-ok key p m =
      after_with (send_webhook fl w d (payment_detected p) m) _ (λ x. x.0 ≡ ok tt) tt
        (send_webhook-ok _ m) (persist_state-ok _)

  -- The action returned `Ok`, the entry is marked, and the credited ids are `ids`.
  record Ends (entry : PendingPayment F) (ids : List Text) (x : Result (Unit {0}) × Machine F)
      : Type 0 where
    pub succeeded : x.0 ≡ ok tt
    pub marked : is_credited x.1.shared.notified_confirmed entry ≡ true
    pub credited : credit_ids (credits x.1) ≡ ids

  saved_Ends :
      (entry : PendingPayment F) (ids : List Text) (m : Machine F)
      → is_credited m.shared.notified_confirmed entry ≡ true
      → credit_ids (credits m) ≡ ids
      → Ends entry ids (persist_state w m)
  saved_Ends entry ids m c e =
      let q = (persist_state-Quiet w).at m in
      record {
        succeeded = persist_state-ok m;
        marked = rw q.unmarked c;
        credited = rw q.credited e;
      }

  -- The credit of an entry that is not marked: one acknowledged event and its mark.
  sent_Ends :
      (entry : PendingPayment F) (p : DetectedPayment F) (ids : List Text) (m : Machine F)
      (x : Result (Unit {0}) × Machine F)
      → p.event_id ≡ some (event_key entry)
      → credit_ids (credits m) ≡ ids
      → x.0 ≡ ok tt
      → Sends fl w d p m x
      → Ends entry (event_key entry ∷ ids) (
          after x (λ _.
            modify_shared
              (λ s. record s { notified_confirmed = insert (event_key entry) s.notified_confirmed })
            >> persist_state w))
  sent_Ends entry p ids m (ok u, m') e c i (inl (r, v)) =
      saved_Ends entry (event_key entry ∷ ids) _ (is_credited_mark fl w d entry _)
        (rw (v.credited, e, c) refl)
  sent_Ends entry p ids m (ok u, m') e c i (inr (y, r, v)) = absurd (ground arith)
  sent_Ends entry p ids m (err y, m') e c i h = absurd (ground arith)

  notify_credited-Ends :
      (entry : PendingPayment F) (p : DetectedPayment F) (m : Machine F)
      → p.event_id ≡ some (event_key entry)
      → Ends entry
          (event_key entry ∷ credit_ids (credits m))
          (notify_credited fl w d (event_key entry) p m)
  unfolding notify_credited
  notify_credited-Ends entry p m e =
      let (r, g) = get_price-Succeeds m in
      let q = (get_price-Quiet fl w d).at m in
      let priced = with_price fl w d r p in
      after_with (get_price fl w d m) _ (Ends entry (event_key entry ∷ credit_ids (credits m))) r g
        (sent_Ends entry priced (credit_ids (credits m)) _
          (send_webhook fl w d (payment_credited priced) _) ((with_price_id fl w d r p).0 ∙ e)
          (ap credit_ids q.credited) (send_webhook-ok _ _) (send_credit fl w d priced _))

  abbrev ids_after : Bool → Text → List Text → List Text
  ids_after already key ids = if already then ids else key ∷ ids

  credit_unless-Ends :
      (entry : PendingPayment F) (p : DetectedPayment F) (m : Machine F) (already : Bool)
      → p.event_id ≡ some (event_key entry)
      → is_credited m.shared.notified_confirmed entry ≡ already
      → Ends entry
          (ids_after already (event_key entry) (credit_ids (credits m)))
          ((if already then pure tt else notify_credited fl w d (event_key entry) p) m)
  credit_unless-Ends entry p m true e c = record { succeeded = refl; marked = c; credited = refl }
  credit_unless-Ends entry p m false e c = notify_credited-Ends entry p m e

  drop_unless-Ends :
      (entry : PendingPayment F) (ids : List Text) (m : Machine F) (deferred : Bool)
      → is_credited m.shared.notified_confirmed entry ≡ true
      → credit_ids (credits m) ≡ ids
      → Ends entry ids ((if deferred then pure tt else drop_event fl w d (event_key entry)) m)
  unfolding drop_event
  drop_unless-Ends entry ids m true c e = record { succeeded = refl; marked = c; credited = e }
  drop_unless-Ends entry ids m false c e = saved_Ends entry ids _ c e

  settle-Ends :
      (entry : PendingPayment F) (p : DetectedPayment F) (m : Machine F) (already : Bool)
      → p.event_id ≡ some (event_key entry)
      → is_credited m.shared.notified_confirmed entry ≡ already
      → Ends entry
          (ids_after already (event_key entry) (credit_ids (credits m)))
          (settle fl w d (event_key entry) already p m)
  unfolding settle
  settle-Ends entry p m already e c =
      let (r, g) = maybe_sweep-Succeeds p.derivation_index p.address m in
      let swept = maybe_sweep fl w d p.derivation_index p.address m in
      let q = (maybe_sweep-Quiet fl w d p.derivation_index p.address).at m in
      let ids = ids_after already (event_key entry) (credit_ids (credits m)) in
      let x =
        credit_unless-Ends entry (with_sweep fl w d r p) swept.1 already
          ((with_sweep_id fl w d r p).0 ∙ e) (rw q.unmarked c) in
      after_with swept _ (Ends entry ids) r g (
        after_with _ _ (Ends entry ids) tt x.succeeded (
          drop_unless-Ends entry ids _ (is_deferred fl w d r) x.marked
            (x.credited ∙ ap (λ l. ids_after already (event_key entry) (credit_ids l)) q.credited)))

  detect_first-ok :
      (key : Text) (p : DetectedPayment F) (m : Machine F) (b : Bool)
      → ((if b then notify_detected fl w d key p else pure tt) m).0 ≡ ok tt
  detect_first-ok key p m true = notify_detected-ok key p m
  detect_first-ok key p m false = refl

  process_from-Ends :
      (entry : PendingPayment F) (tip : ℕ) (m : Machine F) (already : Bool)
      → threshold d ≤ confirmations_at tip entry.block_height
      → is_credited m.shared.notified_confirmed entry ≡ already
      → Ends entry
          (ids_after already (event_key entry) (credit_ids (credits m)))
          (process_from fl w d entry tip already m)
  unfolding process_from announced
  process_from-Ends entry tip m already h c =
      let p = announced entry tip in
      let first = not entry.detected_notified && not already in
      let x = (if first then notify_detected fl w d (event_key entry) p else pure tt) m in
      let q = detect_first fl w d entry p m first in
      let late : ltb (confirmations_at tip entry.block_height) (threshold d) ≡ false =
        ground arith in
      after_with x _ (Ends entry (ids_after already (event_key entry) (credit_ids (credits m)))) tt
        (detect_first-ok (event_key entry) p m first)
        (rw (late, ← q.credited) (settle-Ends entry p x.1 already refl (rw q.unmarked c)))

  -- If the endpoint accepts and the disk writes, whatever the explorer, the price service and the
  -- other task do: an entry with enough confirmations at the tip is processed without error and is
  -- marked after it, and exactly one credit was acknowledged, under its event id, unless it was
  -- marked before; then none was.
  pub process_pending_payment-credits :
      (entry : PendingPayment F) (tip : ℕ) (m : Machine F)
      → threshold d ≤ confirmations_at tip entry.block_height
      → let x = process_pending_payment fl w d entry tip m in
        (x.0 ≡ ok tt)
        × (is_credited x.1.shared.notified_confirmed entry ≡ true)
        × (credit_ids (credits x.1) ≡ (
            if is_credited m.shared.notified_confirmed entry
            then credit_ids (credits m)
            else event_key entry ∷ credit_ids (credits m)))
  unfolding process_pending_payment
  process_pending_payment-credits entry tip m h =
      let x = process_from-Ends entry tip m _ h refl in (x.succeeded, x.marked, x.credited)
