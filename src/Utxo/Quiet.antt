-- ===== src/Utxo/Quiet.antt =====
-- The steps of blockstream.rs that credit nothing: saving, waiting, detection webhooks, the price
-- and the sweep leave what is credited alone and lose no entry of the outbox.
use crypto_payment_detector.Base.{
  ℕ, ◌≡◌, refl, ◌∙◌, ap, Bool, true, Option, none, some, List, [], ◌∷◌, ◌++◌, any, arith, inl, inr,
  Bool-cases,
}
use crypto_payment_detector.Base.Text.{Text}
use crypto_payment_detector.Base.Float.{Float}
use crypto_payment_detector.Types.Payments.{
  DetectedPayment, WebhookEvent, payment_detected, payment_credited, PendingPayment,
}
use crypto_payment_detector.Error.Defs.{Result, ok, err}
use crypto_payment_detector.Error.Exec.{Follows, Follows-bind}
use crypto_payment_detector.BitcoinSweep.{BitcoinSweepConfig}
use crypto_payment_detector.Utxo.State.{SharedState, Detector, World, Machine, modify_shared, tick}
use crypto_payment_detector.Utxo.Outbox.{
  key_of_payment, is_known, enqueue_one, enqueue_all, finish_save, persist_state,
  enqueue_or_confirm, others, await_point,
}
use crypto_payment_detector.Utxo.Credit.{
  has_event_id, mark_detected, delivered, sweep_with, send_webhook, maybe_sweep, get_price,
  notify_detected,
}

module _ {F : Type 0} where
  -- The outbox has an entry under this event id.
  unfoldable pub has_event : Text → List (PendingPayment F) → Bool
  has_event key ps = any (has_event_id key) ps

  -- The payments whose credit was acknowledged, newest first.
  unfoldable pub credited_payments : List (WebhookEvent F) → List (DetectedPayment F)
  credited_payments [] = []
  credited_payments (payment_detected p ∷ es) = credited_payments es
  credited_payments (payment_credited p ∷ es) = p ∷ credited_payments es

  -- From `m` to `m'` exactly the payments `new` were credited, none was marked, and no entry left
  -- the outbox.
  pub record Moves (new : List (DetectedPayment F)) (m m' : Machine F) : Type 0 where
    pub unmarked : m'.shared.notified_confirmed ≡ m.shared.notified_confirmed
    pub credited : credited_payments m'.acknowledged ≡ new ++ credited_payments m.acknowledged
    pub kept :
        (k : Text) → has_event k m.shared.pending ≡ true → has_event k m'.shared.pending ≡ true

  abbrev pub Quiet : Machine F → Machine F → Type 0
  Quiet = Moves []

  pub Quiet-then :
      (new : List (DetectedPayment F)) (a b c : Machine F)
      → Quiet a b
      → Moves new b c
      → Moves new a c
  Quiet-then new a b c h k = record {
    unmarked = k.unmarked ∙ h.unmarked;
    credited = k.credited ∙ ap (λ l. new ++ l) h.credited;
    kept = λ key e. k.kept key (h.kept key e);
  }

  pub Quiet-trans : (a b c : Machine F) → Quiet a b → Quiet b c → Quiet a c
  Quiet-trans = Quiet-then []

  pub Quiet-refl : (m : Machine F) → Quiet m m
  Quiet-refl m = record { unmarked = refl; credited = refl; kept = λ k h. h }

  has_event-append :
      (k : Text) (ps qs : List (PendingPayment F))
      → has_event k ps ≡ true
      → has_event k (ps ++ qs) ≡ true
  unfolding has_event
  has_event-append k [] qs h = cc
  has_event-append k (p ∷ ps) qs h = ground (arith, has_event-append k ps qs)

  has_event-enqueue_one :
      (k : Text) (p : DetectedPayment F) (s : SharedState F)
      → has_event k s.pending ≡ true
      → has_event k (enqueue_one p s).pending ≡ true
  unfolding enqueue_one
  has_event-enqueue_one k p s h = elim (Bool-cases (is_known s (key_of_payment p) p)) [
    | inl e ↦ rw e h
    | inr e ↦ rw e (has_event-append k s.pending _ h)
  ]

  notified-enqueue_one :
      (p : DetectedPayment F) (s : SharedState F)
      → (enqueue_one p s).notified_confirmed ≡ s.notified_confirmed
  unfolding enqueue_one
  notified-enqueue_one p s = ground arith

  pub has_event-enqueue_all :
      (k : Text) (ps : List (DetectedPayment F)) (s : SharedState F)
      → has_event k s.pending ≡ true
      → has_event k (enqueue_all ps s).pending ≡ true
  unfolding enqueue_all
  has_event-enqueue_all k [] s h = h
  has_event-enqueue_all k (p ∷ ps) s h =
      has_event-enqueue_all k ps (enqueue_one p s) (has_event-enqueue_one k p s h)

  pub notified-enqueue_all :
      (ps : List (DetectedPayment F)) (s : SharedState F)
      → (enqueue_all ps s).notified_confirmed ≡ s.notified_confirmed
  unfolding enqueue_all
  notified-enqueue_all [] s = refl
  notified-enqueue_all (p ∷ ps) s =
      notified-enqueue_all ps (enqueue_one p s) ∙ notified-enqueue_one p s

  has_event-mark_detected :
      (k key : Text) (ps : List (PendingPayment F))
      → has_event k ps ≡ true
      → has_event k (mark_detected key ps) ≡ true
  unfolding has_event mark_detected
  has_event-mark_detected k key [] h = h
  has_event-mark_detected k key (p ∷ ps) h = ground (arith, has_event-mark_detected k key ps)

module _ {F : Type 0} (w : World F) where
  finish_save-Quiet : (r : Result (Unit {0})) (m : Machine F) → Quiet m (finish_save w r m).1
  unfolding finish_save
  finish_save-Quiet (ok u) m = record { unmarked = refl; credited = refl; kept = λ k h. h }
  finish_save-Quiet (err e) m = record { unmarked = refl; credited = refl; kept = λ k h. h }

  pub persist_state-Quiet : Follows Quiet (persist_state w)
  unfolding persist_state
  persist_state-Quiet = record { at = λ m. finish_save-Quiet (w.save_answer m.clock) m }

  pub enqueue-Quiet : (ps : List (DetectedPayment F)) → Follows Quiet (enqueue_or_confirm w ps)
  unfolding enqueue_or_confirm
  enqueue-Quiet ps =
      Follows-bind Quiet-trans (modify_shared (enqueue_all ps)) (λ _. persist_state w)
        (record {
          at = λ m. record {
            unmarked = notified-enqueue_all ps m.shared;
            credited = refl;
            kept = λ k h. has_event-enqueue_all k ps m.shared h;
          };
        })
        (λ _. persist_state-Quiet)

  pub tick-Quiet : (m : Machine F) → Quiet m (tick m)
  tick-Quiet m = record { unmarked = refl; credited = refl; kept = λ k h. h }

  others-Quiet : (o : Option (List (DetectedPayment F))) (m : Machine F) → Quiet m (others w o m).1
  unfolding others
  others-Quiet none m = tick-Quiet m
  others-Quiet (some ps) m =
      Quiet-trans m (tick m) _ (tick-Quiet m) ((enqueue-Quiet ps).at (tick m))

  pub await_point-Quiet : Follows Quiet (await_point w)
  unfolding await_point
  await_point-Quiet = record { at = λ m. others-Quiet (w.arrivals m.clock) m }

module _ {F : Type 0} (fl : Float F) (w : World F) (d : Detector F) where
  delivered-Quiet :
      (p : DetectedPayment F) (n : ℕ) (r : Result (Unit {0})) (m : Machine F)
      → Quiet m (delivered fl w d (payment_detected p) n r m).1
  unfolding delivered credited_payments
  delivered-Quiet p n (ok u) m = record { unmarked = refl; credited = refl; kept = λ k h. h }
  delivered-Quiet p n (err e) m = record { unmarked = refl; credited = refl; kept = λ k h. h }

  pub send_detected-Quiet :
      (p : DetectedPayment F) → Follows Quiet (send_webhook fl w d (payment_detected p))
  unfolding send_webhook
  send_detected-Quiet p =
      Follows-bind Quiet-trans (await_point w) _ (await_point-Quiet w)
        (λ _. record { at = λ m. delivered-Quiet p _ _ m })

  pub get_price-Quiet : Follows Quiet (get_price fl w d)
  unfolding get_price
  get_price-Quiet =
      Follows-bind Quiet-trans (await_point w) _ (await_point-Quiet w)
        (λ _. record { at = tick-Quiet w })

  pub notify_detected-Quiet :
      (key : Text) (p : DetectedPayment F) → Follows Quiet (notify_detected fl w d key p)
  unfolding notify_detected
  notify_detected-Quiet key p = Follows-bind Quiet-trans _ _ (send_detected-Quiet p) λ _.
      Follows-bind Quiet-trans
        (modify_shared (λ s. record s { pending = mark_detected key s.pending }))
        (λ _. persist_state w)
        (record {
          at = λ m. record {
            unmarked = refl;
            credited = refl;
            kept = λ k h. has_event-mark_detected k key m.shared.pending h;
          };
        })
        (λ _. persist_state-Quiet w)

  sweep_with-Quiet :
      (c : Option (BitcoinSweepConfig F)) (index : ℕ) (address : Text)
      → Follows Quiet (sweep_with fl w d c index address)
  unfolding sweep_with
  sweep_with-Quiet none index address = record { at = λ m. Quiet-refl m }
  sweep_with-Quiet (some c) index address =
      Follows-bind Quiet-trans (await_point w) _ (await_point-Quiet w)
        (λ _. record { at = tick-Quiet w })

  pub maybe_sweep-Quiet :
      (index : ℕ) (address : Text) → Follows Quiet (maybe_sweep fl w d index address)
  unfolding maybe_sweep
  maybe_sweep-Quiet index address = sweep_with-Quiet d.sweep_config index address
