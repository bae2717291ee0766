-- ===== src/Utxo/Once.antt =====
-- Exactly one credit: `process_pending_payment` and `process_confirmed` of blockstream.rs.
use crypto_payment_detector.Base.{
  ℕ, ◌≤◌, ◌≡◌, refl, ◌∙◌, true, false, Option, none, some, List, [], ◌∷◌, arith, inl, inr, ◌⊎◌,
  Bool-cases,
}
use crypto_payment_detector.Base.Text.{Text}
use crypto_payment_detector.Base.Maps.{mem, insert, mem-insert, mem-insert_mono, mem-insert_self}
use crypto_payment_detector.Base.Float.{Float}
use crypto_payment_detector.Types.Payments.{DetectedPayment, payment_credited, PendingPayment}
use crypto_payment_detector.Error.Defs.{DetectorError, Result, ok, err}
use crypto_payment_detector.Error.Exec.{after, after_lem, ◌>>◌}
use crypto_payment_detector.BitcoinSweep.{BitcoinSweepResult}
use crypto_payment_detector.Utxo.State.{Detector, World, Machine, modify_shared}
use crypto_payment_detector.Utxo.Outbox.{persist_state, await_point}
use crypto_payment_detector.Utxo.Credit.{
  event_key, is_credited, delivered, send_webhook, get_price, notify_credited, with_sweep,
  with_price,
}
use crypto_payment_detector.Utxo.Quiet.{
  credited_payments, Moves, Quiet, Quiet-then, Quiet-trans, persist_state-Quiet, await_point-Quiet,
  get_price-Quiet,
}
use crypto_payment_detector.Utxo.Progress.{
  credit_ids, credits, threshold, IsSound, Progress, Quiet-Progress, Progress-trans,
}

module _ {F : Type 0} (fl : Float F) (w : World F) (d : Detector F) where
  -- The credit of `p` was acknowledged and the action returned `Ok`, or it failed and credited
  -- nothing.
  abbrev pub Sends : DetectedPayment F → Machine F → Result (Unit {0}) × Machine F → Type 0
  Sends p m x =
      ((x.0 ≡ ok tt) × Moves (p ∷ []) m x.1) ⊎ ((e : DetectorError) × (x.0 ≡ err e) × Quiet m x.1)

  delivered_credit :
      (p : DetectedPayment F) (n : ℕ) (r : Result (Unit {0})) (m : Machine F)
      → Sends p m (delivered fl w d (payment_credited p) n r m)
  unfolding delivered credited_payments
  delivered_credit p n (ok u) m =
      inl (refl, record { unmarked = refl; credited = refl; kept = λ k h. h })
  delivered_credit p n (err e) m =
      inr (e, refl, record { unmarked = refl; credited = refl; kept = λ k h. h })

  Sends-after :
      (p : DetectedPayment F) (m a : Machine F) (x : Result (Unit {0}) × Machine F)
      → Quiet m a
      → Sends p a x
      → Sends p m x
  Sends-after p m a x q (inl (r, h)) = inl (r, Quiet-then (p ∷ []) m a x.1 q h)
  Sends-after p m a x q (inr (e, r, h)) = inr (e, r, Quiet-trans m a x.1 q h)

  pub send_credit :
      (p : DetectedPayment F) (m : Machine F)
      → Sends p m (send_webhook fl w d (payment_credited p) m)
  unfolding send_webhook
  send_credit p m =
      after_lem (await_point w m) _ (Sends p m)
        (λ u e. Sends-after p m _ _ ((await_point-Quiet w).at m) (delivered_credit p _ _ _))
        (λ x e. inr (x, refl, (await_point-Quiet w).at m))

  -- The mark goes on the credit that was acknowledged just before.
  mark : Text → Machine F → Machine F
  mark key m = record m {
    shared = record (m.shared) { notified_confirmed = insert key m.shared.notified_confirmed };
  }

  credits_distinct :
      (p : DetectedPayment F) (key : Text) (m m' : Machine F)
      → IsSound d m
      → p.event_id ≡ some key
      → mem key m.shared.notified_confirmed ≡ false
      → Moves (p ∷ []) m m'
      → mem key (credit_ids (credits m)) ≡ false
  credits_distinct p key m m' s e fresh v = elim (Bool-cases (mem key (credit_ids (credits m)))) [
    | inl there ↦ absurd (ground (arith, s.marked key there))
    | inr gone ↦ gone
  ]

  marks_cover :
      (k key : Text) (ids marks : List Text)
      → (mem k ids ≡ true → mem k marks ≡ true)
      → mem k (key ∷ ids) ≡ true
      → mem k (insert key marks) ≡ true
  unfolding mem
  marks_cover k key ids marks g h = ground (arith, mem-insert k key marks)

  marked_Progress :
      (entry : PendingPayment F) (p : DetectedPayment F) (m m' : Machine F)
      → p.event_id ≡ some (event_key entry)
      → threshold d ≤ p.confirmations
      → mem (event_key entry) m.shared.notified_confirmed ≡ false
      → Moves (p ∷ []) m m'
      → Progress d (entry ∷ []) m (mark (event_key entry) m')
  unfolding mark
  marked_Progress entry p m m' e h fresh v = record {
    sound = λ s. record {
      distinct = rw (v.credited, e) (credits_distinct p _ m m' s e fresh v, s.distinct);
      marked = λ k h.
          marks_cover k (event_key entry) (credit_ids (credits m)) _
            (λ i. rw v.unmarked (s.marked k i)) (rw (v.credited, e) at h);
      confirmed = rw v.credited (h, s.confirmed);
    };
    grown = λ k h. mem-insert_mono k _ _ (rw v.unmarked h);
    kept = λ k h. inl (v.kept k h);
  }

  pub is_credited_mark :
      (entry : PendingPayment F) (marks : List Text)
      → is_credited (insert (event_key entry) marks) entry ≡ true
  unfolding is_credited
  is_credited_mark entry marks = ground (arith, mem-insert_self (event_key entry) marks)

  -- What the steps that may credit `entry` come to: progress, and on success the entry is credited.
  pub record Settles (entry : PendingPayment F) (m : Machine F) (x : Result (Unit {0}) × Machine F)
      : Type 0 where
    pub progress : Progress d (entry ∷ []) m x.1
    pub done : x.0 ≡ ok tt → is_credited x.1.shared.notified_confirmed entry ≡ true

  saved_Settles :
      (entry : PendingPayment F) (m a : Machine F)
      → Progress d (entry ∷ []) m a
      → is_credited a.shared.notified_confirmed entry ≡ true
      → Settles entry m (persist_state w a)
  saved_Settles entry m a h c =
      let q = (persist_state-Quiet w).at a in
      record {
        progress = Progress-trans d _ m a _ h (Quiet-Progress d _ a _ q);
        done = λ e. rw q.unmarked c;
      }

  sent_Settles :
      (entry : PendingPayment F) (p : DetectedPayment F) (m : Machine F)
      (x : Result (Unit {0}) × Machine F)
      → p.event_id ≡ some (event_key entry)
      → threshold d ≤ p.confirmations
      → mem (event_key entry) m.shared.notified_confirmed ≡ false
      → Sends p m x
      → Settles entry m (
          after x (λ _.
            modify_shared
              (λ s. record s { notified_confirmed = insert (event_key entry) s.notified_confirmed })
            >> persist_state w))
  unfolding mark
  sent_Settles entry p m (ok u, m') e h fresh (inl (r, v)) =
      saved_Settles entry m (mark (event_key entry) m') (marked_Progress entry p m m' e h fresh v)
        (is_credited_mark entry _)
  sent_Settles entry p m (err x, m') e h fresh (inl (r, v)) = absurd (ground arith)
  sent_Settles entry p m (ok u, m') e h fresh (inr (x, r, v)) = absurd (ground arith)
  sent_Settles entry p m (err y, m') e h fresh (inr (x, r, v)) = record {
    progress = Quiet-Progress d _ m m' v;
    done = λ i. absurd (ground arith);
  }

  pub with_price_id :
      (r : Result F) (p : DetectedPayment F)
      → ((with_price fl w d r p).event_id ≡ p.event_id)
        × ((with_price fl w d r p).confirmations ≡ p.confirmations)
  unfolding with_price
  with_price_id (ok x) p = (refl, refl)
  with_price_id (err e) p = (refl, refl)

  pub with_sweep_id :
      (r : Option BitcoinSweepResult) (p : DetectedPayment F)
      → ((with_sweep fl w d r p).event_id ≡ p.event_id)
        × ((with_sweep fl w d r p).confirmations ≡ p.confirmations)
  unfolding with_sweep
  with_sweep_id none p = (refl, refl)
  with_sweep_id (some r) p = ground arith

  Settles-after :
      (entry : PendingPayment F) (m a : Machine F) (x : Result (Unit {0}) × Machine F)
      → Quiet m a
      → Settles entry a x
      → Settles entry m x
  Settles-after entry m a x q h = record {
    progress = Progress-trans d _ m a x.1 (Quiet-Progress d _ m a q) h.progress;
    done = h.done;
  }

  -- A credit that was not marked before: either an error and no credit, or one credit and its mark.
  pub notify_credited-Settles :
      (entry : PendingPayment F) (p : DetectedPayment F) (m : Machine F)
      → p.event_id ≡ some (event_key entry)
      → threshold d ≤ p.confirmations
      → mem (event_key entry) m.shared.notified_confirmed ≡ false
      → Settles entry m (notify_credited fl w d (event_key entry) p m)
  unfolding notify_credited
  notify_credited-Settles entry p m e h fresh =
      let q = (get_price-Quiet fl w d).at m in
      after_lem (get_price fl w d m) _ (Settles entry m)
        (λ r i.
          let priced = with_price fl w d r p in
          let same_id = with_price_id r p in
          Settles-after entry m _ _ q (
            sent_Settles entry priced _ (send_webhook fl w d (payment_credited priced) _)
              (same_id.0 ∙ e) (rw same_id.1 h) (rw q.unmarked fresh) (send_credit priced _)))
        (λ x i. record { progress = Quiet-Progress d _ m _ q; done = λ j. absurd (ground arith) })
