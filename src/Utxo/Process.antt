-- ===== src/Utxo/Process.antt =====
-- The whole credit cycle of blockstream.rs: `process_pending_payment` and `process_confirmed`.
use crypto_payment_detector.Base.{
  ℕ, ◌≡◌, refl, Bool, true, false, not, ◌&&◌, some, List, [], ◌∷◌, arith, if◌then◌else◌, inl, inr,
  Bool-cases, ltb, ltb→le,
}
use crypto_payment_detector.Base.Text.{Text}
use crypto_payment_detector.Base.Float.{Float}
use crypto_payment_detector.Types.Payments.{DetectedPayment, PendingPayment}
use crypto_payment_detector.Error.Defs.{Result}
use crypto_payment_detector.Error.Exec.{pure, after_lem}
use crypto_payment_detector.Utxo.State.{Detector, World, Machine}
use crypto_payment_detector.Utxo.Outbox.{persist_state, await_point}
use crypto_payment_detector.Utxo.Credit.{
  event_key, is_credited, notify_detected, settle, announced, process_from, process_pending_payment,
  process_all, process_confirmed,
}
use crypto_payment_detector.Utxo.Quiet.{
  Quiet, Quiet-refl, persist_state-Quiet, await_point-Quiet, notify_detected-Quiet,
}
use crypto_payment_detector.Utxo.Progress.{
  threshold, settled, Progress, Quiet-Progress, Progress-trans,
}
use crypto_payment_detector.Utxo.Cycle.{settle-Progress}

module _ {F : Type 0} where
  settled-cons :
      (k : Text) (e : PendingPayment F) (es : List (PendingPayment F)) (marks : List Text)
      → settled k es marks ≡ true
      → settled k (e ∷ es) marks ≡ true
  unfolding settled
  settled-cons k e es marks h = ground arith

  settled-head :
      (k : Text) (e : PendingPayment F) (es : List (PendingPayment F)) (marks : List Text)
      → settled k (e ∷ []) marks ≡ true
      → settled k (e ∷ es) marks ≡ true
  unfolding settled
  settled-head k e es marks h = ground arith

  -- More entries in hand only weaken what is said of the outbox.
  widen :
      (d : Detector F) (es fs : List (PendingPayment F)) (m m' : Machine F)
      → ((k : Text) (marks : List Text) → settled k es marks ≡ true → settled k fs marks ≡ true)
      → Progress d es m m'
      → Progress d fs m m'
  widen d es fs m m' g h = record {
    sound = h.sound;
    grown = h.grown;
    kept = λ k i. elim (h.kept k i) [ inl e ↦ inl e | inr e ↦ inr (g k _ e) ];
  }

module _ {F : Type 0} (fl : Float F) (w : World F) (d : Detector F) where
  pub detect_first :
      (entry : PendingPayment F) (p : DetectedPayment F) (m : Machine F) (b : Bool)
      → Quiet m ((if b then notify_detected fl w d (event_key entry) p else pure tt) m).1
  detect_first entry p m true = (notify_detected-Quiet fl w d (event_key entry) p).at m
  detect_first entry p m false = Quiet-refl m

  settle_if_confirmed :
      (entry : PendingPayment F) (p : DetectedPayment F) (m : Machine F) (already : Bool)
      → p.event_id ≡ some (event_key entry)
      → is_credited m.shared.notified_confirmed entry ≡ already
      → Progress d
          (entry ∷ [])
          m
          ((if ltb p.confirmations (threshold d)
              then pure tt
              else settle fl w d (event_key entry) already p)
            m).1
  settle_if_confirmed entry p m already e c =
      elim (Bool-cases (ltb p.confirmations (threshold d))) [
        | inl early ↦ rw early (Quiet-Progress d _ m m (Quiet-refl m))
        | inr late ↦ rw late (settle-Progress fl w d entry p m already e (ltb→le _ _ late) c)
      ]

  After : PendingPayment F → Machine F → Result (Unit {0}) × Machine F → Type 0
  After entry m x = Progress d (entry ∷ []) m x.1

  process_from-Progress :
      (entry : PendingPayment F) (tip : ℕ) (m : Machine F) (already : Bool)
      → is_credited m.shared.notified_confirmed entry ≡ already
      → Progress d (entry ∷ []) m (process_from fl w d entry tip already m).1
  unfolding process_from After announced
  process_from-Progress entry tip m already c =
      let p = announced entry tip in
      let first = not entry.detected_notified && not already in
      let x = (if first then notify_detected fl w d (event_key entry) p else pure tt) m in
      let q = detect_first entry p m first in
      after_lem x _ (After entry m)
        (λ u i.
          Progress-trans d _ m x.1 _ (Quiet-Progress d _ m x.1 q)
            (settle_if_confirmed entry p x.1 already refl (rw q.unmarked c)))
        (λ y i. Quiet-Progress d _ m x.1 q)

  -- One entry, whatever the endpoint, the disk, the explorer and other tasks do, and whether it
  -- succeeds or fails: if no event id was credited twice before, each credited id was marked and
  -- each credited payment had its confirmations, then so it is after; marks stay; and an event that
  -- was in the outbox is still there, unless it is this entry's and marked as credited by its id or
  -- its txid.
  pub process_pending_payment-Progress :
      (entry : PendingPayment F) (tip : ℕ) (m : Machine F)
      → Progress d (entry ∷ []) m (process_pending_payment fl w d entry tip m).1
  unfolding process_pending_payment
  process_pending_payment-Progress entry tip m = process_from-Progress entry tip m _ refl

  process_all-Progress :
      (es : List (PendingPayment F)) (tip : ℕ) (m : Machine F)
      → Progress d es m (process_all fl w d es tip m).1
  unfolding process_all
  process_all-Progress [] tip m = Quiet-Progress d [] m m (Quiet-refl m)
  process_all-Progress (e ∷ es) tip m =
      let m' = (process_pending_payment fl w d e tip m).1 in
      Progress-trans d (e ∷ es) m m' _
        (widen d (e ∷ []) (e ∷ es) m m' (λ k marks. settled-head k e es marks)
          (process_pending_payment-Progress e tip m))
        (widen d es (e ∷ es) m' _ (λ k marks. settled-cons k e es marks)
          (process_all-Progress es tip m'))

  -- One credit cycle, whatever the endpoint, the disk, the explorer and other tasks do, and whether
  -- it succeeds or fails: if no event id was credited twice before, each credited id was marked and
  -- each credited payment had its confirmations, then so it is after; marks stay; and an event that
  -- was in the outbox is still there or is settled, which means that the cycle found it in the
  -- outbox and it is marked as credited by its id or its txid.
  pub process_confirmed-Progress :
      (tip : ℕ) (m : Machine F)
      → let saved = (persist_state w (await_point w m).1).1 in
        Progress d saved.shared.pending m (process_confirmed fl w d tip m).1
  unfolding process_confirmed
  process_confirmed-Progress tip m =
      let waited = (await_point w m).1 in
      let saved = (persist_state w waited).1 in
      let es = saved.shared.pending in
      let q = (persist_state-Quiet w).at waited in
      let q' = (await_point-Quiet w).at m in
      after_lem (await_point w m) _ (λ x. Progress d es m x.1)
        (λ u i. Progress-trans d es m waited _ (Quiet-Progress d es m waited q') (
          after_lem (persist_state w waited) _ (λ x. Progress d es waited x.1)
            (λ v j.
              Progress-trans d es waited saved _ (Quiet-Progress d es waited saved q)
                (process_all-Progress es tip saved))
            (λ y j. Quiet-Progress d es waited saved q)))
        (λ y i. Quiet-Progress d es m waited q')
