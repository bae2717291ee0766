-- ===== src/Utxo/Cycle.antt =====
-- The second half of `process_pending_payment` of blockstream.rs: sweep, credit, removal.
use crypto_payment_detector.Base.{
  ◌≤◌, ◌≡◌, ◌∙◌, Bool, true, false, Option, none, some, List, [], ◌∷◌, arith, if◌then◌else◌, inl,
  inr, ◌⊎◌,
}
use crypto_payment_detector.Base.Text.{Text, same, same→≡, same_refl}
use crypto_payment_detector.Base.Maps.{mem}
use crypto_payment_detector.Base.Float.{Float}
use crypto_payment_detector.Types.Payments.{DetectedPayment, PendingPayment}
use crypto_payment_detector.Error.Defs.{Result}
use crypto_payment_detector.Error.Exec.{pure, after_lem}
use crypto_payment_detector.Utxo.State.{Detector, World, Machine}
use crypto_payment_detector.Utxo.Credit.{
  event_key, is_id, is_credited, remove_event, maybe_sweep, notify_credited, drop_event, settle,
  with_sweep, is_deferred,
}
use crypto_payment_detector.Utxo.Quiet.{
  has_event, Quiet, Quiet-refl, persist_state-Quiet, maybe_sweep-Quiet,
}
use crypto_payment_detector.Utxo.Progress.{
  threshold, settled, Progress, Quiet-Progress, Progress-trans,
}
use crypto_payment_detector.Utxo.Once.{Settles, notify_credited-Settles, with_sweep_id}

is_id_both :
    (k key : Text) (o : Option Text) → is_id k o ≡ true → is_id key o ≡ true → same key k ≡ true
unfolding is_id
is_id_both k key none h i = cc
is_id_both k key (some j) h i = rw (← same→≡ j k h, ← same→≡ j key i) (same_refl j)

module _ {F : Type 0} where
  has_event-remove_event :
      (k key : Text) (ps : List (PendingPayment F))
      → has_event k ps ≡ true
      → (has_event k (remove_event key ps) ≡ true) ⊎ (same key k ≡ true)
  unfolding has_event remove_event
  has_event-remove_event k key [] h = cc
  has_event-remove_event k key (p ∷ ps) h =
      ground (arith, has_event-remove_event k key ps, is_id_both k key p.payment.event_id)

module _ {F : Type 0} (fl : Float F) (w : World F) (d : Detector F) where
  settled_self :
      (k : Text) (entry : PendingPayment F) (marks : List Text)
      → same (event_key entry) k ≡ true
      → is_credited marks entry ≡ true
      → settled k (entry ∷ []) marks ≡ true
  unfolding settled
  settled_self k entry marks h i = ground arith

  removed_Progress :
      (entry : PendingPayment F) (m : Machine F)
      → is_credited m.shared.notified_confirmed entry ≡ true
      → Progress d (entry ∷ []) m (record m {
        shared = record (m.shared) { pending = remove_event (event_key entry) m.shared.pending };
      })
  removed_Progress entry m c = record {
    sound = λ s. record { distinct = s.distinct; marked = s.marked; confirmed = s.confirmed };
    grown = λ k h. h;
    kept = λ k h. elim (has_event-remove_event k (event_key entry) m.shared.pending h) [
      | inl e ↦ inl e
      | inr e ↦ inr (settled_self k entry _ e c)
    ];
  }

  -- An entry that is credited may leave the outbox.
  drop_event-Progress :
      (entry : PendingPayment F) (m : Machine F)
      → is_credited m.shared.notified_confirmed entry ≡ true
      → Progress d (entry ∷ []) m (drop_event fl w d (event_key entry) m).1
  unfolding drop_event
  drop_event-Progress entry m c =
      Progress-trans d _ m _ _ (removed_Progress entry m c)
        (Quiet-Progress d _ _ _ ((persist_state-Quiet w).at _))

  credited_after :
      (entry : PendingPayment F) (m a : Machine F) (b : Bool)
      → Quiet m a
      → is_credited m.shared.notified_confirmed entry ≡ b
      → is_credited a.shared.notified_confirmed entry ≡ b
  credited_after entry m a b q h = rw q.unmarked h

  key_unmarked :
      (entry : PendingPayment F) (marks : List Text)
      → is_credited marks entry ≡ false
      → mem (event_key entry) marks ≡ false
  unfolding is_credited
  key_unmarked entry marks h = ground arith

  -- The credit, unless the entry was credited before.
  credit_unless :
      (entry : PendingPayment F) (p : DetectedPayment F) (m : Machine F) (already : Bool)
      → p.event_id ≡ some (event_key entry)
      → threshold d ≤ p.confirmations
      → is_credited m.shared.notified_confirmed entry ≡ already
      → Settles fl w d entry m
          ((if already then pure tt else notify_credited fl w d (event_key entry) p) m)
  credit_unless entry p m true e h c = record {
    progress = Quiet-Progress d _ m m (Quiet-refl m);
    done = λ _. c;
  }
  credit_unless entry p m false e h c =
      notify_credited-Settles fl w d entry p m e h (key_unmarked entry _ c)

  drop_unless :
      (entry : PendingPayment F) (m : Machine F) (deferred : Bool)
      → is_credited m.shared.notified_confirmed entry ≡ true
      → Progress d
          (entry ∷ [])
          m
          ((if deferred then pure tt else drop_event fl w d (event_key entry)) m).1
  drop_unless entry m true c = Quiet-Progress d _ m m (Quiet-refl m)
  drop_unless entry m false c = drop_event-Progress entry m c

  After : PendingPayment F → Machine F → Result (Unit {0}) × Machine F → Type 0
  After entry m x = Progress d (entry ∷ []) m x.1

  pub settle-Progress :
      (entry : PendingPayment F) (p : DetectedPayment F) (m : Machine F) (already : Bool)
      → p.event_id ≡ some (event_key entry)
      → threshold d ≤ p.confirmations
      → is_credited m.shared.notified_confirmed entry ≡ already
      → Progress d (entry ∷ []) m (settle fl w d (event_key entry) already p m).1
  unfolding settle After
  settle-Progress entry p m already e h c =
      let swept = maybe_sweep fl w d p.derivation_index p.address m in
      let q = (maybe_sweep-Quiet fl w d p.derivation_index p.address).at m in
      Progress-trans d _ m swept.1 _ (Quiet-Progress d _ m _ q) (
        after_lem swept _ (After entry swept.1)
          (λ sweep i.
            let same_id = with_sweep_id fl w d sweep p in
            let x =
              credit_unless entry (with_sweep fl w d sweep p) swept.1 already (same_id.0 ∙ e)
                (rw same_id.1 h) (credited_after entry m _ already q c) in
            after_lem _ _ (After entry swept.1)
              (λ u j.
                Progress-trans d _ _ _ _ x.progress
                  (drop_unless entry _ (is_deferred fl w d sweep) (x.done j)))
              (λ y j. x.progress))
          (λ y i. Quiet-Progress d _ _ _ (Quiet-refl _)))
