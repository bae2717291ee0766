-- ===== src/Evm/Once.antt =====
-- Exactly one credit: `process_credit_entry` and `process_credits` of ethereum.rs.
use crypto_payment_detector.Base.{
  ℕ, ◌+◌, ◌≤◌, ◌≡◌, refl, sym, subst, ◌∙◌, true, false, Option, none, some, List, ◌∷◌, arith, inl,
  inr, max, All, Bool-cases, if◌then◌else◌,
}
use crypto_payment_detector.Base.Text.{Text, same, text}
use crypto_payment_detector.Base.Maps.{mem, insert, mem-insert, mem-insert_mono, mem-insert_self}
use crypto_payment_detector.Base.Float.{Float}
use crypto_payment_detector.Types.Payments.{DetectedPayment, payment_credited}
use crypto_payment_detector.Error.Defs.{Result, ok, err}
use crypto_payment_detector.Error.Exec.{
  pure, attempt, after, after_lem, OnOk, OnOk-at, OnOk-pure, OnOk-bind, OnOk-any, Follows, ◌>>=◌,
}
use crypto_payment_detector.Utxo.Quiet.{credited_payments}
use crypto_payment_detector.Utxo.Progress.{Distinct, credit_ids}
use crypto_payment_detector.Evm.Chain.{Ethers}
use crypto_payment_detector.Evm.State.{
  EthereumDetector, EthereumPendingPayment, EthereumState, native, World, Machine, Action,
  SweepResult, modify_shared,
}
use crypto_payment_detector.Evm.Events.{
  is_known_event, credit, while_crediting, await_point, persist_state,
}
use crypto_payment_detector.Evm.Amounts.{token_peg_currency}
use crypto_payment_detector.Evm.Announce.{
  pending_to_webhook, with_price, get_price, peg_to_configured_fiat_rate, enrich_pegged,
  enrich_ether, enrich_fiat, delivered, post, send_webhook,
}
use crypto_payment_detector.Evm.Credit.{confirmations_at, notify_credited}
use crypto_payment_detector.Evm.Known.{credit-Keeps}
use crypto_payment_detector.Evm.Quiet.{Own, Quiet, quiet_walk, persist_state-Quiet}
use crypto_payment_detector.Evm.Steps.{enrich_fiat-Quiet}

module _ {F : Type 0} (fl : Float F) (eth : Ethers F) (w : World F) (d : EthereumDetector F) where
  abbrev pub threshold : ℕ
  threshold = max d.config.min_confirmations 1

  abbrev pub credits_of : Machine F → List (DetectedPayment F)
  credits_of m = credited_payments m.acknowledged

  -- No event id was credited twice, each one credited is marked, each credited payment had its
  -- confirmations, and every transfer is of a kind that the detector may make.
  pub record IsSound (m : Machine F) : Type 0 where
    pub distinct : Distinct (credit_ids (credits_of m))
    pub marked :
        (k : Text)
        → mem k (credit_ids (credits_of m)) ≡ true
        → mem k m.shared.credited_events ≡ true
    pub confirmed : All (λ p. threshold ≤ p.confirmations) (credits_of m)
    pub own : Own fl eth w d m

  -- Soundness stays, marks stay, and no event is forgotten.
  pub record Progress (m m' : Machine F) : Type 0 where
    pub sound : IsSound m → IsSound m'
    pub grown :
        (k : Text) → mem k m.shared.credited_events ≡ true → mem k m'.shared.credited_events ≡ true
    pub known : (k : Text) → is_known_event m.shared k ≡ true → is_known_event m'.shared k ≡ true

  pub Progress-trans : (a b c : Machine F) → Progress a b → Progress b c → Progress a c
  Progress-trans a b c h i = record {
    sound = λ s. i.sound (h.sound s);
    grown = λ k j. i.grown k (h.grown k j);
    known = λ k j. i.known k (h.known k j);
  }

  pub quiet : (m m' : Machine F) → Quiet fl eth w d m m' → Progress m m'
  quiet m m' q = record {
    sound = λ s. record {
      distinct = subst (λ l. Distinct (credit_ids l)) (sym q.credited) s.distinct;
      marked = λ k h. rw q.leaves.unmarked (s.marked k (rw q.credited at h));
      confirmed = subst (All (λ p. threshold ≤ p.confirmations)) (sym q.credited) s.confirmed;
      own = q.own s.own;
    };
    grown = λ k h. rw q.leaves.unmarked h;
    known = q.leaves.known;
  }

  pub quietly : {A : Type 0} {a : Action F A} → Follows (Quiet fl eth w d) a → Follows Progress a
  quietly h = record { at = λ m. quiet m _ (h.at m) }

  fresh :
      (key : Text) (m : Machine F)
      → IsSound m
      → mem key m.shared.credited_events ≡ false
      → mem key (credit_ids (credits_of m)) ≡ false
  fresh key m s h = elim (Bool-cases (mem key (credit_ids (credits_of m)))) [
    | inl e ↦ absurd (ground (arith, s.marked key e))
    | inr e ↦ e
  ]

  marks_cover :
      (k key : Text) (ids marks : List Text)
      → (mem k ids ≡ true → mem k marks ≡ true)
      → mem k (key ∷ ids) ≡ true
      → mem k (insert key marks) ≡ true
  unfolding mem
  marks_cover k key ids marks g h = ground (arith, g, mem-insert k key marks)

  -- The acknowledged credit and its mark.
  abbrev marked_machine : DetectedPayment F → Text → Machine F → ℕ → Machine F
  marked_machine p key m n = record m {
    shared = credit key m.shared;
    acknowledged = payment_credited p ∷ m.acknowledged;
    clock = n;
  }

  mark-Progress :
      (p : DetectedPayment F) (key : Text) (m : Machine F) (n : ℕ)
      → p.event_id ≡ some key
      → threshold ≤ p.confirmations
      → mem key m.shared.credited_events ≡ false
      → Progress m (marked_machine p key m n)
  unfolding credit credited_payments
  mark-Progress p key m n e c f = record {
    sound = λ s. record {
      distinct = (rw e (fresh key m s f), s.distinct);
      marked = λ k h.
          marks_cover k key (credit_ids (credits_of m)) m.shared.credited_events (s.marked k)
            (rw e at h);
      confirmed = (c, s.confirmed);
      own = s.own;
    };
    grown = λ k h. mem-insert_mono k key m.shared.credited_events h;
    known = (credit-Keeps eth native key m.shared).known;
  }

  marked_self : (key : Text) (s : EthereumState) → mem key (credit key s).credited_events ≡ true
  unfolding credit
  marked_self key s = mem-insert_self key s.credited_events

  Progress-clock : (m : Machine F) (n : ℕ) → Progress m (record m { clock = n })
  Progress-clock m n = record {
    sound = λ s. record {
      distinct = s.distinct;
      marked = s.marked;
      confirmed = s.confirmed;
      own = s.own;
    };
    grown = λ k h. h;
    known = λ k h. h;
  }

  -- A credit that succeeds has marked its event.
  pub record Credits (key : Text) (m : Machine F) (x : Result (Unit {0}) × Machine F) : Type 0 where
    pub progress : Progress m x.1
    pub done : x.0 ≡ ok tt → mem key x.1.shared.credited_events ≡ true

  after_quiet :
      (key : Text) (m a : Machine F) (x : Result (Unit {0}) × Machine F)
      → Progress m a
      → Credits key a x
      → Credits key m x
  after_quiet key m a x h c = record {
    progress = Progress-trans m a x.1 h c.progress;
    done = c.done;
  }

  saved :
      (key : Text) (m : Machine F)
      → mem key m.shared.credited_events ≡ true
      → Credits key m (persist_state eth w m)
  saved key m h =
      let q = (persist_state-Quiet fl eth w d).at m in
      record { progress = quiet m _ q; done = λ i. rw q.leaves.unmarked h }

  -- The mark goes on the credit that was acknowledged just before.
  posted :
      (p : DetectedPayment F) (key : Text) (n : ℕ) (r : Result (Unit {0})) (m : Machine F)
      → p.event_id ≡ some key
      → threshold ≤ p.confirmations
      → mem key m.shared.credited_events ≡ false
      → Credits key m (
          after
            (delivered fl eth w d (payment_credited p) n r m)
            (λ u. (modify_shared (credit key) >>= λ v. persist_state eth w)))
  unfolding delivered
  posted p key n (ok u) m e c f =
      let a = marked_machine p key m (m.clock + n) in
      after_quiet key m a (persist_state eth w a) (mark-Progress p key m (m.clock + n) e c f)
        (saved key a (marked_self key m.shared))
  posted p key n (err x) m e c f = record {
    progress = Progress-clock m (m.clock + n);
    done = λ i. absurd (ground arith);
  }

  -- The price changes neither the event nor its confirmations.
  SamePayment : DetectedPayment F → DetectedPayment F → Machine F → Type 0
  SamePayment p q m = (q.event_id ≡ p.event_id) × (q.confirmations ≡ p.confirmations)

  with_price-SamePayment :
      (p : DetectedPayment F) (r : Result F) (m : Machine F)
      → SamePayment p (with_price fl eth w d p r) m
  unfolding SamePayment with_price
  with_price-SamePayment p (ok price) m = (refl, refl)
  with_price-SamePayment p (err e) m = (refl, refl)

  enrich_pegged-SamePayment :
      (p : DetectedPayment F) (o : Option Text) (m : Machine F)
      → OnOk (SamePayment p) (enrich_pegged fl eth w d p o m)
  unfolding enrich_pegged SamePayment
  enrich_pegged-SamePayment p none m = OnOk-pure _ _ _ (refl, refl)
  enrich_pegged-SamePayment p (some peg) m =
      let x = attempt (peg_to_configured_fiat_rate fl eth w d peg) m in
      OnOk-bind x (λ rate. pure (with_price fl eth w d p rate)) _ _ (OnOk-any x)
        λ rate s u. OnOk-pure (SamePayment p) _ s (with_price-SamePayment p rate s)

  enrich_fiat-SamePayment :
      (p : DetectedPayment F) (m : Machine F) → OnOk (SamePayment p) (enrich_fiat fl eth w d p m)
  unfolding enrich_fiat enrich_ether SamePayment
  enrich_fiat-SamePayment p m = elim (Bool-cases (same p.ticker (text "ETH"))) [
    | inl e ↦
        let x = attempt (get_price fl eth w d) m in
        rw e (
          OnOk-bind x (λ price. pure (with_price fl eth w d p price)) _ _ (OnOk-any x)
            λ price s u. OnOk-pure (SamePayment p) _ s (with_price-SamePayment p price s))
    | inr e ↦ rw e (enrich_pegged-SamePayment p (token_peg_currency p.ticker) m)
  ]

  send_credit-Credits :
      (p : DetectedPayment F) (key : Text) (m : Machine F)
      → p.event_id ≡ some key
      → threshold ≤ p.confirmations
      → mem key m.shared.credited_events ≡ false
      → Credits key m (
          after
            (send_webhook fl eth w d (payment_credited p) m)
            (λ u. (modify_shared (credit key) >>= λ v. persist_state eth w)))
  unfolding send_webhook post await_point
  send_credit-Credits p key m e c f =
      let q = (quiet_walk fl eth w d).waits.at m in
      let a = (await_point eth w while_crediting m).1 in
      after_quiet key m a _ (quiet m a q) (posted p key _ _ a e c (rw q.leaves.unmarked f))

  confirmed_at :
      (entry : EthereumPendingPayment) (block amount : ℕ) (o : Option SweepResult)
      → threshold ≤ confirmations_at block entry.block_number
      → threshold ≤ (pending_to_webhook fl eth w d entry block o amount).confirmations
  unfolding confirmations_at pending_to_webhook
  confirmed_at entry block amount o h = ground arith

  event_of :
      (entry : EthereumPendingPayment) (block amount : ℕ) (o : Option SweepResult)
      → (pending_to_webhook fl eth w d entry block o amount).event_id ≡ some entry.event_id
  unfolding pending_to_webhook
  event_of entry block amount o = refl

  pub notify_credited-Credits :
      (entry : EthereumPendingPayment) (block amount : ℕ) (sweep : SweepResult) (m : Machine F)
      → threshold ≤ confirmations_at block entry.block_number
      → mem entry.event_id m.shared.credited_events ≡ false
      → Credits entry.event_id m (notify_credited fl eth w d entry block amount sweep m)
  unfolding notify_credited SamePayment
  notify_credited-Credits entry block amount sweep m c f =
      let o = if sweep.deferred then none else some sweep in
      let p = pending_to_webhook fl eth w d entry block o amount in
      let x = enrich_fiat fl eth w d p m in
      let q = (enrich_fiat-Quiet fl eth w d p).at m in
      after_lem x _ (Credits entry.event_id m)
        (λ payment i.
          let kept = OnOk-at x _ payment i (enrich_fiat-SamePayment p m) in
          after_quiet entry.event_id m x.1 _ (quiet m x.1 q) (
            send_credit-Credits payment entry.event_id x.1 (kept.0 ∙ event_of entry block amount o)
              (rw kept.1 (confirmed_at entry block amount o c)) (rw q.leaves.unmarked f)))
        (λ y i. record { progress = quiet m x.1 q; done = λ j. absurd (ground arith) })
