-- ===== src/Utxo/Progress.antt =====
-- What a run of the credit cycle of blockstream.rs may do to the acknowledged credits, the marks
-- and the outbox.
use crypto_payment_detector.Base.{
  ℕ, ◌≤◌, ◌≡◌, sym, subst, Bool, true, false, ◌&&◌, List, [], ◌∷◌, any, All, arith, inl, inr, ◌⊎◌,
  unwrap_or, max,
}
use crypto_payment_detector.Base.Text.{Text, same}
use crypto_payment_detector.Base.Maps.{mem}
use crypto_payment_detector.Types.Payments.{DetectedPayment, PendingPayment}
use crypto_payment_detector.Utxo.State.{Detector, Machine}
use crypto_payment_detector.Utxo.Credit.{event_key, is_credited}
use crypto_payment_detector.Utxo.Quiet.{has_event, credited_payments, Quiet}

abbrev pub Distinct : List Text → Type 0
Distinct [] = Unit
Distinct (k ∷ ks) = (mem k ks ≡ false) × Distinct ks

module _ {F : Type 0} where
  -- The event ids of acknowledged credits, newest first.
  abbrev pub credit_ids : List (DetectedPayment F) → List Text
  credit_ids [] = []
  credit_ids (p ∷ ps) = unwrap_or p.txid p.event_id ∷ credit_ids ps

  abbrev pub credits : Machine F → List (DetectedPayment F)
  credits m = credited_payments m.acknowledged

  abbrev pub threshold : Detector F → ℕ
  threshold d = max d.config.min_confirmations 1

  -- No event id was credited twice, each one credited is marked, and each credited payment had its
  -- confirmations.
  pub record IsSound (d : Detector F) (m : Machine F) : Type 0 where
    pub distinct : Distinct (credit_ids (credits m))
    pub marked :
        (k : Text)
        → mem k (credit_ids (credits m)) ≡ true
        → mem k m.shared.notified_confirmed ≡ true
    pub confirmed : All (λ p. threshold d ≤ p.confirmations) (credits m)

  -- An entry of `es` under the event id `k` is marked as credited, by that id or by its txid.
  unfoldable pub settled : Text → List (PendingPayment F) → List Text → Bool
  settled k es marks = any (λ e. same (event_key e) k && is_credited marks e) es

  -- Processing the entries `es`: soundness stays, marks stay, and an event leaves the outbox only
  -- if it is settled.
  pub record Progress (d : Detector F) (es : List (PendingPayment F)) (m m' : Machine F)
      : Type 0 where
    pub sound : IsSound d m → IsSound d m'
    pub grown :
        (k : Text)
        → mem k m.shared.notified_confirmed ≡ true
        → mem k m'.shared.notified_confirmed ≡ true
    pub kept :
        (k : Text)
        → has_event k m.shared.pending ≡ true
        → (has_event k m'.shared.pending ≡ true)
          ⊎ (settled k es m'.shared.notified_confirmed ≡ true)

  pub is_credited_mono :
      (a b : List Text) (e : PendingPayment F)
      → ((k : Text) → mem k a ≡ true → mem k b ≡ true)
      → is_credited a e ≡ true
      → is_credited b e ≡ true
  unfolding is_credited
  is_credited_mono a b e g h = ground (arith, g (event_key e), g e.payment.txid)

  pub settled_mono :
      (k : Text) (es : List (PendingPayment F)) (a b : List Text)
      → ((j : Text) → mem j a ≡ true → mem j b ≡ true)
      → settled k es a ≡ true
      → settled k es b ≡ true
  unfolding settled
  settled_mono k [] a b g h = h
  settled_mono k (e ∷ es) a b g h =
      ground (arith, is_credited_mono a b e g, settled_mono k es a b g)

  -- Soundness only depends on the credits and the marks.
  pub IsSound-transfer :
      (d : Detector F) (m m' : Machine F)
      → credits m' ≡ credits m
      → m'.shared.notified_confirmed ≡ m.shared.notified_confirmed
      → IsSound d m
      → IsSound d m'
  IsSound-transfer d m m' c n s = record {
    distinct = subst (λ l. Distinct (credit_ids l)) (sym c) s.distinct;
    marked = λ k h. rw n (s.marked k (rw c at h));
    confirmed = subst (All (λ p. threshold d ≤ p.confirmations)) (sym c) s.confirmed;
  }

  pub Quiet-Progress :
      (d : Detector F) (es : List (PendingPayment F)) (m m' : Machine F)
      → Quiet m m'
      → Progress d es m m'
  Quiet-Progress d es m m' q = record {
    sound = IsSound-transfer d m m' q.credited q.unmarked;
    grown = λ k h. rw q.unmarked h;
    kept = λ k h. inl (q.kept k h);
  }

  kept_through :
      (k : Text) (es : List (PendingPayment F)) (b c : Machine F)
      → ((j : Text)
          → mem j b.shared.notified_confirmed ≡ true
          → mem j c.shared.notified_confirmed ≡ true)
      → (has_event k b.shared.pending ≡ true
          → (has_event k c.shared.pending ≡ true)
            ⊎ (settled k es c.shared.notified_confirmed ≡ true))
      → (has_event k b.shared.pending ≡ true) ⊎ (settled k es b.shared.notified_confirmed ≡ true)
      → (has_event k c.shared.pending ≡ true) ⊎ (settled k es c.shared.notified_confirmed ≡ true)
  kept_through k es b c g h (inl e) = h e
  kept_through k es b c g h (inr e) = inr (settled_mono k es _ _ g e)

  pub Progress-trans :
      (d : Detector F) (es : List (PendingPayment F)) (a b c : Machine F)
      → Progress d es a b
      → Progress d es b c
      → Progress d es a c
  Progress-trans d es a b c h k = record {
    sound = λ s. k.sound (h.sound s);
    grown = λ j e. k.grown j (h.grown j e);
    kept = λ j e. kept_through j es b c k.grown (k.kept j) (h.kept j e);
  }
