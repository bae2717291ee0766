-- ===== src/Utxo/Aggregate.antt =====
-- `aggregate_utxo_payments` of blockstream.rs: one payment for each recipient of a transaction,
-- with the sum of its outputs.
use crypto_payment_detector.Base.{
  ◌+◌, ◌≤◌, ◌≡◌, Bool, not, ◌&&◌, any, refl, ◌∙◌, some, List, [], ◌∷◌, All, arith, if◌then◌else◌,
  inl, inr, Bool-cases, ◌==◌, u64_max,
}
use crypto_payment_detector.Base.Text.{Text, same, same_refl}
use crypto_payment_detector.Base.Float.{Float}
use crypto_payment_detector.Types.Payments.{DetectedPayment}
use crypto_payment_detector.Utxo.Outbox.{
  key_of_payment, merge_entry, aggregate_from, values, aggregate_utxo_payments,
}
use crypto_payment_detector.Utxo.Merge.{
  paid, Entries, IsEntry, total, total-merge_entry, merge_entry-IsEntry,
}

module _ {F : Type 0} (fl : Float F) where
  -- The amounts of one batch fit a `u64`, whichever recipient they are summed for.
  abbrev pub FitsU64 : List (DetectedPayment F) → Type 0
  FitsU64 ps = (k : Text) → paid k ps ≤ u64_max

  key-named :
      (p : DetectedPayment F)
      → key_of_payment (record p { event_id = some (key_of_payment p) }) ≡ key_of_payment p
  unfolding key_of_payment
  key-named p = refl

  abbrev named : DetectedPayment F → DetectedPayment F
  named p = record p { event_id = some (key_of_payment p) }

  -- A payment that fits adds its amount to the entry of its key, and to no other.
  total_step :
      (j : Text) (p : DetectedPayment F) (ps : List (DetectedPayment F)) (es : Entries F)
      → total (key_of_payment p) es + paid (key_of_payment p) (p ∷ ps) ≤ u64_max
      → total j (merge_entry fl (key_of_payment p) (named p) es)
        ≡ (if same (key_of_payment p) j then p.amount_sat else 0) + total j es
  unfolding paid
  total_step j p ps es h =
      let key = key_of_payment p in
      total-merge_entry fl j key (named p) es (ground (arith, same_refl key))

  total-aggregate_from :
      (k : Text) (ps : List (DetectedPayment F)) (es : Entries F)
      → ((j : Text) → total j es + paid j ps ≤ u64_max)
      → total k (aggregate_from fl ps es) ≡ total k es + paid k ps
  unfolding aggregate_from paid
  total-aggregate_from k [] es h = omega arith
  total-aggregate_from k (p ∷ ps) es h = elim (Bool-cases (p.amount_sat == 0)) [
    | inl nothing ↦
        rw nothing (total-aggregate_from k ps es (λ j. ground (arith, h j)) ∙ ground arith)
    | inr more ↦
        let key = key_of_payment p in
        let step = λ (j : Text). total_step j p ps es (h key) in
        rw more (
          total-aggregate_from k ps (merge_entry fl key (named p) es)
            (λ j. rw (step j) (omega (arith, h j)))
          ∙ rw (step k) (omega arith))
  ]

  aggregate_from-IsEntry :
      (ps : List (DetectedPayment F)) (es : Entries F)
      → All IsEntry es
      → All IsEntry (aggregate_from fl ps es)
  unfolding aggregate_from
  aggregate_from-IsEntry [] es a = a
  aggregate_from-IsEntry (p ∷ ps) es a = elim (Bool-cases (p.amount_sat == 0)) [
    | inl nothing ↦ rw nothing (aggregate_from-IsEntry ps es a)
    | inr more ↦ rw more (
        aggregate_from-IsEntry ps _
          (merge_entry-IsEntry fl (key_of_payment p) (named p) es (key-named p) refl a))
  ]

  -- The batch has an output of more than nothing for the key.
  unfoldable pub is_paid : Text → List (DetectedPayment F) → Bool
  is_paid k ps = any (λ p. not (p.amount_sat == 0) && same (key_of_payment p) k) ps

module _ {F : Type 0} where
  paid-values : (k : Text) (es : Entries F) → All IsEntry es → paid k (values es) ≡ total k es
  unfolding paid values total
  paid-values k [] a = refl
  paid-values k ((j, p) ∷ es) a = rw (a.0.0, paid-values k es a.1)

module _ {F : Type 0} (fl : Float F) where
  -- Where no sum overflows, each recipient of a transaction is paid the sum of its outputs.
  pub paid-aggregate_utxo_payments :
      (ps : List (DetectedPayment F)) (k : Text)
      → FitsU64 fl ps
      → paid k (aggregate_utxo_payments fl ps) ≡ paid k ps
  unfolding aggregate_utxo_payments total
  paid-aggregate_utxo_payments ps k h =
      paid-values k _ (aggregate_from-IsEntry fl ps [] tt)
      ∙ total-aggregate_from fl k ps [] (λ j. omega (arith, h j))
      ∙ omega arith
