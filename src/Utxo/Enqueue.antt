-- ===== src/Utxo/Enqueue.antt =====
-- `enqueue_or_confirm` of blockstream.rs: every payment is recorded, and none twice.
use crypto_payment_detector.Base.{
  ◌≡◌, refl, Bool, true, false, ◌||◌, ◌&&◌, some, List, [], ◌∷◌, ◌++◌, any, All, arith, inl, inr,
  Bool-cases, unwrap_or,
}
use crypto_payment_detector.Base.Text.{Text, same, same→≡, same_refl}
use crypto_payment_detector.Types.Payments.{DetectedPayment, PendingPayment}
use crypto_payment_detector.Utxo.State.{SharedState}
use crypto_payment_detector.Utxo.Outbox.{key_of_payment, is_known, enqueue_one, enqueue_all}

module _ {F : Type 0} where
  -- The test of `enqueue_or_confirm` for an entry of the outbox.
  abbrev pub pays : DetectedPayment F → PendingPayment F → Bool
  pays p q = same q.payment.txid p.txid && same q.payment.address p.address

  abbrev new_entry : DetectedPayment F → PendingPayment F
  new_entry p = record {
    payment = record p { event_id = some (key_of_payment p) };
    block_height = unwrap_or 0 p.block_height;
    detected_notified = false;
  }

  enqueue_one_known :
      (p : DetectedPayment F) (s : SharedState F)
      → is_known s (key_of_payment p) p ≡ true
      → enqueue_one p s ≡ s
  unfolding enqueue_one
  enqueue_one_known p s h = rw h

  enqueue_one_new :
      (p : DetectedPayment F) (s : SharedState F)
      → is_known s (key_of_payment p) p ≡ false
      → enqueue_one p s ≡ record s { pending = s.pending ++ (new_entry p ∷ []) }
  unfolding enqueue_one
  enqueue_one_new p s h = rw h

  any-append :
      (f : PendingPayment F → Bool) (ps qs : List (PendingPayment F))
      → any f (ps ++ qs) ≡ (any f ps || any f qs)
  any-append f [] qs = refl
  any-append f (p ∷ ps) qs = ground (arith, any-append f ps qs)

  known-append :
      (s : SharedState F) (k : Text) (q : DetectedPayment F) (e : PendingPayment F)
      → is_known s k q ≡ true
      → is_known (record s { pending = s.pending ++ (e ∷ []) }) k q ≡ true
  unfolding is_known
  known-append s k q e h = ground (arith, any-append (pays q) s.pending (e ∷ []))

  known_new :
      (s : SharedState F) (k : Text) (p : DetectedPayment F)
      → is_known (record s { pending = s.pending ++ (new_entry p ∷ []) }) k p ≡ true
  unfolding is_known
  known_new s k p = ground (
    arith,
    any-append (pays p) s.pending (new_entry p ∷ []),
    same_refl p.txid,
    same_refl p.address,
  )

  known-enqueue_one :
      (k : Text) (q p : DetectedPayment F) (s : SharedState F)
      → is_known s k q ≡ true
      → is_known (enqueue_one p s) k q ≡ true
  known-enqueue_one k q p s h = elim (Bool-cases (is_known s (key_of_payment p) p)) [
    | inl e ↦ rw (enqueue_one_known p s e) h
    | inr e ↦ rw (enqueue_one_new p s e) (known-append s k q (new_entry p) h)
  ]

  known-enqueue_all :
      (k : Text) (q : DetectedPayment F) (ps : List (DetectedPayment F)) (s : SharedState F)
      → is_known s k q ≡ true
      → is_known (enqueue_all ps s) k q ≡ true
  unfolding enqueue_all
  known-enqueue_all k q [] s h = h
  known-enqueue_all k q (p ∷ ps) s h =
      known-enqueue_all k q ps (enqueue_one p s) (known-enqueue_one k q p s h)

  enqueue_one_records :
      (p : DetectedPayment F) (s : SharedState F)
      → is_known (enqueue_one p s) (key_of_payment p) p ≡ true
  enqueue_one_records p s = elim (Bool-cases (is_known s (key_of_payment p) p)) [
    | inl e ↦ rw (enqueue_one_known p s e) e
    | inr e ↦ rw (enqueue_one_new p s e) (known_new s _ p)
  ]

  abbrev pub AllKnown : SharedState F → List (DetectedPayment F) → Type 0
  AllKnown s ps = All (λ p. is_known s (key_of_payment p) p ≡ true) ps

  pub enqueue_all_records :
      (ps : List (DetectedPayment F)) (s : SharedState F) → AllKnown (enqueue_all ps s) ps
  unfolding enqueue_all
  enqueue_all_records [] s = tt
  enqueue_all_records (p ∷ ps) s = (
    known-enqueue_all (key_of_payment p) p ps (enqueue_one p s) (enqueue_one_records p s),
    enqueue_all_records ps (enqueue_one p s),
  )

  pub enqueue_all_known :
      (ps : List (DetectedPayment F)) (s : SharedState F) → AllKnown s ps → enqueue_all ps s ≡ s
  unfolding enqueue_all
  enqueue_all_known [] s h = refl
  enqueue_all_known (p ∷ ps) s h = rw (enqueue_one_known p s h.0) (enqueue_all_known ps s h.1)

  -- After a batch is enqueued each of its payments is credited or in the outbox, and enqueueing the
  -- batch again, as a rescan or a restart does, changes nothing.
  pub enqueue_all_once :
      (ps : List (DetectedPayment F)) (s : SharedState F)
      → AllKnown (enqueue_all ps s) ps × (enqueue_all ps (enqueue_all ps s) ≡ enqueue_all ps s)
  enqueue_all_once ps s =
      let r = enqueue_all_records ps s in (r, enqueue_all_known ps (enqueue_all ps s) r)

  -- No two entries of the outbox are for one recipient of one transaction.
  abbrev pub IsUnique : List (PendingPayment F) → Type 0
  IsUnique [] = Unit
  IsUnique (q ∷ qs) = (any (pays q.payment) qs ≡ false) × IsUnique qs

  pays_symm :
      (p : DetectedPayment F) (q : PendingPayment F)
      → pays p q ≡ false
      → pays q.payment (new_entry p) ≡ false
  pays_symm p q h = elim (Bool-cases (pays q.payment (new_entry p))) [
    | inl e ↦ ground (
      arith,
      same→≡ p.txid q.payment.txid,
      same→≡ p.address q.payment.address,
      same_refl p.txid,
      same_refl p.address,
    )
    | inr e ↦ e
  ]

  IsUnique-snoc :
      (qs : List (PendingPayment F)) (p : DetectedPayment F)
      → IsUnique qs
      → any (pays p) qs ≡ false
      → IsUnique (qs ++ (new_entry p ∷ []))
  IsUnique-snoc [] p h f = (refl, tt)
  IsUnique-snoc (q ∷ qs) p h f = (
    rw (any-append (pays q.payment) qs (new_entry p ∷ [])) (ground (arith, pays_symm p q)),
    IsUnique-snoc qs p h.1 (ground arith),
  )

  unknown_unpaid :
      (s : SharedState F) (k : Text) (p : DetectedPayment F)
      → is_known s k p ≡ false
      → any (pays p) s.pending ≡ false
  unfolding is_known
  unknown_unpaid s k p h = ground arith

  enqueue_one-IsUnique :
      (p : DetectedPayment F) (s : SharedState F)
      → IsUnique s.pending
      → IsUnique (enqueue_one p s).pending
  enqueue_one-IsUnique p s h = elim (Bool-cases (is_known s (key_of_payment p) p)) [
    | inl e ↦ rw (enqueue_one_known p s e) h
    | inr e ↦ rw (enqueue_one_new p s e) (IsUnique-snoc s.pending p h (unknown_unpaid s _ p e))
  ]

  -- If no two entries of the outbox are for one recipient of one transaction, then so it is after
  -- any batch.
  pub enqueue_all-IsUnique :
      (ps : List (DetectedPayment F)) (s : SharedState F)
      → IsUnique s.pending
      → IsUnique (enqueue_all ps s).pending
  unfolding enqueue_all
  enqueue_all-IsUnique [] s h = h
  enqueue_all-IsUnique (p ∷ ps) s h =
      enqueue_all-IsUnique ps (enqueue_one p s) (enqueue_one-IsUnique p s h)
