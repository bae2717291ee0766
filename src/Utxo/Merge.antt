-- ===== src/Utxo/Merge.antt =====
-- The sorted map of `aggregate_utxo_payments` in blockstream.rs: what `merge_entry` does to it.
use crypto_payment_detector.Base.{
  ℕ, ◌+◌, ◌≤◌, Bool, ◌||◌, any, ◌≡◌, refl, ◌∙◌, true, false, some, List, [], ◌∷◌, All, arith,
  if◌then◌else◌, inl, inr, Bool-cases, u64_max, add_u64_lem,
}
use crypto_payment_detector.Base.Text.{Text, same, same→≡, same_refl}
use crypto_payment_detector.Base.Float.{Float}
use crypto_payment_detector.Types.Payments.{DetectedPayment}
use crypto_payment_detector.Utxo.Outbox.{key_of_payment, text_before, add_amount, merge_entry}

before_trans :
    (a b c : Text) → text_before a b ≡ true → text_before b c ≡ true → text_before a c ≡ true
unfolding text_before
before_trans [] [] c h k = cc
before_trans [] (y ∷ b) [] h k = cc
before_trans [] (y ∷ b) (z ∷ c) h k = refl
before_trans (x ∷ a) [] c h k = cc
before_trans (x ∷ a) (y ∷ b) [] h k = cc
before_trans (x ∷ a) (y ∷ b) (z ∷ c) h k = ground (arith, before_trans a b c)

-- Of two different texts one comes before the other.
before_total : (a b : Text) → same a b ≡ false → text_before a b ≡ false → text_before b a ≡ true
unfolding text_before same
before_total [] [] h k = cc
before_total [] (y ∷ b) h k = cc
before_total (x ∷ a) [] h k = refl
before_total (x ∷ a) (y ∷ b) h k = ground (arith, before_total a b)

before_irrefl : (a : Text) → text_before a a ≡ false
unfolding text_before
before_irrefl [] = refl
before_irrefl (x ∷ a) = ground (arith, before_irrefl a)

abbrev pub Entries : Type 0 → Type 0
Entries F = List (Text × DetectedPayment F)

module _ {F : Type 0} where
  -- The sum of the amounts that go to the key.
  unfoldable pub paid : Text → List (DetectedPayment F) → ℕ
  paid k [] = 0
  paid k (p ∷ ps) = (if same (key_of_payment p) k then p.amount_sat else 0) + paid k ps

  abbrev pub IsEntry : Text × DetectedPayment F → Type 0
  IsEntry (k, p) = (key_of_payment p ≡ k) × (p.event_id ≡ some k)

  abbrev pub IsAscending : Entries F → Type 0
  IsAscending [] = Unit
  IsAscending (e ∷ es) = All (λ f. text_before e.0 f.0 ≡ true) es × IsAscending es

  -- Each payment has an id, its own key, and the ids ascend strictly, so none occurs twice.
  abbrev pub IsListing : List (DetectedPayment F) → Type 0
  IsListing [] = Unit
  IsListing (p ∷ ps) =
      (p.event_id ≡ some (key_of_payment p))
      × All (λ q. text_before (key_of_payment p) (key_of_payment q) ≡ true) ps
      × IsListing ps

  -- Whether a payment goes to the key.
  unfoldable pub goes_to : Text → List (DetectedPayment F) → Bool
  goes_to k ps = any (λ p. same (key_of_payment p) k) ps

  unfoldable pub has_key : Text → Entries F → Bool
  has_key k es = any (λ e. same e.0 k) es

  unfoldable pub total : Text → Entries F → ℕ
  total k [] = 0
  total k ((j, p) ∷ es) = (if same j k then p.amount_sat else 0) + total k es

module _ {F : Type 0} (fl : Float F) where
  key-add_amount : (e p : DetectedPayment F) → key_of_payment (add_amount fl e p) ≡ key_of_payment e
  unfolding add_amount key_of_payment
  key-add_amount e p = refl

  id-add_amount : (e p : DetectedPayment F) → (add_amount fl e p).event_id ≡ e.event_id
  unfolding add_amount
  id-add_amount e p = refl

  amount-add_amount :
      (e p : DetectedPayment F)
      → e.amount_sat + p.amount_sat ≤ u64_max
      → (add_amount fl e p).amount_sat ≡ e.amount_sat + p.amount_sat
  unfolding add_amount
  amount-add_amount e p h = add_u64_lem e.amount_sat p.amount_sat h

  pub total-merge_entry :
      (k key : Text) (p : DetectedPayment F) (es : Entries F)
      → p.amount_sat + total key es ≤ u64_max
      → total k (merge_entry fl key p es) ≡ (if same key k then p.amount_sat else 0) + total k es
  unfolding total merge_entry
  total-merge_entry k key p [] h = ground arith
  total-merge_entry k key p ((j, e) ∷ es) h =
      ground
        (arith, same→≡ key j, same_refl key, amount-add_amount e p, total-merge_entry k key p es)

  pub has_key-merge_entry :
      (k key : Text) (p : DetectedPayment F) (es : Entries F)
      → has_key k (merge_entry fl key p es) ≡ (same key k || has_key k es)
  unfolding has_key merge_entry
  has_key-merge_entry k key p [] = refl
  has_key-merge_entry k key p ((j, e) ∷ es) =
      ground (arith, same→≡ key j, has_key-merge_entry k key p es)

  bound-merge_entry :
      (bound key : Text) (p : DetectedPayment F) (es : Entries F)
      → text_before bound key ≡ true
      → All (λ f. text_before bound f.0 ≡ true) es
      → All (λ f. text_before bound f.0 ≡ true) (merge_entry fl key p es)
  unfolding merge_entry
  bound-merge_entry bound key p [] h a = (h, tt)
  bound-merge_entry bound key p ((k, e) ∷ es) h a = elim (Bool-cases (same key k)) [
    | inl s ↦ rw s a
    | inr s ↦ elim (Bool-cases (text_before key k)) [
      | inl b ↦ rw (s, b) (h, a)
      | inr b ↦ rw (s, b) (a.0, bound-merge_entry bound key p es h a.1)
    ]
  ]

  below-All :
      (a b : Text) (es : Entries F)
      → text_before a b ≡ true
      → All (λ f. text_before b f.0 ≡ true) es
      → All (λ f. text_before a f.0 ≡ true) es
  below-All a b [] h k = tt
  below-All a b (e ∷ es) h k = (before_trans a b e.0 h k.0, below-All a b es h k.1)

  pub merge_entry-IsAscending :
      (key : Text) (p : DetectedPayment F) (es : Entries F)
      → IsAscending es
      → IsAscending (merge_entry fl key p es)
  unfolding merge_entry
  merge_entry-IsAscending key p [] a = (tt, tt)
  merge_entry-IsAscending key p ((k, e) ∷ es) a = elim (Bool-cases (same key k)) [
    | inl s ↦ rw s a
    | inr s ↦ elim (Bool-cases (text_before key k)) [
      | inl b ↦ rw (s, b) ((b, below-All key k es b a.0), a)
      | inr b ↦
          rw (s, b)
            (
              bound-merge_entry k key p es (before_total key k s b) a.0,
              merge_entry-IsAscending key p es a.1,
            )
    ]
  ]

  pub merge_entry-IsEntry :
      (key : Text) (p : DetectedPayment F) (es : Entries F)
      → key_of_payment p ≡ key
      → p.event_id ≡ some key
      → All IsEntry es
      → All IsEntry (merge_entry fl key p es)
  unfolding merge_entry
  merge_entry-IsEntry key p [] h i a = ((h, i), tt)
  merge_entry-IsEntry key p ((k, e) ∷ es) h i a = elim (Bool-cases (same key k)) [
    | inl s ↦ rw s ((key-add_amount e p ∙ a.0.0, id-add_amount e p ∙ a.0.1), a.1)
    | inr s ↦ elim (Bool-cases (text_before key k)) [
      | inl b ↦ rw (s, b) ((h, i), a)
      | inr b ↦ rw (s, b) (a.0, merge_entry-IsEntry key p es h i a.1)
    ]
  ]
