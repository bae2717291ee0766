-- ===== src/EvmPool/Store.antt =====
-- The reservations of ethereum_pool.rs as a map, and whose each wallet is.
use crypto_payment_detector.Base.{
  ◌≡◌, refl, ap, Bool, true, false, ◌&&◌, ◌||◌, none, some, [], ◌∷◌, ◌++◌, arith, inl, inr,
  Bool-cases,
}
use crypto_payment_detector.Base.Text.{Text, same, same→≡, same_refl, starts_with}
use crypto_payment_detector.EvmPool.{
  EthereumReservation, Store, contains_key, remove_key, insert_key, find_user,
}

pub starts_with-append : (p t : Text) → starts_with p (p ++ t) ≡ true
unfolding starts_with
starts_with-append [] t = refl
starts_with-append (c ∷ p) t = ground (arith, starts_with-append p t)

pub remove_key-absent : (k : Text) (m : Store) → contains_key k m ≡ false → remove_key k m ≡ m
unfolding contains_key remove_key
remove_key-absent k [] h = refl
remove_key-absent k ((j, r) ∷ m) h = elim (Bool-cases (same k j)) [
  | inl e ↦ absurd (ground arith)
  | inr e ↦ rw e (ap (λ (t : Store). (j, r) ∷ t) (remove_key-absent k m (ground arith)))
]

module _ (prefix : Text) where
  -- Whether the chain's part of the store has a reservation of this address.
  unfoldable pub holds_address : Text → Store → Bool
  holds_address a [] = false
  holds_address a ((k, r) ∷ m) = (starts_with prefix k && same r.address a) || holds_address a m

  unfoldable pub holds_user : Text → Store → Bool
  holds_user u [] = false
  holds_user u ((k, r) ∷ m) = (starts_with prefix k && same r.user_id u) || holds_user u m

  -- The chain's reservations stand under their address, no two are for one address, and no two are
  -- for one user.
  abbrev pub IsExclusive : Store → Type 0
  IsExclusive [] = Unit
  IsExclusive ((k, r) ∷ m) =
      (starts_with prefix k ≡ true
        → (k ≡ prefix ++ r.address)
          × (holds_address r.address m ≡ false)
          × (holds_user r.user_id m ≡ false))
      × IsExclusive m

  pub find_user-insert_key :
      (a : Text) (r : EthereumReservation) (m : Store)
      → find_user prefix r.user_id (insert_key (prefix ++ a) r m) ≡ some r
  unfolding find_user insert_key
  find_user-insert_key a r m = rw (starts_with-append prefix a, same_refl r.user_id) refl

  pub holds_user-find_user :
      (u : Text) (m : Store) → find_user prefix u m ≡ none → holds_user u m ≡ false
  unfolding find_user holds_user
  holds_user-find_user u [] h = refl
  holds_user-find_user u ((k, r) ∷ m) h =
      elim (Bool-cases (starts_with prefix k && same r.user_id u)) [
        | inl e ↦ absurd (ground arith)
        | inr e ↦ rw e (holds_user-find_user u m (ground arith))
      ]

  -- Under the keys of its addresses, an address without a key has no reservation.
  pub holds_address-absent :
      (a : Text) (m : Store)
      → IsExclusive m
      → contains_key (prefix ++ a) m ≡ false
      → holds_address a m ≡ false
  unfolding contains_key holds_address
  holds_address-absent a [] x h = refl
  holds_address-absent a ((k, r) ∷ m) x h =
      elim (Bool-cases (starts_with prefix k && same r.address a)) [
        | inl e ↦
            let key = (x.0 (ground arith)).0 in
            let at : r.address ≡ a = same→≡ r.address a (ground arith) in
            absurd (ground (arith, key, at, same_refl (prefix ++ a)))
        | inr e ↦ rw e (holds_address-absent a m x.1 (ground arith))
      ]

  pub IsExclusive-insert_key :
      (r : EthereumReservation) (m : Store)
      → IsExclusive m
      → contains_key (prefix ++ r.address) m ≡ false
      → find_user prefix r.user_id m ≡ none
      → IsExclusive (insert_key (prefix ++ r.address) r m)
  unfolding insert_key
  IsExclusive-insert_key r m x free new = rw (remove_key-absent (prefix ++ r.address) m free) (
    (λ h. (refl, holds_address-absent r.address m x free, holds_user-find_user r.user_id m new)),
    x,
  )
