-- ===== src/EvmPool/Release.antt =====
-- The release of all reservations of a chain in ethereum_pool.rs.
use crypto_payment_detector.Base.{◌+◌, ◌≡◌, refl, false, not, none, [], ◌∷◌, arith, length, retain}
use crypto_payment_detector.Base.Text.{Text, same→≡, starts_with}
use crypto_payment_detector.EvmPool.{Store, Pool, contains_key, find_user, delete_all}

module _ (prefix : Text) where
  abbrev others : Store → Store
  others m = retain (λ e. not (starts_with prefix e.0)) m

  find_user-others : (u : Text) (m : Store) → find_user prefix u (others m) ≡ none
  unfolding find_user
  find_user-others u [] = refl
  find_user-others u ((k, r) ∷ m) = ground (arith, find_user-others u m)

  contains_key-others :
      (k : Text) (m : Store)
      → starts_with prefix k ≡ false
      → contains_key k (others m) ≡ contains_key k m
  unfolding contains_key
  contains_key-others k [] h = refl
  contains_key-others k ((j, r) ∷ m) h = ground (arith, contains_key-others k m h, same→≡ k j)

  length-others :
      (m : Store) → length (retain (λ e. starts_with prefix e.0) m) + length (others m) ≡ length m
  length-others [] = refl
  length-others ((k, r) ∷ m) = ground (arith, length-others m)

  -- The release of a chain leaves none of its users a wallet, touches no key of another chain and
  -- no wallet, and returns how many reservations it removed.
  pub delete_all_lem :
      (p : Pool)
      → let x = delete_all prefix p in
        ((u : Text) → find_user prefix u x.1.store ≡ none)
        × ((k : Text)
            → starts_with prefix k ≡ false
            → contains_key k x.1.store ≡ contains_key k p.store)
        × (x.1.wallets ≡ p.wallets)
        × (x.0 + length x.1.store ≡ length p.store)
  unfolding delete_all
  delete_all_lem p = (
    (λ u. find_user-others u p.store),
    (λ k h. contains_key-others k p.store h),
    refl,
    length-others p.store,
  )
