-- ===== src/EvmPool/Exclusive.antt =====
-- One assignment at a time in ethereum_pool.rs: no wallet has two users.
use crypto_payment_detector.Base.{
  ℕ, ◌%◌, ◌^◌, ◌≡◌, refl, sym, subst, false, Option, none, some, List, [], ◌∷◌, ◌++◌, arith, inl,
  inr, Bool-cases, leb, length,
}
use crypto_payment_detector.Base.Text.{Text}
use crypto_payment_detector.Types.Chains.{Chain}
use crypto_payment_detector.Error.Defs.{Result, ok, Result-cases}
use crypto_payment_detector.Error.Exec.{lift, after_lem, ◌>>=◌}
use crypto_payment_detector.EvmPool.{
  ManagedEthereumWallet, EthereumReservation, Pool, PoolEnv, Store, contains_key, find_user,
  assignment, give, first_free, give_free, keep_or_give, claim, wallet_from,
  generate_random_ethereum_wallet, grow_ethereum_pool, push_wallet, grow_and_give, assign_with,
}
use crypto_payment_detector.EvmPool.Store.{IsExclusive, IsExclusive-insert_key}
use crypto_payment_detector.EvmPool.Assign.{wallet_from-key}

module _ (env : PoolEnv) (c : Chain) (prefix : Text) (user : Text) where
  -- The addresses that the call may generate have no reservation yet.
  abbrev pub IsFresh : Pool → Type 0
  IsFresh p =
      (i : ℕ) (a : Text)
      → env.random_address i ≡ some a
      → contains_key (prefix ++ a) p.store ≡ false

  abbrev Excludes : Result EthereumReservation × Pool → Type 0
  Excludes x = IsExclusive prefix x.1.store

  give-Excludes :
      (w : ManagedEthereumWallet) (p : Pool)
      → IsExclusive prefix p.store
      → contains_key (prefix ++ w.address) p.store ≡ false
      → find_user prefix user p.store ≡ none
      → Excludes (give env prefix user w p)
  unfolding give assignment
  give-Excludes w p x free new =
      IsExclusive-insert_key prefix (assignment env prefix user w) p.store x free new

  -- Growing leaves the store alone, and the wallet is one that was generated.
  abbrev Grown : Pool → Result ManagedEthereumWallet × Pool → Type 0
  Grown p x =
      (x.1.store ≡ p.store)
      × ((w : ManagedEthereumWallet)
          → x.0 ≡ ok w
          → (i : ℕ) × (env.random_address i ≡ some w.address))

  push-Grown :
      (w : ManagedEthereumWallet) (p : Pool)
      → (i : ℕ) × (env.random_address i ≡ some w.address)
      → Grown p (push_wallet env c w p)
  unfolding push_wallet
  push-Grown w p (i, e) = elim (Result-cases (env.append_to_pool_file w)) [
    | inl (u, a) ↦ rw a (refl, λ v h. (i, ground arith))
    | inr (y, a) ↦ rw a (refl, λ v h. absurd (ground arith))
  ]

  grow-Grown : (p : Pool) → Grown p (grow_ethereum_pool env c p)
  unfolding grow_ethereum_pool generate_random_ethereum_wallet
  grow-Grown p = elim (Bool-cases (leb env.max_pool_size (length p.wallets))) [
    | inl e ↦ rw e (refl, λ w h. absurd (ground arith))
    | inr e ↦
        let made = wallet_from env.random_address (length p.wallets % 2 ^ 32) 32 0 in
        rw e (
          after_lem (lift made p) (push_wallet env c) (Grown p)
            (λ w h. push-Grown w p (wallet_from-key env.random_address _ 32 0 w h))
            (λ y h. (refl, λ w i. absurd (ground arith))))
  ]

  grow-Excludes :
      (p : Pool)
      → IsExclusive prefix p.store
      → IsFresh p
      → find_user prefix user p.store ≡ none
      → Excludes (grow_and_give env c prefix user none p)
  unfolding grow_and_give
  grow-Excludes p x fresh new =
      let g = grow-Grown p in
      let q = (grow_ethereum_pool env c p).1 in
      let kept = subst (IsExclusive prefix) (sym g.0) x in
      after_lem (grow_ethereum_pool env c p) (give env prefix user) Excludes
        (λ w e.
          let (i, made) = g.1 w e in
          give-Excludes w q kept (rw g.0 (fresh i w.address made)) (rw g.0 new))
        (λ y e. kept)

  first_free-absent :
      (ws : List ManagedEthereumWallet) (m : Store) (w : ManagedEthereumWallet)
      → first_free env prefix user ws m ≡ some w
      → contains_key (prefix ++ w.address) m ≡ false
  unfolding first_free
  first_free-absent [] m w h = absurd (ground arith)
  first_free-absent (v ∷ ws) m w h = elim (Bool-cases (contains_key (prefix ++ v.address) m)) [
    | inl e ↦ first_free-absent ws m w (rw e at h)
    | inr e ↦ let i : v ≡ w = ground arith in rw (← i) e
  ]

  free-Excludes :
      (o : Option ManagedEthereumWallet) (p : Pool)
      → IsExclusive prefix p.store
      → IsFresh p
      → first_free env prefix user p.wallets p.store ≡ o
      → find_user prefix user p.store ≡ none
      → Excludes ((give_free env prefix user o >>= grow_and_give env c prefix user) p)
  unfolding give_free grow_and_give give
  free-Excludes none p x fresh e new = grow-Excludes p x fresh new
  free-Excludes (some w) p x fresh e new =
      give-Excludes w p x (first_free-absent p.wallets p.store w e) new

  kept-Excludes :
      (o : Option EthereumReservation) (p : Pool)
      → IsExclusive prefix p.store
      → IsFresh p
      → find_user prefix user p.store ≡ o
      → Excludes ((keep_or_give env prefix user o >>= grow_and_give env c prefix user) p)
  unfolding keep_or_give grow_and_give
  kept-Excludes (some q) p x fresh h = x
  kept-Excludes none p x fresh h =
      free-Excludes (first_free env prefix user p.wallets p.store) p x fresh refl h

  -- One assignment, whether it succeeds or fails: if the chain's reservations stand under their
  -- addresses, no two for one address and no two for one user, and no address that may be generated
  -- has a reservation yet, then so the reservations are after it.
  pub assign_with-IsExclusive :
      (p : Pool)
      → IsExclusive prefix p.store
      → IsFresh p
      → IsExclusive prefix (assign_with env c prefix user p).1.store
  unfolding assign_with claim
  assign_with-IsExclusive p x fresh = kept-Excludes (find_user prefix user p.store) p x fresh refl
