-- ===== src/EvmPool/Assign.antt =====
-- One assignment at a time in ethereum_pool.rs: the same user keeps one wallet, and no wallet has two
-- users.
use crypto_payment_detector.Base.{
  ℕ, zero, suc, ◌+◌, ◌≡◌, refl, ◌∙◌, subst, Option, none, some, ◌++◌, arith,
}
use crypto_payment_detector.Base.Text.{Text}
use crypto_payment_detector.Types.Chains.{Chain}
use crypto_payment_detector.Error.Defs.{Result, ok}
use crypto_payment_detector.Error.Exec.{after_lem, ◌>>=◌}
use crypto_payment_detector.EvmPool.{
  ManagedEthereumWallet, EthereumReservation, Pool, PoolEnv, insert_key, find_user, assignment,
  give, first_free, give_free, keep_or_give, claim, wallet_or, wallet_from, grow_ethereum_pool,
  grow_and_give, assign_with,
}
use crypto_payment_detector.EvmPool.Store.{find_user-insert_key}

wallet_or-key :
    (keys : ℕ → Option Text) (index i : ℕ) (o : Option Text) (rest : Result ManagedEthereumWallet)
    (w : ManagedEthereumWallet)
    → keys i ≡ o
    → (rest ≡ ok w → (j : ℕ) × (keys j ≡ some w.address))
    → wallet_or index rest o ≡ ok w
    → (j : ℕ) × (keys j ≡ some w.address)
unfolding wallet_or
wallet_or-key keys index i (some a) rest w e k h = (i, ground arith)
wallet_or-key keys index i none rest w e k h = k h

pub wallet_from-key :
    (keys : ℕ → Option Text) (index left i : ℕ) (w : ManagedEthereumWallet)
    → wallet_from keys index left i ≡ ok w
    → (j : ℕ) × (keys j ≡ some w.address)
unfolding wallet_from
wallet_from-key keys index zero i w h = absurd (ground arith)
wallet_from-key keys index (suc left) i w h =
    wallet_or-key keys index i (keys i) (wallet_from keys index left (i + 1)) w refl
      (wallet_from-key keys index left (i + 1) w) h

module _ (env : PoolEnv) (c : Chain) (prefix : Text) (user : Text) where
  -- On success the user has the reservation returned.
  abbrev Holds : Result EthereumReservation × Pool → Type 0
  Holds x = (r : EthereumReservation) → x.0 ≡ ok r → find_user prefix user x.1.store ≡ some r

  give-Holds : (w : ManagedEthereumWallet) (p : Pool) → Holds (give env prefix user w p)
  unfolding give assignment
  give-Holds w p r e =
      subst
        (λ (q : EthereumReservation).
          find_user prefix user
            (insert_key (prefix ++ w.address) (assignment env prefix user w) p.store)
          ≡ some q)
        (ground arith)
        (find_user-insert_key prefix w.address (assignment env prefix user w) p.store)

  grow-Holds : (p : Pool) → Holds (grow_and_give env c prefix user none p)
  unfolding grow_and_give
  grow-Holds p =
      after_lem (grow_ethereum_pool env c p) (give env prefix user) Holds
        (λ w e. give-Holds w (grow_ethereum_pool env c p).1) (λ y e r i. absurd (ground arith))

  free-Holds :
      (o : Option ManagedEthereumWallet) (p : Pool)
      → Holds ((give_free env prefix user o >>= grow_and_give env c prefix user) p)
  unfolding give_free grow_and_give give
  free-Holds none p = grow-Holds p
  free-Holds (some w) p = give-Holds w p

  kept-Holds :
      (o : Option EthereumReservation) (p : Pool)
      → find_user prefix user p.store ≡ o
      → Holds ((keep_or_give env prefix user o >>= grow_and_give env c prefix user) p)
  unfolding keep_or_give grow_and_give
  kept-Holds (some q) p h r e = h ∙ ground arith
  kept-Holds none p h r e = free-Holds (first_free env prefix user p.wallets p.store) p r e

  assign_with-Holds : (p : Pool) → Holds (assign_with env c prefix user p)
  unfolding assign_with claim
  assign_with-Holds p = kept-Holds (find_user prefix user p.store) p refl

assign_with-found :
    (env : PoolEnv) (c : Chain) (prefix user : Text) (p : Pool) (r : EthereumReservation)
    → find_user prefix user p.store ≡ some r
    → assign_with env c prefix user p ≡ (ok r, p)
unfolding assign_with claim keep_or_give grow_and_give
assign_with-found env c prefix user p r h = rw h refl

-- A user keeps the wallet: after an assignment that succeeds, a later one for the same user on the
-- chain, at any time and whatever the pool file does, returns the same reservation and changes
-- nothing.
pub assign_with-again :
    (env later : PoolEnv) (c : Chain) (prefix user : Text) (p : Pool) (r : EthereumReservation)
    → (assign_with env c prefix user p).0 ≡ ok r
    → let p' = (assign_with env c prefix user p).1 in
      assign_with later c prefix user p' ≡ (ok r, p')
assign_with-again env later c prefix user p r h =
    assign_with-found later c prefix user _ r (assign_with-Holds env c prefix user p r h)
