-- ===== src/EvmPool/Race.antt =====
-- Two assignments of ethereum_pool.rs that overlap: the pool grows outside the lock of the store.
use crypto_payment_detector.Base.{
  ◌%◌, ◌^◌, ◌≡◌, refl, ◌∙◌, ap, false, none, some, List, [], ◌∷◌, ◌++◌, arith, inl, inr, Bool-cases,
  leb, length,
}
use crypto_payment_detector.Base.Text.{Text, same, same_refl}
use crypto_payment_detector.Types.Chains.{Chain}
use crypto_payment_detector.Error.Defs.{Result, ok, Result-cases}
use crypto_payment_detector.Error.Exec.{lift, after_lem}
use crypto_payment_detector.EvmPool.{
  ManagedEthereumWallet, EthereumReservation, Pool, PoolEnv, Store, contains_key, remove_key,
  insert_key, find_user, assignment, give, first_free, give_free, keep_or_give, claim,
  generate_random_ethereum_wallet, grow_ethereum_pool, push_wallet,
}
use crypto_payment_detector.EvmPool.Store.{remove_key-absent}

module _ (env : PoolEnv) (c : Chain) where
  abbrev with_wallet : Pool → ManagedEthereumWallet → Pool
  with_wallet p w = record p { wallets = p.wallets ++ (w ∷ []) }

  abbrev Adds : Pool → Result ManagedEthereumWallet × Pool → Type 0
  Adds p x = (w : ManagedEthereumWallet) → x.0 ≡ ok w → x.1 ≡ with_wallet p w

  push-Adds : (w : ManagedEthereumWallet) (p : Pool) → Adds p (push_wallet env c w p)
  unfolding push_wallet
  push-Adds w p v = elim (Result-cases (env.append_to_pool_file w)) [
    | inl (u, a) ↦ rw a (λ h. let e : w ≡ v = ground arith in ap (with_wallet p) e)
    | inr (y, a) ↦ rw a (λ h. absurd (ground arith))
  ]

  grow-Adds : (p : Pool) → Adds p (grow_ethereum_pool env c p)
  unfolding grow_ethereum_pool
  grow-Adds p = elim (Bool-cases (leb env.max_pool_size (length p.wallets))) [
    | inl e ↦ rw e (λ w h. absurd (ground arith))
    | inr e ↦ rw e (
        after_lem
          (lift (generate_random_ethereum_wallet env.random_address (length p.wallets % 2 ^ 32)) p)
          (push_wallet env c) (Adds p) (λ w h. push-Adds w p) (λ y h w i. absurd (ground arith)))
  ]

module _ (env : PoolEnv) (prefix user : Text) where
  first_free-append :
      (ws : List ManagedEthereumWallet) (w : ManagedEthereumWallet) (m : Store)
      → first_free env prefix user ws m ≡ none
      → contains_key (prefix ++ w.address) m ≡ false
      → first_free env prefix user (ws ++ (w ∷ [])) m ≡ some w
  unfolding first_free
  first_free-append [] w m h free = rw free refl
  first_free-append (v ∷ ws) w m h free = elim (Bool-cases (contains_key (prefix ++ v.address) m)) [
    | inl e ↦ rw e (first_free-append ws w m (rw e at h) free)
    | inr e ↦ absurd (ground arith)
  ]

  claim-new :
      (p : Pool) (w : ManagedEthereumWallet)
      → find_user prefix user p.store ≡ none
      → first_free env prefix user p.wallets p.store ≡ some w
      → claim env prefix user p
        ≡ (ok (some (assignment env prefix user w)), (give env prefix user w p).1)
  unfolding claim keep_or_give give_free give
  claim-new p w new e = rw (new, e) refl

remove_key-insert_key :
    (k : Text) (r : EthereumReservation) (m : Store)
    → contains_key k m ≡ false
    → remove_key k (insert_key k r m) ≡ m
unfolding insert_key remove_key
remove_key-insert_key k r m free =
    rw (same_refl k, remove_key-absent k m free) (remove_key-absent k m free)

assignment_other :
    (env : PoolEnv) (prefix user : Text) (w : ManagedEthereumWallet) (u : Text)
    → same user u ≡ false
    → same (assignment env prefix user w).user_id u ≡ false
unfolding assignment
assignment_other env prefix user w u h = h

twice :
    (k : Text) (r q : EthereumReservation) (m : Store)
    → contains_key k m ≡ false
    → insert_key k r (insert_key k q m) ≡ (k, r) ∷ m
unfolding insert_key
twice k r q m free = ap (λ (t : Store). (k, r) ∷ t) (remove_key-insert_key k q m free)

-- The reservation under a key that is written again is lost.
find_user-insert_key :
    (prefix k : Text) (r q : EthereumReservation) (m : Store) (u : Text)
    → same r.user_id u ≡ false
    → contains_key k m ≡ false
    → find_user prefix u m ≡ none
    → find_user prefix u (insert_key k r (insert_key k q m)) ≡ none
unfolding find_user
find_user-insert_key prefix k r q m u other free new =
    ap (find_user prefix u) (twice k r q m free) ∙ ground arith

-- Two users without a reservation on the chain, in an exhausted pool: if the first has grown the
-- pool by a wallet that has no reservation, and the second claims before the first writes its
-- reservation, then both are told that the wallet is theirs, and the second one's reservation is
-- lost.
pub grow_ethereum_pool-overlap :
    (env env' : PoolEnv) (c : Chain) (prefix user user' : Text) (p : Pool)
    (w : ManagedEthereumWallet)
    → same user user' ≡ false
    → find_user prefix user' p.store ≡ none
    → first_free env' prefix user' p.wallets p.store ≡ none
    → contains_key (prefix ++ w.address) p.store ≡ false
    → (grow_ethereum_pool env c p).0 ≡ ok w
    → let second = claim env' prefix user' (grow_ethereum_pool env c p).1 in
      let first = give env prefix user w second.1 in
      (second.0 ≡ ok (some (assignment env' prefix user' w)))
      × (first.0 ≡ ok (assignment env prefix user w))
      × (find_user prefix user' first.1.store ≡ none)
unfolding give
grow_ethereum_pool-overlap env env' c prefix user user' p w other new exhausted absent grown =
    let p' = with_wallet env c p w in
    let e =
      claim-new env' prefix user' p' w new
        (first_free-append env' prefix user' p.wallets w p.store exhausted absent) in
    rw (grow-Adds env c p w grown, e)
      (
        refl,
        refl,
        find_user-insert_key prefix _ (assignment env prefix user w)
            (assignment env' prefix user' w) p.store user'
            (assignment_other env prefix user w user' other) absent new,
      )
