-- ===== src/EvmWitnesses.antt =====
-- The theorems on the EVM wallet pool on concrete data: each of their hypotheses can hold.
use crypto_payment_detector.Base.{◌++◌, ◌+◌, ◌≡◌, refl, false, none, some, arith, length}
use crypto_payment_detector.Base.Text.{Text, text, same, starts_with}
use crypto_payment_detector.Error.Defs.{ok}
use crypto_payment_detector.Types.Chains.{ethereum}
use crypto_payment_detector.EvmPool.{
  EthereumReservation, contains_key, find_user, first_free, assignment, give, claim,
  grow_ethereum_pool, assign_with, delete_all,
}
use crypto_payment_detector.EvmPool.Store.{IsExclusive, holds_address, holds_user}
use crypto_payment_detector.EvmPool.Assign.{assign_with-again}
use crypto_payment_detector.EvmPool.Exclusive.{IsFresh, assign_with-IsExclusive}
use crypto_payment_detector.EvmPool.Race.{grow_ethereum_pool-overlap}
use crypto_payment_detector.EvmPool.Release.{delete_all_lem}
use crypto_payment_detector.Samples.{eth, pool, pool_env, new_wallet}

abbrev bobs : EthereumReservation
bobs = record {
  user_id = text "bob";
  address = text "0xb";
  wallet_index = 1;
  reserved_at_unix = 10;
  expires_at_unix = 0;
}

bob_gets : (assign_with pool_env ethereum eth (text "bob") pool).0 ≡ ok bobs
unfolding assign_with find_user starts_with same first_free contains_key
bob_gets = refl

assign_with-again_example :
    assign_with pool_env ethereum eth
      (text "bob")
      (assign_with pool_env ethereum eth (text "bob") pool).1
    ≡ (ok bobs, (assign_with pool_env ethereum eth (text "bob") pool).1)
assign_with-again_example =
    assign_with-again pool_env pool_env ethereum eth (text "bob") pool bobs bob_gets

pool-IsExclusive : IsExclusive eth pool.store
unfolding starts_with holds_address holds_user same
pool-IsExclusive = ((λ h. (refl, refl, refl)), ((λ h. absurd (ground arith)), tt))

pool-IsFresh : IsFresh pool_env ethereum eth (text "bob") pool
unfolding contains_key same
pool-IsFresh i a e = let q : text "0xb" ≡ a = ground arith in rw (← q) refl

assign_with-IsExclusive_example :
    IsExclusive eth (assign_with pool_env ethereum eth (text "bob") pool).1.store
assign_with-IsExclusive_example =
    assign_with-IsExclusive pool_env ethereum eth (text "bob") pool pool-IsExclusive pool-IsFresh

pool_grows : (grow_ethereum_pool pool_env ethereum pool).0 ≡ ok new_wallet
unfolding grow_ethereum_pool
pool_grows = refl

cid_new : find_user eth (text "cid") pool.store ≡ none
unfolding find_user starts_with same
cid_new = refl

pool_exhausted : first_free pool_env eth (text "cid") pool.wallets pool.store ≡ none
unfolding first_free contains_key same
pool_exhausted = refl

wallet_unused : contains_key (eth ++ text "0xb") pool.store ≡ false
unfolding contains_key same
wallet_unused = refl

bob_not_cid : same (text "bob") (text "cid") ≡ false
unfolding same
bob_not_cid = refl

grow_ethereum_pool-overlap_example :
    let second = claim pool_env eth (text "cid") (grow_ethereum_pool pool_env ethereum pool).1 in
    let first = give pool_env eth (text "bob") new_wallet second.1 in
    (second.0 ≡ ok (some (assignment pool_env eth (text "cid") new_wallet)))
    × (first.0 ≡ ok (assignment pool_env eth (text "bob") new_wallet))
    × (find_user eth (text "cid") first.1.store ≡ none)
grow_ethereum_pool-overlap_example =
    grow_ethereum_pool-overlap pool_env pool_env ethereum eth (text "bob") (text "cid") pool
      new_wallet bob_not_cid cid_new pool_exhausted wallet_unused pool_grows

delete_all_lem_example :
    let x = delete_all eth pool in
    ((u : Text) → find_user eth u x.1.store ≡ none)
    × ((k : Text)
        → starts_with eth k ≡ false
        → contains_key k x.1.store ≡ contains_key k pool.store)
    × (x.1.wallets ≡ pool.wallets)
    × (x.0 + length x.1.store ≡ length pool.store)
delete_all_lem_example = delete_all_lem eth pool
