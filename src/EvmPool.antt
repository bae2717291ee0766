-- ===== src/EvmPool.antt =====
-- ethereum_pool.rs with the reservations in memory: which managed wallet is whose.
pub mod Store
pub mod Assign
pub mod Exclusive
pub mod Race
pub mod Release
use crypto_payment_detector.Base.{
  ℕ, zero, suc, ◌+◌, ◌%◌, ◌^◌, ◌≡◌, Bool, true, false, not, ◌&&◌, ◌||◌, Option, none, some, List,
  [], ◌∷◌, ◌++◌, if◌then◌else◌, leb, length, retain,
}
use crypto_payment_detector.Base.Text.{Text, text, same, starts_with, trim, is_empty}
use crypto_payment_detector.Types.Chains.{
  Chain, bitcoin, litecoin, solana, ethereum, base, name, chain_env_prefix,
}
use crypto_payment_detector.Error.Defs.{DetectorError, invalid_config, api_error, Result, ok, err}
use crypto_payment_detector.Error.Exec.{Exec, pure, lift, ◌>>=◌, ◌>>◌, modify, gets}

-- A wallet without its key, which is the `ethers` crate's.
pub record ManagedEthereumWallet : Type 0 where
  pub index : ℕ
  pub address : Text

pub record EthereumReservation : Type 0 where
  pub user_id : Text
  pub address : Text
  pub wallet_index : ℕ
  pub reserved_at_unix : ℕ
  pub expires_at_unix : ℕ

abbrev pub never_expires : ℕ
never_expires = 0

abbrev pub Store : Type 0
Store = List (Text × EthereumReservation)

-- The wallets that detector and API share, and the reservations of all chains.
pub record Pool : Type 0 where
  pub wallets : List ManagedEthereumWallet
  pub store : Store

-- What one call finds outside: the clock, the configured bound, the address that `LocalWallet` makes
-- of the random bytes of each try, if they are a key, and the append to the pool file.
pub record PoolEnv : Type 0 where
  pub unix_timestamp : ℕ
  pub max_pool_size : ℕ
  pub random_address : ℕ → Option Text
  pub append_to_pool_file : ManagedEthereumWallet → Result (Unit {0})

-- `none` where the source panics.
unfoldable pub reservation_key_prefix : Chain → Option Text
reservation_key_prefix bitcoin = none
reservation_key_prefix litecoin = none
reservation_key_prefix solana = none
reservation_key_prefix ethereum = some (text "ethereum:assignment:")
reservation_key_prefix base = some (text "base:assignment:")

unfoldable pub contains_key : Text → Store → Bool
contains_key k [] = false
contains_key k ((j, r) ∷ m) = same k j || contains_key k m

unfoldable pub remove_key : Text → Store → Store
remove_key k m = retain (λ e. not (same k e.0)) m

unfoldable pub insert_key : Text → EthereumReservation → Store → Store
insert_key k r m = (k, r) ∷ remove_key k m

-- `.filter(|(key, _)| key.starts_with(prefix)).find(|(_, r)| r.user_id == user_id)`
unfoldable pub find_user : Text → Text → Store → Option EthereumReservation
find_user prefix user [] = none
find_user prefix user ((k, r) ∷ m) =
    if starts_with prefix k && same r.user_id user then some r else find_user prefix user m

module _ (env : PoolEnv) (prefix : Text) (user : Text) where
  unfoldable pub assignment : ManagedEthereumWallet → EthereumReservation
  assignment w = record {
    user_id = user;
    address = w.address;
    wallet_index = w.index;
    reserved_at_unix = env.unix_timestamp;
    expires_at_unix = never_expires;
  }

  -- The wallet becomes the user's, whoever had it.
  unfoldable pub give : ManagedEthereumWallet → Exec Pool EthereumReservation
  unfolding assignment
  give w p = (
    ok (assignment w),
    record p { store = insert_key (prefix ++ w.address) (assignment w) p.store },
  )

  -- The loop over the candidates.
  unfoldable pub first_free : List ManagedEthereumWallet → Store → Option ManagedEthereumWallet
  first_free [] m = none
  first_free (w ∷ ws) m = if contains_key (prefix ++ w.address) m then first_free ws m else some w

  unfoldable pub give_free : Option ManagedEthereumWallet → Exec Pool (Option EthereumReservation)
  unfolding give
  give_free none = pure none
  give_free (some w) = give w >>= λ r. pure (some r)

  unfoldable pub keep_or_give : Option EthereumReservation → Exec Pool (Option EthereumReservation)
  unfolding give_free
  keep_or_give (some existing) p = pure (some existing) p
  keep_or_give none p = give_free (first_free p.wallets p.store) p

  -- The block under the lock of the store: the user's reservation, or one of a free wallet, or
  -- `none` if the pool is exhausted.
  unfoldable pub claim : Exec Pool (Option EthereumReservation)
  unfolding keep_or_give
  claim p = keep_or_give (find_user prefix user p.store) p

abbrev no_keypair : DetectorError
no_keypair = api_error (text "Failed to generate a valid Ethereum keypair after several attempts")

unfoldable pub wallet_or :
    ℕ → Result ManagedEthereumWallet → Option Text → Result ManagedEthereumWallet
wallet_or index rest (some a) = ok (record { index = index; address = a })
wallet_or index rest none = rest

-- The tries that are left, at the `i`-th.
unfoldable pub wallet_from : (ℕ → Option Text) → ℕ → ℕ → ℕ → Result ManagedEthereumWallet
unfolding wallet_or
wallet_from keys index zero i = err no_keypair
wallet_from keys index (suc left) i = wallet_or index (wallet_from keys index left (i + 1)) (keys i)

unfoldable pub generate_random_ethereum_wallet :
    (ℕ → Option Text) → ℕ → Result ManagedEthereumWallet
unfolding wallet_from
generate_random_ethereum_wallet keys index = wallet_from keys index 32 0

module _ (env : PoolEnv) (c : Chain) where
  -- The number in the message is left out.
  unfoldable pub refused : DetectorError
  refused =
      invalid_config
        (name c ++ text " wallet pool reached " ++ chain_env_prefix c ++ text "_MAX_POOL_SIZE")

  unfoldable pub push_wallet : ManagedEthereumWallet → Exec Pool ManagedEthereumWallet
  push_wallet w = do
    lift (env.append_to_pool_file w) >>= λ _.
        modify (λ (p : Pool). record p { wallets = p.wallets ++ (w ∷ []) })
    pure w

  -- Under the write lock of the pool.
  unfoldable pub grow_ethereum_pool : Exec Pool ManagedEthereumWallet
  unfolding refused push_wallet generate_random_ethereum_wallet
  grow_ethereum_pool p =
      if leb env.max_pool_size (length p.wallets)
      then (err refused, p)
      else (lift (generate_random_ethereum_wallet env.random_address (length p.wallets % 2 ^ 32))
            >>= push_wallet)
          p

  unfoldable pub grow_and_give :
      Text → Text → Option EthereumReservation → Exec Pool EthereumReservation
  unfolding give grow_ethereum_pool
  grow_and_give prefix user (some r) = pure r
  grow_and_give prefix user none = grow_ethereum_pool >>= give env prefix user

  -- The body of `assign_ethereum_wallet_for_user_in_memory`, for the prefix of the chain.
  unfoldable pub assign_with : Text → Text → Exec Pool EthereumReservation
  unfolding claim grow_and_give
  assign_with prefix user = claim env prefix user >>= grow_and_give prefix user

  assign_under : Text → Option Text → Option (Exec Pool EthereumReservation)
  unfolding assign_with
  assign_under user none = none
  assign_under user (some prefix) = some (assign_with prefix user)

  -- `assign_ethereum_wallet_for_user_in_memory`; `none` where it panics.
  unfoldable pub assign_in_memory : Text → Option (Exec Pool EthereumReservation)
  unfolding assign_under
  assign_in_memory user_id = assign_under (trim user_id) (reservation_key_prefix c)

-- `delete_all_ethereum_assignments` in memory.
unfoldable pub delete_all : Text → Pool → ℕ × Pool
delete_all prefix p = (
  length (retain (λ e. starts_with prefix e.0) p.store),
  record p { store = retain (λ e. not (starts_with prefix e.0)) p.store },
)
