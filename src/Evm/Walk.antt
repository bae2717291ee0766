-- ===== src/Evm/Walk.antt =====
-- The runs of the sweeps and of the upkeep of ethereum.rs: whatever relation its waits, its requests
-- and its permitted transfers respect, they respect.
use crypto_payment_detector.Base.{ℕ, suc, ◌-◌, ◌*◌, ◌≡◌, refl, Bool, ◌∷◌, ◌==◌, leb}
use crypto_payment_detector.Base.Text.{Text}
use crypto_payment_detector.Base.Float.{Float}
use crypto_payment_detector.Error.Defs.{Result, ok, err}
use crypto_payment_detector.Error.Exec.{lift, attempt, Follows, Follows-bind, Follows-if, ◌>>=◌}
use crypto_payment_detector.EvmPool.{ManagedEthereumWallet}
use crypto_payment_detector.Evm.Chain.{Ethers, Transfer, checked}
use crypto_payment_detector.Evm.State.{EthereumDetector, Other, World, Machine, Action, tick}
use crypto_payment_detector.Evm.Events.{ask, await_point, request, fetch}
use crypto_payment_detector.Evm.Amounts.{native_transfer_gas_limit, fee_ratio_too_high_u256}
use crypto_payment_detector.Evm.Sweep.{
  managed_address, find_ethereum_wallet, eth_balance, gas_price, hand_over, send_transaction,
  native_transfer, send_native, sweep_native_with, sweep_balance, sweep_native_from_address,
  token_transfer,
}

-- A relation that the waits, the requests and the transfers of `P` respect.
pub record Walk {F : Type 0} (eth : Ethers F) (w : World F) (allowed : Other → Bool)
    (P : Transfer → Type 0) (R : Machine F → Machine F → Type 0) : Type 0 where
  pub keep : (m : Machine F) → R m m
  pub trans : (a b c : Machine F) → R a b → R b c → R a c
  pub ticks : (m : Machine F) → R m (tick m)
  pub waits : Follows R (await_point eth w allowed)
  pub sends :
      (t : Transfer)
      → P t
      → (m : Machine F) → R m (record m { sent = t ∷ m.sent; clock = suc m.clock })

module _ {F : Type 0} {eth : Ethers F} {w : World F} {allowed : Other → Bool}
    {P : Transfer → Type 0} {R : Machine F → Machine F → Type 0}
    (walk : Walk eth w allowed P R) where
  pub result : {A : Type 0} (r : Result A) → Follows R (lift r)
  result r = record { at = walk.keep }

  pub chain :
      {A B : Type 0} (a : Action F A) (f : A → Action F B)
      → Follows R a
      → ((x : A) → Follows R (f x))
      → Follows R (a >>= f)
  chain = Follows-bind walk.trans

  pub tried : {A : Type 0} (a : Action F A) → Follows R a → Follows R (attempt a)
  tried a h = record { at = λ m. h.at m }

  -- A result, of which the rest may use how it came about.
  pub given :
      {A B : Type 0} (r : Result A) (f : A → Action F B)
      → ((x : A) → r ≡ ok x → Follows R (f x))
      → Follows R (lift r >>= f)
  given (ok x) f h = record { at = λ m. (h x refl).at m }
  given (err e) f h = record { at = walk.keep }

  pub request-Walk : {A : Type 0} (answer : ℕ → Result A) → Follows R (request eth w allowed answer)
  unfolding request ask
  request-Walk answer =
      chain (await_point eth w allowed) (λ u. ask eth w answer) walk.waits
        (λ u. record { at = walk.ticks })

  pub fetch-Walk :
      {A B : Type 0} (answer : ℕ → Result A) (check : A → Result B)
      → Follows R (fetch eth w allowed answer check)
  unfolding fetch
  fetch-Walk answer check =
      chain (request eth w allowed answer) _ (request-Walk answer) (λ a. result (check a))

module _ {F : Type 0} (fl : Float F) (eth : Ethers F) (w : World F) (d : EthereumDetector F)
    (allowed : Other → Bool) (P : Transfer → Type 0) where
  -- What the sweep of one address may send.
  pub record Permits (a : ℕ) : Type 0 where
    pub native :
        (amount price : ℕ)
        → P (native_transfer fl eth w d allowed a d.gas_tank_address amount price)
    pub top_up :
        (amount price : ℕ)
        → P (native_transfer fl eth w d allowed d.gas_tank_address a amount price)
    pub token :
        (contract amount gas price : ℕ)
        → P (token_transfer fl eth w d allowed a contract amount gas price)

  -- A managed wallet's address may be swept.
  abbrev pub PermitsText : Text → Type 0
  PermitsText address =
      (a : ℕ) (wallet : ManagedEthereumWallet)
      → managed_address fl eth w d allowed address ≡ ok a
      → find_ethereum_wallet fl eth w d allowed address a ≡ ok wallet
      → Permits a

module _ {F : Type 0} (fl : Float F) (eth : Ethers F) (w : World F) (d : EthereumDetector F)
    (allowed : Other → Bool) (P : Transfer → Type 0) (R : Machine F → Machine F → Type 0)
    (walk : Walk eth w allowed P R) where
  pub eth_balance-Walk : (a : ℕ) → Follows R (eth_balance fl eth w d allowed a)
  unfolding eth_balance
  eth_balance-Walk a = request-Walk walk (λ n. w.balance_answer n a)

  pub gas_price-Walk : Follows R (gas_price fl eth w d allowed)
  unfolding gas_price
  gas_price-Walk = request-Walk walk (λ n. w.gas_price_answer n)

  pub send_transaction-Walk :
      (t : Transfer) → P t → Follows R (send_transaction fl eth w d allowed t)
  unfolding send_transaction hand_over
  send_transaction-Walk t p =
      chain walk (await_point eth w allowed) (λ u. hand_over fl eth w d allowed t) walk.waits
        (λ u. record { at = walk.sends t p })

  pub send_native-Walk :
      (from to amount price : ℕ)
      → P (native_transfer fl eth w d allowed from to amount price)
      → Follows R (send_native fl eth w d allowed from to amount price)
  unfolding send_native
  send_native-Walk from to amount price p = send_transaction-Walk _ p

  sweep_native_with-Walk :
      (a balance price fee : ℕ)
      → Permits fl eth w d allowed P a
      → Follows R (sweep_native_with fl eth w d allowed a balance price fee)
  unfolding sweep_native_with
  sweep_native_with-Walk a balance price fee p =
      Follows-if (leb balance fee) _ _ (result walk (ok _)) (
        Follows-if (fee_ratio_too_high_u256 fl eth fee balance d.config.max_fee_ratio) _ _
          (result walk (ok _))
          (chain walk _ _
            (send_native-Walk a d.gas_tank_address (balance - fee) price (p.native _ price))
            (λ txid. result walk (ok _))))

  sweep_balance-Walk :
      (a balance : ℕ)
      → Permits fl eth w d allowed P a
      → Follows R (sweep_balance fl eth w d allowed a balance)
  unfolding sweep_balance
  sweep_balance-Walk a balance p = Follows-if (balance == 0) _ _ (result walk (ok _)) (
      chain walk _ _ gas_price-Walk λ price.
        given walk (checked (native_transfer_gas_limit * price)) _
          λ fee e. sweep_native_with-Walk a balance price fee p)

  pub sweep_native-Walk :
      (address : Text)
      → PermitsText fl eth w d allowed P address
      → Follows R (sweep_native_from_address fl eth w d allowed address)
  unfolding sweep_native_from_address
  sweep_native-Walk address p = given walk (managed_address fl eth w d allowed address) _ λ a e.
      given walk (find_ethereum_wallet fl eth w d allowed address a) _ λ wallet i.
        chain walk _ _ (eth_balance-Walk a) λ balance. sweep_balance-Walk a balance (p a wallet e i)
