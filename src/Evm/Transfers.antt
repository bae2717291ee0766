-- ===== src/Evm/Transfers.antt =====
-- Which transactions ethereum.rs signs, and for how much.
use crypto_payment_detector.Base.{
  ℕ, ◌+◌, ◌-◌, ◌*◌, ◌<◌, ◌≡◌, refl, ◌⊎◌, inl, inr, arith, Bool, true, false, not, ◌&&◌, ◌||◌,
  Option, none, some, List, [], ◌∷◌, all, any, find, ◌==◌, ==_refl, leb, leb→lt, Bool-cases,
}
use crypto_payment_detector.Base.Text.{Text, to_ascii_lowercase}
use crypto_payment_detector.Base.Maps.{mem}
use crypto_payment_detector.Base.Float.{Float}
use crypto_payment_detector.Error.Defs.{Result, ok}
use crypto_payment_detector.Error.Exec.{after_lem, lift}
use crypto_payment_detector.EvmPool.{EthereumReservation, ManagedEthereumWallet}
use crypto_payment_detector.Evm.Chain.{Ethers, Transfer, checked}
use crypto_payment_detector.Evm.State.{EthereumDetector, Other, World, Machine, SweepResult}
use crypto_payment_detector.Evm.Events.{await_point, request, ask}
use crypto_payment_detector.Evm.Amounts.{native_transfer_gas_limit, fee_ratio_too_high_u256}
use crypto_payment_detector.Evm.Sweep.{
  managed_address, owns, find_ethereum_wallet, gas_price, hand_over, send_transaction, send_native,
  native_transfer, sweep_native_with, sweep_balance,
}
use crypto_payment_detector.Evm.Tank.{maintain_gas_tank, active_addresses, sweep_unreserved}
use crypto_payment_detector.Evm.Walk.{Walk, Permits, PermitsText}
use crypto_payment_detector.Evm.Upkeep.{
  PermitsTank, PermitsOrphans, maintain_gas_tank-Walk, sweep_orphans-Walk,
}

module _ {F : Type 0} (fl : Float F) (eth : Ethers F) (w : World F) (d : EthereumDetector F)
    (allowed : Other → Bool) where
  -- The address is that of a managed wallet.
  unfoldable pub is_managed : ℕ → Bool
  is_managed a = any (owns fl eth w d allowed a) d.wallets

  unfoldable pub own_native : Transfer → Bool
  unfolding is_managed
  own_native t =
      (is_managed t.from && t.to == d.gas_tank_address)
      || (t.from == d.gas_tank_address && (is_managed t.to || t.to == d.ledger_address))

  unfoldable pub own_token : Transfer → Bool
  unfolding is_managed
  own_token t = t.to == d.ledger_address && (is_managed t.from || t.from == d.gas_tank_address)

  own_by : Option ℕ → Transfer → Bool
  unfolding own_native own_token
  own_by none t = own_native t
  own_by (some contract) t = own_token t

  -- Ether goes from a managed wallet to the gas tank, or from the gas tank to a managed wallet or
  -- the ledger; tokens go from either to the ledger.
  unfoldable pub is_own : Transfer → Bool
  unfolding own_by
  is_own t = own_by t.token t

  abbrev pub AllSent : (Transfer → Bool) → Machine F → Type 0
  AllSent p m = all p m.sent ≡ true

  pub sent_walk :
      (p : Transfer → Bool)
      → Walk eth w allowed (λ t. p t ≡ true) (λ m m'. AllSent p m → AllSent p m')
  unfolding await_point
  sent_walk p = record {
    keep = λ m h. h;
    trans = λ a b c h k i. k (h i);
    ticks = λ m h. h;
    waits = record { at = λ m h. h };
    sends = λ t e m h. ground arith;
  }

  find-any :
      (a : ℕ) (address : Text) (wallet : ManagedEthereumWallet) (ws : List ManagedEthereumWallet)
      → find (owns fl eth w d allowed a) ws ≡ some wallet
      → any (owns fl eth w d allowed a) ws ≡ true
  find-any a address wallet [] h = absurd (ground arith)
  find-any a address wallet (v ∷ ws) h = ground (arith, find-any a address wallet ws)

  found_wallet :
      (a : ℕ) (address : Text) (wallet : ManagedEthereumWallet)
      → find_ethereum_wallet fl eth w d allowed address a ≡ ok wallet
      → find (owns fl eth w d allowed a) d.wallets ≡ some wallet
  unfolding find_ethereum_wallet
  found_wallet a address wallet h = ground arith

  managed-Permits :
      (a : ℕ) → is_managed a ≡ true → Permits fl eth w d allowed (λ t. is_own t ≡ true) a
  unfolding is_own own_by own_native own_token
  managed-Permits a h = record {
    native = λ amount price. ground (arith, ==_refl d.gas_tank_address);
    top_up = λ amount price. ground (arith, ==_refl d.gas_tank_address);
    token = λ contract amount gas price. ground (arith, ==_refl d.ledger_address);
  }

  managed_found :
      (a : ℕ) (address : Text) (wallet : ManagedEthereumWallet)
      → find_ethereum_wallet fl eth w d allowed address a ≡ ok wallet
      → is_managed a ≡ true
  unfolding is_managed
  managed_found a address wallet h =
      find-any a address wallet d.wallets (found_wallet a address wallet h)

  pub text-Permits :
      (address : Text) → PermitsText fl eth w d allowed (λ t. is_own t ≡ true) address
  text-Permits address a wallet e i = managed-Permits a (managed_found a address wallet i)

  tank-Permits : PermitsTank fl eth w d allowed (λ t. is_own t ≡ true)
  unfolding is_own own_by own_native own_token
  tank-Permits = record {
    excess = λ amount price. ground (arith, ==_refl d.gas_tank_address, ==_refl d.ledger_address);
    token = λ contract amount gas price.
        ground (arith, ==_refl d.gas_tank_address, ==_refl d.ledger_address);
  }

  -- If every transfer so far was ether from a managed wallet to the gas tank, ether from the gas
  -- tank to a managed wallet or the ledger, or tokens from either to the ledger, then so it is after
  -- the gas tank's upkeep, whatever fails and whatever other tasks do.
  pub maintain_gas_tank-Own :
      (m : Machine F) → AllSent is_own m → AllSent is_own (maintain_gas_tank fl eth w d allowed m).1
  maintain_gas_tank-Own m h =
      (maintain_gas_tank-Walk fl eth w d allowed _ _ (sent_walk is_own) tank-Permits).at m h

  -- The address is that of a managed wallet without an active reservation.
  unfoldable pub is_orphan : List Text → ManagedEthereumWallet → ℕ → Bool
  is_orphan active wallet a =
      owns fl eth w d allowed a wallet && not (mem (to_ascii_lowercase wallet.address) active)

  unfoldable pub spares : List Text → Transfer → Bool
  unfolding is_orphan
  spares active t =
      is_own t
      && (t.from == d.gas_tank_address || any (λ wallet. is_orphan active wallet t.from) d.wallets)

  orphan-Permits :
      (active : List Text) (a : ℕ)
      → is_managed a ≡ true
      → any (λ wallet. is_orphan active wallet a) d.wallets ≡ true
      → Permits fl eth w d allowed (λ t. spares active t ≡ true) a
  unfolding spares
  orphan-Permits active a h i =
      let own = managed-Permits a h in
      record {
        native = λ amount price. ground (arith, own.native amount price);
        top_up =
            λ amount price. ground (arith, own.top_up amount price, ==_refl d.gas_tank_address);
        token = λ contract amount gas price. ground (arith, own.token contract amount gas price);
      }

  owned :
      (wallet : ManagedEthereumWallet) (a : ℕ)
      → managed_address fl eth w d allowed wallet.address ≡ ok a
      → owns fl eth w d allowed a wallet ≡ true
  unfolding managed_address owns
  owned wallet a h = ground (arith, ==_refl a)

  head_orphan :
      (active : List Text) (wallet : ManagedEthereumWallet) (ws : List ManagedEthereumWallet)
      (a : ℕ)
      → mem (to_ascii_lowercase wallet.address) active ≡ false
      → owns fl eth w d allowed a wallet ≡ true
      → any (λ v. is_orphan active v a) (wallet ∷ ws) ≡ true
  unfolding is_orphan
  head_orphan active wallet ws a h i = ground arith

  -- The wallets of `ws` are among those of the detector.
  orphans-Permits :
      (active : List Text) (ws : List ManagedEthereumWallet)
      → ((f : ManagedEthereumWallet → Bool) → any f ws ≡ true → any f d.wallets ≡ true)
      → PermitsOrphans fl eth w d allowed (λ t. spares active t ≡ true) active ws
  orphans-Permits active [] h = tt
  orphans-Permits active (wallet ∷ ws) h = (
    λ idle a found e i.
        orphan-Permits active a (managed_found a wallet.address found i)
          (h (λ v. is_orphan active v a) (head_orphan active wallet ws a idle (owned wallet a e))),
    orphans-Permits active ws (λ f g. h f (ground arith)),
  )

  -- With the active reservations loaded, the sweep of orphan balances hands over only transfers of
  -- the kinds that the detector may make (ether to or from the gas tank, tokens to the ledger), each
  -- from the gas tank or from a managed wallet whose address is not actively reserved, if that holds
  -- of all that was handed over before.
  pub sweep_unreserved-Spares :
      (reservations : List EthereumReservation) (m : Machine F)
      → AllSent (spares (active_addresses fl eth w d allowed reservations)) m
      → AllSent
          (spares (active_addresses fl eth w d allowed reservations))
          (sweep_unreserved fl eth w d allowed (ok reservations) m).1
  unfolding sweep_unreserved
  sweep_unreserved-Spares reservations m h =
      let active = active_addresses fl eth w d allowed reservations in
      (sweep_orphans-Walk fl eth w d allowed _ _ (sent_walk (spares active)) active d.wallets
          (orphans-Permits active d.wallets (λ f g. g))).at
        m h

  -- Nothing was handed over, or one transfer that together with its fee spends the balance.
  abbrev pub Spends : ℕ → ℕ → Machine F → Result SweepResult × Machine F → Type 0
  Spends a balance m x =
      (x.1.sent ≡ m.sent)
      ⊎ ((t : Transfer) × (x.1.sent ≡ t ∷ m.sent)
          × (t.from ≡ a)
          × (t.to ≡ d.gas_tank_address)
          × (0 < t.amount)
          × (t.amount + t.gas * t.gas_price ≡ balance))

  sweep_native_with-Spends :
      (a balance price fee : ℕ) (m : Machine F)
      → fee ≡ native_transfer_gas_limit * price
      → Spends a balance m (sweep_native_with fl eth w d allowed a balance price fee m)
  unfolding sweep_native_with send_native send_transaction hand_over await_point
  sweep_native_with-Spends a balance price fee m h = elim (Bool-cases (leb balance fee)) [
    | inl e ↦ rw e (inl refl)
    | inr e ↦
        let gt = leb→lt balance fee e in
        let amount = balance - fee in
        let t = native_transfer fl eth w d allowed a d.gas_tank_address amount price in
        let positive : 0 < balance - fee = omega arith in
        let whole : balance - fee + native_transfer_gas_limit * price ≡ balance = omega arith in
        elim (Bool-cases (fee_ratio_too_high_u256 fl eth fee balance d.config.max_fee_ratio)) [
          | inl i ↦ rw (e, i) (inl refl)
          | inr i ↦
              rw (e, i)
                (after_lem (send_native fl eth w d allowed a d.gas_tank_address amount price m) _
                  (Spends a balance m) (λ txid j. inr (t, refl, refl, refl, positive, whole))
                  (λ y j. inr (t, refl, refl, refl, positive, whole)))
        ]
  ]

  checked_lem : (n k : ℕ) → checked n ≡ ok k → k ≡ n
  unfolding checked
  checked_lem n k h = ground arith

  -- A native sweep hands over at most one transfer, from the address to the gas tank, of a positive
  -- amount that together with its fee is the balance.
  pub sweep_balance-Spends :
      (a balance : ℕ) (m : Machine F)
      → Spends a balance m (sweep_balance fl eth w d allowed a balance m)
  unfolding sweep_balance gas_price request ask await_point
  sweep_balance-Spends a balance m = elim (Bool-cases (balance == 0)) [
    | inl e ↦ rw e (inl refl)
    | inr e ↦
        let x = gas_price fl eth w d allowed m in
        rw e (
          after_lem x _ (Spends a balance m)
            (λ price i.
              after_lem (lift (checked (native_transfer_gas_limit * price)) x.1)
                (λ fee. sweep_native_with fl eth w d allowed a balance price fee)
                (Spends a balance m)
                (λ fee j. sweep_native_with-Spends a balance price fee x.1 (checked_lem _ fee j))
                (λ y j. inl refl))
            (λ y i. inl refl))
  ]
