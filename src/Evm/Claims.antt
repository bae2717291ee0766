-- ===== src/Evm/Claims.antt =====
-- The payments that `recover_txid` of ethereum.rs may credit.
use crypto_payment_detector.Base.{
  ℕ, ◌≡◌, refl, Bool, true, false, some, if◌then◌else◌, ◌==◌, any, none, get_elem?, find, unwrap_or,
}
use crypto_payment_detector.Base.Text.{Text, same}
use crypto_payment_detector.Base.Maps.{mem}
use crypto_payment_detector.Base.Float.{Float}
use crypto_payment_detector.Types.Recover.{
  RecoverStatus, was_credited, already_credited, pending_sweep, address_not_owned, wrong_user,
  tx_not_found, no_credit_amount, RecoverResponse, new_response, with_asset,
}
use crypto_payment_detector.Error.Exec.{OnOk, Yields, Yields-bind, Yields-any, pure}
use crypto_payment_detector.Evm.Chain.{
  Ethers, Receipt, Log, EthTransaction, Erc20TokenConfig, from_big_endian,
}
use crypto_payment_detector.Error.Defs.{ok}
use crypto_payment_detector.Evm.Receipts.{receipt_succeeded}
use crypto_payment_detector.Evm.Scan.{is_native_gas_tank_top_up, native_event_id}
use crypto_payment_detector.Evm.Tokens.{erc20_event_id}
use crypto_payment_detector.Evm.State.{EthereumDetector, DetectedEthereumPayment, World, Machine}
use crypto_payment_detector.Evm.Events.{request, emit_detected_and_enqueue}
use crypto_payment_detector.Evm.Credit.{process_credits}
use crypto_payment_detector.Evm.Amounts.{u256_to_units_f64}
use crypto_payment_detector.Evm.Sweep.{owns}
use crypto_payment_detector.Evm.RecoverPayment.{
  always, recover_outcome, enqueue_and_credit, recover_payment,
}
use crypto_payment_detector.Evm.Passive.{Passive, Still}

module _ {F : Type 0} (fl : Float F) (eth : Ethers F) (w : World F) (d : EthereumDetector F) where
  -- The node answered with this receipt of the transaction: it succeeded in the block.
  pub record Executed (hash block : ℕ) (receipt : Receipt) : Type 0 where
    pub asked : ℕ
    pub answered : w.receipt_answer asked hash ≡ ok (some receipt)
    pub succeeded : receipt_succeeded receipt ≡ ok true
    pub mined : receipt.block_number ≡ some block

  -- The payment is what the node shows of the transaction: its ether to the address, unless the gas
  -- tank is topped up by it, or a transfer of a configured token to the address in one of its logs.
  pub data Pays (hash address : ℕ) (p : DetectedEthereumPayment) : Type 0 where
    ether :
        (asked : ℕ) (tx : EthTransaction) (receipt : Receipt)
        → w.transaction_answer asked hash ≡ ok (some tx)
        → Executed hash p.block_number receipt
        → tx.to ≡ some address
        → is_native_gas_tank_top_up tx.from address d.gas_tank_address ≡ false
        → p.amount ≡ tx.value
        → p.token_contract ≡ none
        → p.event_id ≡ native_event_id eth w d hash address
        → Pays hash address p
    transfer :
        (receipt : Receipt) (index : ℕ) (log : Log) (token : Erc20TokenConfig)
        → Executed hash p.block_number receipt
        → get_elem? receipt.logs index ≡ some log
        → get_elem? log.topics 0 ≡ some eth.transfer_topic
        → get_elem? log.topics 2 ≡ some address
        → find (λ t. t.contract == log.address) d.tokens ≡ some token
        → p.amount ≡ from_big_endian log.bytes
        → p.token_contract ≡ some token.contract
        → p.event_id ≡ erc20_event_id eth w d token.contract hash (unwrap_or 0 log.log_index)
        → Pays hash address p

  -- A payment that the transaction makes, of more than nothing, to a managed address that is assigned
  -- to the user.
  pub record Claimed (user : Text) (hash : ℕ) (p : DetectedEthereumPayment) : Type 0 where
    pub address : ℕ
    pub users : same p.reservation.user_id user ≡ true
    pub of_transaction : p.txid ≡ eth.format_hash hash
    pub paid : Pays hash address p
    pub positive : (p.amount == 0) ≡ false
    pub parsed : eth.parse_address p.reservation.address ≡ some address
    pub managed : any (owns fl eth w d always address) d.wallets ≡ true

  -- The payment that an answer is about, and whether it is credited in the end.
  pub record Recovered (user txid : Text) (credited : Bool) (n : Machine F) : Type 0 where
    pub hash : ℕ
    pub payment : DetectedEthereumPayment
    pub names : eth.parse_hash txid ≡ some hash
    pub claimed : Claimed user hash payment
    pub marked : mem payment.event_id n.shared.credited_events ≡ credited

  unfoldable pub Answers : Text → Text → RecoverStatus → Machine F → Machine F → Type 0
  Answers user txid was_credited m n = Recovered user txid true n
  Answers user txid pending_sweep m n = Recovered user txid false n
  Answers user txid already_credited m n = Recovered user txid true n × Passive m n
  Answers user txid address_not_owned m n = Passive m n
  Answers user txid wrong_user m n = Passive m n
  Answers user txid tx_not_found m n = Passive m n
  Answers user txid no_credit_amount m n = Passive m n

  module _ (user txid canonical id : Text) (m : Machine F) where
    abbrev mk : RecoverStatus → RecoverResponse F
    mk = new_response d.config.chain canonical id

    abbrev Fine : RecoverResponse F → Machine F → Type 0
    Fine r n = Answers user txid r.status m n

    module _ (hash : ℕ) (names : eth.parse_hash txid ≡ some hash) where
      outcome_of :
          (p : DetectedEthereumPayment) (coin : F) (n : Machine F) (b : Bool)
          → mem p.event_id n.shared.credited_events ≡ b
          → Claimed user hash p
          → Fine (with_asset (mk (if b then was_credited else pending_sweep)) p.asset coin) n
      unfolding Answers
      outcome_of p coin n true h c = record {
        hash = hash;
        payment = p;
        names = names;
        claimed = c;
        marked = h;
      }
      outcome_of p coin n false h c = record {
        hash = hash;
        payment = p;
        names = names;
        claimed = c;
        marked = h;
      }

      recover_outcome-Fine :
          (p : DetectedEthereumPayment)
          → Claimed user hash p
          → Yields (λ n. Unit) Fine (recover_outcome fl eth w d mk p)
      unfolding recover_outcome OnOk
      recover_outcome-Fine p c = record {
        at = λ n u.
            outcome_of p (u256_to_units_f64 fl eth p.amount p.asset_decimals) n
              (mem p.event_id n.shared.credited_events) refl c;
      }

      enqueue-Fine :
          (p : DetectedEthereumPayment)
          → Claimed user hash p
          → Yields (λ n. Unit) Fine (enqueue_and_credit fl eth w d mk p)
      unfolding enqueue_and_credit
      enqueue-Fine p c =
          Yields-bind (λ a n. Unit) (request eth w always w.block_number_answer) _ (Yields-any _)
            (λ block.
              Yields-bind (λ a n. Unit) (emit_detected_and_enqueue eth w p) _ (Yields-any _)
                (λ u.
                  Yields-bind (λ a n. Unit) (process_credits fl eth w d block) _ (Yields-any _)
                    (λ v. recover_outcome-Fine p c)))

      payment_if :
          (p : DetectedEthereumPayment) (n : Machine F) (b : Bool)
          → Passive m n
          → mem p.event_id n.shared.credited_events ≡ b
          → Claimed user hash p
          → OnOk Fine
              ((if b then pure (mk already_credited) else enqueue_and_credit fl eth w d mk p) n)
      unfolding OnOk Answers
      payment_if p n true q h c =
          (record { hash = hash; payment = p; names = names; claimed = c; marked = h }, q)
      payment_if p n false q h c = (enqueue-Fine p c).at n tt

      pub recover_payment-Fine :
          (p : DetectedEthereumPayment)
          → Claimed user hash p
          → Yields (Still eth w m) Fine (recover_payment fl eth w d mk p)
      unfolding recover_payment
      recover_payment-Fine p c = record {
        at = λ n q. payment_if p n (mem p.event_id n.shared.credited_events) q refl c;
      }
