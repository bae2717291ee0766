-- ===== src/Evm/Paid.antt =====
-- `recover_txid` of ethereum.rs, once the user's managed address is known.
use crypto_payment_detector.Base.{
  ℕ, suc, find, get_elem?, ◌≡◌, refl, arith, Bool, true, false, not, Option, none, some, List, [],
  ◌∷◌, ◌==◌, any,
}
use crypto_payment_detector.Base.Text.{Text, same}
use crypto_payment_detector.Base.Float.{Float}
use crypto_payment_detector.Types.Recover.{
  RecoverStatus, tx_not_found, no_credit_amount, RecoverResponse, new_response,
}
use crypto_payment_detector.Error.Defs.{ok}
use crypto_payment_detector.Error.Exec.{
  Yields, Yields-bind, Yields-if, lift-Yields, raise-Yields, pure-Yields, pure, lift,
}
use crypto_payment_detector.EvmPool.{EthereumReservation}
use crypto_payment_detector.Evm.Chain.{
  Ethers, Receipt, Log, EthTransaction, Erc20TokenConfig, from_big_endian,
}
use crypto_payment_detector.Evm.State.{
  EthereumDetector, DetectedEthereumPayment, World, Action, Machine,
}
use crypto_payment_detector.Evm.Receipts.{equals, equals→≡, receipt_succeeded, transaction_receipt}
use crypto_payment_detector.Evm.Scan.{is_native_gas_tank_top_up}
use crypto_payment_detector.Evm.Tokens.{token_payment}
use crypto_payment_detector.Evm.Sweep.{owns}
use crypto_payment_detector.Evm.RecoverPayment.{
  always, recover_payment, is_transfer_to, paid_token, log_payment, recover_logs, native_payment,
  pays_ether, recover_ether,
}
use crypto_payment_detector.Evm.Recover.{
  recover_in_block, recover_checked, recover_mined, recover_found,
}
use crypto_payment_detector.Evm.Passive.{Passive, Still, Answered, Receives, receipt-Receives}
use crypto_payment_detector.Evm.Claims.{
  Executed, Pays, ether, transfer, Claimed, Answers, recover_payment-Fine,
}

module _ {F : Type 0} (fl : Float F) (eth : Ethers F) (w : World F) (d : EthereumDetector F) where
  module _ (user txid canonical id : Text) (m : Machine F) where
    abbrev mk : RecoverStatus → RecoverResponse F
    mk = new_response d.config.chain canonical id

    abbrev Fine : RecoverResponse F → Machine F → Type 0
    Fine r n = Answers fl eth w d user txid r.status m n

    module _ (hash : ℕ) (names : eth.parse_hash txid ≡ some hash) where
      module _ (r : EthereumReservation) (address : ℕ) (users : same r.user_id user ≡ true)
          (parsed : eth.parse_address r.address ≡ some address)
          (managed : any (owns fl eth w d always address) d.wallets ≡ true) where
        claim :
            (p : DetectedEthereumPayment)
            → p.reservation ≡ r
            → p.txid ≡ eth.format_hash hash
            → Pays fl eth w d hash address p
            → (p.amount == 0) ≡ false
            → Claimed fl eth w d user hash p
        claim p q t paid h = record {
          address = address;
          users = rw q users;
          of_transaction = t;
          paid = paid;
          positive = h;
          parsed = rw q parsed;
          managed = managed;
        }

        -- What the tests of a log that pays the address say.
        pub record Transferred (log : Log) (token : Erc20TokenConfig) : Type 0 where
          pub topic : get_elem? log.topics 0 ≡ some eth.transfer_topic
          pub recipient : get_elem? log.topics 2 ≡ some address
          pub configured : find (λ t. t.contract == log.address) d.tokens ≡ some token
          pub positive : (from_big_endian log.bytes == 0) ≡ false

        tests_of_log :
            (log : Log) (token : Erc20TokenConfig) (found : Option Erc20TokenConfig)
            → find (λ t. t.contract == log.address) d.tokens ≡ found
            → paid_token fl eth w d address log ≡ some token
            → Transferred log token
        unfolding paid_token is_transfer_to
        tests_of_log log token none f h = absurd (ground arith)
        tests_of_log log token (some t) f h = record {
          topic = equals→≡ _ _ (ground arith);
          recipient = equals→≡ _ _ (ground arith);
          configured = ground arith;
          positive = ground arith;
        }

        Within : List Log → Receipt → Type 0
        Within logs receipt =
            (i : ℕ) (log : Log)
            → get_elem? logs i ≡ some log
            → (k : ℕ) × (get_elem? receipt.logs k ≡ some log)

        log_if :
            (block : ℕ) (receipt : Receipt) (log : Log) (rest : Action F (RecoverResponse F))
            (found : Option Erc20TokenConfig)
            → Executed fl eth w d hash block receipt
            → (k : ℕ) × (get_elem? receipt.logs k ≡ some log)
            → paid_token fl eth w d address log ≡ found
            → Yields (Still eth w m) Fine rest
            → Yields (Still eth w m) Fine (elim found [
              | none ↦ rest
              | some token ↦
                  recover_payment fl eth w d mk (log_payment fl eth w d hash block r token log)
            ])
        unfolding log_payment token_payment
        log_if block receipt log rest none x k h y = y
        log_if block receipt log rest (some token) x k h y =
            let t = tests_of_log log token _ refl h in
            recover_payment-Fine fl eth w d user txid canonical id m hash names _ (
              claim _ refl refl
                (transfer receipt k.0 log token x k.1 t.topic t.recipient t.configured refl refl
                  refl)
                t.positive)

        refuse :
            (s : RecoverStatus)
            → ((n : Machine F) → Passive m n → Fine (mk s) n)
            → Yields (Still eth w m) Fine (pure (mk s))
        refuse s h = pure-Yields (mk s) h

        recover_logs-Fine :
            (block : ℕ) (receipt : Receipt) (logs : List Log)
            → Executed fl eth w d hash block receipt
            → Within logs receipt
            → Yields (Still eth w m) Fine (recover_logs fl eth w d mk hash block r address logs)
        unfolding recover_logs Answers Within
        recover_logs-Fine block receipt [] x k = refuse no_credit_amount (λ n h. h)
        recover_logs-Fine block receipt (log ∷ logs) x k =
            log_if block receipt log _ (paid_token fl eth w d address log) x (k 0 log refl) refl
              (recover_logs-Fine block receipt logs x (λ i l h. k (suc i) l h))

        -- What the test of the transaction for ether says.
        sends-ether :
            (tx : EthTransaction)
            → pays_ether fl eth w d address tx ≡ true
            → (tx.to ≡ some address) × ((tx.value == 0) ≡ false)
        unfolding pays_ether
        sends-ether tx h = (equals→≡ _ _ (ground arith), ground arith)

        recover_ether-Fine :
            (block : ℕ) (tx : EthTransaction) (receipt : Receipt)
            → (asked : ℕ) × (w.transaction_answer asked hash ≡ ok (some tx))
            → Executed fl eth w d hash block receipt
            → (tx.to ≡ some address) × ((tx.value == 0) ≡ false)
            → Yields (Still eth w m) Fine (recover_ether fl eth w d mk hash block r address tx)
        unfolding recover_ether native_payment Answers
        recover_ether-Fine block tx receipt a x h =
            Yields-if (is_native_gas_tank_top_up tx.from address d.gas_tank_address) _ _
              (λ t. refuse no_credit_amount (λ n k. k))
              (λ t.
                let p = native_payment fl eth w d hash block tx.value r address in
                recover_payment-Fine fl eth w d user txid canonical id m hash names p
                  (claim p refl refl (ether a.0 tx receipt a.1 x h.0 t refl refl refl) h.1))

        recover_in_block-Fine :
            (block : ℕ) (tx : EthTransaction) (receipt : Receipt)
            → (asked : ℕ) × (w.transaction_answer asked hash ≡ ok (some tx))
            → Executed fl eth w d hash block receipt
            → Yields
                (Still eth w m)
                Fine
                (recover_in_block fl eth w d mk hash block r address tx receipt)
        unfolding recover_in_block Answers Within
        recover_in_block-Fine block tx receipt a x =
            Yields-if (pays_ether fl eth w d address tx) _ _
              (λ h. recover_ether-Fine block tx receipt a x (sends-ether tx h))
              (λ h.
                Yields-if (equals receipt.status 0) _ _ (λ k. refuse tx_not_found (λ n i. i))
                  (λ k. recover_logs-Fine block receipt receipt.logs x (λ i l e. (i, e))))

        recover_checked-Fine :
            (block : ℕ) (tx : EthTransaction) (receipt : Receipt) (succeeded : Bool)
            → (asked : ℕ) × (w.transaction_answer asked hash ≡ ok (some tx))
            → (asked : ℕ) × (w.receipt_answer asked hash ≡ ok (some receipt))
            → receipt_succeeded receipt ≡ ok succeeded
            → Yields
                (Still eth w m)
                Fine
                (recover_checked fl eth w d mk hash block r address tx receipt succeeded)
        unfolding recover_checked Answers
        recover_checked-Fine block tx receipt false a b h = refuse no_credit_amount (λ n k. k)
        recover_checked-Fine block tx receipt true a b h =
            Yields-if (not (equals receipt.block_number block)) _ _ (λ k. raise-Yields _)
              (λ k. recover_in_block-Fine block tx receipt a (record {
                asked = b.0;
                answered = b.1;
                succeeded = h;
                mined = equals→≡ _ _ (ground arith);
              }))

        recover_mined-Fine :
            (tx : EthTransaction) (block : Option ℕ)
            → (asked : ℕ) × (w.transaction_answer asked hash ≡ ok (some tx))
            → Yields (Still eth w m) Fine (recover_mined fl eth w d mk hash r address tx block)
        unfolding recover_mined Answers
        recover_mined-Fine tx none a = refuse tx_not_found (λ n h. h)
        recover_mined-Fine tx (some block) a =
            Yields-bind (Receives eth w m hash) (transaction_receipt eth w always hash) _
              (receipt-Receives eth w m hash)
              (λ receipt.
                Yields-bind
                  (λ b n. (receipt_succeeded receipt ≡ ok b) × Receives eth w m hash receipt n)
                  (lift (receipt_succeeded receipt)) _ (lift-Yields _)
                  (λ succeeded. record {
                    at = λ n h.
                        (recover_checked-Fine block tx receipt succeeded a h.1.0 h.0).at n h.1.1;
                  }))

        pub recover_found-Fine :
            (tx : Option EthTransaction)
            → Yields
                (Answered eth w m (λ n. w.transaction_answer n hash) tx)
                Fine
                (recover_found fl eth w d mk hash r address tx)
        unfolding recover_found Answers
        recover_found-Fine none = pure-Yields (mk tx_not_found) (λ n h. h.1)
        recover_found-Fine (some tx) = record {
          at = λ n h. (recover_mined-Fine tx tx.block_number h.0).at n h.1;
        }
