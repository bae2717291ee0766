-- ===== src/EthereumWitnesses.antt =====
-- The theorems on the EVM detector on concrete data: each of their hypotheses can hold.
use crypto_payment_detector.Base.{
  ℕ, ◌≡◌, ◌==◌, if◌then◌else◌, refl, Bool, true, false, some, [], ◌∷◌, arith, sym, subst,
  saturating_add,
}
use crypto_payment_detector.Base.Text.{Text, text, same, decimal}
use crypto_payment_detector.Error.Exec.{OnOk}
use crypto_payment_detector.Error.Defs.{api_error, Result, ok, err}
use crypto_payment_detector.Evm.Chain.{EthBlock, EthTransaction, Receipt}
use crypto_payment_detector.Evm.Receipts.{receipt_succeeded, validate_receipt}
use crypto_payment_detector.Evm.Cursors.{cursor}
use crypto_payment_detector.Base.Maps.{mem}
use crypto_payment_detector.Evm.State.{native, Other}
use crypto_payment_detector.Evm.Events.{is_known_event}
use crypto_payment_detector.Evm.Scan.{native_candidate, native_event_id}
use crypto_payment_detector.Evm.Loop.{scan_rounds, scan_sources, first_block}
use crypto_payment_detector.Evm.Sweep.{sweep_balance}
use crypto_payment_detector.Evm.Tank.{maintain_gas_tank, sweep_unreserved, active_addresses}
use crypto_payment_detector.Evm.View.{IsHonest, expected_native}
use crypto_payment_detector.Evm.Reached.{reached}
use crypto_payment_detector.Evm.Sources.{scan_sources-Complete}
use crypto_payment_detector.Evm.Rounds.{scan_rounds-ends}
use crypto_payment_detector.Evm.Transfers.{
  is_own, AllSent, maintain_gas_tank-Own, spares, sweep_unreserved-Spares, Spends,
  sweep_balance-Spends,
}
use crypto_payment_detector.Evm.Once.{Progress}
use crypto_payment_detector.Evm.Credit.{process_locked}
use crypto_payment_detector.Evm.Settled.{process_locked-Progress}
use crypto_payment_detector.Evm.Failover.{read_rpc, Trusts, From, read_rpc-Trusts}
use crypto_payment_detector.Evm.Requests.{with_rpc_retry, Settles, with_rpc_retry-Settles}
use crypto_payment_detector.Samples.{whole}
use crypto_payment_detector.EthereumSamples.{
  queued_machine, ethers, alices, eth_detector, view, eth_block, receipt_of, eth_world, eth_machine,
}

abbrev event : Text
event = native_event_id ethers eth_world eth_detector 7 10

same_block :
    (b : ℕ) (block : EthBlock EthTransaction)
    → ok (some (eth_block b)) ≡ ok (some block)
    → block.transactions ≡ view.transactions b
same_block b block h = let q : eth_block b ≡ block = cc in rw (← q) refl

same_status :
    (h : ℕ) (r : Receipt) (s : Bool)
    → ok (some (receipt_of h)) ≡ ok (some r)
    → receipt_succeeded r ≡ ok s
    → s ≡ true
unfolding receipt_succeeded
same_status h r s e i =
    let q : receipt_of h ≡ r = cc in
    let j : receipt_succeeded (receipt_of h) ≡ ok s =
      subst (λ t. receipt_succeeded t ≡ ok s) (sym q) i in
    ground arith

view-IsHonest : IsHonest eth_world view
view-IsHonest = record {
  block = λ n b block h. same_block b block h;
  receipt = λ n h r s e i. same_status h r s e i;
}

deposit_expected :
    expected_native ethers eth_world eth_detector view ((10, alices) ∷ []) 5 event ≡ true
unfolding expected_native native_candidate same native_event_id
deposit_expected = refl

five_reached :
    reached native
      (scan_sources ethers eth_world eth_detector ((10, alices) ∷ []) 5 eth_machine).1.shared
      5
    ≡ true
unfolding reached cursor scan_sources saturating_add is_known_event mem validate_receipt
    receipt_succeeded
five_reached = refl

scan_sources-Complete_example :
    is_known_event
      (scan_sources ethers eth_world eth_detector ((10, alices) ∷ []) 5 eth_machine).1.shared
      event
    ≡ true
unfolding cursor first_block
scan_sources-Complete_example =
    scan_sources-Complete ethers eth_world eth_detector view view-IsHonest ((10, alices) ∷ []) 5 5
      event (omega arith) deposit_expected eth_machine tt (omega arith) five_reached

scan_rounds-ends_example :
    scan_rounds ethers eth_world eth_detector native [] 7 9 5 eth_machine
    ≡ scan_rounds ethers eth_world eth_detector native [] 7 3 5 eth_machine
scan_rounds-ends_example =
    scan_rounds-ends ethers eth_world eth_detector native [] 7 (omega arith) 3 9 5 eth_machine
      (omega arith) (omega arith)

abbrev others_act : Other → Bool
others_act o = true

maintain_gas_tank-Own_example :
    AllSent whole ethers eth_world eth_detector others_act
      (is_own whole ethers eth_world eth_detector others_act)
      (maintain_gas_tank whole ethers eth_world eth_detector others_act eth_machine).1
maintain_gas_tank-Own_example =
    maintain_gas_tank-Own whole ethers eth_world eth_detector others_act eth_machine refl

sweep_unreserved-Spares_example :
    AllSent whole ethers eth_world eth_detector others_act
      (spares whole ethers eth_world eth_detector others_act
        (active_addresses whole ethers eth_world eth_detector others_act (alices ∷ [])))
      (sweep_unreserved whole ethers eth_world eth_detector others_act
        (ok (alices ∷ []))
        eth_machine).1
sweep_unreserved-Spares_example =
    sweep_unreserved-Spares whole ethers eth_world eth_detector others_act (alices ∷ []) eth_machine
      refl

sweep_balance-Spends_example :
    Spends whole ethers eth_world eth_detector others_act 10 1000000 eth_machine
      (sweep_balance whole ethers eth_world eth_detector others_act 10 1000000 eth_machine)
sweep_balance-Spends_example =
    sweep_balance-Spends whole ethers eth_world eth_detector others_act 10 1000000 eth_machine

process_locked-Progress_example :
    Progress whole ethers eth_world eth_detector queued_machine
      (process_locked whole ethers eth_world eth_detector 6 queued_machine).1
process_locked-Progress_example =
    process_locked-Progress whole ethers eth_world eth_detector 6 queued_machine

abbrev slow_node : ℕ → Result ℕ
slow_node n = if n == 0 then err (api_error (text "timeout")) else ok n

with_rpc_retry-Settles_example : Settles slow_node 0 (with_rpc_retry slow_node)
with_rpc_retry-Settles_example = with_rpc_retry-Settles slow_node

abbrev two_nodes : ℕ → ℕ → Result ℕ
two_nodes endpoint n = if endpoint == 0 then err (api_error (text "closed")) else ok 8453

read_rpc-Trusts_example :
    Trusts
      (λ v. false)
      some
      decimal
      8453
      (text "eth_getLogs")
      two_nodes
      two_nodes
      []
      (read_rpc (λ v. false) some decimal 8453 (text "eth_getLogs") two_nodes two_nodes 2 []).1
    × OnOk
        (From (λ v. false) some decimal 8453 (text "eth_getLogs") two_nodes two_nodes)
        (read_rpc (λ v. false) some decimal 8453 (text "eth_getLogs") two_nodes two_nodes 2 [])
read_rpc-Trusts_example =
    read_rpc-Trusts (λ v. false) some decimal 8453 (text "eth_getLogs") two_nodes two_nodes 2 []
