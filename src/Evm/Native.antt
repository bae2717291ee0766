-- ===== src/Evm/Native.antt =====
-- `scan_native_eth` of ethereum.rs finds every payment of the blocks that it scans.
use crypto_payment_detector.Base.{
  ℕ, zero, suc, ◌+◌, ◌≤◌, ◌<◌, ◌≡◌, ap, ◌∙◌, Bool, true, false, Option, none, some, List, [], ◌∷◌,
  ◌++◌, arith, inl, inr, Bool-cases, any, ◌==◌, ==→≡,
}
use crypto_payment_detector.Base.Text.{Text, same→≡, same_refl}
use crypto_payment_detector.Error.Defs.{Result, ok, err}
use crypto_payment_detector.Error.Exec.{
  lift, after, OnOk, OnOk-bind, OnOk-lift, OnOk-pure, OnOk-any, pure,
}
use crypto_payment_detector.EvmPool.{EthereumReservation}
use crypto_payment_detector.Evm.Chain.{Ethers, EthTransaction}
use crypto_payment_detector.Evm.State.{
  EthereumDetector, EthereumState, native, DetectedEthereumPayment, World, Machine,
}
use crypto_payment_detector.Evm.Events.{is_known_event, while_scanning}
use crypto_payment_detector.Evm.Receipts.{
  receipt_succeeded, validate_receipt, full_block, checked_block, transaction_receipt,
  checked_receipt, some_or,
}
use crypto_payment_detector.Evm.Scan.{
  Reservations, native_candidate, native_event_id, paid, check_receipt, check_native,
  scan_transactions, scan_native_blocks,
}
use crypto_payment_detector.Evm.Known.{Scans}
use crypto_payment_detector.Evm.Still.{scan_transactions-Scans, scan_native_blocks-Scans}
use crypto_payment_detector.Evm.View.{
  View, IsHonest, Finds, seen, known-seen, seen-left, seen-right, pays_candidate, pays_native,
  expected_native, fetch-OnOk, checked_block-some, checked_receipt-some,
}

module _ {F : Type 0} (eth : Ethers F) (w : World F) (d : EthereumDetector F) (v : View)
    (honest : IsHonest w v) (rs : Reservations) where
  full_block-transactions :
      (n : ℕ) (m : Machine F)
      → OnOk (λ b t. b.transactions ≡ v.transactions n) (full_block eth w while_scanning n m)
  unfolding full_block
  full_block-transactions n m =
      fetch-OnOk eth w d v (λ i. w.block_answer i n) (checked_block n)
        (λ b. b.transactions ≡ v.transactions n)
        (λ i o b a c. honest.block i n b (a ∙ ap ok (checked_block-some eth w d v n o b c))) m

  transaction_receipt-status :
      (hash : ℕ) (m : Machine F)
      → OnOk
          (λ r t. (s : Bool) → receipt_succeeded r ≡ ok s → s ≡ v.succeeded hash)
          (transaction_receipt eth w while_scanning hash m)
  unfolding transaction_receipt
  transaction_receipt-status hash m =
      fetch-OnOk eth w d v (λ i. w.receipt_answer i hash)
        (checked_receipt eth w while_scanning hash)
        (λ r. (s : Bool) → receipt_succeeded r ≡ ok s → s ≡ v.succeeded hash)
        (λ i o r a c s e.
          honest.receipt i hash r s (a ∙ ap ok (checked_receipt-some eth w d v hash o r c)) e)
        m

  paid-seen :
      (n : ℕ) (tx : EthTransaction) (to : ℕ) (r : EthereumReservation) (b : Bool)
      (s : EthereumState)
      → b ≡ true
      → seen (native_event_id eth w d tx.hash to) (paid eth w d n tx to r b) s ≡ true
  unfolding paid seen
  paid-seen n tx to r true s h = ground (arith, same_refl (native_event_id eth w d tx.hash to))
  paid-seen n tx to r false s h = absurd (ground arith)

  check_receipt-Finds :
      (n hash : ℕ) (tx : EthTransaction) (to : ℕ) (r : EthereumReservation) (m : Machine F)
      → v.succeeded tx.hash ≡ true
      → Finds (native_event_id eth w d tx.hash to) (check_receipt eth w d n hash tx to r m)
  unfolding check_receipt
  check_receipt-Finds n hash tx to r m h =
      OnOk-bind (transaction_receipt eth w while_scanning tx.hash m) _ _ _
        (transaction_receipt-status tx.hash m)
        λ receipt s status.
          OnOk-bind (lift (validate_receipt receipt tx.hash n hash) s) _ _ _ (OnOk-lift _ s)
            λ u t valid.
              OnOk-bind (lift (receipt_succeeded receipt) t) _ _ _ (OnOk-lift _ t)
                λ b t' e. OnOk-pure _ _ _ (paid-seen n tx to r b t'.shared (status b e ∙ h))

  check_native-Finds :
      (n hash : ℕ) (tx : EthTransaction) (o : Option (ℕ × EthereumReservation)) (k : Text)
      (m : Machine F)
      → pays_candidate eth w d v k tx o ≡ true
      → Finds k (check_native eth w d n hash tx o m)
  unfolding check_native pays_candidate
  check_native-Finds n hash tx none k m h = absurd (ground arith)
  check_native-Finds n hash tx (some (to, r)) k m h =
      let id = native_event_id eth w d tx.hash to in
      let e : id ≡ k = same→≡ id k (ground arith) in
      rw (← e) elim (Bool-cases (is_known_event m.shared id)) [
        | inl i ↦ rw i (OnOk-pure _ _ _ (known-seen id [] m.shared i))
        | inr i ↦ rw i (check_receipt-Finds n hash tx to r m (ground arith))
      ]

  -- The payment stays in sight while the scan goes on.
  later-Finds :
      (k : Text) (ds : List DetectedEthereumPayment) (s : Machine F)
      (x : Result (List DetectedEthereumPayment) × Machine F)
      → Scans eth w native s x.1
      → seen k ds s.shared ≡ true
      → Finds k (after x (λ es. pure (ds ++ es)))
  unfolding OnOk
  later-Finds k ds s (ok es, t) h i = seen-left native k ds es s.shared t.shared h i
  later-Finds k ds s (err e, t) h i = tt

  now-Finds :
      (k : Text) (ds : List DetectedEthereumPayment)
      (x : Result (List DetectedEthereumPayment) × Machine F)
      → Finds k x
      → Finds k (after x (λ es. pure (ds ++ es)))
  unfolding OnOk
  now-Finds k ds (ok es, t) h = seen-right k ds es t.shared h
  now-Finds k ds (err e, t) h = tt

  scan_transactions-Finds :
      (n hash : ℕ) (txs : List EthTransaction) (k : Text) (m : Machine F)
      → any (pays_native eth w d v rs k) txs ≡ true
      → Finds k (scan_transactions eth w d rs n hash txs m)
  unfolding scan_transactions pays_native OnOk
  scan_transactions-Finds n hash [] k m h = absurd (ground arith)
  scan_transactions-Finds n hash (tx ∷ txs) k m h =
      let o = native_candidate eth w d rs tx in
      let x = check_native eth w d n hash tx o m in
      elim (Bool-cases (pays_candidate eth w d v k tx o)) [
        | inl e ↦
            OnOk-bind x _ (λ ds s. seen k ds s.shared ≡ true) _
              (check_native-Finds n hash tx o k m e)
              λ ds s i.
                later-Finds k ds s (scan_transactions eth w d rs n hash txs s)
                  ((scan_transactions-Scans eth w d native rs n hash txs).at s) i
        | inr e ↦
            OnOk-bind x _ (λ ds s. Unit) _ (OnOk-any x)
              λ ds s u.
                now-Finds k ds (scan_transactions eth w d rs n hash txs s)
                  (scan_transactions-Finds n hash txs k s (ground arith))
      ]

  pub scan_native_blocks-Finds :
      (left from b : ℕ) (k : Text) (m : Machine F)
      → from ≤ b
      → b < from + left
      → expected_native eth w d v rs b k ≡ true
      → Finds k (scan_native_blocks eth w d rs left from m)
  unfolding scan_native_blocks expected_native OnOk
  scan_native_blocks-Finds zero from b k m h i e = absurd (omega arith)
  scan_native_blocks-Finds (suc left) from b k m h i e =
      OnOk-bind (full_block eth w while_scanning from m) _ _ _ (full_block-transactions from m)
        λ block s same_txs.
          OnOk-bind (lift (some_or _ block.hash) s) _ _ _ (OnOk-lift _ s) λ hash t found_hash.
            let x = scan_transactions eth w d rs from hash block.transactions t in
            elim (Bool-cases (from == b)) [
              | inl now ↦
                  OnOk-bind x _ (λ ds u. seen k ds u.shared ≡ true) _
                    (scan_transactions-Finds from hash block.transactions k t
                      (rw (same_txs, ==→≡ from b now) e))
                    λ ds u j.
                      later-Finds k ds u (scan_native_blocks eth w d rs left (from + 1) u)
                        ((scan_native_blocks-Scans eth w d native rs left (from + 1)).at u) j
              | inr other ↦
                  OnOk-bind x _ (λ ds u. Unit) _ (OnOk-any x)
                    λ ds u j. now-Finds k ds (scan_native_blocks eth w d rs left (from + 1) u) (
                      scan_native_blocks-Finds left (from + 1) b k u (ground arith) (omega arith) e)
            ]
