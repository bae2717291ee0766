-- ===== src/Evm/Receipts.antt =====
-- The blocks and receipts that ethereum.rs reads, and what it refuses of them.
use crypto_payment_detector.Base.{
  ◌≡◌, ap, ==→≡, arith, ℕ, Bool, true, false, not, ◌||◌, Option, none, some, List, [], ◌∷◌, ◌++◌,
  if◌then◌else◌, ◌==◌, any, length, is_some,
}
use crypto_payment_detector.Base.Text.{Text, text, contains, to_ascii_lowercase, decimal}
use crypto_payment_detector.Error.Defs.{DetectorError, api_error, Result, ok, err}
use crypto_payment_detector.Error.Display.{fmt}
use crypto_payment_detector.Error.Exec.{pure, raise, lift, attempt, ◌>>=◌}
use crypto_payment_detector.Evm.Chain.{Ethers, Receipt, EthTransaction, EthBlock}
use crypto_payment_detector.Evm.State.{World, Action, Other}
use crypto_payment_detector.Evm.Events.{request, fetch}

-- `o == Some(n)` and `o != Some(n)`
abbrev pub equals : Option ℕ → ℕ → Bool
equals none n = false
equals (some k) n = k == n

pub equals→≡ : (o : Option ℕ) (n : ℕ) → equals o n ≡ true → o ≡ some n
equals→≡ none n h = absurd (ground arith)
equals→≡ (some k) n h = ap some (==→≡ k n h)

bad_status : Result Bool
bad_status = err (api_error (text "Transaction receipt missing a valid execution status"))

succeeded_by : Option ℕ → Result Bool
unfolding bad_status
succeeded_by none = bad_status
succeeded_by (some status) =
    if status == 1 then ok true else if status == 0 then ok false else bad_status

unfoldable pub receipt_succeeded : Receipt → Result Bool
unfolding succeeded_by
receipt_succeeded r = succeeded_by r.status

unfoldable pub validate_receipt : Receipt → ℕ → ℕ → ℕ → Result (Unit {0})
validate_receipt r txid block hash =
    if not (r.transaction_hash == txid)
      || not (equals r.block_number block)
      || not (equals r.block_hash hash)
    then err (
        api_error (
          text "Receipt disagrees with block "
          ++ decimal block
          ++ text "; possible reorg, retrying"))
    else ok tt

unfoldable pub should_fallback_to_receipts : DetectorError → Bool
unfolding fmt
should_fallback_to_receipts error =
    let msg = to_ascii_lowercase (fmt error) in
    any (λ part. contains part msg)
      (text "archive"
        ∷ text "returned null"
        ∷ text "not enabled"
        ∷ text "does not exist"
        ∷ text "not available"
        ∷ text "method not found"
        ∷ text "-32601"
        ∷ text "not supported"
        ∷ text "unsupported"
        ∷ text "block range"
        ∷ text "too many results"
        ∷ text "response size"
        ∷ text "-32005"
        ∷ [])

-- `ok_or_else`
abbrev pub some_or : {A : Type 0} → Text → Option A → Result A
some_or message none = err (api_error message)
some_or message (some a) = ok a

abbrev pub and_then : {A B : Type 0} → Result A → (A → Result B) → Result B
and_then (ok a) f = f a
and_then (err e) f = err e

unfoldable pub checked_block :
    ℕ → Option (EthBlock EthTransaction) → Result (EthBlock EthTransaction)
checked_block number answer =
    and_then
      (some_or (text "Block " ++ decimal number ++ text " is unavailable; cursor retained") answer)
      λ block.
        if not (equals block.number number) || not (is_some block.hash)
        then err (api_error (text "Invalid RPC block response for " ++ decimal number))
        else ok block

-- The hash and the transactions.
unfoldable pub checked_hashes : ℕ → Option (EthBlock ℕ) → Result (ℕ × List ℕ)
checked_hashes number answer =
    and_then
      (some_or (text "Block " ++ decimal number ++ text " unavailable during receipt scan") answer)
      λ block. and_then (some_or (text "Block missing hash") block.hash) λ hash.
        if not (equals block.number number)
        then err (api_error (text "Receipt scan received wrong block"))
        else ok (hash, block.transactions)

module _ {F : Type 0} (eth : Ethers F) (w : World F) (allowed : Other → Bool) where
  unfoldable pub full_block : ℕ → Action F (EthBlock EthTransaction)
  unfolding fetch checked_block
  full_block number = fetch eth w allowed (λ n. w.block_answer n number) (checked_block number)

  unfoldable pub checked_receipt : ℕ → Option Receipt → Result Receipt
  checked_receipt hash answer =
      and_then
        (some_or
          (text "Receipt "
            ++ eth.format_hash hash
            ++ text " unavailable; payment retained for retry")
          answer)
        λ receipt.
          if not (receipt.transaction_hash == hash)
            || not (is_some receipt.block_hash)
            || not (is_some receipt.block_number)
          then err
              (api_error (text "Incomplete or mismatched receipt for " ++ eth.format_hash hash))
          else ok receipt

  unfoldable pub transaction_receipt : ℕ → Action F Receipt
  unfolding fetch checked_receipt
  transaction_receipt hash =
      fetch eth w allowed (λ n. w.receipt_answer n hash) (checked_receipt hash)

  unfoldable pub receipts_one_by_one : List ℕ → Action F (List Receipt)
  receipts_one_by_one [] = pure []
  receipts_one_by_one (txid ∷ txids) = do
    receipt ← transaction_receipt txid
    receipts ← receipts_one_by_one txids
    pure (receipt ∷ receipts)

  unfoldable pub receipts_of_batch :
      ℕ → List ℕ → Result (Option (List Receipt)) → Action F (List Receipt)
  unfolding receipts_one_by_one
  receipts_of_batch number txids (ok none) =
      raise (api_error (text "Receipts for block " ++ decimal number ++ text " unavailable"))
  receipts_of_batch number txids (ok (some receipts)) = pure receipts
  receipts_of_batch number txids (err error) =
      if should_fallback_to_receipts error then receipts_one_by_one txids else raise error

  -- The loop over the receipts; `seen` are the transactions of those before.
  unfoldable pub check_receipts : ℕ → ℕ → List ℕ → List ℕ → List Receipt → Result (Unit {0})
  check_receipts number hash expected seen [] = ok tt
  check_receipts number hash expected seen (r ∷ rs) =
      let rest = check_receipts number hash expected (r.transaction_hash ∷ seen) rs in
      if not (any (λ t. t == r.transaction_hash) expected)
        || any (λ t. t == r.transaction_hash) seen
      then err (api_error (text "Unexpected/duplicate receipt in block " ++ decimal number))
      else elim (validate_receipt r r.transaction_hash number hash) [ ok u ↦ rest | err e ↦ err e ]

  unfoldable pub checked_receipts : ℕ → ℕ → List ℕ → List Receipt → Result (List Receipt)
  unfolding check_receipts
  checked_receipts number hash txids receipts =
      if not (length receipts == length txids)
      then err (api_error (text "Incomplete receipt set for block " ++ decimal number))
      else elim (check_receipts number hash txids [] receipts) [
        | ok u ↦ ok receipts
        | err e ↦ err e
      ]

  unfoldable pub batch : ℕ → Action F (Result (Option (List Receipt)))
  unfolding request
  batch number = attempt (request eth w allowed (λ n. w.block_receipts_answer n number))

  unfoldable pub receipts_of_block : ℕ → ℕ → List ℕ → Action F (List Receipt)
  unfolding batch receipts_of_batch checked_receipts
  receipts_of_block number hash [] = pure []
  receipts_of_block number hash (txid ∷ txids) = do
    answer ← batch number
    receipts ← receipts_of_batch number (txid ∷ txids) answer
    lift (checked_receipts number hash (txid ∷ txids) receipts)

  unfoldable pub block_receipts : ℕ → Action F (List Receipt)
  unfolding fetch checked_hashes receipts_of_block
  block_receipts number = do
    (hash, txids) ←
        fetch eth w allowed (λ n. w.block_hashes_answer n number) (checked_hashes number)
    receipts_of_block number hash txids
