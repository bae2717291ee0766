-- ===== src/Utxo/Scan.antt =====
-- The block loop of blockstream.rs: reorganisations, one block, and where a run starts.
use crypto_payment_detector.Base.{
  ℕ, zero, suc, ◌+◌, ◌-◌, Bool, true, false, Option, none, some, List, [], ◌∷◌, if◌then◌else◌, ltb,
  leb, add_u64, sub_u64, saturating_sub, retain, ◌==◌, u64_max,
}
use crypto_payment_detector.Base.Text.{Text, text, same, is_char_boundary}
use crypto_payment_detector.Base.Maps.{lookup, remove, put, retain_keys}
use crypto_payment_detector.Base.Float.{Float}
use crypto_payment_detector.Types.Payments.{DetectedPayment}
use crypto_payment_detector.Error.Defs.{api_error, Result, ok, err}
use crypto_payment_detector.Error.Exec.{pure, raise, gets, attempt, ◌>>=◌, ◌>>◌}
use crypto_payment_detector.Utxo.State.{
  SharedState, ExplorerApi, Block, Detector, World, Action, modify_shared, tick,
}
use crypto_payment_detector.Utxo.Outbox.{enqueue_or_confirm, persist_state, await_point}
use crypto_payment_detector.Utxo.Credit.{process_confirmed}
use crypto_payment_detector.Utxo.Explorers.{try_explorers}
use crypto_payment_detector.Utxo.Block.{Lookup, scan_raw_block_parallel}

-- How one round of the inner loop ends: the next height, or the end of the batch.
pub data Round : Type 0 where
  rolled_back : ℕ → Round
  stopped : Round
  advanced : ℕ → Round

-- `for h in from..from + count { known.remove(&h) }`
unfoldable pub remove_range : ℕ → ℕ → List (ℕ × Text) → List (ℕ × Text)
remove_range from zero known = known
remove_range from (suc count) known = remove_range (from + 1) count (remove from known)

module _ {F : Type 0} where
  -- The state after a reorganisation of `depth` blocks below `current`.
  unfoldable pub roll_back : ℕ → ℕ → SharedState F → SharedState F
  unfolding remove_range
  roll_back current depth s =
      let rollback_from = sub_u64 current depth in
      record s {
        pending = retain (λ p. ltb p.block_height rollback_from) s.pending;
        known_block_hashes =
            remove_range rollback_from (current - rollback_from) s.known_block_hashes;
        last_scanned_height = some (saturating_sub rollback_from 1);
      }

  -- The state after the block `current`, of which the hashes of the last blocks stay.
  unfoldable pub record_block : ℕ → ℕ → Text → SharedState F → SharedState F
  record_block min_confirmations current hash s =
      let min_keep = saturating_sub current (add_u64 min_confirmations 10) in
      record s {
        last_scanned_height = some current;
        known_block_hashes =
            retain_keys (λ h. leb min_keep h) (put current hash s.known_block_hashes);
      }

module _ {F : Type 0} (fl : Float F) (w : World F) (d : Detector F) where
  -- One request, after an `await`.
  unfoldable pub request : {A : Type 0} → (ℕ → ExplorerApi → Result A) → ExplorerApi → Action F A
  request answer e = do await_point w; λ m. (answer m.clock e, tick m)

  unfoldable pub get_chain_tip : Action F ℕ
  unfolding request
  get_chain_tip = try_explorers d.explorer_apis (request w.tip_answer) (text "get_chain_tip")

  unfoldable pub get_block_hash : ℕ → Action F Text
  unfolding request
  get_block_hash height =
      try_explorers d.explorer_apis (request (λ n e. w.block_hash_answer n e height))
        (text "get_block_hash")

  unfoldable pub fetch_raw_block : Text → Action F Block
  unfolding request
  fetch_raw_block hash =
      try_explorers d.explorer_apis (request (λ n e. w.block_answer n e hash))
        (text "fetch_raw_block")

  -- `&hash[..8]` in a log line, which panics on a shorter text.
  unfoldable pub log_prefix : Text → Action F (Unit {0})
  log_prefix hash =
      if is_char_boundary 8 hash
      then pure tt
      else raise (api_error (text "byte index 8 is not a char boundary"))

  -- Whether the chain has another hash than the stored one; a failed request ends the search.
  unfoldable pub compare_hashes : Text → Result Text → Action F Bool
  unfolding log_prefix
  compare_hashes stored (ok hash) =
      if same stored hash
      then pure false
      else (log_prefix stored >>= λ _. log_prefix hash >>= λ _. pure true)
  compare_hashes stored (err e) = pure false

  unfoldable pub check_height : Option Text → ℕ → Action F Bool
  unfolding compare_hashes
  check_height none h = pure false
  check_height (some stored) h = attempt (get_block_hash h) >>= compare_hashes stored

  -- The loop of `detect_reorg` from the height `h` down; `known` is the copy made at its start.
  unfoldable pub reorg_from : List (ℕ × Text) → ℕ → Action F ℕ
  unfolding check_height
  reorg_from known zero = do bad ← check_height (lookup 0 known) 0; pure (if bad then 1 else 0)
  reorg_from known (suc h) =
      let deeper = reorg_from known h >>= (λ depth. pure (suc depth)) in
      check_height (lookup (suc h) known) (suc h) >>= λ bad. if bad then deeper else pure 0

  unfoldable pub detect_reorg : ℕ → Action F ℕ
  unfolding reorg_from
  detect_reorg current_height = do
    known ← gets (λ m. m.shared.known_block_hashes)
    reorg_from known (saturating_sub current_height 1)

  unfoldable pub enqueue_found : List (DetectedPayment F) → Action F (Unit {0})
  enqueue_found [] = pure tt
  enqueue_found (p ∷ ps) = enqueue_or_confirm w (p ∷ ps)

  -- From the block to the cursor: the payments, the credits, the cursor, the state file.
  unfoldable pub finish_block : Lookup → ℕ → ℕ → Text → Block → Action F Round
  unfolding enqueue_found
  finish_block addresses tip current hash block = do
    enqueue_found (scan_raw_block_parallel fl w d block addresses current tip)
    attempt (process_confirmed fl w d tip) >>= λ _. pure tt
    modify_shared (record_block d.config.min_confirmations current hash)
    persist_state w
    pure (advanced (add_u64 current 1))

  unfoldable pub with_block : Lookup → ℕ → ℕ → Text → Result Block → Action F Round
  unfolding log_prefix finish_block
  with_block addresses tip current hash (ok block) =
      log_prefix hash >>= λ _. finish_block addresses tip current hash block
  with_block addresses tip current hash (err e) = pure stopped

  unfoldable pub with_hash : Lookup → ℕ → ℕ → Result Text → Action F Round
  unfolding with_block
  with_hash addresses tip current (ok hash) =
      attempt (fetch_raw_block hash) >>= with_block addresses tip current hash
  with_hash addresses tip current (err e) = pure stopped

  unfoldable pub scan_current : Lookup → ℕ → ℕ → Action F Round
  unfolding with_hash
  scan_current addresses tip current =
      attempt (get_block_hash current) >>= with_hash addresses tip current

  unfoldable pub apply_rollback : ℕ → ℕ → Action F Round
  unfolding roll_back
  apply_rollback current depth = do
    await_point w
    modify_shared (roll_back current depth)
    pure (rolled_back (sub_u64 current depth))

  -- The body of `while current_height <= tip_height`.
  unfoldable pub scan_round : Lookup → ℕ → ℕ → Action F Round
  unfolding detect_reorg apply_rollback scan_current
  scan_round addresses tip current = do
    depth ← detect_reorg current
    if ltb 0 depth then apply_rollback current depth else scan_current addresses tip current

-- Where `run_block_scan_loop` starts: the argument, or the block after the tip, or the block after
-- the persisted one, or the tip.
unfoldable pub initial_height : Option ℕ → Bool → Option ℕ → ℕ → ℕ
initial_height (some start) skip persisted tip = start
initial_height none true persisted tip = if tip == u64_max then tip else tip + 1
initial_height none false (some last) tip = add_u64 last 1
initial_height none false none tip = tip
