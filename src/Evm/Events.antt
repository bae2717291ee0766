-- ===== src/Evm/Events.antt =====
-- The event sets of ethereum.rs: what is known, saved, awaited and enqueued.
use crypto_payment_detector.Base.{
  ℕ, suc, Bool, true, false, not, ◌||◌, Option, some, List, [], ◌∷◌, ◌++◌, if◌then◌else◌, any,
  retain, bind,
}
use crypto_payment_detector.Base.Text.{Text, same}
use crypto_payment_detector.Base.Maps.{mem, insert}
use crypto_payment_detector.Error.Defs.{Result, ok, err}
use crypto_payment_detector.Error.Exec.{pure, lift, gets, ◌>>=◌, ◌>>◌}
use crypto_payment_detector.Evm.Chain.{Ethers}
use crypto_payment_detector.Evm.Cursors.{move_cursor}
use crypto_payment_detector.Evm.State.{
  EthereumPendingPayment, EthereumState, DetectedEthereumPayment, Other, enqueues, advances,
  credits, ignores, finishes, World, Action, modify_shared, tick, ScanKind,
}

abbrev pub has_id : Text → EthereumPendingPayment → Bool
has_id event_id p = same p.event_id event_id

unfoldable pub is_known_event : EthereumState → Text → Bool
is_known_event s event_id =
    mem event_id s.credited_events
    || mem event_id s.ignored_events
    || any (has_id event_id) s.pending

unfoldable pub remove_event : Text → EthereumState → EthereumState
remove_event event_id s = record s { pending = retain (λ p. not (has_id event_id p)) s.pending }

unfoldable pub ignore : Text → EthereumState → EthereumState
unfolding remove_event
ignore event_id s =
    remove_event event_id (record s { ignored_events = insert event_id s.ignored_events })

unfoldable pub credit : Text → EthereumState → EthereumState
credit event_id s = record s { credited_events = insert event_id s.credited_events }

-- Only an event that was credited leaves the outbox without being ignored.
unfoldable pub finish : Text → EthereumState → EthereumState
unfolding remove_event
finish event_id s = if mem event_id s.credited_events then remove_event event_id s else s

abbrev as_text : {F : Type 0} → Ethers F → Option ℕ → Option Text
as_text eth contract = bind contract (λ c. some (eth.format_address c))

module _ {F : Type 0} (eth : Ethers F) where
  unfoldable pub new_pending : DetectedEthereumPayment → EthereumPendingPayment
  new_pending p = record {
    event_id = p.event_id;
    txid = p.txid;
    block_number = p.block_number;
    amount_base_units = eth.format_u256 p.amount;
    asset = p.asset;
    asset_decimals = p.asset_decimals;
    token_contract = as_text eth p.token_contract;
    address = p.reservation.address;
    user_id = p.reservation.user_id;
    wallet_index = p.reservation.wallet_index;
    detected_notified = false;
  }

  -- The block of `emit_detected_and_enqueue` that holds the lock.
  unfoldable pub enqueue_one : DetectedEthereumPayment → EthereumState → EthereumState
  unfolding new_pending
  enqueue_one p s =
      if any (has_id p.event_id) s.pending || mem p.event_id s.credited_events
      then s
      else record s { pending = s.pending ++ (new_pending p ∷ []) }

  unfoldable pub apply_other : Other → EthereumState → EthereumState
  unfolding enqueue_one move_cursor credit ignore finish
  apply_other (enqueues p) s = enqueue_one p s
  apply_other (advances kind block) s = move_cursor kind block s
  apply_other (credits event_id) s = credit event_id s
  apply_other (ignores event_id) s = ignore event_id s
  apply_other (finishes event_id) s = finish event_id s

  unfoldable pub apply_others : (Other → Bool) → List Other → EthereumState → EthereumState
  unfolding apply_other
  apply_others allowed [] s = s
  apply_others allowed (o ∷ os) s =
      apply_others allowed os (if allowed o then apply_other o s else s)

-- `scan_lock` keeps the cursors to the scan that holds it.
unfoldable pub while_scanning : Other → Bool
while_scanning (advances kind block) = false
while_scanning (enqueues p) = true
while_scanning (credits event_id) = true
while_scanning (ignores event_id) = true
while_scanning (finishes event_id) = true

-- `credit_lock` keeps the marks and removals to the credit cycle that holds it.
unfoldable pub while_crediting : Other → Bool
while_crediting (advances kind block) = true
while_crediting (enqueues p) = true
while_crediting (credits event_id) = false
while_crediting (ignores event_id) = false
while_crediting (finishes event_id) = false

module _ {F : Type 0} (eth : Ethers F) (w : World F) where
  -- Where this task awaits, others change the shared state; `allowed` is what the lock lets them do.
  unfoldable pub await_point : (Other → Bool) → Action F (Unit {0})
  unfolding apply_others
  await_point allowed m =
      (ok tt, tick (record m { shared = apply_others eth allowed (w.others m.clock) m.shared }))

  unfoldable pub ask : {A : Type 0} → (ℕ → Result A) → Action F A
  ask answer m = (answer m.clock, tick m)

  -- One request, after an `await`.
  unfoldable pub request : {A : Type 0} → (Other → Bool) → (ℕ → Result A) → Action F A
  unfolding await_point ask
  request allowed answer = do await_point allowed; ask answer

  -- A request, and what the caller makes of its answer.
  unfoldable pub fetch :
      {A B : Type 0} → (Other → Bool) → (ℕ → Result A) → (A → Result B) → Action F B
  unfolding request
  fetch allowed answer check = do found ← request allowed answer; lift (check found)

  unfoldable pub finish_save : Result (Unit {0}) → Action F (Unit {0})
  finish_save (ok u) m = (ok tt, record m { disk = m.shared; clock = suc m.clock })
  finish_save (err e) m = (err e, tick m)

  unfoldable pub persist_state : Action F (Unit {0})
  unfolding finish_save
  persist_state m = finish_save (w.save_answer m.clock) m

  unfoldable pub mark_event_ignored : Text → Action F (Unit {0})
  unfolding persist_state ignore
  mark_event_ignored event_id = do modify_shared (ignore event_id); persist_state

  unfoldable pub emit_detected_and_enqueue : DetectedEthereumPayment → Action F (Unit {0})
  unfolding persist_state enqueue_one
  emit_detected_and_enqueue p = do
    known ← gets (λ m. is_known_event m.shared p.event_id)
    if known then pure tt else do modify_shared (enqueue_one eth p); persist_state

  unfoldable pub set_scan_cursor : ScanKind → ℕ → Action F (Unit {0})
  unfolding persist_state move_cursor
  set_scan_cursor kind block = do modify_shared (move_cursor kind block); persist_state
