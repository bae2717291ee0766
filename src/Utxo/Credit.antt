-- ===== src/Utxo/Credit.antt =====
-- `process_pending_payment` and `process_confirmed` of blockstream.rs.
use crypto_payment_detector.Base.{
  ℕ, ◌+◌, ◌-◌, Bool, true, false, not, ◌&&◌, ◌||◌, Option, none, some, List, [], ◌∷◌, if◌then◌else◌,
  ltb, leb, unwrap_or, or_else, get_elem?, retain, max, add_u64, bind,
}
use crypto_payment_detector.Base.Text.{Text, same}
use crypto_payment_detector.Base.Maps.{mem, insert}
use crypto_payment_detector.Base.Float.{Float}
use crypto_payment_detector.Types.Chains.{sats_per_unit}
use crypto_payment_detector.Types.Payments.{
  DetectedPayment, WebhookEvent, payment_detected, payment_credited, PendingPayment,
}
use crypto_payment_detector.Error.Defs.{Result, ok, err}
use crypto_payment_detector.Error.Exec.{pure, gets, attempt, ◌>>=◌, ◌>>◌}
use crypto_payment_detector.Webhook.{send_webhook as deliver}
use crypto_payment_detector.BitcoinSweep.{
  BitcoinSweepConfig, BitcoinSweepResult, sweep_address, nothing_swept,
}
use crypto_payment_detector.Utxo.State.{
  ExplorerApi, esplora, blockchair, Detector, World, Action, modify_shared, tick,
}
use crypto_payment_detector.Utxo.Outbox.{persist_state, await_point}

-- The base URL of an Esplora explorer.
unfoldable pub esplora_url : ExplorerApi → Option Text
esplora_url (esplora url) = some url
esplora_url (blockchair url) = none

unfoldable pub first_esplora : List ExplorerApi → Option Text
unfolding esplora_url
first_esplora [] = none
first_esplora (e ∷ es) = or_else (esplora_url e) (first_esplora es)

abbrev first : {A : Type 0} → List A → Option A
first [] = none
first (x ∷ xs) = some x

-- The explorer in use if it speaks Esplora, else the first of the list that does.
unfoldable pub esplora_base_url : List ExplorerApi → ℕ → Option Text
unfolding first_esplora esplora_url
esplora_base_url apis index =
    or_else (bind (or_else (get_elem? apis index) (first apis)) esplora_url) (first_esplora apis)

unfoldable pub confirmations_at : ℕ → ℕ → ℕ
confirmations_at tip height = if leb height tip then add_u64 (tip - height) 1 else 0

unfoldable pub is_id : Text → Option Text → Bool
is_id key none = false
is_id key (some k) = same k key

module _ {F : Type 0} where
  unfoldable pub event_key : PendingPayment F → Text
  event_key p = unwrap_or p.payment.txid p.payment.event_id

  -- `p.payment.event_id.as_ref() == Some(&key)`
  unfoldable pub has_event_id : Text → PendingPayment F → Bool
  unfolding is_id
  has_event_id key p = is_id key p.payment.event_id

  -- `iter_mut().find(..)` and the assignment.
  unfoldable pub mark_detected : Text → List (PendingPayment F) → List (PendingPayment F)
  unfolding has_event_id
  mark_detected key [] = []
  mark_detected key (p ∷ ps) =
      if has_event_id key p
      then record p { detected_notified = true } ∷ ps
      else p ∷ mark_detected key ps

  unfoldable pub remove_event : Text → List (PendingPayment F) → List (PendingPayment F)
  unfolding has_event_id
  remove_event key ps = retain (λ p. not (has_event_id key p)) ps

  unfoldable pub is_credited : List Text → PendingPayment F → Bool
  unfolding event_key
  is_credited notified p = mem (event_key p) notified || mem p.payment.txid notified

  -- The payment as it is announced: under its key, with its confirmations at the tip.
  unfoldable pub announced : PendingPayment F → ℕ → DetectedPayment F
  unfolding event_key confirmations_at
  announced pending tip = record (pending.payment) {
    event_id = some (event_key pending);
    confirmations = confirmations_at tip pending.block_height;
  }

module _ {F : Type 0} (fl : Float F) (w : World F) (d : Detector F) where
  unfoldable pub delivered : WebhookEvent F → ℕ → Result (Unit {0}) → Action F (Unit {0})
  delivered event requests (ok u) m =
      (ok tt, record m { acknowledged = event ∷ m.acknowledged; clock = m.clock + requests })
  delivered event requests (err e) m = (err e, record m { clock = m.clock + requests })

  -- `send_webhook(..).await`.
  unfoldable pub send_webhook : WebhookEvent F → Action F (Unit {0})
  unfolding delivered
  send_webhook event = do
    await_point w
    λ m.
        let answer = deliver (λ n. w.webhook_answer (m.clock + n)) w.webhook_failure in
        delivered event answer.requests answer.result m

  unfoldable pub sweep_outcome : Result BitcoinSweepResult → BitcoinSweepResult
  sweep_outcome (ok r) = r
  sweep_outcome (err e) = nothing_swept fl true

  unfoldable pub sweep_via : BitcoinSweepConfig F → Option Text → ℕ → Text → ℕ → BitcoinSweepResult
  sweep_via config none index address n = nothing_swept fl true
  sweep_via config (some url) index address n =
      sweep_outcome (sweep_address fl (w.sweep_answer n) url config index address)

  unfoldable pub sweep_with :
      Option (BitcoinSweepConfig F) → ℕ → Text → Action F (Option BitcoinSweepResult)
  unfolding sweep_outcome sweep_via
  sweep_with none index address = pure none
  sweep_with (some config) index address = do
    await_point w
    λ m.
        let url = esplora_base_url d.explorer_apis m.active_explorer_index in
        (ok (some (sweep_via config url index address m.clock)), tick m)

  unfoldable pub maybe_sweep : ℕ → Text → Action F (Option BitcoinSweepResult)
  unfolding sweep_with
  maybe_sweep = sweep_with d.sweep_config

  -- `if let Some(result) = &sweep { if !result.deferred { .. } }`
  unfoldable pub with_sweep : Option BitcoinSweepResult → DetectedPayment F → DetectedPayment F
  with_sweep none p = p
  with_sweep (some r) p = if r.deferred then p else record p {
    swept_to_address = bind d.sweep_config (λ c. some c.destination);
    swept_amount_sat = some r.amount_sat;
    swept_amount_coin =
        some (fl.div (fl.of_u64 r.amount_sat) (fl.of_u64 (sats_per_unit d.config.chain)));
    sweep_txid = r.txid;
  }

  unfoldable pub with_price : Result F → DetectedPayment F → DetectedPayment F
  with_price (ok price) p = record p {
    coin_price = some price;
    fiat_currency = some d.currency;
    fiat_amount = some (fl.mul p.amount_coin price);
  }
  with_price (err e) p = p

  unfoldable pub get_price : Action F (Result F)
  get_price = do await_point w; λ m. (ok (w.price_answer m.clock), tick m)

  abbrev pub is_deferred : Option BitcoinSweepResult → Bool
  is_deferred none = false
  is_deferred (some r) = r.deferred

  -- `payment_detected`, once per outbox entry.
  unfoldable pub notify_detected : Text → DetectedPayment F → Action F (Unit {0})
  notify_detected key payment = do
    send_webhook (payment_detected payment)
    modify_shared (λ s. record s { pending = mark_detected key s.pending })
    persist_state w

  -- `payment_credited`, then the key is marked and the state saved.
  unfoldable pub notify_credited : Text → DetectedPayment F → Action F (Unit {0})
  notify_credited key payment = do
    price ← get_price
    send_webhook (payment_credited (with_price price payment))
    modify_shared (λ s. record s { notified_confirmed = insert key s.notified_confirmed })
    persist_state w

  unfoldable pub drop_event : Text → Action F (Unit {0})
  drop_event key = do
    modify_shared (λ s. record s { pending = remove_event key s.pending })
    persist_state w

  -- What follows once the payment has its confirmations.
  unfoldable pub settle : Text → Bool → DetectedPayment F → Action F (Unit {0})
  settle key already payment = do
    sweep ← maybe_sweep payment.derivation_index payment.address
    if already then pure tt else notify_credited key (with_sweep sweep payment)
    if is_deferred sweep then pure tt else drop_event key

  unfoldable pub process_from : PendingPayment F → ℕ → Bool → Action F (Unit {0})
  process_from pending tip already = do
    let payment = announced pending tip
    let key = event_key pending
    if not pending.detected_notified && not already then notify_detected key payment else pure tt
    if ltb payment.confirmations (max d.config.min_confirmations 1)
        then pure tt
        else settle key already payment

  unfoldable pub process_pending_payment : PendingPayment F → ℕ → Action F (Unit {0})
  process_pending_payment pending tip = do
    already ← gets (λ m. is_credited m.shared.notified_confirmed pending)
    process_from pending tip already

  -- The loop of `process_confirmed`: an error is logged, and the entry stays for a later cycle.
  unfoldable pub process_all : List (PendingPayment F) → ℕ → Action F (Unit {0})
  process_all [] tip = pure tt
  process_all (p ∷ ps) tip = do attempt (process_pending_payment p tip) >>= λ _. process_all ps tip

  -- Other tasks may run until `credit_lock` is taken, which keeps a second run out for the whole of
  -- this one.
  unfoldable pub process_confirmed : ℕ → Action F (Unit {0})
  process_confirmed tip = do
    await_point w
    persist_state w
    pending ← gets (λ m. m.shared.pending)
    process_all pending tip
