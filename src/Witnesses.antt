-- ===== src/Witnesses.antt =====
-- The theorems on concrete data: each of their hypotheses can hold.
use crypto_payment_detector.Base.{
  ◌++◌, ℕ, ◌+◌, ◌-◌, ◌≤◌, ◌<◌, ◌≡◌, ◌⊎◌, refl, true, false, ◌&&◌, none, some, List, [], ◌∷◌, arith,
  if◌then◌else◌, ltb, leb, length, get_elem?, add_u64, mul_u64, sub_u64, saturating_mul,
}
use crypto_payment_detector.Base.Text.{
  is_char_boundary, trim, trim_end_matches, to_ascii_lowercase, ends_with, Text, text, contains,
  starts_with,
}
use crypto_payment_detector.Base.Maps.{lookup}
use crypto_payment_detector.Error.Defs.{DetectorError, webhook_error, Result, ok, err}
use crypto_payment_detector.Types.Payments.{DetectedPayment}
use crypto_payment_detector.Webhook.{send_webhook}
use crypto_payment_detector.Webhook.Laws.{IsDelivery, send_webhook-IsDelivery}
use crypto_payment_detector.BitcoinSweep.{
  EsploraUtxo, sweep_fee, sweep_address, total_input, vsize, fee_ratio_too_high,
}
use crypto_payment_detector.BitcoinSweep.Outcome.{Explained, sweep_address-Explained}
use crypto_payment_detector.Utxo.State.{Machine, ExplorerApi}
use crypto_payment_detector.Utxo.Outbox.{
  aggregate_utxo_payments, enqueue_all, persist_state, await_point,
}
use crypto_payment_detector.Utxo.Credit.{
  process_pending_payment, process_confirmed, is_credited, event_key, confirmations_at,
}
use crypto_payment_detector.Utxo.Progress.{IsSound, Progress, credit_ids, credits}
use crypto_payment_detector.Utxo.Process.{
  process_pending_payment-Progress, process_confirmed-Progress,
}
use crypto_payment_detector.Utxo.Credited.{IsUp, process_pending_payment-credits}
use crypto_payment_detector.Utxo.Enqueue.{
  AllKnown, enqueue_all_once, IsUnique, enqueue_all-IsUnique,
}
use crypto_payment_detector.Utxo.Merge.{paid}
use crypto_payment_detector.Utxo.Aggregate.{FitsU64, paid-aggregate_utxo_payments}
use crypto_payment_detector.Utxo.Explorers.{try_explorers, try_explorers_answers}
use crypto_payment_detector.Utxo.Scan.{roll_back, detect_reorg, scan_round}
use crypto_payment_detector.Utxo.Reorg.{
  Below, roll_back_lem, Forked, Stops, Shown, detect_reorg_depth,
}
use crypto_payment_detector.Utxo.Run.{start, scan, process, reachable-IsSound}
use crypto_payment_detector.Utxo.Block.{
  Lookup, find_index, build_address_lookup, reverse_derive_address,
}
use crypto_payment_detector.Utxo.Addresses.{reverse_derive_address-build_address_lookup}
use crypto_payment_detector.Utxo.Retry.{retry, Decides, retry-Decides}
use crypto_payment_detector.Error.Redact.{
  separator, is_scheme, scheme_of, is_scheme_byte, is_alphabetic, ends_url, after_url, redact_urls,
}
use crypto_payment_detector.Error.Redact.Hides.{redact_urls-hides}
use crypto_payment_detector.Types.Chains.{litecoin}
use crypto_payment_detector.Utxo.Urls.{
  normalize_api_url, has_slug, blockchair_chain_slug, normalize_blockchair_api_url,
  normalize_blockchair_api_url-again,
}
use crypto_payment_detector.Samples.{
  whole, detector, payment, outbox_entry, shared, machine, sweep_config, sweep_env, up, tip_of,
  slow_endpoint, indexed, flaky,
}

abbrev batch : List (DetectedPayment ℕ)
batch =
    payment (text "t") (text "a") 5000
    ∷ payment (text "u") (text "a") 7
    ∷ payment (text "t") (text "a") 1
    ∷ []

abbrev after_block : Machine ℕ
after_block = (scan_round whole up detector [] 105 101 machine).1

reachable-IsSound_example : IsSound detector (process_confirmed whole up detector 105 after_block).1
reachable-IsSound_example =
    reachable-IsSound whole up detector machine
      (process_confirmed whole up detector 105 after_block).1 refl
      (process 105 after_block (scan [] 105 101 machine start))

process_confirmed-Progress_example :
    Progress detector
      (persist_state up (await_point up machine).1).1.shared.pending
      machine
      (process_confirmed whole up detector 105 machine).1
process_confirmed-Progress_example = process_confirmed-Progress whole up detector 105 machine

process_pending_payment-Progress_example :
    Progress detector
      (outbox_entry ∷ [])
      machine
      (process_pending_payment whole up detector outbox_entry 105 machine).1
process_pending_payment-Progress_example =
    process_pending_payment-Progress whole up detector outbox_entry 105 machine

up-IsUp : IsUp up
up-IsUp = record { accepts = λ n. refl; saves = λ n. refl }

process_pending_payment-credits_example :
    ((process_pending_payment whole up detector outbox_entry 105 machine).0 ≡ ok tt)
    × (is_credited
          (process_pending_payment whole up detector outbox_entry 105
            machine).1.shared.notified_confirmed
          outbox_entry
        ≡ true)
    × (credit_ids (credits (process_pending_payment whole up detector outbox_entry 105 machine).1)
        ≡ (if is_credited machine.shared.notified_confirmed outbox_entry
            then credit_ids (credits machine)
            else event_key outbox_entry ∷ credit_ids (credits machine)))
unfolding confirmations_at add_u64
process_pending_payment-credits_example =
    process_pending_payment-credits whole up detector up-IsUp outbox_entry 105 machine (omega arith)

sweep_runs :
    sweep_address whole sweep_env (text "e") sweep_config 7 (text "a")
    ≡ ok
        (record { txid = some (text "sweep"); amount_sat = 99110; fee_sat = 890; deferred = false })
unfolding sweep_address total_input add_u64 sweep_fee saturating_mul vsize mul_u64 sub_u64
    fee_ratio_too_high
sweep_runs = refl

sweep_address-Explained_example :
    (us : List EsploraUtxo) × (sweep_env.fetch_raw_utxos (text "e") (text "a") ≡ ok us)
    × Explained whole sweep_env
        (text "e")
        sweep_config
        7
        us
        (record { txid = some (text "sweep"); amount_sat = 99110; fee_sat = 890; deferred = false })
sweep_address-Explained_example =
    sweep_address-Explained whole sweep_env (text "e") sweep_config 7 (text "a")
      (record { txid = some (text "sweep"); amount_sat = 99110; fee_sat = 890; deferred = false })
      sweep_runs

enqueue_all_once_example :
    AllKnown (enqueue_all batch shared) batch
    × (enqueue_all batch (enqueue_all batch shared) ≡ enqueue_all batch shared)
enqueue_all_once_example = enqueue_all_once batch shared

enqueue_all-IsUnique_example : IsUnique (enqueue_all batch shared).pending
enqueue_all-IsUnique_example = enqueue_all-IsUnique batch shared (refl, tt)

batch_fits : FitsU64 whole batch
unfolding paid
batch_fits k = ground arith

paid-aggregate_utxo_payments_example :
    paid (text "t:a") (aggregate_utxo_payments whole batch) ≡ paid (text "t:a") batch
paid-aggregate_utxo_payments_example =
    paid-aggregate_utxo_payments whole batch (text "t:a") batch_fits

roll_back_lem_example :
    ((j : ℕ)
      → lookup j (roll_back 101 2 shared).known_block_hashes
        ≡ (if leb (101 - 2) j && ltb j 101 then none else lookup j shared.known_block_hashes))
    × Below (101 - 2) shared.pending (roll_back 101 2 shared).pending
    × ((roll_back 101 2 shared).notified_confirmed ≡ shared.notified_confirmed)
    × ((roll_back 101 2 shared).last_scanned_height ≡ some (101 - 2 - 1))
roll_back_lem_example = roll_back_lem 101 2 shared (omega arith) (omega arith)

abbrev chain : ℕ → Text
chain h = text "new-hash"

stored_hash :
    (h : ℕ) (t : Text)
    → lookup h machine.shared.known_block_hashes ≡ some t
    → is_char_boundary 8 t ≡ true
unfolding is_char_boundary
stored_hash h t e = ground arith

up-Shown : Shown whole up detector chain machine.shared.known_block_hashes
unfolding is_char_boundary
up-Shown = record { honest = λ n h e t q. ground arith; shown = λ h. refl; stored = stored_hash }

detect_reorg_depth_example :
    (n : ℕ) × ((detect_reorg whole up detector 101 machine).0 ≡ ok n)
    × (n ≤ 101)
    × ((j : ℕ)
        → j < 101
        → 101 ≤ j + n
        → Forked whole up detector chain machine.shared.known_block_hashes j)
    × (n < 101
        → Stops whole up detector chain machine.shared.known_block_hashes
            (101 - 1 - n)
            (detect_reorg whole up detector 101 machine).1)
detect_reorg_depth_example =
    detect_reorg_depth whole up detector chain 101 machine (omega arith) up-Shown

abbrev call : ExplorerApi → Machine ℕ → Result ℕ × Machine ℕ
call e m = (tip_of e, m)

try_explorers_answers_example :
    ((a : ℕ) × (e : ExplorerApi) × ((try_explorers detector.explorer_apis call
          (text "tip")
          machine).0
        ≡ ok a)
      × (get_elem? detector.explorer_apis
            (try_explorers detector.explorer_apis call (text "tip") machine).1.active_explorer_index
          ≡ some e)
      × (tip_of e ≡ ok a))
    ⊎ ((i : ℕ) (e : ExplorerApi)
        → i < length detector.explorer_apis
        → get_elem? detector.explorer_apis i ≡ some e
        → (r : DetectorError) × (tip_of e ≡ err r))
try_explorers_answers_example =
    try_explorers_answers detector.explorer_apis call tip_of (text "tip") machine (λ e m. refl)
      (omega arith)

send_webhook-IsDelivery_example :
    IsDelivery slow_endpoint
      (λ r. webhook_error (text "refused"))
      0
      3
      (send_webhook slow_endpoint (λ r. webhook_error (text "refused")))
send_webhook-IsDelivery_example =
    send_webhook-IsDelivery slow_endpoint (λ r. webhook_error (text "refused"))

indexed-distinct :
    (i j : ℕ) (a : Text) → indexed.derive_address i ≡ ok a → indexed.derive_address j ≡ ok a → i ≡ j
indexed-distinct i j a h k = ground arith

abbrev table : Lookup
table = (2 ∷ [], 2) ∷ (1 ∷ [], 1) ∷ (0 ∷ [], 0) ∷ []

table-built : build_address_lookup indexed 2 ≡ ok table
unfolding build_address_lookup
table-built = refl

reverse_derive_address-build_address_lookup_example :
    reverse_derive_address indexed (1 ∷ []) 2 ≡ ok (find_index (1 ∷ []) table)
reverse_derive_address-build_address_lookup_example =
    reverse_derive_address-build_address_lookup indexed indexed-distinct 2 table (1 ∷ [])
      table-built

retry-Decides_example :
    (retry flaky 0 ≡ none) × (r : Result ℕ) × (retry flaky 3 ≡ some r) × Decides flaky 0 3 r
retry-Decides_example = retry-Decides flaky 2

abbrev before_token : Text
before_token = text "at https"

redact_urls-hides_example :
    redact_urls (before_token ++ (separator ++ (text "node/token" ++ text ", retry")))
    ≡ before_token ++ (text "://[redacted]" ++ redact_urls (after_url (text ", retry")))
unfolding contains starts_with is_scheme scheme_of is_scheme_byte is_alphabetic ends_url
redact_urls-hides_example =
    redact_urls-hides before_token (text "node/token") (text ", retry") refl refl refl

abbrev blockchair_url : Text
blockchair_url = text "https://api.blockchair.com/"

url-trimmed :
    normalize_api_url (normalize_blockchair_api_url litecoin blockchair_url)
    ≡ normalize_blockchair_api_url litecoin blockchair_url
unfolding normalize_blockchair_api_url normalize_api_url has_slug trim_end_matches ends_with trim
    blockchair_chain_slug to_ascii_lowercase contains
url-trimmed = refl

normalize_blockchair_api_url-again_example :
    (has_slug litecoin (to_ascii_lowercase (normalize_blockchair_api_url litecoin blockchair_url))
      ≡ true)
    × (normalize_blockchair_api_url litecoin (normalize_blockchair_api_url litecoin blockchair_url)
        ≡ normalize_blockchair_api_url litecoin blockchair_url)
normalize_blockchair_api_url-again_example =
    normalize_blockchair_api_url-again litecoin blockchair_url url-trimmed
