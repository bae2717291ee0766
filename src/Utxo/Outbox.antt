-- ===== src/Utxo/Outbox.antt =====
-- The outbox of blockstream.rs: payment keys, aggregation per recipient, and enqueueing.
use crypto_payment_detector.Base.{
  suc, ltb, Bool, true, false, ◌&&◌, ◌||◌, Option, none, some, List, [], ◌∷◌, ◌++◌, if◌then◌else◌,
  ◌==◌, any, unwrap_or, add_u64,
}
use crypto_payment_detector.Base.Text.{Text, same}
use crypto_payment_detector.Base.Maps.{mem}
use crypto_payment_detector.Base.Float.{Float}
use crypto_payment_detector.Types.Chains.{Chain, ticker, sats_per_unit}
use crypto_payment_detector.Types.Payments.{DetectedPayment, PersistedState}
use crypto_payment_detector.Error.Defs.{Result, ok, err}
use crypto_payment_detector.Error.Exec.{◌>>◌}
use crypto_payment_detector.Utxo.State.{SharedState, World, Action, modify_shared, tick}

unfoldable pub utxo_payment_key : Text → Text → Chain → Text
utxo_payment_key txid address chain = ticker chain ++ (b':' ∷ (txid ++ (b':' ∷ address)))

-- The order of `str`, which is that of the keys of a `BTreeMap`.
unfoldable pub text_before : Text → Text → Bool
text_before [] [] = false
text_before [] (b ∷ t) = true
text_before (a ∷ s) [] = false
text_before (a ∷ s) (b ∷ t) = ltb a b || ((a == b) && text_before s t)

module _ {F : Type 0} where
  unfoldable pub key_of_payment : DetectedPayment F → Text
  key_of_payment p = utxo_payment_key p.txid p.address p.chain

  -- What `and_modify` does to the entry that is there.
  unfoldable pub add_amount : Float F → DetectedPayment F → DetectedPayment F → DetectedPayment F
  add_amount fl existing payment =
      let amount = add_u64 existing.amount_sat payment.amount_sat in
      record existing {
        amount_sat = amount;
        amount_coin = fl.div (fl.of_u64 amount) (fl.of_u64 (sats_per_unit existing.chain));
      }

  -- `totals.entry(key).and_modify(..).or_insert(payment)` on the sorted entries of the map.
  unfoldable pub merge_entry :
      Float F
      → Text
      → DetectedPayment F
      → List (Text × DetectedPayment F)
      → List (Text × DetectedPayment F)
  merge_entry fl key payment [] = (key, payment) ∷ []
  merge_entry fl key payment ((k, p) ∷ rest) =
      if same key k
      then (k, add_amount fl p payment) ∷ rest
      else if text_before key k
      then (key, payment) ∷ (k, p) ∷ rest
      else (k, p) ∷ merge_entry fl key payment rest

  unfoldable pub aggregate_from :
      Float F
      → List (DetectedPayment F)
      → List (Text × DetectedPayment F)
      → List (Text × DetectedPayment F)
  unfolding key_of_payment
  aggregate_from fl [] totals = totals
  aggregate_from fl (p ∷ ps) totals =
      let key = key_of_payment p in
      aggregate_from fl ps (
        if p.amount_sat == 0
        then totals
        else merge_entry fl key (record p { event_id = some key }) totals)

  unfoldable pub values : List (Text × DetectedPayment F) → List (DetectedPayment F)
  values [] = []
  values ((k, p) ∷ rest) = p ∷ values rest

  unfoldable pub aggregate_utxo_payments :
      Float F → List (DetectedPayment F) → List (DetectedPayment F)
  unfolding aggregate_from values
  aggregate_utxo_payments fl ps = values (aggregate_from fl ps [])

  -- The payment is credited under its key or its txid, or it is in the outbox.
  unfoldable pub is_known : SharedState F → Text → DetectedPayment F → Bool
  is_known s key p =
      mem key s.notified_confirmed
      || mem p.txid s.notified_confirmed
      || any (λ q. same q.payment.txid p.txid && same q.payment.address p.address) s.pending

  unfoldable pub enqueue_one : DetectedPayment F → SharedState F → SharedState F
  unfolding key_of_payment
  enqueue_one p s =
      let key = key_of_payment p in
      if is_known s key p then s else record s {
        pending =
            s.pending
            ++ (record {
              payment = record p { event_id = some key };
              block_height = unwrap_or 0 p.block_height;
              detected_notified = false;
            }
                ∷ []);
      }

  -- The loop of `enqueue_or_confirm`.
  unfoldable pub enqueue_all : List (DetectedPayment F) → SharedState F → SharedState F
  enqueue_all [] s = s
  enqueue_all (p ∷ ps) s = enqueue_all ps (enqueue_one p s)

  unfoldable pub snapshot : SharedState F → PersistedState F
  snapshot s = record {
    last_scanned_height = s.last_scanned_height;
    known_block_hashes = s.known_block_hashes;
    pending = s.pending;
    notified_confirmed = s.notified_confirmed;
  }

module _ {F : Type 0} (w : World F) where
  -- `persist_state` writes a whole new file and renames it: on an error the old one stays.
  unfoldable pub finish_save : Result (Unit {0}) → Action F (Unit {0})
  finish_save (ok u) m = (ok tt, record m { disk = snapshot m.shared; clock = suc m.clock })
  finish_save (err e) m = (err e, tick m)

  unfoldable pub persist_state : Action F (Unit {0})
  unfolding finish_save
  persist_state m = finish_save (w.save_answer m.clock) m

  unfoldable pub enqueue_or_confirm : List (DetectedPayment F) → Action F (Unit {0})
  unfolding enqueue_all
  enqueue_or_confirm ps = do modify_shared (enqueue_all ps); persist_state

  -- At an `await` other tasks run: those of the API enqueue recovered payments, and see to their
  -- own errors.
  unfoldable pub others : Option (List (DetectedPayment F)) → Action F (Unit {0})
  others none m = (ok tt, tick m)
  others (some ps) m = (ok tt, (enqueue_or_confirm ps (tick m)).1)

  unfoldable pub await_point : Action F (Unit {0})
  unfolding others
  await_point m = others (w.arrivals m.clock) m
