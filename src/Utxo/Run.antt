-- ===== src/Utxo/Run.antt =====
-- Any run of the detector of blockstream.rs, from any start: rounds of the block loop, credit
-- cycles of the recovery requests, and batches that they enqueue.
use crypto_payment_detector.Base.{
  ℕ, ◌≡◌, refl, true, false, List, [], ◌∷◌, ltb, add_u64, sub_u64, arith, subst,
}
use crypto_payment_detector.Base.Text.{Text}
use crypto_payment_detector.Base.Maps.{mem}
use crypto_payment_detector.Base.Float.{Float}
use crypto_payment_detector.Types.Payments.{DetectedPayment}
use crypto_payment_detector.Error.Defs.{Result, ok, err}
use crypto_payment_detector.Error.Exec.{pure, Follows, Follows-bind, Follows-if}
use crypto_payment_detector.Utxo.State.{Block, Detector, World, Machine, Action, modify_shared}
use crypto_payment_detector.Utxo.Outbox.{await_point, enqueue_or_confirm}
use crypto_payment_detector.Utxo.Credit.{process_confirmed}
use crypto_payment_detector.Utxo.Quiet.{
  Quiet, credited_payments, persist_state-Quiet, await_point-Quiet, enqueue-Quiet,
}
use crypto_payment_detector.Utxo.Progress.{IsSound, Quiet-Progress, IsSound-transfer, credit_ids}
use crypto_payment_detector.Utxo.Process.{process_confirmed-Progress}
use crypto_payment_detector.Utxo.Block.{Lookup}
use crypto_payment_detector.Utxo.Scan.{
  rolled_back, stopped, advanced, roll_back, record_block, log_prefix, enqueue_found, finish_block,
  with_block, with_hash, scan_current, apply_rollback, scan_round,
}
use crypto_payment_detector.Utxo.Requests.{
  get_block_hash-Quiet, log_prefix-Quiet, fetch_raw_block-Quiet, attempt-Follows,
  detect_reorg-Quiet,
}

module _ {F : Type 0} (fl : Float F) (w : World F) (d : Detector F) where
  -- Soundness stays.
  record Keeps (m m' : Machine F) : Type 0 where
    pub keeps : IsSound d m → IsSound d m'

  Keeps-trans : (a b c : Machine F) → Keeps a b → Keeps b c → Keeps a c
  Keeps-trans a b c h k = record { keeps = λ s. k.keeps (h.keeps s) }

  Keeps-same : {A : Type 0} (a : A) → Follows {S = Machine F} Keeps (pure a)
  Keeps-same a = record { at = λ m. record { keeps = λ s. s } }

  of_Quiet : {A : Type 0} (m : Action F A) → Follows Quiet m → Follows Keeps m
  of_Quiet m h = record {
    at = λ s. record { keeps = (Quiet-Progress d [] s (m s).1 (h.at s)).sound };
  }

  process-Keeps : (tip : ℕ) → Follows Keeps (process_confirmed fl w d tip)
  process-Keeps tip = record {
    at = λ m. record { keeps = (process_confirmed-Progress fl w d tip m).sound };
  }

  found-Keeps : (ps : List (DetectedPayment F)) → Follows Keeps (enqueue_found fl w d ps)
  unfolding enqueue_found
  found-Keeps [] = Keeps-same tt
  found-Keeps (p ∷ ps) = of_Quiet _ (enqueue-Quiet w (p ∷ ps))

  roll_back-Keeps : (current depth : ℕ) → Follows Keeps (modify_shared (roll_back current depth))
  unfolding roll_back
  roll_back-Keeps current depth = record {
    at = λ m. record { keeps = IsSound-transfer d m _ refl refl };
  }

  record_block-Keeps :
      (min current : ℕ) (hash : Text)
      → Follows Keeps (modify_shared (record_block min current hash))
  unfolding record_block
  record_block-Keeps min current hash = record {
    at = λ m. record { keeps = IsSound-transfer d m _ refl refl };
  }

  finish_block-Keeps :
      (addresses : Lookup) (tip current : ℕ) (hash : Text) (block : Block)
      → Follows Keeps (finish_block fl w d addresses tip current hash block)
  unfolding finish_block
  finish_block-Keeps addresses tip current hash block =
      Follows-bind Keeps-trans _ _ (found-Keeps _) λ _.
        Follows-bind Keeps-trans _ _
          (Follows-bind Keeps-trans _ _ (attempt-Follows fl w d _ (process-Keeps tip))
            (λ _. Keeps-same tt))
          λ _.
            Follows-bind Keeps-trans
              (modify_shared (record_block d.config.min_confirmations current hash)) _
              (record_block-Keeps d.config.min_confirmations current hash)
              λ _.
                Follows-bind Keeps-trans _ _ (of_Quiet _ (persist_state-Quiet w))
                  (λ _. Keeps-same (advanced (add_u64 current 1)))

  with_block-Keeps :
      (addresses : Lookup) (tip current : ℕ) (hash : Text) (r : Result Block)
      → Follows Keeps (with_block fl w d addresses tip current hash r)
  unfolding with_block
  with_block-Keeps addresses tip current hash (ok block) =
      Follows-bind Keeps-trans (log_prefix fl w d hash) _
        (of_Quiet _ (log_prefix-Quiet fl w d hash))
        (λ _. finish_block-Keeps addresses tip current hash block)
  with_block-Keeps addresses tip current hash (err e) = Keeps-same stopped

  with_hash-Keeps :
      (addresses : Lookup) (tip current : ℕ) (r : Result Text)
      → Follows Keeps (with_hash fl w d addresses tip current r)
  unfolding with_hash
  with_hash-Keeps addresses tip current (ok hash) =
      Follows-bind Keeps-trans _ _
        (of_Quiet _ (attempt-Follows fl w d _ (fetch_raw_block-Quiet fl w d hash)))
        (with_block-Keeps addresses tip current hash)
  with_hash-Keeps addresses tip current (err e) = Keeps-same stopped

  scan_round-Keeps :
      (addresses : Lookup) (tip current : ℕ)
      → Follows Keeps (scan_round fl w d addresses tip current)
  unfolding scan_round scan_current apply_rollback
  scan_round-Keeps addresses tip current =
      Follows-bind Keeps-trans _ _ (of_Quiet _ (detect_reorg-Quiet fl w d current)) λ depth.
        Follows-if (ltb 0 depth) _ _
          (Follows-bind Keeps-trans (await_point w) _ (of_Quiet _ (await_point-Quiet w)) λ _.
            Follows-bind Keeps-trans (modify_shared (roll_back current depth)) _
              (roll_back-Keeps current depth)
              (λ _. Keeps-same (rolled_back (sub_u64 current depth))))
          (Follows-bind Keeps-trans _ _
            (of_Quiet _ (attempt-Follows fl w d _ (get_block_hash-Quiet fl w d current)))
            (with_hash-Keeps addresses tip current))

  -- The states of the machine that the detector can reach from `m`: rounds of the block loop at any
  -- heights and in any order, and the credit cycles and batches of the recovery requests.
  pub data Reach (m : Machine F) : Machine F → Type 0 where
    start : Reach m m
    scan :
        (addresses : Lookup) (tip current : ℕ) (m' : Machine F)
        → Reach m m'
        → Reach m (scan_round fl w d addresses tip current m').1
    process : (tip : ℕ) (m' : Machine F) → Reach m m' → Reach m (process_confirmed fl w d tip m').1
    enqueue :
        (ps : List (DetectedPayment F)) (m' : Machine F)
        → Reach m m'
        → Reach m (enqueue_or_confirm w ps m').1

  false_is : {A : Type 0} → false ≡ true → A
  false_is h = absurd (ground arith)

  fresh-IsSound : (m : Machine F) → m.acknowledged ≡ [] → IsSound d m
  unfolding credited_payments mem
  fresh-IsSound m e = record {
    distinct = rw e tt;
    marked = λ k h. false_is (subst (λ l. mem k (credit_ids (credited_payments l)) ≡ true) e h);
    confirmed = rw e tt;
  }

  Reach-Keeps : (m m' : Machine F) → Reach m m' → IsSound d m → IsSound d m'
  Reach-Keeps m m' start s = s
  Reach-Keeps m m' (scan addresses tip current n r) s =
      ((scan_round-Keeps addresses tip current).at n).keeps (Reach-Keeps m n r s)
  Reach-Keeps m m' (process tip n r) s = ((process-Keeps tip).at n).keeps (Reach-Keeps m n r s)
  Reach-Keeps m m' (enqueue ps n r) s =
      ((of_Quiet _ (enqueue-Quiet w ps)).at n).keeps (Reach-Keeps m n r s)

  -- Whatever the explorers, the webhook endpoint, the disk and the other task answer, and however
  -- block rounds (reorganisations included), credit cycles and batches follow each other: from a
  -- state in which no credit was acknowledged yet, every reachable state is sound. No event id was
  -- credited twice, each credited one is marked, and each credited payment had its confirmations.
  pub reachable-IsSound : (m m' : Machine F) → m.acknowledged ≡ [] → Reach m m' → IsSound d m'
  reachable-IsSound m m' fresh r = Reach-Keeps m m' r (fresh-IsSound m fresh)
