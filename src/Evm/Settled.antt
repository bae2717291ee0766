-- ===== src/Evm/Settled.antt =====
-- The credit cycle of ethereum.rs keeps every payment once and forgets none.
use crypto_payment_detector.Base.{
  ℕ, ◌≤◌, ◌≡◌, refl, Bool, true, false, List, [], ◌∷◌, ltb, ltb→le, if◌then◌else◌, unwrap_or,
}
use crypto_payment_detector.Base.Text.{Text}
use crypto_payment_detector.Base.Maps.{mem}
use crypto_payment_detector.Base.Float.{Float}
use crypto_payment_detector.Error.Defs.{Result, ok}
use crypto_payment_detector.Error.Exec.{
  pure, lift, attempt, gets, after_lem, Follows, Follows-bind, Follows-if, ◌>>=◌,
}
use crypto_payment_detector.Evm.Chain.{Ethers, Receipt}
use crypto_payment_detector.Evm.State.{
  EthereumDetector, EthereumPendingPayment, EthereumState, native, World, Machine, Action,
  SweepResult,
}
use crypto_payment_detector.Evm.Events.{remove_event, finish, while_crediting, persist_state}
use crypto_payment_detector.Evm.Receipts.{receipt_succeeded, transaction_receipt, checked_receipt}
use crypto_payment_detector.Evm.Credit.{
  confirmations_at, sweep_for, notify_credited, drop_entry, settle, process_amount, parsed_amount,
  process_mined, process_success, entry_hash, process_credit_entry, process_entries, process_locked,
}
use crypto_payment_detector.Evm.Known.{finish-Keeps}
use crypto_payment_detector.Evm.Walk.{fetch-Walk}
use crypto_payment_detector.Evm.Quiet.{
  Quiet, Quiet-refl, quiet_walk, persist_state-Quiet, mark_event_ignored-Quiet,
}
use crypto_payment_detector.Evm.Steps.{
  notify_detected-Quiet, correct_block-Quiet, queued_top_up-Quiet, sweep_for-Quiet,
}
use crypto_payment_detector.Evm.Once.{
  threshold, Progress, Progress-trans, quiet, quietly, Credits, notify_credited-Credits,
}

module _ {F : Type 0} (fl : Float F) (eth : Ethers F) (w : World F) (d : EthereumDetector F) where
  finish_credited :
      (key : Text) (s : EthereumState)
      → mem key s.credited_events ≡ true
      → finish key s ≡ remove_event key s
  unfolding finish
  finish_credited key s h = rw h refl

  removed-credited :
      (key : Text) (s : EthereumState) → (remove_event key s).credited_events ≡ s.credited_events
  unfolding remove_event
  removed-credited key s = refl

  removed-Quiet :
      (key : Text) (m : Machine F)
      → mem key m.shared.credited_events ≡ true
      → Quiet fl eth w d m (record m { shared = remove_event key m.shared })
  removed-Quiet key m h = record {
    leaves = record {
      unmarked = removed-credited key m.shared;
      known = rw (← finish_credited key m.shared h) (finish-Keeps eth native key m.shared).known;
    };
    credited = refl;
    own = λ i. i;
  }

  -- An entry that is credited may leave the outbox.
  drop_unless :
      (key : Text) (m : Machine F) (deferred : Bool)
      → mem key m.shared.credited_events ≡ true
      → Progress fl eth w d m ((if deferred then pure tt else drop_entry fl eth w d key) m).1
  unfolding drop_entry
  drop_unless key m true h = quiet fl eth w d m m (Quiet-refl fl eth w d m)
  drop_unless key m false h =
      Progress-trans fl eth w d m _ _ (quiet fl eth w d m _ (removed-Quiet key m h))
        (quiet fl eth w d _ _ ((persist_state-Quiet fl eth w d).at _))

  credit_unless :
      (entry : EthereumPendingPayment) (block amount : ℕ) (sweep : SweepResult) (m : Machine F)
      (already : Bool)
      → threshold fl eth w d ≤ confirmations_at block entry.block_number
      → mem entry.event_id m.shared.credited_events ≡ already
      → Credits fl eth w d entry.event_id m
          ((if already then pure tt else notify_credited fl eth w d entry block amount sweep) m)
  credit_unless entry block amount sweep m true c h = record {
    progress = quiet fl eth w d m m (Quiet-refl fl eth w d m);
    done = λ i. h;
  }
  credit_unless entry block amount sweep m false c h =
      notify_credited-Credits fl eth w d entry block amount sweep m c h

  abbrev Goes : Machine F → {A : Type 0} → Result A × Machine F → Type 0
  Goes m x = Progress fl eth w d m x.1

  settle-Progress :
      (entry : EthereumPendingPayment) (block amount : ℕ) (sweep : SweepResult)
      → threshold fl eth w d ≤ confirmations_at block entry.block_number
      → Follows (Progress fl eth w d) (settle fl eth w d entry block amount sweep)
  unfolding settle
  settle-Progress entry block amount sweep c = record {
    at = λ m.
        let x =
          credit_unless entry block amount sweep m (mem entry.event_id m.shared.credited_events) c
            refl in
        after_lem _ _ (λ y. Progress fl eth w d m y.1)
          (λ u i.
            Progress-trans fl eth w d m _ _ x.progress
              (drop_unless entry.event_id _ sweep.deferred (x.done i)))
          (λ y i. x.progress);
  }

  chain' :
      {A B : Type 0} (a : Action F A) (f : A → Action F B)
      → Follows (Quiet fl eth w d) a
      → ((x : A) → Follows (Progress fl eth w d) (f x))
      → Follows (Progress fl eth w d) (a >>= f)
  chain' a f h k = Follows-bind (Progress-trans fl eth w d) a f (quietly fl eth w d h) k

  idle : {A : Type 0} (r : Result A) → Follows (Quiet fl eth w d) (lift r)
  idle r = record { at = Quiet-refl fl eth w d }

  settle_if :
      (entry : EthereumPendingPayment) (block amount : ℕ) (early : Bool)
      → ltb (confirmations_at block entry.block_number) (threshold fl eth w d) ≡ early
      → Follows (Progress fl eth w d) (
          if early
          then pure tt
          else (sweep_for fl eth w d entry amount entry.token_contract
              >>= settle fl eth w d entry block amount))
  settle_if entry block amount true h = quietly fl eth w d (idle (ok tt))
  settle_if entry block amount false h =
      chain' _ _ (sweep_for-Quiet fl eth w d entry amount entry.token_contract)
        (λ sweep. settle-Progress entry block amount sweep (ltb→le _ _ h))

  process_amount-Progress :
      (entry : EthereumPendingPayment) (block amount : ℕ)
      → Follows (Progress fl eth w d) (process_amount fl eth w d entry block amount)
  unfolding process_amount
  process_amount-Progress entry block amount =
      chain' _ _ (notify_detected-Quiet fl eth w d entry block amount)
        (λ u. settle_if entry block amount _ refl)

  process_mined-Progress :
      (entry : EthereumPendingPayment) (block : ℕ) (top_up : Bool)
      → Follows (Progress fl eth w d) (process_mined fl eth w d entry block top_up)
  unfolding process_mined
  process_mined-Progress entry block true =
      quietly fl eth w d (mark_event_ignored-Quiet fl eth w d entry.event_id)
  process_mined-Progress entry block false =
      chain' (lift (parsed_amount fl eth w d entry)) _ (idle (parsed_amount fl eth w d entry))
        (λ amount. process_amount-Progress entry block amount)

  process_success-Progress :
      (entry : EthereumPendingPayment) (block : ℕ) (receipt : Receipt)
      → Follows (Progress fl eth w d) (process_success fl eth w d entry block receipt)
  unfolding process_success
  process_success-Progress entry block receipt =
      chain' _ _ (correct_block-Quiet fl eth w d entry (unwrap_or 0 receipt.block_number)) λ u.
        chain' _ _ (queued_top_up-Quiet fl eth w d entry)
          (λ top_up. process_mined-Progress _ block top_up)

  entry_Progress :
      (entry : EthereumPendingPayment) (block : ℕ)
      → Follows (Progress fl eth w d) (process_credit_entry fl eth w d entry block)
  unfolding process_credit_entry transaction_receipt
  entry_Progress entry block = chain' (lift (entry_hash fl eth w d entry)) _ (idle _) λ hash.
      chain' _ _
        (fetch-Walk (quiet_walk fl eth w d) (λ n. w.receipt_answer n hash)
          (checked_receipt eth w while_crediting hash))
        λ receipt. chain' (lift (receipt_succeeded receipt)) _ (idle _) λ succeeded.
          Follows-if succeeded _ _ (process_success-Progress entry block receipt)
            (quietly fl eth w d (mark_event_ignored-Quiet fl eth w d entry.event_id))

  -- One entry, whatever the node, the endpoint, the disk and other tasks do, and whether it succeeds
  -- or fails: if no event id was credited twice before, each one credited was marked, each credited
  -- payment had its confirmations and every transfer was of the detector's own kinds, then so it is
  -- after; marks stay; and every known event stays known.
  pub process_credit_entry-Progress :
      (entry : EthereumPendingPayment) (block : ℕ) (m : Machine F)
      → Progress fl eth w d m (process_credit_entry fl eth w d entry block m).1
  process_credit_entry-Progress entry block m = (entry_Progress entry block).at m

  entries_Progress :
      (entries : List EthereumPendingPayment) (block : ℕ)
      → Follows (Progress fl eth w d) (process_entries fl eth w d entries block)
  unfolding process_entries
  entries_Progress [] block = quietly fl eth w d (idle (ok tt))
  entries_Progress (entry ∷ entries) block =
      Follows-bind (Progress-trans fl eth w d)
        (attempt (process_credit_entry fl eth w d entry block) >>= λ r. pure tt) _
        (record { at = process_credit_entry-Progress entry block })
        (λ u. entries_Progress entries block)

  -- A whole credit cycle from the moment it holds the lock, whatever fails: the invariant that no
  -- event id is credited twice, each one credited is marked, each credited payment had its
  -- confirmations and every transfer is of the detector's own kinds is kept; marks stay; and every
  -- known event stays known.
  pub process_locked-Progress :
      (block : ℕ) (m : Machine F) → Progress fl eth w d m (process_locked fl eth w d block m).1
  unfolding process_locked
  process_locked-Progress block m =
      (chain' (persist_state eth w) _ (persist_state-Quiet fl eth w d) λ u.
          Follows-bind (Progress-trans fl eth w d) (gets (λ s. s.shared.pending)) _
            (record { at = λ s. quiet fl eth w d s s (Quiet-refl fl eth w d s) })
            (λ entries. entries_Progress entries block)).at
        m
