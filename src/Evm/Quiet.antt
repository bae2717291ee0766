-- ===== src/Evm/Quiet.antt =====
-- The steps of a credit cycle of ethereum.rs that credit nothing: they leave the credits and their
-- marks alone, forget no event, and hand over only the detector's own kinds of transfers.
use crypto_payment_detector.Base.{ℕ, ◌≡◌, refl, ◌∙◌, true, List, [], ◌∷◌, arith, any, if◌then◌else◌}
use crypto_payment_detector.Base.Text.{Text}
use crypto_payment_detector.Base.Float.{Float}
use crypto_payment_detector.Error.Defs.{Result, ok, err}
use crypto_payment_detector.Error.Exec.{Follows, ◌>>=◌}
use crypto_payment_detector.Utxo.Quiet.{credited_payments}
use crypto_payment_detector.Evm.Chain.{Ethers}
use crypto_payment_detector.Evm.Cursors.{move_cursor}
use crypto_payment_detector.Evm.State.{
  EthereumDetector, EthereumPendingPayment, EthereumState, ScanKind, native,
  DetectedEthereumPayment, Other, enqueues, advances, credits, ignores, finishes, World, Machine,
  modify_shared,
}
use crypto_payment_detector.Evm.Events.{
  has_id, is_known_event, ignore, remove_event, enqueue_one, apply_other, apply_others,
  while_crediting, await_point, finish_save, persist_state, mark_event_ignored,
}
use crypto_payment_detector.Evm.Credit.{update_first}
use crypto_payment_detector.Evm.Known.{enqueue_one-Keeps, ignore-Keeps}
use crypto_payment_detector.Evm.Reached.{known-move_cursor}
use crypto_payment_detector.Evm.Walk.{Walk, chain}
use crypto_payment_detector.Evm.Transfers.{is_own, AllSent, sent_walk}

enqueue_one-credited :
    {F : Type 0} (eth : Ethers F) (p : DetectedEthereumPayment) (s : EthereumState)
    → (enqueue_one eth p s).credited_events ≡ s.credited_events
unfolding enqueue_one
enqueue_one-credited eth p s = ground arith

move_cursor-credited :
    (kind : ScanKind) (b : ℕ) (s : EthereumState)
    → (move_cursor kind b s).credited_events ≡ s.credited_events
unfolding move_cursor
move_cursor-credited kind b s = refl

ignore-credited : (e : Text) (s : EthereumState) → (ignore e s).credited_events ≡ s.credited_events
unfolding ignore remove_event
ignore-credited e s = refl

-- No credit is marked and no event forgotten.
pub record Leaves (s t : EthereumState) : Type 0 where
  pub unmarked : t.credited_events ≡ s.credited_events
  pub known : (k : Text) → is_known_event s k ≡ true → is_known_event t k ≡ true

Leaves-refl : (s : EthereumState) → Leaves s s
Leaves-refl s = record { unmarked = refl; known = λ k h. h }

Leaves-trans : (a b c : EthereumState) → Leaves a b → Leaves b c → Leaves a c
Leaves-trans a b c h i = record {
  unmarked = i.unmarked ∙ h.unmarked;
  known = λ k j. i.known k (h.known k j);
}

any-update_first :
    (k e : Text) (f : EthereumPendingPayment → EthereumPendingPayment)
    (ps : List EthereumPendingPayment)
    → ((p : EthereumPendingPayment) → (f p).event_id ≡ p.event_id)
    → any (has_id k) (update_first f e ps) ≡ any (has_id k) ps
unfolding update_first
any-update_first k e f [] h = refl
any-update_first k e f (p ∷ ps) h = ground (arith, h p, any-update_first k e f ps h)

pub update-Leaves :
    (e : Text) (f : EthereumPendingPayment → EthereumPendingPayment) (s : EthereumState)
    → ((p : EthereumPendingPayment) → (f p).event_id ≡ p.event_id)
    → Leaves s (record s { pending = update_first f e s.pending })
unfolding is_known_event
update-Leaves e f s h = record {
  unmarked = refl;
  known = λ k i. ground (arith, any-update_first k e f s.pending h);
}

module _ {F : Type 0} (eth : Ethers F) where
  crediting-Leaves :
      (o : Other) (s : EthereumState)
      → Leaves s (if while_crediting o then apply_other eth o s else s)
  unfolding while_crediting apply_other
  crediting-Leaves (enqueues p) s = record {
    unmarked = enqueue_one-credited eth p s;
    known = (enqueue_one-Keeps eth native p s).known;
  }
  crediting-Leaves (advances kind b) s = record {
    unmarked = move_cursor-credited kind b s;
    known = λ k h. rw (known-move_cursor kind b s k) h;
  }
  crediting-Leaves (credits e) s = Leaves-refl s
  crediting-Leaves (ignores e) s = Leaves-refl s
  crediting-Leaves (finishes e) s = Leaves-refl s

  others-Leaves :
      (os : List Other) (s : EthereumState) → Leaves s (apply_others eth while_crediting os s)
  unfolding apply_others
  others-Leaves [] s = Leaves-refl s
  others-Leaves (o ∷ os) s = Leaves-trans s _ _ (crediting-Leaves o s) (others-Leaves os _)

module _ {F : Type 0} (fl : Float F) (eth : Ethers F) (w : World F) (d : EthereumDetector F) where
  abbrev pub Own : Machine F → Type 0
  Own m = AllSent fl eth w d while_crediting (is_own fl eth w d while_crediting) m

  pub record Quiet (m m' : Machine F) : Type 0 where
    pub leaves : Leaves m.shared m'.shared
    pub credited : credited_payments m'.acknowledged ≡ credited_payments m.acknowledged
    pub own : Own m → Own m'

  pub Quiet-refl : (m : Machine F) → Quiet m m
  Quiet-refl m = record { leaves = Leaves-refl m.shared; credited = refl; own = λ h. h }

  pub Quiet-trans : (a b c : Machine F) → Quiet a b → Quiet b c → Quiet a c
  Quiet-trans a b c h i = record {
    leaves = Leaves-trans a.shared b.shared c.shared h.leaves i.leaves;
    credited = i.credited ∙ h.credited;
    own = λ j. i.own (h.own j);
  }

  pub shared-Quiet :
      (f : EthereumState → EthereumState)
      → ((s : EthereumState) → Leaves s (f s))
      → Follows Quiet (modify_shared f)
  shared-Quiet f h = record {
    at = λ m. record { leaves = h m.shared; credited = refl; own = λ i. i };
  }

  pub quiet_walk :
      Walk eth w while_crediting (λ t. is_own fl eth w d while_crediting t ≡ true) Quiet
  unfolding await_point
  quiet_walk = record {
    keep = Quiet-refl;
    trans = Quiet-trans;
    ticks = λ m. record { leaves = Leaves-refl m.shared; credited = refl; own = λ i. i };
    waits = record {
      at = λ m. record {
        leaves = others-Leaves eth (w.others m.clock) m.shared;
        credited = refl;
        own = λ i. i;
      };
    };
    sends = λ t p m. record {
      leaves = Leaves-refl m.shared;
      credited = refl;
      own = (sent_walk fl eth w d while_crediting (is_own fl eth w d while_crediting)).sends t p m;
    };
  }

  finish_save-Quiet : (r : Result (Unit {0})) (m : Machine F) → Quiet m (finish_save eth w r m).1
  unfolding finish_save
  finish_save-Quiet (ok u) m = record {
    leaves = Leaves-refl m.shared;
    credited = refl;
    own = λ i. i;
  }
  finish_save-Quiet (err e) m = record {
    leaves = Leaves-refl m.shared;
    credited = refl;
    own = λ i. i;
  }

  pub persist_state-Quiet : Follows Quiet (persist_state eth w)
  unfolding persist_state
  persist_state-Quiet = record { at = λ m. finish_save-Quiet (w.save_answer m.clock) m }

  -- A change of the state, and the state file.
  pub saved-Quiet :
      (f : EthereumState → EthereumState)
      → ((s : EthereumState) → Leaves s (f s))
      → Follows Quiet (modify_shared f >>= λ u. persist_state eth w)
  saved-Quiet f h =
      chain quiet_walk (modify_shared f) (λ u. persist_state eth w) (shared-Quiet f h)
        (λ u. persist_state-Quiet)

  pub mark_event_ignored-Quiet : (e : Text) → Follows Quiet (mark_event_ignored eth w e)
  unfolding mark_event_ignored
  mark_event_ignored-Quiet e =
      saved-Quiet (ignore e) (λ s. record {
        unmarked = ignore-credited e s;
        known = (ignore-Keeps eth native e s).known;
      })
