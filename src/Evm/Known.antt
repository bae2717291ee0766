-- ===== src/Evm/Known.antt =====
-- What every step of a scan in ethereum.rs keeps: the known events, and the cursors of the sources
-- that it does not move.
use crypto_payment_detector.Base.{
  ℕ, ◌≡◌, refl, ◌∙◌, Bool, true, not, ◌||◌, List, [], ◌∷◌, ◌++◌, arith, inl, inr, Bool-cases,
  if◌then◌else◌, any, retain,
}
use crypto_payment_detector.Base.Text.{Text, same, same→≡, same_refl}
use crypto_payment_detector.Base.Maps.{mem, mem-insert_mono, mem-insert_self}
use crypto_payment_detector.Error.Defs.{Result, ok, err}
use crypto_payment_detector.Error.Exec.{lift, Follows, Follows-bind, ◌>>=◌}
use crypto_payment_detector.Evm.Chain.{Ethers}
use crypto_payment_detector.Evm.Cursors.{cursor}
use crypto_payment_detector.Evm.State.{
  EthereumPendingPayment, EthereumState, ScanKind, DetectedEthereumPayment, Other, enqueues,
  advances, credits, ignores, finishes, World, Machine, Action,
}
use crypto_payment_detector.Evm.Events.{
  has_id, is_known_event, remove_event, ignore, credit, finish, new_pending, enqueue_one,
  apply_other, apply_others, while_scanning, await_point, ask, request, fetch, finish_save,
  persist_state,
}

any-append :
    (f : EthereumPendingPayment → Bool) (ps qs : List EthereumPendingPayment)
    → any f (ps ++ qs) ≡ (any f ps || any f qs)
any-append f [] qs = refl
any-append f (p ∷ ps) qs = ground (arith, any-append f ps qs)

any-retain :
    (k e : Text) (ps : List EthereumPendingPayment)
    → any (has_id k) ps ≡ true
    → (same k e || any (has_id k) (retain (λ p. not (has_id e p)) ps)) ≡ true
any-retain k e [] h = absurd (ground arith)
any-retain k e (p ∷ ps) h =
    ground (arith, any-retain k e ps, same→≡ p.event_id k, same→≡ p.event_id e, same_refl k)

-- From `s` to `t` no event is forgotten and the source's cursor stays.
pub record Keeps (kind : ScanKind) (s t : EthereumState) : Type 0 where
  pub known : (k : Text) → is_known_event s k ≡ true → is_known_event t k ≡ true
  pub still : cursor t kind ≡ cursor s kind

pub Keeps-refl : (kind : ScanKind) (s : EthereumState) → Keeps kind s s
Keeps-refl kind s = record { known = λ k h. h; still = refl }

pub Keeps-trans :
    (kind : ScanKind) (a b c : EthereumState) → Keeps kind a b → Keeps kind b c → Keeps kind a c
Keeps-trans kind a b c h k = record {
  known = λ e i. k.known e (h.known e i);
  still = k.still ∙ h.still;
}

module _ {F : Type 0} (eth : Ethers F) (kind : ScanKind) where
  pub enqueue_one-Keeps :
      (p : DetectedEthereumPayment) (s : EthereumState) → Keeps kind s (enqueue_one eth p s)
  unfolding enqueue_one is_known_event cursor
  enqueue_one-Keeps p s =
      elim (Bool-cases (any (has_id p.event_id) s.pending || mem p.event_id s.credited_events)) [
        | inl e ↦ rw e (Keeps-refl kind s)
        | inr e ↦ rw e (record {
          known = λ k h. ground (arith, any-append (has_id k) s.pending (new_pending eth p ∷ []));
          still = refl;
        })
      ]

  pub enqueue_one-known :
      (p : DetectedEthereumPayment) (s : EthereumState)
      → is_known_event (enqueue_one eth p s) p.event_id ≡ true
  unfolding enqueue_one is_known_event new_pending
  enqueue_one-known p s = ground (
    arith,
    any-append (has_id p.event_id) s.pending (new_pending eth p ∷ []),
    same_refl p.event_id,
  )

  pub credit-Keeps : (e : Text) (s : EthereumState) → Keeps kind s (credit e s)
  unfolding credit is_known_event cursor
  credit-Keeps e s = record {
    known = λ k h. ground (arith, mem-insert_mono k e s.credited_events);
    still = refl;
  }

  pub ignore-Keeps : (e : Text) (s : EthereumState) → Keeps kind s (ignore e s)
  unfolding ignore remove_event is_known_event cursor
  ignore-Keeps e s = record {
    known = λ k h. ground (
      arith,
      mem-insert_mono k e s.ignored_events,
      mem-insert_self e s.ignored_events,
      any-retain k e s.pending,
      same→≡ k e,
    );
    still = refl;
  }

  pub finish-Keeps : (e : Text) (s : EthereumState) → Keeps kind s (finish e s)
  unfolding finish remove_event is_known_event cursor
  finish-Keeps e s = elim (Bool-cases (mem e s.credited_events)) [
    | inl i ↦ rw i (record {
      known = λ k h. ground (arith, any-retain k e s.pending, same→≡ k e);
      still = refl;
    })
    | inr i ↦ rw i (Keeps-refl kind s)
  ]

  apply_allowed-Keeps :
      (o : Other) (s : EthereumState)
      → Keeps kind s (if while_scanning o then apply_other eth o s else s)
  unfolding while_scanning apply_other
  apply_allowed-Keeps (enqueues p) s = enqueue_one-Keeps p s
  apply_allowed-Keeps (advances k block) s = Keeps-refl kind s
  apply_allowed-Keeps (credits e) s = credit-Keeps e s
  apply_allowed-Keeps (ignores e) s = ignore-Keeps e s
  apply_allowed-Keeps (finishes e) s = finish-Keeps e s

  apply_others-Keeps :
      (os : List Other) (s : EthereumState) → Keeps kind s (apply_others eth while_scanning os s)
  unfolding apply_others
  apply_others-Keeps [] s = Keeps-refl kind s
  apply_others-Keeps (o ∷ os) s =
      Keeps-trans kind s _ _ (apply_allowed-Keeps o s) (apply_others-Keeps os _)

module _ {F : Type 0} (eth : Ethers F) (w : World F) (kind : ScanKind) where
  abbrev pub Scans : Machine F → Machine F → Type 0
  Scans m m' = Keeps kind m.shared m'.shared

  pub Scans-trans : (a b c : Machine F) → Scans a b → Scans b c → Scans a c
  Scans-trans a b c = Keeps-trans kind a.shared b.shared c.shared

  -- An action that changes no state.
  pub idle-Scans : {A : Type 0} (r : Result A) → Follows Scans (lift r)
  idle-Scans r = record { at = λ m. Keeps-refl kind m.shared }

  pub bind-Scans :
      {A B : Type 0} (a : Action F A) (f : A → Action F B)
      → Follows Scans a
      → ((x : A) → Follows Scans (f x))
      → Follows Scans (a >>= f)
  bind-Scans = Follows-bind Scans-trans

  pub await_point-Scans : Follows Scans (await_point eth w while_scanning)
  unfolding await_point
  await_point-Scans = record { at = λ m. apply_others-Keeps eth kind (w.others m.clock) m.shared }

  pub request-Scans :
      {A : Type 0} (answer : ℕ → Result A) → Follows Scans (request eth w while_scanning answer)
  unfolding request ask
  request-Scans answer =
      bind-Scans (await_point eth w while_scanning) (λ _. ask eth w answer) await_point-Scans
        (λ _. record { at = λ m. Keeps-refl kind m.shared })

  finish_save-Scans : (r : Result (Unit {0})) (m : Machine F) → Scans m (finish_save eth w r m).1
  unfolding finish_save
  finish_save-Scans (ok u) m = Keeps-refl kind m.shared
  finish_save-Scans (err e) m = Keeps-refl kind m.shared

  pub persist_state-Scans : Follows Scans (persist_state eth w)
  unfolding persist_state
  persist_state-Scans = record { at = λ m. finish_save-Scans (w.save_answer m.clock) m }

  pub fetch-Scans :
      {A B : Type 0} (answer : ℕ → Result A) (check : A → Result B)
      → Follows Scans (fetch eth w while_scanning answer check)
  unfolding fetch
  fetch-Scans answer check =
      bind-Scans (request eth w while_scanning answer) _ (request-Scans answer)
        (λ a. idle-Scans (check a))
