-- ===== src/Evm/Reached.antt =====
-- How far a source's scan of ethereum.rs has come, and what enqueueing and the cursor's move do.
use crypto_payment_detector.Base.{
  ℕ, ◌≤◌, ◌≡◌, refl, ap, ◌∙◌, Bool, true, false, ◌||◌, Option, none, some, List, [], ◌∷◌, arith,
  inl, inr, Bool-cases, Option-cases, leb,
}
use crypto_payment_detector.Base.Text.{Text, same, same→≡}
use crypto_payment_detector.Error.Defs.{Result, ok, err}
use crypto_payment_detector.Error.Exec.{OnOk, OnOk-bind, OnOk-and, OnOk-map, OnOk-pure, OnOk-any}
use crypto_payment_detector.Evm.Chain.{Ethers}
use crypto_payment_detector.Evm.Cursors.{get, raise, set, cursor, move_cursor, no_cursors}
use crypto_payment_detector.Evm.State.{
  EthereumDetector, EthereumState, EthereumScanCursors, ScanKind, native, erc20, internal,
  DetectedEthereumPayment, World, Machine,
}
use crypto_payment_detector.Evm.Events.{
  is_known_event, finish_save, persist_state, emit_detected_and_enqueue, set_scan_cursor,
}
use crypto_payment_detector.Evm.Tokens.{emit_all}
use crypto_payment_detector.Evm.Known.{Keeps, Scans, enqueue_one-known}
use crypto_payment_detector.Evm.Still.{emit-Scans}
use crypto_payment_detector.Evm.View.{seen}

abbrev pub covers : Option ℕ → ℕ → Bool
covers none b = false
covers (some c) b = leb b c

-- The source's cursor is at the block or beyond it.
unfoldable pub reached : ScanKind → EthereumState → ℕ → Bool
reached kind s b = covers (cursor s kind) b

-- The cursor is before `from`.
abbrev pub IsBehind : ScanKind → ℕ → EthereumState → Type 0
IsBehind kind from s = (b : ℕ) → from ≤ b → reached kind s b ≡ false

pub reached-still :
    (kind : ScanKind) (s t : EthereumState) (b : ℕ)
    → Keeps kind s t
    → reached kind t b ≡ reached kind s b
unfolding reached
reached-still kind s t b h = ap (λ o. covers o b) h.still

get-set :
    (kind : ScanKind) (c : EthereumScanCursors) (b : ℕ)
    → get (set c kind b) kind ≡ some (raise (get c kind) b)
unfolding get set
get-set native c b = refl
get-set erc20 c b = refl
get-set internal c b = refl

get-none : (kind : ScanKind) → get no_cursors kind ≡ none
unfolding get
get-none native = refl
get-none erc20 = refl
get-none internal = refl

pub cursor-move_cursor :
    (kind : ScanKind) (b : ℕ) (s : EthereumState)
    → cursor (move_cursor kind b s) kind ≡ some (raise (cursor s kind) b)
unfolding cursor move_cursor
cursor-move_cursor kind b s = elim (Option-cases s.scan_cursors) [
  | inl e ↦ rw e (get-set kind no_cursors b ∙ ap (λ o. some (raise o b)) (get-none kind))
  | inr (c, e) ↦ rw e (get-set kind c b)
]

raise-covers : (o : Option ℕ) (to b : ℕ) → covers (some (raise o to)) b ≡ (covers o b || leb b to)
unfolding raise
raise-covers none to b = refl
raise-covers (some c) to b = ground arith

pub reached-move_cursor :
    (kind : ScanKind) (to b : ℕ) (s : EthereumState)
    → reached kind (move_cursor kind to s) b ≡ (reached kind s b || leb b to)
unfolding reached
reached-move_cursor kind to b s =
    ap (λ o. covers o b) (cursor-move_cursor kind to s) ∙ raise-covers (cursor s kind) to b

pub known-move_cursor :
    (kind : ScanKind) (to : ℕ) (s : EthereumState) (k : Text)
    → is_known_event (move_cursor kind to s) k ≡ is_known_event s k
unfolding is_known_event move_cursor
known-move_cursor kind to s k = refl

module _ {F : Type 0} (eth : Ethers F) (w : World F) where
  finish_save-shared :
      (r : Result (Unit {0})) (m : Machine F) → (finish_save eth w r m).1.shared ≡ m.shared
  unfolding finish_save
  finish_save-shared (ok u) m = refl
  finish_save-shared (err e) m = refl

  pub persist_state-shared : (m : Machine F) → (persist_state eth w m).1.shared ≡ m.shared
  unfolding persist_state
  persist_state-shared m = finish_save-shared (w.save_answer m.clock) m

  -- The cursor moves even if the state file cannot be written.
  pub set_scan_cursor-shared :
      (kind : ScanKind) (to : ℕ) (m : Machine F)
      → (set_scan_cursor eth w kind to m).1.shared ≡ move_cursor kind to m.shared
  unfolding set_scan_cursor
  set_scan_cursor-shared kind to m = persist_state-shared _

module _ {F : Type 0} (eth : Ethers F) (w : World F) (d : EthereumDetector F) where
  abbrev Knows : Text → Result (Unit {0}) × Machine F → Type 0
  Knows k = OnOk (λ u t. is_known_event t.shared k ≡ true)

  saved-Knows :
      (k : Text) (m : Machine F)
      → is_known_event m.shared k ≡ true
      → Knows k (persist_state eth w m)
  saved-Knows k m h =
      OnOk-map (persist_state eth w m) _ _
        (OnOk-and (persist_state eth w m) (λ t. t.shared ≡ m.shared) (λ u t. Unit)
          (persist_state-shared eth w m) (OnOk-any (persist_state eth w m)))
        (λ u t i. rw i.0 h)

  emit-Knows :
      (p : DetectedEthereumPayment) (m : Machine F)
      → Knows p.event_id (emit_detected_and_enqueue eth w p m)
  unfolding emit_detected_and_enqueue
  emit-Knows p m = elim (Bool-cases (is_known_event m.shared p.event_id)) [
    | inl e ↦ rw e (OnOk-pure _ _ _ e)
    | inr e ↦ rw e (saved-Knows p.event_id _ (enqueue_one-known eth native p m.shared))
  ]

  emitted :
      (k : Text) (p : DetectedEthereumPayment) (ps : List DetectedEthereumPayment)
      (s t : EthereumState)
      → seen k (p ∷ ps) s ≡ true
      → Keeps native s t
      → is_known_event t p.event_id ≡ true
      → seen k ps t ≡ true
  unfolding seen
  emitted k p ps s t h keeps i = elim (Bool-cases (same p.event_id k)) [
    | inl e ↦ let j : is_known_event t k ≡ true = rw (← same→≡ p.event_id k e) i in ground arith
    | inr e ↦ ground (arith, keeps.known k)
  ]

  -- Every payment in hand is known once all are enqueued.
  pub emit_all-Knows :
      (k : Text) (ps : List DetectedEthereumPayment) (m : Machine F)
      → seen k ps m.shared ≡ true
      → OnOk (λ u t. is_known_event t.shared k ≡ true) (emit_all eth w d ps m)
  unfolding emit_all seen
  emit_all-Knows k [] m h = OnOk-pure _ _ _ (ground arith)
  emit_all-Knows k (p ∷ ps) m h =
      let x = emit_detected_and_enqueue eth w p m in
      OnOk-bind x _ (λ u t. seen k ps t.shared ≡ true) _
        (OnOk-map x _ _
          (OnOk-and x (λ t. Scans eth w native m t) _ ((emit-Scans eth w d native p).at m)
            (emit-Knows p m))
          (λ u t i. emitted k p ps m.shared t.shared h i.0 i.1))
        (λ u t i. emit_all-Knows k ps t i)
