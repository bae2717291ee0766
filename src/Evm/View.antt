-- ===== src/Evm/View.antt =====
-- What a scan of ethereum.rs should find on the chain that its nodes show.
use crypto_payment_detector.Base.{
  ℕ, ◌≡◌, refl, Bool, true, false, ◌&&◌, ◌||◌, Option, none, some, List, [], ◌∷◌, ◌++◌, arith, inl,
  inr, any,
}
use crypto_payment_detector.Base.Text.{Text, same}
use crypto_payment_detector.Error.Defs.{Result, ok, err, Result-cases}
use crypto_payment_detector.Error.Exec.{lift, after, OnOk}
use crypto_payment_detector.EvmPool.{EthereumReservation}
use crypto_payment_detector.Evm.Chain.{Ethers, EthTransaction, EthBlock, Receipt}
use crypto_payment_detector.Evm.State.{
  EthereumDetector, EthereumState, ScanKind, DetectedEthereumPayment, World, Machine,
}
use crypto_payment_detector.Evm.Events.{
  is_known_event, while_scanning, fetch, request, ask, await_point,
}
use crypto_payment_detector.Evm.Receipts.{receipt_succeeded, checked_block, checked_receipt}
use crypto_payment_detector.Evm.Scan.{Reservations, native_candidate, native_event_id}
use crypto_payment_detector.Evm.Known.{Keeps}

-- The chain that the nodes agree on: each block's transactions, and which of them succeeded.
pub record View : Type 0 where
  pub transactions : ℕ → List EthTransaction
  pub succeeded : ℕ → Bool

-- Whatever block or receipt a node answers with is the chain's. It may fail at any time.
pub record IsHonest {F : Type 0} (w : World F) (v : View) : Type 0 where
  pub block :
      (n b : ℕ) (block : EthBlock EthTransaction)
      → w.block_answer n b ≡ ok (some block)
      → block.transactions ≡ v.transactions b
  pub receipt :
      (n h : ℕ) (r : Receipt) (s : Bool)
      → w.receipt_answer n h ≡ ok (some r)
      → receipt_succeeded r ≡ ok s
      → s ≡ v.succeeded h

-- The event is known, or among the payments in hand.
unfoldable pub seen : Text → List DetectedEthereumPayment → EthereumState → Bool
seen k ds s = is_known_event s k || any (λ p. same p.event_id k) ds

any-append :
    (f : DetectedEthereumPayment → Bool) (ps qs : List DetectedEthereumPayment)
    → any f (ps ++ qs) ≡ (any f ps || any f qs)
any-append f [] qs = refl
any-append f (p ∷ ps) qs = ground (arith, any-append f ps qs)

pub known-seen :
    (k : Text) (ds : List DetectedEthereumPayment) (s : EthereumState)
    → is_known_event s k ≡ true
    → seen k ds s ≡ true
unfolding seen
known-seen k ds s h = ground arith

pub seen-left :
    (kind : ScanKind) (k : Text) (ds es : List DetectedEthereumPayment) (s t : EthereumState)
    → Keeps kind s t
    → seen k ds s ≡ true
    → seen k (ds ++ es) t ≡ true
unfolding seen
seen-left kind k ds es s t h i =
    ground (arith, any-append (λ p. same p.event_id k) ds es, h.known k)

pub seen-right :
    (k : Text) (ds es : List DetectedEthereumPayment) (s : EthereumState)
    → seen k es s ≡ true
    → seen k (ds ++ es) s ≡ true
unfolding seen
seen-right k ds es s i = ground (arith, any-append (λ p. same p.event_id k) ds es)

-- An outcome without an error has the event in sight.
abbrev pub Finds : {F : Type 0} → Text → Result (List DetectedEthereumPayment) × Machine F → Type 0
Finds k = OnOk (λ ds t. seen k ds t.shared ≡ true)

module _ {F : Type 0} (eth : Ethers F) (w : World F) (d : EthereumDetector F) (v : View) where
  unfoldable pub pays_candidate : Text → EthTransaction → Option (ℕ × EthereumReservation) → Bool
  pays_candidate k tx none = false
  pays_candidate k tx (some (to, r)) =
      v.succeeded tx.hash && same (native_event_id eth w d tx.hash to) k

  -- The transaction is a successful payment to a reserved address, and `k` is its event.
  unfoldable pub pays_native : Reservations → Text → EthTransaction → Bool
  unfolding pays_candidate
  pays_native rs k tx = pays_candidate k tx (native_candidate eth w d rs tx)

  -- The event is that of a payment in this block.
  unfoldable pub expected_native : Reservations → ℕ → Text → Bool
  unfolding pays_native
  expected_native rs b k = any (pays_native rs k) (v.transactions b)

  -- What a fetched value inherits from an answer that passed the check.
  checked_answer :
      {A B : Type 0} (r : Result A) (s : Machine F) (check : A → Result B) (P : B → Type 0)
      → ((a : A) (b : B) → r ≡ ok a → check a ≡ ok b → P b)
      → OnOk (λ b t. P b) (after (r, s) (λ a. lift (check a)))
  unfolding OnOk
  checked_answer (ok a) s check P h = elim (Result-cases (check a)) [
    | inl (b, e) ↦ rw e (h a b refl e)
    | inr (x, e) ↦ rw e tt
  ]
  checked_answer (err e) s check P h = tt

  pub fetch-OnOk :
      {A B : Type 0} (answer : ℕ → Result A) (check : A → Result B) (P : B → Type 0)
      → ((n : ℕ) (a : A) (b : B) → answer n ≡ ok a → check a ≡ ok b → P b)
      → (m : Machine F) → OnOk (λ b t. P b) (fetch eth w while_scanning answer check m)
  unfolding fetch request ask await_point
  fetch-OnOk answer check P h m =
      checked_answer (answer (await_point eth w while_scanning m).1.clock) _ check P
        (h (await_point eth w while_scanning m).1.clock)

  pub checked_block-some :
      (n : ℕ) (o : Option (EthBlock EthTransaction)) (b : EthBlock EthTransaction)
      → checked_block n o ≡ ok b
      → o ≡ some b
  unfolding checked_block
  checked_block-some n none b h = absurd (ground arith)
  checked_block-some n (some c) b h = ground arith

  pub checked_receipt-some :
      (hash : ℕ) (o : Option Receipt) (r : Receipt)
      → checked_receipt eth w while_scanning hash o ≡ ok r
      → o ≡ some r
  unfolding checked_receipt
  checked_receipt-some hash none r h = absurd (ground arith)
  checked_receipt-some hash (some c) r h = ground arith
