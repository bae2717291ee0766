-- ===== src/Evm/Passive.antt =====
-- Where ethereum.rs has delivered no webhook and sent no transaction yet.
use crypto_payment_detector.Base.{ℕ, ◌≡◌, ◌∙◌, refl, ap, arith, Option, none, some}
use crypto_payment_detector.Error.Defs.{Result, ok, err}
use crypto_payment_detector.Error.Exec.{OnOk, Yields, Yields-bind, lift-keeps}
use crypto_payment_detector.Evm.Chain.{Ethers, Receipt}
use crypto_payment_detector.Evm.State.{World, Machine}
use crypto_payment_detector.Evm.Events.{request, await_point, ask, fetch}
use crypto_payment_detector.Evm.Receipts.{checked_receipt, transaction_receipt}
use crypto_payment_detector.Evm.RecoverPayment.{always}

-- Neither a webhook was delivered nor a transaction sent.
pub record Passive {F : Type 0} (m n : Machine F) : Type 0 where
  pub acknowledged : n.acknowledged ≡ m.acknowledged
  pub sent : n.sent ≡ m.sent

module _ {F : Type 0} (eth : Ethers F) (w : World F) (m : Machine F) where
  abbrev pub Still : Machine F → Type 0
  Still n = Passive m n

  keeps : {A : Type 0} (r : Result A) (n : Machine F) → Still n → OnOk (λ a. Still) (r, n)
  keeps r n h = (lift-keeps r).at n h

  same_lists : (n n' : Machine F) → Passive n n' → Still n → Still n'
  same_lists n n' k h = record {
    acknowledged = k.acknowledged ∙ h.acknowledged;
    sent = k.sent ∙ h.sent;
  }

  pub await-Yields : Yields Still (λ u. Still) (await_point eth w always)
  unfolding await_point
  await-Yields = record {
    at = λ n h. keeps _ _ (same_lists n _ (record { acknowledged = refl; sent = refl }) h);
  }

  ask-Yields : {A : Type 0} (q : ℕ → Result A) → Yields Still (λ a. Still) (ask eth w q)
  unfolding ask
  ask-Yields q = record {
    at = λ n h. keeps _ _ (same_lists n _ (record { acknowledged = refl; sent = refl }) h);
  }

  pub request-Yields :
      {A : Type 0} (q : ℕ → Result A) → Yields Still (λ a. Still) (request eth w always q)
  unfolding request
  request-Yields q = Yields-bind (λ u. Still) _ _ await-Yields (λ u. ask-Yields q)

  -- The answer to one of the questions.
  abbrev pub Answered : {A : Type 0} → (ℕ → Result A) → A → Machine F → Type 0
  Answered q a n = ((asked : ℕ) × (q asked ≡ ok a)) × Passive m n

  answered_lem :
      {A : Type 0} (q : ℕ → Result A) (asked : ℕ) (r : Result A) (n : Machine F)
      → q asked ≡ r
      → Passive m n
      → OnOk (Answered q) (r, n)
  unfolding OnOk
  answered_lem q asked (ok a) n e h = ((asked, e), h)
  answered_lem q asked (err x) n e h = tt

  ask-Answered : {A : Type 0} (q : ℕ → Result A) → Yields Still (Answered q) (ask eth w q)
  unfolding ask
  ask-Answered q = record {
    at = λ n h.
        answered_lem q n.clock (q n.clock) _ refl
          (same_lists n _ (record { acknowledged = refl; sent = refl }) h);
  }

  pub request-Answered :
      {A : Type 0} (q : ℕ → Result A) → Yields Still (Answered q) (request eth w always q)
  unfolding request
  request-Answered q = Yields-bind (λ u. Still) _ _ await-Yields (λ u. ask-Answered q)

  checked-some :
      (hash : ℕ) (answer : Option Receipt) (receipt : Receipt)
      → checked_receipt eth w always hash answer ≡ ok receipt
      → answer ≡ some receipt
  unfolding checked_receipt
  checked-some hash none receipt e = absurd (ground arith)
  checked-some hash (some r) receipt e = ground arith

  -- What the node answers for the receipt of the transaction.
  abbrev pub Receives : ℕ → Receipt → Machine F → Type 0
  Receives hash receipt n =
      ((asked : ℕ) × (w.receipt_answer asked hash ≡ ok (some receipt))) × Passive m n

  checked_lem :
      (hash asked : ℕ) (answer : Option Receipt) (r : Result Receipt) (n : Machine F)
      → w.receipt_answer asked hash ≡ ok answer
      → checked_receipt eth w always hash answer ≡ r
      → Passive m n
      → OnOk (Receives hash) (r, n)
  unfolding OnOk
  checked_lem hash asked answer (ok receipt) n e c h =
      ((asked, e ∙ ap ok (checked-some hash answer receipt c)), h)
  checked_lem hash asked answer (err x) n e c h = tt

  pub receipt-Receives :
      (hash : ℕ) → Yields Still (Receives hash) (transaction_receipt eth w always hash)
  unfolding transaction_receipt fetch
  receipt-Receives hash =
      Yields-bind (Answered (λ n. w.receipt_answer n hash)) _ _
        (request-Answered (λ n. w.receipt_answer n hash))
        (λ a. record { at = λ n h. checked_lem hash h.0.0 a _ n h.0.1 refl h.1 })
