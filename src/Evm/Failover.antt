-- ===== src/Evm/Failover.antt =====
-- `read_rpc` of ethereum.rs, which asks one node after the other.
use crypto_payment_detector.Base.{
  ℕ, zero, suc, ◌+◌, ◌≡◌, refl, ◌⊎◌, inl, inr, Bool, true, false, ◌&&◌, Option, none, some, List,
  [], ◌∷◌, ◌++◌, if◌then◌else◌, ◌==◌, any, unwrap_or, arith, ap, ==→≡,
}
use crypto_payment_detector.Base.Text.{Text, text, decimal, one_of}
use crypto_payment_detector.Error.Defs.{DetectorError, api_error, Result, ok, err}
use crypto_payment_detector.Error.Exec.{Exec, lift, raise, attempt, ◌>>=◌, ◌>>◌, after, OnOk}
use crypto_payment_detector.Evm.Receipts.{and_then}
use crypto_payment_detector.Evm.Requests.{with_rpc_retry}

abbrev pub contains_index : ℕ → List ℕ → Bool
contains_index i = any (λ j. j == i)

-- The loop of `with_rpc_retry` returns before its end, where the source panics.
unfoldable pub settled : {A : Type 0} → Option (Result A) → Result A
settled none = err (api_error (text "with_rpc_retry loop should return inside the for body"))
settled (some r) = r

-- A node's answer is a JSON value: `from_value` reads it, `value_error` is what it displays otherwise.
module _ {V T : Type 0} (is_null : V → Bool) (from_value : V → Option T) (value_error : V → Text)
    (chain_id : ℕ) (method : Text) (chain_call : ℕ → ℕ → Result ℕ) (call : ℕ → ℕ → Result V) where
  unfoldable pub refuse_null : V → Result V
  refuse_null value =
      if is_null value
        && one_of method (
            text "eth_getBlockByNumber"
            ∷ text "eth_getBlockReceipts"
            ∷ text "eth_getTransactionReceipt"
            ∷ [])
      then err (api_error (method ++ text " returned null; historical data unavailable"))
      else ok value

  -- Each endpoint by its index, its calls by the attempt.
  unfoldable pub chain_answer : ℕ → Result ℕ
  unfolding with_rpc_retry settled
  chain_answer index = settled (with_rpc_retry (chain_call index))

  unfoldable pub value_answer : ℕ → Result V
  unfolding with_rpc_retry settled refuse_null
  value_answer index = settled (with_rpc_retry (λ n. and_then (call index n) refuse_null))

  unfoldable pub check_chain : ℕ → Result ℕ → Exec (List ℕ) (Unit {0})
  check_chain index (ok chain) verified = if chain == chain_id then (ok tt, index ∷ verified) else (
    err (
        api_error (
          text "RPC endpoint "
          ++ decimal (index + 1)
          ++ text " serves chain "
          ++ decimal chain
          ++ text ", expected "
          ++ decimal chain_id)),
    verified,
  )
  check_chain index (err error) verified = (err error, verified)

  -- The state are the endpoints that were found to serve the chain.
  unfoldable pub verify : ℕ → Exec (List ℕ) (Unit {0})
  unfolding check_chain chain_answer
  verify index verified =
      if contains_index index verified
      then (ok tt, verified)
      else check_chain index (chain_answer index) verified

  unfoldable pub read_value : V → Result T
  read_value value = elim (from_value value) [
    | none ↦ err (api_error (text "Invalid " ++ method ++ text " response: " ++ value_error value))
    | some t ↦ ok t
  ]

  unfoldable pub read_endpoint : ℕ → Exec (List ℕ) T
  unfolding verify value_answer read_value
  read_endpoint index = do verify index; lift (and_then (value_answer index) read_value)

  unfoldable pub or_next : Result T → (DetectorError → Exec (List ℕ) T) → Exec (List ℕ) T
  or_next (ok t) next verified = (ok t, verified)
  or_next (err error) next verified = next error verified

  -- The endpoints `index, index + 1, ..`, as many as are left.
  unfoldable pub read_from : ℕ → ℕ → Option DetectorError → Exec (List ℕ) T
  unfolding read_endpoint or_next
  read_from index zero last_error =
      raise (unwrap_or (api_error (text "No read RPC configured")) last_error)
  read_from index (suc left) last_error = do
    answer ← attempt (read_endpoint index)
    or_next answer (λ error. read_from (suc index) left (some error))

  unfoldable pub read_rpc : ℕ → Exec (List ℕ) T
  unfolding read_from
  read_rpc providers = read_from 0 providers none

  -- What is verified later was verified before or serves the chain.
  unfoldable pub Trusts : List ℕ → List ℕ → Type 0
  Trusts s t =
      (i : ℕ)
      → contains_index i t ≡ true
      → (contains_index i s ≡ true) ⊎ (chain_answer i ≡ ok chain_id)

  Trusts-refl : (s : List ℕ) → Trusts s s
  unfolding Trusts
  Trusts-refl s i h = inl h

  Trusts-trans : (a b c : List ℕ) → Trusts a b → Trusts b c → Trusts a c
  unfolding Trusts
  Trusts-trans a b c h k i p = elim (k i p) [ inl q ↦ h i q | inr q ↦ inr q ]

  -- An answer is what a verified endpoint says.
  pub record From (t : T) (s : List ℕ) : Type 0 where
    pub endpoint : ℕ
    pub verified : contains_index endpoint s ≡ true
    pub said : and_then (value_answer endpoint) read_value ≡ ok t

  Checked : ℕ → List ℕ → Result (Unit {0}) × List ℕ → Type 0
  Checked index s x = Trusts s x.1 × OnOk (λ u t. contains_index index t ≡ true) x

  added_if :
      (index i : ℕ) (s : List ℕ) (same_index : Bool)
      → chain_answer index ≡ ok chain_id
      → (index == i) ≡ same_index
      → contains_index i (index ∷ s) ≡ true
      → (contains_index i s ≡ true) ⊎ (chain_answer i ≡ ok chain_id)
  added_if index i s true h e k = let q : index ≡ i = ==→≡ index i e in inr (rw (← q) h)
  added_if index i s false h e k = let q : contains_index i s ≡ true = ground arith in inl q

  added : (index : ℕ) (s : List ℕ) → chain_answer index ≡ ok chain_id → Trusts s (index ∷ s)
  unfolding Trusts
  added index s h i k = added_if index i s (index == i) h refl k

  contains_self : (index : ℕ) (s : List ℕ) → contains_index index (index ∷ s) ≡ true
  contains_self index s = ground arith

  chain_if :
      (index chain : ℕ) (s : List ℕ) (same_chain : Bool) (error : DetectorError)
      → chain_answer index ≡ ok chain
      → (chain == chain_id) ≡ same_chain
      → Checked index s (if same_chain then (ok tt, index ∷ s) else (err error, s))
  unfolding Checked OnOk
  chain_if index chain s true error h e =
      let q : chain ≡ chain_id = ==→≡ chain chain_id e in
      let a : chain_answer index ≡ ok chain_id = rw h (ap ok q) in
      (added index s a, contains_self index s)
  chain_if index chain s false error h e = (Trusts-refl s, tt)

  check_chain-Checked :
      (index : ℕ) (s : List ℕ) (answer : Result ℕ)
      → chain_answer index ≡ answer
      → Checked index s (check_chain index answer s)
  unfolding check_chain Checked OnOk
  check_chain-Checked index s (ok chain) h = chain_if index chain s (chain == chain_id) _ h refl
  check_chain-Checked index s (err e) h = (Trusts-refl s, tt)

  verify_if :
      (index : ℕ) (s : List ℕ) (verified : Bool)
      → contains_index index s ≡ verified
      → Checked index s (if verified then (ok tt, s) else check_chain index (chain_answer index) s)
  unfolding Checked OnOk
  verify_if index s true h = (Trusts-refl s, h)
  verify_if index s false h = check_chain-Checked index s (chain_answer index) refl

  Read : List ℕ → Result T × List ℕ → Type 0
  Read s x = Trusts s x.1 × OnOk From x

  said_lem :
      (index : ℕ) (s t : List ℕ) (r : Result T)
      → and_then (value_answer index) read_value ≡ r
      → Trusts s t
      → contains_index index t ≡ true
      → Read s (r, t)
  unfolding Read OnOk
  said_lem index s t (ok v) h k c = (k, record { endpoint = index; verified = c; said = h })
  said_lem index s t (err e) h k c = (k, tt)

  read_lem :
      (index : ℕ) (s : List ℕ) (x : Result (Unit {0}) × List ℕ)
      → Checked index s x
      → Read s (after x (λ u. lift (and_then (value_answer index) read_value)))
  unfolding Checked OnOk Read
  read_lem index s (ok u, t) h = said_lem index s t _ refl h.0 h.1
  read_lem index s (err e, t) h = (h.0, tt)

  read_endpoint-Read : (index : ℕ) (s : List ℕ) → Read s (read_endpoint index s)
  unfolding read_endpoint verify
  read_endpoint-Read index s = read_lem index s _ (verify_if index s (contains_index index s) refl)

  or_next-Read :
      (s : List ℕ) (x : Result T × List ℕ) (next : DetectorError → Exec (List ℕ) T)
      → Read s x
      → ((e : DetectorError) (t : List ℕ) → Read t (next e t))
      → Read s (or_next x.0 next x.1)
  unfolding or_next Read OnOk
  or_next-Read s (ok v, t) next h k = h
  or_next-Read s (err e, t) next h k = let r = k e t in (Trusts-trans s t _ h.0 r.0, r.1)

  read_from-Read :
      (index left : ℕ) (last_error : Option DetectorError) (s : List ℕ)
      → Read s (read_from index left last_error s)
  unfolding read_from Read OnOk
  read_from-Read index zero last_error s = (Trusts-refl s, tt)
  read_from-Read index (suc left) last_error s =
      or_next-Read s (read_endpoint index s) _ (read_endpoint-Read index s)
        (λ e t. read_from-Read (suc index) left (some e) t)

  -- The answer of a read is what an endpoint says that is verified by then, and an endpoint is
  -- verified by then only if it was before or serves the configured chain; the second also holds
  -- after a read that fails.
  pub read_rpc-Trusts :
      (providers : ℕ) (s : List ℕ)
      → Trusts s (read_rpc providers s).1 × OnOk From (read_rpc providers s)
  unfolding read_rpc Read
  read_rpc-Trusts providers s = read_from-Read 0 providers none s
