-- ===== src/Evm/Rounds.antt =====
-- The scan loop of ethereum.rs ends, and without an error it ends at the last block.
use crypto_payment_detector.Base.{
  ℕ, zero, suc, ◌+◌, ◌≤◌, ◌<◌, ◌≡◌, refl, ap, true, arith, inl, inr, Bool-cases, ltb, ltb→le,
  u64_max, saturating_add,
}
use crypto_payment_detector.Error.Defs.{Result}
use crypto_payment_detector.Error.Exec.{OnOk, after, ◌>>=◌}
use crypto_payment_detector.Evm.Chain.{Ethers}
use crypto_payment_detector.Evm.State.{EthereumDetector, ScanKind, World, Machine, Action}
use crypto_payment_detector.Evm.Events.{set_scan_cursor}
use crypto_payment_detector.Evm.Scan.{Reservations}
use crypto_payment_detector.Evm.Tokens.{emit_all}
use crypto_payment_detector.Evm.Loop.{round_end, detect, scan_rounds}
use crypto_payment_detector.Evm.Reached.{reached}
use crypto_payment_detector.Evm.Complete.{round_end-bounds, next_block}

module _ {F : Type 0} (eth : Ethers F) (w : World F) (d : EthereumDetector F) (kind : ScanKind)
    (rs : Reservations) (end : ℕ) (small : end < u64_max) where
  -- One round before the rest of the loop.
  abbrev round : ℕ → Machine F → Action F (Unit {0}) → Result (Unit {0}) × Machine F
  round from m rest = after (detect eth w d kind rs from (round_end eth w d kind end from) m) (λ ds.
      (emit_all eth w d ds >>= λ _.
      set_scan_cursor eth w kind (round_end eth w d kind end from) >>= λ _. rest))

  -- For a last block `end` below `u64::MAX`: with at least `end + 1 - from` rounds as fuel the loop
  -- ends by its own condition, and more fuel changes nothing.
  pub scan_rounds-ends :
      (left more from : ℕ) (m : Machine F)
      → end + 1 ≤ from + left
      → left ≤ more
      → scan_rounds eth w d kind rs end more from m ≡ scan_rounds eth w d kind rs end left from m
  unfolding scan_rounds
  scan_rounds-ends zero zero from m h i = refl
  scan_rounds-ends zero (suc more) from m h i = elim (Bool-cases (ltb end from)) [
    | inl e ↦ rw e refl
    | inr e ↦ absurd (ground arith)
  ]
  scan_rounds-ends (suc left) zero from m h i = absurd (omega arith)
  scan_rounds-ends (suc left) (suc more) from m h i = elim (Bool-cases (ltb end from)) [
    | inl e ↦ rw e refl
    | inr e ↦
        let to = round_end eth w d kind end from in
        let (lo, hi) = round_end-bounds eth w d kind rs end from (ltb→le end from e) small in
        let next = next_block eth w d kind rs to (omega arith) in
        let enough : end + 1 ≤ saturating_add to 1 + left = rw next (omega arith) in
        rw e (
          ap (round from m)
            (λ j t. scan_rounds-ends left more (saturating_add to 1) t enough (omega arith) j))
  ]

  AtEnd : Result (Unit {0}) × Machine F → Type 0
  AtEnd = OnOk (λ u t. reached kind t.shared end ≡ true)
