-- ===== src/Evm/Loop.antt =====
-- The scan loops of ethereum.rs: one source block by block, and the three sources of a cycle.
use crypto_payment_detector.Base.{
  ℕ, zero, suc, ◌+◌, ◌-◌, Bool, true, false, not, Option, none, some, List, [], ◌∷◌, max, min,
  if◌then◌else◌, ltb, is_some, unwrap_or, or_else, saturating_add,
}
use crypto_payment_detector.Error.Defs.{DetectorError, Result, ok, err}
use crypto_payment_detector.Error.Exec.{pure, raise, gets, attempt, ◌>>=◌, ◌>>◌}
use crypto_payment_detector.EvmPool.{EthereumReservation}
use crypto_payment_detector.Evm.Chain.{Ethers}
use crypto_payment_detector.Evm.Cursors.{cursor}
use crypto_payment_detector.Evm.State.{
  EthereumDetector, EthereumState, ScanKind, native, erc20, internal, DetectedEthereumPayment,
  World, Action, modify_shared,
}
use crypto_payment_detector.Evm.Events.{persist_state, set_scan_cursor, await_point, while_scanning}
use crypto_payment_detector.Evm.Scan.{Reservations, reservation_lookup, scan_native_eth}
use crypto_payment_detector.Evm.Tokens.{scan_erc20_logs, scan_internal_calls, emit_all}

module _ {F : Type 0} (eth : Ethers F) (w : World F) (d : EthereumDetector F) where
  -- The blocks of one round, less the first: 0, 24, or the whole cycle.
  unfoldable pub chunk_tail : ScanKind → ℕ
  chunk_tail native = 0
  chunk_tail erc20 = 24
  chunk_tail internal = max d.config.max_blocks_per_cycle 1 - 1

  unfoldable pub detect : ScanKind → Reservations → ℕ → ℕ → Action F (List DetectedEthereumPayment)
  unfolding scan_native_eth scan_erc20_logs scan_internal_calls
  detect native = scan_native_eth eth w d
  detect erc20 = scan_erc20_logs eth w d
  detect internal = scan_internal_calls eth w d

  -- The last block of the round that starts at `from`.
  unfoldable pub round_end : ScanKind → ℕ → ℕ → ℕ
  unfolding chunk_tail
  round_end kind end from = min end (saturating_add from (chunk_tail kind))

  -- `while from <= end`, with rounds left as fuel.
  unfoldable pub scan_rounds : ScanKind → Reservations → ℕ → ℕ → ℕ → Action F (Unit {0})
  unfolding round_end detect emit_all set_scan_cursor
  scan_rounds kind reservations end zero from = pure tt
  scan_rounds kind reservations end (suc left) from =
      let to = round_end kind end from in
      let rest = scan_rounds kind reservations end left (saturating_add to 1) in
      if ltb end from then pure tt else do
        detected ← detect kind reservations from to
        emit_all eth w d detected
        set_scan_cursor eth w kind to
        rest

  -- The first block after the cursor, or the configured one.
  unfoldable pub first_block : Option ℕ → ℕ → ℕ
  first_block none safe_block = unwrap_or safe_block d.config.start_block
  first_block (some last) safe_block = saturating_add last 1

  unfoldable pub last_block : ℕ → ℕ → ℕ
  last_block from safe_block =
      min safe_block (saturating_add from (max d.config.max_blocks_per_cycle 1 - 1))

  unfoldable pub scan_range : ScanKind → Reservations → ℕ → ℕ → Action F (Unit {0})
  unfolding scan_rounds
  scan_range kind reservations from end = scan_rounds kind reservations end (end + 1 - from) from

  unfoldable pub scan_source : ScanKind → Reservations → ℕ → Action F (Unit {0})
  unfolding first_block last_block scan_range cursor
  scan_source kind reservations safe_block = do
    last ← gets (λ m. cursor m.shared kind)
    let from = first_block last safe_block
    scan_range kind reservations from (last_block from safe_block)

  -- Old state has one shared cursor, which the three sources inherit.
  unfoldable pub init_cursors : ℕ → EthereumState → EthereumState
  init_cursors safe_block s =
      if is_some s.scan_cursors
      then s
      else let initial =
          or_else s.last_scanned_block
            (if is_some d.config.start_block then none else some safe_block) in
        record s {
          scan_cursors = some (record {
            native_cursor = initial;
            erc20_cursor = initial;
            internal_cursor = initial;
          });
          last_scanned_block = initial;
        }

  -- Nothing to look for: the cursor moves at once.
  unfoldable pub is_idle : ScanKind → Reservations → Bool
  is_idle kind [] = true
  is_idle native (r ∷ rs) = false
  is_idle erc20 (r ∷ rs) = elim d.tokens [ [] ↦ true | t ∷ ts ↦ false ]
  is_idle internal (r ∷ rs) = not d.config.has_etherscan

  unfoldable pub skip_source : ScanKind → ℕ → Option DetectorError → Action F (Option DetectorError)
  unfolding set_scan_cursor
  skip_source kind safe_block first_error = do
    set_scan_cursor eth w kind safe_block
    pure first_error

  abbrev pub first_of : Option DetectorError → Result (Unit {0}) → Option DetectorError
  first_of first_error (ok u) = first_error
  first_of first_error (err error) = or_else first_error (some error)

  unfoldable pub try_source :
      ScanKind → Reservations → ℕ → Option DetectorError → Action F (Option DetectorError)
  unfolding scan_source
  try_source kind reservations safe_block first_error = do
    answer ← attempt (scan_source kind reservations safe_block)
    pure (first_of first_error answer)

  -- A source's error is kept; an error of `set_scan_cursor` ends the scan.
  unfoldable pub scan_kind :
      ScanKind → Reservations → ℕ → Option DetectorError → Action F (Option DetectorError)
  unfolding is_idle try_source skip_source
  scan_kind kind reservations safe_block first_error =
      if is_idle kind reservations
      then skip_source kind safe_block first_error
      else try_source kind reservations safe_block first_error

  unfoldable pub report : Option DetectorError → Action F (Unit {0})
  report none = pure tt
  report (some error) = raise error

  -- The loop of `scan_new_blocks` over the three sources.
  unfoldable pub scan_sources : Reservations → ℕ → Action F (Unit {0})
  unfolding scan_kind report
  scan_sources lookup safe_block = do
    a ← scan_kind native lookup safe_block none
    b ← scan_kind erc20 lookup safe_block a
    c ← scan_kind internal lookup safe_block b
    report c

  -- Other tasks may run until `scan_lock` is taken.
  unfoldable pub scan_new_blocks : List EthereumReservation → ℕ → Action F (Unit {0})
  unfolding init_cursors scan_sources reservation_lookup persist_state await_point
  scan_new_blocks reservations safe_block = do
    await_point eth w while_scanning
    modify_shared (init_cursors safe_block)
    persist_state eth w
    scan_sources (reservation_lookup eth w d reservations []) safe_block
