-- ===== src/Evm/Cursors.antt =====
-- The scan cursors of ethereum.rs.
use crypto_payment_detector.Base.{ℕ, Option, none, some, max, min, unwrap_or, bind}
use crypto_payment_detector.Evm.State.{
  EthereumScanCursors, ScanKind, native, erc20, internal, EthereumState,
}

unfoldable pub get : EthereumScanCursors → ScanKind → Option ℕ
get c native = c.native_cursor
get c erc20 = c.erc20_cursor
get c internal = c.internal_cursor

-- `cursor.map_or(height, |previous| previous.max(height))`
unfoldable pub raise : Option ℕ → ℕ → ℕ
raise none height = height
raise (some previous) height = max previous height

unfoldable pub set : EthereumScanCursors → ScanKind → ℕ → EthereumScanCursors
unfolding raise
set c native height = record c { native_cursor = some (raise c.native_cursor height) }
set c erc20 height = record c { erc20_cursor = some (raise c.erc20_cursor height) }
set c internal height = record c { internal_cursor = some (raise c.internal_cursor height) }

unfoldable pub least : Option ℕ → Option ℕ → Option ℕ → Option ℕ
least (some a) (some b) (some c) = some (min (min a b) c)
least none b c = none
least (some a) none c = none
least (some a) (some b) none = none

unfoldable pub common_height : EthereumScanCursors → Option ℕ
unfolding least
common_height c = least c.native_cursor c.erc20_cursor c.internal_cursor

abbrev pub no_cursors : EthereumScanCursors
no_cursors = record { native_cursor = none; erc20_cursor = none; internal_cursor = none }

unfoldable pub cursor : EthereumState → ScanKind → Option ℕ
unfolding get
cursor s kind = bind s.scan_cursors (λ c. get c kind)

-- The state part of `set_scan_cursor`.
unfoldable pub move_cursor : ScanKind → ℕ → EthereumState → EthereumState
unfolding set common_height
move_cursor kind block s =
    let cursors = set (unwrap_or no_cursors s.scan_cursors) kind block in
    record s { scan_cursors = some cursors; last_scanned_block = common_height cursors }
