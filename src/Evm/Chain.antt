-- ===== src/Evm/Chain.antt =====
-- What ethereum.rs reads of an EVM node, of Etherscan and of its wallets. Addresses, hashes and amounts
-- are numbers; the `ethers` crate's parsing and printing of them is the record `Ethers`.
use crypto_payment_detector.Base.{
  ℕ, ◌+◌, ◌*◌, ◌/◌, ◌-◌, ◌^◌, Bool, Option, List, [], ◌∷◌, if◌then◌else◌, ltb,
}
use crypto_payment_detector.Base.Text.{Text, text}
use crypto_payment_detector.Error.Defs.{DetectorError, api_error, Result, ok, err}

pub record Ethers (F : Type 0) : Type 0 where
  pub format_address : ℕ → Text
  pub parse_address : Text → Option ℕ
  -- what the error of a text that is no address, no hash or no number displays
  pub parse_error : Text → Text
  pub format_hash : ℕ → Text
  pub parse_hash : Text → Option ℕ
  pub format_u256 : ℕ → Text
  pub parse_u256 : Text → Option ℕ
  -- `keccak256("Transfer(address,address,uint256)")`
  pub transfer_topic : ℕ
  -- `value.to_string().parse::<f64>()`, `10f64.powi(n)`, `ceil() as u64`, `ceil() as u128`,
  -- `u128::MAX as f64` and `{:.2}`, which are the standard library's
  pub f64_of_u256 : ℕ → F
  pub powi_10 : ℕ → F
  pub ceil_u64 : F → ℕ
  pub ceil_u128 : F → ℕ
  pub u128_max : F
  pub format_2 : F → Text

pub record Log : Type 0 where
  pub address : ℕ
  pub topics : List ℕ
  pub bytes : List ℕ
  pub transaction_hash : Option ℕ
  pub log_index : Option ℕ
  pub block_number : Option ℕ
  pub removed : Option Bool

pub record Receipt : Type 0 where
  pub transaction_hash : ℕ
  pub block_number : Option ℕ
  pub block_hash : Option ℕ
  pub status : Option ℕ
  pub logs : List Log

pub record EthTransaction : Type 0 where
  pub hash : ℕ
  pub from : ℕ
  pub to : Option ℕ
  pub value : ℕ
  pub block_number : Option ℕ

-- A block with its transactions, or with their hashes.
pub record EthBlock (T : Type 0) : Type 0 where
  pub number : Option ℕ
  pub hash : Option ℕ
  pub transactions : List T

pub record InternalTx : Type 0 where
  pub hash : Text
  pub trace_id : Text
  pub from : ℕ
  pub to : ℕ
  pub value : ℕ
  pub is_error : Bool
  pub block_number : ℕ

pub record Erc20TokenConfig : Type 0 where
  pub symbol : Text
  pub contract : ℕ
  pub decimals : ℕ

-- A transaction that the detector signs: an amount in wei, or of a token.
pub record Transfer : Type 0 where
  pub from : ℕ
  pub to : ℕ
  pub token : Option ℕ
  pub amount : ℕ
  pub gas : ℕ
  pub gas_price : ℕ

-- An amount that exceeds a `U256` panics in the source; here it is an error.
abbrev pub overflow : DetectorError
overflow = api_error (text "arithmetic operation overflow")

unfoldable pub checked : ℕ → Result ℕ
checked n = if ltb n (2 ^ 256) then ok n else err overflow

-- `U256::from_big_endian`
big_endian : ℕ → List ℕ → ℕ
big_endian acc [] = acc
big_endian acc (b ∷ bs) = big_endian (acc * 256 + b) bs

unfoldable pub from_big_endian : List ℕ → ℕ
unfolding big_endian
from_big_endian bytes = big_endian 0 bytes

-- A topic has 32 bytes, an address the last 20 of them.
unfoldable pub address_from_topic : ℕ → ℕ
address_from_topic topic = topic - topic / 2 ^ 160 * 2 ^ 160
