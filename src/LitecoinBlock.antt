-- ===== src/LitecoinBlock.antt =====
-- litecoin_block.rs: blocks whose transactions may carry the MWEB flag. A reader is the list of the
-- bytes that are left; the `bitcoin` crate's decoders of single fields are parameters.
pub mod RoundTrip
use Prim.Native.Nat.{bit_and}
use crypto_payment_detector.Base.{
  ℕ, zero, suc, ◌≡◌, Bool, true, false, not, ◌&&◌, ◌||◌, List, [], ◌∷◌, if◌then◌else◌, all, ◌==◌,
}
use crypto_payment_detector.Base.Text.{text}
use crypto_payment_detector.Error.Defs.{DetectorError, api_error, Result, ok, err}
use crypto_payment_detector.Error.Exec.{Exec, pure, raise, ◌>>=◌, ◌>>◌}

abbrev pub Reader : Type 0 → Type 0
Reader A = Exec (List ℕ) A

abbrev pub flag_witness : ℕ
flag_witness = 1

abbrev pub flag_mweb : ℕ
flag_mweb = 8

pub record TxIn (I W : Type 0) : Type 0 where
  pub outpoint : I
  pub witness : W

-- `F` stands for the fields that are read and kept as they are: version and lock time.
pub record Transaction (F I W O : Type 0) : Type 0 where
  pub version : F
  pub lock_time : F
  pub input : List (TxIn I W)
  pub output : List O

pub record Block (H F I W O : Type 0) : Type 0 where
  pub header : H
  pub txdata : List (Transaction F I W O)

-- `consensus_decode_from_finite_reader` of each type, with the message for an error of each.
pub record Decoders (H F I W O : Type 0) : Type 0 where
  pub header : Reader H
  pub var_int : Reader ℕ
  pub version : Reader F
  pub vin : Reader (List (TxIn I W))
  pub vout : Reader (List O)
  pub lock_time : Reader F
  pub flags : Reader ℕ
  pub witness : Reader W
  pub mweb : Reader ℕ
  pub is_empty_witness : W → Bool
  -- the message of a transaction's error, by its index and the count
  pub in_transaction : ℕ → ℕ → DetectorError → DetectorError

module _ {H F I W O : Type 0} (d : Decoders H F I W O) where
  unfoldable pub skip_mweb_payload : Reader (Unit {0})
  skip_mweb_payload = do
    present ← d.mweb
    if present == 0
        then pure tt
        else raise (api_error (text "inline MWEB payload is not supported"))

  -- `for txin in input.iter_mut()`
  unfoldable pub read_witnesses : List (TxIn I W) → Reader (List (TxIn I W))
  read_witnesses [] = pure []
  read_witnesses (i ∷ is) = do
    w ← d.witness
    rest ← read_witnesses is
    pure (record i { witness = w } ∷ rest)

  unfoldable pub has_witness : List (TxIn I W) → Bool
  has_witness [] = true
  has_witness (i ∷ is) = not (all (λ t. d.is_empty_witness t.witness) (i ∷ is))

  unfoldable pub witnessed : List (TxIn I W) → Reader (List (TxIn I W))
  unfolding read_witnesses has_witness
  witnessed input = do
    input' ← read_witnesses input
    if has_witness input'
        then pure input'
        else raise (api_error (text "witness flag set but no witnesses present"))

  -- A flag byte other than 1, 8 and 9.
  unfoldable pub is_unsupported : ℕ → Bool
  is_unsupported flags = not (bit_and flags 246 == 0) || flags == 0

  unfoldable pub decode_flagged : F → ℕ → Reader (Transaction F I W O)
  unfolding witnessed skip_mweb_payload
  decode_flagged version flags = do
    input ← d.vin
    output ← d.vout
    input' ← if bit_and flags flag_witness == 0 then pure input else witnessed input
    if bit_and flags flag_mweb == 0 then pure tt else skip_mweb_payload
    lock_time ← d.lock_time
    pure (record { version = version; lock_time = lock_time; input = input'; output = output })

  -- After the version: a transaction with inputs has no marker; no inputs is the marker byte.
  unfoldable pub decode_inputs : F → List (TxIn I W) → Reader (Transaction F I W O)
  unfolding is_unsupported decode_flagged
  decode_inputs version (i ∷ is) = do
    output ← d.vout
    lock_time ← d.lock_time
    pure (record { version = version; lock_time = lock_time; input = i ∷ is; output = output })
  decode_inputs version [] = do
    flags ← d.flags
    if is_unsupported flags
        then raise (api_error (text "unsupported transaction flag byte"))
        else decode_flagged version flags

  unfoldable pub decode_transaction : Reader (Transaction F I W O)
  unfolding decode_inputs
  decode_transaction = do version ← d.version; input ← d.vin; decode_inputs version input

  blame : {A : Type 0} → ℕ → ℕ → Result A × List ℕ → Result A × List ℕ
  blame index count (ok a, s) = (ok a, s)
  blame index count (err e, s) = (err (d.in_transaction index count e), s)

  -- The transactions that are left, from the index on.
  unfoldable pub decode_transactions : ℕ → ℕ → ℕ → Reader (List (Transaction F I W O))
  unfolding blame
  decode_transactions count index zero = pure []
  decode_transactions count index (suc left) = do
    tx ← λ s. blame index count (decode_transaction s)
    rest ← decode_transactions count (suc index) left
    pure (tx ∷ rest)

  read_block : Reader (Block H F I W O)
  unfolding decode_transactions
  read_block = do
    header ← d.header
    count ← d.var_int
    txdata ← decode_transactions count 0 count
    pure (record { header = header; txdata = txdata })

  -- What is left of the bytes is ignored.
  unfoldable pub deserialize_litecoin_block : List ℕ → Result (Block H F I W O)
  unfolding read_block
  deserialize_litecoin_block bytes = (read_block bytes).0
