-- ===== src/LitecoinBlock/RoundTrip.antt =====
-- litecoin_block.rs reads back what a node writes: legacy, witness and MWEB transactions.
use crypto_payment_detector.Base.{
  ℕ, suc, ◌<◌, IsU64, Bool, ◌≡◌, ◌≢◌, refl, sym, ap, true, List, [], ◌∷◌, map, All, length, arith,
}
use crypto_payment_detector.Error.Defs.{Result, ok}
use crypto_payment_detector.LitecoinBlock.{
  TxIn, Transaction, Block, Decoders, skip_mweb_payload, read_witnesses, has_witness, witnessed,
  is_unsupported, decode_flagged, decode_inputs, decode_transaction, blame, decode_transactions,
  read_block, deserialize_litecoin_block,
}

-- How a transaction is written: without a flag byte, or with one.
pub data Form : Type 0 where
  legacy segwit mweb segwit_mweb : Form

abbrev flag : Form → ℕ
flag legacy = 0
flag segwit = 1
flag mweb = 8
flag segwit_mweb = 9

-- What a node writes for each field, in front of the rest, and which lists and witnesses it may write.
pub record Encoders (H F I W O : Type 0) : Type 0 where
  pub header : H → List ℕ → List ℕ
  pub var_int : ℕ → List ℕ → List ℕ
  pub version : F → List ℕ → List ℕ
  pub vin : List (TxIn I W) → List ℕ → List ℕ
  pub vout : List O → List ℕ → List ℕ
  pub lock_time : F → List ℕ → List ℕ
  pub byte : ℕ → List ℕ → List ℕ
  pub witness : W → List ℕ → List ℕ
  pub no_witness : W
  pub fits_inputs : List (TxIn I W) → Bool
  pub fits_outputs : List O → Bool
  pub fits_witness : W → Bool

abbrev pub bare : {I W : Type 0} → W → TxIn I W → TxIn I W
bare w i = record i { witness = w }

-- The crate's decoders read what stands in front, if it is a `u8`, a `u64` or within the crate's limits;
-- inputs come without their witnesses.
pub record Reads {H F I W O : Type 0} (d : Decoders H F I W O) (e : Encoders H F I W O)
    : Type 0 where
  pub header : (h : H) (s : List ℕ) → d.header (e.header h s) ≡ (ok h, s)
  pub var_int : (n : ℕ) (s : List ℕ) → IsU64 n → d.var_int (e.var_int n s) ≡ (ok n, s)
  pub version : (v : F) (s : List ℕ) → d.version (e.version v s) ≡ (ok v, s)
  pub vin :
      (is : List (TxIn I W)) (s : List ℕ)
      → e.fits_inputs is ≡ true
      → d.vin (e.vin is s) ≡ (ok (map (bare e.no_witness) is), s)
  pub no_inputs : e.fits_inputs [] ≡ true
  pub vout :
      (os : List O) (s : List ℕ) → e.fits_outputs os ≡ true → d.vout (e.vout os s) ≡ (ok os, s)
  pub lock_time : (v : F) (s : List ℕ) → d.lock_time (e.lock_time v s) ≡ (ok v, s)
  pub flags : (n : ℕ) (s : List ℕ) → n < 256 → d.flags (e.byte n s) ≡ (ok n, s)
  pub mweb : (n : ℕ) (s : List ℕ) → n < 256 → d.mweb (e.byte n s) ≡ (ok n, s)
  pub witness :
      (w : W) (s : List ℕ) → e.fits_witness w ≡ true → d.witness (e.witness w s) ≡ (ok w, s)

module _ {H F I W O : Type 0} (d : Decoders H F I W O) (e : Encoders H F I W O)
    (reads : Reads d e) where
  abbrev put_witnesses : List (TxIn I W) → List ℕ → List ℕ
  put_witnesses [] s = s
  put_witnesses (i ∷ is) s = e.witness i.witness (put_witnesses is s)

  -- BIP144 and LIP-0003: an empty vector of inputs as the marker, the flag, the inputs and outputs,
  -- the witnesses, a zero byte for the MWEB payload, the lock time.
  abbrev pub put_transaction : Form → Transaction F I W O → List ℕ → List ℕ
  put_transaction legacy t s =
      e.version t.version (e.vin t.input (e.vout t.output (e.lock_time t.lock_time s)))
  put_transaction segwit t s = e.version t.version (
      e.vin [] (
        e.byte 1
          (e.vin t.input (e.vout t.output (put_witnesses t.input (e.lock_time t.lock_time s))))))
  put_transaction mweb t s =
      e.version t.version (
        e.vin []
          (e.byte 8 (e.vin t.input (e.vout t.output (e.byte 0 (e.lock_time t.lock_time s))))))
  put_transaction segwit_mweb t s = e.version t.version (
      e.vin [] (
        e.byte 9 (
          e.vin t.input
            (e.vout t.output (put_witnesses t.input (e.byte 0 (e.lock_time t.lock_time s)))))))

  -- When a form fits: without a flag byte there are inputs, without the witness flag no witnesses,
  -- and with it at least one, unless there are no inputs.
  abbrev pub FitsForm : Form → Transaction F I W O → Type 0
  FitsForm legacy t = (t.input ≢ []) × (map (bare e.no_witness) t.input ≡ t.input)
  FitsForm segwit t = has_witness d t.input ≡ true
  FitsForm mweb t = map (bare e.no_witness) t.input ≡ t.input
  FitsForm segwit_mweb t = has_witness d t.input ≡ true

  -- A transaction within the crate's limits whose form fits.
  pub record Fits (f : Form) (t : Transaction F I W O) : Type 0 where
    pub form : FitsForm f t
    pub inputs : e.fits_inputs t.input ≡ true
    pub outputs : e.fits_outputs t.output ≡ true
    pub witnesses : All (λ i. e.fits_witness i.witness ≡ true) t.input

  read_witnesses-put_witnesses :
      (is : List (TxIn I W)) (s : List ℕ)
      → All (λ i. e.fits_witness i.witness ≡ true) is
      → read_witnesses d (map (bare e.no_witness) is) (put_witnesses is s) ≡ (ok is, s)
  unfolding read_witnesses
  read_witnesses-put_witnesses [] s a = refl
  read_witnesses-put_witnesses (i ∷ is) s (a, b) =
      rw (reads.witness i.witness (put_witnesses is s) a, read_witnesses-put_witnesses is s b) refl

  decode_legacy :
      (v l : F) (is js : List (TxIn I W)) (os : List O) (s : List ℕ)
      → is ≡ js
      → js ≢ []
      → e.fits_outputs os ≡ true
      → decode_inputs d v is (e.vout os (e.lock_time l s))
        ≡ (ok (record { version = v; lock_time = l; input = js; output = os }), s)
  unfolding decode_inputs
  decode_legacy v l [] js os s h n o = absurd (n (sym h))
  decode_legacy v l (i ∷ is) js os s h n o =
      rw (reads.vout os (e.lock_time l s) o, reads.lock_time l s, ← h) refl

  -- A transaction written in a form that fits it is read back, and nothing after it is read.
  pub decode_transaction-put_transaction :
      (f : Form) (t : Transaction F I W O) (s : List ℕ)
      → Fits f t
      → decode_transaction d (put_transaction f t s) ≡ (ok t, s)
  unfolding decode_transaction decode_inputs decode_flagged is_unsupported witnessed
      skip_mweb_payload
  decode_transaction-put_transaction legacy t s h =
      rw
        (
          reads.version t.version (e.vin t.input (e.vout t.output (e.lock_time t.lock_time s))),
          reads.vin t.input (e.vout t.output (e.lock_time t.lock_time s)) h.inputs,
        )
        (decode_legacy t.version t.lock_time _ t.input t.output s h.form.1 h.form.0 h.outputs)
  decode_transaction-put_transaction segwit t s h =
      rw
        (
          reads.version t.version _,
          reads.vin [] _ reads.no_inputs,
          reads.flags 1 _ (omega arith),
          reads.vin t.input _ h.inputs,
          reads.vout t.output _ h.outputs,
          read_witnesses-put_witnesses t.input (e.lock_time t.lock_time s) h.witnesses,
          h.form,
          reads.lock_time t.lock_time s,
        )
        refl
  decode_transaction-put_transaction mweb t s h =
      rw
        (
          reads.version t.version _,
          reads.vin [] _ reads.no_inputs,
          reads.flags 8 _ (omega arith),
          reads.vin t.input _ h.inputs,
          reads.vout t.output _ h.outputs,
          reads.mweb 0 _ (omega arith),
          h.form,
          reads.lock_time t.lock_time s,
        )
        refl
  decode_transaction-put_transaction segwit_mweb t s h =
      rw
        (
          reads.version t.version _,
          reads.vin [] _ reads.no_inputs,
          reads.flags 9 _ (omega arith),
          reads.vin t.input _ h.inputs,
          reads.vout t.output _ h.outputs,
          read_witnesses-put_witnesses t.input (e.byte 0 (e.lock_time t.lock_time s)) h.witnesses,
          h.form,
          reads.mweb 0 _ (omega arith),
          reads.lock_time t.lock_time s,
        )
        refl

  abbrev pub put_transactions : List (Form × Transaction F I W O) → List ℕ → List ℕ
  put_transactions [] s = s
  put_transactions ((f, t) ∷ ts) s = put_transaction f t (put_transactions ts s)

  abbrev pub put_block : H → List (Form × Transaction F I W O) → List ℕ → List ℕ
  put_block h ts s = e.header h (e.var_int (length ts) (put_transactions ts s))

  decode_transactions-put_transactions :
      (count index : ℕ) (ts : List (Form × Transaction F I W O)) (s : List ℕ)
      → All (λ x. Fits x.0 x.1) ts
      → decode_transactions d count index (length ts) (put_transactions ts s)
        ≡ (ok (map (λ x. x.1) ts), s)
  unfolding decode_transactions blame
  decode_transactions-put_transactions count index [] s h = refl
  decode_transactions-put_transactions count index ((f, t) ∷ ts) s (h, hs) =
      rw
        (
          decode_transaction-put_transaction f t (put_transactions ts s) h,
          decode_transactions-put_transactions count (suc index) ts s hs,
        )
        refl

  read_block-put_block :
      (h : H) (ts : List (Form × Transaction F I W O)) (extension : List ℕ)
      → IsU64 (length ts)
      → All (λ x. Fits x.0 x.1) ts
      → read_block d (put_block h ts extension)
        ≡ (ok (record { header = h; txdata = map (λ x. x.1) ts }), extension)
  unfolding read_block
  read_block-put_block h ts extension small fits =
      rw
        (
          reads.header h (e.var_int (length ts) (put_transactions ts extension)),
          reads.var_int (length ts) (put_transactions ts extension) small,
          decode_transactions-put_transactions (length ts) 0 ts extension fits,
        )
        refl

  -- If the crate's decoders read back each field that a node writes (a `u8`, a `u64`, lists and
  -- witnesses within the limits), then a block of at most `u64::MAX` transactions within the limits,
  -- each written without a flag or with the witness flag, the MWEB flag or both, as it fits, is read
  -- back, whatever follows it: the extension block is ignored.
  pub deserialize_litecoin_block-put_block :
      (h : H) (ts : List (Form × Transaction F I W O)) (extension : List ℕ)
      → IsU64 (length ts)
      → All (λ x. Fits x.0 x.1) ts
      → deserialize_litecoin_block d (put_block h ts extension)
        ≡ ok (record { header = h; txdata = map (λ x. x.1) ts })
  unfolding deserialize_litecoin_block
  deserialize_litecoin_block-put_block h ts extension small fits =
      ap (λ (x : Result (Block H F I W O) × List ℕ). x.0)
        (read_block-put_block h ts extension small fits)
