-- ===== src/LitecoinWitnesses.antt =====
-- The theorem on Litecoin blocks with decoders of one number for each field.
use crypto_payment_detector.Base.{
  ℕ, ltb, ◌<◌, ◌^◌, true, if◌then◌else◌, zero, suc, ◌≡◌, refl, List, [], ◌∷◌, ◌++◌, map, ◌==◌,
  length, arith,
}
use crypto_payment_detector.Base.Text.{text}
use crypto_payment_detector.Error.Defs.{api_error, ok, err}
use crypto_payment_detector.Error.Exec.{pure, ◌>>=◌}
use crypto_payment_detector.LitecoinBlock.{
  Reader, TxIn, Transaction, Decoders, has_witness, deserialize_litecoin_block,
}
use crypto_payment_detector.LitecoinBlock.RoundTrip.{
  Form, legacy, segwit, mweb, segwit_mweb, Encoders, Reads, bare, FitsForm, Fits, put_block,
  deserialize_litecoin_block-put_block,
}

-- One number of a field that has `bound` values.
abbrev word : ℕ → Reader ℕ
word bound [] = (err (api_error (text "end")), [])
word bound (x ∷ s) =
    if ltb x bound then (ok x, s) else (err (api_error (text "out of range")), x ∷ s)

abbrev byte : Reader ℕ
byte = word 256

abbrev any_word : Reader ℕ
any_word [] = (err (api_error (text "end")), [])
any_word (x ∷ s) = (ok x, s)

word_lem : (bound n : ℕ) (s : List ℕ) → n < bound → word bound (n ∷ s) ≡ (ok n, s)
word_lem bound n s h = let e : ltb n bound ≡ true = ground arith in rw e refl

abbrev bytes : ℕ → Reader (List ℕ)
bytes zero = pure []
bytes (suc n) = any_word >>= λ x. bytes n >>= λ xs. pure (x ∷ xs)

abbrev sized : Reader (List ℕ)
sized = any_word >>= bytes

abbrev put_sized : List ℕ → List ℕ → List ℕ
put_sized xs s = length xs ∷ (xs ++ s)

abbrev input_of : ℕ → TxIn ℕ ℕ
input_of x = record { outpoint = x; witness = 0 }

abbrev decoders : Decoders ℕ ℕ ℕ ℕ ℕ
decoders = record {
  header = any_word;
  var_int = word (2 ^ 64);
  version = any_word;
  vin = sized >>= λ xs. pure (map input_of xs);
  vout = sized;
  lock_time = any_word;
  flags = byte;
  witness = byte;
  mweb = byte;
  is_empty_witness = λ w. w == 0;
  in_transaction = λ index count e. e;
}

abbrev encoders : Encoders ℕ ℕ ℕ ℕ ℕ
encoders = record {
  header = λ h s. h ∷ s;
  var_int = λ n s. n ∷ s;
  version = λ v s. v ∷ s;
  vin = λ is s. put_sized (map (λ i. i.outpoint) is) s;
  vout = put_sized;
  lock_time = λ v s. v ∷ s;
  byte = λ n s. n ∷ s;
  witness = λ w s. w ∷ s;
  no_witness = 0;
  fits_inputs = λ is. true;
  fits_outputs = λ os. true;
  fits_witness = λ w. ltb w 256;
}

bytes-append : (xs s : List ℕ) → bytes (length xs) (xs ++ s) ≡ (ok xs, s)
bytes-append [] s = refl
bytes-append (x ∷ xs) s = rw (bytes-append xs s) refl

map-input_of : (is : List (TxIn ℕ ℕ)) → map input_of (map (λ i. i.outpoint) is) ≡ map (bare 0) is
map-input_of [] = refl
map-input_of (i ∷ is) = rw (map-input_of is) refl

decoders-Reads : Reads decoders encoders
decoders-Reads = record {
  header = λ h s. refl;
  var_int = λ n s h. word_lem (2 ^ 64) n s (omega (arith, h));
  version = λ v s. refl;
  vin = λ is s h. rw (bytes-append (map (λ i. i.outpoint) is) s, map-input_of is) refl;
  no_inputs = refl;
  vout = λ os s h. bytes-append os s;
  lock_time = λ v s. refl;
  flags = λ n s h. word_lem 256 n s h;
  mweb = λ n s h. word_lem 256 n s h;
  witness = λ w s h. rw h refl;
}

abbrev spend : ℕ → Transaction ℕ ℕ ℕ ℕ
spend w = record {
  version = 2;
  lock_time = 0;
  input = record { outpoint = 7; witness = w } ∷ [];
  output = 5 ∷ 6 ∷ [];
}

abbrev written : List (Form × Transaction ℕ ℕ ℕ ℕ)
written = (legacy, spend 0) ∷ (segwit, spend 3) ∷ (segwit_mweb, spend 4) ∷ (mweb, spend 0) ∷ []

fits :
    (f : Form) (w : ℕ)
    → FitsForm decoders encoders decoders-Reads f (spend w)
    → ltb w 256 ≡ true
    → Fits decoders encoders decoders-Reads f (spend w)
fits f w h k = record { form = h; inputs = refl; outputs = refl; witnesses = (k, tt) }

deserialize_litecoin_block-put_block_example :
    deserialize_litecoin_block decoders
      (put_block decoders encoders decoders-Reads 9 written (1 ∷ 2 ∷ []))
    ≡ ok (record { header = 9; txdata = map (λ x. x.1) written })
unfolding has_witness
deserialize_litecoin_block-put_block_example =
    deserialize_litecoin_block-put_block decoders encoders decoders-Reads 9 written (1 ∷ 2 ∷ [])
      (omega arith)
      (
        fits legacy 0 ((λ e. ground arith), refl) refl,
        (fits segwit 3 refl refl, (fits segwit_mweb 4 refl refl, (fits mweb 0 refl refl, tt))),
      )
