-- ===== src/Utxo/Addresses.antt =====
-- The two ways in blockstream.rs from an address to its index: the table of the block scan and the
-- search of the recovery requests.
use crypto_payment_detector.Base.{
  ℕ, zero, suc, ◌+◌, ◌≤◌, ◌<◌, ◌≡◌, ◌≢◌, refl, false, Option, none, some, [], ◌∷◌, arith, inl, inr,
  ◌⊎◌, Bool-cases, Option-cases,
}
use native.Mathlib.Decide.{ℕ_discrete}
use crypto_payment_detector.Base.Text.{Text, same, same→≡, same_refl}
use crypto_payment_detector.Error.Defs.{DetectorError, Result, ok, err, Result-cases}
use crypto_payment_detector.Utxo.State.{World}
use crypto_payment_detector.Utxo.Block.{
  Lookup, find_index, add_address, lookup_from, build_address_lookup, next_index, reverse_from,
  reverse_derive_address,
}

module _ {F : Type 0} (w : World F) where
  -- The table has the addresses of the indices below `k`, and no other.
  record Covers (k : ℕ) (m : Lookup) : Type 0 where
    pub sound : (a : Text) (j : ℕ) → find_index a m ≡ some j → (j < k) × (w.derive_address j ≡ ok a)
    pub derived :
        (j : ℕ) → j < k → (a : Text) × (w.derive_address j ≡ ok a) × (find_index a m ≢ none)

  Covers-none : Covers 0 []
  unfolding find_index
  Covers-none = record {
    sound = λ a j h. absurd (ground arith);
    derived = λ j h. absurd (omega arith);
  }

  found-cons :
      (a b : Text) (i j : ℕ) (m : Lookup)
      → find_index a ((b, i) ∷ m) ≡ some j
      → ((a ≡ b) × (i ≡ j)) ⊎ (find_index a m ≡ some j)
  unfolding find_index
  found-cons a b i j m h = elim (Bool-cases (same a b)) [
    | inl e ↦ inl (same→≡ a b e, ground arith)
    | inr e ↦ inr (rw e at h)
  ]

  kept-cons :
      (a b : Text) (i : ℕ) (m : Lookup) → find_index a m ≢ none → find_index a ((b, i) ∷ m) ≢ none
  unfolding find_index
  kept-cons a b i m h e = elim (Bool-cases (same a b)) [
    | inl t ↦ ground arith
    | inr t ↦ h (rw t at e)
  ]

  here : (a : Text) (i : ℕ) (m : Lookup) → find_index a ((a, i) ∷ m) ≢ none
  unfolding find_index
  here a i m e = ground (arith, same_refl a)

  Covers-cons :
      (i : ℕ) (m : Lookup) (b : Text)
      → w.derive_address i ≡ ok b
      → Covers i m
      → Covers (i + 1) ((b, i) ∷ m)
  Covers-cons i m b e c = record {
    sound = λ a j h. elim (found-cons a b i j m h) [
      | inl (s, t) ↦ (omega arith, rw (s, ← t) e)
      | inr old ↦ let (lt, d) = c.sound a j old in (omega arith, d)
    ];
    derived = λ j h. elim (ℕ_discrete j i) [
      | yes t ↦ (b, rw t e, here b i m)
      | no t ↦ let (a, d, f) = c.derived j (omega arith) in (a, d, kept-cons a b i m f)
    ];
  }

  lookup_from-err : (i n : ℕ) (e : DetectorError) (m : Lookup) → lookup_from w i n (err e) ≢ ok m
  unfolding lookup_from
  lookup_from-err i zero e m h = ground arith
  lookup_from-err i (suc n) e m h = ground arith

  lookup_from-Covers :
      (k i n : ℕ) (m m' : Lookup)
      → i + n ≡ k
      → Covers i m
      → lookup_from w i n (ok m) ≡ ok m'
      → Covers k m'
  unfolding lookup_from add_address
  lookup_from-Covers k i zero m m' s c h =
      let e : m ≡ m' = ground arith in let t : k ≡ i = omega arith in rw (← e, t) c
  lookup_from-Covers k i (suc n) m m' s c h = elim (Result-cases (w.derive_address i)) [
    | inl (b, e) ↦
        lookup_from-Covers k (i + 1) n ((b, i) ∷ m) m' (omega arith) (Covers-cons i m b e c)
          (rw e at h)
    | inr (y, e) ↦ absurd (lookup_from-err (i + 1) n y m' (rw e at h))
  ]

  module _
      (distinct : (i j : ℕ) (a : Text)
        → w.derive_address i ≡ ok a
        → w.derive_address j ≡ ok a
        → i ≡ j) where
    here_or_later :
        (address b : Text) (i k : ℕ) (m : Lookup) (rest : Result (Option ℕ))
        → Covers k m
        → i < k
        → w.derive_address i ≡ ok b
        → (same b address ≡ false → rest ≡ ok (find_index address m))
        → next_index w address i rest (ok b) ≡ ok (find_index address m)
    unfolding next_index
    here_or_later address b i k m rest c lt e go = elim (Bool-cases (same b address)) [
      | inr t ↦ rw t (go t)
      | inl t ↦
          let at : b ≡ address = same→≡ b address t in
          let (a, d, f) = c.derived i lt in
          rw t (elim (Option-cases (find_index address m)) [
            | inl n ↦ absurd (f (let s : a ≡ address = ground arith in rw s n))
            | inr (j, n) ↦
                let (bound, g) = c.sound address j n in
                let q : i ≡ j = distinct i j address (rw (← at) e) g in rw (n, q) refl
          ])
    ]

    reverse_from-Covers :
        (address : Text) (k i n : ℕ) (m : Lookup)
        → Covers k m
        → i + n ≡ k
        → ((j : ℕ) → find_index address m ≡ some j → i ≤ j)
        → reverse_from w address i n ≡ ok (find_index address m)
    unfolding reverse_from
    reverse_from-Covers address k i zero m c e later = elim (Option-cases (find_index address m)) [
      | inl n ↦ rw n refl
      | inr (j, n) ↦ let (lt, d) = c.sound address j n in absurd (let g = later j n in omega arith)
    ]
    reverse_from-Covers address k i (suc n) m c e later =
        let (b, d, f) = c.derived i (omega arith) in
        let rest = reverse_from w address (i + 1) n in
        rw d (
          here_or_later address b i k m rest c (omega arith) d (λ t.
            reverse_from-Covers address k (i + 1) n m c (omega arith) (λ j h.
              elim (ℕ_discrete j i) [
                | no u ↦ let g = later j h in omega arith
                | yes u ↦
                    let (lt, g) = c.sound address j h in
                    let at : b ≡ address = ground arith in absurd (ground (arith, same_refl b))
              ])))

    -- If the derivation gives different indices different addresses and the table of the block scan
    -- can be built, then the search of the recovery requests over the same indices succeeds and
    -- finds for every address the index that the table has, or none if the table has none.
    pub reverse_derive_address-build_address_lookup :
        (max_index : ℕ) (m : Lookup) (address : Text)
        → build_address_lookup w max_index ≡ ok m
        → reverse_derive_address w address max_index ≡ ok (find_index address m)
    unfolding build_address_lookup reverse_derive_address
    reverse_derive_address-build_address_lookup max_index m address h =
        reverse_from-Covers address (suc max_index) 0 (suc max_index) m
          (lookup_from-Covers (suc max_index) 0 (suc max_index) [] m (omega arith) Covers-none h)
          (omega arith) (λ j e. omega arith)
