-- ===== src/Utxo/Explorers.antt =====
-- `try_explorers` of blockstream.rs: each explorer in turn, from the one in use on.
use crypto_payment_detector.Base.{
  ℕ, zero, suc, ◌+◌, ◌-◌, ◌%◌, ◌≤◌, ◌<◌, ◌≡◌, refl, sym, ◌∙◌, ap, Option, none, some, List, ◌++◌,
  arith, inl, inr, ◌⊎◌, get_elem?, length, Option-cases,
}
use crypto_payment_detector.Base.Text.{Text, text}
use crypto_payment_detector.Error.Defs.{DetectorError, Result, ok, err, api_error}
use crypto_payment_detector.Error.Exec.{OnOk}
use native.Mathlib.Decide.{ℕ_discrete, dec_lt}
use native.Mathlib.Nat.{mod-eq_of_lt}
use crypto_payment_detector.Utxo.State.{ExplorerApi, Machine, Action}

-- Every index is reached from any start.
turn : (start i n : ℕ) → start < n → i < n → (o : ℕ) × (o < n) × ((start + o) % n ≡ i)
turn start i n h k = elim (dec_lt i start) [
  | yes below ↦
      let wrap : start + (i + n - start) ≡ i + n = omega arith in
      (i + n - start, omega arith, rw wrap (grind arith))
  | no above ↦
      let plain : start + (i - start) ≡ i = omega arith in
      (i - start, omega arith, rw plain (mod-eq_of_lt k))
]

module _ {F A : Type 0} (apis : List ExplorerApi) (call : ExplorerApi → Action F A) where
  -- What an answer does: the index becomes the one in use, or the next explorer is asked.
  unfoldable pub keep_or_next :
      ℕ → (DetectorError → Action F A) → Result A × Machine F → Result A × Machine F
  keep_or_next index next (ok a, m) = (ok a, record m { active_explorer_index = index })
  keep_or_next index next (err e, m) = next e m

  -- Indexing out of bounds would panic; `try_from` only asks for indices below the length.
  unfoldable pub ask : Option ExplorerApi → Action F A
  ask none m = (err (api_error (text "index out of bounds")), m)
  ask (some e) m = call e m

  -- The rounds that are left, at `offset`, with the last error.
  unfoldable pub try_from : ℕ → ℕ → ℕ → DetectorError → Action F A
  unfolding keep_or_next ask
  try_from start zero offset last m = (err last, m)
  try_from start (suc left) offset last m =
      let index = (start + offset) % length apis in
      keep_or_next index (try_from start left (offset + 1)) (ask (get_elem? apis index) m)

  -- `name` is in the error for a detector without explorers.
  unfoldable pub try_explorers : Text → Action F A
  unfolding try_from
  try_explorers name m =
      try_from m.active_explorer_index (length apis) 0
        (api_error (text "No explorer API configured for " ++ name)) m

  keep_or_next-OnOk :
      (P : A → Type 0) (index : ℕ) (next : DetectorError → Action F A) (x : Result A × Machine F)
      → OnOk (λ a m. P a) x
      → ((e : DetectorError) (m : Machine F) → OnOk (λ a m'. P a) (next e m))
      → OnOk (λ a m. P a) (keep_or_next index next x)
  unfolding keep_or_next OnOk
  keep_or_next-OnOk P index next (ok a, m) h k = h
  keep_or_next-OnOk P index next (err e, m) h k = k e m

  ask-OnOk :
      (P : A → Type 0)
      → ((e : ExplorerApi) (m : Machine F) → OnOk (λ a m'. P a) (call e m))
      → (o : Option ExplorerApi) (m : Machine F) → OnOk (λ a m'. P a) (ask o m)
  unfolding ask OnOk
  ask-OnOk P h none m = tt
  ask-OnOk P h (some e) m = h e m

  try_from-OnOk :
      (P : A → Type 0)
      → ((e : ExplorerApi) (m : Machine F) → OnOk (λ a m'. P a) (call e m))
      → (start left offset : ℕ) (last : DetectorError) (m : Machine F)
      → OnOk (λ a m'. P a) (try_from start left offset last m)
  unfolding try_from OnOk
  try_from-OnOk P h start zero offset last m = tt
  try_from-OnOk P h start (suc left) offset last m =
      let index = (start + offset) % length apis in
      keep_or_next-OnOk P index _ (ask (get_elem? apis index) m)
        (ask-OnOk P h (get_elem? apis index) m)
        (λ e m'. try_from-OnOk P h start left (offset + 1) e m')

  -- What holds of every explorer's answers holds of the answer that is returned.
  pub try_explorers-OnOk :
      (P : A → Type 0) (name : Text) (m : Machine F)
      → ((e : ExplorerApi) (m' : Machine F) → OnOk (λ a n. P a) (call e m'))
      → OnOk (λ a m'. P a) (try_explorers name m)
  unfolding try_explorers
  try_explorers-OnOk P name m h = try_from-OnOk P h m.active_explorer_index (length apis) 0 _ m

  -- The value came from the explorer that is in use afterwards.
  pub record Answered (a : A) (m' : Machine F) : Type 0 where
    pub explorer : ExplorerApi
    pub listed : get_elem? apis m'.active_explorer_index ≡ some explorer
    pub before : Machine F
    pub after_call : Machine F
    pub called : call explorer before ≡ (ok a, after_call)
    pub kept : m' ≡ record after_call { active_explorer_index = m'.active_explorer_index }

  -- A call to this explorer failed.
  pub record Failed (e : ExplorerApi) : Type 0 where
    pub before : Machine F
    pub reason : DetectorError
    pub called : (call e before).0 ≡ err reason

  abbrev Outcome : ℕ → ℕ → ℕ → Result A × Machine F → Type 0
  Outcome start left offset x =
      ((a : A) × (x.0 ≡ ok a) × Answered a x.1)
      ⊎ ((o : ℕ)
          → offset ≤ o
          → o < offset + left
          → (e : ExplorerApi) → get_elem? apis ((start + o) % length apis) ≡ some e
          → Failed e)

  asked :
      (start left offset index : ℕ) (m : Machine F) (next : DetectorError → Action F A)
      (e : ExplorerApi) (x : Result A × Machine F)
      → index ≡ (start + offset) % length apis
      → get_elem? apis index ≡ some e
      → call e m ≡ x
      → ((r : DetectorError) (m' : Machine F) → Outcome start left (offset + 1) (next r m'))
      → Outcome start (suc left) offset (keep_or_next index next x)
  unfolding keep_or_next
  asked start left offset index m next e (ok a, m1) i g c ih = inl (
    a,
    refl,
    record { explorer = e; listed = g; before = m; after_call = m1; called = c; kept = refl },
  )
  asked start left offset index m next e (err r, m1) i g c ih = elim (ih r m1) [
    | inl found ↦ inl found
    | inr all_failed ↦ inr (λ o lo hi f h. elim (ℕ_discrete o offset) [
      | yes same_offset ↦
          let at : get_elem? apis ((start + o) % length apis) ≡ some e =
            ap (λ (t : ℕ). get_elem? apis ((start + t) % length apis)) same_offset
            ∙ ap (get_elem? apis) (sym i)
            ∙ g in
          let q : f ≡ e = cc in
          record {
            before = m;
            reason = r;
            called = rw q (ap (λ (p : Result A × Machine F). p.0) c);
          }
      | no other ↦ all_failed o (omega arith) (omega arith) f h
    ])
  ]

  skipped :
      (start left offset : ℕ) (x : Result A × Machine F)
      → get_elem? apis ((start + offset) % length apis) ≡ none
      → Outcome start left (offset + 1) x
      → Outcome start (suc left) offset x
  skipped start left offset x g (inl found) = inl found
  skipped start left offset x g (inr all_failed) = inr (λ o lo hi f h. elim (ℕ_discrete o offset) [
    | yes same_offset ↦ absurd (ground arith)
    | no other ↦ all_failed o (omega arith) (omega arith) f h
  ])

  try_from-Outcome :
      (start left offset : ℕ) (last : DetectorError) (m : Machine F)
      → Outcome start left offset (try_from start left offset last m)
  unfolding try_from
  try_from-Outcome start zero offset last m = inr (λ o lo hi e h. absurd (omega arith))
  try_from-Outcome start (suc left) offset last m =
      let index = (start + offset) % length apis in
      elim (Option-cases (get_elem? apis index)) [
        | inl g ↦
            rw (g, ask, keep_or_next)
              (skipped start left offset _ g (
                try_from-Outcome start left (offset + 1) (api_error (text "index out of bounds"))
                  m))
        | inr (e, g) ↦
            rw (g, ask)
              (asked start left offset index m _ e (call e m) refl g refl
                (λ r m'. try_from-Outcome start left (offset + 1) r m'))
      ]

  pub try_explorers_outcome :
      (name : Text) (m : Machine F)
      → m.active_explorer_index < length apis
      → ((a : A) × ((try_explorers name m).0 ≡ ok a) × Answered a (try_explorers name m).1)
        ⊎ ((i : ℕ) → i < length apis → (e : ExplorerApi) → get_elem? apis i ≡ some e → Failed e)
  unfolding try_explorers
  try_explorers_outcome name m h =
      let none_yet = api_error (text "No explorer API configured for " ++ name) in
      elim (try_from-Outcome m.active_explorer_index (length apis) 0 none_yet m) [
        | inl found ↦ inl found
        | inr all_failed ↦ inr (λ i hi e g.
            let (o, lt, eq) = turn m.active_explorer_index i (length apis) h hi in
            all_failed o (omega arith) (omega arith) e (rw eq g))
      ]

  -- If what each explorer answers does not change during the request and the explorer in use is in
  -- the list, then the request returns the answer of a working explorer, which is the one in use
  -- from then on; or no explorer of the list works.
  pub try_explorers_answers :
      (answer : ExplorerApi → Result A) (name : Text) (m : Machine F)
      → ((e : ExplorerApi) (m' : Machine F) → (call e m').0 ≡ answer e)
      → m.active_explorer_index < length apis
      → ((a : A) × (e : ExplorerApi) × ((try_explorers name m).0 ≡ ok a)
          × (get_elem? apis (try_explorers name m).1.active_explorer_index ≡ some e)
          × (answer e ≡ ok a))
        ⊎ ((i : ℕ) (e : ExplorerApi)
            → i < length apis
            → get_elem? apis i ≡ some e
            → (r : DetectorError) × (answer e ≡ err r))
  try_explorers_answers answer name m steady h = elim (try_explorers_outcome name m h) [
    | inl (a, r, v) ↦ inl (
      a,
      v.explorer,
      r,
      v.listed,
      sym (steady v.explorer v.before) ∙ ap (λ (x : Result A × Machine F). x.0) v.called,
    )
    | inr all_failed ↦
        inr (λ i e hi g.
          let f = all_failed i hi e g in (f.reason, sym (steady e f.before) ∙ f.called))
  ]
