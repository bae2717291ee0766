-- ===== src/Utxo/Reorg.antt =====
-- Reorganisations in blockstream.rs: how deep `detect_reorg` goes, and what the rollback leaves.
use crypto_payment_detector.Base.{
  ℕ, zero, suc, ◌+◌, ◌-◌, ◌≤◌, ◌<◌, ◌≡◌, refl, ◌∙◌, Bool, true, false, ◌&&◌, Option, none, some,
  List, [], ◌∷◌, arith, if◌then◌else◌, ltb, leb, ltb→lt, ltb→le, sub_u64_lem, retain, IsU64,
  Bool-cases, inl, inr,
}
use crypto_payment_detector.Base.Text.{Text, text, same, is_char_boundary}
use crypto_payment_detector.Base.Maps.{lookup, remove, lookup-remove}
use crypto_payment_detector.Base.Float.{Float}
use crypto_payment_detector.Types.Payments.{PendingPayment}
use crypto_payment_detector.Error.Defs.{DetectorError, Result, ok, err}
use crypto_payment_detector.Error.Exec.{OnOk, OnOk-bind, OnOk-any, after_with, pure, ◌>>=◌}
use native.Mathlib.Decide.{ℕ_discrete}
use crypto_payment_detector.Utxo.State.{ExplorerApi, SharedState, Detector, World, Machine}
use crypto_payment_detector.Utxo.Outbox.{await_point}
use crypto_payment_detector.Utxo.Explorers.{try_explorers-OnOk}
use crypto_payment_detector.Utxo.Scan.{
  remove_range, roll_back, request, get_block_hash, log_prefix, compare_hashes, check_height,
  reorg_from, detect_reorg,
}

lookup-remove_range :
    (j from count : ℕ) (known : List (ℕ × Text))
    → lookup j (remove_range from count known)
      ≡ (if leb from j && ltb j (from + count) then none else lookup j known)
unfolding remove_range
lookup-remove_range j from zero known = ground arith
lookup-remove_range j from (suc count) known =
    ground (
      arith,
      lookup-remove_range j (from + 1) count (remove from known),
      lookup-remove j from known,
    )

module _ {F : Type 0} where
  -- The entries below a height, in their order: every other is at it or above.
  pub data Below (n : ℕ) : List (PendingPayment F) → List (PendingPayment F) → Type 0 where
    empty : Below n [] []
    stays :
        (p : PendingPayment F) (ps qs : List (PendingPayment F))
        → p.block_height < n
        → Below n ps qs
        → Below n (p ∷ ps) (p ∷ qs)
    leaves :
        (p : PendingPayment F) (ps qs : List (PendingPayment F))
        → n ≤ p.block_height
        → Below n ps qs
        → Below n (p ∷ ps) qs

  retain-Below :
      (n : ℕ) (ps : List (PendingPayment F)) → Below n ps (retain (λ p. ltb p.block_height n) ps)
  retain-Below n [] = empty
  retain-Below n (p ∷ ps) = elim (Bool-cases (ltb p.block_height n)) [
    | inl e ↦ rw e (stays p ps _ (ltb→lt p.block_height n e) (retain-Below n ps))
    | inr e ↦ rw e (leaves p ps _ (ltb→le p.block_height n e) (retain-Below n ps))
  ]

  -- For a height that is a `u64`, a rollback of at most that many blocks below it removes their
  -- hashes and no other. It keeps the entries of the outbox below the first of those blocks, all of
  -- them and in their order, and no other; it keeps every mark, and the cursor is just below that
  -- block, or at 0 if that is block 0.
  pub roll_back_lem :
      (current depth : ℕ) (s : SharedState F)
      → depth ≤ current
      → IsU64 current
      → let s' = roll_back current depth s in
        ((j : ℕ)
          → lookup j s'.known_block_hashes ≡ (
              if leb (current - depth) j && ltb j current
              then none
              else lookup j s.known_block_hashes))
        × Below (current - depth) s.pending s'.pending
        × (s'.notified_confirmed ≡ s.notified_confirmed)
        × (s'.last_scanned_height ≡ some (current - depth - 1))
  unfolding roll_back
  roll_back_lem current depth s h w =
      let e : current - depth + (current - (current - depth)) ≡ current = omega arith in
      rw (sub_u64_lem current depth h w) (
        (λ j.
            lookup-remove_range j (current - depth) (current - (current - depth))
              s.known_block_hashes
            ∙ rw e),
        retain-Below (current - depth) s.pending,
        refl,
        refl,
      )

module _ {F : Type 0} (fl : Float F) (w : World F) (d : Detector F) (chain : ℕ → Text) where
  -- The request for the hash of the block failed and left this state.
  pub record Unanswered (h : ℕ) (left : Machine F) : Type 0 where
    pub before : Machine F
    pub reason : DetectorError
    pub failed : get_block_hash fl w d h before ≡ (err reason, left)

  -- The stored hash of the block is not the chain's.
  pub record Forked (known : List (ℕ × Text)) (h : ℕ) : Type 0 where
    pub hash : Text
    pub stored : lookup h known ≡ some hash
    pub other : same hash (chain h) ≡ false

  -- Why the search goes no deeper than the block and ends in this state.
  pub data Stops (known : List (ℕ × Text)) (h : ℕ) (left : Machine F) : Type 0 where
    absent : lookup h known ≡ none → Stops known h left
    agrees : (t : Text) → lookup h known ≡ some t → same t (chain h) ≡ true → Stops known h left
    unanswered : Unanswered h left → Stops known h left

  abbrev Verdict : List (ℕ × Text) → ℕ → Machine F → Bool → Type 0
  Verdict known h left true = Forked known h
  Verdict known h left false = Stops known h left

  abbrev Checked : List (ℕ × Text) → ℕ → Result Bool × Machine F → Type 0
  Checked known h x = (b : Bool) × (x.0 ≡ ok b) × Verdict known h x.1 b

  -- The explorers show the hashes of one chain whenever they answer, and what is stored and shown
  -- can be cut after eight bytes.
  pub record Shown (known : List (ℕ × Text)) : Type 0 where
    pub honest :
        (n h : ℕ) (e : ExplorerApi) (t : Text) → w.block_hash_answer n e h ≡ ok t → t ≡ chain h
    pub shown : (h : ℕ) → is_char_boundary 8 (chain h) ≡ true
    pub stored : (h : ℕ) (t : Text) → lookup h known ≡ some t → is_char_boundary 8 t ≡ true

  module _ (known : List (ℕ × Text)) (s : Shown known) where
    answer_lem :
        (n h : ℕ) (e : ExplorerApi) (r : Result Text) (m : Machine F)
        → w.block_hash_answer n e h ≡ r
        → OnOk (λ t m'. t ≡ chain h) (r, m)
    unfolding OnOk
    answer_lem n h e (ok t) m q = s.honest n h e t q
    answer_lem n h e (err x) m q = tt

    get_block_hash-chain :
        (h : ℕ) (m : Machine F) → OnOk (λ t m'. t ≡ chain h) (get_block_hash fl w d h m)
    unfolding get_block_hash request
    get_block_hash-chain h m =
        try_explorers-OnOk d.explorer_apis (request fl w d (λ n e. w.block_hash_answer n e h))
          (λ t. t ≡ chain h) (text "get_block_hash") m
          (λ e m'.
            OnOk-bind (await_point w m') _ (λ u s. Unit) (λ t s. t ≡ chain h) (OnOk-any _)
              (λ u s i. answer_lem s.clock h e _ _ refl))

    compared :
        (h : ℕ) (t hash : Text) (m : Machine F) (agree : Bool)
        → lookup h known ≡ some t
        → hash ≡ chain h
        → same t hash ≡ agree
        → Checked known h (
            (if agree
                then pure false
                else (log_prefix fl w d t >>= λ _. log_prefix fl w d hash >>= λ _. pure true))
              m)
    unfolding log_prefix
    compared h t hash m true l q e = (false, refl, agrees t l (rw (← q) e))
    compared h t hash m false l q e =
        rw (s.stored h t l, q, s.shown h)
          (true, refl, record { hash = t; stored = l; other = rw (← q) e })

    compare_lem :
        (h : ℕ) (t : Text) (m : Machine F) (x : Result Text × Machine F)
        → get_block_hash fl w d h m ≡ x
        → lookup h known ≡ some t
        → OnOk (λ u m'. u ≡ chain h) x
        → Checked known h (compare_hashes fl w d t x.0 x.1)
    unfolding compare_hashes OnOk
    compare_lem h t m (ok hash, n) c l q = compared h t hash n (same t hash) l q refl
    compare_lem h t m (err e, n) c l q =
        (false, refl, unanswered (record { before = m; reason = e; failed = c }))

    check_height-Checked :
        (o : Option Text) (h : ℕ) (m : Machine F)
        → lookup h known ≡ o
        → Checked known h (check_height fl w d o h m)
    unfolding check_height
    check_height-Checked none h m l = (false, refl, absent l)
    check_height-Checked (some t) h m l =
        compare_lem h t m (get_block_hash fl w d h m) refl l (get_block_hash-chain h m)

    -- The search answers with the number of blocks from `h` down that are forked, and stops below.
    abbrev Depth : ℕ → Result ℕ × Machine F → Type 0
    Depth h x =
        (n : ℕ) × (x.0 ≡ ok n)
        × (n ≤ suc h)
        × ((j : ℕ) → j ≤ h → h < j + n → Forked known j)
        × (n ≤ h → Stops known (h - n) x.1)

    bottom :
        (b : Bool) (m : Machine F) → Verdict known 0 m b → Depth 0 (pure (if b then 1 else 0) m)
    bottom true m v = (
      1,
      refl,
      omega arith,
      (λ j lo hi. let e : j ≡ 0 = omega arith in rw e v),
      λ lt. absurd (omega arith),
    )
    bottom false m v = (0, refl, omega arith, (λ j lo hi. absurd (omega arith)), λ lt. v)

    deeper :
        (h : ℕ) (b : Bool) (m : Machine F)
        → Verdict known (suc h) m b
        → Depth h (reorg_from fl w d known h m)
        → Depth
            (suc h)
            ((if b then reorg_from fl w d known h >>= (λ depth. pure (suc depth)) else pure 0) m)
    deeper h true m v (n, e, bound, above, stop) =
        after_with (reorg_from fl w d known h m) _ (Depth (suc h)) n e (
          suc n,
          refl,
          omega arith,
          (λ j lo hi. elim (ℕ_discrete j (suc h)) [
            | yes top ↦ rw top v
            | no below ↦ above j (omega arith) (omega arith)
          ]),
          λ lt. let q : suc h - suc n ≡ h - n = omega arith in rw q (stop (omega arith)),
        )
    deeper h false m v r = (
      0,
      refl,
      omega arith,
      (λ j lo hi. absurd (omega arith)),
      λ lt. let q : suc h - 0 ≡ suc h = omega arith in rw q v,
    )

    reorg_from-Depth : (h : ℕ) (m : Machine F) → Depth h (reorg_from fl w d known h m)
    unfolding reorg_from
    reorg_from-Depth zero m =
        let (b, e, v) = check_height-Checked (lookup 0 known) 0 m refl in
        let x = check_height fl w d (lookup 0 known) 0 m in
        after_with x _ (Depth 0) b e (bottom b x.1 v)
    reorg_from-Depth (suc h) m =
        let (b, e, v) = check_height-Checked (lookup (suc h) known) (suc h) m refl in
        let x = check_height fl w d (lookup (suc h) known) (suc h) m in
        after_with x _ (Depth (suc h)) b e (deeper h b x.1 v (reorg_from-Depth h x.1))

  -- If the explorers show the hashes of one chain whenever they answer, and the stored and the shown
  -- hashes can be cut after eight bytes, then the search below a current height of at least 1 answers
  -- with the number of forked blocks: each of that many blocks below the current one has a stored
  -- hash that is not the chain's, and the next block below, if there is one, has no stored hash, or
  -- the chain's, or the search ended on a request for its hash that failed.
  pub detect_reorg_depth :
      (current : ℕ) (m : Machine F)
      → 0 < current
      → Shown m.shared.known_block_hashes
      → (n : ℕ) × ((detect_reorg fl w d current m).0 ≡ ok n)
        × (n ≤ current)
        × ((j : ℕ) → j < current → current ≤ j + n → Forked m.shared.known_block_hashes j)
        × (n < current
            → Stops m.shared.known_block_hashes (current - 1 - n) (detect_reorg fl w d current m).1)
  unfolding detect_reorg
  detect_reorg_depth current m h s =
      let known = m.shared.known_block_hashes in
      let (n, e, bound, above, stop) = reorg_from-Depth known s (current - 1) m in
      (
        n,
        e,
        omega arith,
        (λ j lo hi. above j (omega arith) (omega arith)),
        λ lt. stop (omega arith),
      )
