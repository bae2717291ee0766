-- ===== src/Evm/Complete.antt =====
-- The scan loop of ethereum.rs leaves no payment behind its cursor.
use crypto_payment_detector.Base.{
  ℕ, zero, suc, ◌+◌, ◌≤◌, ◌<◌, ◌≡◌, ap, ◌∙◌, true, false, arith, inl, inr, Bool-cases, ltb, ltb→le,
  leb, u64_max, saturating_add,
}
use crypto_payment_detector.Base.Text.{Text}
use crypto_payment_detector.Error.Defs.{Result}
use crypto_payment_detector.Error.Exec.{
  pure, Follows, Follows-bind, Follows-if, after, after_lem, OnOk-at, ◌>>=◌,
}
use crypto_payment_detector.Evm.Chain.{Ethers}
use crypto_payment_detector.Evm.Cursors.{move_cursor}
use crypto_payment_detector.Evm.State.{EthereumDetector, EthereumState, ScanKind, World, Machine}
use crypto_payment_detector.Evm.Events.{is_known_event, set_scan_cursor}
use crypto_payment_detector.Evm.Scan.{Reservations}
use crypto_payment_detector.Evm.Tokens.{emit_all}
use crypto_payment_detector.Evm.Loop.{round_end, detect, scan_rounds}
use crypto_payment_detector.Evm.Known.{Keeps, Keeps-refl, Keeps-trans, Scans}
use crypto_payment_detector.Evm.Still.{detect-Scans, emit_all-Scans}
use crypto_payment_detector.Evm.View.{Finds}
use crypto_payment_detector.Evm.Reached.{
  reached, IsBehind, reached-still, reached-move_cursor, known-move_cursor, set_scan_cursor-shared,
  emit_all-Knows,
}

module _ {F : Type 0} (eth : Ethers F) (w : World F) (d : EthereumDetector F) (kind : ScanKind)
    (rs : Reservations) where
  abbrev Grows : Machine F → Machine F → Type 0
  Grows m m' = (k : Text) → is_known_event m.shared k ≡ true → is_known_event m'.shared k ≡ true

  Grows-trans : (a b c : Machine F) → Grows a b → Grows b c → Grows a c
  Grows-trans a b c h i k e = i k (h k e)

  set-Grows : (to : ℕ) → Follows Grows (set_scan_cursor eth w kind to)
  set-Grows to = record {
    at = λ m k h.
        rw (set_scan_cursor-shared eth w kind to m, known-move_cursor kind to m.shared k) h;
  }

  loosen :
      {A : Type 0} (m : Machine F → Result A × Machine F)
      → Follows (Scans eth w kind) m
      → Follows Grows m
  loosen m h = record { at = λ s. (h.at s).known }

  scan_rounds-Grows :
      (end left from : ℕ) → Follows Grows (scan_rounds eth w d kind rs end left from)
  unfolding scan_rounds
  scan_rounds-Grows end zero from = record { at = λ m k h. h }
  scan_rounds-Grows end (suc left) from =
      let to = round_end eth w d kind end from in
      Follows-if (ltb end from) (pure tt) _ (record { at = λ m k h. h })
        (Follows-bind Grows-trans _ _ (loosen _ (detect-Scans eth w d kind kind rs from to)) λ ds.
          Follows-bind Grows-trans _ _ (loosen _ (emit_all-Scans eth w d kind ds)) λ u.
            Follows-bind Grows-trans _ _ (set-Grows to)
              λ v. scan_rounds-Grows end left (saturating_add to 1))

  -- If the source is past this block, then it knows this event.
  unfoldable pub Sound : ℕ → Text → {A : Type 0} → Result A × Machine F → Type 0
  Sound b k x = reached kind x.1.shared b ≡ true → is_known_event x.1.shared k ≡ true

  unreached :
      {A : Type 0} (b : ℕ) (k : Text) (s : EthereumState) (x : Result A × Machine F)
      → reached kind s b ≡ false
      → Keeps kind s x.1.shared
      → Sound b k x
  unfolding Sound
  unreached b k s x h i j = absurd (ground (arith, reached-still kind s x.1.shared b i))

  pub round_end-bounds :
      (end from : ℕ)
      → from ≤ end
      → end < u64_max
      → (from ≤ round_end eth w d kind end from) × (round_end eth w d kind end from ≤ end)
  unfolding round_end saturating_add
  round_end-bounds end from h i = (omega arith, omega arith)

  pub next_block : (n : ℕ) → n < u64_max → saturating_add n 1 ≡ n + 1
  unfolding saturating_add
  next_block n h = omega arith

  IsBehind-move :
      (from to : ℕ) (s t : EthereumState)
      → IsBehind kind from s
      → from ≤ to
      → t ≡ move_cursor kind to s
      → IsBehind kind (to + 1) t
  IsBehind-move from to s t h i e b j =
      rw (e, reached-move_cursor kind to b s) (ground (arith, h b))

  -- The cursor's move, once the blocks up to it are done, and the rounds after it.
  move-Sound :
      (b from to : ℕ) (k : Text) (m : Machine F) (rest : Machine F → Result (Unit {0}) × Machine F)
      → IsBehind kind from m.shared
      → from ≤ b
      → (b ≤ to → is_known_event m.shared k ≡ true)
      → Follows Grows rest
      → ((t : Machine F) → t.shared ≡ move_cursor kind to m.shared → to < b → Sound b k (rest t))
      → Sound b k (after (set_scan_cursor eth w kind to m) (λ _. rest))
  unfolding Sound
  move-Sound b from to k m rest behind h now grows later =
      let x = set_scan_cursor eth w kind to m in
      let e = set_scan_cursor-shared eth w kind to m in
      let moved = ap (λ s. reached kind s b) e ∙ reached-move_cursor kind to b m.shared in
      let same = ap (λ s. is_known_event s k) e ∙ known-move_cursor kind to m.shared k in
      after_lem x (λ _. rest) (Sound b k)
        (λ u i. elim (Bool-cases (leb b to)) [
          | inl le ↦ λ r. grows.at x.1 k (same ∙ now (ground arith))
          | inr gt ↦ later x.1 e (ground arith)
        ])
        (λ y i r. let c = behind b h in same ∙ now (ground arith))

module _ {F : Type 0} (eth : Ethers F) (w : World F) (d : EthereumDetector F) (kind : ScanKind)
    (rs : Reservations) (end b : ℕ) (k : Text) (small : end < u64_max)
    (finds : (from to : ℕ) (m : Machine F)
      → from ≤ b
      → b ≤ to
      → Finds k (detect eth w d kind rs from to m)) where
  unfoldable pub Loop : Result (Unit {0}) × Machine F → Type 0
  Loop = Sound eth w d kind rs b k

  -- One round and those after it, if those are sound.
  round-Sound :
      (from to : ℕ) (m : Machine F) (rest : Machine F → Result (Unit {0}) × Machine F)
      → IsBehind kind from m.shared
      → from ≤ b
      → from ≤ to
      → to ≤ end
      → Follows (Grows eth w d kind rs) rest
      → ((t : Machine F) → IsBehind kind (to + 1) t.shared → to < b → Loop (rest t))
      → Loop (
          after
            (detect eth w d kind rs from to m)
            (λ ds. (emit_all eth w d ds >>= λ _. set_scan_cursor eth w kind to >>= λ _. rest)))
  unfolding Loop
  round-Sound from to m rest behind h lo hi grows later =
      let x = detect eth w d kind rs from to m in
      let kept = (detect-Scans eth w d kind kind rs from to).at m in
      after_lem x _ Loop
        (λ ds i.
          let y = emit_all eth w d ds x.1 in
          let kept' = Keeps-trans kind _ _ _ kept ((emit_all-Scans eth w d kind ds).at x.1) in
          after_lem y _ Loop
            (λ u j.
              move-Sound eth w d kind rs b from to k y.1 rest
                (λ c l. reached-still kind m.shared y.1.shared c kept' ∙ behind c l) h
                (λ l.
                  OnOk-at y _ u j
                    (emit_all-Knows eth w d k ds x.1 (OnOk-at x _ ds i (finds from to m h l))))
                grows
                (λ t e. later t (
                  IsBehind-move eth w d kind rs from to y.1.shared t.shared
                    (λ c l. reached-still kind m.shared y.1.shared c kept' ∙ behind c l) lo e)))
            (λ z j. unreached eth w d kind rs b k m.shared _ (behind b h) kept'))
        (λ z i. unreached eth w d kind rs b k m.shared _ (behind b h) kept)

  pub scan_rounds-Sound :
      (left from : ℕ) (m : Machine F)
      → IsBehind kind from m.shared
      → from ≤ b
      → Loop (scan_rounds eth w d kind rs end left from m)
  unfolding scan_rounds Loop
  scan_rounds-Sound zero from m behind h =
      unreached eth w d kind rs b k m.shared _ (behind b h) (Keeps-refl kind m.shared)
  scan_rounds-Sound (suc left) from m behind h = elim (Bool-cases (ltb end from)) [
    | inl e ↦
        rw e (unreached eth w d kind rs b k m.shared _ (behind b h) (Keeps-refl kind m.shared))
    | inr e ↦
        let to = round_end eth w d kind end from in
        let (lo, hi) = round_end-bounds eth w d kind rs end from (ltb→le end from e) small in
        let next = next_block eth w d kind rs to (omega arith) in
        rw e (
          round-Sound from to m _ behind h lo hi (scan_rounds-Grows eth w d kind rs end left _)
            (λ t behind' gt. rw next (scan_rounds-Sound left (to + 1) t behind' (omega arith))))
  ]
