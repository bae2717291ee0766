-- ===== src/Evm/Sources.antt =====
-- A whole scan of ethereum.rs, over its three sources.
use crypto_payment_detector.Base.{
  ℕ, zero, suc, ◌+◌, ◌-◌, ◌≤◌, ◌<◌, ◌≡◌, refl, ◌∙◌, sym, Bool, true, false, Option, none, some,
  List, [], ◌∷◌, arith, inl, inr, Bool-cases, ltb, u64_max, saturating_add, any, ◌==◌, Option-cases,
}
use crypto_payment_detector.Base.Text.{Text}
use crypto_payment_detector.Error.Defs.{DetectorError, Result, ok, err}
use crypto_payment_detector.Error.Exec.{pure, attempt, Follows, Follows-if, after, after_lem}
use crypto_payment_detector.Evm.Chain.{Ethers, EthTransaction}
use crypto_payment_detector.Evm.Cursors.{get, set, cursor, move_cursor, no_cursors}
use crypto_payment_detector.Evm.State.{
  EthereumDetector, EthereumState, EthereumScanCursors, ScanKind, native, erc20, internal, World,
  Machine, Action,
}
use crypto_payment_detector.Evm.Events.{is_known_event, set_scan_cursor}
use crypto_payment_detector.Evm.Scan.{Reservations, native_candidate, scan_native_eth}
use crypto_payment_detector.Evm.Loop.{
  round_end, detect, scan_rounds, scan_range, scan_source, first_block, last_block, is_idle,
  skip_source, try_source, scan_kind, report, scan_sources, first_of,
}
use crypto_payment_detector.Evm.Known.{Scans, idle-Scans, bind-Scans}
use crypto_payment_detector.Evm.Still.{detect-Scans, emit_all-Scans}
use crypto_payment_detector.Evm.View.{
  View, IsHonest, Finds, expected_native, pays_native, pays_candidate,
}
use crypto_payment_detector.Evm.Native.{scan_native_blocks-Finds}
use crypto_payment_detector.Evm.Reached.{
  covers, reached, reached-still, known-move_cursor, set_scan_cursor-shared,
}
use crypto_payment_detector.Evm.Complete.{Sound, Loop, scan_rounds-Sound}

-- Neither of the other two sources moves the native cursor.
abbrev not_native : ScanKind → Bool
not_native native = false
not_native erc20 = true
not_native internal = true

get-set_other :
    (kind : ScanKind) (c : EthereumScanCursors) (b : ℕ)
    → not_native kind ≡ true
    → get (set c kind b) native ≡ get c native
unfolding get set
get-set_other native c b h = absurd (ground arith)
get-set_other erc20 c b h = refl
get-set_other internal c b h = refl

cursor-move_other :
    (kind : ScanKind) (b : ℕ) (s : EthereumState)
    → not_native kind ≡ true
    → cursor (move_cursor kind b s) native ≡ cursor s native
unfolding cursor move_cursor get
cursor-move_other kind b s h = elim (Option-cases s.scan_cursors) [
  | inl e ↦ rw e (get-set_other kind no_cursors b h)
  | inr (c, e) ↦ rw e (get-set_other kind c b h)
]

module _ {F : Type 0} (eth : Ethers F) (w : World F) (d : EthereumDetector F)
    (rs : Reservations) where
  abbrev Still : {A : Type 0} → Action F A → Type 0
  Still a = Follows (Scans eth w native) a

  move_other-Still :
      (kind : ScanKind) (to : ℕ) → not_native kind ≡ true → Still (set_scan_cursor eth w kind to)
  move_other-Still kind to h = record {
    at = λ m. rw (set_scan_cursor-shared eth w kind to m) (record {
      known = λ k i. rw (known-move_cursor kind to m.shared k) i;
      still = cursor-move_other kind to m.shared h;
    });
  }

  rounds_other-Still :
      (kind : ScanKind) (end left from : ℕ)
      → not_native kind ≡ true
      → Still (scan_rounds eth w d kind rs end left from)
  unfolding scan_rounds
  rounds_other-Still kind end zero from h = idle-Scans eth w native (ok tt)
  rounds_other-Still kind end (suc left) from h =
      let to = round_end eth w d kind end from in
      Follows-if (ltb end from) (pure tt) _ (idle-Scans eth w native (ok tt)) (
        bind-Scans eth w native _ _ (detect-Scans eth w d native kind rs from to) λ ds.
          bind-Scans eth w native _ _ (emit_all-Scans eth w d native ds) λ u.
            bind-Scans eth w native _ _ (move_other-Still kind to h)
              λ v. rounds_other-Still kind end left (saturating_add to 1) h)

  source_other-Still :
      (kind : ScanKind) (safe : ℕ) (e : Option DetectorError)
      → not_native kind ≡ true
      → Still (scan_kind eth w d kind rs safe e)
  unfolding scan_kind skip_source try_source scan_source scan_range
  source_other-Still kind safe e h =
      Follows-if (is_idle eth w d kind rs) _ _
        (bind-Scans eth w native _ _ (move_other-Still kind safe h)
          (λ u. idle-Scans eth w native (ok e)))
        (bind-Scans eth w native (attempt (scan_source eth w d kind rs safe)) _
          (record {
            at = λ m.
                (rounds_other-Still kind _ _ (first_block eth w d (cursor m.shared kind) safe) h).at
                  m;
          })
          (λ answer. idle-Scans eth w native (ok (first_of eth w d e answer))))

  report-Still : (e : Option DetectorError) → Still (report eth w d e)
  unfolding report
  report-Still none = idle-Scans eth w native (ok tt)
  report-Still (some e) = idle-Scans eth w native (err e)

-- The cursor is a `u64` before the last.
abbrev pub IsBounded : Option ℕ → Type 0
IsBounded none = Unit
IsBounded (some c) = c < u64_max

module _ {F : Type 0} (eth : Ethers F) (w : World F) (d : EthereumDetector F) (v : View)
    (honest : IsHonest w v) (rs : Reservations) (safe b : ℕ) (k : Text) (small : safe < u64_max)
    (expected : expected_native eth w d v rs b k ≡ true) where
  detect-Finds :
      (from to : ℕ) (m : Machine F)
      → from ≤ b
      → b ≤ to
      → Finds k (detect eth w d native rs from to m)
  unfolding detect scan_native_eth
  detect-Finds from to m h i =
      scan_native_blocks-Finds eth w d v honest rs (to + 1 - from) from b k m h (omega arith)
        expected

  first_block-IsBehind :
      (o : Option ℕ) (c : ℕ) → IsBounded o → first_block eth w d o safe ≤ c → covers o c ≡ false
  unfolding first_block saturating_add
  first_block-IsBehind none c h i = refl
  first_block-IsBehind (some last) c h i = ground (arith, h)

  scan_source-Sound :
      (m : Machine F)
      → IsBounded (cursor m.shared native)
      → first_block eth w d (cursor m.shared native) safe ≤ b
      → Sound eth w d native rs b k (scan_source eth w d native rs safe m)
  unfolding scan_source scan_range last_block Loop reached
  scan_source-Sound m bounded h =
      let from = first_block eth w d (cursor m.shared native) safe in
      let end = last_block eth w d from safe in
      scan_rounds-Sound eth w d native rs end b k (omega arith) detect-Finds (end + 1 - from) from m
        (λ c i. first_block-IsBehind (cursor m.shared native) c bounded i) h

  no_candidate : (tx : EthTransaction) → native_candidate eth w d [] tx ≡ none
  unfolding native_candidate
  no_candidate tx = elim (Bool-cases (tx.value == 0)) [
    | inl e ↦ rw e refl
    | inr e ↦ rw e (elim (Option-cases tx.to) [ inl i ↦ rw i refl | inr (to, i) ↦ rw i refl ])
  ]

  nothing_expected : (txs : List EthTransaction) → any (pays_native eth w d v [] k) txs ≡ false
  unfolding pays_native pays_candidate
  nothing_expected [] = refl
  nothing_expected (tx ∷ txs) = rw (no_candidate tx) (nothing_expected txs)

  -- With a reservation to look for, the native source is scanned.
  busy :
      (lookup : Reservations)
      → expected_native eth w d v lookup b k ≡ true
      → is_idle eth w d native lookup ≡ false
  unfolding is_idle expected_native
  busy [] h = absurd (ground (arith, nothing_expected (v.transactions b)))
  busy (r ∷ lookup) h = refl

  native_kind-Sound :
      (e : Option DetectorError) (m : Machine F)
      → IsBounded (cursor m.shared native)
      → first_block eth w d (cursor m.shared native) safe ≤ b
      → Sound eth w d native rs b k (scan_kind eth w d native rs safe e m)
  unfolding scan_kind try_source Sound
  native_kind-Sound e m bounded h = rw (busy rs expected) (scan_source-Sound m bounded h)

  later-Sound :
      {A B : Type 0} (x : Result A × Machine F) (f : A → Action F B)
      → Sound eth w d native rs b k x
      → ((a : A) → Follows (Scans eth w native) (f a))
      → Sound eth w d native rs b k (after x f)
  unfolding Sound
  later-Sound x f h keeps =
      after_lem x f (Sound eth w d native rs b k)
        (λ a i j.
          let g = (keeps a).at x.1 in
          g.known k (h (sym (reached-still native x.1.shared _ b g) ∙ j)))
        (λ e i. h)

  -- A scan that starts at a cursor below `u64::MAX` with a safe block below `u64::MAX`, over nodes
  -- that show the blocks and receipts of one chain whenever they answer: an event of a successful
  -- native payment to a reserved address, in a block at or after the first one to scan, is credited,
  -- ignored or in the outbox if the native cursor has come to that block. So it is whatever fails
  -- during the scan of the three sources, and whatever other tasks do meanwhile.
  pub scan_sources-Complete :
      (m : Machine F)
      → IsBounded (cursor m.shared native)
      → first_block eth w d (cursor m.shared native) safe ≤ b
      → reached native (scan_sources eth w d rs safe m).1.shared b ≡ true
      → is_known_event (scan_sources eth w d rs safe m).1.shared k ≡ true
  unfolding scan_sources Sound
  scan_sources-Complete m bounded h =
      later-Sound (scan_kind eth w d native rs safe none m) _ (native_kind-Sound none m bounded h)
        λ a. bind-Scans eth w native _ _ (source_other-Still eth w d rs erc20 safe a refl) λ c.
          bind-Scans eth w native _ _ (source_other-Still eth w d rs internal safe c refl)
            (report-Still eth w d rs)
