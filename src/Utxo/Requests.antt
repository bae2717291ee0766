-- ===== src/Utxo/Requests.antt =====
-- The requests of blockstream.rs to its explorers, and the search for a reorganisation, credit nothing.
use crypto_payment_detector.Base.{
  true, ℕ, zero, suc, ◌+◌, ◌%◌, false, Option, none, some, List, if◌then◌else◌, saturating_sub,
  get_elem?, length,
}
use crypto_payment_detector.Base.Text.{Text, same, is_char_boundary}
use crypto_payment_detector.Base.Float.{Float}
use crypto_payment_detector.Error.Defs.{DetectorError, Result, ok, err}
use crypto_payment_detector.Error.Exec.{pure, Follows, Follows-bind, Follows-if, attempt}
use crypto_payment_detector.Utxo.State.{ExplorerApi, Detector, World, Machine, Action}
use crypto_payment_detector.Utxo.Outbox.{await_point}
use crypto_payment_detector.Utxo.Quiet.{
  Quiet, Quiet-trans, Quiet-refl, await_point-Quiet, tick-Quiet,
}
use crypto_payment_detector.Utxo.Explorers.{keep_or_next, ask, try_from, try_explorers}
use crypto_payment_detector.Utxo.Scan.{
  request, get_block_hash, fetch_raw_block, check_height, log_prefix, compare_hashes, reorg_from,
  detect_reorg,
}

module _ {F A : Type 0} (apis : List ExplorerApi) (call : ExplorerApi → Action F A)
    (quiet : (e : ExplorerApi) → Follows Quiet (call e)) where
  next-Quiet :
      (index : ℕ) (next : DetectorError → Action F A) (m : Machine F) (x : Result A × Machine F)
      → Quiet m x.1
      → ((r : DetectorError) (m' : Machine F) → Quiet m' (next r m').1)
      → Quiet m (keep_or_next apis call index next x).1
  unfolding keep_or_next
  next-Quiet index next m (ok a, m') q h = record {
    unmarked = q.unmarked;
    credited = q.credited;
    kept = q.kept;
  }
  next-Quiet index next m (err r, m') q h = Quiet-trans m m' _ q (h r m')

  ask-Quiet : (o : Option ExplorerApi) (m : Machine F) → Quiet m (ask apis call o m).1
  unfolding ask
  ask-Quiet none m = Quiet-refl m
  ask-Quiet (some e) m = (quiet e).at m

  try_from-Quiet :
      (start left offset : ℕ) (last : DetectorError) (m : Machine F)
      → Quiet m (try_from apis call start left offset last m).1
  unfolding try_from
  try_from-Quiet start zero offset last m = Quiet-refl m
  try_from-Quiet start (suc left) offset last m =
      next-Quiet _ _ m _ (ask-Quiet (get_elem? apis ((start + offset) % length apis)) m)
        (try_from-Quiet start left (offset + 1))

  pub try_explorers-Quiet : (name : Text) → Follows Quiet (try_explorers apis call name)
  unfolding try_explorers
  try_explorers-Quiet name = record { at = λ m. try_from-Quiet _ _ _ _ m }

module _ {F : Type 0} (fl : Float F) (w : World F) (d : Detector F) where
  pub request-Quiet :
      {A : Type 0} (answer : ℕ → ExplorerApi → Result A) (e : ExplorerApi)
      → Follows Quiet (request fl w d answer e)
  unfolding request
  request-Quiet answer e =
      Follows-bind Quiet-trans (await_point w) _ (await_point-Quiet w)
        (λ _. record { at = tick-Quiet w })

  pub attempt-Follows :
      {A : Type 0} {R : Machine F → Machine F → Type 0} (m : Action F A)
      → Follows R m
      → Follows R (attempt m)
  attempt-Follows m h = record { at = h.at }

  pub get_block_hash-Quiet : (h : ℕ) → Follows Quiet (get_block_hash fl w d h)
  unfolding get_block_hash
  get_block_hash-Quiet h = try_explorers-Quiet _ _ (request-Quiet _) _

  pub fetch_raw_block-Quiet : (hash : Text) → Follows Quiet (fetch_raw_block fl w d hash)
  unfolding fetch_raw_block
  fetch_raw_block-Quiet hash = try_explorers-Quiet _ _ (request-Quiet _) _

  pub pure-Quiet : {A : Type 0} (a : A) → Follows {S = Machine F} Quiet (pure a)
  pure-Quiet a = record { at = Quiet-refl }

  pub log_prefix-Quiet : (hash : Text) → Follows Quiet (log_prefix fl w d hash)
  unfolding log_prefix
  log_prefix-Quiet hash =
      Follows-if (is_char_boundary 8 hash) _ _ (pure-Quiet tt) (record { at = Quiet-refl })

  compare_hashes-Quiet :
      (stored : Text) (r : Result Text) → Follows Quiet (compare_hashes fl w d stored r)
  unfolding compare_hashes
  compare_hashes-Quiet stored (ok hash) = Follows-if (same stored hash) _ _ (pure-Quiet false) (
      Follows-bind Quiet-trans (log_prefix fl w d stored) _ (log_prefix-Quiet stored) (λ u.
        Follows-bind Quiet-trans (log_prefix fl w d hash) _ (log_prefix-Quiet hash)
          (λ v. pure-Quiet true)))
  compare_hashes-Quiet stored (err e) = pure-Quiet false

  check_height-Quiet : (o : Option Text) (h : ℕ) → Follows Quiet (check_height fl w d o h)
  unfolding check_height
  check_height-Quiet none h = pure-Quiet false
  check_height-Quiet (some t) h =
      Follows-bind Quiet-trans (attempt (get_block_hash fl w d h)) _
        (attempt-Follows _ (get_block_hash-Quiet h)) (compare_hashes-Quiet t)

  reorg_from-Quiet : (known : List (ℕ × Text)) (h : ℕ) → Follows Quiet (reorg_from fl w d known h)
  unfolding reorg_from
  reorg_from-Quiet known zero =
      Follows-bind Quiet-trans _ _ (check_height-Quiet _ 0) (λ b. pure-Quiet (if b then 1 else 0))
  reorg_from-Quiet known (suc h) = Follows-bind Quiet-trans _ _ (check_height-Quiet _ (suc h)) λ b.
      Follows-if b _ _
        (Follows-bind Quiet-trans _ _ (reorg_from-Quiet known h) (λ n. pure-Quiet (suc n)))
        (pure-Quiet 0)

  pub detect_reorg-Quiet : (h : ℕ) → Follows Quiet (detect_reorg fl w d h)
  unfolding detect_reorg
  detect_reorg-Quiet h = record {
    at = λ m. (reorg_from-Quiet m.shared.known_block_hashes (saturating_sub h 1)).at m;
  }
