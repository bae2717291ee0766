-- ===== src/Utxo/Urls.antt =====
-- The explorer URLs of blockstream.rs: which API a configured URL speaks, and the chain's path.
use crypto_payment_detector.Base.{
  ◌≡◌, refl, Bool, true, ◌||◌, [], ◌∷◌, ◌++◌, if◌then◌else◌, ◌==◌, Bool-cases, inl, inr,
}
use mathlib.Core.List.{reverse, reverse-append}
use crypto_payment_detector.Base.Text.{
  Text, text, trim, trim_end_matches, to_ascii_lowercase, contains, ends_with,
}
use crypto_payment_detector.Types.Chains.{Chain, bitcoin, litecoin, solana, ethereum, base}
use crypto_payment_detector.Utxo.State.{ExplorerApi, esplora, blockchair}
use crypto_payment_detector.EvmPool.Store.{starts_with-append}

unfoldable pub normalize_api_url : Text → Text
normalize_api_url url = trim_end_matches (λ c. c == 47) (trim url)

unfoldable pub blockchair_chain_slug : Chain → Text
blockchair_chain_slug bitcoin = text "bitcoin"
blockchair_chain_slug litecoin = text "litecoin"
blockchair_chain_slug solana = text "solana"
blockchair_chain_slug ethereum = text "ethereum"
blockchair_chain_slug base = text "base"

-- The test of `normalize_blockchair_api_url` on the URL in lower case.
unfoldable pub has_slug : Chain → Text → Bool
has_slug c lower =
    ends_with (47 ∷ blockchair_chain_slug c) lower
    || contains (47 ∷ (blockchair_chain_slug c ++ (47 ∷ []))) lower

unfoldable pub normalize_blockchair_api_url : Chain → Text → Text
normalize_blockchair_api_url c url =
    let base_url = normalize_api_url url in
    if has_slug c (to_ascii_lowercase base_url)
    then base_url
    else base_url ++ (47 ∷ blockchair_chain_slug c)

unfoldable pub from_url : Chain → Text → ExplorerApi
from_url c url =
    let normalized = normalize_api_url url in
    if contains (text "api.blockchair.com") (to_ascii_lowercase normalized)
    then blockchair (normalize_blockchair_api_url c normalized)
    else esplora normalized

unfoldable pub label : ExplorerApi → Text
label (esplora base_url) = text "Esplora(" ++ (base_url ++ text ")")
label (blockchair base_url) = text "Blockchair(" ++ (base_url ++ text ")")

lower-append :
    (s t : Text) → to_ascii_lowercase (s ++ t) ≡ to_ascii_lowercase s ++ to_ascii_lowercase t
unfolding to_ascii_lowercase
lower-append [] t = refl
lower-append (c ∷ s) t = rw (lower-append s t) refl

lower_slug :
    (c : Chain) → to_ascii_lowercase (47 ∷ blockchair_chain_slug c) ≡ 47 ∷ blockchair_chain_slug c
unfolding to_ascii_lowercase blockchair_chain_slug
lower_slug bitcoin = refl
lower_slug litecoin = refl
lower_slug solana = refl
lower_slug ethereum = refl
lower_slug base = refl

ends_with-append : (s t : Text) → ends_with t (s ++ t) ≡ true
unfolding ends_with
ends_with-append s t = rw (reverse-append s t) (starts_with-append (reverse t) (reverse s))

has_slug-append :
    (c : Chain) (s : Text)
    → has_slug c (to_ascii_lowercase (s ++ (47 ∷ blockchair_chain_slug c))) ≡ true
unfolding has_slug
has_slug-append c s =
    rw
      (
        lower-append s (47 ∷ blockchair_chain_slug c),
        lower_slug c,
        ends_with-append (to_ascii_lowercase s) (47 ∷ blockchair_chain_slug c),
      )
      refl

slug_kept :
    (c : Chain) (url : Text)
    → normalize_api_url url ≡ url
    → has_slug c (to_ascii_lowercase url) ≡ true
    → normalize_blockchair_api_url c url ≡ url
unfolding normalize_blockchair_api_url
slug_kept c url trimmed h = rw (trimmed, h) refl

normalized-has_slug :
    (c : Chain) (url : Text)
    → has_slug c (to_ascii_lowercase (normalize_blockchair_api_url c url)) ≡ true
unfolding normalize_blockchair_api_url
normalized-has_slug c url =
    elim (Bool-cases (has_slug c (to_ascii_lowercase (normalize_api_url url)))) [
      | inl e ↦ rw e e
      | inr e ↦ rw e (has_slug-append c (normalize_api_url url))
    ]

-- A normalised Blockchair URL that trimming leaves alone has the path of its chain, at its end or
-- inside it, and normalising it again changes nothing: the path is not added a second time.
pub normalize_blockchair_api_url-again :
    (c : Chain) (url : Text)
    → normalize_api_url (normalize_blockchair_api_url c url) ≡ normalize_blockchair_api_url c url
    → (has_slug c (to_ascii_lowercase (normalize_blockchair_api_url c url)) ≡ true)
      × (normalize_blockchair_api_url c (normalize_blockchair_api_url c url)
          ≡ normalize_blockchair_api_url c url)
normalize_blockchair_api_url-again c url trimmed =
    let h = normalized-has_slug c url in (h, slug_kept c _ trimmed h)
