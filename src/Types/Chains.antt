-- ===== src/Types/Chains.antt =====
-- The chain enumeration of types.rs with its tables, and `chain_env_prefix` of env_utils.rs.
use crypto_payment_detector.Base.{
  ◌++◌, ℕ, Bool, true, false, not, Option, none, some, List, [], ◌∷◌, map, ◌||◌, ◌==◌,
  if◌then◌else◌, retain,
}
use crypto_payment_detector.Base.Text.{
  Text, text, same, one_of, trim, trim_end_matches, split, is_empty,
}

pub data Chain : Type 0 where
  bitcoin litecoin solana ethereum base : Chain

unfoldable pub ticker : Chain → Text
ticker bitcoin = text "BTC"
ticker litecoin = text "LTC"
ticker solana = text "SOL"
ticker ethereum = text "ETH"
ticker base = text "BASE"

unfoldable pub name : Chain → Text
name bitcoin = text "Bitcoin"
name litecoin = text "Litecoin"
name solana = text "Solana"
name ethereum = text "Ethereum"
name base = text "Base"

unfoldable pub default_explorer_apis : Chain → List Text
default_explorer_apis bitcoin = text "https://blockstream.info/api" ∷ []
default_explorer_apis litecoin =
    text "https://litecoinspace.org/api" ∷ text "https://api.blockchair.com/litecoin" ∷ []
default_explorer_apis solana = text "https://api.mainnet.solana.com" ∷ []
default_explorer_apis ethereum = text "https://cloudflare-eth.com" ∷ []
default_explorer_apis base = text "https://mainnet.base.org" ∷ []

-- The pieces of the configured value, trimmed, without the empty ones and without final slashes.
configured_urls : Option Text → List Text
configured_urls none = []
configured_urls (some value) =
    map (trim_end_matches (λ c. c == b'/'))
      (retain (λ v. not (is_empty v)) (map trim (split (λ c. c == b',' || c == b';') value)))

or_default : List Text → List Text → List Text
or_default [] defaults = defaults
or_default (u ∷ us) defaults = u ∷ us

unfoldable pub explorer_api_urls : Chain → Option Text → List Text
unfolding configured_urls or_default
explorer_api_urls c configured = or_default (configured_urls configured) (default_explorer_apis c)

unfoldable pub sats_per_unit : Chain → ℕ
sats_per_unit bitcoin = 100000000
sats_per_unit litecoin = 100000000
sats_per_unit solana = 1000000000
sats_per_unit ethereum = 1000000000000000000
sats_per_unit base = 1000000000000000000

unfoldable pub is_evm : Chain → Bool
is_evm ethereum = true
is_evm base = true
is_evm _ = false

-- `FromStr`, after `to_lowercase`, of which the result is the argument here.
chain_of_lower : Text → Option Chain
chain_of_lower s =
    if one_of s (text "bitcoin" ∷ text "btc" ∷ [])
    then some bitcoin
    else if one_of s (text "litecoin" ∷ text "ltc" ∷ [])
    then some litecoin
    else if one_of s (text "solana" ∷ text "sol" ∷ [])
    then some solana
    else if one_of s (text "ethereum" ∷ text "eth" ∷ [])
    then some ethereum
    else if same s (text "base")
    then some base
    else none

-- `to_lowercase` is Unicode's; the model takes it as a function.
unfoldable pub from_str : (Text → Text) → Text → Option Chain
unfolding chain_of_lower
from_str to_lowercase s = chain_of_lower (to_lowercase s)

unfoldable pub chain_env_prefix : Chain → Text
chain_env_prefix bitcoin = text "BTC"
chain_env_prefix litecoin = text "LTC"
chain_env_prefix solana = text "SOL"
chain_env_prefix ethereum = text "ETH"
chain_env_prefix base = text "BASE"

-- Each chain has a default explorer; the empty text is never reached.
first_url : List Text → Text
first_url [] = []
first_url (u ∷ us) = u

unfoldable pub default_explorer_api : Chain → Text
unfolding first_url
default_explorer_api c = first_url (default_explorer_apis c)

unfoldable pub raw_block_url : Chain → Text → Text
raw_block_url bitcoin hash =
    default_explorer_api bitcoin ++ (text "/block/" ++ (hash ++ text "/raw"))
raw_block_url litecoin hash =
    default_explorer_api litecoin ++ (text "/block/" ++ (hash ++ text "/raw"))
raw_block_url solana hash = text "https://api.mainnet.solana.com/block/" ++ hash
raw_block_url ethereum hash = text "https://cloudflare-eth.com/block/" ++ hash
raw_block_url base hash = text "https://mainnet.base.org/block/" ++ hash
