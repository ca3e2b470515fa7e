-- ===== src/Books/Symbols.antt =====
-- The base assets of src/cob_common/mod.rs and the constants per asset and venue of src/cob.rs.
use Prim.Native.String.{String}
use kaskad_nuntius.Prelude.{
  ℕ, ◌-◌, Bool, true, false, not, ◌&&◌, List, [], ◌∷◌, map, Option, none, some, leb, length, take,
  drop, contains, ◌==◌, nat_eq, list_eq, if◌then◌else◌,
}
use kaskad_nuntius.Policy.{Bytes}
use kaskad_nuntius.Chain.Text.{ascii}

-- `find` of a character, by the text before its first place
unfoldable pub before : ℕ → Bytes → Option Bytes
before sep [] = none
before sep (c ∷ rest) =
    let later = before sep rest in
    if c == sep then some [] else elim later [ none ↦ none | some text ↦ some (c ∷ text) ]

unfoldable pub before_any : List ℕ → Bytes → Option Bytes
before_any [] text = none
before_any (sep ∷ seps) text = elim (before sep text) [
  | none ↦ before_any seps text
  | some base ↦ some base
]

unfoldable pub strip_suffix : Bytes → Bytes → Option Bytes
strip_suffix suffix text =
    let start = length text - length suffix in
    if leb (length suffix) (length text) && drop start text == suffix
    then some (take start text)
    else none

unfoldable pub strip_quotes : List Bytes → Bytes → Bytes
strip_quotes [] text = text
strip_quotes (quote ∷ quotes) text =
    let rest = strip_quotes quotes text in
    elim (strip_suffix quote text) [ none ↦ rest | some [] ↦ rest | some (c ∷ base) ↦ c ∷ base ]

abbrev pub separators : List ℕ
separators = 47 ∷ 95 ∷ 45 ∷ 58 ∷ []

abbrev pub quote_assets : List Bytes
quote_assets = map ascii ("USDT" ∷ "USDC" ∷ "BUSD" ∷ "TUSD" ∷ "UST" ∷ "USD" ∷ [])

unfoldable pub base_of_upper : Bytes → Bytes
base_of_upper text = elim (before_any separators text) [
  | none ↦ strip_quotes quote_assets text
  | some base ↦ base
]

unfoldable pub extract_base_asset : (Bytes → Bytes) → Bytes → Bytes
extract_base_asset to_uppercase symbol = base_of_upper (to_uppercase symbol)

-- `AssetConfig.symbol` to the ticker of the collectors, empty for other assets
unfoldable pub asset_to_collector_symbol : Bytes → Bytes
asset_to_collector_symbol symbol =
    if symbol == ascii "BTC/USD"
    then ascii "BTC"
    else if symbol == ascii "ETH/USD"
    then ascii "ETH"
    else if symbol == ascii "KAS/USD"
    then ascii "KAS"
    else if symbol == ascii "USDC/USD"
    then ascii "USDC"
    else if symbol == ascii "TAO/USD"
    then ascii "TAO"
    else []

unfoldable pub is_empty : Bytes → Bool
is_empty [] = true
is_empty (c ∷ rest) = false

unfoldable pub is_cob_asset : Bytes → Bool
is_cob_asset symbol = not (is_empty (asset_to_collector_symbol symbol))

unfoldable pub is_one_of : List String → Bytes → Bool
is_one_of names text = contains (map ascii names) text

unfoldable pub max_spread_bps_for : Bytes → ℕ
max_spread_bps_for base =
    if is_one_of ("BTC" ∷ "ETH" ∷ []) base
    then 30
    else if is_one_of ("USDC" ∷ []) base
    then 20
    else if is_one_of ("KAS" ∷ "TAO" ∷ []) base
    then 100
    else 500

-- The venues on which BTC has a tick of 0.01.
abbrev pub btc_venues : List String
btc_venues =
    "binance" ∷ "bybit" ∷ "okx" ∷ "kucoin" ∷ "mexc" ∷ "kraken" ∷ "coinbase" ∷ "cryptocom" ∷ "htx"
    ∷ "gate" ∷ "gateio" ∷ "bingx" ∷ "bitmart" ∷ "whitebit" ∷ "poloniex" ∷ "ascendex" ∷ "xt"
    ∷ "phemex" ∷ "lbank" ∷ "weex" ∷ "orangex" ∷ "bitfinex" ∷ "biconomy" ∷ "coinstore" ∷ "coinw"
    ∷ "bitrue" ∷ []

-- The tick as the number of decimals of a power of ten: all ticks of the table are such.
unfoldable pub tick_decimals_for : Bytes → Bytes → ℕ
tick_decimals_for source base =
    if base == ascii "BTC" && is_one_of btc_venues source
    then 2
    else if base == ascii "BTC" && is_one_of ("bitget" ∷ []) source
    then 1
    else if base == ascii "ETH"
    then 2
    else if base == ascii "KAS"
    then 5
    else if base == ascii "USDC"
    then 4
    else if base == ascii "TAO"
    then (if is_one_of ("binance" ∷ "gate" ∷ "gateio" ∷ "xt" ∷ "lbank" ∷ "whitebit" ∷ "coinw" ∷ [])
          source
        then 1
        else 2)
    else if is_one_of ("bybit" ∷ "okx" ∷ "bitget" ∷ "kucoin" ∷ []) source
    then 5
    else 6
