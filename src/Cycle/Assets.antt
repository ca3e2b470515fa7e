-- ===== src/Cycle/Assets.antt =====
-- The checks of load_assets in src/types.rs on the parsed configuration.
use kaskad_nuntius.Prelude.{
  ◌≤◌, ◌<◌, ◌≡◌, refl, sym, ap, Bool, true, false, not, ◌&&◌, List, [], ◌∷◌, Option, none, some,
  Result, ok, err, and_then, and_then-ok, any, All, find, length, contains, ltb, nat_beq, ◌==◌,
  nat_eq, list_eq, arith,
}
use kaskad_nuntius.Policy.{Bytes}
use kaskad_nuntius.Aggregator.{AssetConfig, SourceMapping}
use kaskad_nuntius.Cycle.{usdt_usd_symbol, has_usdt_quoted_source}

pub record AssetsConfig : Type 0 where
  pub exchange_hostnames : List Bytes
  pub assets : List AssetConfig

pub data AssetsError : Type 0 where
  no_assets no_hostnames invalid_hostname no_quorum too_few_sources : AssetsError
  wide_deviation empty_pair no_rate_asset rate_in_usdt : AssetsError

abbrev Checked : Type 0
Checked = Result AssetsError (Unit {0})

unfoldable pub require : Bool → AssetsError → Checked
require true e = ok tt
require false e = err e

unfoldable pub has_text : {A : Type 0} → List A → Bool
has_text [] = false
has_text (x ∷ xs) = true

unfoldable pub is_hostname : Bytes → Bool
is_hostname h = has_text h && not (contains h 47) && not (contains h 32)

unfoldable pub check_hostnames : List Bytes → Checked
check_hostnames [] = ok tt
check_hostnames (h ∷ rest) =
    and_then (require (is_hostname h) invalid_hostname) (λ done. check_hostnames rest)

unfoldable pub check_pairs : List (Bytes × SourceMapping) → Checked
check_pairs [] = ok tt
check_pairs ((name, m) ∷ rest) =
    and_then (require (has_text m.pair) empty_pair) (λ done. check_pairs rest)

unfoldable pub check_asset : AssetConfig → Checked
check_asset a = and_then (require (not (nat_beq a.min_sources 0)) no_quorum) λ done.
    and_then (require (not (ltb (length a.sources) a.min_sources)) too_few_sources) λ done.
      and_then (require (not (ltb 10000 a.deviation_threshold_bps)) wide_deviation)
        λ done. check_pairs a.sources

unfoldable pub check_assets : List AssetConfig → Checked
check_assets [] = ok tt
check_assets (a ∷ rest) = and_then (check_asset a) (λ done. check_assets rest)

unfoldable pub check_rate : Option AssetConfig → Bool → Checked
check_rate none needs_rate = require (not needs_rate) no_rate_asset
check_rate (some a) needs_rate = require (not (has_usdt_quoted_source a)) rate_in_usdt

unfoldable pub load_assets : AssetsConfig → Result AssetsError AssetsConfig
load_assets parsed = and_then (require (has_text parsed.assets) no_assets) λ done.
    and_then (require (has_text parsed.exchange_hostnames) no_hostnames) λ done.
      and_then (check_hostnames parsed.exchange_hostnames) λ done.
        and_then (check_assets parsed.assets) λ done.
          and_then
            (check_rate (find (λ a. a.symbol == usdt_usd_symbol) parsed.assets)
              (any has_usdt_quoted_source parsed.assets))
            (λ done. ok parsed)

-- A quorum of at least one source and at most as many as there are, a deviation of at most 100 %, and a
-- pair for every source.
abbrev pub IsSound : AssetConfig → Type 0
IsSound a =
    (0 < a.min_sources)
    × (a.min_sources ≤ length a.sources)
    × (a.deviation_threshold_bps ≤ 10000)
    × All (λ m. has_text m.1.pair ≡ true) a.sources

abbrev config_or : AssetsConfig → Result AssetsError AssetsConfig → AssetsConfig
config_or config (ok loaded) = loaded
config_or config (err e) = config

require-ok : (b : Bool) (e : AssetsError) {u : Unit {0}} → require b e ≡ ok u → b ≡ true
unfolding require
require-ok true e h = refl
require-ok false e h = cc

check_pairs-ok :
    (sources : List (Bytes × SourceMapping)) {u : Unit {0}}
    → check_pairs sources ≡ ok u
    → All (λ m. has_text m.1.pair ≡ true) sources
unfolding check_pairs
check_pairs-ok [] h = tt
check_pairs-ok ((name, m) ∷ rest) h =
    let step = and_then-ok (require (has_text m.pair) empty_pair) (λ done. check_pairs rest) h in
    (require-ok _ _ step.1, check_pairs-ok rest step.2)

check_asset-IsSound : (a : AssetConfig) {u : Unit {0}} → check_asset a ≡ ok u → IsSound a
unfolding check_asset
check_asset-IsSound a h =
    let quorum = and_then-ok (require (not (nat_beq a.min_sources 0)) no_quorum) _ h in
    let enough =
      and_then-ok (require (not (ltb (length a.sources) a.min_sources)) too_few_sources) _
        quorum.2 in
    let narrow =
      and_then-ok (require (not (ltb 10000 a.deviation_threshold_bps)) wide_deviation) _ enough.2 in
    (
      ground (arith, require-ok _ _ quorum.1),
      ground (arith, require-ok _ _ enough.1),
      ground (arith, require-ok _ _ narrow.1),
      check_pairs-ok a.sources narrow.2,
    )

check_assets-IsSound :
    (assets : List AssetConfig) {u : Unit {0}} → check_assets assets ≡ ok u → All IsSound assets
unfolding check_assets
check_assets-IsSound [] h = tt
check_assets-IsSound (a ∷ rest) h =
    let step = and_then-ok (check_asset a) (λ done. check_assets rest) h in
    (check_asset-IsSound a step.1, check_assets-IsSound rest step.2)

-- The rate asset, if it is there, has no source in USDT; it is there if any asset has one.
abbrev pub IsRated : List AssetConfig → Option AssetConfig → Type 0
IsRated assets none = any has_usdt_quoted_source assets ≡ false
IsRated assets (some a) = has_usdt_quoted_source a ≡ false

check_rate-IsRated :
    (assets : List AssetConfig) (found : Option AssetConfig) {u : Unit {0}}
    → check_rate found (any has_usdt_quoted_source assets) ≡ ok u
    → IsRated assets found
unfolding check_rate
check_rate-IsRated assets none h =
    ground (arith, require-ok (not (any has_usdt_quoted_source assets)) no_rate_asset h)
check_rate-IsRated assets (some a) h =
    ground (arith, require-ok (not (has_usdt_quoted_source a)) rate_in_usdt h)

-- A configuration that is loaded is the one parsed, every asset of it has a quorum that its sources can
-- meet, a deviation of at most 100 % and pairs that are not empty, and of the assets with the symbol
-- USDT/USD, by which prices in USDT are converted, the first has no source in USDT, and there is one if
-- any asset has a source in USDT. A later asset with that symbol is not restricted.
pub load_assets-IsSound :
    (parsed : AssetsConfig) {config : AssetsConfig}
    → load_assets parsed ≡ ok config
    → (config ≡ parsed)
      × All IsSound parsed.assets
      × IsRated parsed.assets (find (λ a. a.symbol == usdt_usd_symbol) parsed.assets)
unfolding load_assets
load_assets-IsSound parsed {config} h =
    let some_assets = and_then-ok (require (has_text parsed.assets) no_assets) _ h in
    let some_hosts =
      and_then-ok (require (has_text parsed.exchange_hostnames) no_hostnames) _ some_assets.2 in
    let hosts = and_then-ok (check_hostnames parsed.exchange_hostnames) _ some_hosts.2 in
    let sound = and_then-ok (check_assets parsed.assets) _ hosts.2 in
    let rated =
      and_then-ok
        (check_rate (find (λ a. a.symbol == usdt_usd_symbol) parsed.assets)
          (any has_usdt_quoted_source parsed.assets))
        (λ done. ok parsed) sound.2 in
    (
      sym (ap (config_or config) rated.2),
      check_assets-IsSound parsed.assets sound.1,
      check_rate-IsRated parsed.assets (find (λ a. a.symbol == usdt_usd_symbol) parsed.assets)
          rated.1,
    )
