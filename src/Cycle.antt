-- ===== src/Cycle.antt =====
-- One asset of the oracle loop in src/main.rs: from the books or the venues' samples to the cached
-- price. What the venues answer (`fetch_all`) is an argument, and so is the fuel of the clearing loop.
pub mod Publishing
pub mod Assets
mod Tests
use mathlib.Core.Option
use kaskad_nuntius.Prelude.{
  ℕ, ◌+◌, ◌-◌, ◌/◌, ◌%◌, ◌^◌, Bool, true, false, not, ◌&&◌, List, [], ◌∷◌, map, Option, none, some,
  Result, ok, err, ltb, leb, length, any, filter, ◌++◌, ◌==◌, nat_eq, list_eq, if◌then◌else◌,
}
use kaskad_nuntius.Policy.{Bytes}
use kaskad_nuntius.Crypto.{Crypto}
use kaskad_nuntius.Chain.Text.{ascii}
use kaskad_nuntius.Float.{Float64, nought}
use kaskad_nuntius.Aggregator.{
  PricePoint, AssetConfig, is_usdt, sanitize, convert_quotes_to_usd, median_server_time,
  reject_time_outliers,
}
use kaskad_nuntius.Aggregator.Weights.{WeightingMode, weighted_median}
use kaskad_nuntius.Aggregator.Outliers.{
  PriceError, reject_outliers_with_cap, to_fixed_point, sources_hash,
}
use kaskad_nuntius.Books.{PriceLevel, BookMap, reference_of}
use kaskad_nuntius.Books.Symbols.{is_cob_asset}
use kaskad_nuntius.Books.Selection.{OrderBookSnapshot, read_books_from_state}
use kaskad_nuntius.Books.Clearing.{FairValue}
use kaskad_nuntius.Books.Gate.{gated_consolidated_order_book, seconds_of, usdt_peg_ok}

pub record CachedPrice (F : Type 0) : Type 0 where
  pub asset_symbol : Bytes
  pub asset_id : Bytes
  pub price_fixed : ℕ
  pub price_human : F
  pub num_sources : ℕ
  pub sources_hash : Bytes
  pub signed_timestamp : ℕ

abbrev pub PriceStore : Type 0 → Type 0
PriceStore F = List (Bytes × CachedPrice F)

-- The rate of this cycle, the store and the two counters.
pub record LoopState (F : Type 0) : Type 0 where
  pub usdt_usd : Option F
  pub store : PriceStore F
  pub equal_weight_fallbacks : ℕ
  pub usdt_rate_assumed : ℕ

abbrev pub oracle_decimals : ℕ
oracle_decimals = 8

abbrev pub usdt_rate_max_age_secs : ℕ
usdt_rate_max_age_secs = 900

abbrev pub usdt_peg_min_sources : ℕ
usdt_peg_min_sources = 2

abbrev pub usdt_usd_symbol : Bytes
usdt_usd_symbol = ascii "USDT/USD"

unfoldable pub has_usdt_quoted_source : AssetConfig → Bool
has_usdt_quoted_source asset = any (λ m. is_usdt (some m.1.quote)) asset.sources

unfoldable pub put_price {ℓ} : {A : Type ℓ} → Bytes → A → List (Bytes × A) → List (Bytes × A)
put_price key price [] = (key, price) ∷ []
put_price key price ((other, old) ∷ rest) =
    let later = put_price key price rest in
    if other == key then (key, price) ∷ rest else (other, old) ∷ later

unfoldable pub lookup_price {ℓ} : {A : Type ℓ} → Bytes → List (Bytes × A) → Option A
lookup_price key [] = none
lookup_price key ((other, price) ∷ rest) =
    if other == key then some price else lookup_price key rest

-- `sort_by_key(|a| a.symbol != USDT_USD_SYMBOL)`, which is stable
unfoldable pub ordered_assets : List AssetConfig → List AssetConfig
ordered_assets assets =
    filter (λ a. a.symbol == usdt_usd_symbol) assets
    ++ filter (λ a. not (a.symbol == usdt_usd_symbol)) assets

module _ {F : Type 0} ⦃f : Float64 F⦄ where
  unfoldable pub store_price : LoopState F → CachedPrice F → LoopState F
  store_price st cached = record st { store = put_price cached.asset_symbol cached st.store }

  -- The cached rate, if it is fresh and sane.
  unfoldable pub cached_rate : PriceStore F → ℕ → Option F
  cached_rate store ref_ts = elim (lookup_price usdt_usd_symbol store) [
    | none ↦ none
    | some c ↦
        if leb (ref_ts - c.signed_timestamp) usdt_rate_max_age_secs
          && f.is_finite c.price_human
          && f.lt nought c.price_human
        then some c.price_human
        else none
  ]

  unfoldable pub assume_peg : Option F → LoopState F → F × LoopState F
  assume_peg (some rate) st = (rate, st)
  assume_peg none st =
      (f.of_decimal 1 0, record st { usdt_rate_assumed = (st.usdt_rate_assumed + 1) % 2 ^ 64 })

  unfoldable pub usdt_rate : LoopState F → ℕ → F × LoopState F
  usdt_rate st ref_ts = elim st.usdt_usd [
    | some rate ↦ (rate, st)
    | none ↦ assume_peg (cached_rate st.store ref_ts) st
  ]

  unfoldable pub first_price : List (PriceLevel F) → F
  first_price [] = nought
  first_price (level ∷ rest) = level.price

  unfoldable pub hash_points : ℕ → List (OrderBookSnapshot F) → List (PricePoint F)
  hash_points ts books =
      map
        (λ b. record {
          price = first_price b.bids;
          volume = nought;
          source = b.source;
          server_time = ts;
        })
        books

  unfoldable pub in_usd :
      LoopState F → AssetConfig → List (PricePoint F) → LoopState F × List (PricePoint F)
  in_usd st asset prices =
      let rated = usdt_rate st (Option.get_or (median_server_time prices) 0) in
      if has_usdt_quoted_source asset
      then (rated.1, convert_quotes_to_usd prices asset rated.0)
      else (st, prices)

  unfoldable pub note_rate : LoopState F → AssetConfig → F → LoopState F
  note_rate st asset median =
      if asset.symbol == usdt_usd_symbol then record st { usdt_usd = some median } else st

module _ {F : Type 0} ⦃f : Float64 F⦄ (crypto : Crypto) where
  -- The path by order books: the cached price, if there is one. A loop without end is the outer none.
  unfoldable pub cob_price :
      LoopState F
      → AssetConfig
      → List (OrderBookSnapshot F)
      → FairValue F
      → ℕ
      → LoopState F × Option (CachedPrice F)
  cob_price st asset books fair reference_ms =
      let ts = seconds_of reference_ms in
      let rated = usdt_rate st ts in
      let mid = f.mul fair.price rated.0 in
      elim (to_fixed_point mid oracle_decimals) [
        | err e ↦ (rated.1, none)
        | ok fixed ↦ (
          rated.1,
          some (record {
            asset_symbol = asset.symbol;
            asset_id = crypto.keccak256 asset.symbol;
            price_fixed = fixed;
            price_human = mid;
            num_sources = fair.num_sources % 2 ^ 8;
            sources_hash = sources_hash crypto (hash_points ts books);
            signed_timestamp = ts;
          }),
        )
      ]

  unfoldable pub cob_from_books :
      LoopState F
      → AssetConfig
      → List (OrderBookSnapshot F)
      → Option (FairValue F)
      → LoopState F × Option (CachedPrice F)
  cob_from_books st asset books none = (st, none)
  cob_from_books st asset books (some fair) =
      elim (reference_of (map (λ b. b.exchange_timestamp_ms) books)) [
        | none ↦ (st, none)
        | some reference_ms ↦ cob_price st asset books fair reference_ms
      ]

  unfoldable pub cob_path :
      ℕ
      → (Bytes → Bytes)
      → LoopState F
      → BookMap F
      → AssetConfig
      → Option (LoopState F × Option (CachedPrice F))
  cob_path fuel to_uppercase st state asset =
      let books = read_books_from_state to_uppercase asset.symbol state in
      if is_cob_asset asset.symbol
      then Option.map (cob_from_books st asset books)
          (gated_consolidated_order_book fuel books asset.min_sources)
      else some (st, none)

  unfoldable pub cached_price : AssetConfig → List (PricePoint F) → ℕ → F → ℕ → CachedPrice F
  cached_price asset prices signed_ts median fixed = record {
    asset_symbol = asset.symbol;
    asset_id = crypto.keccak256 asset.symbol;
    price_fixed = fixed;
    price_human = median;
    num_sources = length prices % 2 ^ 8;
    sources_hash = sources_hash crypto prices;
    signed_timestamp = signed_ts;
  }

  unfoldable pub cache_price : LoopState F → AssetConfig → List (PricePoint F) → ℕ → F → LoopState F
  cache_price st asset prices signed_ts median = elim (to_fixed_point median oracle_decimals) [
    | err e ↦ st
    | ok fixed ↦ store_price st (cached_price asset prices signed_ts median fixed)
  ]

  unfoldable pub publish_median :
      LoopState F
      → AssetConfig
      → List (PricePoint F)
      → ℕ
      → Option (F × WeightingMode) × ℕ
      → LoopState F
  publish_median st asset prices signed_ts (none, fallbacks) = record st {
    equal_weight_fallbacks = fallbacks;
  }
  publish_median st asset prices signed_ts (some (median, mode), fallbacks) =
      cache_price (note_rate (record st { equal_weight_fallbacks = fallbacks }) asset median) asset
        prices signed_ts median

  unfoldable pub publish : LoopState F → AssetConfig → List (PricePoint F) × Option ℕ → LoopState F
  publish st asset (prices, none) = st
  publish st asset (prices, some signed_ts) =
      if ltb (length prices) asset.min_sources
      then st
      else publish_median st asset prices signed_ts
          (weighted_median prices st.equal_weight_fallbacks)

  unfoldable pub rest_path : LoopState F → AssetConfig → List (PricePoint F) → LoopState F
  rest_path st asset raw_prices =
      let rated = in_usd st asset (sanitize raw_prices) in
      let kept =
        reject_outliers_with_cap rated.1 (f.of_decimal 3 0) asset.deviation_threshold_bps in
      if ltb (length rated.1) asset.min_sources
      then rated.0
      else publish rated.0 asset (reject_time_outliers kept)

  unfoldable pub after_cob :
      AssetConfig → List (PricePoint F) → LoopState F × Option (CachedPrice F) → LoopState F
  after_cob asset raw_prices (st, some cached) = store_price st cached
  after_cob asset raw_prices (st, none) = rest_path st asset raw_prices

  -- The body of the loop for one asset.
  unfoldable pub run_asset :
      ℕ
      → (Bytes → Bytes)
      → LoopState F
      → BookMap F
      → AssetConfig
      → List (PricePoint F)
      → Option (LoopState F)
  run_asset fuel to_uppercase st state asset raw_prices =
      Option.map (after_cob asset raw_prices) (cob_path fuel to_uppercase st state asset)

  -- One pass over the assets, with the books and the samples that each of them finds.
  unfoldable pub run_assets :
      ℕ
      → (Bytes → Bytes)
      → (AssetConfig → BookMap F)
      → (AssetConfig → List (PricePoint F))
      → LoopState F
      → List AssetConfig
      → Option (LoopState F)
  run_assets fuel to_uppercase books_at fetch_all st [] = some st
  run_assets fuel to_uppercase books_at fetch_all st (asset ∷ rest) =
      Option.bind (run_asset fuel to_uppercase st (books_at asset) asset (fetch_all asset))
        (λ next. run_assets fuel to_uppercase books_at fetch_all next rest)

  -- One turn of the loop. The peg is probed first, and only for the log.
  unfoldable pub run_cycle :
      ℕ
      → (Bytes → Bytes)
      → BookMap F
      → (AssetConfig → BookMap F)
      → (AssetConfig → List (PricePoint F))
      → LoopState F
      → List AssetConfig
      → Option (LoopState F)
  run_cycle fuel to_uppercase books_before books_at fetch_all st assets =
      Option.bind (usdt_peg_ok fuel to_uppercase books_before usdt_peg_min_sources) (λ peg.
        run_assets fuel to_uppercase books_at fetch_all (record st { usdt_usd = none })
          (ordered_assets assets))
