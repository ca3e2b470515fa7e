-- ===== src/Cycle/Tests.antt =====
-- Turns of the oracle loop of src/main.rs on small samples and books.
use mathlib.Core.Option
use kaskad_nuntius.Prelude.{
  nat_eq, list_eq, ℕ, ◌*◌, ◌^◌, ◌≤◌, ◌≡◌, refl, ◌⊎◌, List, [], ◌∷◌, Option, none, some, length,
  arith, list_beq, ascending, place, sort_by, ok, err, find, All, ◌==◌, contains,
}
use kaskad_nuntius.Policy.{Bytes}
use kaskad_nuntius.Chain.Text.{ascii}
use kaskad_nuntius.Samples.{toy_crypto}
use kaskad_nuntius.Samples.Numbers.{Toy, plus, toy_float}
use kaskad_nuntius.Aggregator.{
  PricePoint, AssetConfig, SourceMapping, usdt, usd, reject_time_outliers, clean_volume,
  convert_quotes_to_usd, is_sane, is_usdt, mapping_of, median_of, median_server_time, middle_mean,
  near, quote_of, sanitize,
}
use kaskad_nuntius.Aggregator.Clock.{times_of}
use kaskad_nuntius.Books.{reference_of, middle_time}
use kaskad_nuntius.Cycle.{
  run_assets, ordered_assets, cob_path, after_cob, CachedPrice, LoopState, PriceStore, put_price,
  lookup_price, rest_path, run_asset, run_cycle, assume_peg, cache_price, cached_price, cached_rate,
  has_usdt_quoted_source, in_usd, note_rate, publish, publish_median, store_price, usdt_rate,
  usdt_usd_symbol,
}
use kaskad_nuntius.Books.Gate.{usdt_peg_ok, probe_usdc_mid}
use kaskad_nuntius.Books.Selection.{read_books_filtered, candidate_times}
use kaskad_nuntius.Books.Symbols.{is_cob_asset, is_empty, asset_to_collector_symbol}
use kaskad_nuntius.Cycle.Assets.{
  AssetsConfig, load_assets, IsSound, IsRated, too_few_sources, load_assets-IsSound, check_asset,
  check_assets, check_hostnames, check_pairs, check_rate, has_text, is_hostname, require,
}
use kaskad_nuntius.Cycle.Publishing.{IsPublished, priced, rest_path-IsPublished, rest_path-clock}
use kaskad_nuntius.Aggregator.Outliers.{
  cap_of, distance, hashed_bytes, mad_of, mad_threshold_of, max_sane_price, median_price,
  reject_outliers_with_cap, scale_price, sources_hash, to_fixed_point, within,
}
use kaskad_nuntius.Aggregator.Weights.{
  mean_of, median_sorted, mode_of, pick, positive_volumes, sort_floats, use_volume, volume_cap,
  weight_of, weighted, weighted_median,
}
use kaskad_nuntius.Float.{sum, sum_from}

abbrev pub dollar : ℕ → Toy
dollar n = plus (n * 10 ^ 16)

abbrev pub answer : ℕ → ℕ → ℕ → PricePoint Toy
answer venue price time = record {
  price = dollar price;
  volume = dollar 1;
  source = venue ∷ [];
  server_time = time;
}

-- Four venues, of which the last has a clock from the future.
abbrev pub answers : List (PricePoint Toy)
answers = answer 1 100 1000 ∷ answer 2 101 1010 ∷ answer 3 99 1020 ∷ answer 4 100 9999999 ∷ []

abbrev pub mapping : SourceMapping
mapping = record { pair = 7 ∷ []; quote = usd }

abbrev pub gold : AssetConfig
gold = record {
  symbol = ascii "XAU/USD";
  min_sources = 2;
  deviation_threshold_bps = 500;
  sources = (1 ∷ [], mapping) ∷ (2 ∷ [], mapping) ∷ (3 ∷ [], mapping) ∷ (4 ∷ [], mapping) ∷ [];
}

abbrev pub old_price : CachedPrice Toy
old_price = record {
  asset_symbol = ascii "SILVER/USD";
  asset_id = ascii "SILVER/USD";
  price_fixed = 3000000000;
  price_human = dollar 30;
  num_sources = 3;
  sources_hash = [];
  signed_timestamp = 900;
}

abbrev pub at_start : LoopState Toy
at_start = record {
  usdt_usd = none;
  store = (ascii "SILVER/USD", old_price) ∷ [];
  equal_weight_fallbacks = 0;
  usdt_rate_assumed = 0;
}

abbrev pub same_text : Bytes → Bytes
same_text text = text

abbrev time_of : Option (CachedPrice Toy) → ℕ
time_of none = 0
time_of (some cached) = cached.signed_timestamp

abbrev fixed_of : Option (CachedPrice Toy) → ℕ
fixed_of none = 0
fixed_of (some cached) = cached.price_fixed

abbrev after : LoopState Toy
after = rest_path toy_crypto at_start gold answers

gold_time : time_of (lookup_price (ascii "XAU/USD") after.store) ≡ 1010
unfolding rest_path lookup_price in_usd has_usdt_quoted_source is_usdt sanitize is_sane publish
    reject_time_outliers median_server_time median_of reject_outliers_with_cap within
    mad_threshold_of mad_of median_price median_sorted sort_floats cap_of distance hashed_bytes
    max_sane_price scale_price sources_hash to_fixed_point mean_of mode_of pick positive_volumes
    use_volume volume_cap weight_of weighted weighted_median clean_volume convert_quotes_to_usd
    mapping_of middle_mean near quote_of assume_peg cache_price cached_price cached_rate note_rate
    publish_median put_price store_price usdt_rate sum sum_from list_beq ascending place sort_by
    Option.bind
gold_time = refl

gold_price : fixed_of (lookup_price (ascii "XAU/USD") after.store) ≡ 10000000000
unfolding rest_path lookup_price in_usd has_usdt_quoted_source is_usdt sanitize is_sane publish
    reject_time_outliers median_server_time median_of reject_outliers_with_cap within
    mad_threshold_of mad_of median_price median_sorted sort_floats cap_of distance hashed_bytes
    max_sane_price scale_price sources_hash to_fixed_point mean_of mode_of pick positive_volumes
    use_volume volume_cap weight_of weighted weighted_median clean_volume convert_quotes_to_usd
    mapping_of middle_mean near quote_of assume_peg cache_price cached_price cached_rate note_rate
    publish_median put_price store_price usdt_rate sum sum_from list_beq ascending place sort_by
    Option.bind
gold_price = refl

rest_path-IsPublished_example :
    IsPublished toy_crypto gold
      (reject_time_outliers (priced at_start gold answers)).0
      (reject_time_outliers (priced at_start gold answers)).1
      at_start.store
      after
rest_path-IsPublished_example = rest_path-IsPublished toy_crypto at_start gold answers

times_mostly : times_of (priced at_start gold answers) ≡ 1000 ∷ 1010 ∷ 1020 ∷ 9999999 ∷ []
unfolding reject_outliers_with_cap in_usd has_usdt_quoted_source is_usdt sanitize is_sane within
    mad_threshold_of mad_of median_price median_sorted sort_floats sort_by place clean_volume
    mean_of distance cap_of convert_quotes_to_usd mapping_of median_of median_server_time
    middle_mean quote_of assume_peg cached_rate lookup_price usdt_rate list_beq ascending
    Option.bind
times_mostly = refl

rest_path-clock_example :
    (after.store ≡ at_start.store)
    ⊎ ((cached : CachedPrice Toy) × (after.store ≡ put_price gold.symbol cached at_start.store)
        × (1000 ≤ cached.signed_timestamp)
        × (cached.signed_timestamp ≤ 1030))
rest_path-clock_example =
    rest_path-clock toy_crypto 1000 1030 at_start gold answers (omega arith) (omega arith)
      (rw times_mostly (omega arith))

ran : run_asset toy_crypto 0 same_text at_start [] gold answers ≡ some after
unfolding run_asset cob_path is_cob_asset is_empty asset_to_collector_symbol list_beq rest_path
    after_cob
ran = refl

abbrev tether : AssetConfig
tether = record gold { symbol = ascii "USDT/USD" }

abbrev coin : AssetConfig
coin = record gold {
  symbol = ascii "DOGE/USD";
  sources = (1 ∷ [], record mapping { quote = usdt }) ∷ [];
}

abbrev one_dollar : List (PricePoint Toy)
one_dollar = answer 1 2 1000 ∷ answer 2 2 1010 ∷ answer 3 2 1020 ∷ []

-- The rate is taken first, although it comes last in the configuration, and then converts.
abbrev cycled : Option (LoopState Toy)
cycled =
    run_cycle toy_crypto 0 same_text [] (λ a. []) (λ a. one_dollar) at_start
      (record coin { min_sources = 1 } ∷ tether ∷ [])

abbrev store_of : Option (LoopState Toy) → PriceStore Toy
store_of none = []
store_of (some st) = st.store

rate_used : length (store_of cycled) ≡ 3
unfolding run_cycle Option.bind usdt_peg_ok probe_usdc_mid read_books_filtered reference_of
    middle_time candidate_times run_assets ordered_assets list_beq run_asset cob_path is_cob_asset
    is_empty asset_to_collector_symbol after_cob rest_path lookup_price in_usd
    has_usdt_quoted_source is_usdt sanitize is_sane publish reject_time_outliers median_server_time
    median_of reject_outliers_with_cap within mad_threshold_of mad_of median_price median_sorted
    sort_floats cap_of distance hashed_bytes max_sane_price scale_price sources_hash to_fixed_point
    mean_of mode_of pick positive_volumes use_volume volume_cap weight_of weighted weighted_median
    clean_volume convert_quotes_to_usd mapping_of middle_mean near quote_of assume_peg cache_price
    cached_price cached_rate note_rate publish_median put_price store_price usdt_rate sum sum_from
    ascending place sort_by
rate_used = refl

abbrev assets_config : AssetsConfig
assets_config = record { exchange_hostnames = (7 ∷ []) ∷ []; assets = gold ∷ tether ∷ [] }

assets_loaded : load_assets assets_config ≡ ok assets_config
unfolding load_assets require has_text check_hostnames is_hostname contains check_assets check_asset
    check_pairs check_rate list_beq has_usdt_quoted_source is_usdt
assets_loaded = refl

load_assets-IsSound_example :
    (assets_config ≡ assets_config)
    × All IsSound (gold ∷ tether ∷ [])
    × IsRated (gold ∷ tether ∷ []) (find (λ a. a.symbol == usdt_usd_symbol) (gold ∷ tether ∷ []))
load_assets-IsSound_example = load_assets-IsSound assets_config assets_loaded

rate_missing : load_assets (record assets_config { assets = coin ∷ [] }) ≡ err too_few_sources
unfolding load_assets require has_text check_hostnames is_hostname contains check_assets check_asset
rate_missing = refl
