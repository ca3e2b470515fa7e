-- ===== src/Cycle/Publishing.antt =====
-- What the oracle loop of src/main.rs puts into the store.
pub mod Isolation
use mathlib.Core.Option
use kaskad_nuntius.Chain.Text.{or_else}
use kaskad_nuntius.Prelude.{
  ℕ, ◌+◌, ◌%◌, ◌^◌, ◌≤◌, ◌<◌, ◌≡◌, refl, sym, ap, subst, ◌∙◌, ◌⊎◌, inl, inr, List, Option, none,
  some, ok, Result-cases, ltb, length, MostlyIn, Bool-cases, Option-cases, arith,
}
use kaskad_nuntius.Crypto.{Crypto}
use kaskad_nuntius.Float.{Float64}
use kaskad_nuntius.Aggregator.{
  PricePoint, AssetConfig, sanitize, median_server_time, reject_time_outliers,
}
use kaskad_nuntius.Aggregator.Clock.{times_of, reject_time_outliers-in}
use kaskad_nuntius.Aggregator.Weights.{WeightingMode, weighted_median}
use kaskad_nuntius.Aggregator.Outliers.{reject_outliers_with_cap, to_fixed_point, sources_hash}
use kaskad_nuntius.Cycle.{
  CachedPrice, LoopState, PriceStore, oracle_decimals, put_price, store_price, assume_peg,
  usdt_rate, in_usd, cached_rate, note_rate, cached_price, cache_price, publish_median, publish,
  rest_path,
}

-- What is known of a price that the venues' samples gave: a quorum of samples, an encodable price and
-- the clock of the samples.
abbrev pub IsBacked :
    {F : Type 0} ⦃f : Float64 F⦄
    → Crypto
    → AssetConfig
    → List (PricePoint F)
    → Option ℕ
    → CachedPrice F
    → Type 0
IsBacked crypto asset prices clock cached =
    (cached.asset_symbol ≡ asset.symbol)
    × (asset.min_sources ≤ length prices)
    × (cached.num_sources ≡ length prices % 2 ^ 8)
    × (to_fixed_point cached.price_human oracle_decimals ≡ ok cached.price_fixed)
    × (cached.sources_hash ≡ sources_hash crypto prices)
    × (clock ≡ some cached.signed_timestamp)

module _ {F : Type 0} ⦃f : Float64 F⦄ where
  store-note_rate :
      (st : LoopState F) (asset : AssetConfig) (median : F)
      → (note_rate st asset median).store ≡ st.store
  unfolding note_rate
  store-note_rate st asset median = ground arith

  store-assume_peg : (rate : Option F) (st : LoopState F) → (assume_peg rate st).1.store ≡ st.store
  unfolding assume_peg
  store-assume_peg none st = refl
  store-assume_peg (some rate) st = refl

  pub store-usdt_rate : (st : LoopState F) (ref_ts : ℕ) → (usdt_rate st ref_ts).1.store ≡ st.store
  unfolding usdt_rate assume_peg
  store-usdt_rate st ref_ts = elim (Option-cases st.usdt_usd) [
    | inl h ↦ rw (usdt_rate, h) (store-assume_peg (cached_rate st.store ref_ts) st)
    | inr (r, h) ↦ rw (usdt_rate, h) refl
  ]

  store-in_usd :
      (st : LoopState F) (asset : AssetConfig) (prices : List (PricePoint F))
      → (in_usd st asset prices).0.store ≡ st.store
  unfolding in_usd
  store-in_usd st asset prices =
      ground (arith, store-usdt_rate st (Option.get_or (median_server_time prices) 0))

-- The samples in dollars whose prices are not rejected.
abbrev pub priced :
    {F : Type 0} ⦃f : Float64 F⦄
    → LoopState F
    → AssetConfig
    → List (PricePoint F)
    → List (PricePoint F)
priced ⦃f⦄ st asset raw =
    reject_outliers_with_cap (in_usd st asset (sanitize raw)).1 (f.of_decimal 3 0)
      asset.deviation_threshold_bps

module _ {F : Type 0} ⦃f : Float64 F⦄ (crypto : Crypto) where
  -- The store is as it was, or it has one new price, which the samples back.
  abbrev pub IsPublished :
      AssetConfig → List (PricePoint F) → Option ℕ → PriceStore F → LoopState F → Type 0
  IsPublished asset prices clock before after =
      (after.store ≡ before)
      ⊎ ((cached : CachedPrice F) × (after.store ≡ put_price asset.symbol cached before)
          × IsBacked crypto asset prices clock cached)

  cache_price-outcome :
      (st : LoopState F) (asset : AssetConfig) (prices : List (PricePoint F)) (ts : ℕ) (median : F)
      → asset.min_sources ≤ length prices
      → IsPublished asset prices (some ts) st.store (cache_price crypto st asset prices ts median)
  unfolding cached_price cache_price put_price store_price
  cache_price-outcome st asset prices ts median q =
      elim (Result-cases (to_fixed_point median oracle_decimals)) [
        | inr (e, h) ↦ inl (rw (cache_price, h) refl)
        | inl (fixed, h) ↦ inr (
          cached_price crypto asset prices ts median fixed,
          rw (cache_price, store_price, h) refl,
          (refl, q, refl, h, refl, refl),
        )
      ]

  publish_median-outcome :
      (st : LoopState F) (asset : AssetConfig) (prices : List (PricePoint F)) (ts : ℕ)
      (chosen : Option (F × WeightingMode) × ℕ)
      → asset.min_sources ≤ length prices
      → IsPublished asset prices
          (some ts)
          st.store
          (publish_median crypto st asset prices ts chosen)
  unfolding publish_median
  publish_median-outcome st asset prices ts (none, n) q = inl refl
  publish_median-outcome st asset prices ts (some (median, mode), n) q =
      let noted = note_rate (record st { equal_weight_fallbacks = n }) asset median in
      subst
        (λ s.
          IsPublished asset prices (some ts) s (cache_price crypto noted asset prices ts median))
        (store-note_rate (record st { equal_weight_fallbacks = n }) asset median)
        (cache_price-outcome noted asset prices ts median q)

  publish-outcome :
      (st : LoopState F) (asset : AssetConfig) (sampled : List (PricePoint F) × Option ℕ)
      → IsPublished asset sampled.0 sampled.1 st.store (publish crypto st asset sampled)
  unfolding publish
  publish-outcome st asset (prices, none) = inl refl
  publish-outcome st asset (prices, some ts) =
      elim (Bool-cases (ltb (length prices) asset.min_sources)) [
        | inl h ↦ rw h (inl refl)
        | inr h ↦ rw h (
            publish_median-outcome st asset prices ts
              (weighted_median prices st.equal_weight_fallbacks) (ground arith))
      ]

  -- The path by the venues' samples leaves the store as it was or puts one price under the asset's own
  -- symbol. That price has at least the required number of samples behind it, all of which passed the
  -- rejection of prices and of clocks, its fixed-point form is the encoding of its value, its hash is
  -- theirs, and its time is the median of their clocks.
  pub rest_path-IsPublished :
      (st : LoopState F) (asset : AssetConfig) (raw_prices : List (PricePoint F))
      → IsPublished asset
          (reject_time_outliers (priced st asset raw_prices)).0
          (reject_time_outliers (priced st asset raw_prices)).1
          st.store
          (rest_path crypto st asset raw_prices)
  unfolding rest_path
  rest_path-IsPublished st asset raw =
      let rated = in_usd st asset (sanitize raw) in
      elim (Bool-cases (ltb (length rated.1) asset.min_sources)) [
        | inl h ↦ rw h (inl (store-in_usd st asset (sanitize raw)))
        | inr h ↦ rw h (
            subst
              (λ s.
                IsPublished asset (reject_time_outliers (priced st asset raw)).0
                  (reject_time_outliers (priced st asset raw)).1 s
                  (publish crypto rated.0 asset (reject_time_outliers (priced st asset raw))))
              (store-in_usd st asset (sanitize raw))
              (publish-outcome rated.0 asset (reject_time_outliers (priced st asset raw))))
      ]

  -- When the clocks of more than half of the samples whose prices are not rejected lie in a range of at
  -- most 300 seconds, the path by the samples leaves the store as it was or puts a price under the
  -- asset's symbol whose time lies in the range.
  pub rest_path-clock :
      (lo hi : ℕ) (st : LoopState F) (asset : AssetConfig) (raw_prices : List (PricePoint F))
      → hi < 2 ^ 63
      → hi ≤ lo + 300
      → MostlyIn lo hi (times_of (priced st asset raw_prices))
      → ((rest_path crypto st asset raw_prices).store ≡ st.store)
        ⊎ ((cached : CachedPrice F) × ((rest_path crypto st asset raw_prices).store
              ≡ put_price asset.symbol cached st.store)
            × (lo ≤ cached.signed_timestamp)
            × (cached.signed_timestamp ≤ hi))
  rest_path-clock lo hi st asset raw b w m =
      let clocked = reject_time_outliers-in lo hi (priced st asset raw) b w m in
      elim (rest_path-IsPublished st asset raw) [
        | inl h ↦ inl h
        | inr (cached, h, backed) ↦
            let same : clocked.1.0 ≡ cached.signed_timestamp =
              ap (λ o. or_else o 0) (sym clocked.1.1 ∙ backed.5) in
            inr (cached, h, rw⁻¹ same clocked.1.2, rw⁻¹ same clocked.1.3)
      ]
