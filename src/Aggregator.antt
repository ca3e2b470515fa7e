-- ===== src/Aggregator.antt =====
-- src/aggregator/mod.rs: from the venues' samples to one price and one clock. `PricePoint`, `Quote`
-- and `AssetConfig` are those of src/types.rs.
pub mod Clock
pub mod Choice
pub mod Limits
pub mod Weights
pub mod Outliers
mod Tests
use kaskad_nuntius.Prelude.{
  ℕ, ◌+◌, ◌-◌, ◌*◌, ◌/◌, ◌%◌, ◌^◌, min, max, Bool, true, false, not, ◌&&◌, ◌||◌, List, [], ◌∷◌, map,
  Option, none, some, Result, ok, err, ltb, leb, nat_beq, length, get_elem?, filter, ascending,
  ◌==◌, nat_eq, list_eq, if◌then◌else◌,
}
use mathlib.Core.Option
use kaskad_nuntius.Policy.{Bytes}
use kaskad_nuntius.Float.{Float64, nought}

pub record PricePoint (F : Type 0) : Type 0 where
  pub price : F
  pub volume : F
  pub source : Bytes
  pub server_time : ℕ

pub data Quote : Type 0 where
  usd usdt : Quote

pub record SourceMapping : Type 0 where
  pub pair : Bytes
  pub quote : Quote

pub record AssetConfig : Type 0 where
  pub symbol : Bytes
  pub min_sources : ℕ
  pub deviation_threshold_bps : ℕ
  pub sources : List (Bytes × SourceMapping)

-- The seconds by which a venue's clock may differ from the median of the clocks.
abbrev pub max_time_drift_secs : ℕ
max_time_drift_secs = 300

-- The mean of the two middle ones of `n` times, as `u64`.
unfoldable pub middle_mean : List ℕ → ℕ → Option ℕ
middle_mean times n =
    Option.bind (get_elem? times (n / 2 - 1))
      λ below. Option.map (λ above. (below + above) % 2 ^ 64 / 2) (get_elem? times (n / 2))

unfoldable pub median_of : List ℕ → Option ℕ
median_of [] = none
median_of (t ∷ ts) =
    let times = ascending (t ∷ ts) in
    let n = length (t ∷ ts) in
    if nat_beq (n % 2) 0 then middle_mean times n else get_elem? times (n / 2)

unfoldable pub near : ℕ → ℕ → Bool
near median time = leb (max time median - min time median) max_time_drift_secs

unfoldable pub mapping_of : List (Bytes × SourceMapping) → Bytes → Option SourceMapping
mapping_of [] source = none
mapping_of ((name, mapping) ∷ rest) source =
    if name == source then some mapping else mapping_of rest source

unfoldable pub quote_of : AssetConfig → Bytes → Option Quote
quote_of asset source = Option.map (λ m. m.quote) (mapping_of asset.sources source)

unfoldable pub is_usdt : Option Quote → Bool
is_usdt (some usdt) = true
is_usdt _ = false

module _ {F : Type 0} ⦃f : Float64 F⦄ where
  unfoldable pub clean_volume : PricePoint F → PricePoint F
  clean_volume p =
      if not (f.is_finite p.volume) || f.lt p.volume nought then record p { volume = nought } else p

  unfoldable pub is_sane : PricePoint F → Bool
  is_sane p = f.is_finite p.price && f.lt nought p.price && ltb 0 p.server_time

  unfoldable pub sanitize : List (PricePoint F) → List (PricePoint F)
  sanitize prices = map clean_volume (filter is_sane prices)

  unfoldable pub convert_quotes_to_usd : List (PricePoint F) → AssetConfig → F → List (PricePoint F)
  convert_quotes_to_usd prices asset usdt_usd =
      if not (f.is_finite usdt_usd) || f.le usdt_usd nought
      then prices
      else map
          (λ p.
            if is_usdt (quote_of asset p.source)
            then record p { price = f.mul p.price usdt_usd }
            else p)
          prices

  unfoldable pub median_server_time : List (PricePoint F) → Option ℕ
  median_server_time prices = median_of (map (λ p. p.server_time) prices)

  unfoldable pub reject_time_outliers : List (PricePoint F) → List (PricePoint F) × Option ℕ
  reject_time_outliers prices = elim (median_server_time prices) [
    | none ↦ (prices, none)
    | some median ↦
        let kept = filter (λ p. near median p.server_time) prices in (kept, median_server_time kept)
  ]
