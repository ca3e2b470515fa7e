-- ===== src/Aggregator/Weights.antt =====
-- The weighted median and the rejection of outlying prices in src/aggregator/mod.rs. The counters of
-- fallbacks are passed as state.
use kaskad_nuntius.Prelude.{
  ℕ, ◌+◌, ◌-◌, ◌*◌, ◌/◌, ◌%◌, ◌^◌, Bool, true, List, [], ◌∷◌, map, Option, none, some, ltb, nat_beq,
  length, get_elem?, filter, count, sort_by, if◌then◌else◌,
}
use mathlib.Core.Option
use kaskad_nuntius.Float.{Float64, nought, sum}
use kaskad_nuntius.Aggregator.{PricePoint}

pub data WeightingMode : Type 0 where
  volume_weighted equal_fallback : WeightingMode

-- The multiple of the median volume at which a source's weight is capped.
abbrev pub volume_weight_cap_factor : ℕ
volume_weight_cap_factor = 5

-- Indexing of a slice that is long enough; elsewhere the source panics.
abbrev pub at_or : {A : Type 0} → A → Option A → A
at_or default none = default
at_or default (some a) = a

module _ {F : Type 0} ⦃f : Float64 F⦄ where
  unfoldable pub sort_floats : List F → List F
  sort_floats = sort_by f.lt

  unfoldable pub mean_of : Option F → Option F → Option F
  mean_of (some low) (some high) = some (f.div (f.add low high) (f.of_decimal 2 0))
  mean_of _ _ = none

  unfoldable pub median_sorted : List F → Option F
  median_sorted values =
      let sorted = sort_floats values in
      let n = length values in
      if nat_beq (n % 2) 0
      then mean_of (get_elem? sorted (n / 2 - 1)) (get_elem? sorted (n / 2))
      else get_elem? sorted (n / 2)

  unfoldable pub positive_volumes : List (PricePoint F) → List F
  positive_volumes prices = map (λ p. p.volume) (filter (λ p. f.lt nought p.volume) prices)

  unfoldable pub use_volume : List (PricePoint F) → Bool
  use_volume prices = ltb (length prices) (count (λ p. f.lt nought p.volume) prices * 2)

  unfoldable pub volume_cap : List (PricePoint F) → Option F
  volume_cap prices =
      if use_volume prices
      then Option.map (λ m. f.mul m (f.of_decimal volume_weight_cap_factor 0))
          (median_sorted (positive_volumes prices))
      else none

  unfoldable pub weight_of : Bool → Option F → PricePoint F → F
  weight_of true (some cap) p =
      if f.lt nought p.volume then f.fmin p.volume cap else f.of_decimal 1 0
  weight_of _ _ p = f.of_decimal 1 0

  unfoldable pub weighted : List (PricePoint F) → List (F × F)
  weighted prices =
      sort_by (λ a b. f.lt a.0 b.0)
        (map (λ p. (p.price, weight_of (use_volume prices) (volume_cap prices) p)) prices)

  -- The first price at which the weights so far reach half; the last price if none does.
  unfoldable pub pick : F → F → F → List (F × F) → F
  pick half cumulative last [] = last
  pick half cumulative last ((price, weight) ∷ rest) =
      let reached = f.add cumulative weight in
      let later = pick half reached price rest in if f.le half reached then price else later

  unfoldable pub mode_of : List (PricePoint F) → WeightingMode
  mode_of prices = if use_volume prices then volume_weighted else equal_fallback

  -- The median with its mode, and the count of fallbacks, a wrapping `u64`.
  unfoldable pub weighted_median : List (PricePoint F) → ℕ → Option (F × WeightingMode) × ℕ
  weighted_median [] fallbacks = (none, fallbacks)
  weighted_median (p ∷ []) fallbacks = (some (p.price, volume_weighted), fallbacks)
  weighted_median (p ∷ q ∷ rest) fallbacks =
      let prices = p ∷ q ∷ rest in
      let entries = weighted prices in
      let half = f.div (sum (map (λ e. e.1) entries)) (f.of_decimal 2 0) in
      (
        some (pick half nought p.price entries, mode_of prices),
        if use_volume prices then fallbacks else (fallbacks + 1) % 2 ^ 64,
      )
