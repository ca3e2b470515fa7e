-- ===== src/Aggregator/Outliers.antt =====
-- The rejection of outlying prices, the fixed-point conversion and the source hash of
-- src/aggregator/mod.rs.
use kaskad_nuntius.Prelude.{
  ℕ, ◌-◌, ◌%◌, ◌^◌, not, ◌||◌, List, [], ◌∷◌, ◌++◌, map, Result, ok, err, ltb, nat_beq, length,
  filter, if◌then◌else◌,
}
use kaskad_nuntius.Policy.{Bytes}
use kaskad_nuntius.Crypto.{Crypto}
use kaskad_nuntius.Float.{Float64, nought}
use kaskad_nuntius.Aggregator.{PricePoint}
use kaskad_nuntius.Aggregator.Weights.{median_sorted, sort_floats, at_or}

pub data PriceError : Type 0 where
  non_finite non_positive not_sane overflows_u128 : PriceError

module _ {F : Type 0} ⦃f : Float64 F⦄ where
  -- `median_sorted` of a list that is not empty
  unfoldable pub median_price : List F → F
  median_price values = at_or nought (median_sorted values)

  unfoldable pub distance : F → F → F
  distance median price = f.abs (f.sub price median)

  unfoldable pub cap_of : F → ℕ → F
  cap_of median cap_bps =
      if nat_beq cap_bps 0
      then f.infinity
      else f.div (f.mul (f.abs median) (f.of_nat cap_bps)) (f.of_decimal 10000 0)

  unfoldable pub mad_threshold_of : F → F → F
  mad_threshold_of sigma mad =
      if f.lt mad (f.of_decimal 1 10)
      then f.infinity
      else f.mul (f.mul sigma (f.of_decimal 14826 4)) mad

  unfoldable pub mad_of : List (PricePoint F) → F → F
  mad_of prices median =
      median_price (map (distance median) (sort_floats (map (λ p. p.price) prices)))

  unfoldable pub within : F → F → List (PricePoint F) → List (PricePoint F)
  within threshold median prices =
      if f.is_finite threshold
      then filter (λ p. f.le (distance median p.price) threshold) prices
      else prices

  unfoldable pub reject_outliers_with_cap : List (PricePoint F) → F → ℕ → List (PricePoint F)
  reject_outliers_with_cap prices sigma cap_bps =
      let median = median_price (map (λ p. p.price) prices) in
      let mad_threshold = mad_threshold_of sigma (mad_of prices median) in
      if ltb (length prices) 3
      then prices
      else within (f.fmin mad_threshold (cap_of median cap_bps)) median prices

  unfoldable pub reject_outliers : List (PricePoint F) → F → List (PricePoint F)
  reject_outliers prices sigma = reject_outliers_with_cap prices sigma 0

  -- The greatest price that is signed, 1e20.
  unfoldable pub max_sane_price : F
  max_sane_price = f.of_decimal (10 ^ 20) 0

  unfoldable pub scale_price : F → F → Result PriceError ℕ
  scale_price price multiplier =
      let scaled = f.mul price multiplier in
      if not (f.is_finite scaled) || f.lt scaled nought || f.lt (f.of_nat (2 ^ 128 - 1)) scaled
      then err overflows_u128
      else ok (f.to_u128 (f.round scaled))

  unfoldable pub to_fixed_point : F → ℕ → Result PriceError ℕ
  to_fixed_point price decimals =
      if not (f.is_finite price)
      then err non_finite
      else if f.le price nought
      then err non_positive
      else if f.lt max_sane_price price
      then err not_sane
      else scale_price price (f.of_nat (10 ^ decimals % 2 ^ 64))

  unfoldable pub hashed_bytes : List (PricePoint F) → Bytes
  hashed_bytes [] = []
  hashed_bytes (p ∷ rest) = p.source ++ 124 ∷ f.to_be_bytes p.price ++ hashed_bytes rest

  unfoldable pub sources_hash : Crypto → List (PricePoint F) → Bytes
  sources_hash crypto prices = crypto.keccak256 (hashed_bytes prices)
