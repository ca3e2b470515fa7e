-- ===== src/Aggregator/Tests.antt =====
-- Runs of src/aggregator/mod.rs on small samples.
use mathlib.Core.Option
use kaskad_nuntius.Prelude.{
  ℕ, ◌*◌, ◌^◌, ◌≡◌, refl, List, [], ◌∷◌, some, ok, true, false, All, arith, sort_by, place,
  ascending,
}
use kaskad_nuntius.Samples.Numbers.{Toy, nan, plus, toy_float, toy-MinLaws}
use kaskad_nuntius.Float.{nought, sum, sum_from}
use kaskad_nuntius.Aggregator.{
  PricePoint, sanitize, reject_time_outliers, is_sane, median_server_time, clean_volume, median_of,
  middle_mean, near,
}
use kaskad_nuntius.Aggregator.Weights.{
  volume_weighted, weighted_median, pick, median_sorted, mode_of, mean_of, sort_floats, use_volume,
  weighted, weight_of, volume_cap, positive_volumes,
}
use kaskad_nuntius.Aggregator.Outliers.{
  distance, cap_of, within, reject_outliers, reject_outliers_with_cap, to_fixed_point,
  mad_threshold_of, max_sane_price, median_price, mad_of, scale_price,
}
use kaskad_nuntius.Aggregator.Limits.{middle, mad_limit, reject_outliers_with_cap-within}

abbrev pub dollars : ℕ → Toy
dollars n = plus (n * 10 ^ 16)

abbrev pub sample : ℕ → ℕ → PricePoint Toy
sample price time = record {
  price = dollars price;
  volume = dollars 1;
  source = time ∷ [];
  server_time = time;
}

-- Three honest clocks and one from the far future.
abbrev pub samples : List (PricePoint Toy)
samples = sample 100 1000 ∷ sample 101 1010 ∷ sample 102 9999999 ∷ sample 99 1020 ∷ []

sanitize_drops :
    sanitize (record (sample 1 5) { price = nan } ∷ sample 2 0 ∷ sample 3 7 ∷ []) ≡ sample 3 7 ∷ []
unfolding sanitize is_sane clean_volume
sanitize_drops = refl

clock_survives : (reject_time_outliers samples).1 ≡ some 1010
unfolding reject_time_outliers median_server_time median_of middle_mean Option.bind ascending
    sort_by place near
clock_survives = refl

median_weighted : (weighted_median samples 0) ≡ (some (dollars 100, volume_weighted), 0)
unfolding weighted_median pick mode_of use_volume weighted sort_by place sum sum_from weight_of
    volume_cap median_sorted positive_volumes mean_of sort_floats
median_weighted = refl

fixed_point : to_fixed_point (plus (15 * 10 ^ 15)) 8 ≡ ok 150000000
unfolding to_fixed_point max_sane_price scale_price
fixed_point = refl

-- A positive price below half of the last decimal is encoded as 0.
fixed_point_zero : to_fixed_point (plus (10 ^ 7)) 8 ≡ ok 0
unfolding to_fixed_point max_sane_price scale_price
fixed_point_zero = refl

cap_rejects :
    reject_outliers_with_cap (sample 100 1 ∷ sample 100 2 ∷ sample 106 3 ∷ []) (dollars 3) 500
    ≡ sample 100 1 ∷ sample 100 2 ∷ []
unfolding reject_outliers_with_cap within mad_threshold_of mad_of median_price median_sorted
    sort_floats sort_by place distance cap_of
cap_rejects = refl

-- Four prices, of which one is 6 % above the others.
abbrev priced_samples : List (PricePoint Toy)
priced_samples = sample 100 1 ∷ sample 101 2 ∷ sample 106 3 ∷ sample 99 4 ∷ []

limit_1 : toy_float.is_nan (mad_limit (dollars 3) priced_samples) ≡ false
unfolding cap_of mad_threshold_of mad_of median_price median_sorted sort_floats sort_by place
    mean_of distance
limit_1 = refl

limit_2 : toy_float.le nought (mad_limit (dollars 3) priced_samples) ≡ true
unfolding cap_of mad_threshold_of mad_of median_price median_sorted sort_floats sort_by place
    mean_of distance
limit_2 = refl

cap_1 : toy_float.is_nan (cap_of (middle priced_samples) 500) ≡ false
unfolding cap_of median_price median_sorted mean_of sort_floats sort_by place
cap_1 = refl

cap_2 : toy_float.le nought (cap_of (middle priced_samples) 500) ≡ true
unfolding cap_of median_price median_sorted mean_of sort_floats sort_by place
cap_2 = refl

finite_cap : toy_float.is_finite (cap_of (middle priced_samples) 500) ≡ true
unfolding cap_of median_price median_sorted mean_of sort_floats sort_by place
finite_cap = refl

reject_outliers_with_cap-within_example :
    (reject_outliers_with_cap priced_samples (dollars 3) 500
      ≡ within
          (toy_float.fmin
            (mad_limit (dollars 3) priced_samples)
            (cap_of (middle priced_samples) 500))
          (middle priced_samples)
          (reject_outliers priced_samples (dollars 3)))
    × All
        (λ p.
          toy_float.le
            (distance (middle priced_samples) p.price)
            (cap_of (middle priced_samples) 500)
          ≡ true)
        (reject_outliers_with_cap priced_samples (dollars 3) 500)
reject_outliers_with_cap-within_example =
    reject_outliers_with_cap-within toy-MinLaws priced_samples (dollars 3) 500 (omega arith) limit_1
      limit_2 cap_1 cap_2 finite_cap
