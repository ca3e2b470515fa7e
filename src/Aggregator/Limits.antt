-- ===== src/Aggregator/Limits.antt =====
-- Which prices the outlier rejection of src/aggregator/mod.rs keeps.
use kaskad_nuntius.Prelude.{
  ℕ, ◌≤◌, ◌≡◌, refl, true, false, ◌||◌, inl, inr, List, [], ◌∷◌, map, length, All, filter,
  Bool-cases, arith,
}
use kaskad_nuntius.Float.{Float64, nought}
use kaskad_nuntius.Aggregator.{PricePoint}
use kaskad_nuntius.Aggregator.Outliers.{
  median_price, distance, cap_of, mad_threshold_of, mad_of, within, reject_outliers_with_cap,
  reject_outliers,
}

-- What the code relies on of `f64::min` and of infinity.
pub record MinLaws (F : Type 0) ⦃f : Float64 F⦄ : Type 0 where
  pub infinity-is_finite : f.is_finite f.infinity ≡ false
  pub fmin-infinity : (a : F) → f.is_nan a ≡ false → f.fmin a f.infinity ≡ a
  pub fmin-left :
      (a b x : F)
      → f.is_nan a ≡ false
      → f.is_nan b ≡ false
      → f.le x (f.fmin a b) ≡ true
      → f.le x a ≡ true
  pub fmin-right :
      (a b x : F)
      → f.is_nan a ≡ false
      → f.is_nan b ≡ false
      → f.le x (f.fmin a b) ≡ true
      → f.le x b ≡ true
  pub fmin-is_finite :
      (a b : F)
      → f.le nought a ≡ true
      → f.le nought b ≡ true
      → f.is_finite (f.fmin a b) ≡ (f.is_finite a || f.is_finite b)

module _ {F : Type 0} ⦃f : Float64 F⦄ where
  abbrev pub middle : List (PricePoint F) → F
  middle ps = median_price (map (λ p. p.price) ps)

  abbrev pub mad_limit : F → List (PricePoint F) → F
  mad_limit sigma ps = mad_threshold_of sigma (mad_of ps (middle ps))

module _ {F : Type 0} ⦃f : Float64 F⦄ (laws : MinLaws F) where
  -- the samples that the tighter of two thresholds keeps
  filter-narrower :
      (median a b : F) (ps : List (PricePoint F))
      → f.is_nan a ≡ false
      → f.is_nan b ≡ false
      → filter (λ p. f.le (distance median p.price) (f.fmin a b)) ps
        ≡ filter
            (λ p. f.le (distance median p.price) (f.fmin a b))
            (filter (λ p. f.le (distance median p.price) a) ps)
  filter-narrower median a b [] na nb = refl
  filter-narrower median a b (p ∷ ps) na nb = ground (
    arith,
    filter-narrower median a b ps na nb,
    laws.fmin-left a b (distance median p.price) na nb,
  )

  All-filter :
      (median a b : F) (ps : List (PricePoint F))
      → f.is_nan a ≡ false
      → f.is_nan b ≡ false
      → All
          (λ p. f.le (distance median p.price) b ≡ true)
          (filter (λ p. f.le (distance median p.price) (f.fmin a b)) ps)
  All-filter median a b [] na nb = tt
  All-filter median a b (p ∷ ps) na nb =
      elim (Bool-cases (f.le (distance median p.price) (f.fmin a b))) [
        | inl e ↦
            rw e (
              laws.fmin-right a b (distance median p.price) na nb e,
              All-filter median a b ps na nb,
            )
        | inr e ↦ rw e (All-filter median a b ps na nb)
      ]

  within-narrower :
      (median a b : F) (ps : List (PricePoint F))
      → f.is_nan a ≡ false
      → f.is_nan b ≡ false
      → f.le nought a ≡ true
      → f.le nought b ≡ true
      → within (f.fmin a b) median ps ≡ within (f.fmin a b) median (within a median ps)
  unfolding within
  within-narrower median a b ps na nb pa pb =
      ground (arith, laws.fmin-is_finite a b pa pb, filter-narrower median a b ps na nb)

  with_cap-eq :
      (ps : List (PricePoint F)) (sigma : F) (cap_bps : ℕ)
      → 3 ≤ length ps
      → reject_outliers_with_cap ps sigma cap_bps
        ≡ within (f.fmin (mad_limit sigma ps) (cap_of (middle ps) cap_bps)) (middle ps) ps
  unfolding reject_outliers_with_cap
  with_cap-eq ps sigma cap_bps n = ground arith

  alone-eq :
      (ps : List (PricePoint F)) (sigma : F)
      → 3 ≤ length ps
      → f.is_nan (mad_limit sigma ps) ≡ false
      → reject_outliers ps sigma ≡ within (mad_limit sigma ps) (middle ps) ps
  unfolding reject_outliers cap_of
  alone-eq ps sigma n na =
      let median = middle ps in rw (with_cap-eq ps sigma 0 n) (rw (laws.fmin-infinity _ na) refl)

  All-within :
      (median a b : F) (ps : List (PricePoint F))
      → f.is_nan a ≡ false
      → f.is_nan b ≡ false
      → f.is_finite (f.fmin a b) ≡ true
      → All (λ p. f.le (distance median p.price) b ≡ true) (within (f.fmin a b) median ps)
  unfolding within
  All-within median a b ps na nb fin = rw fin (All-filter median a b ps na nb)

  -- Of three samples or more, with thresholds that are numbers and not negative and a finite cap, the
  -- cap only drops samples: what is kept is what the MAD threshold alone keeps, less the samples beyond
  -- the tighter of the two thresholds, and all that is kept is within the cap of the median.
  pub reject_outliers_with_cap-within :
      (ps : List (PricePoint F)) (sigma : F) (cap_bps : ℕ)
      → 3 ≤ length ps
      → f.is_nan (mad_limit sigma ps) ≡ false
      → f.le nought (mad_limit sigma ps) ≡ true
      → f.is_nan (cap_of (middle ps) cap_bps) ≡ false
      → f.le nought (cap_of (middle ps) cap_bps) ≡ true
      → f.is_finite (cap_of (middle ps) cap_bps) ≡ true
      → (reject_outliers_with_cap ps sigma cap_bps
          ≡ within
              (f.fmin (mad_limit sigma ps) (cap_of (middle ps) cap_bps))
              (middle ps)
              (reject_outliers ps sigma))
        × All
            (λ p. f.le (distance (middle ps) p.price) (cap_of (middle ps) cap_bps) ≡ true)
            (reject_outliers_with_cap ps sigma cap_bps)
  reject_outliers_with_cap-within ps sigma cap_bps n na pa nb pb fin =
      let median = middle ps in
      let a = mad_limit sigma ps in
      let b = cap_of median cap_bps in
      let with_cap : reject_outliers_with_cap ps sigma cap_bps ≡ within (f.fmin a b) median ps =
        with_cap-eq ps sigma cap_bps n in
      let alone : reject_outliers ps sigma ≡ within a median ps = alone-eq ps sigma n na in
      rw (with_cap, alone)
        (
          within-narrower median a b ps na nb pa pb,
          All-within median a b ps na nb (ground (arith, laws.fmin-is_finite a b pa pb)),
        )
