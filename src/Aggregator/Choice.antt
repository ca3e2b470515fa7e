-- ===== src/Aggregator/Choice.antt =====
-- What the weighted median of src/aggregator/mod.rs chooses, and when it falls back.
use kaskad_nuntius.Prelude.{
  ℕ, ◌+◌, ◌*◌, ◌%◌, ◌^◌, ◌≤◌, ◌≡◌, refl, ◌↔◌, inl, inr, Bool, List, [], ◌∷◌, map, Option, some,
  length, All, All-sort_by, count, Bool-cases, arith,
}
use kaskad_nuntius.Float.{Float64, nought}
use kaskad_nuntius.Aggregator.{PricePoint}
use kaskad_nuntius.Aggregator.Weights.{
  WeightingMode, volume_weighted, equal_fallback, use_volume, weight_of, weighted, pick, mode_of,
  weighted_median,
}

module _ {F : Type 0} ⦃f : Float64 F⦄ (P : F → Type 0) where
  pick-holds :
      (half cumulative last : F) (entries : List (F × F))
      → P last
      → All {A = F × F} (λ e. P e.0) entries
      → P (pick half cumulative last entries)
  unfolding pick
  pick-holds half c last [] p a = p
  pick-holds half c last ((price, weight) ∷ rest) p a =
      elim (Bool-cases (f.le half (f.add c weight))) [
        | inl e ↦ rw e a.0
        | inr e ↦ rw e (pick-holds half (f.add c weight) price rest a.0 a.1)
      ]

  All-weighted :
      (by_volume : Bool) (limit : Option F) (ps : List (PricePoint F))
      → All (λ p. P p.price) ps
      → All {A = F × F} (λ e. P e.0) (map (λ p. (p.price, weight_of by_volume limit p)) ps)
  All-weighted by_volume limit [] a = tt
  All-weighted by_volume limit (p ∷ ps) a = (a.0, All-weighted by_volume limit ps a.1)

  -- The weighted median of two samples or more is the price of one of them: whatever holds of all their
  -- prices holds of it. It is in the mode for equal weights exactly when at most half of the samples have
  -- a positive volume, and it counts a fallback exactly then.
  pub weighted_median-holds :
      (p q : PricePoint F) (rest : List (PricePoint F)) (fallbacks : ℕ)
      → All (λ s. P s.price) (p ∷ q ∷ rest)
      → (m : F) × (mode : WeightingMode) × ((weighted_median (p ∷ q ∷ rest) fallbacks).0
          ≡ some (m, mode))
        × P m
        × ((mode ≡ equal_fallback)
            ↔ (2 * count (λ s. f.lt nought s.volume) (p ∷ q ∷ rest) ≤ length (p ∷ q ∷ rest)))
        × ((mode ≡ volume_weighted) → (weighted_median (p ∷ q ∷ rest) fallbacks).1 ≡ fallbacks)
        × ((mode ≡ equal_fallback)
            → (weighted_median (p ∷ q ∷ rest) fallbacks).1 ≡ (fallbacks + 1) % 2 ^ 64)
  unfolding weighted_median mode_of weighted use_volume
  weighted_median-holds p q rest n a = (
    _,
    _,
    refl,
    pick-holds _ nought p.price _ a.0
        (All-sort_by (λ e. P e.0) (λ a b. f.lt a.0 b.0) _ (All-weighted _ _ (p ∷ q ∷ rest) a)),
    ground arith,
    ground arith,
    ground arith,
  )
