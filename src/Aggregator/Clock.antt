-- ===== src/Aggregator/Clock.antt =====
-- The median of the venues' clocks in src/aggregator/mod.rs.
use mathlib.Core.Option
use kaskad_nuntius.Prelude.{
  outside, MostlyIn, middle-lo, middle-hi, nth, ℕ, ◌+◌, ◌-◌, ◌/◌, ◌%◌, ◌^◌, ◌≤◌, ◌<◌, ◌≡◌, refl,
  inl, inr, Bool, not, List, [], ◌∷◌, map, some, nat_beq, length, get_elem?, filter, count,
  ascending, Bool-cases, arith, if◌then◌else◌,
}
use kaskad_nuntius.Float.{Float64}
use kaskad_nuntius.Aggregator.{
  PricePoint, median_of, middle_mean, near, median_server_time, reject_time_outliers,
}

middle_mean-eq :
    (times : List ℕ) (n : ℕ) {x y : ℕ}
    → get_elem? times (n / 2 - 1) ≡ some x
    → get_elem? times (n / 2) ≡ some y
    → middle_mean times n ≡ some ((x + y) % 2 ^ 64 / 2)
unfolding middle_mean Option.bind
middle_mean-eq times n p q = rw p (rw q refl)

median_of-eq :
    (times : List ℕ)
    → 0 < length times
    → median_of times ≡ (
        if nat_beq (length times % 2) 0
        then middle_mean (ascending times) (length times)
        else get_elem? (ascending times) (length times / 2))
unfolding median_of
median_of-eq [] h = absurd (omega arith)
median_of-eq (t ∷ ts) h = refl

-- The median of clocks that mostly lie in a range lies in it.
pub median_of-in :
    (lo hi : ℕ) (times : List ℕ)
    → hi < 2 ^ 63
    → MostlyIn lo hi times
    → (m : ℕ) × (median_of times ≡ some m) × (lo ≤ m) × (m ≤ hi)
median_of-in lo hi times b m = elim (Bool-cases (nat_beq (length times % 2) 0)) [
  | inl e ↦
      let n : ℕ = length times in
      let x = nth times (n / 2 - 1) (ground arith) in
      let y = nth times (n / 2) (ground arith) in
      let x_lo = middle-lo lo hi (n / 2 - 1) times m (ground arith) x.1 in
      let x_hi = middle-hi lo hi (n / 2 - 1) times m (ground arith) x.1 in
      let y_lo = middle-lo lo hi (n / 2) times m (ground arith) y.1 in
      let y_hi = middle-hi lo hi (n / 2) times m (ground arith) y.1 in
      (
        (x.0 + y.0) % 2 ^ 64 / 2,
        rw (median_of-eq times (ground arith)) (rw e (middle_mean-eq (ascending times) n x.1 y.1)),
        omega (arith, x_lo, x_hi, y_lo, y_hi),
        omega (arith, x_lo, x_hi, y_lo, y_hi),
      )
  | inr e ↦
      let n : ℕ = length times in
      let x = nth times (n / 2) (ground arith) in
      (
        x.0,
        rw (median_of-eq times (ground arith)) (rw e x.1),
        middle-lo lo hi (n / 2) times m (ground arith) x.1,
        middle-hi lo hi (n / 2) times m (ground arith) x.1,
      )
]

module _ {F : Type 0} where
  abbrev pub times_of : List (PricePoint F) → List ℕ
  times_of = map (λ p. p.server_time)

  length-filter :
      (lo hi m : ℕ) (ps : List (PricePoint F))
      → lo ≤ m
      → m ≤ hi
      → hi ≤ lo + 300
      → length (times_of (filter (λ p. near m p.server_time) ps))
          + count (outside lo hi) (times_of ps)
        ≡ length (times_of ps)
          + count (outside lo hi) (times_of (filter (λ p. near m p.server_time) ps))
  unfolding near
  length-filter lo hi m [] l h w = refl
  length-filter lo hi m (p ∷ ps) l h w = ground (arith, length-filter lo hi m ps l h w)

  count-filter :
      (q : ℕ → Bool) (m : ℕ) (ps : List (PricePoint F))
      → count q (times_of (filter (λ p. near m p.server_time) ps)) ≤ count q (times_of ps)
  count-filter q m [] = omega arith
  count-filter q m (p ∷ ps) = ground (arith, count-filter q m ps)

  filter-near :
      (lo hi m : ℕ) (ps : List (PricePoint F))
      → lo ≤ m
      → m ≤ hi
      → hi ≤ lo + 300
      → filter (λ p. not (outside lo hi p.server_time)) (filter (λ p. near m p.server_time) ps)
        ≡ filter (λ p. not (outside lo hi p.server_time)) ps
  unfolding near
  filter-near lo hi m [] l h w = refl
  filter-near lo hi m (p ∷ ps) l h w = ground (arith, filter-near lo hi m ps l h w)

module _ {F : Type 0} ⦃f : Float64 F⦄ where
  reject_time_outliers-eq :
      (ps : List (PricePoint F)) {m : ℕ}
      → median_of (times_of ps) ≡ some m
      → reject_time_outliers ps ≡ (
        filter (λ p. near m p.server_time) ps,
        median_of (times_of (filter (λ p. near m p.server_time) ps)),
      )
  unfolding reject_time_outliers median_server_time
  reject_time_outliers-eq ps h = rw (reject_time_outliers, median_server_time, h) refl

  -- When the clocks of more than half of the samples lie in a range of at most 300 seconds, rejecting
  -- the outliers drops no sample whose clock lies in the range, and the clock that it returns lies in
  -- the range, wherever the other samples put theirs.
  pub reject_time_outliers-in :
      (lo hi : ℕ) (ps : List (PricePoint F))
      → hi < 2 ^ 63
      → hi ≤ lo + 300
      → MostlyIn lo hi (times_of ps)
      → (filter (λ p. not (outside lo hi p.server_time)) (reject_time_outliers ps).0
          ≡ filter (λ p. not (outside lo hi p.server_time)) ps)
        × ((clock : ℕ) × ((reject_time_outliers ps).1 ≡ some clock) × (lo ≤ clock) × (clock ≤ hi))
  reject_time_outliers-in lo hi ps b w m =
      let first = median_of-in lo hi (times_of ps) b m in
      let kept = filter (λ p. near first.0 p.server_time) ps in
      let mostly : MostlyIn lo hi (times_of kept) = omega (
        arith,
        first.2,
        first.3,
        length-filter lo hi first.0 ps first.2 first.3 w,
        count-filter (outside lo hi) first.0 ps,
      ) in
      rw (reject_time_outliers-eq ps first.1) (
        filter-near lo hi first.0 ps first.2 first.3 w,
        median_of-in lo hi (times_of kept) b mostly,
      )
