-- ===== src/Prelude/Median.antt =====
-- The middle of a list of times, of which most lie in a range.
use Prim.Native.Nat.{ℕ, suc, ◌*◌, ◌≤◌, ◌<◌}
use mathlib.Core.Path.{◌≡◌}
use mathlib.Core.Logic.{inl, inr}
use mathlib.Core.Bool.{Bool, ◌||◌}
use mathlib.Core.Option.{some}
use mathlib.Core.List.{List, [], ◌∷◌}
use native.Mathlib.Omega.{arith}
use kaskad_nuntius.Prelude.Tests.{ltb, Bool-cases}
use kaskad_nuntius.Prelude.Lists.{length, get_elem?}
use kaskad_nuntius.Prelude.Sorting.{
  count, ascending, ascending-Ascending, count-sort_by, length-sort_by, count-low, count-high,
  get_elem?-some,
}

-- Whether a time lies outside a range.
abbrev pub outside : ℕ → ℕ → ℕ → Bool
outside lo hi t = ltb t lo || ltb hi t

-- More than half of the times lie in the range.
abbrev pub MostlyIn : ℕ → ℕ → List ℕ → Type 0
MostlyIn lo hi times = 2 * count (outside lo hi) times < length times

count-low-le : (lo hi : ℕ) (xs : List ℕ) → count (λ t. ltb t lo) xs ≤ count (outside lo hi) xs
count-low-le lo hi [] = omega arith
count-low-le lo hi (x ∷ xs) = ground (arith, count-low-le lo hi xs)

count-high-le : (lo hi : ℕ) (xs : List ℕ) → count (ltb hi) xs ≤ count (outside lo hi) xs
count-high-le lo hi [] = omega arith
count-high-le lo hi (x ∷ xs) = ground (arith, count-high-le lo hi xs)

pub middle-lo :
    (lo hi i : ℕ) (times : List ℕ) {x : ℕ}
    → MostlyIn lo hi times
    → length times ≤ 2 * suc i
    → get_elem? (ascending times) i ≡ some x
    → lo ≤ x
unfolding ascending
middle-lo lo hi i times {x} m h e = elim (Bool-cases (ltb x lo)) [
  | inr q ↦ ground arith
  | inl q ↦ absurd (
      omega (
        arith,
        count-low lo (ascending times) i (ascending-Ascending times) e (ground arith),
        count-sort_by (λ t. ltb t lo) ltb times,
        count-low-le lo hi times,
      ))
]

pub middle-hi :
    (lo hi i : ℕ) (times : List ℕ) {x : ℕ}
    → MostlyIn lo hi times
    → 2 * i ≤ length times
    → get_elem? (ascending times) i ≡ some x
    → x ≤ hi
unfolding ascending
middle-hi lo hi i times {x} m h e = elim (Bool-cases (ltb hi x)) [
  | inr q ↦ ground arith
  | inl q ↦ absurd (
      omega (
        arith,
        count-high hi (ascending times) i (ascending-Ascending times) e (ground arith),
        count-sort_by (ltb hi) ltb times,
        length-sort_by ltb times,
        count-high-le lo hi times,
      ))
]

pub nth :
    (times : List ℕ) (i : ℕ) → i < length times → (x : ℕ) × (get_elem? (ascending times) i ≡ some x)
unfolding ascending
nth times i h = get_elem?-some (ascending times) i (omega (arith, length-sort_by ltb times))
