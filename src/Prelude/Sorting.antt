-- ===== src/Prelude/Sorting.antt =====
-- The stable `sort_by` of slices, on a test that says when one element comes before another.
use Prim.Native.Nat.{ℕ, zero, suc, ◌+◌, ◌≤◌, ◌<◌}
use mathlib.Core.Path.{◌≡◌, refl}
use mathlib.Core.Bool.{Bool}
use mathlib.Core.Logic.{inl, inr}
use mathlib.Core.Option.{some}
use mathlib.Core.List.{List, [], ◌∷◌}
use native.Mathlib.Omega.{arith}
use kaskad_nuntius.Prelude.Tests.{ltb, if◌then◌else◌, Bool-cases}
use kaskad_nuntius.Prelude.Lists.{length, get_elem?, All}

module _ {ℓ} {A : Type ℓ} where
  -- `filter` of an iterator, and `retain`.
  abbrev pub filter : (A → Bool) → List A → List A
  filter p [] = []
  filter p (x ∷ xs) = if p x then x ∷ filter p xs else filter p xs

  -- how many elements pass
  abbrev pub count : (A → Bool) → List A → ℕ
  count p [] = 0
  count p (x ∷ xs) = if p x then suc (count p xs) else count p xs

  unfoldable pub place : (A → A → Bool) → A → List A → List A
  place before x [] = x ∷ []
  place before x (y ∷ ys) = if before y x then y ∷ place before x ys else x ∷ y ∷ ys

  unfoldable pub sort_by : (A → A → Bool) → List A → List A
  sort_by before [] = []
  sort_by before (x ∷ xs) = place before x (sort_by before xs)

  count-place :
      (p : A → Bool) (before : A → A → Bool) (x : A) (ys : List A)
      → count p (place before x ys) ≡ count p (x ∷ ys)
  unfolding place
  count-place p before x [] = refl
  count-place p before x (y ∷ ys) = ground (arith, count-place p before x ys)

  pub count-sort_by :
      (p : A → Bool) (before : A → A → Bool) (xs : List A)
      → count p (sort_by before xs) ≡ count p xs
  unfolding sort_by
  count-sort_by p before [] = refl
  count-sort_by p before (x ∷ xs) =
      ground (arith, count-place p before x (sort_by before xs), count-sort_by p before xs)

  length-place :
      (before : A → A → Bool) (x : A) (ys : List A) → length (place before x ys) ≡ suc (length ys)
  unfolding place
  length-place before x [] = refl
  length-place before x (y ∷ ys) = ground (arith, length-place before x ys)

  pub length-sort_by :
      (before : A → A → Bool) (xs : List A) → length (sort_by before xs) ≡ length xs
  unfolding sort_by
  length-sort_by before [] = refl
  length-sort_by before (x ∷ xs) =
      ground (arith, length-place before x (sort_by before xs), length-sort_by before xs)

  pub count-le-length : (p : A → Bool) (xs : List A) → count p xs ≤ length xs
  count-le-length p [] = omega arith
  count-le-length p (x ∷ xs) = ground (arith, count-le-length p xs)

module _ {ℓ κ} {A : Type ℓ} (P : A → Type κ) where
  All-placed :
      (before : A → A → Bool) (x : A) (ys : List A) → P x → All P ys → All P (place before x ys)
  unfolding place
  All-placed before x [] p a = (p, tt)
  All-placed before x (y ∷ ys) p a = elim (Bool-cases (before y x)) [
    | inl e ↦ rw e (a.0, All-placed before x ys p a.1)
    | inr e ↦ rw e (p, a)
  ]

  pub All-sort_by : (before : A → A → Bool) (xs : List A) → All P xs → All P (sort_by before xs)
  unfolding sort_by
  All-sort_by before [] a = tt
  All-sort_by before (x ∷ xs) a =
      All-placed before x (sort_by before xs) a.0 (All-sort_by before xs a.1)

-- Ascending lists of numbers.
unfoldable pub ascending : List ℕ → List ℕ
ascending = sort_by ltb

abbrev pub Ascending : List ℕ → Type 0
Ascending [] = Unit
Ascending (x ∷ xs) = All (λ y. x ≤ y) xs × Ascending xs

All-place :
    (bound x : ℕ) (ys : List ℕ)
    → bound ≤ x
    → All (λ y. bound ≤ y) ys
    → All (λ y. bound ≤ y) (place ltb x ys)
unfolding place
All-place b x [] h a = (h, tt)
All-place b x (y ∷ ys) h a = elim (Bool-cases (ltb y x)) [
  | inl e ↦ rw e (a.0, All-place b x ys h a.1)
  | inr e ↦ rw e (h, a)
]

All-weaken :
    (low bound : ℕ) (ys : List ℕ) → low ≤ bound → All (λ y. bound ≤ y) ys → All (λ y. low ≤ y) ys
All-weaken low b [] h a = tt
All-weaken low b (y ∷ ys) h a = (omega (arith, a.0), All-weaken low b ys h a.1)

Ascending-place : (x : ℕ) (ys : List ℕ) → Ascending ys → Ascending (place ltb x ys)
unfolding place
Ascending-place x [] s = (tt, tt)
Ascending-place x (y ∷ ys) s = elim (Bool-cases (ltb y x)) [
  | inl h ↦ rw h (All-place y x ys (ground arith) s.0, Ascending-place x ys s.1)
  | inr h ↦ let le : x ≤ y = ground arith in rw h ((le, All-weaken x y ys le s.0), s)
]

pub ascending-Ascending : (xs : List ℕ) → Ascending (ascending xs)
unfolding ascending sort_by
ascending-Ascending [] = tt
ascending-Ascending (x ∷ xs) = Ascending-place x (sort_by ltb xs) (ascending-Ascending xs)

count-All-le :
    (hi bound : ℕ) (ys : List ℕ)
    → hi < bound
    → All (λ y. bound ≤ y) ys
    → count (ltb hi) ys ≡ length ys
count-All-le hi b [] h a = refl
count-All-le hi b (y ∷ ys) h a = ground (arith, a.0, count-All-le hi b ys h a.1)

get_elem?-All :
    (bound : ℕ) (ys : List ℕ) (i : ℕ) {x : ℕ}
    → All (λ y. bound ≤ y) ys
    → get_elem? ys i ≡ some x
    → bound ≤ x
get_elem?-All b [] i a e = cc
get_elem?-All b (y ∷ ys) zero a e = ground (arith, a.0)
get_elem?-All b (y ∷ ys) (suc i) a e = get_elem?-All b ys i a.1 e

-- An element below `lo` has every element before it below `lo`.
pub count-low :
    (lo : ℕ) (xs : List ℕ) (i : ℕ) {x : ℕ}
    → Ascending xs
    → get_elem? xs i ≡ some x
    → x < lo
    → i < count (λ t. ltb t lo) xs
count-low lo [] i s e h = cc
count-low lo (y ∷ ys) zero s e h = ground arith
count-low lo (y ∷ ys) (suc i) s e h =
    ground (arith, count-low lo ys i s.1 e h, get_elem?-All y ys i s.0 e)

-- An element above `hi` has every element after it above `hi`.
pub count-high :
    (hi : ℕ) (xs : List ℕ) (i : ℕ) {x : ℕ}
    → Ascending xs
    → get_elem? xs i ≡ some x
    → hi < x
    → length xs ≤ i + count (ltb hi) xs
count-high hi [] i s e h = cc
count-high hi (y ∷ ys) zero s e h = ground (arith, count-All-le hi y ys (ground arith) s.0)
count-high hi (y ∷ ys) (suc i) s e h = ground (arith, count-high hi ys i s.1 e h)

pub get_elem?-some {ℓ} :
    {A : Type ℓ} (xs : List A) (i : ℕ) → i < length xs → (a : A) × (get_elem? xs i ≡ some a)
get_elem?-some [] i h = absurd (omega arith)
get_elem?-some (x ∷ xs) zero h = (x, refl)
get_elem?-some (x ∷ xs) (suc i) h = get_elem?-some xs i (omega arith)
