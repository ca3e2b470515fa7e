-- ===== src/Prelude/Unique.antt =====
-- Lists without repetition, by the Boolean equality of their elements.
use mathlib.Core.Path.{◌≡◌, refl}
use mathlib.Core.Bool.{true, false, ◌||◌}
use mathlib.Core.List.{List, [], ◌∷◌, ◌++◌}
use Prim.Native.Nat.{suc, ◌≤◌}
use native.Mathlib.Omega.{arith}
use kaskad_nuntius.Prelude.Tests.{if◌then◌else◌}
use kaskad_nuntius.Prelude.Lists.{length, All}
use kaskad_nuntius.Prelude.Equality.{Eq, ◌==◌, contains}

module _ {ℓ} {A : Type ℓ} ⦃e : Eq A⦄ where
  abbrev pub Distinct : List A → Type 0
  Distinct [] = Unit
  Distinct (x ∷ xs) = (contains xs x ≡ false) × Distinct xs

  pub contains-append :
      (xs ys : List A) (a : A) → contains (xs ++ ys) a ≡ (contains xs a || contains ys a)
  unfolding contains
  contains-append [] ys a = refl
  contains-append (x ∷ xs) ys a = ground (arith, contains-append xs ys a)

  pub contains-snoc :
      (xs : List A) (a b : A) → contains (xs ++ a ∷ []) b ≡ (contains xs b || b == a)
  unfolding contains
  contains-snoc [] a b = ground arith
  contains-snoc (x ∷ xs) a b = ground (arith, contains-snoc xs a b)

  pub Distinct-snoc :
      (xs : List A) (a : A) → contains xs a ≡ false → Distinct xs → Distinct (xs ++ a ∷ [])
  unfolding contains
  Distinct-snoc [] a h d = (refl, tt)
  Distinct-snoc (x ∷ xs) a h d =
      ground (arith, contains-snoc xs a x, e.eq_exact x a, e.eq_exact a x, Distinct-snoc xs a)

  erase : A → List A → List A
  erase a [] = []
  erase a (x ∷ xs) = if a == x then xs else x ∷ erase a xs

  length-erase :
      (a : A) (xs : List A) → contains xs a ≡ true → length xs ≡ suc (length (erase a xs))
  unfolding contains erase
  length-erase a [] h = cc
  length-erase a (x ∷ xs) h = ground (arith, length-erase a xs)

  contains-erase :
      (a b : A) (xs : List A)
      → (b == a) ≡ false
      → contains xs b ≡ true
      → contains (erase a xs) b ≡ true
  unfolding contains erase
  contains-erase a b [] ne h = cc
  contains-erase a b (x ∷ xs) ne h =
      ground (arith, contains-erase a b xs ne, e.eq_exact b x, e.eq_exact a x, e.eq_exact b a)

  All-erase :
      (a : A) (xs ys : List A)
      → contains xs a ≡ false
      → All (λ x. contains ys x ≡ true) xs
      → All (λ x. contains (erase a ys) x ≡ true) xs
  unfolding contains
  All-erase a [] ys n h = tt
  All-erase a (x ∷ xs) ys n h = (
    contains-erase a x ys (ground (arith, e.eq_exact x a, e.eq_exact a x)) h.0,
    All-erase a xs ys (ground arith) h.1,
  )

  -- A list without repetition, all of whose elements lie in another, is no longer than that one.
  pub length-Distinct-le :
      (xs ys : List A) → Distinct xs → All (λ x. contains ys x ≡ true) xs → length xs ≤ length ys
  length-Distinct-le [] ys d h = omega arith
  length-Distinct-le (x ∷ xs) ys d h = omega (
    arith,
    length-erase x ys h.0,
    length-Distinct-le xs (erase x ys) d.1 (All-erase x xs ys d.0 h.1),
  )

  pub All-snoc {κ} : (P : A → Type κ) (xs : List A) (a : A) → All P xs → P a → All P (xs ++ a ∷ [])
  All-snoc P [] a h p = (p, tt)
  All-snoc P (x ∷ xs) a h p = (h.0, All-snoc P xs a h.1 p)

  pub All-of_contains {κ} :
      (P : A → Type κ) (xs : List A) → ((a : A) → contains xs a ≡ true → P a) → All P xs
  unfolding contains
  All-of_contains P [] h = tt
  All-of_contains P (x ∷ xs) h =
      (h x (ground (arith, e.eq_exact x x)), All-of_contains P xs (λ a q. h a (ground arith)))

  pub All-map {κ μ} :
      (P : A → Type κ) (Q : A → Type μ) (xs : List A) → ((a : A) → P a → Q a) → All P xs → All Q xs
  All-map P Q [] f h = tt
  All-map P Q (x ∷ xs) f h = (f x h.0, All-map P Q xs f h.1)
