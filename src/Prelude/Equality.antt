-- ===== src/Prelude/Equality.antt =====
-- Types with a Boolean equality (`PartialEq` of the source), and membership by it.
use mathlib.Core.Path.{◌≡◌, refl}
use mathlib.Core.Logic.{◌↔◌}
use mathlib.Core.Bool.{Bool, true, false, ◌&&◌, ◌||◌}
use mathlib.Core.List.{List, [], ◌∷◌}
use Prim.Native.Nat.{ℕ}
use native.Mathlib.Omega.{arith}
use kaskad_nuntius.Prelude.Tests.{nat_beq, nat_beq_iff}

pub record Eq {ℓ} (A : Type ℓ) : Type ℓ where
  -- `PartialEq::eq`, which holds of equal values and of no others
  pub eq : A → A → Bool
  pub eq_exact : (x y : A) → (eq x y ≡ true) ↔ (x ≡ y)

module _ {ℓ} {A : Type ℓ} ⦃law : Eq A⦄ where
  infix 50 ◌==◌
  abbrev pub ◌==◌ : A → A → Bool
  ◌==◌ x y = law.eq x y

module _ {ℓ} {A : Type ℓ} ⦃law : Eq A⦄ (x y : A) where
  pub eq_iff : ((x == y) ≡ true) ↔ (x ≡ y)
  eq_iff = law.eq_exact x y

instance abbrev pub nat_eq : Eq ℕ
nat_eq = record { eq = nat_beq; eq_exact = nat_beq_iff }

module _ {ℓ} {A : Type ℓ} ⦃e : Eq A⦄ where
  unfoldable pub list_beq : List A → List A → Bool
  list_beq [] [] = true
  list_beq (x ∷ xs) (y ∷ ys) = x == y && list_beq xs ys
  list_beq _ _ = false

  pub list_beq_iff : (xs ys : List A) → (list_beq xs ys ≡ true) ↔ (xs ≡ ys)
  unfolding list_beq
  list_beq_iff [] [] = (λ h. refl, λ h. refl)
  list_beq_iff [] (y ∷ ys) = (λ h. cc, λ h. cc)
  list_beq_iff (x ∷ xs) [] = (λ h. cc, λ h. cc)
  list_beq_iff (x ∷ xs) (y ∷ ys) = ground (arith, e.eq_exact x y, list_beq_iff xs ys)

  -- `slice::contains`
  unfoldable pub contains : List A → A → Bool
  contains [] wanted = false
  contains (first ∷ rest) wanted = wanted == first || contains rest wanted

  pub eq_refl : (a : A) → (a == a) ≡ true
  eq_refl a = (e.eq_exact a a).1 refl

instance abbrev pub list_eq {ℓ} : {A : Type ℓ} ⦃e : Eq A⦄ → Eq (List A)
list_eq = record { eq = list_beq; eq_exact = list_beq_iff }
