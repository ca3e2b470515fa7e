-- ===== src/Float.antt =====
-- Rust's `f64`, a parameter: what the price path does with it. `of_decimal m e` is the literal
-- `m / 10^e`, an `as` conversion to an integer saturates and sends NaN to 0, and an `i64` is its
-- two's-complement word.
use kaskad_nuntius.Prelude.{ℕ, Bool, List, [], ◌∷◌}
use kaskad_nuntius.Policy.{Bytes}

pub record Float64 (F : Type 0) : Type 0 where
  pub of_decimal : ℕ → ℕ → F
  pub of_nat : ℕ → F
  pub of_i64 : ℕ → F
  pub infinity : F
  pub add : F → F → F
  pub sub : F → F → F
  pub mul : F → F → F
  pub div : F → F → F
  pub fmin : F → F → F
  pub abs : F → F
  pub round : F → F
  pub lt : F → F → Bool
  pub le : F → F → Bool
  pub feq : F → F → Bool
  pub is_finite : F → Bool
  pub is_nan : F → Bool
  pub to_u64 : F → ℕ
  pub to_u128 : F → ℕ
  pub to_i64 : F → ℕ
  pub to_be_bytes : F → Bytes

module _ {F : Type 0} ⦃f : Float64 F⦄ where
  abbrev pub nought : F
  nought = f.of_decimal 0 0

  unfoldable pub sum_from : F → List F → F
  sum_from total [] = total
  sum_from total (x ∷ xs) = sum_from (f.add total x) xs

  -- `iter().sum()`
  unfoldable pub sum : List F → F
  sum xs = sum_from nought xs
