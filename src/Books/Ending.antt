-- ===== src/Books/Ending.antt =====
-- When the clearing loop of src/cob.rs ends.
use kaskad_nuntius.Prelude.{
  ℕ, zero, suc, ◌+◌, ◌≤◌, ◌≡◌, refl, ◌⊎◌, inl, inr, true, false, [], ◌∷◌, none, some, ap, length,
  All, Bool-cases, arith,
}
use kaskad_nuntius.Float.{Float64, nought}
use kaskad_nuntius.Books.Clearing.{Levels, key_before, take_from, clear}

abbrev pub IsClearable : {F : Type 0} ⦃f : Float64 F⦄ → ℕ × F → Type 0
IsClearable ⦃f⦄ level = (f.is_finite level.1 ≡ true) × (f.le nought level.1 ≡ true)

-- What the loop relies on of finite quantities that are not negative.
pub record FiniteLaws (F : Type 0) ⦃f : Float64 F⦄ : Type 0 where
  pub fmin-choice :
      (a b : F) → f.is_finite a ≡ true → f.is_finite b ≡ true → (f.fmin a b ≡ a) ⊎ (f.fmin a b ≡ b)
  pub sub-self :
      (a : F) → f.is_finite a ≡ true → f.lt (f.abs (f.sub a a)) (f.of_decimal 1 15) ≡ true
  pub sub-left :
      (a b : F)
      → (f.is_finite a ≡ true) × (f.le nought a ≡ true)
      → (f.is_finite b ≡ true) × (f.le nought b ≡ true)
      → (f.is_finite (f.sub a (f.fmin a b)) ≡ true) × (f.le nought (f.sub a (f.fmin a b)) ≡ true)
  pub sub-right :
      (a b : F)
      → (f.is_finite a ≡ true) × (f.le nought a ≡ true)
      → (f.is_finite b ≡ true) × (f.le nought b ≡ true)
      → (f.is_finite (f.sub b (f.fmin a b)) ≡ true) × (f.le nought (f.sub b (f.fmin a b)) ≡ true)

module _ {F : Type 0} ⦃f : Float64 F⦄ where
  -- The best bid is below the best ask, or a side is empty.
  abbrev pub IsUncrossed : Levels F × Levels F → Type 0
  IsUncrossed ([], asks) = Unit
  IsUncrossed (bid ∷ bids, []) = Unit
  IsUncrossed (bid ∷ bids, ask ∷ asks) = key_before bid.0 ask.0 ≡ true

  take_from-all :
      (key : ℕ) (total v : F)
      → f.lt (f.abs (f.sub total v)) (f.of_decimal 1 15) ≡ true
      → (rest : Levels F) → take_from key total v rest ≡ rest
  unfolding take_from
  take_from-all key total v h rest = rw h refl

  length-take_from :
      (key : ℕ) (total v : F) (rest : Levels F)
      → length (take_from key total v rest) ≤ suc (length rest)
  unfolding take_from
  length-take_from key total v rest = ground arith

  All-take_from :
      (key : ℕ) (total v : F) (rest : Levels F)
      → IsClearable (key, f.sub total v)
      → All IsClearable rest
      → All IsClearable (take_from key total v rest)
  unfolding take_from
  All-take_from key total v rest c a =
      elim (Bool-cases (f.lt (f.abs (f.sub total v)) (f.of_decimal 1 15))) [
        | inl e ↦ rw e a
        | inr e ↦ rw e (c, a)
      ]

module _ {F : Type 0} ⦃f : Float64 F⦄ (laws : FiniteLaws F) where
  -- each round empties a level
  round-shrinks :
      (kb ka : ℕ) (vb va : F) (bids asks : Levels F)
      → f.is_finite vb ≡ true
      → f.is_finite va ≡ true
      → length (take_from kb vb (f.fmin vb va) bids) + length (take_from ka va (f.fmin vb va) asks)
        ≤ suc (length bids + length asks)
  round-shrinks kb ka vb va bids asks hb ha = elim (laws.fmin-choice vb va hb ha) [
    | inl e ↦ omega (
      arith,
      length-take_from ka va (f.fmin vb va) asks,
      ap length (take_from-all kb vb (f.fmin vb va) (rw e (laws.sub-self vb hb)) bids),
    )
    | inr e ↦ omega (
      arith,
      length-take_from kb vb (f.fmin vb va) bids,
      ap length (take_from-all ka va (f.fmin vb va) (rw e (laws.sub-self va ha)) asks),
    )
  ]

  -- When all quantities are finite and not negative, the loop ends within as many rounds as there are
  -- levels, and what it leaves is not crossed.
  pub clear-ends :
      (fuel : ℕ) (bids asks : Levels F)
      → All IsClearable bids
      → All IsClearable asks
      → length bids + length asks ≤ fuel
      → (left : Levels F × Levels F) × (clear fuel bids asks ≡ some left) × IsUncrossed left
  unfolding clear
  clear-ends fuel [] asks hb ha n = (([], asks), refl, tt)
  clear-ends fuel (bid ∷ bids) [] hb ha n = ((bid ∷ bids, []), refl, tt)
  clear-ends zero (bid ∷ bids) (ask ∷ asks) hb ha n = absurd (omega arith)
  clear-ends (suc fuel) ((kb, vb) ∷ bids) ((ka, va) ∷ asks) hb ha n =
      elim (Bool-cases (key_before kb ka)) [
        | inl e ↦ (((kb, vb) ∷ bids, (ka, va) ∷ asks), rw e refl, e)
        | inr e ↦
            let v = f.fmin vb va in
            rw e (
              clear-ends fuel (take_from kb vb v bids) (take_from ka va v asks)
                (All-take_from kb vb v bids (laws.sub-left vb va hb.0 ha.0) hb.1)
                (All-take_from ka va v asks (laws.sub-right vb va hb.0 ha.0) ha.1)
                (omega (arith, round-shrinks kb ka vb va bids asks hb.0.0 ha.0.0)))
      ]

-- What IEEE 754 says of quantities that are NaN or infinite.
abbrev pub IsEndless : {F : Type 0} ⦃f : Float64 F⦄ → F → Type 0
IsEndless ⦃f⦄ a = (f.is_nan a ≡ true) ⊎ (a ≡ f.infinity)

pub record EndlessLaws (F : Type 0) ⦃f : Float64 F⦄ : Type 0 where
  pub sub-left : (a b : F) → IsEndless a → IsEndless b → f.is_nan (f.sub a (f.fmin a b)) ≡ true
  pub sub-right : (a b : F) → IsEndless a → IsEndless b → f.is_nan (f.sub b (f.fmin a b)) ≡ true
  pub lt-nan : (a b : F) → f.is_nan a ≡ true → f.lt (f.abs a) b ≡ false

module _ {F : Type 0} ⦃f : Float64 F⦄ (laws : EndlessLaws F) where
  -- When the best bid and the best ask cross and the quantity of each is NaN or infinite, the loop
  -- ends on no fuel: both levels stay, with the quantity NaN.
  pub clear-endless :
      (fuel kb ka : ℕ) (vb va : F) (bids asks : Levels F)
      → key_before kb ka ≡ false
      → IsEndless vb
      → IsEndless va
      → clear fuel ((kb, vb) ∷ bids) ((ka, va) ∷ asks) ≡ none
  unfolding clear take_from
  clear-endless zero kb ka vb va bids asks k hb ha = rw k refl
  clear-endless (suc fuel) kb ka vb va bids asks k hb ha =
      let nb = laws.sub-left vb va hb ha in
      let na = laws.sub-right vb va hb ha in
      rw (k, laws.lt-nan _ (f.of_decimal 1 15) nb, laws.lt-nan _ (f.of_decimal 1 15) na)
        (clear-endless fuel kb ka _ _ bids asks k (inl nb) (inl na))
