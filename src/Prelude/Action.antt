-- ===== src/Prelude/Action.antt =====
-- Code that reads and changes a world and may fail: what has been done to the world stays done.
use mathlib.Core.Path.{◌≡◌, refl}
use kaskad_nuntius.Prelude.Outcome.{Result, ok, err}

abbrev pub Act : Type 0 → Type 0 → Type 0 → Type 0
Act W E A = W → Result E A × W

abbrev pub continue : {W E A B : Type 0} → (A → Act W E B) → Result E A × W → Result E B × W
continue f (ok a, w) = f a w
continue f (err e, w) = (err e, w)

infixl 5 ◌>>=◌
abbrev pub ◌>>=◌ : {W E A B : Type 0} → Act W E A → (A → Act W E B) → Act W E B
◌>>=◌ m f w = continue f (m w)

abbrev pub lift : {W E A : Type 0} → Result E A → Act W E A
lift r w = (r, w)

abbrev pub pure : {W E A : Type 0} → A → Act W E A
pure a w = (ok a, w)

abbrev pub raise : {W E A : Type 0} → E → Act W E A
raise e w = (err e, w)

-- A block that succeeds did so at each of its steps.
pub >>=-eq-ok :
    {W E A B : Type 0} (m : Act W E A) (f : A → Act W E B) (w : W) {b : B} {w' : W}
    → (m >>= f) w ≡ (ok b, w')
    → (a : A) × (w₁ : W) × (m w ≡ (ok a, w₁)) × (f a w₁ ≡ (ok b, w'))
>>=-eq-ok {W} {E} {A} m f w {b} {w'} h = go (m w) refl h
  where
    go :
        (r : Result E A × W)
        → m w ≡ r
        → continue f r ≡ (ok b, w')
        → (a : A) × (w₁ : W) × (m w ≡ (ok a, w₁)) × (f a w₁ ≡ (ok b, w'))
    go (ok a, w₁) e h = (a, w₁, e, h)
    go (err x, w₁) e h = cc
