-- ===== src/Boot/Rules.antt =====
-- What one decision of crates/keyex/src/boot.rs is worth.
use kaskad_nuntius.Prelude.{
  ◌≡◌, refl, ◌⊎◌, inl, inr, Bool, true, false, List, [], ◌∷◌, Option, none, some, ok, >>=-eq-ok,
  pure, All, Any, nat_eq, list_eq, arith, if◌then◌else◌,
}
use kaskad_nuntius.Policy.{Bytes}
use kaskad_nuntius.Boot.Tick.{
  Role, oracle, bridge, BootAction, install_peer_key, generate_candidate, install_candidate, wait,
  ChainView, TickInput, first_registered, decide, tick, role_rule, oracle_rule, eligible,
  head_or_wait,
}

module _ {World : Type 0} (view : ChainView World) where
  -- There is a world in which the registry answers that the address is registered.
  abbrev pub Listed : Bytes → Type 0
  Listed a = (w : World) × (w' : World) × (view.registered a w ≡ (ok true, w'))

  abbrev pub Unlisted : Bytes → Type 0
  Unlisted a = (w : World) × (w' : World) × (view.registered a w ≡ (ok false, w'))

  -- The loop over the sweep answers an address of the sweep that the registry lists, and nothing only
  -- after the registry has denied them all.
  abbrev Found : List Bytes → Option Bytes → Type 0
  Found l (some a) = Any (λ b. a ≡ b) l × Listed a
  Found l none = All Unlisted l

  Found-cons :
      (b : Bytes) (l : List Bytes) (r : Option Bytes) → Unlisted b → Found l r → Found (b ∷ l) r
  Found-cons b l (some a) u h = (inr h.0, h.1)
  Found-cons b l none u h = (u, h)

  -- One round of the loop, given what the rest of it finds.
  Found-round :
      (b : Bytes) (l : List Bytes) (w w₁ w' : World) (listed : Bool) (r : Option Bytes)
      → view.registered b w ≡ (ok listed, w₁)
      → (if listed then pure (some b) else first_registered view l) w₁ ≡ (ok r, w')
      → (first_registered view l w₁ ≡ (ok r, w') → Found l r)
      → Found (b ∷ l) r
  Found-round b l w w₁ w' true (some a) p h rest = let e : a ≡ b = cc in (inl e, rw e (w, w₁, p))
  Found-round b l w w₁ w' true none p h rest = cc
  Found-round b l w w₁ w' false r p h rest = Found-cons b l r (w, w₁, p) (rest h)

  first_registered_lem :
      (l : List Bytes) (w w' : World) (r : Option Bytes)
      → first_registered view l w ≡ (ok r, w')
      → Found l r
  unfolding first_registered
  first_registered_lem [] w w' none h = tt
  first_registered_lem [] w w' (some a) h = cc
  first_registered_lem (b ∷ l) w w' r h =
      let (listed, w₁, p, h₁) = >>=-eq-ok (view.registered b) _ w h in
      Found-round b l w w₁ w' listed r p h₁ (first_registered_lem l w₁ w' r)

  -- What each action rests on.
  abbrev pub Justified : TickInput → BootAction → Type 0
  Justified t (install_peer_key a) =
      Any (λ b. a ≡ b) t.sweep × (Listed a ⊎ ((t.role ≡ bridge) × All Unlisted t.sweep))
  Justified t generate_candidate =
      (t.role ≡ oracle)
      × (t.candidate ≡ none)
      × All Unlisted t.sweep
      × ((t.fresh_approved ≡ true)
          ⊎ ((w : World) × (w' : World) × (view.signer_count w ≡ (ok 0, w'))))
  Justified t install_candidate =
      (t.role ≡ oracle) × All Unlisted t.sweep × ((a : Bytes) × (t.candidate ≡ some a) × Listed a)
  Justified t wait = All Unlisted t.sweep × ((t.role ≡ oracle) ⊎ (t.sweep ≡ []))

  candidate_round :
      (t : TickInput) (k : Bytes) (w w₁ w' : World) (listed : Bool) (a : BootAction)
      → t.candidate ≡ some k
      → t.role ≡ oracle
      → All Unlisted t.sweep
      → view.registered k w ≡ (ok listed, w₁)
      → (if listed then install_candidate else wait) ≡ a
      → Justified t a
  candidate_round t k w w₁ w' true a e o un p q = rw (← q) (o, un, (k, e, (w, w₁, p)))
  candidate_round t k w w₁ w' false a e o un p q = rw (← q) (un, inl o)

  eligible_lem :
      (fresh may : Bool) (w w₁ : World)
      → eligible view fresh w ≡ (ok may, w₁)
      → may ≡ true
      → (fresh ≡ true) ⊎ ((w : World) × (w' : World) × (view.signer_count w ≡ (ok 0, w')))
  unfolding eligible
  eligible_lem true may w w₁ h m = inl refl
  eligible_lem false may w w₁ h m =
      let (count, w₂, p, h₁) = >>=-eq-ok view.signer_count _ w h in
      let z : count ≡ 0 = ground arith in inr (w, w₂, rw (← z) p)

  generate_round :
      (t : TickInput) (w w₁ : World) (may : Bool) (a : BootAction)
      → t.candidate ≡ none
      → t.role ≡ oracle
      → All Unlisted t.sweep
      → eligible view t.fresh_approved w ≡ (ok may, w₁)
      → (if may then generate_candidate else wait) ≡ a
      → Justified t a
  generate_round t w w₁ true a e o un p q =
      rw (← q) (o, e, un, eligible_lem t.fresh_approved true w w₁ p refl)
  generate_round t w w₁ false a e o un p q = rw (← q) (un, inl o)

  oracle_rule_lem :
      (t : TickInput) (c : Option Bytes) (w w' : World) (a : BootAction)
      → t.candidate ≡ c
      → t.role ≡ oracle
      → All Unlisted t.sweep
      → oracle_rule view t.fresh_approved c w ≡ (ok a, w')
      → Justified t a
  unfolding oracle_rule
  oracle_rule_lem t (some k) w w' a e o un h =
      let (listed, w₁, p, h₁) = >>=-eq-ok (view.registered k) _ w h in
      candidate_round t k w w₁ w' listed a e o un p (cc)
  oracle_rule_lem t none w w' a e o un h =
      let (may, w₁, p, h₁) = >>=-eq-ok (eligible view t.fresh_approved) _ w h in
      generate_round t w w₁ may a e o un p (cc)

  head_rule :
      (t : TickInput) (l : List Bytes) (w w' : World) (a : BootAction)
      → t.sweep ≡ l
      → t.role ≡ bridge
      → All Unlisted t.sweep
      → head_or_wait view l ≡ a
      → Justified t a
  head_rule t [] w w' a e b un h = rw (← h) (un, inr e)
  head_rule t (k ∷ l) w w' a e b un h = rw (← h) (rw e (inl refl), inr (b, un))

  role_rule_lem :
      (role : Role) (t : TickInput) (w w' : World) (a : BootAction)
      → t.role ≡ role
      → All Unlisted t.sweep
      → role_rule view role t w ≡ (ok a, w')
      → Justified t a
  unfolding role_rule
  role_rule_lem bridge t w w' a r un h = head_rule t t.sweep w w' a refl r un (cc)
  role_rule_lem oracle t w w' a r un h = oracle_rule_lem t t.candidate w w' a refl r un h

  decide_lem :
      (t : TickInput) (found : Option Bytes) (w w' : World) (a : BootAction)
      → Found t.sweep found
      → decide view t found w ≡ (ok a, w')
      → Justified t a
  unfolding decide
  decide_lem t (some k) w w' a f h = let q : install_peer_key k ≡ a = cc in rw (← q) (f.0, inl f.1)
  decide_lem t none w w' a f h = role_rule_lem t.role t w w' a refl f h

  -- If a tick decides on an action, then: an installed peer key is of the sweep, and its address is
  -- listed or this is a bridge whose whole sweep is unlisted; a candidate is generated only by an oracle
  -- that holds none, whose whole sweep is unlisted, and that has a FRESH approval or for which some read
  -- of the signer count gives zero; a candidate is installed only by an oracle, if the one it holds is
  -- listed and the whole sweep unlisted; and at a wait the whole sweep is unlisted, and a bridge's empty.
  -- Listed and unlisted mean that there is a world in which the registry answers so.
  pub tick-Justified :
      (t : TickInput) (w w' : World) (a : BootAction) → tick view t w ≡ (ok a, w') → Justified t a
  unfolding tick
  tick-Justified t w w' a h =
      let (found, w₁, p, h₁) = >>=-eq-ok (first_registered view t.sweep) _ w h in
      decide_lem t found w₁ w' a (first_registered_lem t.sweep w w₁ found p) h₁
