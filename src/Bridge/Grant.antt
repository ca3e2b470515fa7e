-- ===== src/Bridge/Grant.antt =====
-- What a granted claim of crates/pontifex-bridge/src/claimflow.rs rests on.
use kaskad_nuntius.Prelude.{
  map_err-ok, ℕ, ◌≤◌, ◌<◌, ◌≡◌, refl, false, Result, ok, err, map_err, Act, ◌>>=◌, >>=-eq-ok, lift,
  pure, contains, nat_eq, list_eq, arith,
}
use kaskad_nuntius.Crypto.{Crypto}
use kaskad_nuntius.Sig.{Signature65, address_from_key, recover, sign_recoverable-recover}
use kaskad_nuntius.Claim.{
  ClaimError, ClaimRequest, claim_digest, is_zero_address, check_claimable, sign_claim,
  compute_deadline,
}
use kaskad_nuntius.Claim.Rules.{check_claimable_iff}
use kaskad_nuntius.Chain.Wire.{Wire, Transport}
use kaskad_nuntius.Chain.Reads.{
  ChainError, claim_error_of, BlockRef, head_minus, finalized_block, burned_finalized,
  ensure_not_decreasing,
}
use kaskad_nuntius.Bridge.ClaimFlow.{
  ClaimGrant, granted, ClaimInputs, new_grant, coded, respond, claim_error_of_signer, request_of,
  grant_steps, build_grant,
}

module _ (x : Wire) where
  coded-ok :
      {A : Type 0} (m : Act x.World ChainError A) (w w' : x.World) {a : A}
      → coded x m w ≡ (ok a, w')
      → m w ≡ (ok a, w')
  unfolding coded
  coded-ok {A} m w w' {a} h = go (m w) refl h
    where
      go :
          (r : Result ChainError A × x.World)
          → m w ≡ r
          → ◌≡◌ {A = Result ClaimError A × x.World} (map_err claim_error_of r.0, r.1) (ok a, w')
          → m w ≡ (ok a, w')
      go (ok b, v) e h = cc
      go (err y, v) e h = cc

  lift-ok :
      {E A B : Type 0} (r : Result E A) (f : A → Act x.World E B) (w w' : x.World) {b : B}
      → (lift r >>= f) w ≡ (ok b, w')
      → (a : A) × (r ≡ ok a) × (f a w ≡ (ok b, w'))
  lift-ok (ok a) f w w' h = (a, refl, h)
  lift-ok (err e) f w w' h = cc

at_world : {A W : Type 0} {p : A × W} (a : A) {w w' : W} → p ≡ (a, w) → w ≡ w' → p ≡ (a, w')
at_world a h e = cc

module _ (x : Wire) where
  pure-ok :
      {E A : Type 0} (a : A) (w w' : x.World) {b : A}
      → pure {E = E} a w ≡ (ok b, w')
      → (b ≡ a) × (w ≡ w')
  pure-ok a w w' h = ground arith

ensure_not_decreasing-ok :
    (fresh last : ℕ) {u : Unit {0}} → ensure_not_decreasing fresh last ≡ ok u → last ≤ fresh
unfolding ensure_not_decreasing
ensure_not_decreasing-ok fresh last h = ground arith

module _ (c : Crypto) (x : Wire) where
  -- The facts behind a grant.
  pub record Backed (key : c.SigningKey) (igra rh : Transport x) (inp : ClaimInputs)
      (w w' : x.World) (g : ClaimGrant) : Type 0 where
    pub burned : ℕ
    pub height : ℕ
    pub deadline : ℕ
    pub signature : Signature65
    pub head : BlockRef
    pub between : x.World
    pub read :
        burned_finalized x igra inp.exit inp.recipient inp.igra_finality w
        ≡ (ok (burned, height), between)
    pub not_decreasing : inp.high_water ≤ burned
    pub positive : 0 < burned
    pub not_zero : is_zero_address inp.recipient ≡ false
    pub allowed : contains inp.forbidden inp.recipient ≡ false
    pub clock : finalized_block x rh (head_minus 0) between ≡ (ok head, w')
    pub in_time : compute_deadline inp.enclave_now head.timestamp ≡ ok deadline
    pub signed :
        recover c (claim_digest c (request_of c x inp burned deadline)) signature
        ≡ ok (address_from_key c (c.verifying_key key))
    pub reply :
        g ≡ new_grant x signature burned deadline (address_from_key c (c.verifying_key key)) height

  respond-granted :
      (r : Result ClaimError ClaimGrant × x.World) (g : ClaimGrant) (w' : x.World)
      → respond x r ≡ (granted g, w')
      → r ≡ (ok g, w')
  respond-granted (ok h, w) g w' e = cc
  respond-granted (err y, w) g w' e = cc

  signed_claim :
      (key : c.SigningKey) (req : ClaimRequest) (signature : Signature65)
      → sign_claim c key req ≡ ok signature
      → recover c (claim_digest c req) signature ≡ ok (address_from_key c (c.verifying_key key))
  unfolding sign_claim
  signed_claim key req signature h =
      (sign_recoverable-recover c key (claim_digest c req) signature h).0

  -- If a claim is granted, then the burned total was read under the given finality; it is at least the
  -- recipient's mark and not zero; the recipient is neither zero nor forbidden; the deadline was computed
  -- from the enclave's clock and the head block of the other chain; the reply carries that total, that
  -- height, that deadline and the address of the key; and its signature recovers to that address over the
  -- digest of exactly this claim.
  pub build_grant-Backed :
      (key : c.SigningKey) (igra rh : Transport x) (inp : ClaimInputs) (w w' : x.World)
      (g : ClaimGrant)
      → build_grant c x key igra rh inp w ≡ (granted g, w')
      → Backed key igra rh inp w w' g
  unfolding build_grant grant_steps
  build_grant-Backed key igra rh inp w w' g h =
      let e = respond-granted (grant_steps c x key igra rh inp w) g w' h in
      let ((burned, height), w₁, p, h₁) =
        >>=-eq-ok (coded x (burned_finalized x igra inp.exit inp.recipient inp.igra_finality)) _ w
          e in
      let (_, q, h₂) =
        lift-ok x (map_err claim_error_of (ensure_not_decreasing burned inp.high_water)) _ w₁ w'
          h₁ in
      let (_, r, h₃) = lift-ok x (check_claimable inp.recipient burned inp.forbidden) _ w₁ w' h₂ in
      let (head, w₂, s, h₄) = >>=-eq-ok (coded x (finalized_block x rh (head_minus 0))) _ w₁ h₃ in
      let (deadline, t, h₅) =
        lift-ok x (compute_deadline inp.enclave_now head.timestamp) _ w₂ w' h₄ in
      let (signature, u, h₆) =
        lift-ok x
          (map_err (claim_error_of_signer x)
            (sign_claim c key (request_of c x inp burned deadline)))
          _ w₂ w' h₅ in
      let rules = (check_claimable_iff inp.recipient burned inp.forbidden).0 r in
      let (reply, same) = pure-ok x (new_grant x signature burned deadline _ height) w₂ w' h₆ in
      record {
        burned = burned;
        height = height;
        deadline = deadline;
        signature = signature;
        head = head;
        between = w₁;
        read = coded-ok x _ w w₁ p;
        not_decreasing = ensure_not_decreasing-ok burned inp.high_water (map_err-ok _ _ q);
        positive = rules.2;
        not_zero = rules.0;
        allowed = rules.1;
        clock = at_world (ok head) (coded-ok x _ w₁ w₂ s) same;
        in_time = t;
        signed = signed_claim key (request_of c x inp burned deadline) signature (map_err-ok _ _ u);
        reply = reply;
      }
