-- ===== src/Bridge/Session.antt =====
-- What holds of a bridge over the requests that it serves (crates/pontifex-bridge/src/handler.rs and
-- state.rs).
use kaskad_nuntius.Prelude.{
  is_empty, ℕ, ◌≤◌, ◌<◌, ◌^◌, ◌≡◌, refl, sym, ap, subst, ◌∙◌, Bool, true, false, List, [], ◌∷◌, map,
  Option, none, some, eq_iff, nat_eq, list_eq, arith, if◌then◌else◌,
}
use kaskad_nuntius.Policy.{Bytes}
use kaskad_nuntius.Crypto.{Crypto}
use kaskad_nuntius.Claim.{not_ready}
use kaskad_nuntius.Chain.Wire.{Wire}
use kaskad_nuntius.Chain.Finality.{burned_finalized_agrees}
use kaskad_nuntius.Bridge.Config.{BridgeConfig, igra_finality}
use kaskad_nuntius.Bridge.State.{BridgeState, set_config, high_water}
use kaskad_nuntius.Bridge.Marks.{high_water-record_signed}
use kaskad_nuntius.Bridge.Failover.{sticky, beside, failover}
use kaskad_nuntius.Bridge.ClaimFlow.{ClaimGrant, SignClaimResponse, granted, refused, new_grant}
use kaskad_nuntius.Bridge.Grant.{build_grant-Backed}
use kaskad_nuntius.Bridge.Handler.{
  BridgeRequest, configure_request, sign_claim_request, get_attestation_request, health_request,
  readiness_request, HandlerCtx, configure, inputs_of, live_grant, request_grant, note_total,
  note_grant, sign_parsed, sign_claim, handle,
}

module _ (c : Crypto) (x : Wire) (ctx : HandlerCtx x) where
  open c use {SigningKey}
  open x use {World}

  -- A total that the chain has given, and that a granted reply carries.
  abbrev Carries : ClaimGrant → ℕ → Type 0
  Carries g n =
      (g.cumulative_burned ≡ x.u256_to_text n) × ((word : Bytes) × (n ≡ x.u256_from_be word))

  live_grant_total :
      (st : BridgeState SigningKey) (key : SigningKey) (cfg : BridgeConfig) (r : Bytes) (w : World)
      (p : SignClaimResponse × (World × ℕ)) (g : ClaimGrant)
      → live_grant c x ctx st key cfg r w ≡ p
      → p.0 ≡ granted g
      → (n : ℕ) × Carries g n × (high_water st r ≤ n)
  unfolding live_grant new_grant
  live_grant_total st key cfg r w (refused e, s) g h q = cc
  live_grant_total st key cfg r w (granted k, s) g h q =
      let b =
        build_grant-Backed c (sticky x) key (beside x (ctx.proxy ctx.igra_url))
          (failover x (map ctx.proxy cfg.rh_rpcs)) (inputs_of c x ctx st cfg r) (w, 0) s k h in
      let (_, word, _, _, _, _, _, _, _, total, _) =
        burned_finalized_agrees (sticky x) (beside x (ctx.proxy ctx.igra_url)) cfg.exit r
          igra_finality (w, 0) b.between b.burned b.height b.read in
      let e : g ≡ k = cc in
      (b.burned, (ap (λ z. z.cumulative_burned) (e ∙ b.reply), (word, total)), b.not_decreasing)

  taken :
      (b : Bool) (w : World) (p : SignClaimResponse × (World × ℕ)) (g : ClaimGrant) (w' : World)
      → ◌≡◌ {A = SignClaimResponse × World}
          (if b then (refused not_ready, w) else (p.0, p.1.0))
          (granted g, w')
      → p.0 ≡ granted g
  taken true w p g w' h = cc
  taken false w p g w' h = cc

  request_grant_total :
      (st : BridgeState SigningKey) (key : SigningKey) (cfg : BridgeConfig) (r : Bytes)
      (w w' : World) (g : ClaimGrant)
      → request_grant c x ctx st key cfg r w ≡ (granted g, w')
      → (n : ℕ) × Carries g n × (high_water st r ≤ n)
  unfolding request_grant
  request_grant_total st key cfg r w w' g h =
      live_grant_total st key cfg r w (live_grant c x ctx st key cfg r w) g refl
        (taken (is_empty cfg.rh_rpcs) w (live_grant c x ctx st key cfg r w) g w' h)

  -- What granting a claim leaves behind.
  abbrev pub Granted :
      BridgeState SigningKey → BridgeState SigningKey → Bytes → ClaimGrant → ℕ → Type 0
  Granted st st' r g n =
      (g.cumulative_burned ≡ x.u256_to_text n) × (high_water st r ≤ n) × (high_water st' r ≡ n)

  note_grant-mark :
      (st : BridgeState SigningKey) (r j : Bytes) (resp : SignClaimResponse)
      → high_water st j ≤ high_water (note_grant c x ctx st r resp) j
  note_grant-mark st r j (refused e) = omega arith
  note_grant-mark st r j (granted g) = go (x.u256_from_text g.cumulative_burned)
    where
      go : (o : Option ℕ) → high_water st j ≤ high_water (note_total c x ctx st r o) j
      go none = omega arith
      go (some n) = ground (arith, eq_iff r j, high_water-record_signed st r j n)

  sign_parsed-mark :
      (st : BridgeState SigningKey) (r : Option Bytes) (key : Option SigningKey)
      (cfg : Option BridgeConfig) (w : World) (j : Bytes)
      → high_water st j ≤ high_water (sign_parsed c x ctx st r key cfg w).1 j
  unfolding sign_parsed
  sign_parsed-mark st none key cfg w j = omega arith
  sign_parsed-mark st (some r) none cfg w j = omega arith
  sign_parsed-mark st (some r) (some k) none w j = omega arith
  sign_parsed-mark st (some r) (some k) (some f) w j =
      note_grant-mark st r j (request_grant c x ctx st k f r w).0

  configure-mark :
      (st : BridgeState SigningKey) (entry : Bytes) (urls peers : List Bytes) (j : Bytes)
      → high_water (configure c x ctx st entry urls peers).1 j ≡ high_water st j
  unfolding configure set_config high_water
  configure-mark st entry urls peers j = ground arith

  handle-mark :
      (req : BridgeRequest) (st : BridgeState SigningKey) (w : World) (j : Bytes)
      → high_water st j ≤ high_water (handle c x ctx req st w).1 j
  unfolding handle sign_claim
  handle-mark (configure_request entry urls peers) st w j =
      ground (arith, configure-mark st entry urls peers j)
  handle-mark (sign_claim_request recipient) st w j =
      sign_parsed-mark st (x.address_from_text recipient) st.key st.config w j
  handle-mark (get_attestation_request asked) st w j = omega arith
  handle-mark health_request st w j = omega arith
  handle-mark readiness_request st w j = omega arith

  module _ (fits : (b : Bytes) → x.u256_from_be b < 2 ^ 256)
      (reads_back : (n : ℕ) → n < 2 ^ 256 → x.u256_from_text (x.u256_to_text n) ≡ some n) where
    note_grant-raises :
        (st : BridgeState SigningKey) (r : Bytes) (g : ClaimGrant) (n : ℕ)
        → Carries g n
        → high_water st r ≤ n
        → high_water (note_grant c x ctx st r (granted g)) r ≡ n
    note_grant-raises st r g n (a, (word, e)) h = go (x.u256_from_text g.cumulative_burned) parsed
      where
        parsed : x.u256_from_text g.cumulative_burned ≡ some n
        parsed = ap x.u256_from_text a ∙ reads_back n (subst (λ m. m < 2 ^ 256) (sym e) (fits word))

        go : (o : Option ℕ) → o ≡ some n → high_water (note_total c x ctx st r o) r ≡ n
        go none p = cc
        go (some m) p = ground (arith, eq_iff r r, high_water-record_signed st r r m)

    sign_parsed-granted :
        (st : BridgeState SigningKey) (o : Option Bytes) (key : Option SigningKey)
        (cfg : Option BridgeConfig) (w : World) (g : ClaimGrant)
        → (sign_parsed c x ctx st o key cfg w).0 ≡ granted g
        → (r : Bytes) × (n : ℕ) × (o ≡ some r)
          × Granted st (sign_parsed c x ctx st o key cfg w).1 r g n
    unfolding sign_parsed
    sign_parsed-granted st none key cfg w g h = cc
    sign_parsed-granted st (some r) none cfg w g h = cc
    sign_parsed-granted st (some r) (some k) none w g h = cc
    sign_parsed-granted st (some r) (some k) (some f) w g h =
        let w' = (request_grant c x ctx st k f r w).1 in
        let (n, carries, least) = request_grant_total st k f r w w' g (ap (λ q. (q, w')) h) in
        (
          r,
          n,
          refl,
          (
            carries.0,
            least,
            ap (λ q. high_water (note_grant c x ctx st r q) r) h
                ∙ note_grant-raises st r g n carries least,
          ),
        )

    -- If a claim is granted, then the recipient's text parses to an address; the reply carries a total
    -- that is at least the mark of that address; and that total is then the mark of that address.
    -- The chain's words fit 256 bits, and the text of a 256-bit number parses to it.
    pub sign_claim-granted :
        (st : BridgeState SigningKey) (recipient : Bytes) (w : World) (g : ClaimGrant)
        → (sign_claim c x ctx st recipient w).0 ≡ granted g
        → (r : Bytes) × (n : ℕ) × (x.address_from_text recipient ≡ some r)
          × Granted st (sign_claim c x ctx st recipient w).1 r g n
    unfolding sign_claim
    sign_claim-granted st recipient w g h =
        sign_parsed-granted st (x.address_from_text recipient) st.key st.config w g h

module _ (c : Crypto) (x : Wire) (ctx : HandlerCtx x) where
  open c use {SigningKey}
  open x use {World}

  -- Each request is handled at the clock of its own arrival.
  abbrev pub stamped : ℕ → HandlerCtx x
  stamped enclave_now = record ctx { enclave_now = enclave_now }

  -- Serving requests in order, each with the time that it is stamped with, the replies left out.
  unfoldable pub serve :
      List (ℕ × BridgeRequest) → BridgeState SigningKey → World → BridgeState SigningKey × World
  serve [] st w = (st, w)
  serve ((now, req) ∷ l) st w =
      let (_, st', w') = handle c x (stamped now) req st w in serve l st' w'

  -- Serving any requests in order, at any times, never lowers the mark of any recipient.
  pub serve_keeps_marks :
      (l : List (ℕ × BridgeRequest)) (st : BridgeState SigningKey) (w : World) (j : Bytes)
      → high_water st j ≤ high_water (serve l st w).0 j
  unfolding serve
  serve_keeps_marks [] st w j = omega arith
  serve_keeps_marks ((now, req) ∷ l) st w j =
      let (_, st', w') = handle c x (stamped now) req st w in
      omega (arith, handle-mark c x (stamped now) req st w j, serve_keeps_marks l st' w' j)

  module _ (fits : (b : Bytes) → x.u256_from_be b < 2 ^ 256)
      (reads_back : (n : ℕ) → n < 2 ^ 256 → x.u256_from_text (x.u256_to_text n) ≡ some n) where
    -- Two grants for one recipient, the second after any requests were served in between, each at its own
    -- time, carry totals of which the second is at least the first.
    -- The chain's words fit 256 bits, and the text of a 256-bit number parses to it.
    pub grants_do_not_decrease :
        (l : List (ℕ × BridgeRequest)) (t₁ t₂ : ℕ) (st st₁ st₂ st₃ : BridgeState SigningKey)
        (a b r : Bytes) (w w₁ w₂ w₃ : World) (g₁ g₂ : ClaimGrant)
        → x.address_from_text a ≡ some r
        → x.address_from_text b ≡ some r
        → sign_claim c x (stamped t₁) st a w ≡ (granted g₁, st₁, w₁)
        → serve l st₁ w₁ ≡ (st₂, w₂)
        → sign_claim c x (stamped t₂) st₂ b w₂ ≡ (granted g₂, st₃, w₃)
        → (n : ℕ) × (m : ℕ) × (g₁.cumulative_burned ≡ x.u256_to_text n)
          × (g₂.cumulative_burned ≡ x.u256_to_text m)
          × (n ≤ m)
    grants_do_not_decrease l t₁ t₂ st st₁ st₂ st₃ a b r w w₁ w₂ w₃ g₁ g₂ p q h₁ h h₂ =
        let (r₁, n, e₁, (d₁, _, m₁)) =
          sign_claim-granted c x (stamped t₁) fits reads_back st a w g₁ (ap (λ s. s.0) h₁) in
        let (r₂, m, e₂, (d₂, l₂, _)) =
          sign_claim-granted c x (stamped t₂) fits reads_back st₂ b w₂ g₂ (ap (λ s. s.0) h₂) in
        let s₁ : r₁ ≡ r = cc in
        let s₂ : r₂ ≡ r = cc in
        let mark₁ : high_water st₁ r ≡ n =
          sym (ap (λ s. high_water s.1 r) h₁) ∙ ap (high_water _) (sym s₁) ∙ m₁ in
        let mark₂ : high_water st₂ r ≤ m = subst (λ z. high_water st₂ z ≤ m) s₂ l₂ in
        let kept : high_water st₁ r ≤ high_water st₂ r =
          subst (λ s. high_water st₁ r ≤ high_water s.0 r) h (serve_keeps_marks l st₁ w₁ r) in
        (n, m, d₁, d₂, omega arith)
