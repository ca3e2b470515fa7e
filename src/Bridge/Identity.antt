-- ===== src/Bridge/Identity.antt =====
-- How the configuration of crates/pontifex-bridge/src/handler.rs comes about and stays.
use kaskad_nuntius.Prelude.{
  is_empty, ℕ, ◌≡◌, ◌↔◌, refl, ap, sym, subst, ◌∙◌, Bool, true, false, not, List, [], ◌∷◌, Option,
  none, some, any, eq_iff, nat_eq, list_eq, arith, All,
}
use kaskad_nuntius.Policy.{Bytes}
use kaskad_nuntius.Crypto.{Crypto}
use kaskad_nuntius.Chain.Wire.{Wire}
use kaskad_nuntius.Chain.Text.{ascii, starts_with}
use kaskad_nuntius.Bridge.Config.{BridgeConfig, from_parts}
use kaskad_nuntius.Bridge.State.{BridgeState, is_some, set_config, record_signed}
use kaskad_nuntius.Bridge.Session.{stamped, serve}
use kaskad_nuntius.Bridge.ClaimFlow.{SignClaimResponse, granted, refused}
use kaskad_nuntius.Bridge.Handler.{
  BridgeRequest, configure_request, sign_claim_request, get_attestation_request, health_request,
  readiness_request, HandlerCtx, is_entry, configure, note_total, note_grant, request_grant,
  sign_parsed, sign_claim, handle,
}

abbrev pub https : Bytes → Bool
https u = starts_with (ascii "https://") u

any-not_iff : (l : List Bytes) → (any (λ u. not (https u)) l ≡ false) ↔ All (λ u. https u ≡ true) l
any-not_iff [] = ground arith
any-not_iff (u ∷ l) = ground (arith, any-not_iff l)

module _ (c : Crypto) (x : Wire) (ctx : HandlerCtx x) where
  open c use {SigningKey}
  open x use {World}

  is_entry_iff : (o : Option Bytes) → (is_entry c x ctx o ≡ true) ↔ (o ≡ some ctx.baked.entry)
  is_entry_iff none = (λ h. cc, λ h. cc)
  is_entry_iff (some a) = ground (arith, eq_iff a ctx.baked.entry)

  -- A configuration is accepted exactly if no key is installed, the entry of the request parses to the
  -- baked entry, and there are endpoints, all of which begin with https://.
  pub configure_iff :
      (st : BridgeState SigningKey) (entry : Bytes) (urls peers : List Bytes)
      → ((configure c x ctx st entry urls peers).0 ≡ true) ↔ (
          (is_some st.key ≡ false)
          × (x.address_from_text entry ≡ some ctx.baked.entry)
          × (is_empty urls ≡ false)
          × All (λ u. https u ≡ true) urls)
  unfolding configure
  configure_iff st entry urls peers =
      ground (arith, is_entry_iff (x.address_from_text entry), any-not_iff urls)

  -- The fields of a state that requests do not change once a key is installed.
  abbrev pub Fixed : BridgeState SigningKey → BridgeState SigningKey → Type 0
  Fixed st st' =
      (st'.boot ≡ st.boot)
      × (st'.key ≡ st.key)
      × (st'.signer ≡ st.signer)
      × (st'.pcr0 ≡ st.pcr0)
      × (st'.version ≡ st.version)
      × (st'.config ≡ st.config)

  note_total-Fixed :
      (st : BridgeState SigningKey) (r : Bytes) (o : Option ℕ)
      → Fixed st (note_total c x ctx st r o)
  unfolding record_signed
  note_total-Fixed st r none = (refl, refl, refl, refl, refl, refl)
  note_total-Fixed st r (some n) = (refl, refl, refl, refl, refl, refl)

  note_grant-Fixed :
      (st : BridgeState SigningKey) (r : Bytes) (resp : SignClaimResponse)
      → Fixed st (note_grant c x ctx st r resp)
  note_grant-Fixed st r (refused e) = (refl, refl, refl, refl, refl, refl)
  note_grant-Fixed st r (granted g) = note_total-Fixed st r (x.u256_from_text g.cumulative_burned)

  sign_parsed-Fixed :
      (st : BridgeState SigningKey) (o : Option Bytes) (key : Option SigningKey)
      (cfg : Option BridgeConfig) (w : World)
      → Fixed st (sign_parsed c x ctx st o key cfg w).1
  unfolding sign_parsed
  sign_parsed-Fixed st none key cfg w = (refl, refl, refl, refl, refl, refl)
  sign_parsed-Fixed st (some r) none cfg w = (refl, refl, refl, refl, refl, refl)
  sign_parsed-Fixed st (some r) (some k) none w = (refl, refl, refl, refl, refl, refl)
  sign_parsed-Fixed st (some r) (some k) (some f) w =
      note_grant-Fixed st r (request_grant c x ctx st k f r w).0

  configure-Fixed :
      (st : BridgeState SigningKey) (entry : Bytes) (urls peers : List Bytes)
      → is_some st.key ≡ true
      → configure c x ctx st entry urls peers ≡ (false, st)
  unfolding configure
  configure-Fixed st entry urls peers h = ground arith

  handle-Fixed :
      (req : BridgeRequest) (st : BridgeState SigningKey) (w : World)
      → is_some st.key ≡ true
      → Fixed st (handle c x ctx req st w).1
  unfolding handle sign_claim
  handle-Fixed (configure_request entry urls peers) st w h =
      subst (λ p. Fixed st p.1) (sym (configure-Fixed st entry urls peers h))
        (refl, refl, refl, refl, refl, refl)
  handle-Fixed (sign_claim_request recipient) st w h =
      sign_parsed-Fixed st (x.address_from_text recipient) st.key st.config w
  handle-Fixed (get_attestation_request asked) st w h = (refl, refl, refl, refl, refl, refl)
  handle-Fixed health_request st w h = (refl, refl, refl, refl, refl, refl)
  handle-Fixed readiness_request st w h = (refl, refl, refl, refl, refl, refl)

  -- A configuration, if there is one, has the contracts and the chain that are baked into the image.
  abbrev pub Baked : Option BridgeConfig → Type 0
  Baked none = Unit
  Baked (some f) =
      (f.exit ≡ ctx.baked.exit)
      × (f.kskd ≡ ctx.baked.kskd)
      × (f.entry ≡ ctx.baked.entry)
      × (f.chain_id ≡ ctx.baked.chain_id)

  configure-Baked :
      (st : BridgeState SigningKey) (entry : Bytes) (urls peers : List Bytes)
      → Baked st.config
      → Baked (configure c x ctx st entry urls peers).1.config
  unfolding configure set_config from_parts
  configure-Baked st entry urls peers h = ground arith

  handle-Baked :
      (req : BridgeRequest) (st : BridgeState SigningKey) (w : World)
      → Baked st.config
      → Baked (handle c x ctx req st w).1.config
  unfolding handle sign_claim
  handle-Baked (configure_request entry urls peers) st w h = configure-Baked st entry urls peers h
  handle-Baked (sign_claim_request recipient) st w h =
      let (_, _, _, _, _, f) =
        sign_parsed-Fixed st (x.address_from_text recipient) st.key st.config w in
      subst Baked (sym f) h
  handle-Baked (get_attestation_request asked) st w h = h
  handle-Baked health_request st w h = h
  handle-Baked readiness_request st w h = h

module _ (c : Crypto) (x : Wire) (ctx : HandlerCtx x) where
  open c use {SigningKey}
  open x use {World}

  -- Once a key is installed, serving any requests, at any times, leaves the boot state, the key, the signer, the image
  -- measurement, the version and the configuration as they are.
  pub serve_keeps_identity :
      (l : List (ℕ × BridgeRequest)) (st : BridgeState SigningKey) (w : World)
      → is_some st.key ≡ true
      → Fixed c x ctx st (serve c x ctx l st w).0
  unfolding serve
  serve_keeps_identity [] st w h = (refl, refl, refl, refl, refl, refl)
  serve_keeps_identity ((now, req) ∷ l) st w h =
      let (_, st', w') = handle c x (stamped c x ctx now) req st w in
      let (a, k, s, p, v, f) = handle-Fixed c x (stamped c x ctx now) req st w h in
      let (a', k', s', p', v', f') = serve_keeps_identity l st' w' (ap is_some k ∙ h) in
      (a' ∙ a, k' ∙ k, s' ∙ s, p' ∙ p, v' ∙ v, f' ∙ f)

  -- If the configuration, where there is one, has the baked contracts and chain, then it still has them
  -- after any requests were served.
  pub serve_keeps_Baked :
      (l : List (ℕ × BridgeRequest)) (st : BridgeState SigningKey) (w : World)
      → Baked c x ctx st.config
      → Baked c x ctx (serve c x ctx l st w).0.config
  unfolding serve
  serve_keeps_Baked [] st w h = h
  serve_keeps_Baked ((now, req) ∷ l) st w h =
      let (_, st', w') = handle c x (stamped c x ctx now) req st w in
      serve_keeps_Baked l st' w' (handle-Baked c x (stamped c x ctx now) req st w h)
