-- ===== src/Bridge/Handler.antt =====
-- crates/pontifex-bridge/src/handler.rs: the dispatch of one request, which returns the reply, the new
-- state and the world. A reply is the value that the source serializes.
use Prim.Native.String.{String}
use kaskad_nuntius.Prelude.{
  is_empty, ℕ, Bool, true, false, not, ◌||◌, List, [], map, Option, none, some, Result, ok, err,
  any, ◌==◌, nat_eq, list_eq, if◌then◌else◌,
}
use kaskad_nuntius.Policy.{Bytes}
use kaskad_nuntius.Crypto.{Crypto}
use kaskad_nuntius.Claim.{not_ready, recipient_forbidden}
use kaskad_nuntius.Chain.Wire.{Wire, Transport}
use kaskad_nuntius.Chain.Text.{ascii, starts_with, u64_to_text}
use kaskad_nuntius.Chain.Quantity.{decode_hex}
use kaskad_nuntius.Chain.Reads.{
  ChainError, BlockRef, tag, bridge_registry, finalized_block, is_valid_signer,
}
use kaskad_nuntius.Bridge.Config.{BakedIdentity, BridgeConfig, from_parts, forbidden, igra_finality}
use kaskad_nuntius.Bridge.State.{
  BootState, BridgeState, is_some, set_config, high_water, record_signed, signer_pubkey,
}
use kaskad_nuntius.Bridge.Failover.{sticky, beside, failover}
use kaskad_nuntius.Bridge.ClaimFlow.{SignClaimResponse, granted, refused, ClaimInputs, build_grant}

-- `enum BridgeRequest`, `Attestation`, `BridgeHealth` and `BridgeReadiness` of crates/keyex/src/api.rs
pub data BridgeRequest : Type 0 where
  configure_request : Bytes → List Bytes → List Bytes → BridgeRequest
  sign_claim_request : Bytes → BridgeRequest
  get_attestation_request : Option Bytes → BridgeRequest
  health_request readiness_request : BridgeRequest

pub record Attestation : Type 0 where
  pub attestation : Bytes
  pub signer : Bytes
  pub pcr0 : Bytes

pub record BridgeHealth : Type 0 where
  pub state : BootState
  pub signer : Bytes
  pub version : Bytes
  pub pcr0 : Bytes
  pub registered : Bool
  pub igra_finalized : ℕ
  pub rh_finalized : ℕ

pub data BridgeReadiness : Type 0 where
  ready fetching : BridgeReadiness

pub data Reply : Type 0 where
  ack : Bool → Reply
  claim : SignClaimResponse → Reply
  attested : Attestation → Reply
  wire_error : String → Reply
  healthy : BridgeHealth → Reply
  readied : BridgeReadiness → Reply

-- `HandlerCtx`, with the two transports that the handler makes out of the client and the endpoints, and
-- the `Attestor` seam.
pub record HandlerCtx (x : Wire) : Type 0 where
  pub proxy : Bytes → Transport x
  pub igra_url : Bytes
  pub baked : BakedIdentity
  pub enclave_now : ℕ
  pub attest : Option Bytes → Bytes → x.World → Option Bytes × x.World

unfoldable pub readiness : Bool → Reply
readiness key_installed = readied (if key_installed then ready else fetching)

-- The endpoints are none, or one of them is not https.
abbrev pub bad_endpoints : List Bytes → Bool
bad_endpoints urls = is_empty urls || any (λ u. not (starts_with (ascii "https://") u)) urls

module _ (c : Crypto) (x : Wire) (ctx : HandlerCtx x) where
  open c use {SigningKey}
  open x use {World}

  abbrev pub is_entry : Option Bytes → Bool
  is_entry none = false
  is_entry (some a) = a == ctx.baked.entry

  unfoldable pub configure :
      BridgeState SigningKey → Bytes → List Bytes → List Bytes → Bool × BridgeState SigningKey
  configure st entry rh_rpcs oracle_peers =
      if is_some st.key
      then (false, st)
      else if not (is_entry (x.address_from_text entry))
      then (false, st)
      else if bad_endpoints rh_rpcs
      then (false, st)
      else (true, set_config st (from_parts ctx.baked rh_rpcs oracle_peers))

  abbrev pub inputs_of : BridgeState SigningKey → BridgeConfig → Bytes → ClaimInputs
  inputs_of st cfg recipient = record {
    recipient = recipient;
    high_water = high_water st recipient;
    enclave_now = ctx.enclave_now;
    forbidden = forbidden cfg;
    exit = cfg.exit;
    entry = cfg.entry;
    chain_id = cfg.chain_id;
    igra_finality = igra_finality;
  }

  -- The grant, over a failover transport made for this request, whose index starts at zero.
  unfoldable pub live_grant :
      BridgeState SigningKey
      → SigningKey
      → BridgeConfig
      → Bytes
      → World
      → SignClaimResponse × (World × ℕ)
  live_grant st key cfg recipient w =
      build_grant c (sticky x) key (beside x (ctx.proxy ctx.igra_url))
        (failover x (map ctx.proxy cfg.rh_rpcs)) (inputs_of st cfg recipient) (w, 0)

  -- Without an endpoint there is no failover transport.
  unfoldable pub request_grant :
      BridgeState SigningKey → SigningKey → BridgeConfig → Bytes → World → SignClaimResponse × World
  request_grant st key cfg recipient w =
      if is_empty cfg.rh_rpcs
      then (refused not_ready, w)
      else (let (resp, (w', _)) = live_grant st key cfg recipient w in (resp, w'))

  abbrev pub note_total : BridgeState SigningKey → Bytes → Option ℕ → BridgeState SigningKey
  note_total st recipient none = st
  note_total st recipient (some b) = record_signed st recipient b

  -- A granted total is recorded, if its text parses.
  abbrev pub note_grant :
      BridgeState SigningKey → Bytes → SignClaimResponse → BridgeState SigningKey
  note_grant st recipient (refused e) = st
  note_grant st recipient (granted g) =
      note_total st recipient (x.u256_from_text g.cumulative_burned)

  unfoldable pub sign_parsed :
      BridgeState SigningKey
      → Option Bytes
      → Option SigningKey
      → Option BridgeConfig
      → World
      → SignClaimResponse × BridgeState SigningKey × World
  sign_parsed st none key cfg w = (refused recipient_forbidden, st, w)
  sign_parsed st (some recipient) none cfg w = (refused not_ready, st, w)
  sign_parsed st (some recipient) (some key) none w = (refused not_ready, st, w)
  sign_parsed st (some recipient) (some key) (some cfg) w =
      let (resp, w') = request_grant st key cfg recipient w in
      (resp, note_grant st recipient resp, w')

  unfoldable pub sign_claim :
      BridgeState SigningKey → Bytes → World → SignClaimResponse × BridgeState SigningKey × World
  unfolding sign_parsed
  sign_claim st recipient w = sign_parsed st (x.address_from_text recipient) st.key st.config w

  -- The nonce of the request: none, one that decodes, or one that does not.
  unfoldable pub attest_reply :
      BridgeState SigningKey → Bytes → Option Bytes × World → Reply × World
  attest_reply st signer (none, w) = (wire_error "attestation_unavailable", w)
  attest_reply st signer (some doc, w) = (
    attested (record {
      attestation = x.hex_encode_prefixed doc;
      signer = x.address_to_string signer;
      pcr0 = x.hex_encode_prefixed st.pcr0;
    }),
    w,
  )

  unfoldable pub attest_with :
      BridgeState SigningKey → Bytes → Bytes → Option Bytes → World → Reply × World
  unfolding attest_reply
  attest_with st signer pubkey none w = attest_reply st signer (ctx.attest none pubkey w)
  attest_with st signer pubkey (some h) w = elim (decode_hex x h) [
    | none ↦ (wire_error "bad_nonce", w)
    | some b ↦ attest_reply st signer (ctx.attest (some b) pubkey w)
  ]

  unfoldable pub attest_booted :
      BridgeState SigningKey → Option Bytes → Option Bytes → Option Bytes → World → Reply × World
  unfolding attest_with
  attest_booted st (some s) (some p) asked w = attest_with st s p asked w
  attest_booted st (some s) none asked w = (wire_error "not_ready", w)
  attest_booted st none pubkey asked w = (wire_error "not_ready", w)

  unfoldable pub get_attestation : BridgeState SigningKey → Option Bytes → World → Reply × World
  unfolding attest_booted
  get_attestation st asked w = attest_booted st st.signer (signer_pubkey c st) asked w

  -- A chain-derived field of the health reply: zero or false where the read fails.
  abbrev pub height_or_zero : Result ChainError BlockRef → ℕ
  height_or_zero (ok b) = b.number
  height_or_zero (err e) = 0

  abbrev pub flag_or_false : Result ChainError Bool → Bool
  flag_or_false (ok b) = b
  flag_or_false (err e) = false

  -- The two reads over the failover transport: the finalized height, and the registration of the signer.
  unfoldable pub rh_fields : BridgeConfig → Bytes → World → Bool × ℕ × World
  rh_fields cfg signer w =
      if is_empty cfg.rh_rpcs
      then (false, 0, w)
      else (let rh = failover x (map ctx.proxy cfg.rh_rpcs) in
          let (head, s₁) = finalized_block (sticky x) rh tag (w, 0) in
          let (listed, s₂) =
            is_valid_signer (sticky x) rh cfg.entry bridge_registry signer tag s₁ in
          (flag_or_false listed, height_or_zero head, s₂.0))

  abbrev pub text_or_empty : Option Bytes → Bytes
  text_or_empty none = []
  text_or_empty (some a) = x.address_to_string a

  unfoldable pub health_reply : BridgeState SigningKey → Bool → ℕ → ℕ → BridgeHealth
  health_reply st registered igra_finalized rh_finalized = record {
    state = st.boot;
    signer = text_or_empty st.signer;
    version = u64_to_text st.version;
    pcr0 = x.hex_encode_prefixed st.pcr0;
    registered = registered;
    igra_finalized = igra_finalized;
    rh_finalized = rh_finalized;
  }

  unfoldable pub health_fields :
      BridgeState SigningKey → Option Bytes → Option BridgeConfig → World → BridgeHealth × World
  unfolding rh_fields
  health_fields st (some signer) (some cfg) w =
      let (igra, w₁) = finalized_block x (ctx.proxy ctx.igra_url) igra_finality w in
      let (registered, rh, w₂) = rh_fields cfg signer w₁ in
      (health_reply st registered (height_or_zero igra) rh, w₂)
  health_fields st (some signer) none w = (health_reply st false 0 0, w)
  health_fields st none cfg w = (health_reply st false 0 0, w)

  unfoldable pub health : BridgeState SigningKey → World → BridgeHealth × World
  unfolding health_fields health_reply
  health st w = health_fields st st.signer st.config w

  unfoldable pub handle :
      BridgeRequest → BridgeState SigningKey → World → Reply × BridgeState SigningKey × World
  handle (configure_request entry rh_rpcs oracle_peers) st w =
      let (done, st') = configure st entry rh_rpcs oracle_peers in (ack done, st', w)
  handle (sign_claim_request recipient) st w =
      let (resp, st', w') = sign_claim st recipient w in (claim resp, st', w')
  handle (get_attestation_request asked) st w =
      let (reply, w') = get_attestation st asked w in (reply, st, w')
  handle health_request st w = let (h, w') = health st w in (healthy h, st, w')
  handle readiness_request st w = (readiness (is_some st.key), st, w)
