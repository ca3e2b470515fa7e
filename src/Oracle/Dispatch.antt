-- ===== src/Oracle/Dispatch.antt =====
-- src/keyex_oracle/control.rs: the dispatch of one control request. The clock and the attestation of the
-- hardware module are the fields of one record.
use Prim.Native.String.{String}
use kaskad_nuntius.Prelude.{
  ℕ, Bool, true, false, List, [], Option, none, some, Result, err, ◌==◌, nat_eq, list_eq,
  if◌then◌else◌,
}
use kaskad_nuntius.Policy.{Bytes}
use kaskad_nuntius.Crypto.{Crypto}
use kaskad_nuntius.Chain.Wire.{Wire}
use kaskad_nuntius.Chain.Text.{u64_to_text}
use kaskad_nuntius.Bridge.State.{BootState}
use kaskad_nuntius.Bridge.Handler.{Attestation}
use kaskad_nuntius.Oracle.Peers.{AddressText}
use kaskad_nuntius.Oracle.State.{KeySource, OracleKeyexState, set_peer_hints}
use kaskad_nuntius.Oracle.Fields.{Refusal, clock_unavailable, trim, trim_0x}
use kaskad_nuntius.Oracle.Control.{ControlCtx, approval_reply}

-- `Nsm::new` followed by `now_unix_secs`; `Nsm::new`; `attestation(None, nonce, Some(pubkey))`
pub record Hardware (x : Wire) : Type 0 where
  pub clock : x.World → Option ℕ × x.World
  pub opens : x.World → Bool × x.World
  pub attest : Option Bytes → Bytes → x.World → Option Bytes × x.World

-- `enum OracleRequest` and `KeyexHealth` of crates/keyex/src/api.rs
pub data OracleRequest (x : Wire) : Type 0 where
  configure : Bytes → List Bytes → List Bytes → OracleRequest x
  approval : x.Value → List Bytes → OracleRequest x
  get_attestation : Option Bytes → OracleRequest x
  keyex_health : OracleRequest x

pub record KeyexHealth : Type 0 where
  pub state : BootState
  pub source : KeySource
  pub signer : Bytes
  pub version : Bytes
  pub pcr0 : Bytes

pub data OracleReply : Type 0 where
  ack : Bool → OracleReply
  approval_result : Result Refusal (Unit {0}) → OracleReply
  attested : Attestation → OracleReply
  wire_error : String → OracleReply
  healthy : KeyexHealth → OracleReply

module _ (c : Crypto) (x : Wire) (t : AddressText) (hw : Hardware x) (ctx : ControlCtx x) where
  open x use {World}

  abbrev pub is_registry : Option Bytes → Bool
  is_registry none = false
  is_registry (some a) = a == ctx.registry

  -- The endpoints of the host are dropped; its peer hints are kept if it names the baked registry.
  unfoldable pub configure_reply : OracleKeyexState → Bytes → List Bytes → Bool × OracleKeyexState
  configure_reply st registry oracle_peers =
      if is_registry (x.address_from_text (trim registry))
      then (true, set_peer_hints t st oracle_peers)
      else (false, st)

  unfoldable pub timed_approval :
      OracleKeyexState
      → x.Value
      → List Bytes
      → Option ℕ × World
      → Result Refusal (Unit {0}) × OracleKeyexState × World
  timed_approval st td sigs (none, w) = (err clock_unavailable, st, w)
  timed_approval st td sigs (some now, w) = approval_reply c x ctx st td sigs now w

  unfoldable pub document_reply : Bytes → Option Bytes × World → OracleReply × World
  document_reply addr (none, w) = (wire_error "attestation_failed", w)
  document_reply addr (some doc, w) = (
    attested (record {
      attestation = x.hex_encode_prefixed doc;
      signer = x.address_to_string addr;
      pcr0 = x.hex_encode_prefixed ctx.pcr0;
    }),
    w,
  )

  unfoldable pub opened_reply : Bytes → Bytes → Option Bytes → Bool × World → OracleReply × World
  unfolding document_reply
  opened_reply pubkey addr asked (false, w) = (wire_error "nsm_unavailable", w)
  opened_reply pubkey addr asked (true, w) = document_reply addr (hw.attest asked pubkey w)

  unfoldable pub nonce_reply : Bytes → Bytes → Option Bytes → World → OracleReply × World
  unfolding opened_reply
  nonce_reply pubkey addr none w = opened_reply pubkey addr none (hw.opens w)
  nonce_reply pubkey addr (some s) w = elim (x.hex_decode (trim_0x (trim s))) [
    | none ↦ (wire_error "bad_nonce", w)
    | some b ↦ opened_reply pubkey addr (some b) (hw.opens w)
  ]

  unfoldable pub attestation_reply :
      Option Bytes → Option Bytes → Option Bytes → World → OracleReply × World
  unfolding nonce_reply
  attestation_reply (some pubkey) (some addr) asked w = nonce_reply pubkey addr asked w
  attestation_reply (some pubkey) none asked w = (wire_error "not_ready", w)
  attestation_reply none addr asked w = (wire_error "not_ready", w)

  abbrev signer_text : Option Bytes → Bytes
  signer_text none = []
  signer_text (some a) = x.address_to_string a

  unfoldable pub keyex_health_reply : OracleKeyexState → KeyexHealth
  keyex_health_reply st = record {
    state = st.boot_state;
    source = st.source;
    signer = signer_text st.signer_addr;
    version = u64_to_text ctx.version;
    pcr0 = x.hex_encode_prefixed ctx.pcr0;
  }

  unfoldable pub handle_oracle_request :
      OracleRequest x → OracleKeyexState → World → OracleReply × OracleKeyexState × World
  handle_oracle_request (configure registry rh_rpcs oracle_peers) st w =
      let (done, st') = configure_reply st registry oracle_peers in (ack done, st', w)
  handle_oracle_request (approval td sigs) st w =
      let (result, st', w') = timed_approval st td sigs (hw.clock w) in
      (approval_result result, st', w')
  handle_oracle_request (get_attestation asked) st w =
      let (reply, w') = attestation_reply st.signer_pubkey st.signer_addr asked w in (reply, st, w')
  handle_oracle_request keyex_health st w = (healthy (keyex_health_reply st), st, w)
