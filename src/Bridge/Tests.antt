-- ===== src/Bridge/Tests.antt =====
-- Runs of crates/pontifex-bridge over the sample node: a configured bridge with a key serves a claim,
-- a health request and a second claim.
use kaskad_nuntius.Prelude.{
  ℕ, ◌≤◌, ◌≡◌, refl, List, [], ◌∷◌, none, some, list_eq, nat_eq, list_beq, contains,
}
use mathlib.Core.Option
use kaskad_nuntius.Policy.{Bytes}
use kaskad_nuntius.Chain.Wire.{Transport}
use kaskad_nuntius.Chain.Text.{ascii}
use kaskad_nuntius.Bridge.Config.{BakedIdentity, BridgeConfig, forbidden}
use kaskad_nuntius.Bridge.State.{BridgeState, ready, high_water, record_signed, lookup, insert}
use kaskad_nuntius.Bridge.Failover.{failover, failover_loop}
use kaskad_nuntius.Bridge.ClaimFlow.{
  ClaimGrant, SignClaimResponse, granted, refused, ClaimInputs, build_grant, coded, grant_steps,
  new_grant,
}
use kaskad_nuntius.Bridge.Grant.{Backed, build_grant-Backed}
use kaskad_nuntius.Bridge.Handler.{
  BridgeRequest, configure_request, health_request, readiness_request, HandlerCtx, inputs_of,
  sign_claim, handle, sign_parsed, request_grant, live_grant, health, health_fields, rh_fields,
  health_reply, readiness,
}
use kaskad_nuntius.Bridge.Session.{serve, grants_do_not_decrease}
use kaskad_nuntius.Bridge.Identity.{Fixed, serve_keeps_identity}
use kaskad_nuntius.Claim
use kaskad_nuntius.Claim.{claim_digest, check_claimable, compute_deadline, is_zero_address}
use kaskad_nuntius.Sig.{
  address_from_key, emit, recover, recover_with, recovery_id, self_check, sign_recoverable,
}
use kaskad_nuntius.Chain.Text.{
  hex_char, hex_digits, hex_text, hex_value, is_ascii_hexdigit, strip_0x, u64_from_hex,
}
use kaskad_nuntius.Chain.Quantity.{
  parse_quantity, parse_digits, parse_b256, decode_hex, format_quantity,
}
use kaskad_nuntius.Chain.Abi.{encode_call}
use kaskad_nuntius.Chain.Reads.{
  burned_finalized, finalized_block, read_block, call_rpc, field, eth_block_number, eth_call_word,
  eth_call_bytes, read_block_hash, ensure_not_decreasing, block_id, is_valid_signer,
}
use kaskad_nuntius.Samples.{
  text, toy_crypto, toy_wire, toy_fits, toy_reads_back, toy_node, dead_node,
}

abbrev baked : BakedIdentity
baked = record { exit = 1 ∷ []; kskd = 2 ∷ []; entry = 3 ∷ []; chain_id = 4 }

abbrev ctx : HandlerCtx toy_wire
ctx = record {
  proxy = λ url. toy_node;
  igra_url = [];
  baked = baked;
  enclave_now = 1200;
  attest = λ nonce key w. (none, w);
}

abbrev urls : List Bytes
urls = ascii "https://a" ∷ []

abbrev config : BridgeConfig
config = record {
  exit = 1 ∷ [];
  kskd = 2 ∷ [];
  entry = 3 ∷ [];
  chain_id = 4;
  rh_rpcs = urls;
  oracle_peers = [];
}

abbrev bare : BridgeState Bytes
bare = record {
  boot = ready;
  key = none;
  signer = none;
  pcr0 = [];
  version = 1;
  config = none;
  last_signed = [];
}

abbrev running : BridgeState Bytes
running = record bare { key = some (5 ∷ []); signer = some (5 ∷ []); config = some config }

abbrev grant_of : SignClaimResponse → ClaimGrant
grant_of (granted g) = g
grant_of (refused e) = record {
  signature = [];
  cumulative_burned = [];
  deadline = 0;
  signer = [];
  igra_block = 0;
}

abbrev payee : Bytes
payee = 6 ∷ []

abbrev requests : List (ℕ × BridgeRequest)
requests =
    (1210, configure_request (3 ∷ []) urls [])
    ∷ (1220, health_request)
    ∷ (1230, readiness_request)
    ∷ []

serve_keeps_identity_example :
    Fixed toy_crypto toy_wire ctx running (serve toy_crypto toy_wire ctx requests running 0).0
serve_keeps_identity_example = serve_keeps_identity toy_crypto toy_wire ctx requests running 0 refl

abbrev dead_and_live : List (Transport toy_wire)
dead_and_live = dead_node ∷ toy_node ∷ []

failover_moves_on :
    failover toy_wire dead_and_live "eth_blockNumber" (text []) (0, 0)
    ≡ (some (text (ascii "0x3e8")), (2, 1))
unfolding failover list_beq
failover_moves_on = refl

failover_dead :
    failover toy_wire (dead_node ∷ dead_node ∷ []) "eth_blockNumber" (text []) (0, 1)
    ≡ (none, (2, 1))
unfolding failover
failover_dead = refl

abbrev inputs : ClaimInputs
inputs = inputs_of toy_crypto toy_wire ctx running config payee

abbrev grant : ClaimGrant
grant = record {
  signature = b'0' ∷ b'x' ∷ 5 ∷ 27 ∷ [];
  cumulative_burned = 7 ∷ [];
  deadline = 4600;
  signer = 5 ∷ [];
  igra_block = 100;
}

grant_run : build_grant toy_crypto toy_wire (5 ∷ []) toy_node toy_node inputs 0 ≡ (granted grant, 7)
unfolding build_grant coded burned_finalized finalized_block read_block call_rpc list_beq field
    Option.bind parse_quantity parse_b256 eth_block_number eth_call_word eth_call_bytes
    read_block_hash format_quantity ensure_not_decreasing high_water lookup grant_steps new_grant
    encode_call decode_hex parse_digits block_id hex_char hex_digits hex_text hex_value
    is_ascii_hexdigit strip_0x u64_from_hex check_claimable claim_digest compute_deadline
    is_zero_address Claim.sign_claim contains address_from_key emit recover recover_with recovery_id
    self_check sign_recoverable forbidden
grant_run = refl

build_grant-Backed_example : Backed toy_crypto toy_wire (5 ∷ []) toy_node toy_node inputs 0 7 grant
build_grant-Backed_example =
    build_grant-Backed toy_crypto toy_wire (5 ∷ []) toy_node toy_node inputs 0 7 grant grant_run

abbrev paid : BridgeState Bytes
paid = record running { last_signed = (payee, 7) ∷ [] }

claim_run : sign_claim toy_crypto toy_wire ctx running payee 0 ≡ (granted grant, paid, 7)
unfolding build_grant coded burned_finalized finalized_block read_block call_rpc list_beq field
    Option.bind parse_quantity parse_b256 eth_block_number eth_call_word eth_call_bytes
    read_block_hash format_quantity ensure_not_decreasing high_water lookup grant_steps new_grant
    encode_call decode_hex parse_digits block_id hex_char hex_digits hex_text hex_value
    is_ascii_hexdigit strip_0x u64_from_hex check_claimable claim_digest compute_deadline
    is_zero_address Claim.sign_claim contains address_from_key emit recover recover_with recovery_id
    self_check sign_recoverable sign_claim sign_parsed request_grant live_grant failover
    failover_loop forbidden insert record_signed
claim_run = refl

served_run :
    serve toy_crypto toy_wire ctx ((1250, health_request) ∷ (1260, readiness_request) ∷ []) paid 7
    ≡ (paid, 12)
unfolding build_grant coded burned_finalized finalized_block read_block call_rpc list_beq field
    Option.bind parse_quantity parse_b256 eth_block_number eth_call_word eth_call_bytes
    read_block_hash format_quantity ensure_not_decreasing high_water lookup grant_steps new_grant
    encode_call decode_hex parse_digits block_id hex_char hex_digits hex_text hex_value
    is_ascii_hexdigit strip_0x u64_from_hex check_claimable claim_digest compute_deadline
    is_zero_address Claim.sign_claim contains address_from_key emit recover recover_with recovery_id
    self_check sign_recoverable sign_claim sign_parsed request_grant live_grant failover
    failover_loop forbidden insert record_signed serve handle health health_fields rh_fields
    health_reply is_valid_signer readiness
served_run = refl

abbrev second_grant : ClaimGrant
second_grant = record grant { cumulative_burned = 9 ∷ [] }

abbrev paid_more : BridgeState Bytes
paid_more = record running { last_signed = (payee, 9) ∷ [] }

second_run :
    sign_claim toy_crypto toy_wire (record ctx { enclave_now = 1300 }) paid payee 12
    ≡ (granted second_grant, paid_more, 19)
unfolding build_grant coded burned_finalized finalized_block read_block call_rpc list_beq field
    Option.bind parse_quantity parse_b256 eth_block_number eth_call_word eth_call_bytes
    read_block_hash format_quantity ensure_not_decreasing high_water lookup grant_steps new_grant
    encode_call decode_hex parse_digits block_id hex_char hex_digits hex_text hex_value
    is_ascii_hexdigit strip_0x u64_from_hex check_claimable claim_digest compute_deadline
    is_zero_address Claim.sign_claim contains address_from_key emit recover recover_with recovery_id
    self_check sign_recoverable sign_claim sign_parsed request_grant live_grant failover
    failover_loop forbidden insert record_signed
second_run = refl

grants_do_not_decrease_example :
    (n : ℕ) × (m : ℕ) × (grant.cumulative_burned ≡ toy_wire.u256_to_text n)
    × (second_grant.cumulative_burned ≡ toy_wire.u256_to_text m)
    × (n ≤ m)
grants_do_not_decrease_example =
    grants_do_not_decrease toy_crypto toy_wire ctx toy_fits toy_reads_back
      ((1250, health_request) ∷ (1260, readiness_request) ∷ []) 1200 1300 running paid paid
      paid_more payee payee payee 0 7 12 19 grant second_grant refl refl claim_run served_run
      second_run
