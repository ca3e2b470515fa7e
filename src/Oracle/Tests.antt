-- ===== src/Oracle/Tests.antt =====
-- Runs of src/keyex_oracle/state.rs, over address parsers that read nothing, and of control.rs.
use kaskad_nuntius.Prelude.{
  ℕ, Option, true, ◌+◌, ok, replicate, if◌then◌else◌, ◌≡◌, refl, List, [], ◌∷◌, ◌++◌, none, some,
  ◌||◌, contains, Distinct, ◌==◌, nat_eq, list_eq, list_beq,
}
use kaskad_nuntius.Chain.Wire.{Wire}
use kaskad_nuntius.Samples.{registry, toy_crypto}
use kaskad_nuntius.Boot.Tick.{tick}
use kaskad_nuntius.Boot.Driver.{candidate, Loop, Seams, sweep, decide_action, act_on, step}
use kaskad_nuntius.Boot.Rules.{Listed}
use kaskad_nuntius.Boot.Registered.{address_of}
use kaskad_nuntius.Oracle.Discovery.{
  boot_deps, run_boot_with_discovery, run_boot_with_discovery_installs_registered,
}
use kaskad_nuntius.Policy.{
  mode_of_u8, role_of_u8, approval_version_matches_new_image, Bytes, VerifiedApproval, oracle,
  carry,
}
use kaskad_nuntius.Oracle.State.{
  OracleKeyexState, approval_eq, new_oracle_state, add_approval, set_peer_hints,
}
use kaskad_nuntius.Chain.Text.{strip_0x, u64_from_hex, hex_digits, hex_value, ascii, u64_to_text}
use kaskad_nuntius.Sig.{recover, recover_with, recovery_id, address_from_key}
use kaskad_nuntius.Approval.{
  effective_quorum, satisfiable, surviving, push_surviving, verify_approvals, distinct_signers,
  count_signer, from_request,
}
use kaskad_nuntius.Chain.Quantity.{decode_hex}
use kaskad_nuntius.Oracle.Fields.{
  trim, skip, trim_0x, decimal_digits, u64_from_decimal, text_number, value_number,
  parse_u64_flexible, parse_u8_flexible, parse_hex_bytes,
}
use kaskad_nuntius.Oracle.Control.{
  ControlCtx, approval_reply, resolve_quorum, narrowed, process_approval, verified,
  parse_approval_request, parse_message, check_domain, text_is, parse_signatures, push_signature,
}
use kaskad_nuntius.Oracle.Dispatch.{Hardware, approval, handle_oracle_request}
use kaskad_nuntius.Oracle.Requests.{SameKey, handle_oracle_request-SameKey}
use kaskad_nuntius.Oracle.Approved.{Approved, approval_reply-Approved}
use kaskad_nuntius.Oracle.Peers.{
  AddressText, normalize_peer, is_space_or_control, lowercase, in_brackets, refused_text,
  normalize_host, host_and_port, bounded_peers,
}
use Prim.Native.String.{String}
use mathlib.Core.Option
use kaskad_nuntius.Oracle.State.{peer_snapshot}

abbrev no_addresses : AddressText
no_addresses = record { socket_addr = λ b. none; ip_addr = λ b. none; ipv6_addr = λ b. none }

normalize_default_port :
    normalize_peer no_addresses (ascii "Mate.example.") ≡ some (ascii "mate.example:8443")
unfolding normalize_peer refused_text list_beq is_space_or_control in_brackets normalize_host
    host_and_port lowercase u64_to_text
normalize_default_port = refl

normalize_with_port : normalize_peer no_addresses (ascii "a-b.c:99") ≡ some (ascii "a-b.c:99")
unfolding normalize_peer refused_text list_beq is_space_or_control in_brackets normalize_host
    host_and_port lowercase u64_to_text
normalize_with_port = refl

normalize_refused : normalize_peer no_addresses (ascii "-a.c:99") ≡ none
unfolding normalize_peer refused_text list_beq is_space_or_control in_brackets normalize_host
    host_and_port
normalize_refused = refl

abbrev given : List Bytes
given = ascii "a.b" ∷ ascii "A.B:8443" ∷ ascii "c.d:1" ∷ []

bounded_run : bounded_peers no_addresses given ≡ ascii "a.b:8443" ∷ ascii "c.d:1" ∷ []
unfolding bounded_peers normalize_peer refused_text list_beq is_space_or_control in_brackets
    normalize_host host_and_port contains lowercase u64_to_text
bounded_run = refl

abbrev hinted : OracleKeyexState
hinted = set_peer_hints no_addresses new_oracle_state given

abbrev approved : VerifiedApproval
approved = record {
  pcr0 = 1 ∷ [];
  version = 2;
  mode = carry;
  label = [];
  role = oracle;
  expiry = 9;
  nonce = [];
}

abbrev with_approval : OracleKeyexState
with_approval = record {
  boot_state = new_oracle_state.boot_state;
  source = new_oracle_state.source;
  signer_addr = none;
  signer_pubkey = none;
  root_key = none;
  approvals = approved ∷ [];
  oracle_peers = [];
}

approved-Distinct : Distinct with_approval.approvals
unfolding contains
approved-Distinct = (refl, tt)

-- An approval document: its domain and its message, with the fields that are read.
data Doc : Type 0 where
  whole domain message : Doc
  leaf : Bytes → Doc
  count : ℕ → Doc

abbrev domain_field : Bytes → Option Doc
domain_field name =
    if name == ascii "name"
    then some (leaf (ascii "Kaskad Keyex"))
    else if name == ascii "version"
    then some (leaf (ascii "1"))
    else if name == ascii "chainId"
    then some (leaf (ascii " 0x10 "))
    else none

abbrev message_field : Bytes → Option Doc
message_field name =
    if name == ascii "pcr0"
    then some (leaf (replicate 48 1))
    else if name == ascii "expiry"
    then some (leaf (ascii "50"))
    else if name == ascii "label" || name == ascii "nonce"
    then some (leaf (replicate 32 2))
    else some (count 1)

abbrev doc_field : Doc → String → Option Doc
doc_field whole name = if ascii name == ascii "domain" then some domain else some message
doc_field domain name = domain_field (ascii name)
doc_field message name = message_field (ascii name)
doc_field (leaf b) name = none
doc_field (count n) name = none

abbrev doc_text : Doc → Option Bytes
doc_text (leaf b) = some b
doc_text whole = none
doc_text domain = none
doc_text message = none
doc_text (count n) = none

abbrev doc_number : Doc → Option (Option ℕ)
doc_number (count n) = some (some n)
doc_number (leaf b) = none
doc_number whole = none
doc_number domain = none
doc_number message = none

abbrev doc_wire : Wire
doc_wire = record {
  World = ℕ;
  Value = Doc;
  get = doc_field;
  as_str = doc_text;
  as_number = doc_number;
  string = leaf;
  boolean = λ b. message;
  array = λ l. message;
  object = λ l. message;
  hex_decode = λ b. some b;
  hex_encode_prefixed = λ b. b;
  address_to_string = λ b. b;
  address_from_text = λ b. some b;
  u256_from_be = λ b. 0;
  u256_to_text = λ n. [];
  u256_from_text = λ b. none;
}

abbrev owner : Bytes
owner = replicate 64 3

abbrev ctx : ControlCtx doc_wire
ctx = record {
  pcr0 = replicate 48 9;
  version = 7;
  owners = owner ∷ [];
  threshold = 1;
  quorum = λ w. (some (owner ∷ [], 1), w + 1);
  chain_id = 16;
  registry = [];
}

abbrev vacant : OracleKeyexState
vacant = record with_approval { approvals = [] }

abbrev now_approved : OracleKeyexState
now_approved = record vacant {
  approvals =
      record {
        pcr0 = replicate 48 1;
        version = 1;
        mode = carry;
        label = replicate 32 2;
        role = oracle;
        expiry = 50;
        nonce = replicate 32 2;
      }
      ∷ [];
}

approval_run :
    approval_reply toy_crypto doc_wire ctx vacant whole ((owner ++ 27 ∷ []) ∷ []) 10 0
    ≡ (ok tt, now_approved, 1)
unfolding approval_reply resolve_quorum narrowed process_approval verified parse_approval_request
    parse_message check_domain text_is parse_signatures push_signature trim skip trim_0x
    decimal_digits u64_from_decimal text_number value_number parse_u64_flexible parse_u8_flexible
    parse_hex_bytes effective_quorum satisfiable surviving push_surviving verify_approvals
    distinct_signers count_signer recover recover_with recovery_id address_from_key contains
    list_beq Option.bind strip_0x u64_from_hex hex_digits hex_value decode_hex mode_of_u8 role_of_u8
    approval_version_matches_new_image from_request add_approval
approval_run = refl

approval_reply-Approved_example :
    Approved toy_crypto doc_wire ctx whole ((owner ++ 27 ∷ []) ∷ []) 10 0 1 vacant now_approved
approval_reply-Approved_example =
    approval_reply-Approved toy_crypto doc_wire ctx vacant now_approved whole
      ((owner ++ 27 ∷ []) ∷ []) 10 0 1 approval_run

abbrev hardware : Hardware doc_wire
hardware = record {
  clock = λ w. (some 10, w);
  opens = λ w. (true, w);
  attest = λ asked pubkey w. (none, w);
}

handle_oracle_request-SameKey_example :
    SameKey vacant
      (handle_oracle_request toy_crypto doc_wire no_addresses hardware ctx
        (approval whole ((owner ++ 27 ∷ []) ∷ []))
        vacant
        0).1
handle_oracle_request-SameKey_example =
    handle_oracle_request-SameKey toy_crypto doc_wire no_addresses hardware ctx
      (approval whole ((owner ++ 27 ∷ []) ∷ [])) vacant 0

-- A boot with no peers: a candidate is generated, and installed once the registry lists it.
abbrev seams : Seams ℕ Bytes
seams = record {
  fetch = λ endpoint kind w. (ok none, w + 1);
  view = registry;
  generate = λ w. (some (7 ∷ []), w + 1);
  backoff = λ w. w + 1;
}

abbrev booted : Loop ℕ Bytes
booted = record { state = record { held = none }; world = 4 }

boot_run :
    run_boot_with_discovery toy_crypto seams no_addresses (λ b. "") (λ w. new_oracle_state) [] 2 0
    ≡ (some (candidate (7 ∷ [])), booted)
unfolding run_boot_with_discovery step decide_action tick sweep act_on list_beq address_from_key
    peer_snapshot bounded_peers new_oracle_state
boot_run = refl

run_boot_with_discovery_installs_registered_example : Listed registry (
    address_of toy_crypto seams
      (boot_deps toy_crypto seams no_addresses (λ b. "") (λ w. new_oracle_state) [] 0)
      (candidate (7 ∷ [])))
run_boot_with_discovery_installs_registered_example =
    run_boot_with_discovery_installs_registered toy_crypto seams no_addresses (λ b. "")
      (λ w. new_oracle_state) [] 2 0 (candidate (7 ∷ [])) booted boot_run
