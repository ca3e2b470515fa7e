-- ===== src/Oracle/Handover/Tests.antt =====
-- A handover of src/keyex_oracle/handover.rs to a successor with the same image, and an arrival.
use kaskad_nuntius.Prelude.{
  Option, ◌+◌, ok, replicate, if◌then◌else◌, ◌≡◌, refl, List, [], ◌∷◌, ◌++◌, none, some, nat_eq,
  list_eq, list_beq, leb, Any, ◌⊎◌, false,
}
use kaskad_nuntius.Policy.Handover.{IsNewerCarry}
use kaskad_nuntius.Attest.Verify.{VerifiedAttestation, verify_with_root}
use kaskad_nuntius.Attest.Verify.Trust.{IsTrusted}
use kaskad_nuntius.Oracle.Handover.Inflight.{IsCounted, arrive_admits}
use kaskad_nuntius.Oracle.Handover.Served.{handle_handover_conn-own_key}
use kaskad_nuntius.Samples.{toy_crypto}
use kaskad_nuntius.Samples.Nitro.{measurement, toy_cbor, toy_pki}
use kaskad_nuntius.Policy.{ImageIdentity, Bytes, oracle, decide_handover}
use kaskad_nuntius.Bridge.State.{ready}
use kaskad_nuntius.Oracle.State.{genesis, OracleKeyexState, approval_eq}
use kaskad_nuntius.Ratls.Framing.{Link, frame, read_frame, write_frame}
use kaskad_nuntius.Ratls.Exchange.{
  Channel, handed_own_key, run_server_handshake, server_exchange, live_peer_point, evaluate_peer,
  nonce_and_doc_exchange,
}
use kaskad_nuntius.Attest.Document.{parse_attestation_doc}
use kaskad_nuntius.Attest.Peer.{nsm_verify}
use kaskad_nuntius.Oracle.Handover.{
  arrive, no_handovers, max_handover_inflight, Reachable, start, after, arrives,
  handle_handover_conn, serve_prepared, serve_key,
}
use kaskad_nuntius.Server.{be_bytes}
use kaskad_nuntius.Server.Reading.{be_u32}
use kaskad_nuntius.Ratls.Binding.{check_nonce, check_peer_key, ct_eq}
use kaskad_nuntius.Attest.Der.{ecdsa_der_to_fixed}
use mathlib.Core.Option

abbrev point : Bytes
point = 4 ∷ replicate 64 1

-- The hardware answers any nonce with one document.
abbrev prepared : Channel
prepared = record {
  my_nonce = 11 ∷ [];
  my_point = 4 ∷ replicate 64 2;
  peer_point = [];
  verify = nsm_verify toy_cbor toy_pki toy_crypto 60 (21 ∷ []);
  attest = λ n p. some (9 ∷ []);
}

abbrev own_image : ImageIdentity
own_image = record { pcr0 = measurement; version = 1 }

abbrev installed_state : OracleKeyexState
installed_state = record {
  boot_state = ready;
  source = genesis;
  signer_addr = none;
  signer_pubkey = none;
  root_key = some (replicate 32 7);
  approvals = [];
  oracle_peers = [];
}

abbrev successor : Link
successor = record { coming = frame (replicate 32 3) ++ frame (1 ∷ []); sent = []; room = 100 }

abbrev served_link : Link
served_link = record {
  coming = [];
  sent = frame (11 ∷ []) ++ (frame (9 ∷ []) ++ frame (1 ∷ replicate 32 7));
  room = 53;
}

served :
    handle_handover_conn some
      (λ salt key info. key)
      own_image
      (some (some (point ∷ [])))
      installed_state
      (some prepared)
      installed_state
      successor
    ≡ (ok (some handed_own_key), served_link)
unfolding handle_handover_conn serve_prepared serve_key run_server_handshake server_exchange
    live_peer_point evaluate_peer verify_with_root parse_attestation_doc nonce_and_doc_exchange
    write_frame be_bytes read_frame be_u32 nsm_verify list_beq Option.bind ct_eq ecdsa_der_to_fixed
    check_nonce check_peer_key decide_handover
served = refl

handle_handover_conn-own_key_example :
    (certs : Option (List Bytes)) × (p : Bytes) × (doc : Bytes) × (v : VerifiedAttestation) × (some
        (some (point ∷ []))
      ≡ some certs)
    × (live_peer_point some certs ≡ ok p)
    × IsTrusted toy_cbor toy_pki toy_crypto doc 60 none (some (11 ∷ [])) (21 ∷ []) v
    × (v.public_key ≡ p)
    × ((v.pcr0 ≡ measurement) ⊎ Any (IsNewerCarry own_image oracle v.pcr0) [])
handle_handover_conn-own_key_example =
    handle_handover_conn-own_key toy_cbor toy_pki toy_crypto 60 (21 ∷ []) some
      (λ salt key info. key) own_image (some (some (point ∷ []))) installed_state installed_state
      prepared successor served_link refl served

arrived : Reachable (arrive no_handovers)
arrived = after start (arrives refl)

arrive_admits_example :
    IsCounted (arrive no_handovers)
    × ((arrive no_handovers).dropping ≡ false
        → ((arrive (arrive no_handovers)).guards ≡ (
            if leb max_handover_inflight (arrive no_handovers).guards
            then (arrive no_handovers).guards
            else (arrive no_handovers).guards + 1)))
arrive_admits_example = arrive_admits (arrive no_handovers) arrived
