-- ===== src/Ratls/Tests.antt =====
-- Runs of the exchange of crates/keyex/src/ratls.rs between two small enclaves.
use kaskad_nuntius.Prelude.{
  ℕ, ◌≡◌, refl, false, [], ◌∷◌, ◌++◌, Option, none, some, ok, replicate, length, list_beq, arith,
}
use kaskad_nuntius.Policy.{
  Bytes, oracle, root_from_root, accept, client_accepts_server, decide_handover,
}
use kaskad_nuntius.Server.{be_bytes}
use kaskad_nuntius.Ratls.Framing.{Link, frame, write_frame, read_frame}
use kaskad_nuntius.Ratls.Exchange.{
  Hkdf, VerifiedPeer, handed_own_key, installed, Channel, HandoverInputs, AcceptInputs,
  server_exchange, client_exchange, tag_grant,
}
use kaskad_nuntius.Ratls.Secrecy.{
  IsBound, KeepsSecret, server_exchange-KeepsSecret, client_exchange-installed,
}
use kaskad_nuntius.Ratls.Transfer.{IsHonest, server_exchange-client_exchange}
use kaskad_nuntius.Ratls.Exchange.{evaluate_peer, nonce_and_doc_exchange}
use kaskad_nuntius.Server.Reading.{be_u32}
use kaskad_nuntius.Ratls.Binding.{check_nonce, check_peer_key, ct_eq}

-- A document is the nonce behind the point, and it is verified to be that.
abbrev toy_attest : Bytes → Bytes → Option Bytes
toy_attest nonce point = some (point ++ nonce)

abbrev toy_verify : Bytes → Bytes → Option VerifiedPeer
toy_verify [] nonce = none
toy_verify (b ∷ doc) nonce =
    some (record { pcr0 = 7 ∷ []; nonce = some nonce; public_key = b ∷ [] })

abbrev toy_hkdf : Hkdf
toy_hkdf salt ikm info = ikm

abbrev side : ℕ → ℕ → Channel
side mine theirs = record {
  my_nonce = replicate 32 mine;
  my_point = mine ∷ [];
  peer_point = theirs ∷ [];
  verify = toy_verify;
  attest = toy_attest;
}

abbrev seen : ℕ → ℕ → VerifiedPeer
seen mine theirs = record {
  pcr0 = 7 ∷ [];
  nonce = some (replicate 32 mine);
  public_key = theirs ∷ [];
}

abbrev offer : HandoverInputs
offer = record {
  own = record { pcr0 = 7 ∷ []; version = 1 };
  role = oracle;
  own_key_is_candidate = false;
  approvals = [];
}

abbrev wish : AcceptInputs
wish = record { kind = root_from_root; own_pcr0 = 7 ∷ []; baked_ancestors = [] }

abbrev root_key : Bytes
root_key = replicate 32 9

honest :
    (mine theirs : ℕ)
    → IsHonest
        (side mine theirs)
        (replicate 32 theirs)
        (mine ∷ replicate 32 theirs)
        (theirs ∷ replicate 32 mine)
        200
honest mine theirs = record {
  my_nonce_size = refl;
  peer_nonce_size = refl;
  attested = refl;
  my_doc_size = omega arith;
  peer_doc_size = omega arith;
  enough_room = omega arith;
}

server_exchange-client_exchange_example :
    (done : Link) × (server_exchange toy_hkdf (side 1 2) offer root_key (record {
      coming = frame (replicate 32 2) ++ (frame (2 ∷ replicate 32 1) ++ []);
      sent = [];
      room = 200;
    })
      ≡ (ok handed_own_key, done))
    × ((client_exchange (side 2 1) wish (record { coming = done.sent; sent = []; room = 200 })).0
        ≡ ok (installed root_key))
unfolding decide_handover client_accepts_server list_beq
server_exchange-client_exchange_example =
    server_exchange-client_exchange toy_hkdf (side 1 2) (side 2 1) offer wish root_key
      (1 ∷ replicate 32 2) (2 ∷ replicate 32 1) 200 (seen 1 2) (seen 2 1) (honest 1 2) (honest 2 1)
      (refl, refl, refl, λ h. cc) (refl, refl, refl, λ h. cc) refl refl refl

server_exchange-KeepsSecret_example :
    KeepsSecret toy_hkdf
      (side 1 2)
      offer
      root_key
      (replicate 32 8)
      (server_exchange toy_hkdf
        (side 1 2)
        offer
        root_key
        (record { coming = frame (replicate 32 2); sent = []; room = 90 }))
      (server_exchange toy_hkdf
        (side 1 2)
        offer
        (replicate 32 8)
        (record { coming = frame (replicate 32 2); sent = []; room = 90 }))
server_exchange-KeepsSecret_example =
    server_exchange-KeepsSecret toy_hkdf (side 1 2) offer root_key (replicate 32 8)
      (record { coming = frame (replicate 32 2); sent = []; room = 90 })

abbrev answer : Link
answer = record {
  coming = frame (replicate 32 1) ++ (frame (1 ∷ []) ++ frame (tag_grant ∷ root_key));
  sent = [];
  room = 200;
}

abbrev installed_at : Link
installed_at = record {
  coming = [];
  sent = frame (replicate 32 2) ++ frame (2 ∷ replicate 32 1);
  room = 127;
}

installs : client_exchange (side 2 1) wish answer ≡ (ok (installed root_key), installed_at)
unfolding client_exchange nonce_and_doc_exchange write_frame be_bytes read_frame be_u32
    evaluate_peer check_nonce ct_eq check_peer_key client_accepts_server list_beq
installs = refl

client_exchange-installed_example :
    (nonce : Bytes) × (doc : Bytes) × (v : VerifiedPeer) × (before : Link) × (nonce_and_doc_exchange
        (side 2 1)
        answer
      ≡ (ok (nonce, doc), before))
    × IsBound (side 2 1) doc v
    × (client_accepts_server root_from_root (7 ∷ []) v.pcr0 [] ≡ accept)
    × (read_frame before ≡ (ok (tag_grant ∷ root_key), installed_at))
    × (length root_key ≡ 32)
client_exchange-installed_example =
    client_exchange-installed (side 2 1) wish answer installed_at root_key installs
