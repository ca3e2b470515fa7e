-- ===== src/Ratls/Exchange.antt =====
-- The exchange of crates/keyex/src/ratls.rs behind the TLS handshake, with the child keys of
-- crates/keyex/src/kdf.rs. The verifier, the attestation of the hardware module, HKDF-SHA256 and the
-- parser of certificates are parameters.
use kaskad_nuntius.Prelude.{
  ℕ, Bool, false, ◌&&◌, List, [], ◌∷◌, ◌++◌, Option, none, some, Result, ok, err, ok_or, and_then,
  map_err, Act, ◌>>=◌, lift, pure, length, drop, ◌==◌, nat_eq, if◌then◌else◌,
}
use kaskad_nuntius.Policy.{
  Bytes, EnclaveRole, HandoffRefusal, KeyDecision, own_key, child_key, refuse, ImageIdentity,
  VerifiedApproval, decide_handover, FetchKind, ClientRefusal, ClientDecision, accept, reject,
  client_accepts_server,
}
use kaskad_nuntius.Chain.Text.{ascii}
use kaskad_nuntius.Ratls.Binding.{AttestationView, check_nonce, check_peer_key}
use kaskad_nuntius.Ratls.Framing.{
  Link, Fault, bad_nonce, not_attested, no_leaf, tls_failed, bad_point, write_frame, read_frame,
}

-- `Hkdf::<Sha256>::new(salt, ikm)` and `expand(info)` to 32 bytes
abbrev pub Hkdf : Type 0
Hkdf = Bytes → Bytes → Bytes → Bytes

abbrev pub keyex_salt : Bytes
keyex_salt = ascii "kaskad-keyex-v1"

abbrev pub keyex_info_prefix : Bytes
keyex_info_prefix = ascii "kaskad/pontifex/"

unfoldable pub derive_child : Hkdf → Bytes → Bytes → Bytes
derive_child hkdf root label = hkdf keyex_salt root (keyex_info_prefix ++ label)

abbrev pub nonce_len : ℕ
nonce_len = 32

pub record VerifiedPeer : Type 0 where
  pub pcr0 : Bytes
  pub nonce : Option Bytes
  pub public_key : Bytes

pub data ExchangeRefusal : Type 0 where
  attestation_invalid nonce_mismatch key_mismatch server_declined protocol : ExchangeRefusal
  policy_refused : HandoffRefusal → ExchangeRefusal
  client_rejected : ClientRefusal → ExchangeRefusal

pub data ServerExchange : Type 0 where
  handed_own_key handed_child : ServerExchange
  refused : ExchangeRefusal → ServerExchange

pub data ClientExchange : Type 0 where
  installed : Bytes → ClientExchange
  refused : ExchangeRefusal → ClientExchange

-- `Channel` less its stream: our nonce and TLS point, the peer's TLS point, `PeerVerifier::verify` of a
-- document and our nonce, `AttestFn::attest` of the peer's nonce and our point.
pub record Channel : Type 0 where
  pub my_nonce : Bytes
  pub my_point : Bytes
  pub peer_point : Bytes
  pub verify : Bytes → Bytes → Option VerifiedPeer
  pub attest : Bytes → Bytes → Option Bytes

pub record HandoverInputs : Type 0 where
  pub own : ImageIdentity
  pub role : EnclaveRole
  pub own_key_is_candidate : Bool
  pub approvals : List VerifiedApproval

pub record AcceptInputs : Type 0 where
  pub kind : FetchKind
  pub own_pcr0 : Bytes
  pub baked_ancestors : List Bytes

-- `try_into` of a frame to a nonce.
unfoldable pub nonce_of : Bytes → Result Fault Bytes
nonce_of b = if length b == nonce_len then ok b else err bad_nonce

unfoldable pub nonce_and_doc_exchange : Channel → Act Link Fault (Bytes × Bytes)
unfolding nonce_of
nonce_and_doc_exchange ctx = do
  _ ← write_frame ctx.my_nonce
  peer_nonce_bytes ← read_frame
  peer_nonce ← lift (nonce_of peer_nonce_bytes)
  my_doc ← lift (ok_or (ctx.attest peer_nonce ctx.my_point) not_attested)
  _ ← write_frame my_doc
  peer_doc ← read_frame
  pure (peer_nonce, peer_doc)

abbrev pub view_of : VerifiedPeer → AttestationView
view_of v = record { nonce = v.nonce; public_key = v.public_key }

unfoldable pub bind_peer : Channel → VerifiedPeer → Result ExchangeRefusal VerifiedPeer
bind_peer ctx v =
    and_then (map_err (λ _. nonce_mismatch) (check_nonce (view_of v) ctx.my_nonce)) (λ _.
      and_then (map_err (λ _. key_mismatch) (check_peer_key (view_of v) ctx.peer_point))
        (λ _. ok v))

unfoldable pub evaluate_peer : Channel → Bytes → Result ExchangeRefusal VerifiedPeer
unfolding bind_peer
evaluate_peer ctx peer_doc =
    and_then (ok_or (ctx.verify peer_doc ctx.my_nonce) attestation_invalid) (bind_peer ctx)

abbrev pub tag_decline : ℕ
tag_decline = 0

abbrev pub tag_grant : ℕ
tag_grant = 1

-- The decline frame is sent if it can be: an error of the write is dropped.
unfoldable pub decline : ExchangeRefusal → Act Link Fault ServerExchange
decline reason l = (ok (refused reason), (write_frame (tag_decline ∷ []) l).1)

unfoldable pub hand_over : Hkdf → Bytes → KeyDecision → Act Link Fault ServerExchange
unfolding decline derive_child
hand_over hkdf key own_key = write_frame (tag_grant ∷ key) >>= (λ _. pure handed_own_key)
hand_over hkdf key (child_key label) =
    write_frame (tag_grant ∷ derive_child hkdf key label) >>= (λ _. pure handed_child)
hand_over hkdf key (refuse r) = decline (policy_refused r)

unfoldable pub decide_for :
    Hkdf
    → HandoverInputs
    → Bytes
    → Result ExchangeRefusal VerifiedPeer
    → Act Link Fault ServerExchange
unfolding decline hand_over
decide_for hkdf inputs key (err reason) = decline reason
decide_for hkdf inputs key (ok v) =
    hand_over hkdf key
      (decide_handover inputs.own inputs.role v.pcr0 inputs.own_key_is_candidate inputs.approvals)

unfoldable pub answer_peer :
    Hkdf
    → Channel
    → HandoverInputs
    → Bytes
    → Result Fault (Bytes × Bytes) × Link
    → Result Fault ServerExchange × Link
unfolding decline decide_for
answer_peer hkdf ctx inputs key (err e, l) = decline protocol l
answer_peer hkdf ctx inputs key (ok (peer_nonce, peer_doc), l) =
    decide_for hkdf inputs key (evaluate_peer ctx peer_doc) l

unfoldable pub server_exchange :
    Hkdf → Channel → HandoverInputs → Bytes → Act Link Fault ServerExchange
unfolding answer_peer
server_exchange hkdf ctx inputs key l =
    answer_peer hkdf ctx inputs key (nonce_and_doc_exchange ctx l)

-- What the client makes of the grant frame.
abbrev is_grant : Bytes → Bool
is_grant [] = false
is_grant (tag ∷ key) = tag == tag_grant && length key == 32

unfoldable pub receive : ClientDecision → Bytes → ClientExchange
receive (reject r) frame =
    if is_grant frame then refused (client_rejected r) else refused server_declined
receive accept frame = if is_grant frame then installed (drop 1 frame) else refused server_declined

-- The frame of the server is read and dropped, whatever it is.
unfoldable pub drain_and_refuse : ExchangeRefusal → Act Link Fault ClientExchange
drain_and_refuse reason l = (ok (refused reason), (read_frame l).1)

unfoldable pub take_grant :
    AcceptInputs → Result ExchangeRefusal VerifiedPeer → Act Link Fault ClientExchange
unfolding drain_and_refuse receive
take_grant inputs (err reason) = drain_and_refuse reason
take_grant inputs (ok v) = do
  frame ← read_frame
  pure (
      receive (client_accepts_server inputs.kind inputs.own_pcr0 v.pcr0 inputs.baked_ancestors)
        frame)

unfoldable pub client_exchange : Channel → AcceptInputs → Act Link Fault ClientExchange
unfolding take_grant
client_exchange ctx inputs =
    nonce_and_doc_exchange ctx >>= (λ p. take_grant inputs (evaluate_peer ctx p.1))

-- A point that is not compressed has 65 bytes, of which the first is 4.
abbrev pub is_point : Bytes → Bool
is_point [] = false
is_point (tag ∷ body) = tag == 4 && length body == 64

-- `Certificate::from_der` and the bits of its public key, of which the 65 bytes of a point are taken.
unfoldable pub public_point_from_cert : (Bytes → Option Bytes) → Bytes → Result Fault Bytes
public_point_from_cert key_bits cert =
    and_then (ok_or (key_bits cert) bad_point)
      (λ point. if is_point point then ok point else err bad_point)

-- The leaf that the live session has proved.
unfoldable pub live_peer_point : (Bytes → Option Bytes) → Option (List Bytes) → Result Fault Bytes
unfolding public_point_from_cert
live_peer_point key_bits (some (leaf ∷ chain)) = public_point_from_cert key_bits leaf
live_peer_point key_bits (some []) = err no_leaf
live_peer_point key_bits none = err no_leaf

-- A TLS session, if the handshake succeeds: the certificates that the peer presented.
abbrev pub Session : Type 0
Session = Option (Option (List Bytes))

unfoldable pub run_server_handshake :
    (Bytes → Option Bytes)
    → Hkdf
    → Session
    → Channel
    → HandoverInputs
    → Bytes
    → Act Link Fault ServerExchange
unfolding live_peer_point
run_server_handshake key_bits hkdf session hs inputs key = do
  certs ← lift (ok_or session tls_failed)
  peer_point ← lift (live_peer_point key_bits certs)
  server_exchange hkdf (record hs { peer_point = peer_point }) inputs key

unfoldable pub run_client_handshake :
    (Bytes → Option Bytes) → Session → Channel → AcceptInputs → Act Link Fault ClientExchange
unfolding live_peer_point
run_client_handshake key_bits session hs inputs = do
  certs ← lift (ok_or session tls_failed)
  peer_point ← lift (live_peer_point key_bits certs)
  client_exchange (record hs { peer_point = peer_point }) inputs
