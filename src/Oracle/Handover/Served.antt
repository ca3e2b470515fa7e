-- ===== src/Oracle/Handover/Served.antt =====
-- To whom a connection of src/keyex_oracle/handover.rs serves the root key.
use kaskad_nuntius.Prelude.{
  ℕ, ◌≡◌, refl, ◌⊎◌, Option, none, some, Result, ok, err, ok_or, >>=-eq-ok, ok_or-ok, lift, pure,
  Any, arith, inl, inr, Option-cases, List, false,
}
use kaskad_nuntius.Policy.{Bytes, oracle, KeyDecision, own_key, child_key, refuse, ImageIdentity}
use kaskad_nuntius.Policy.Handover.{IsNewerCarry, decide_handover_own_key}
use kaskad_nuntius.Crypto.{Crypto}
use kaskad_nuntius.Ratls.Framing.{Link, Fault, tls_failed, write_frame}
use kaskad_nuntius.Ratls.Exchange.{
  Hkdf, Session, Channel, HandoverInputs, VerifiedPeer, ExchangeRefusal, handed_own_key,
  handed_child, nonce_and_doc_exchange, evaluate_peer, decline, hand_over, decide_for, answer_peer,
  server_exchange, live_peer_point, run_server_handshake,
}
use kaskad_nuntius.Ratls.Secrecy.{decision_of}
use kaskad_nuntius.Attest.Document.{Cbor}
use kaskad_nuntius.Attest.Verify.{Pki, VerifiedAttestation}
use kaskad_nuntius.Attest.Verify.Trust.{IsTrusted}
use kaskad_nuntius.Attest.Peer.{nsm_verify, evaluate_peer-IsTrusted}
use kaskad_nuntius.Oracle.State.{OracleKeyexState}
use kaskad_nuntius.Oracle.Handover.{
  handover_inputs, serve_key, serve_prepared, handle_handover_conn,
}

hand_over-own_key :
    (hkdf : Hkdf) (key : Bytes) (d : KeyDecision) (l l' : Link)
    → hand_over hkdf key d l ≡ (ok handed_own_key, l')
    → d ≡ own_key
unfolding hand_over decline
hand_over-own_key hkdf key own_key l l' h = refl
hand_over-own_key hkdf key (child_key label) l l' h =
    let (u, l₁, p, q) = >>=-eq-ok (write_frame _) (λ _. pure handed_child) l h in cc
hand_over-own_key hkdf key (refuse r) l l' h = cc

answer_peer-own_key :
    (hkdf : Hkdf) (ctx : Channel) (inputs : HandoverInputs) (key : Bytes)
    (r : Result Fault (Bytes × Bytes) × Link) (l' : Link)
    → answer_peer hkdf ctx inputs key r ≡ (ok handed_own_key, l')
    → (doc : Bytes) × (v : VerifiedPeer) × (evaluate_peer ctx doc ≡ ok v)
      × (decision_of inputs v ≡ own_key)
unfolding answer_peer decide_for decline
answer_peer-own_key hkdf ctx inputs key (err e, l) l' h = cc
answer_peer-own_key hkdf ctx inputs key (ok (n, doc), l) l' h =
    let (v, e, d) = decided (evaluate_peer ctx doc) refl h in (doc, v, e, d)
  where
    decided :
        (r : Result ExchangeRefusal VerifiedPeer)
        → evaluate_peer ctx doc ≡ r
        → decide_for hkdf inputs key r l ≡ (ok handed_own_key, l')
        → (v : VerifiedPeer) × (evaluate_peer ctx doc ≡ ok v) × (decision_of inputs v ≡ own_key)
    decided (ok v) e k = (v, e, hand_over-own_key hkdf key (decision_of inputs v) l l' k)
    decided (err x) e k = cc

-- What the peer of a connection is known by when it is handed the key.
abbrev Serves :
    (Bytes → Option Bytes) → ImageIdentity → Session → OracleKeyexState → Channel → Type 0
Serves key_bits own session st hs =
    (certs : Option (List Bytes)) × (point : Bytes) × (doc : Bytes) × (v : VerifiedPeer) × (session
      ≡ some certs)
    × (live_peer_point key_bits certs ≡ ok point)
    × (evaluate_peer (record hs { peer_point = point }) doc ≡ ok v)
    × ((v.pcr0 ≡ own.pcr0) ⊎ Any (IsNewerCarry own oracle v.pcr0) st.approvals)

module _ (key_bits : Bytes → Option Bytes) (hkdf : Hkdf) (own : ImageIdentity) (session : Session)
    (hs : Channel) where
  serve_key-own_key :
      (st : OracleKeyexState) (key : Option Bytes) (l l' : Link)
      → serve_key key_bits hkdf own session st hs key l ≡ (ok (some handed_own_key), l')
      → Serves key_bits own session st hs
  unfolding serve_key run_server_handshake server_exchange
  serve_key-own_key st none l l' h = cc
  serve_key-own_key st (some key) l l' h =
      let (done, l₁, p, q) =
        >>=-eq-ok (run_server_handshake key_bits hkdf session hs (handover_inputs own st) key) _ l
          h in
      let e : done ≡ handed_own_key = ground arith in
      let (certs, l₂, p₁, h₁) = >>=-eq-ok (lift (ok_or session tls_failed)) _ l p in
      let (point, l₃, p₂, h₂) = >>=-eq-ok (lift (live_peer_point key_bits certs)) _ l₂ h₁ in
      let ctx = record hs { peer_point = point } in
      let (doc, v, a, d) =
        answer_peer-own_key hkdf ctx (handover_inputs own st) key (nonce_and_doc_exchange ctx l₃) l₁
          (rw e at h₂) in
      (
        certs,
        point,
        doc,
        v,
        ok_or-ok session tls_failed (ground (arith, p₁)),
        ground (arith, p₂),
        a,
        (decide_handover_own_key own oracle v.pcr0 false st.approvals d).1,
      )

  serve_prepared-own_key :
      (st : OracleKeyexState) (l l' : Link)
      → serve_prepared key_bits hkdf own session st (some hs) l ≡ (ok (some handed_own_key), l')
      → Serves key_bits own session st hs
  unfolding serve_prepared
  serve_prepared-own_key st l l' h = serve_key-own_key st st.root_key l l' h

  handle_handover_conn-Serves :
      (st later : OracleKeyexState) (l l' : Link)
      → handle_handover_conn key_bits hkdf own session st (some hs) later l
        ≡ (ok (some handed_own_key), l')
      → Serves key_bits own session later hs
  unfolding handle_handover_conn
  handle_handover_conn-Serves st later l l' h = elim (Option-cases st.root_key) [
    | inl e ↦ cc (rw e at h)
    | inr (key, e) ↦ serve_prepared-own_key later l l' (rw e at h)
  ]

-- If a connection serves the oracle's own key, and the verifier is the one of production, then the peer
-- has presented a live certificate, and a document that is trusted for our nonce at the clock of the
-- connection, whose key is the point of that certificate; and the image in it is our own, or one for
-- which the state holds a carry approval of the oracle's role at a newer version.
pub handle_handover_conn-own_key :
    (x : Cbor) (k : Pki) (c : Crypto) (now : ℕ) (root : Bytes) (key_bits : Bytes → Option Bytes)
    (hkdf : Hkdf) (own : ImageIdentity) (session : Session) (st later : OracleKeyexState)
    (hs : Channel) (l l' : Link)
    → hs.verify ≡ nsm_verify x k c now root
    → handle_handover_conn key_bits hkdf own session st (some hs) later l
      ≡ (ok (some handed_own_key), l')
    → (certs : Option (List Bytes)) × (point : Bytes) × (doc : Bytes) × (v : VerifiedAttestation)
      × (session ≡ some certs)
      × (live_peer_point key_bits certs ≡ ok point)
      × IsTrusted x k c doc now none (some hs.my_nonce) root v
      × (v.public_key ≡ point)
      × ((v.pcr0 ≡ own.pcr0) ⊎ Any (IsNewerCarry own oracle v.pcr0) later.approvals)
handle_handover_conn-own_key x k c now root key_bits hkdf own session st later hs l l' u h =
    let (certs, point, doc, peer, s, p, e, d) =
      handle_handover_conn-Serves key_bits hkdf own session hs st later l l' h in
    let ctx = record hs { peer_point = point } in
    let (v, t, q, b) = evaluate_peer-IsTrusted x k c now root ctx doc peer u e in
    (certs, point, doc, v, s, p, t, b, rw q d)
