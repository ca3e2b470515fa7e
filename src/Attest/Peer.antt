-- ===== src/Attest/Peer.antt =====
-- `NsmPeerVerifier` of crates/keyex/src/ratls.rs: the verification of a peer's document over the code of
-- crates/nitro-common, and what a channel that uses it is bound to.
use kaskad_nuntius.Prelude.{ℕ, ◌≡◌, refl, sym, ap, ◌∙◌, Option, none, some, Result, ok, err}
use kaskad_nuntius.Policy.{Bytes}
use kaskad_nuntius.Crypto.{Crypto}
use kaskad_nuntius.Ratls.Exchange.{VerifiedPeer, Channel, evaluate_peer}
use kaskad_nuntius.Ratls.Secrecy.{evaluate_peer_iff}
use kaskad_nuntius.Attest.Document.{Cbor, AttestationDoc, DocError, parse_attestation_doc}
use kaskad_nuntius.Attest.Verify.{Pki, VerifyError, VerifiedAttestation, verify_with_root}
use kaskad_nuntius.Attest.Verify.Trust.{IsTrusted, verify_with_root-IsTrusted}

module _ (x : Cbor) (k : Pki) (c : Crypto) where
  -- The second parse is for the nonce, which the verification drops.
  unfoldable pub peer_of :
      Result VerifyError VerifiedAttestation → Result DocError AttestationDoc → Option VerifiedPeer
  peer_of (ok v) (ok doc) =
      some (record { pcr0 = v.pcr0; nonce = doc.nonce; public_key = v.public_key })
  peer_of (ok v) (err e) = none
  peer_of (err e) parsed = none

  unfoldable pub nsm_verify : ℕ → Bytes → Bytes → Bytes → Option VerifiedPeer
  unfolding peer_of
  nsm_verify now_unix_secs pinned_root doc my_nonce =
      peer_of (verify_with_root x k c doc now_unix_secs none (some my_nonce) pinned_root)
        (parse_attestation_doc x doc)

  peer_of-attested :
      (r : Result VerifyError VerifiedAttestation) (parsed : Result DocError AttestationDoc)
      (peer : VerifiedPeer)
      → peer_of r parsed ≡ some peer
      → (v : VerifiedAttestation) × (r ≡ ok v)
        × (v.pcr0 ≡ peer.pcr0)
        × (v.public_key ≡ peer.public_key)
  unfolding peer_of
  peer_of-attested (ok v) (ok doc) peer h = (v, refl, cc, cc)
  peer_of-attested (ok v) (err e) peer h = cc
  peer_of-attested (err e) parsed peer h = cc

  -- A peer that is accepted over a channel with the production verifier has sent a document that is
  -- trusted for our nonce at the clock of the channel, whose key is the one of the peer's side of the TLS
  -- session and whose PCR0 is the one that the policy is asked about.
  pub evaluate_peer-IsTrusted :
      (now : ℕ) (root : Bytes) (ctx : Channel) (doc : Bytes) (peer : VerifiedPeer)
      → ctx.verify ≡ nsm_verify now root
      → evaluate_peer ctx doc ≡ ok peer
      → (v : VerifiedAttestation) × IsTrusted x k c doc now none (some ctx.my_nonce) root v
        × (v.pcr0 ≡ peer.pcr0)
        × (v.public_key ≡ ctx.peer_point)
  unfolding nsm_verify
  evaluate_peer-IsTrusted now root ctx doc peer u h =
      let bound = (evaluate_peer_iff ctx doc peer).0 h in
      let seen : nsm_verify now root doc ctx.my_nonce ≡ some peer =
        ap (λ (f : Bytes → Bytes → Option VerifiedPeer). f doc ctx.my_nonce) (sym u) ∙ bound.0 in
      let (v, r, p, q) =
        peer_of-attested (verify_with_root x k c doc now none (some ctx.my_nonce) root)
          (parse_attestation_doc x doc) peer seen in
      (
        v,
        verify_with_root-IsTrusted x k c doc now none (some ctx.my_nonce) root v r,
        p,
        q ∙ bound.2,
      )
