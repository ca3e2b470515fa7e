-- ===== src/Attest/Verify/Chain.antt =====
-- What the certificate chain of a document that crates/nitro-common/src/verify.rs accepts proves.
use mathlib.Core.Option
use kaskad_nuntius.Prelude.{
  ℕ, ◌≤◌, ◌≡◌, refl, ◌⊎◌, inl, inr, Bool, true, false, ◌&&◌, List, [], ◌∷◌, Option, none, some, ok,
  ok_or, and_then, map_err, and_then-ok, ok_or-ok, map_err-ok, length, ◌==◌, nat_eq, list_eq, arith,
}
use kaskad_nuntius.Policy.{Bytes}
use kaskad_nuntius.Chain.Text.{or_else}
use kaskad_nuntius.Attest.Der.{ecdsa_der_to_fixed}
use kaskad_nuntius.Attest.Verify.{
  Pki, is_true, allowed, VerifyError, check, check_validity, require_ca, verify_es384,
  check_signature, check_issuer, check_link, chain_loop,
}

-- A check that succeeds was met.
pub check-ok : {E : Type 0} (b : Bool) (e : E) {u : Unit {0}} → check b e ≡ ok u → b ≡ true
check-ok true e h = refl
check-ok false e h = cc

and_right : (a b : Bool) → (a && b) ≡ true → b ≡ true
and_right true b h = h
and_right false b h = cc

module _ (k : Pki) where
  open k use {Certificate}

  -- The key and the signature are well formed, and the signature is the key's over the message.
  abbrev pub HasSigned : Bytes → Bytes → Bytes → Type 0
  HasSigned pubkey message sig =
      (vk : k.VerifyingKey) × (s : k.Signature) × (k.key_from_sec1 pubkey ≡ some vk)
      × (k.signature_from_slice sig ≡ some s)
      × (k.verifies vk message s ≡ true)

  -- The certificate of an issuer: marked as a CA, and if it restricts the use of its key, then not
  -- against signing certificates.
  abbrev pub IsIssuer : List Bytes → Certificate → Type 0
  IsIssuer [] cert = Unit
  IsIssuer (next ∷ rest) cert =
      (k.basic_constraints cert ≡ some (some true))
      × ((k.key_cert_sign cert ≡ some none) ⊎ (k.key_cert_sign cert ≡ some (some true)))

  abbrev pub IsSignedBy : Option Bytes → Certificate → Type 0
  IsSignedBy none cert = Unit
  IsSignedBy (some parent) cert =
      (tbs : Bytes) × (sig : Bytes) × (k.tbs_to_der cert ≡ some tbs)
      × (ecdsa_der_to_fixed (k.signature_bytes cert) ≡ ok sig)
      × HasSigned parent tbs sig

  abbrev pub IsLink : ℕ → Option Bytes → List Bytes → Bytes → Bytes → Type 0
  IsLink now issuer rest der key =
      (cert : Certificate) × (k.from_der der ≡ some cert)
      × (k.not_before cert ≤ now)
      × (now ≤ k.not_after cert)
      × IsIssuer rest cert
      × IsSignedBy issuer cert
      × (k.subject_public_key cert ≡ key)

  -- Certificates of which each is valid now and signed with the key of the one before it, all but the
  -- last are issuers, and the last has the key `leaf`.
  abbrev pub IsChain : ℕ → Option Bytes → Bytes → List Bytes → Bytes → Type 0
  IsChain now issuer last [] leaf = last ≡ leaf
  IsChain now issuer last (der ∷ rest) leaf =
      (key : Bytes) × IsLink now issuer rest der key × IsChain now (some key) key rest leaf

  tested :
      (message : Bytes) (o : Option k.VerifyingKey) (q : Option k.Signature)
      → or_else (Option.bind o (λ vk. Option.map (λ s. k.verifies vk message s) q)) false ≡ true
      → (vk : k.VerifyingKey) × (s : k.Signature) × (o ≡ some vk)
        × (q ≡ some s)
        × (k.verifies vk message s ≡ true)
  unfolding Option.bind
  tested message none q h = cc
  tested message (some vk) none h = cc
  tested message (some vk) (some s) h = (vk, s, refl, refl, h)

  pub verify_es384-HasSigned :
      (pubkey message sig : Bytes)
      → verify_es384 k pubkey message sig ≡ true
      → HasSigned pubkey message sig
  unfolding verify_es384
  verify_es384-HasSigned pubkey message sig h =
      tested message (k.key_from_sec1 pubkey) (k.signature_from_slice sig)
        (and_right (length sig == 96) _ h)

  issuer_tests :
      (bc ku : Option (Option Bool)) (e e' : VerifyError)
      → and_then (check (is_true k bc) e) (λ _. check (allowed k ku) e') ≡ ok tt
      → (bc ≡ some (some true)) × ((ku ≡ some none) ⊎ (ku ≡ some (some true)))
  issuer_tests (some (some true)) (some (some true)) e e' h = (refl, inr refl)
  issuer_tests (some (some true)) (some none) e e' h = (refl, inl refl)
  issuer_tests (some (some true)) (some (some false)) e e' h = cc
  issuer_tests (some (some true)) none e e' h = cc
  issuer_tests (some (some false)) ku e e' h = cc
  issuer_tests (some none) ku e e' h = cc
  issuer_tests none ku e e' h = cc

  check_issuer-IsIssuer :
      (rest : List Bytes) (cert : Certificate)
      → check_issuer k rest cert ≡ ok tt
      → IsIssuer rest cert
  unfolding check_issuer require_ca
  check_issuer-IsIssuer [] cert h = tt
  check_issuer-IsIssuer (next ∷ rest) cert h =
      issuer_tests (k.basic_constraints cert) (k.key_cert_sign cert) _ _ h

  check_signature-IsSignedBy :
      (issuer : Option Bytes) (cert : Certificate)
      → check_signature k issuer cert ≡ ok tt
      → IsSignedBy issuer cert
  unfolding check_signature
  check_signature-IsSignedBy none cert h = tt
  check_signature-IsSignedBy (some parent) cert h =
      let (tbs, p, h₁) = and_then-ok (ok_or (k.tbs_to_der cert) VerifyError.no_tbs) _ h in
      let (sig, q, h₂) =
        and_then-ok
          (map_err (λ _. VerifyError.bad_der) (ecdsa_der_to_fixed (k.signature_bytes cert))) _ h₁ in
      (
        tbs,
        sig,
        ok_or-ok (k.tbs_to_der cert) VerifyError.no_tbs p,
        map_err-ok _ _ q,
        verify_es384-HasSigned parent tbs sig (check-ok _ _ h₂),
      )

  check_validity-within :
      (cert : Certificate) (now : ℕ)
      → check_validity k cert now ≡ ok tt
      → (k.not_before cert ≤ now) × (now ≤ k.not_after cert)
  unfolding check_validity
  check_validity-within cert now h = ground arith

  check_link-IsLink :
      (now : ℕ) (issuer : Option Bytes) (rest : List Bytes) (der key : Bytes)
      → check_link k now issuer rest der ≡ ok key
      → IsLink now issuer rest der key
  unfolding check_link
  check_link-IsLink now issuer rest der key h =
      let (cert, p, h₁) = and_then-ok (ok_or (k.from_der der) VerifyError.bad_certificate) _ h in
      let (u, q, h₂) = and_then-ok (check_validity k cert now) _ h₁ in
      let (u', r, h₃) = and_then-ok (check_issuer k rest cert) _ h₂ in
      let (u'', s, h₄) = and_then-ok (check_signature k issuer cert) _ h₃ in
      let v = check_validity-within cert now q in
      (
        cert,
        ok_or-ok (k.from_der der) VerifyError.bad_certificate p,
        v.0,
        v.1,
        check_issuer-IsIssuer rest cert r,
        check_signature-IsSignedBy issuer cert s,
        cc,
      )

  pub chain_loop-IsChain :
      (now : ℕ) (issuer : Option Bytes) (last : Bytes) (ders : List Bytes) (leaf : Bytes)
      → chain_loop k now issuer last ders ≡ ok leaf
      → IsChain now issuer last ders leaf
  unfolding chain_loop
  chain_loop-IsChain now issuer last [] leaf h = cc
  chain_loop-IsChain now issuer last (der ∷ rest) leaf h =
      let (key, p, h₁) = and_then-ok (check_link k now issuer rest der) _ h in
      (
        key,
        check_link-IsLink now issuer rest der key p,
        chain_loop-IsChain now (some key) key rest leaf h₁,
      )
