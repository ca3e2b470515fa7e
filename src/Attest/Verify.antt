-- ===== src/Attest/Verify.antt =====
-- crates/nitro-common/src/verify.rs: the verification of an attestation document. X.509 certificates
-- (x509-cert) and ECDSA over P-384 (p384) are the fields of one record.
pub mod Chain
pub mod Trust
use Prim.Native.String.{String}
use mathlib.Core.Option
use kaskad_nuntius.Prelude.{
  ℕ, ◌+◌, ◌-◌, ◌*◌, ◌/◌, ◌^◌, min, Bool, true, false, not, ◌&&◌, ◌||◌, List, [], ◌∷◌, ◌++◌, Option,
  none, some, Result, ok, err, ok_or, and_then, map_err, ltb, leb, length, drop, ◌==◌, nat_eq,
  list_eq, if◌then◌else◌,
}
use kaskad_nuntius.Policy.{Bytes}
use kaskad_nuntius.Crypto.{Crypto}
use kaskad_nuntius.Chain.Text.{ascii, or_else}
use kaskad_nuntius.Ratls.Binding.{ct_eq}
use kaskad_nuntius.Ratls.Exchange.{is_point}
use kaskad_nuntius.Attest.Document.{
  Cbor, ℤ, pos, negsuc, AttestationDoc, DocError, pcr, get, parse_attestation_doc,
}
use kaskad_nuntius.Attest.Der.{DerError, ecdsa_der_to_fixed}

pub record Pki : Type 1 where
  pub Certificate : Type 0
  -- Certificate::from_der
  pub from_der : Bytes → Option Certificate
  -- the validity in seconds of Unix time
  pub not_before : Certificate → ℕ
  pub not_after : Certificate → ℕ
  -- an extension: no answer if it does not decode, and none if there is none
  pub basic_constraints : Certificate → Option (Option Bool)
  pub key_cert_sign : Certificate → Option (Option Bool)
  -- tbs_certificate.to_der(), signature.raw_bytes(), the bits of the public key
  pub tbs_to_der : Certificate → Option Bytes
  pub signature_bytes : Certificate → Bytes
  pub subject_public_key : Certificate → Bytes
  -- p384: VerifyingKey::from_sec1_bytes, Signature::from_slice, Verifier::verify
  pub VerifyingKey : Type 0
  pub Signature : Type 0
  pub key_from_sec1 : Bytes → Option VerifyingKey
  pub signature_from_slice : Bytes → Option Signature
  pub verifies : VerifyingKey → Bytes → Signature → Bool

pub data VerifyError : Type 0 where
  document : DocError → VerifyError
  bad_digest no_pcr bad_pcr bad_public_key no_public_key nonce_mismatch : VerifyError
  in_the_future stale : VerifyError
  no_cabundle wrong_root bad_certificate not_valid_yet expired not_a_ca no_cert_sign : VerifyError
  no_tbs bad_der bad_signature : VerifyError
  cose_decode not_cose bad_protected bad_unprotected bad_payload bad_cose_signature : VerifyError
  bad_header not_es384 not_encoded : VerifyError

pub record VerifiedAttestation : Type 0 where
  pub pcr0 : Bytes
  pub pcr1 : Bytes
  pub pcr2 : Bytes
  pub enclave_signer : Bytes
  pub public_key : Bytes
  pub timestamp : ℕ

abbrev pub pcr_len : ℕ
pcr_len = 48

abbrev pub clock_skew_secs : ℕ
clock_skew_secs = 300

abbrev pub check : {E : Type 0} → Bool → E → Result E (Unit {0})
check true e = ok tt
check false e = err e

abbrev pub is_pcr : Option Bytes → Bool
is_pcr none = false
is_pcr (some p) = length p == pcr_len

-- The loop over the first three PCRs.
unfoldable pub check_pcrs : AttestationDoc → List ℕ → Result VerifyError (Unit {0})
unfolding pcr
check_pcrs doc [] = ok tt
check_pcrs doc (idx ∷ rest) =
    and_then (ok_or (pcr doc idx) no_pcr)
      (λ p. and_then (check (length p == pcr_len) bad_pcr) (λ _. check_pcrs doc rest))

abbrev pub nonce_matches : Option Bytes → Option Bytes → Bool
nonce_matches none found = true
nonce_matches (some expected) none = false
nonce_matches (some expected) (some n) = ct_eq n expected

unfoldable pub semantic_checks : AttestationDoc → Option Bytes → Result VerifyError (Unit {0})
unfolding check_pcrs
semantic_checks doc expected_nonce =
    and_then (check (doc.digest == ascii "SHA384") bad_digest) (λ _.
      and_then (check_pcrs doc (0 ∷ 1 ∷ 2 ∷ [])) (λ _.
        and_then (ok_or doc.public_key no_public_key) (λ pk.
          and_then (check (is_point pk) bad_public_key)
            (λ _. check (nonce_matches expected_nonce doc.nonce) nonce_mismatch))))

-- `saturating_add` of u64; `-` on natural numbers is `saturating_sub`.
abbrev pub saturating_add : ℕ → ℕ → ℕ
saturating_add a b = min (a + b) (2 ^ 64 - 1)

unfoldable pub check_freshness : ℕ → ℕ → ℕ → Result VerifyError (Unit {0})
check_freshness ts_millis now_secs max_age_secs =
    if ltb (saturating_add now_secs clock_skew_secs) (ts_millis / 1000)
    then err in_the_future
    else if ltb max_age_secs (now_secs - ts_millis / 1000)
    then err stale
    else ok tt

unfoldable pub fresh_if : Option ℕ → ℕ → ℕ → Result VerifyError (Unit {0})
unfolding check_freshness
fresh_if none ts now = ok tt
fresh_if (some max_age) ts now = check_freshness ts now max_age

unfoldable pub check_root : Bytes → List Bytes → Result VerifyError (Unit {0})
check_root pinned_root [] = err no_cabundle
check_root pinned_root (root ∷ rest) = check (root == pinned_root) wrong_root

module _ (k : Pki) where
  open k use {Certificate}

  unfoldable pub check_validity : Certificate → ℕ → Result VerifyError (Unit {0})
  check_validity cert now =
      if ltb now (k.not_before cert)
      then err not_valid_yet
      else if ltb (k.not_after cert) now
      then err expired
      else ok tt

  abbrev pub is_true : Option (Option Bool) → Bool
  is_true (some (some b)) = b
  is_true (some none) = false
  is_true none = false

  -- An absent key usage is tolerated; one that does not decode is not.
  abbrev pub allowed : Option (Option Bool) → Bool
  allowed (some (some b)) = b
  allowed (some none) = true
  allowed none = false

  unfoldable pub require_ca : Certificate → Result VerifyError (Unit {0})
  require_ca cert =
      and_then (check (is_true (k.basic_constraints cert)) not_a_ca)
        (λ _. check (allowed (k.key_cert_sign cert)) no_cert_sign)

  -- The key, the signature and the test of `verify_es384`, each a failure of its own in the code.
  unfoldable pub verify_es384 : Bytes → Bytes → Bytes → Bool
  verify_es384 pubkey message sig =
      length sig == 96
      && or_else
          (Option.bind (k.key_from_sec1 pubkey)
            (λ vk. Option.map (λ s. k.verifies vk message s) (k.signature_from_slice sig)))
          false

  unfoldable pub check_signature : Option Bytes → Certificate → Result VerifyError (Unit {0})
  unfolding verify_es384
  check_signature none cert = ok tt
  check_signature (some parent) cert = and_then (ok_or (k.tbs_to_der cert) no_tbs) (λ tbs.
      and_then (map_err (λ _. bad_der) (ecdsa_der_to_fixed (k.signature_bytes cert)))
        (λ sig. check (verify_es384 parent tbs sig) bad_signature))

  -- Every certificate but the last has to be an issuer's.
  unfoldable pub check_issuer : List Bytes → Certificate → Result VerifyError (Unit {0})
  unfolding require_ca
  check_issuer [] cert = ok tt
  check_issuer (next ∷ rest) cert = require_ca cert

  -- One round of the loop: the key of the certificate.
  unfoldable pub check_link : ℕ → Option Bytes → List Bytes → Bytes → Result VerifyError Bytes
  unfolding check_validity check_issuer check_signature
  check_link now issuer rest cert_der =
      and_then (ok_or (k.from_der cert_der) bad_certificate) (λ cert.
        and_then (check_validity cert now) (λ _.
          and_then (check_issuer rest cert)
            (λ _. and_then (check_signature issuer cert) (λ _. ok (k.subject_public_key cert)))))

  unfoldable pub chain_loop : ℕ → Option Bytes → Bytes → List Bytes → Result VerifyError Bytes
  unfolding check_link
  chain_loop now issuer leaf [] = ok leaf
  chain_loop now issuer leaf (der ∷ rest) =
      and_then (check_link now issuer rest der) (λ spki. chain_loop now (some spki) spki rest)

  -- The leaf's key, from the chain that begins with the pinned root and ends with the leaf.
  unfoldable pub verify_cert_chain : AttestationDoc → ℕ → Bytes → Result VerifyError Bytes
  unfolding check_root chain_loop
  verify_cert_chain doc now pinned_root =
      and_then (check_root pinned_root doc.cabundle)
        (λ _. chain_loop now none [] (doc.cabundle ++ (doc.certificate ∷ [])))

pub record CoseParts : Type 0 where
  pub protected : Bytes
  pub payload : Bytes
  pub signature : Bytes

module _ (x : Cbor) where
  open x use {Value}

  abbrev pub is_empty_map : Option (List (Value × Value)) → Bool
  is_empty_map (some []) = true
  is_empty_map (some (e ∷ rest)) = false
  is_empty_map none = false

  -- -35, in the map of the protected header
  abbrev pub is_es384 : Option ℤ → Bool
  is_es384 (some (negsuc n)) = n == 34
  is_es384 (some (pos n)) = false
  is_es384 none = false

  unfoldable pub check_header : Bytes → Result VerifyError (Unit {0})
  unfolding get
  check_header protected = and_then (ok_or (x.from_slice protected) bad_header) (λ header.
      and_then (ok_or (x.as_map header) bad_header) (λ map.
        check (is_es384 (Option.bind (get x map (x.integer (pos 1))) x.as_integer)) not_es384))

  unfoldable pub parts_of : List Value → Result VerifyError CoseParts
  unfolding check_header
  parts_of (a ∷ b ∷ c ∷ d ∷ []) = and_then (ok_or (x.as_bytes a) bad_protected) (λ protected.
      and_then (check (is_empty_map (x.as_map b)) bad_unprotected) (λ _.
        and_then (ok_or (x.as_bytes c) bad_payload) (λ payload.
          and_then (ok_or (x.as_bytes d) bad_cose_signature) (λ signature.
            and_then (check_header protected) (λ _.
              ok (record { protected = protected; payload = payload; signature = signature }))))))
  parts_of _ = err not_cose

  unfoldable pub cose_parts : Bytes → Result VerifyError CoseParts
  unfolding parts_of
  cose_parts cose =
      and_then (ok_or (x.from_slice cose) cose_decode)
        (λ outer. and_then (ok_or (x.as_array outer) not_cose) parts_of)

  unfoldable pub sig_structure : Bytes → Bytes → Result VerifyError Bytes
  sig_structure protected payload =
      ok_or
        (x.to_vec
          (x.array (x.text "Signature1" ∷ x.bytes protected ∷ x.bytes [] ∷ x.bytes payload ∷ [])))
        not_encoded

module _ (c : Crypto) where
  unfoldable pub eth_address : Bytes → Result VerifyError Bytes
  eth_address public_key =
      if is_point public_key
      then ok (drop 12 (c.keccak256 (drop 1 public_key)))
      else err bad_public_key

  unfoldable pub pcr_array : AttestationDoc → ℕ → Result VerifyError Bytes
  unfolding pcr
  pcr_array doc idx =
      and_then (ok_or (pcr doc idx) no_pcr)
        (λ p. and_then (check (length p == pcr_len) bad_pcr) (λ _. ok p))

  -- What a document that has passed every check is read as.
  unfoldable pub verified_of : AttestationDoc → Result VerifyError VerifiedAttestation
  unfolding eth_address pcr_array
  verified_of doc = and_then (ok_or doc.public_key no_public_key) (λ public_key.
      and_then (eth_address public_key) (λ enclave_signer. and_then (pcr_array doc 0) (λ pcr0.
        and_then (pcr_array doc 1) (λ pcr1. and_then (pcr_array doc 2) (λ pcr2. ok (record {
          pcr0 = pcr0;
          pcr1 = pcr1;
          pcr2 = pcr2;
          enclave_signer = enclave_signer;
          public_key = public_key;
          timestamp = doc.timestamp;
        }))))))

module _ (x : Cbor) (k : Pki) (c : Crypto) where
  unfoldable pub check_cose : Bytes → Bytes → Result VerifyError (Unit {0})
  unfolding cose_parts sig_structure
  check_cose doc_bytes leaf_pubkey = and_then (cose_parts x doc_bytes) (λ parts.
      and_then (sig_structure x parts.protected parts.payload) (λ to_be_signed.
        check (verify_es384 k leaf_pubkey to_be_signed parts.signature) bad_cose_signature))

  unfoldable pub verify_with_root :
      Bytes → ℕ → Option ℕ → Option Bytes → Bytes → Result VerifyError VerifiedAttestation
  unfolding semantic_checks fresh_if verify_cert_chain check_cose verified_of
  verify_with_root doc_bytes now max_age expected_nonce pinned_root =
      and_then (map_err document (parse_attestation_doc x doc_bytes)) (λ doc.
        and_then (semantic_checks doc expected_nonce) (λ _.
          and_then (fresh_if max_age doc.timestamp now) (λ _.
            and_then (verify_cert_chain k doc now pinned_root) (λ leaf_pubkey.
              and_then (check_cose doc_bytes leaf_pubkey) (λ _. verified_of c doc)))))
