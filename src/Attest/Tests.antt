-- ===== src/Attest/Tests.antt =====
-- Runs of crates/nitro-common/src/verify.rs over a small CBOR and certificates of one kind.
use mathlib.Core.Option
use kaskad_nuntius.Prelude.{
  ◌≡◌, refl, inl, inr, List, [], ◌∷◌, ◌++◌, some, ok, length, replicate, nat_eq, list_eq, arith,
}
use kaskad_nuntius.Policy.{Bytes}
use kaskad_nuntius.Samples.{toy_crypto}
use kaskad_nuntius.Server.Payload.{of_be}
use kaskad_nuntius.Attest.Document.{parse_attestation_doc}
use kaskad_nuntius.Attest.Der.{ecdsa_der_to_fixed}
use kaskad_nuntius.Attest.Der.RoundTrip.{der_signature, ecdsa_der_to_fixed-der_signature}
use kaskad_nuntius.Attest.Verify.{VerifiedAttestation, verify_with_root}
use kaskad_nuntius.Attest.Verify.Trust.{IsTrusted, verify_with_root-IsTrusted}
use kaskad_nuntius.Prelude.{list_beq}
use kaskad_nuntius.Attest.Random.{failure, NsmResponse, random}
use kaskad_nuntius.Ratls.Binding.{ct_eq}
use kaskad_nuntius.Samples.Nitro.{measurement, point, toy_cbor, toy_pki}

abbrev attestation : VerifiedAttestation
attestation = record {
  pcr0 = measurement;
  pcr1 = measurement;
  pcr2 = measurement;
  enclave_signer = replicate 52 1;
  public_key = point;
  timestamp = 50000;
}

accepted :
    verify_with_root toy_cbor toy_pki toy_crypto (1 ∷ []) 60 (some 20) (some (11 ∷ [])) (21 ∷ [])
    ≡ ok attestation
unfolding verify_with_root parse_attestation_doc list_beq Option.bind ct_eq ecdsa_der_to_fixed
accepted = refl

verify_with_root-IsTrusted_example :
    IsTrusted toy_cbor toy_pki toy_crypto
      (1 ∷ [])
      60
      (some 20)
      (some (11 ∷ []))
      (21 ∷ [])
      attestation
verify_with_root-IsTrusted_example =
    verify_with_root-IsTrusted toy_cbor toy_pki toy_crypto (1 ∷ []) 60 (some 20) (some (11 ∷ []))
      (21 ∷ []) attestation accepted

ecdsa_der_to_fixed-der_signature_example :
    (high : Bytes) × (low : Bytes) × (ecdsa_der_to_fixed (der_signature (5 ∷ []) (0 ∷ 200 ∷ []))
      ≡ ok (high ++ low))
    × (length high ≡ 48)
    × (length low ≡ 48)
    × (of_be 0 high ≡ 5)
    × (of_be 0 low ≡ 200)
ecdsa_der_to_fixed-der_signature_example =
    ecdsa_der_to_fixed-der_signature (5 ∷ []) (0 ∷ 200 ∷ []) (omega arith, inl (omega arith))
      (omega arith, inr (200 ∷ [], refl, omega arith))

abbrev answers : List NsmResponse
answers = random (replicate 100 1) ∷ random (replicate 200 2) ∷ failure ∷ []
