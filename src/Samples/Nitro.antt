-- ===== src/Samples/Nitro.antt =====
-- A small CBOR and certificates of one kind, for the parameters of crates/nitro-common/src/verify.rs.
use kaskad_nuntius.Prelude.{
  true, List, [], ◌∷◌, ◌++◌, Option, none, some, replicate, ◌==◌, nat_eq, list_eq, if◌then◌else◌,
}
use kaskad_nuntius.Policy.{Bytes}
use kaskad_nuntius.Chain.Text.{ascii}
use kaskad_nuntius.Attest.Document.{Cbor, ℤ, pos, negsuc}
use kaskad_nuntius.Attest.Der.RoundTrip.{der_signature}
use kaskad_nuntius.Attest.Verify.{Pki}

-- A value is its bytes; a few of them are arrays, maps or numbers.
abbrev pub measurement : Bytes
measurement = replicate 48 7

abbrev pub point : Bytes
point = 4 ∷ replicate 64 1

abbrev pub toy_array : Bytes → Option (List Bytes)
toy_array v =
    if v == 1 ∷ []
    then some ((3 ∷ []) ∷ (4 ∷ []) ∷ (2 ∷ []) ∷ replicate 96 5 ∷ [])
    else if v == 6 ∷ []
    then some ((21 ∷ []) ∷ (22 ∷ []) ∷ [])
    else none

abbrev pub toy_map : Bytes → Option (List (Bytes × Bytes))
toy_map v =
    if v == 2 ∷ []
    then some (
        (ascii "module_id", 8 ∷ [])
        ∷ (ascii "digest", ascii "SHA384")
        ∷ (ascii "timestamp", 9 ∷ [])
        ∷ (ascii "pcrs", 10 ∷ [])
        ∷ (ascii "public_key", point)
        ∷ (ascii "nonce", 11 ∷ [])
        ∷ (ascii "certificate", 12 ∷ [])
        ∷ (ascii "cabundle", 6 ∷ [])
        ∷ [])
    else if v == 3 ∷ []
    then some ((1 ∷ [], 34 ∷ []) ∷ [])
    else if v == 4 ∷ []
    then some []
    else if v == 10 ∷ []
    then some ((0 ∷ [], measurement) ∷ (1 ∷ [], measurement) ∷ (2 ∷ [], measurement) ∷ [])
    else none

abbrev pub toy_integer : Bytes → Option ℤ
toy_integer [] = none
toy_integer (b ∷ rest) = some (if b == 34 then negsuc 34 else if b == 9 then pos 50000 else pos b)

abbrev pub byte_of : ℤ → Bytes
byte_of (pos n) = n ∷ []
byte_of (negsuc n) = n ∷ []

abbrev pub joined : List Bytes → Bytes
joined [] = []
joined (b ∷ rest) = b ++ joined rest

abbrev pub toy_cbor : Cbor
toy_cbor = record {
  Value = Bytes;
  from_slice = λ b. some b;
  to_vec = λ v. some v;
  as_integer = toy_integer;
  as_bytes = λ v. some v;
  as_text = λ v. some v;
  as_array = toy_array;
  as_map = toy_map;
  text = ascii;
  integer = byte_of;
  bytes = λ b. b;
  array = joined;
  same = λ a b. a == b;
}

abbrev pub toy_pki : Pki
toy_pki = record {
  Certificate = Bytes;
  from_der = λ b. some b;
  not_before = λ b. 10;
  not_after = λ b. 100;
  basic_constraints = λ b. some (some true);
  key_cert_sign = λ b. some none;
  tbs_to_der = λ b. some b;
  signature_bytes = λ b. der_signature (5 ∷ []) (0 ∷ 200 ∷ []);
  subject_public_key = λ b. b;
  VerifyingKey = Bytes;
  Signature = Bytes;
  key_from_sec1 = λ b. some b;
  signature_from_slice = λ b. some b;
  verifies = λ k m s. true;
}
