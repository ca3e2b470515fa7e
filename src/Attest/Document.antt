-- ===== src/Attest/Document.antt =====
-- crates/nitro-common/src/attest.rs: the structural decoding of an attestation document. CBOR values
-- (serde_cbor) are a parameter; a `BTreeMap` is the list of its entries.
use Prim.Native.String.{String}
use kaskad_nuntius.Prelude.{
  ℕ, ◌^◌, Bool, List, [], ◌∷◌, Option, none, some, Result, ok, err, ok_or, and_then, ltb, ◌==◌,
  nat_eq, if◌then◌else◌,
}
use kaskad_nuntius.Policy.{Bytes}
use mathlib.Core.Option

-- `i128`; `negsuc n` is -(n + 1).
pub data ℤ : Type 0 where
  pos negsuc : ℕ → ℤ

pub record Cbor : Type 1 where
  pub Value : Type 0
  -- serde_cbor::from_slice, serde_cbor::to_vec
  pub from_slice : Bytes → Option Value
  pub to_vec : Value → Option Bytes
  -- what a value holds, if it is of the variant
  pub as_integer : Value → Option ℤ
  pub as_bytes : Value → Option Bytes
  pub as_text : Value → Option Bytes
  pub as_array : Value → Option (List Value)
  pub as_map : Value → Option (List (Value × Value))
  -- Value::Text, Value::Integer, Value::Bytes, Value::Array
  pub text : String → Value
  pub integer : ℤ → Value
  pub bytes : Bytes → Value
  pub array : List Value → Value
  -- `Ord` finds the values equal
  pub same : Value → Value → Bool

pub record AttestationDoc : Type 0 where
  pub module_id : Bytes
  pub digest : Bytes
  pub timestamp : ℕ
  pub pcrs : List (ℕ × Bytes)
  pub public_key : Option Bytes
  pub user_data : Option Bytes
  pub nonce : Option Bytes
  pub certificate : Bytes
  pub cabundle : List Bytes

pub data DocError : Type 0 where
  cose_decode not_an_array wrong_length payload_not_bytes payload_decode not_a_map : DocError
  no_text no_integer no_pcrs pcrs_not_a_map bad_pcr_index pcr_not_bytes no_certificate : DocError
  no_cabundle cabundle_not_bytes : DocError

-- `BTreeMap::get` and `BTreeMap::insert` of the PCRs.
unfoldable pub get_pcr : ℕ → List (ℕ × Bytes) → Option Bytes
get_pcr index [] = none
get_pcr index ((i, b) ∷ rest) = if i == index then some b else get_pcr index rest

unfoldable pub insert_pcr : ℕ → Bytes → List (ℕ × Bytes) → List (ℕ × Bytes)
insert_pcr index b [] = (index, b) ∷ []
insert_pcr index b ((i, old) ∷ rest) =
    if i == index then (index, b) ∷ rest else (i, old) ∷ insert_pcr index b rest

unfoldable pub pcr : AttestationDoc → ℕ → Option Bytes
unfolding get_pcr
pcr doc index = get_pcr index doc.pcrs

-- An integer from 0 to the largest of its width.
unfoldable pub unsigned : ℕ → Option ℤ → Option ℕ
unsigned width (some (pos n)) = if ltb n (2 ^ width) then some n else none
unsigned width (some (negsuc n)) = none
unsigned width none = none

module _ (x : Cbor) where
  open x use {Value}

  unfoldable pub get : List (Value × Value) → Value → Option Value
  get [] key = none
  get ((k, v) ∷ map) key = if x.same k key then some v else get map key

  unfoldable pub text : List (Value × Value) → String → Result DocError Bytes
  unfolding get
  text map key = ok_or (Option.bind (get map (x.text key)) x.as_text) no_text

  unfoldable pub u64_of : List (Value × Value) → String → Result DocError ℕ
  unfolding get unsigned
  u64_of map key = ok_or (unsigned 64 (Option.bind (get map (x.text key)) x.as_integer)) no_integer

  unfoldable pub optional_bytes : List (Value × Value) → String → Option Bytes
  unfolding get
  optional_bytes map key = Option.bind (get map (x.text key)) x.as_bytes

  -- The loop over the entries of `pcrs`.
  unfoldable pub pcr_loop :
      List (ℕ × Bytes) → List (Value × Value) → Result DocError (List (ℕ × Bytes))
  unfolding unsigned insert_pcr
  pcr_loop pcrs [] = ok pcrs
  pcr_loop pcrs ((k, v) ∷ rest) =
      and_then (ok_or (unsigned 16 (x.as_integer k)) bad_pcr_index) (λ idx.
        and_then (ok_or (x.as_bytes v) pcr_not_bytes) (λ b. pcr_loop (insert_pcr idx b pcrs) rest))

  -- The `collect` of a `Result` for each entry of the chain.
  unfoldable pub bundle_of : List Value → Result DocError (List Bytes)
  bundle_of [] = ok []
  bundle_of (v ∷ rest) =
      and_then (ok_or (x.as_bytes v) cabundle_not_bytes)
        (λ b. and_then (bundle_of rest) (λ bundle. ok (b ∷ bundle)))

  unfoldable pub array_at : List (Value × Value) → String → Option (List Value)
  unfolding get
  array_at map key = Option.bind (get map (x.text key)) x.as_array

  -- The document from the entries of the payload.
  unfoldable pub doc_of_map : List (Value × Value) → Result DocError AttestationDoc
  unfolding text u64_of get pcr_loop optional_bytes array_at bundle_of
  doc_of_map map = and_then (text map "module_id") (λ module_id.
      and_then (text map "digest") (λ digest. and_then (u64_of map "timestamp") (λ timestamp.
        and_then (ok_or (get map (x.text "pcrs")) no_pcrs) (λ pcrs_val.
          and_then (ok_or (x.as_map pcrs_val) pcrs_not_a_map) (λ pcrs_map.
            and_then (pcr_loop [] pcrs_map) (λ pcrs.
              and_then (ok_or (optional_bytes map "certificate") no_certificate) (λ certificate.
                and_then (ok_or (array_at map "cabundle") no_cabundle) (λ entries.
                  and_then (bundle_of entries) (λ cabundle. ok (record {
                    module_id = module_id;
                    digest = digest;
                    timestamp = timestamp;
                    pcrs = pcrs;
                    public_key = optional_bytes map "public_key";
                    user_data = optional_bytes map "user_data";
                    nonce = optional_bytes map "nonce";
                    certificate = certificate;
                    cabundle = cabundle;
                  }))))))))))

  unfoldable pub doc_of_payload : Bytes → Result DocError AttestationDoc
  unfolding doc_of_map
  doc_of_payload payload =
      and_then (ok_or (x.from_slice payload) payload_decode)
        (λ doc. and_then (ok_or (x.as_map doc) not_a_map) doc_of_map)

  -- The bytes of the third of four elements.
  unfoldable pub payload_of : List Value → Result DocError Bytes
  payload_of (protected ∷ unprotected ∷ payload ∷ signature ∷ []) =
      ok_or (x.as_bytes payload) payload_not_bytes
  payload_of _ = err wrong_length

  unfoldable pub parse_attestation_doc : Bytes → Result DocError AttestationDoc
  unfolding payload_of doc_of_payload
  parse_attestation_doc cose_sign1 =
      and_then (ok_or (x.from_slice cose_sign1) cose_decode) (λ outer.
        and_then (ok_or (x.as_array outer) not_an_array)
          (λ arr. and_then (payload_of arr) doc_of_payload))
