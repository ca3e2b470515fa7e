-- ===== src/Attest/Verify/Trust.antt =====
-- What a document that crates/nitro-common/src/verify.rs accepts is trusted for.
use kaskad_nuntius.Prelude.{
  ℕ, ◌+◌, ◌/◌, ◌≤◌, ◌≡◌, refl, subst, sym, ap, ◌∙◌, true, List, [], ◌∷◌, ◌++◌, Option, none, some,
  Result, ok, err, ok_or, map_err, and_then-ok, ok_or-ok, ok-inj, map_err-ok, length, drop, ◌==◌,
  eq_iff, nat_eq, list_eq, arith,
}
use kaskad_nuntius.Policy.{Bytes}
use kaskad_nuntius.Crypto.{Crypto}
use kaskad_nuntius.Chain.Text.{ascii}
use kaskad_nuntius.Ratls.Binding.{ct_eq_iff}
use kaskad_nuntius.Ratls.Exchange.{is_point}
use kaskad_nuntius.Attest.Document.{
  Cbor, DocError, AttestationDoc, pcr, payload_of, doc_of_payload, parse_attestation_doc,
}
use kaskad_nuntius.Attest.Verify.{
  Pki, is_empty_map, check_header, nonce_matches, VerifyError, document, VerifiedAttestation, check,
  check_pcrs, semantic_checks, check_freshness, fresh_if, check_root, verify_cert_chain, CoseParts,
  parts_of, cose_parts, sig_structure, eth_address, pcr_array, verified_of, check_cose,
  verify_with_root,
}
use kaskad_nuntius.Attest.Verify.Chain.{
  check-ok, HasSigned, IsChain, verify_es384-HasSigned, chain_loop-IsChain,
}

-- A document and its verification: which bytes were parsed, which were signed, and by whom.
module _ (x : Cbor) (k : Pki) (c : Crypto) where
  pub record IsTrusted (bytes : Bytes) (now : ℕ) (max_age : Option ℕ)
      (expected_nonce : Option Bytes) (root : Bytes) (v : VerifiedAttestation) : Type 0 where
    pub doc : AttestationDoc
    pub parts : CoseParts
    pub leaf : Bytes
    pub message : Bytes
    -- the document is the decoded payload of the parts that are signed
    pub parsed : doc_of_payload x parts.payload ≡ ok doc
    pub split : cose_parts x bytes ≡ ok parts
    pub encoded : sig_structure x parts.protected parts.payload ≡ ok message
    pub signed : HasSigned k leaf message parts.signature
    -- the key that signed is at the end of a chain from the pinned root
    pub rooted :
        (rest : List Bytes) × (doc.cabundle ≡ root ∷ rest)
        × IsChain k now none [] (root ∷ (rest ++ (doc.certificate ∷ []))) leaf
    pub digest : doc.digest ≡ ascii "SHA384"
    pub answers : (n : Bytes) → expected_nonce ≡ some n → doc.nonce ≡ some n
    pub fresh :
        (age : ℕ)
        → max_age ≡ some age
        → (doc.timestamp / 1000 ≤ now + 300) × (now ≤ doc.timestamp / 1000 + age)
    pub pcr0 : (pcr doc 0 ≡ some v.pcr0) × (length v.pcr0 ≡ 48)
    pub pcr1 : (pcr doc 1 ≡ some v.pcr1) × (length v.pcr1 ≡ 48)
    pub pcr2 : (pcr doc 2 ≡ some v.pcr2) × (length v.pcr2 ≡ 48)
    pub public_key : (doc.public_key ≡ some v.public_key) × (length v.public_key ≡ 65)
    pub signer : v.enclave_signer ≡ drop 12 (c.keccak256 (drop 1 v.public_key))
    pub time : v.timestamp ≡ doc.timestamp

  abbrev payload_in : CoseParts → Result VerifyError CoseParts → Bytes
  payload_in parts (ok other) = other.payload
  payload_in parts (err e) = parts.payload

  same_payload_of :
      (arr : List x.Value) (parts : CoseParts) (payload : Bytes)
      → parts_of x arr ≡ ok parts
      → payload_of x arr ≡ ok payload
      → parts.payload ≡ payload
  unfolding parts_of payload_of
  same_payload_of (p ∷ u ∷ b ∷ s ∷ []) parts payload h g =
      let (pr, p₁, h₁) = and_then-ok (ok_or (x.as_bytes p) VerifyError.bad_protected) _ h in
      let (e, p₂, h₂) =
        and_then-ok (check (is_empty_map x (x.as_map u)) VerifyError.bad_unprotected) _ h₁ in
      let (pl, p₃, h₃) = and_then-ok (ok_or (x.as_bytes b) VerifyError.bad_payload) _ h₂ in
      let (sg, p₄, h₄) = and_then-ok (ok_or (x.as_bytes s) VerifyError.bad_cose_signature) _ h₃ in
      let (w, p₅, h₅) = and_then-ok (check_header x pr) _ h₄ in
      let there = ok_or-ok (x.as_bytes b) VerifyError.bad_payload p₃ in
      let here = ok_or-ok (x.as_bytes b) DocError.payload_not_bytes g in
      ap (λ (r : Result VerifyError CoseParts). payload_in parts r) (sym h₅) ∙ cc
  same_payload_of [] parts payload h g = cc
  same_payload_of (p ∷ []) parts payload h g = cc
  same_payload_of (p ∷ u ∷ []) parts payload h g = cc
  same_payload_of (p ∷ u ∷ b ∷ []) parts payload h g = cc
  same_payload_of (p ∷ u ∷ b ∷ s ∷ t ∷ more) parts payload h g = cc

  -- Both decoders read the same bytes, so the document is in what is signed.
  same_payload :
      (bytes : Bytes) (doc : AttestationDoc) (parts : CoseParts)
      → parse_attestation_doc x bytes ≡ ok doc
      → cose_parts x bytes ≡ ok parts
      → doc_of_payload x parts.payload ≡ ok doc
  unfolding parse_attestation_doc cose_parts
  same_payload bytes doc parts h g =
      let (outer, p₁, h₁) = and_then-ok (ok_or (x.from_slice bytes) DocError.cose_decode) _ h in
      let (arr, p₂, h₂) = and_then-ok (ok_or (x.as_array outer) DocError.not_an_array) _ h₁ in
      let (payload, p₃, h₃) = and_then-ok (payload_of x arr) _ h₂ in
      let (outer', q₁, g₁) = and_then-ok (ok_or (x.from_slice bytes) VerifyError.cose_decode) _ g in
      let (arr', q₂, g₂) = and_then-ok (ok_or (x.as_array outer') VerifyError.not_cose) _ g₁ in
      let a = ok_or-ok (x.from_slice bytes) DocError.cose_decode p₁ in
      let a' = ok_or-ok (x.from_slice bytes) VerifyError.cose_decode q₁ in
      let b = ok_or-ok (x.as_array outer) DocError.not_an_array p₂ in
      let b' = ok_or-ok (x.as_array outer') VerifyError.not_cose q₂ in
      let same_outer : outer ≡ outer' = cc in
      let same_arr : arr ≡ arr' = cc in
      rw (same_payload_of arr parts payload (ap (parts_of x) same_arr ∙ g₂) p₃) h₃

  check_root-ok :
      (root : Bytes) (bundle : List Bytes)
      → check_root root bundle ≡ ok tt
      → (rest : List Bytes) × (bundle ≡ root ∷ rest)
  unfolding check_root
  check_root-ok root [] h = cc
  check_root-ok root (first ∷ rest) h =
      (rest, ap (λ b. b ∷ rest) ((eq_iff first root).0 (check-ok _ _ h)))

  verify_cert_chain-rooted :
      (doc : AttestationDoc) (now : ℕ) (root leaf : Bytes)
      → verify_cert_chain k doc now root ≡ ok leaf
      → (rest : List Bytes) × (doc.cabundle ≡ root ∷ rest)
        × IsChain k now none [] (root ∷ (rest ++ (doc.certificate ∷ []))) leaf
  unfolding verify_cert_chain
  verify_cert_chain-rooted doc now root leaf h =
      let (u, p, h₁) = and_then-ok (check_root root doc.cabundle) _ h in
      let (rest, e) = check_root-ok root doc.cabundle p in
      (
        rest,
        e,
        subst (λ b. IsChain k now none [] (b ++ (doc.certificate ∷ [])) leaf) e
            (chain_loop-IsChain k now none [] (doc.cabundle ++ (doc.certificate ∷ [])) leaf h₁),
      )

  nonce_matches-answers :
      (expected found : Option Bytes) (n : Bytes)
      → nonce_matches expected found ≡ true
      → expected ≡ some n
      → found ≡ some n
  nonce_matches-answers none found n h e = cc
  nonce_matches-answers (some b) none n h e = cc
  nonce_matches-answers (some b) (some m) n h e = ap some ((ct_eq_iff m b).0 h ∙ cc)

  fresh_if-within :
      (max_age : Option ℕ) (ts now age : ℕ)
      → fresh_if max_age ts now ≡ ok tt
      → max_age ≡ some age
      → (ts / 1000 ≤ now + 300) × (now ≤ ts / 1000 + age)
  unfolding fresh_if check_freshness
  fresh_if-within none ts now age h e = cc
  fresh_if-within (some max) ts now age h e = ground arith

  pcr_array-ok :
      (doc : AttestationDoc) (idx : ℕ) (p : Bytes)
      → pcr_array c doc idx ≡ ok p
      → (pcr doc idx ≡ some p) × (length p ≡ 48)
  unfolding pcr_array
  pcr_array-ok doc idx p h =
      let (q, e, h₁) = and_then-ok (ok_or (pcr doc idx) VerifyError.no_pcr) _ h in
      let a = ok_or-ok (pcr doc idx) VerifyError.no_pcr e in ground arith

  is_point-length : (b : Bytes) → is_point b ≡ true → length b ≡ 65
  is_point-length [] h = cc
  is_point-length (tag ∷ b) h = ground arith

  eth_address-ok :
      (key signer : Bytes)
      → eth_address c key ≡ ok signer
      → (length key ≡ 65) × (signer ≡ drop 12 (c.keccak256 (drop 1 key)))
  unfolding eth_address
  eth_address-ok key signer h = ground (arith, is_point-length key)

  abbrev IsReadOf : AttestationDoc → VerifiedAttestation → Type 0
  IsReadOf doc v =
      ((pcr doc 0 ≡ some v.pcr0) × (length v.pcr0 ≡ 48))
      × ((pcr doc 1 ≡ some v.pcr1) × (length v.pcr1 ≡ 48))
      × ((pcr doc 2 ≡ some v.pcr2) × (length v.pcr2 ≡ 48))
      × ((doc.public_key ≡ some v.public_key) × (length v.public_key ≡ 65))
      × (v.enclave_signer ≡ drop 12 (c.keccak256 (drop 1 v.public_key)))
      × (v.timestamp ≡ doc.timestamp)

  verified_of-read :
      (doc : AttestationDoc) (v : VerifiedAttestation) → verified_of c doc ≡ ok v → IsReadOf doc v
  unfolding verified_of
  verified_of-read doc v h =
      let (key, p₁, h₁) = and_then-ok (ok_or doc.public_key VerifyError.no_public_key) _ h in
      let (signer, p₂, h₂) = and_then-ok (eth_address c key) _ h₁ in
      let (a, p₃, h₃) = and_then-ok (pcr_array c doc 0) _ h₂ in
      let (b, p₄, h₄) = and_then-ok (pcr_array c doc 1) _ h₃ in
      let (d, p₅, h₅) = and_then-ok (pcr_array c doc 2) _ h₄ in
      let k₀ = ok_or-ok doc.public_key VerifyError.no_public_key p₁ in
      let k₁ = eth_address-ok key signer p₂ in
      let e = pcr_array-ok doc 0 a p₃ in
      let f = pcr_array-ok doc 1 b p₄ in
      let g = pcr_array-ok doc 2 d p₅ in
      subst (IsReadOf doc) (ok-inj _ refl h₅) (e, f, g, (k₀, k₁.0), k₁.1, refl)

  semantic_checks-ok :
      (doc : AttestationDoc) (expected : Option Bytes)
      → semantic_checks doc expected ≡ ok tt
      → (doc.digest ≡ ascii "SHA384") × (nonce_matches expected doc.nonce ≡ true)
  unfolding semantic_checks
  semantic_checks-ok doc expected h =
      let (u, p₁, h₁) =
        and_then-ok (check (doc.digest == ascii "SHA384") VerifyError.bad_digest) _ h in
      let (u', p₂, h₂) = and_then-ok (check_pcrs doc (0 ∷ 1 ∷ 2 ∷ [])) _ h₁ in
      let (pk, p₃, h₃) = and_then-ok (ok_or doc.public_key VerifyError.no_public_key) _ h₂ in
      let (u'', p₄, h₄) = and_then-ok (check (is_point pk) VerifyError.bad_public_key) _ h₃ in
      ((eq_iff doc.digest (ascii "SHA384")).0 (check-ok _ _ p₁), check-ok _ _ h₄)

  check_cose-signed :
      (bytes leaf : Bytes)
      → check_cose x k c bytes leaf ≡ ok tt
      → (parts : CoseParts) × (message : Bytes) × (cose_parts x bytes ≡ ok parts)
        × (sig_structure x parts.protected parts.payload ≡ ok message)
        × HasSigned k leaf message parts.signature
  unfolding check_cose
  check_cose-signed bytes leaf h =
      let (parts, p₁, h₁) = and_then-ok (cose_parts x bytes) _ h in
      let (message, p₂, h₂) = and_then-ok (sig_structure x parts.protected parts.payload) _ h₁ in
      (
        parts,
        message,
        p₁,
        p₂,
        verify_es384-HasSigned k leaf message parts.signature (check-ok _ _ h₂),
      )

  -- A document that is accepted is the decoded payload of the very bytes whose signature was verified
  -- (SHA-384 named, three PCRs of 48 bytes, a key of 65 bytes, from which the signer's address and all
  -- other fields of the result are taken). The key that signed them ends a chain of certificates that
  -- begins with the pinned root, in which each is valid at the given clock and signed with the key of the
  -- one before, and all but the last are issuers. An expected nonce is the document's; with a maximal
  -- age, the document's time is not older than it and at most 300 seconds ahead.
  pub verify_with_root-IsTrusted :
      (bytes : Bytes) (now : ℕ) (max_age : Option ℕ) (expected_nonce : Option Bytes) (root : Bytes)
      (v : VerifiedAttestation)
      → verify_with_root x k c bytes now max_age expected_nonce root ≡ ok v
      → IsTrusted bytes now max_age expected_nonce root v
  unfolding verify_with_root
  verify_with_root-IsTrusted bytes now max_age nonce root v h =
      let (doc, p₁, h₁) = and_then-ok (map_err document (parse_attestation_doc x bytes)) _ h in
      let (u, p₂, h₂) = and_then-ok (semantic_checks doc nonce) _ h₁ in
      let (u', p₃, h₃) = and_then-ok (fresh_if max_age doc.timestamp now) _ h₂ in
      let (leaf, p₄, h₄) = and_then-ok (verify_cert_chain k doc now root) _ h₃ in
      let (u'', p₅, h₅) = and_then-ok (check_cose x k c bytes leaf) _ h₄ in
      let (parts, message, s₁, s₂, s₃) = check_cose-signed bytes leaf p₅ in
      let r = verified_of-read doc v h₅ in
      let m = semantic_checks-ok doc nonce p₂ in
      record {
        doc = doc;
        parts = parts;
        leaf = leaf;
        message = message;
        parsed = same_payload bytes doc parts (map_err-ok _ _ p₁) s₁;
        split = s₁;
        encoded = s₂;
        signed = s₃;
        rooted = verify_cert_chain-rooted doc now root leaf p₄;
        digest = m.0;
        answers = λ n. nonce_matches-answers nonce doc.nonce n m.1;
        fresh = λ age. fresh_if-within max_age doc.timestamp now age p₃;
        pcr0 = r.0;
        pcr1 = r.1;
        pcr2 = r.2;
        public_key = r.3;
        signer = r.4;
        time = r.5;
      }
