-- ===== src/Server/Answers.antt =====
-- When src/price_server.rs answers with a signed price, and with which.
use kaskad_nuntius.Prelude.{
  ℕ, ◌≡◌, refl, sym, ap, inl, inr, Bool, true, false, Option, none, some, Result, ok, err,
  Result-cases, length, ◌==◌, nat_eq, list_eq, Bool-cases, arith,
}
use kaskad_nuntius.Policy.{Bytes}
use kaskad_nuntius.Crypto.{Crypto}
use kaskad_nuntius.Chain.Text.{ascii}
use kaskad_nuntius.Cycle.{CachedPrice, PriceStore, lookup_price}
use kaskad_nuntius.Server.{
  OracleSigner, Format, PriceRequest, SignedPriceUpdate, PriceResponse, AttestationCache,
  attestation_unavailable_response, is_available, cached_attestation, attestation_gate,
  price_payload, sign_price_update, update_of, sign_cached, get_prices, price_response,
  found_response, get_price, attestation_response, health_response, answer_health, gated,
  process_request,
}

abbrev or_update : {E : Type 0} → SignedPriceUpdate → Result E SignedPriceUpdate → SignedPriceUpdate
or_update update (ok made) = made
or_update update (err e) = update

abbrev update_or : SignedPriceUpdate → Option SignedPriceUpdate → SignedPriceUpdate
update_or update (some made) = made
update_or update none = update

-- A response without a signed price.
abbrev pub HasNoPrice : PriceResponse → Type 0
HasNoPrice answer = (answer.price ≡ none) × (answer.prices ≡ none)

module _ {E F : Type 0} (crypto : Crypto) (format : Format E F) (signer : OracleSigner E) where
  attestation_response-plain :
      (addr : Bytes) (doc : Option Bytes)
      → HasNoPrice (attestation_response crypto format signer addr doc)
  unfolding attestation_response
  attestation_response-plain addr none = (refl, refl)
  attestation_response-plain addr (some doc) = (refl, refl)

  answer_health-plain :
      (need : Bool) (addr : Bytes) (assets n m : ℕ) (found : Option Bytes × AttestationCache)
      (cache : AttestationCache)
      → HasNoPrice (answer_health need addr assets n m found cache).0
  unfolding answer_health health_response
  answer_health-plain true addr assets n m found cache = (refl, refl)
  answer_health-plain false addr assets n m found cache = (refl, refl)

  gated-refused :
      (now : ℕ) (cache : AttestationCache) (answer : PriceResponse)
      → signer.requires_attestation_for_signing ≡ true
      → (cached_attestation signer now cache).0 ≡ none
      → HasNoPrice (gated (attestation_gate signer now cache) answer).0
  unfolding gated attestation_gate is_available attestation_unavailable_response
  gated-refused now cache answer need h = simp (gated, attestation_gate, need, h) (refl, refl)

  -- While the signer needs an attestation and none can be had, no request is answered with a signed
  -- price.
  pub process_request-refuses :
      (request : PriceRequest) (store : PriceStore F) (signer_address : Bytes)
      (fallbacks assumed now : ℕ) (cache : AttestationCache)
      → signer.requires_attestation_for_signing ≡ true
      → (cached_attestation signer now cache).0 ≡ none
      → HasNoPrice
          (process_request crypto format signer request store signer_address fallbacks assumed now
            cache).0
  unfolding process_request
  process_request-refuses request store addr n m now cache need h =
      elim (Bool-cases (request.method == ascii "get_prices")) [
        | inl a ↦ rw a (gated-refused now cache _ need h)
        | inr a ↦ elim (Bool-cases (request.method == ascii "get_price")) [
          | inl b ↦ rw (a, b) (gated-refused now cache _ need h)
          | inr b ↦ elim (Bool-cases (request.method == ascii "get_attestation")) [
            | inl c ↦ rw (a, b, c) (attestation_response-plain addr _)
            | inr c ↦ elim (Bool-cases (request.method == ascii "health")) [
              | inl d ↦
                  rw (a, b, c, d)
                    (answer_health-plain signer.requires_attestation_for_signing addr (length store)
                      n m (cached_attestation signer now cache) cache)
              | inr d ↦ rw (a, b, c, d) (refl, refl)
            ]
          ]
        ]
      ]

  sign_cached-ok :
      (cached : CachedPrice F) {update : SignedPriceUpdate}
      → sign_cached crypto format signer cached ≡ ok update
      → (signature : Bytes) × (sign_price_update crypto format signer cached ≡ ok signature)
        × (update ≡ update_of crypto format signer cached signature)
  unfolding sign_cached
  sign_cached-ok cached {update} h =
      elim (Result-cases (sign_price_update crypto format signer cached)) [
        | inr (e, q) ↦ cc
        | inl (signature, q) ↦
            (signature, q, sym (ap (or_update update) (rw (sign_cached, q) at h)))
      ]

  price_response-price :
      (addr : Bytes) (signed : Result E SignedPriceUpdate) {update : SignedPriceUpdate}
      → (price_response crypto format signer addr signed).price ≡ some update
      → signed ≡ ok update
  unfolding price_response
  price_response-price addr (err e) h = cc
  price_response-price addr (ok made) {update} h = ap (λ o. ok (update_or update o)) h

  found_response-price :
      (addr asset : Bytes) (found : Option (CachedPrice F)) {update : SignedPriceUpdate}
      → (found_response crypto format signer addr asset found).price ≡ some update
      → (cached : CachedPrice F) × (signature : Bytes) × (found ≡ some cached)
        × (sign_price_update crypto format signer cached ≡ ok signature)
        × (update ≡ update_of crypto format signer cached signature)
  unfolding found_response
  found_response-price addr asset none h = cc
  found_response-price addr asset (some cached) h =
      let signed =
        sign_cached-ok cached
          (price_response-price addr (sign_cached crypto format signer cached) h) in
      (cached, signed.0, refl, signed.1, signed.2)

  gate-passed :
      (now : ℕ) (cache : AttestationCache) (answer : PriceResponse) {update : SignedPriceUpdate}
      → (gated (attestation_gate signer now cache) answer).0.price ≡ some update
      → answer.price ≡ some update
  unfolding gated attestation_gate attestation_unavailable_response
  gate-passed now cache answer h = ground (arith, h)

  -- a signed price in an answer is the answer to `get_price`
  asked-price :
      (request : PriceRequest) (store : PriceStore F) (addr : Bytes) (n m now : ℕ)
      (cache : AttestationCache) {update : SignedPriceUpdate}
      → (process_request crypto format signer request store addr n m now cache).0.price
        ≡ some update
      → (get_price crypto format signer addr store request.asset).price ≡ some update
  unfolding process_request get_prices
  asked-price request store addr n m now cache h =
      elim (Bool-cases (request.method == ascii "get_prices")) [
        | inl a ↦
            let none_is =
              gate-passed now cache (get_prices crypto format signer addr store)
                (rw (process_request, a) at h) in
            cc
        | inr a ↦ elim (Bool-cases (request.method == ascii "get_price")) [
          | inl b ↦ gate-passed now cache _ (rw (process_request, a, b) at h)
          | inr b ↦ elim (Bool-cases (request.method == ascii "get_attestation")) [
            | inl c ↦
                let plain =
                  (attestation_response-plain addr (cached_attestation signer now cache).0).0 in
                let found = rw (process_request, a, b, c) at h in cc
            | inr c ↦ elim (Bool-cases (request.method == ascii "health")) [
              | inl d ↦
                  let plain =
                    (answer_health-plain signer.requires_attestation_for_signing addr (length store)
                      n m (cached_attestation signer now cache) cache).0 in
                  let found = rw (process_request, a, b, c, d) at h in cc
              | inr d ↦ let found = rw (process_request, a, b, c, d) at h in cc
            ]
          ]
        ]
      ]

  answered :
      (store : PriceStore F) (addr : Bytes) (wanted : Option Bytes) {update : SignedPriceUpdate}
      → (get_price crypto format signer addr store wanted).price ≡ some update
      → (asset : Bytes) × (wanted ≡ some asset)
        × ((found_response crypto format signer addr asset (lookup_price asset store)).price
            ≡ some update)
  unfolding get_price
  answered store addr none h = cc
  answered store addr (some asset) h = (asset, refl, h)

  -- A signed price in an answer is the one in the store under the asset that was asked for, with the
  -- time of its aggregation, under a signature over the payload of exactly that price.
  pub process_request-price :
      (request : PriceRequest) (store : PriceStore F) (signer_address : Bytes)
      (fallbacks assumed now : ℕ) (cache : AttestationCache) {update : SignedPriceUpdate}
      → (process_request crypto format signer request store signer_address fallbacks assumed now
          cache).0.price
        ≡ some update
      → (asset : Bytes) × (cached : CachedPrice F) × (signature : Bytes) × (request.asset
          ≡ some asset)
        × (lookup_price asset store ≡ some cached)
        × (signer.sign_digest (
              crypto.keccak256 (
                price_payload cached.asset_id cached.price_fixed cached.signed_timestamp
                  cached.num_sources cached.sources_hash))
            ≡ ok signature)
        × (update ≡ update_of crypto format signer cached signature)
        × (update.timestamp ≡ cached.signed_timestamp)
  unfolding sign_price_update update_of
  process_request-price request store addr n m now cache h =
      let asked =
        answered store addr request.asset (asked-price request store addr n m now cache h) in
      let found = found_response-price addr asked.0 (lookup_price asked.0 store) asked.2 in
      (asked.0, found.0, found.1, asked.1, found.2, found.3, found.4, ap (λ u. u.timestamp) found.4)
