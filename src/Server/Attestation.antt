-- ===== src/Server/Attestation.antt =====
-- The cached attestation of src/price_server.rs.
use kaskad_nuntius.Prelude.{
  ℕ, ◌-◌, ◌<◌, ◌≡◌, refl, inl, inr, Bool, true, false, Option, none, some, ltb, length, ltb→lt,
  ◌==◌, nat_eq, list_eq, Bool-cases, arith,
}
use kaskad_nuntius.Policy.{Bytes}
use kaskad_nuntius.Crypto.{Crypto}
use kaskad_nuntius.Chain.Text.{ascii}
use kaskad_nuntius.Cycle.{PriceStore}
use kaskad_nuntius.Server.{
  OracleSigner, Format, PriceRequest, PriceResponse, AttestationCache, attestation_cache_ttl_ms,
  renew, is_available, cached_attestation, attestation_gate, gated, answer_health, process_request,
}

module _ {E : Type 0} (signer : OracleSigner E) where
  -- What is cached is what the signer gave at the time that is noted.
  abbrev pub IsGenuine : AttestationCache → Type 0
  IsGenuine none = Unit
  IsGenuine (some (doc, fetched)) = signer.attestation_doc fetched ≡ some doc

  -- The document that is given, with what it leaves in the cache.
  abbrev pub IsFresh : ℕ → Option Bytes × AttestationCache → Type 0
  IsFresh now (none, cache) = IsGenuine cache
  IsFresh now (some doc, cache) =
      (fetched : ℕ) × (cache ≡ some (doc, fetched))
      × (signer.attestation_doc fetched ≡ some doc)
      × (now - fetched < attestation_cache_ttl_ms)

  IsFresh-renew :
      (now : ℕ) (given : Option Bytes) (cache : AttestationCache)
      → signer.attestation_doc now ≡ given
      → IsGenuine cache
      → IsFresh now (renew now given cache)
  unfolding renew
  IsFresh-renew now none cache e g = g
  IsFresh-renew now (some doc) cache e g = (now, refl, e, omega arith)

  -- A document that is given, cached or new, is one that the signer gave, less than five minutes ago.
  pub cached_attestation-IsFresh :
      (now : ℕ) (cache : AttestationCache)
      → IsGenuine cache
      → IsFresh now (cached_attestation signer now cache)
  unfolding cached_attestation
  cached_attestation-IsFresh now none g = IsFresh-renew now (signer.attestation_doc now) none refl g
  cached_attestation-IsFresh now (some (doc, fetched)) g =
      elim (Bool-cases (ltb (now - fetched) attestation_cache_ttl_ms)) [
        | inl h ↦ rw h (fetched, refl, g, ltb→lt (now - fetched) attestation_cache_ttl_ms h)
        | inr h ↦ rw h (IsFresh-renew now (signer.attestation_doc now) (some (doc, fetched)) refl g)
      ]

  IsGenuine-of_fresh :
      (now : ℕ) (found : Option Bytes × AttestationCache) → IsFresh now found → IsGenuine found.1
  IsGenuine-of_fresh now (none, cache) h = h
  IsGenuine-of_fresh now (some doc, cache) h = rw h.1 h.2

  found-IsGenuine :
      (now : ℕ) (cache : AttestationCache)
      → IsGenuine cache
      → IsGenuine (cached_attestation signer now cache).1
  found-IsGenuine now cache g = IsGenuine-of_fresh now _ (cached_attestation-IsFresh now cache g)

  gate-IsGenuine :
      (now : ℕ) (cache : AttestationCache) (answer : PriceResponse)
      → IsGenuine cache
      → IsGenuine (gated (attestation_gate signer now cache) answer).1
  unfolding gated attestation_gate
  gate-IsGenuine now cache answer g = elim (Bool-cases signer.requires_attestation_for_signing) [
    | inr q ↦ simp (gated, attestation_gate, q) g
    | inl q ↦ elim (Bool-cases (is_available (cached_attestation signer now cache).0)) [
      | inl r ↦ simp (gated, attestation_gate, q, r) (found-IsGenuine now cache g)
      | inr r ↦ simp (gated, attestation_gate, q, r) (found-IsGenuine now cache g)
    ]
  ]

  answer_health-IsGenuine :
      (need : Bool) (addr : Bytes) (assets n m now : ℕ) (cache : AttestationCache)
      → IsGenuine cache
      → IsGenuine (answer_health need addr assets n m (cached_attestation signer now cache) cache).1
  unfolding answer_health
  answer_health-IsGenuine true addr assets n m now cache g = found-IsGenuine now cache g
  answer_health-IsGenuine false addr assets n m now cache g = g

module _ {E F : Type 0} (crypto : Crypto) (format : Format E F) (signer : OracleSigner E) where
  -- Every request leaves in the cache nothing or a document that the signer gave at the time noted.
  pub process_request-IsGenuine :
      (request : PriceRequest) (store : PriceStore F) (signer_address : Bytes)
      (fallbacks assumed now : ℕ) (cache : AttestationCache)
      → IsGenuine signer cache
      → IsGenuine signer
          (process_request crypto format signer request store signer_address fallbacks assumed now
            cache).1
  unfolding process_request
  process_request-IsGenuine request store addr n m now cache g =
      elim (Bool-cases (request.method == ascii "get_prices")) [
        | inl a ↦ rw a (gate-IsGenuine signer now cache _ g)
        | inr a ↦ elim (Bool-cases (request.method == ascii "get_price")) [
          | inl b ↦ rw (a, b) (gate-IsGenuine signer now cache _ g)
          | inr b ↦ elim (Bool-cases (request.method == ascii "get_attestation")) [
            | inl c ↦ rw (a, b, c) (found-IsGenuine signer now cache g)
            | inr c ↦ elim (Bool-cases (request.method == ascii "health")) [
              | inl d ↦
                  rw (a, b, c, d)
                    (answer_health-IsGenuine signer signer.requires_attestation_for_signing addr
                      (length store) n m now cache g)
              | inr d ↦ rw (a, b, c, d) g
            ]
          ]
        ]
      ]
