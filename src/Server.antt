-- ===== src/Server.antt =====
-- src/price_server.rs and the payload of src/signer.rs: requests for signed prices. The signer and the
-- formatting of texts (`format!`, hex) are parameters; the attestation that NSM gives is a function of
-- the time, in milliseconds, and one request sees one time. The mutex of the cache is never poisoned.
pub mod Payload
pub mod Reading
pub mod Answers
pub mod Attestation
mod Tests
use kaskad_nuntius.Prelude.{
  ℕ, zero, suc, ◌+◌, ◌-◌, ◌/◌, ◌%◌, ◌^◌, Bool, true, false, not, List, [], ◌∷◌, ◌++◌, Option, none,
  some, Result, ok, err, map_err, ltb, length, ◌==◌, nat_eq, list_eq, if◌then◌else◌,
}
use kaskad_nuntius.Policy.{Bytes}
use kaskad_nuntius.Crypto.{Crypto}
use kaskad_nuntius.Chain.Text.{ascii}
use kaskad_nuntius.Cycle.{CachedPrice, PriceStore, lookup_price}

pub record OracleSigner (E : Type 0) : Type 0 where
  pub sign_digest : Bytes → Result E Bytes
  pub address : Bytes
  pub attestation_doc : ℕ → Option Bytes
  pub requires_attestation_for_signing : Bool

pub record Format (E F : Type 0) : Type 0 where
  pub hex_encode : Bytes → Bytes
  pub display : ℕ → Bytes
  pub eight_decimals : F → Bytes
  pub describe : E → Bytes

pub record PriceRequest : Type 0 where
  pub method : Bytes
  pub asset : Option Bytes

pub record SignedPriceUpdate : Type 0 where
  pub asset_id : Bytes
  pub asset_symbol : Bytes
  pub price : Bytes
  pub price_human : Bytes
  pub timestamp : ℕ
  pub num_sources : ℕ
  pub sources_hash : Bytes
  pub signature : Bytes
  pub signer : Bytes

pub record PriceResponse : Type 0 where
  pub prices : Option (List SignedPriceUpdate)
  pub price : Option SignedPriceUpdate
  pub error : Option Bytes
  pub status : Option Bytes
  pub signer : Option Bytes
  pub num_assets : Option ℕ
  pub attestation_doc : Option Bytes
  pub equal_weight_fallbacks : Option ℕ
  pub usdt_rate_assumed : Option ℕ
  pub attestation_healthy : Option Bool

-- A response with no field set.
abbrev pub blank : PriceResponse
blank = record {
  prices = none;
  price = none;
  error = none;
  status = none;
  signer = none;
  num_assets = none;
  attestation_doc = none;
  equal_weight_fallbacks = none;
  usdt_rate_assumed = none;
  attestation_healthy = none;
}

abbrev pub attestation_cache_ttl_ms : ℕ
attestation_cache_ttl_ms = 300000

-- The document and the time at which it was fetched.
abbrev pub AttestationCache : Type 0
AttestationCache = Option (Bytes × ℕ)

-- The `n` low bytes of a number, the most significant first.
unfoldable pub be_bytes : ℕ → ℕ → Bytes
be_bytes zero value = []
be_bytes (suc n) value = be_bytes n (value / 256) ++ value % 256 ∷ []

unfoldable pub price_payload : Bytes → ℕ → ℕ → ℕ → Bytes → Bytes
price_payload asset_id price timestamp num_sources sources_hash =
    asset_id ++ (be_bytes 32 price ++ (be_bytes 32 timestamp ++ (num_sources ∷ sources_hash)))

-- `b"\x19Ethereum Signed Message:\n32"`
abbrev pub eip191_prefix : Bytes
eip191_prefix = 25 ∷ ascii "Ethereum Signed Message:" ++ 10 ∷ 51 ∷ 50 ∷ []

module _ (crypto : Crypto) where
  open crypto use {Signature, SigningKey}

  unfoldable pub signature_bytes : Option (Signature × ℕ) → Option Bytes
  signature_bytes none = none
  signature_bytes (some (sig, rec)) =
      some (crypto.signature_to_bytes sig ++ (rec + 27) % 2 ^ 8 ∷ [])

  unfoldable pub sign_eip191 : SigningKey → Bytes → Option Bytes
  sign_eip191 key digest =
      signature_bytes
        (crypto.sign_prehash_recoverable key (crypto.keccak256 (eip191_prefix ++ digest)))

-- The cached document while it is less than the time to live old, else a fresh one, which is cached.
unfoldable pub renew : ℕ → Option Bytes → AttestationCache → Option Bytes × AttestationCache
renew now none cache = (none, cache)
renew now (some doc) cache = (some doc, some (doc, now))

unfoldable pub attestation_unavailable_response : PriceResponse
attestation_unavailable_response = record blank {
  error = some (
      ascii "Attestation document unavailable "
      ++ 226 ∷ 128 ∷ 148 ∷ ascii " enclave health cannot be verified; refusing to sign");
  attestation_healthy = some false;
}

unfoldable pub is_available : Option Bytes → Bool
is_available none = false
is_available (some doc) = true

unfoldable pub gated :
    Option PriceResponse × AttestationCache → PriceResponse → PriceResponse × AttestationCache
gated (some refusal, cache) response = (refusal, cache)
gated (none, cache) response = (response, cache)

-- The two counters of the aggregator are arguments.
unfoldable pub health_response : Bytes → ℕ → ℕ → ℕ → Option Bool → PriceResponse
health_response signer_address assets fallbacks assumed healthy = record blank {
  status = some (ascii "ok");
  signer = some signer_address;
  num_assets = some assets;
  equal_weight_fallbacks = some fallbacks;
  usdt_rate_assumed = some assumed;
  attestation_healthy = healthy;
}

-- With an attestation that is needed, the answer says whether one was found; without, the cache is not
-- touched.
unfoldable pub answer_health :
    Bool
    → Bytes
    → ℕ
    → ℕ
    → ℕ
    → Option Bytes × AttestationCache
    → AttestationCache
    → PriceResponse × AttestationCache
answer_health true addr assets fallbacks assumed found cache =
    (health_response addr assets fallbacks assumed (some (is_available found.0)), found.1)
answer_health false addr assets fallbacks assumed found cache =
    (health_response addr assets fallbacks assumed none, cache)

module _ {E : Type 0} (signer : OracleSigner E) where
  unfoldable pub cached_attestation : ℕ → AttestationCache → Option Bytes × AttestationCache
  cached_attestation now none = renew now (signer.attestation_doc now) none
  cached_attestation now (some (doc, fetched)) =
      if ltb (now - fetched) attestation_cache_ttl_ms
      then (some doc, some (doc, fetched))
      else renew now (signer.attestation_doc now) (some (doc, fetched))

  unfoldable pub attestation_gate : ℕ → AttestationCache → Option PriceResponse × AttestationCache
  attestation_gate now cache =
      let found = cached_attestation now cache in
      if not signer.requires_attestation_for_signing
      then (none, cache)
      else if is_available found.0
      then (none, found.1)
      else (some attestation_unavailable_response, found.1)

module _ {E F : Type 0} (crypto : Crypto) (format : Format E F) (signer : OracleSigner E) where
  unfoldable pub sign_price_update : CachedPrice F → Result E Bytes
  sign_price_update cached = signer.sign_digest (
      crypto.keccak256 (
        price_payload cached.asset_id cached.price_fixed cached.signed_timestamp cached.num_sources
          cached.sources_hash))

  unfoldable pub hex_0x : Bytes → Bytes
  hex_0x bytes = ascii "0x" ++ format.hex_encode bytes

  unfoldable pub update_of : CachedPrice F → Bytes → SignedPriceUpdate
  update_of cached signature = record {
    asset_id = hex_0x cached.asset_id;
    asset_symbol = cached.asset_symbol;
    price = format.display cached.price_fixed;
    price_human = format.eight_decimals cached.price_human;
    timestamp = cached.signed_timestamp;
    num_sources = cached.num_sources;
    sources_hash = hex_0x cached.sources_hash;
    signature = hex_0x signature;
    signer = hex_0x signer.address;
  }

  unfoldable pub sign_cached : CachedPrice F → Result E SignedPriceUpdate
  sign_cached cached = elim (sign_price_update cached) [
    | err e ↦ err e
    | ok signature ↦ ok (update_of cached signature)
  ]

  unfoldable pub push_signed :
      Result E SignedPriceUpdate → List SignedPriceUpdate → List SignedPriceUpdate
  push_signed (ok update) rest = update ∷ rest
  push_signed (err e) rest = rest

  unfoldable pub sign_all : PriceStore F → List SignedPriceUpdate
  sign_all [] = []
  sign_all ((symbol, cached) ∷ rest) = push_signed (sign_cached cached) (sign_all rest)

  unfoldable pub get_prices : Bytes → PriceStore F → PriceResponse
  get_prices signer_address store =
      let signed = sign_all store in
      record blank {
        prices = some signed;
        signer = some signer_address;
        num_assets = some (length signed);
      }

  unfoldable pub price_response : Bytes → Result E SignedPriceUpdate → PriceResponse
  price_response signer_address (ok update) = record blank {
    price = some update;
    signer = some signer_address;
  }
  price_response signer_address (err e) = record blank {
    error = some (ascii "signing failed: " ++ format.describe e);
  }

  unfoldable pub found_response : Bytes → Bytes → Option (CachedPrice F) → PriceResponse
  found_response signer_address asset (some cached) =
      price_response signer_address (sign_cached cached)
  found_response signer_address asset none = record blank {
    error = some (ascii "asset '" ++ asset ++ ascii "' not found");
  }

  unfoldable pub get_price : Bytes → PriceStore F → Option Bytes → PriceResponse
  get_price signer_address store none = record blank {
    error = some (ascii "missing 'asset' field");
  }
  get_price signer_address store (some asset) =
      found_response signer_address asset (lookup_price asset store)

  unfoldable pub attestation_response : Bytes → Option Bytes → PriceResponse
  attestation_response signer_address none = record blank {
    error = some (ascii "Attestation document unavailable");
    signer = some signer_address;
  }
  attestation_response signer_address (some doc) = record blank {
    signer = some signer_address;
    attestation_doc = some (format.hex_encode doc);
  }

  unfoldable pub process_request :
      PriceRequest
      → PriceStore F
      → Bytes
      → ℕ
      → ℕ
      → ℕ
      → AttestationCache
      → PriceResponse × AttestationCache
  process_request request store signer_address fallbacks assumed now cache =
      let found = cached_attestation signer now cache in
      if request.method == ascii "get_prices"
      then gated (attestation_gate signer now cache) (get_prices signer_address store)
      else if request.method == ascii "get_price"
      then gated (attestation_gate signer now cache) (get_price signer_address store request.asset)
      else if request.method == ascii "get_attestation"
      then (attestation_response signer_address found.0, found.1)
      else if request.method == ascii "health"
      then answer_health signer.requires_attestation_for_signing signer_address (length store)
          fallbacks assumed found cache
      else (record blank { error = some (ascii "unknown method: " ++ request.method) }, cache)
