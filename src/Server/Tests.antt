-- ===== src/Server/Tests.antt =====
-- Requests to src/price_server.rs.
use kaskad_nuntius.Prelude.{
  inl, inr, ℕ, ◌≡◌, refl, List, [], ◌∷◌, none, some, Result, ok, err, true, ltb, ◌*◌, ◌^◌,
  if◌then◌else◌, arith, list_beq,
}
use kaskad_nuntius.Policy.{Bytes}
use kaskad_nuntius.Chain.Text.{ascii}
use kaskad_nuntius.Samples.{toy_crypto}
use kaskad_nuntius.Samples.Numbers.{Toy, plus, toy_float}
use kaskad_nuntius.Cycle.{CachedPrice, PriceStore, lookup_price}
use kaskad_nuntius.Server.{
  OracleSigner, Format, PriceRequest, SignedPriceUpdate, PriceResponse, AttestationCache,
  price_payload, cached_attestation, update_of, process_request, attestation_gate, found_response,
  gated, get_price, is_available, price_response, renew, sign_cached, sign_price_update,
}
use kaskad_nuntius.Server.Answers.{HasNoPrice, process_request-refuses, process_request-price}
use kaskad_nuntius.Server.Attestation.{IsGenuine, process_request-IsGenuine}
use kaskad_nuntius.Server.Payload.{price_payload-inj}
use kaskad_nuntius.Server.Reading.{
  got, ReadEvent, Stream, ReadError, deadline_exceeded, read_loop, read_exact_with_deadline,
  read_request, InTime, read_loop-ends, be_u32, read_body, read_size, unless_over,
}

abbrev Failure : Type 0
Failure = Unit

-- A signer whose signature is the digest, and which NSM serves until second 1000.
abbrev signer : OracleSigner Failure
signer = record {
  sign_digest = λ digest. ok digest;
  address = 5 ∷ [];
  attestation_doc = λ now. if ltb now 1000000 then some (9 ∷ []) else none;
  requires_attestation_for_signing = true;
}

abbrev format : Format Failure Toy
format = record {
  hex_encode = λ b. b;
  display = λ n. n ∷ [];
  eight_decimals = λ x. [];
  describe = λ e. [];
}

abbrev gold : CachedPrice Toy
gold = record {
  asset_symbol = ascii "XAU/USD";
  asset_id = 1 ∷ [];
  price_fixed = 10000000000;
  price_human = plus (100 * 10 ^ 16);
  num_sources = 3;
  sources_hash = 2 ∷ [];
  signed_timestamp = 1010;
}

abbrev store : PriceStore Toy
store = (ascii "XAU/USD", gold) ∷ []

abbrev ask_gold : PriceRequest
ask_gold = record { method = ascii "get_price"; asset = some (ascii "XAU/USD") }

abbrev at_time : ℕ → AttestationCache → PriceResponse × AttestationCache
at_time now cache = process_request toy_crypto format signer ask_gold store (5 ∷ []) 0 0 now cache

abbrev old : AttestationCache
old = some (9 ∷ [], 900000)

unavailable : (cached_attestation signer 2000000 old).0 ≡ none
unfolding cached_attestation renew
unavailable = refl

process_request-refuses_example : HasNoPrice (at_time 2000000 old).0
process_request-refuses_example =
    process_request-refuses toy_crypto format signer ask_gold store (5 ∷ []) 0 0 2000000 old refl
      unavailable

abbrev gold_payload : Bytes
gold_payload = price_payload (1 ∷ []) 10000000000 1010 3 (2 ∷ [])

abbrev gold_update : SignedPriceUpdate
gold_update = update_of toy_crypto format signer gold gold_payload

answered : (at_time 900001 old).0.price ≡ some gold_update
unfolding process_request list_beq gated attestation_gate is_available cached_attestation get_price
    found_response lookup_price price_response sign_cached sign_price_update
answered = refl

process_request-price_example :
    (asset : Bytes) × (cached : CachedPrice Toy) × (signature : Bytes) × (ask_gold.asset
      ≡ some asset)
    × (lookup_price asset store ≡ some cached)
    × (signer.sign_digest (
          toy_crypto.keccak256 (
            price_payload cached.asset_id cached.price_fixed cached.signed_timestamp
              cached.num_sources cached.sources_hash))
        ≡ ok signature)
    × (gold_update ≡ update_of toy_crypto format signer cached signature)
    × (gold_update.timestamp ≡ cached.signed_timestamp)
process_request-price_example =
    process_request-price toy_crypto format signer ask_gold store (5 ∷ []) 0 0 900001 old answered

process_request-IsGenuine_example : IsGenuine signer (at_time 2000000 old).1
process_request-IsGenuine_example =
    process_request-IsGenuine toy_crypto format signer ask_gold store (5 ∷ []) 0 0 2000000 old refl

abbrev id : Bytes
id = 1 ∷ []

abbrev fixed : ℕ
fixed = 10000000000

abbrev seconds : ℕ
seconds = 1010

abbrev venues : ℕ
venues = 3

price_payload-inj_example :
    (id ≡ id) × (fixed ≡ fixed) × (seconds ≡ seconds) × (venues ≡ venues) × (id ≡ id)
price_payload-inj_example =
    price_payload-inj id id fixed fixed seconds seconds venues venues id id refl (omega arith)
      (omega arith) (omega arith) (omega arith) refl

-- Four bytes, one at a time.
abbrev drip : List ReadEvent
drip = (1, got 0) ∷ (2, got 0) ∷ (3, got 0) ∷ (4, got 0) ∷ []

read_loop-ends_example :
    (r : Result ReadError (Bytes × Stream)) × (read_loop 3 4 [] (1 ∷ 2 ∷ 3 ∷ 4 ∷ []) drip ≡ some r)
    × InTime 3 4 [] (1 ∷ 2 ∷ 3 ∷ 4 ∷ []) drip r
read_loop-ends_example =
    read_loop-ends 3 4 [] (1 ∷ 2 ∷ 3 ∷ 4 ∷ []) drip (omega arith)
      (inl (inr (inr (inl (omega arith)))))

-- A drip that outlasts the deadline is cut off.
drip_cut : read_exact_with_deadline 3 4 (1 ∷ 2 ∷ 3 ∷ 4 ∷ [], drip) ≡ some (err deadline_exceeded)
unfolding read_exact_with_deadline read_loop unless_over read_size
drip_cut = refl

request_read :
    read_request 100 (0 ∷ 0 ∷ 0 ∷ 2 ∷ 7 ∷ 8 ∷ [], (1, got 9) ∷ (2, got 9) ∷ [])
    ≡ some (ok (7 ∷ 8 ∷ [], ([], [])))
unfolding read_request read_body read_exact_with_deadline read_loop unless_over read_size be_u32
request_read = refl
