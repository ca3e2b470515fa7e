-- ===== src/Lib.antt =====
-- Verification of the key exchange, the bridge and the price path of kaskad-nuntius. Key exchange and
-- bridge: enclaves that hold a root key hand it on only to attested images that a quorum of owners has
-- approved, find out at boot whether a key is listed by the registry of the chain, and, as a bridge,
-- read a burn ledger on one chain and sign claims for the other. Price path: the oracle collects order
-- books and price samples from venues, reduces them to one price and one clock for each asset, and
-- signs them on request while its attestation can be shown.
--
-- The files and the code that they model (paths from the root of the repository):
--
--   Policy      crates/keyex/src/policy.rs: decide_handover, client_accepts_server
--   Crypto      the cryptography that crates/keyex calls, as a record of parameters
--   Sig         crates/keyex/src/sig.rs: recover, sign_recoverable
--   Approval    crates/keyex/src/approval.rs: effective_quorum, verify_approvals
--   Claim       crates/keyex/src/claim.rs: the rules of a claim and its digest
--   Chain       crates/keyex/src/chain.rs: Wire holds its third-party parameters, Text the string
--               operations, Quantity the JSON-RPC numbers, Abi the ABI words, Reads the typed reads
--   Boot        crates/keyex/src/boot.rs (Tick) and crates/keyex/src/driver.rs (Driver)
--   Bridge      crates/pontifex-bridge/src: config.rs (Config), state.rs (State), transport.rs
--               (Failover), claimflow.rs (ClaimFlow), handler.rs (Handler); Session requests in a row, each
--               with the time that serve.rs stamps on it
--   Oracle      src/keyex_oracle/state.rs: Peers the peer endpoints, State the rest;
--               src/keyex_oracle/control.rs: Fields and Control the approval requests,
--               Dispatch all requests; src/keyex_oracle/config.rs: Config (proofs in Sound);
--               src/keyex_oracle/handover.rs: Handover (proofs in Served and Inflight);
--               run_boot_with_discovery of src/keyex_oracle/mod.rs: Discovery
--   Float       `f64`, as a record of parameters
--   Aggregator  src/aggregator/mod.rs with the sample types of src/types.rs: the parent the clocks and
--               conversions, Weights the weighted median, Outliers the rejection of prices and the
--               fixed point; Clock, Choice and Limits hold the proofs
--   Books       src/cob_state/mod.rs, src/cob_common/mod.rs and src/cob.rs: the parent the map of books,
--               Symbols the tables per asset and venue, Selection the books of an asset, Clearing the
--               grid and the clearing loop, Gate the gates; Anchor, Store, Sweeps and
--               Ending hold the proofs
--   Cycle       src/main.rs: the oracle loop over the assets (proofs in Publishing and its Isolation); Assets is
--               load_assets of src/types.rs
--   Server      src/price_server.rs and the payload of src/signer.rs; Reading the reads with a deadline;
--               Payload, Answers and Attestation hold the proofs
--   Collectors  src/collectors: LocalBook (book.rs), Sink (sink.rs), Manager (manager.rs), and Latency for
--               LatencyTracker of src/cob_common/mod.rs; Levels and Running hold the proofs
--   Ratls       crates/keyex/src/binding.rs (Binding), and crates/keyex/src/ratls.rs with kdf.rs: Framing the
--               frames, Exchange both sides of the key exchange; Secrecy and Transfer hold the proofs
--   Attest      crates/nitro-common/src: attest.rs (Document), verify.rs (Der its DER signatures, Verify the
--               rest), nsm.rs and rng.rs (Random, with src/nsm_rng.rs); Peer is NsmPeerVerifier of ratls.rs;
--               RoundTrip, Chain, Trust, Draws and Filling hold the proofs
--   Prelude     shared notation, tests, lists, sorting, results and the monad of effects
--   Samples     small instances of the parameters, for the tests
--
-- A Chain read takes the transport as a function from a world to an answer and the next world, so that
-- the remote side may answer anything, and differently each time. Boot asks the registry through such
-- reads, Bridge signs a claim with Sig over the digest of Claim after the reads of Chain. A holder of
-- a key and an enclave that asks for it run the exchange of Ratls over the frames of a stream, with
-- the documents that Attest verifies, and ask Policy what to hand over and whom to accept. Cycle takes
-- the books of Books and the samples of the venues through the Aggregator to a store of unsigned
-- prices, which the Server signs. A state is a record; an operation returns the new one. An `i64` is
-- its two's-complement word. A map is an association list with one entry for each key. A `Result` has
-- one constructor for each kind of error, in place of the text that the code formats. Numbers are
-- unbounded where the code cannot overflow, and wrap at 2^64 where it would.
--
-- Parameters, which stand for code that is not of this repository: k256, the Keccak hash and the
-- EIP-712 hashes (Crypto), JSON values, hex, texts of addresses and 256-bit numbers (Wire), the
-- address parsers of the standard library (AddressText), the transport below one endpoint, peers, the
-- clock and the attestation of the hardware, and its answers to requests for randomness; CBOR (Cbor in
-- Attest/Document), X.509 certificates and P-384 (Pki in Attest/Verify), HKDF, the parser of
-- certificates and the handshake of a TLS session (Ratls/Exchange). A stream is what the peer sends,
-- what has been written and how much can be written before it breaks; one that stalls is one that
-- ends. Of the price path, parameters are: `f64` (Float), what the venues answer, `to_uppercase`, hex
-- and number formatting, the signer and its attestation by time, which exchanges have a collector, and
-- the configuration file. The texts baked into an image are arguments. Hypotheses of parameters: in
-- Bridge/Session, a number read from big-endian bytes is below 2^256, and the decimal text of such a
-- number parses to it; in Aggregator/Limits (MinLaws), Books/Ending (FiniteLaws, EndlessLaws) and
-- Collectors/Levels (EqualityLaws, OrderLaws), rules of IEEE 754 on `min`, differences, order and
-- equality, which Samples/Numbers shows to hold of a small instance.
--
-- Bounds: `hex_text` writes at most 16 and `u64_to_text` at most 20 digits, which any u64 fits; the
-- failover loop makes one round for each endpoint, as the code does; `run_boot` and
-- `run_boot_with_discovery` have fuel in place of an endless loop, and what is said of it holds for
-- any fuel. The clearing loop of Books/Clearing runs on fuel, where running out is told apart from
-- having no price: as many units as there are levels are enough when all quantities are finite, and no
-- fuel is enough when two crossing levels hold quantities that are NaN or infinite. `gcd_u64` has the
-- second number as fuel, since the remainder falls below it in each round. The loop that fills a
-- buffer with random bytes has one unit of fuel more than bytes asked for, since each round copies one
-- at least. The clock of one request to the Server stands still.
--
-- Not modelled: sockets, the TLS handshake with its certificates, tasks and locks, logging, the JSON
-- encoding of replies, the overwriting of keys in memory, the generator of candidates, the signer and
-- the wiring of boot_and_serve in src/keyex_oracle, the text of the pinned root certificate (the root
-- is an argument), the start-up of the processes, the other requests to NSM, KMS and S3, the WebSocket
-- connections, the REST sources and the JSON parser of each exchange, and all that is not Rust.
pub mod Prelude
pub mod Policy
pub mod Crypto
pub mod Sig
pub mod Approval
pub mod Claim
pub mod Chain
pub mod Boot
pub mod Bridge
pub mod Oracle
pub mod Float
pub mod Aggregator
pub mod Books
pub mod Cycle
pub mod Server
pub mod Collectors
pub mod Ratls
pub mod Attest
pub mod Samples
