-- ===== src/Samples.antt =====
-- Small instances of what the model takes as a parameter, for the tests: a signature that is the key
-- itself, JSON values of three kinds, and a node with one finalized chain.
pub mod Numbers
pub mod Nitro
use Prim.Native.String.{String}
use native.Mathlib.Nat.{mod-lt}
use kaskad_nuntius.Prelude.{
  ℕ, ◌+◌, ◌*◌, ◌%◌, ◌^◌, ◌<◌, ◌≡◌, refl, false, List, [], ◌∷◌, ◌++◌, Option, none, some, ltb,
  replicate, ◌==◌, nat_eq, list_eq, arith, if◌then◌else◌, ok,
}
use kaskad_nuntius.Policy.{Bytes}
use kaskad_nuntius.Boot.Tick.{ChainView}
use kaskad_nuntius.Crypto.{Crypto}
use kaskad_nuntius.Chain.Wire.{Wire, Transport}
use kaskad_nuntius.Chain.Text.{ascii}

-- A signature is the bytes of the key that made it, and it recovers to that key.
abbrev pub toy_crypto : Crypto
toy_crypto = record {
  Signature = Bytes;
  VerifyingKey = Bytes;
  SigningKey = Bytes;
  signature_from_slice = λ b. some b;
  is_high_s = λ s. false;
  signature_to_bytes = λ s. s;
  recover_from_prehash = λ d s v. some s;
  sign_prehash_recoverable = λ k d. some (k, 0);
  key_from_bytes = λ b. some b;
  verifying_key = λ k. k;
  encoded_point = λ k. 4 ∷ replicate 12 0 ++ k;
  keccak256 = λ b. b;
  approval_signing_hash = λ m d. m.nonce;
  claim_signing_hash = λ m d. m.recipient;
}

-- A text, a block with its number, hash and time, or nothing of use.
pub data Json : Type 0 where
  text : Bytes → Json
  block : Bytes → Bytes → Bytes → Json
  other : Json

abbrev field_of : Bytes → Bytes → Bytes → Bytes → Option Json
field_of name number hash timestamp =
    if name == ascii "number"
    then some (text number)
    else if name == ascii "hash"
    then some (text hash)
    else if name == ascii "timestamp"
    then some (text timestamp)
    else none

abbrev get_of : Json → String → Option Json
get_of (block n h t) name = field_of (ascii name) n h t
get_of (text b) name = none
get_of other name = none

abbrev text_of : Json → Option Bytes
text_of (text b) = some b
text_of (block n h t) = none
text_of other = none

abbrev first_of : List Json → Json
first_of [] = other
first_of (v ∷ l) = v

abbrev pub big_endian : ℕ → Bytes → ℕ
big_endian acc [] = acc
big_endian acc (b ∷ l) = big_endian (acc * 256 + b) l

abbrev pub number_of : Bytes → ℕ
number_of b = big_endian 0 b % 2 ^ 256

abbrev number_from : Bytes → Option ℕ
number_from [] = none
number_from (n ∷ []) = some n
number_from (n ∷ m ∷ l) = none

-- The world counts the calls. The text of a number is one symbol.
abbrev pub toy_wire : Wire
toy_wire = record {
  World = ℕ;
  Value = Json;
  get = get_of;
  as_str = text_of;
  as_number = λ v. none;
  string = text;
  boolean = λ b. other;
  array = first_of;
  object = λ l. other;
  hex_decode = λ b. some b;
  hex_encode_prefixed = λ b. b'0' ∷ b'x' ∷ b;
  address_to_string = λ b. b;
  address_from_text = λ b. some b;
  u256_from_be = number_of;
  u256_to_text = λ n. n ∷ [];
  u256_from_text = number_from;
}

pub toy_fits : (b : Bytes) → toy_wire.u256_from_be b < 2 ^ 256
toy_fits b = mod-lt (big_endian 0 b) (omega arith)

pub toy_reads_back :
    (n : ℕ) → n < 2 ^ 256 → toy_wire.u256_from_text (toy_wire.u256_to_text n) ≡ some n
toy_reads_back n h = refl

-- The block that is asked for; the finalized one is number 100.
abbrev block_at : Json → Json
block_at (text t) =
    block (if t == ascii "finalized" then ascii "0x64" else t) (replicate 32 9) (ascii "0x3e8")
block_at (block n h t) = other
block_at other = other

-- The head is number 1000. The burned total is 7 in the first eight calls, and 9 from then on.
abbrev answer_of : Bytes → Json → ℕ → Option Json
answer_of method params w =
    if method == ascii "eth_blockNumber"
    then some (text (ascii "0x3e8"))
    else if method == ascii "eth_getBlockByNumber"
    then some (block_at params)
    else some (text (replicate 31 0 ++ (if ltb w 8 then 7 else 9) ∷ []))

abbrev pub toy_node : Transport toy_wire
toy_node method params w = (answer_of (ascii method) params w, w + 1)

-- A node that fails.
abbrev pub dead_node : Transport toy_wire
dead_node method params w = (none, w + 1)

-- The registry lists the address 7 alone, and counts no signers.
abbrev pub registry : ChainView ℕ
registry = record {
  registered = λ a w. (ok (a == 7 ∷ []), w + 1);
  signer_count = λ w. (ok 0, w + 1);
}
