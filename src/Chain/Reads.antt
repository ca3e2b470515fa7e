-- ===== src/Chain/Reads.antt =====
-- The typed reads of crates/keyex/src/chain.rs. An `await` that answers is a call of the transport; `?`
-- is the bind of `Act`, and what the calls did to the world stays done.
use Prim.Native.String.{String}
use mathlib.Core.Option
use kaskad_nuntius.Prelude.{
  ℕ, ◌-◌, Bool, true, false, not, ◌||◌, List, [], ◌∷◌, Option, none, some, Result, ok, err, ok_or,
  Act, ◌>>=◌, lift, pure, raise, ltb, leb, length, take, replicate, ◌==◌, nat_eq, list_eq,
  if◌then◌else◌,
}
use kaskad_nuntius.Policy.{Bytes}
use kaskad_nuntius.Claim.{ClaimError, read_mismatch, decreasing_burned, rpc_error}
use kaskad_nuntius.Chain.Wire.{Wire, Transport}
use kaskad_nuntius.Chain.Text.{ascii}
use kaskad_nuntius.Chain.Quantity.{format_quantity, parse_quantity, parse_b256, decode_hex}
use kaskad_nuntius.Chain.Abi.{encode_call, decode_address_array}

abbrev pub sel_burned : Bytes
sel_burned = 0xa7 ∷ 0x50 ∷ 0x9b ∷ 0x83 ∷ []

abbrev pub sel_is_valid_signer : Bytes
sel_is_valid_signer = 0xd5 ∷ 0xf5 ∷ 0x05 ∷ 0x82 ∷ []

abbrev pub sel_valid_signer : Bytes
sel_valid_signer = 0xba ∷ 0x6f ∷ 0x8b ∷ 0x0e ∷ []

abbrev pub sel_signer_count : Bytes
sel_signer_count = 0x7c ∷ 0xa5 ∷ 0x48 ∷ 0xc6 ∷ []

abbrev pub sel_get_owners : Bytes
sel_get_owners = 0xa0 ∷ 0xe6 ∷ 0x7e ∷ 0x2b ∷ []

abbrev pub sel_get_threshold : Bytes
sel_get_threshold = 0xe7 ∷ 0x52 ∷ 0x35 ∷ 0xb8 ∷ []

-- The registry of the oracle and the one of the bridge, whose signer checks have different names.
pub data Registry : Type 0 where
  oracle_registry bridge_registry : Registry

unfoldable pub valid_signer_selector : Registry → Bytes
valid_signer_selector oracle_registry = sel_is_valid_signer
valid_signer_selector bridge_registry = sel_valid_signer

pub data FinalityPolicy : Type 0 where
  tag : FinalityPolicy
  head_minus finalized_with_depth : ℕ → FinalityPolicy

pub data ChainError : Type 0 where
  mismatch decreasing rpc : ChainError

-- `From<ChainError> for ClaimError`
unfoldable pub claim_error_of : ChainError → ClaimError
claim_error_of mismatch = read_mismatch
claim_error_of decreasing = decreasing_burned
claim_error_of rpc = rpc_error

pub record BlockRef : Type 0 where
  pub number : ℕ
  pub hash : Bytes
  pub timestamp : ℕ

pub data CallBlock : Type 0 where
  by_number : ℕ → CallBlock
  canonical_hash : Bytes → CallBlock

unfoldable pub ensure_not_decreasing : ℕ → ℕ → Result ChainError (Unit {0})
ensure_not_decreasing fresh last_signed = if ltb fresh last_signed then err decreasing else ok tt

module _ (x : Wire) (t : Transport x) where
  open x use {World, Value}

  -- `t.rpc(..).await.map_err(|_| ChainError::Rpc)`
  unfoldable pub call_rpc : String → Value → Act World ChainError Value
  call_rpc method params w = let (answer, w') = t method params w in (ok_or answer rpc, w')

  -- A field of an answer, read by a parser; a missing field and a bad one are the same error.
  unfoldable pub field : {A : Type 0} → Value → String → (Value → Option A) → Result ChainError A
  field resp name parse = ok_or (Option.bind (x.get resp name) parse) rpc

  unfoldable pub eth_block_number : Act World ChainError ℕ
  eth_block_number = do
    resp ← call_rpc "eth_blockNumber" (x.array [])
    lift (ok_or (parse_quantity x resp) rpc)

  abbrev pub block_tag : Option ℕ → Bytes
  block_tag none = ascii "finalized"
  block_tag (some number) = format_quantity number

  -- `requested_number.is_some_and(|expected| expected != number)`
  abbrev pub substituted : Option ℕ → ℕ → Bool
  substituted none number = false
  substituted (some expected) number = not (expected == number)

  abbrev pub fail_if : Bool → ChainError → Act World ChainError (Unit {0})
  fail_if true e = raise e
  fail_if false e = pure tt

  unfoldable pub read_block : Option ℕ → Act World ChainError BlockRef
  read_block requested_number = do
    resp ←
        call_rpc "eth_getBlockByNumber"
          (x.array (x.string (block_tag requested_number) ∷ x.boolean false ∷ []))
    number ← lift (field resp "number" (parse_quantity x))
    _ ← fail_if (substituted requested_number number) mismatch
    hash ← lift (field resp "hash" (parse_b256 x))
    timestamp ← lift (field resp "timestamp" (parse_quantity x))
    pure (record { number = number; hash = hash; timestamp = timestamp })

  -- `checked_sub(depth).ok_or(ChainError::Rpc)`
  abbrev pub checked_sub : ℕ → ℕ → Result ChainError ℕ
  checked_sub a b = if leb b a then ok (a - b) else err rpc

  unfoldable pub finalized_block : FinalityPolicy → Act World ChainError BlockRef
  finalized_block tag = read_block none
  finalized_block (head_minus depth) = do head ← eth_block_number; read_block (some (head - depth))
  finalized_block (finalized_with_depth depth) = do
    finalized ← read_block none
    head ← eth_block_number
    ceiling ← lift (checked_sub head depth)
    if leb finalized.number ceiling then pure finalized else read_block (some ceiling)

  unfoldable pub block_id : CallBlock → Value
  block_id (by_number number) = x.string (format_quantity number)
  block_id (canonical_hash hash) = x.object (
      ("blockHash", x.string (x.hex_encode_prefixed hash))
      ∷ ("requireCanonical", x.boolean true)
      ∷ [])

  unfoldable pub eth_call_bytes : Bytes → Bytes → CallBlock → Act World ChainError Bytes
  eth_call_bytes to calldata block = do
    resp ← call_rpc "eth_call" (
        x.array (
          x.object (
            ("to", x.string (x.address_to_string to))
            ∷ ("data", x.string (x.hex_encode_prefixed calldata))
            ∷ [])
          ∷ block_id block
          ∷ []))
    s ← lift (ok_or (x.as_str resp) rpc)
    lift (ok_or (decode_hex x s) rpc)

  unfoldable pub eth_call_word : Bytes → Bytes → CallBlock → Act World ChainError Bytes
  eth_call_word to calldata block = do
    bytes ← eth_call_bytes to calldata block
    _ ← fail_if (ltb (length bytes) 32) rpc
    pure (take 32 bytes)

  unfoldable pub read_block_hash : ℕ → Act World ChainError Bytes
  read_block_hash number = do
    resp ←
        call_rpc "eth_getBlockByNumber"
          (x.array (x.string (format_quantity number) ∷ x.boolean false ∷ []))
    observed ← lift (field resp "number" (parse_quantity x))
    _ ← fail_if (not (observed == number)) mismatch
    lift (field resp "hash" (parse_b256 x))

  unfoldable pub burned_finalized : Bytes → Bytes → FinalityPolicy → Act World ChainError (ℕ × ℕ)
  burned_finalized exit recipient finality = do
    block ← finalized_block finality
    let calldata = encode_call sel_burned recipient
    v1 ← eth_call_word exit calldata (canonical_hash block.hash)
    hash2 ← read_block_hash block.number
    v2 ← eth_call_word exit calldata (canonical_hash block.hash)
    _ ← fail_if (not (block.hash == hash2) || not (v1 == v2)) mismatch
    pure (x.u256_from_be v1, block.number)

  unfoldable pub is_valid_signer :
      Bytes → Registry → Bytes → FinalityPolicy → Act World ChainError Bool
  is_valid_signer registry kind who finality = do
    block ← finalized_block finality
    let calldata = encode_call (valid_signer_selector kind) who
    w ← eth_call_word registry calldata (by_number block.number)
    pure (not (w == replicate 32 0))

  unfoldable pub signer_count : Bytes → FinalityPolicy → Act World ChainError ℕ
  signer_count registry finality = do
    block ← finalized_block finality
    w ← eth_call_word registry sel_signer_count (by_number block.number)
    pure (x.u256_from_be w)

  unfoldable pub safe_quorum : Bytes → FinalityPolicy → Act World ChainError (List Bytes × ℕ)
  safe_quorum safe finality = do
    block ← finalized_block finality
    raw ← eth_call_bytes safe sel_get_owners (by_number block.number)
    owners ← lift (ok_or (decode_address_array x raw) rpc)
    w ← eth_call_word safe sel_get_threshold (by_number block.number)
    pure (owners, x.u256_from_be w)
