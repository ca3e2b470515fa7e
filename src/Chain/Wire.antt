-- ===== src/Chain/Wire.antt =====
-- The third-party code that crates/keyex/src/chain.rs calls, as the fields of one record: JSON values
-- (serde_json), hex, the text of addresses and big-endian words (alloy-primitives), and the transport
-- seam `EthTransport`, whose answers depend on a world that each call may change.
use Prim.Native.String.{String}
use kaskad_nuntius.Prelude.{ℕ, Bool, List, Option}
use kaskad_nuntius.Policy.{Bytes}

pub record Wire : Type 1 where
  pub World : Type 0
  pub Value : Type 0
  -- Value::get by a key, Value::as_str
  pub get : Value → String → Option Value
  pub as_str : Value → Option Bytes
  -- the number of a Value::Number, by as_u64
  pub as_number : Value → Option (Option ℕ)
  -- what a `json!` literal is built of
  pub string : Bytes → Value
  pub boolean : Bool → Value
  pub array : List Value → Value
  pub object : List (String × Value) → Value
  -- hex::decode, hex::encode_prefixed
  pub hex_decode : Bytes → Option Bytes
  pub hex_encode_prefixed : Bytes → Bytes
  -- Address::to_string
  pub address_to_string : Bytes → Bytes
  -- str::parse::<Address>
  pub address_from_text : Bytes → Option Bytes
  -- U256::from_be_slice
  pub u256_from_be : Bytes → ℕ
  -- U256::to_string, str::parse::<U256>
  pub u256_to_text : ℕ → Bytes
  pub u256_from_text : Bytes → Option ℕ

-- `EthTransport::rpc`: the method, the parameters, and the unwrapped result or a failure.
abbrev pub Transport : Wire → Type 0
Transport x = String → x.Value → x.World → Option x.Value × x.World
