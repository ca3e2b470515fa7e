-- ===== src/Crypto.antt =====
-- The third-party code under crates/keyex: k256 (ECDSA over secp256k1), sha3 and the EIP-712 hashing
-- of alloy-sol-types are the fields of one record, which everything that signs or recovers takes.
-- The `sol!` structs, of which the hash is taken, are the source's own (approval.rs, claim.rs).
use Prim.Native.String.{String}
use kaskad_nuntius.Prelude.{ℕ, Bool, Option}
use kaskad_nuntius.Policy.{Bytes}

-- `Eip712Domain::new(name, version, chain_id, verifying_contract, salt)`
pub record Domain : Type 0 where
  pub name : Option String
  pub version : Option String
  pub chain_id : Option ℕ
  pub verifying_contract : Option Bytes
  pub salt : Option Bytes

-- `struct Approval` of the `sol!` block in approval.rs
pub record ApprovalMessage : Type 0 where
  pub pcr0 : Bytes
  pub version : ℕ
  pub mode : ℕ
  pub label : Bytes
  pub role : ℕ
  pub expiry : ℕ
  pub nonce : Bytes

-- `struct Claim` of the `sol!` block in claim.rs
pub record ClaimMessage : Type 0 where
  pub recipient : Bytes
  pub cumulative_burned : ℕ
  pub deadline : ℕ

pub record Crypto : Type 1 where
  -- k256::ecdsa::{Signature, VerifyingKey, SigningKey}
  pub Signature : Type 0
  pub VerifyingKey : Type 0
  pub SigningKey : Type 0
  -- Signature::from_slice
  pub signature_from_slice : Bytes → Option Signature
  -- signature.normalize_s().is_some()
  pub is_high_s : Signature → Bool
  -- signature.to_bytes()
  pub signature_to_bytes : Signature → Bytes
  -- VerifyingKey::recover_from_prehash, the recovery id as its byte
  pub recover_from_prehash : Bytes → Signature → ℕ → Option VerifyingKey
  -- SigningKey::sign_prehash_recoverable, the recovery id as its byte
  pub sign_prehash_recoverable : SigningKey → Bytes → Option (Signature × ℕ)
  -- SigningKey::from_bytes
  pub key_from_bytes : Bytes → Option SigningKey
  pub verifying_key : SigningKey → VerifyingKey
  -- to_encoded_point(false).as_bytes()
  pub encoded_point : VerifyingKey → Bytes
  pub keccak256 : Bytes → Bytes
  -- SolStruct::eip712_signing_hash
  pub approval_signing_hash : ApprovalMessage → Domain → Bytes
  pub claim_signing_hash : ClaimMessage → Domain → Bytes
