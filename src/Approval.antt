-- ===== src/Approval.antt =====
-- crates/keyex/src/approval.rs: owner-quorum approvals of image transitions. A refusal is a
-- constructor in place of the text that `bail!` formats.
pub mod Quorum
pub mod Verify
mod Tests
use kaskad_nuntius.Prelude.{
  ℕ, max, Bool, true, false, not, ◌&&◌, List, [], ◌∷◌, ◌++◌, some, none, Result, ok, err, ltb, leb,
  length, contains, ◌==◌, nat_eq, list_eq, if◌then◌else◌,
}
use kaskad_nuntius.Policy.{
  Bytes, EnclaveRole, ApprovalMode, VerifiedApproval, role_to_u8, mode_to_u8,
}
use kaskad_nuntius.Crypto.{Crypto, Domain}
use kaskad_nuntius.Sig.{Signature65, SigError, recover}

pub record ApprovalRequest : Type 0 where
  pub pcr0 : Bytes
  pub version : ℕ
  pub mode : ApprovalMode
  pub label : Bytes
  pub role : EnclaveRole
  pub expiry : ℕ
  pub nonce : Bytes
  pub chain_id : ℕ

-- `VerifiedApproval::from_request` of policy.rs
unfoldable pub from_request : ApprovalRequest → VerifiedApproval
from_request req = record {
  pcr0 = req.pcr0;
  version = req.version;
  mode = req.mode;
  label = req.label;
  role = req.role;
  expiry = req.expiry;
  nonce = req.nonce;
}

unfoldable pub domain : ℕ → Domain
domain chain_id = record {
  name = some "Kaskad Keyex";
  version = some "1";
  chain_id = some chain_id;
  verifying_contract = none;
  salt = none;
}

unfoldable pub approval_digest : Crypto → ApprovalRequest → Bytes
unfolding domain role_to_u8 mode_to_u8
approval_digest c req =
    c.approval_signing_hash
      (record {
        pcr0 = req.pcr0;
        version = req.version;
        mode = mode_to_u8 req.mode;
        label = req.label;
        role = role_to_u8 req.role;
        expiry = req.expiry;
        nonce = req.nonce;
      })
      (domain req.chain_id)

pub data ApprovalError : Type 0 where
  baked_threshold_zero live_threshold_zero no_baked_owner_left quorum_unsatisfiable : ApprovalError
  no_expiry expired threshold_zero threshold_exceeds_owners insufficient_approvals : ApprovalError

-- The loop of `effective_quorum` over the baked owners; `owners` is what it has pushed.
unfoldable pub push_surviving : List Bytes → List Bytes → Bytes → List Bytes
push_surviving live_owners owners o =
    if contains live_owners o && not (contains owners o) then owners ++ o ∷ [] else owners

unfoldable pub surviving : List Bytes → List Bytes → List Bytes → List Bytes
unfolding push_surviving
surviving live_owners owners [] = owners
surviving live_owners owners (o ∷ baked) =
    surviving live_owners (push_surviving live_owners owners o) baked

abbrev pub is_empty {ℓ} : {A : Type ℓ} → List A → Bool
is_empty [] = true
is_empty (x ∷ xs) = false

unfoldable pub satisfiable : List Bytes → ℕ → Result ApprovalError (List Bytes × ℕ)
satisfiable owners threshold =
    if is_empty owners
    then err no_baked_owner_left
    else if ltb (length owners) threshold
    then err quorum_unsatisfiable
    else ok (owners, threshold)

unfoldable pub effective_quorum :
    List Bytes → ℕ → List Bytes → ℕ → Result ApprovalError (List Bytes × ℕ)
unfolding satisfiable surviving
effective_quorum baked_owners baked_threshold live_owners live_threshold =
    if baked_threshold == 0
    then err baked_threshold_zero
    else if live_threshold == 0
    then err live_threshold_zero
    else satisfiable (surviving live_owners [] baked_owners) (max baked_threshold live_threshold)

-- One round of the loop of `verify_approvals`: the signer is pushed if it is an owner who has not
-- signed yet, and a signature that does not recover is passed over.
unfoldable pub count_signer : List Bytes → List Bytes → Result SigError Bytes → List Bytes
count_signer owners distinct_owners (err e) = distinct_owners
count_signer owners distinct_owners (ok addr) =
    if contains owners addr && not (contains distinct_owners addr)
    then distinct_owners ++ addr ∷ []
    else distinct_owners

module _ (c : Crypto) where
  unfoldable pub distinct_signers : Bytes → List Bytes → List Bytes → List Signature65 → List Bytes
  unfolding count_signer
  distinct_signers digest owners distinct_owners [] = distinct_owners
  distinct_signers digest owners distinct_owners (sig ∷ sigs) =
      distinct_signers digest owners (count_signer owners distinct_owners (recover c digest sig))
        sigs

  unfoldable pub verify_approvals :
      ApprovalRequest → List Signature65 → List Bytes → ℕ → ℕ → Result ApprovalError (Unit {0})
  unfolding distinct_signers
  verify_approvals req sigs owners threshold now_unix_secs =
      if req.expiry == 0
      then err no_expiry
      else if leb req.expiry now_unix_secs
      then err expired
      else if threshold == 0
      then err threshold_zero
      else if ltb (length owners) threshold
      then err threshold_exceeds_owners
      else if ltb (length (distinct_signers (approval_digest c req) owners [] sigs)) threshold
      then err insufficient_approvals
      else ok tt
