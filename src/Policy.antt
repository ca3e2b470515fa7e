-- ===== src/Policy.antt =====
-- crates/keyex/src/policy.rs: whom an attested enclave hands its key to, and whose attestation a
-- fetching enclave accepts. The two `repr(u8)` enums (`ApprovalMode` is of approval.rs) are read
-- from their wire values by `of_u8`.
pub mod Handover
mod Tests
use kaskad_nuntius.Prelude.{
  ℕ, ◌≡◌, refl, Bool, true, false, not, ◌||◌, List, [], ◌∷◌, Option, none, some, ltb, any, Eq, ◌==◌,
  nat_eq, list_eq, ◌↔◌, arith, if◌then◌else◌,
}

-- Byte strings, which stand for the fixed arrays too (PCR0 48 bytes, labels and nonces 32).
abbrev pub Bytes : Type 0
Bytes = List ℕ

pub data EnclaveRole : Type 0 where
  oracle bridge : EnclaveRole

pub data ApprovalMode : Type 0 where
  carry fresh child : ApprovalMode

-- `TryFrom<u8>` of both enums: 0 is no role and no mode.
unfoldable pub role_of_u8 : ℕ → Option EnclaveRole
role_of_u8 v = if v == 1 then some oracle else if v == 2 then some bridge else none

unfoldable pub mode_of_u8 : ℕ → Option ApprovalMode
mode_of_u8 v =
    if v == 1
    then some carry
    else if v == 2
    then some fresh
    else if v == 3
    then some child
    else none

-- `role as u8` and `mode as u8`
unfoldable pub role_to_u8 : EnclaveRole → ℕ
role_to_u8 oracle = 1
role_to_u8 bridge = 2

unfoldable pub mode_to_u8 : ApprovalMode → ℕ
mode_to_u8 carry = 1
mode_to_u8 fresh = 2
mode_to_u8 child = 3

abbrev pub role_beq : EnclaveRole → EnclaveRole → Bool
role_beq oracle oracle = true
role_beq bridge bridge = true
role_beq _ _ = false

pub role_beq_iff : (a b : EnclaveRole) → (role_beq a b ≡ true) ↔ (a ≡ b)
role_beq_iff oracle oracle = (λ h. refl, λ h. refl)
role_beq_iff oracle bridge = (λ h. cc, λ h. cc)
role_beq_iff bridge oracle = (λ h. cc, λ h. cc)
role_beq_iff bridge bridge = (λ h. refl, λ h. refl)

instance abbrev pub role_eq : Eq EnclaveRole
role_eq = record { eq = role_beq; eq_exact = role_beq_iff }

pub data HandoffRefusal : Type 0 where
  pcr_mismatch_no_approval fresh_never_hands_off child_requested_by_bridge : HandoffRefusal
  version_not_newer candidate_key_no_handoff role_mismatch : HandoffRefusal

pub data KeyDecision : Type 0 where
  own_key : KeyDecision
  child_key : Bytes → KeyDecision
  refuse : HandoffRefusal → KeyDecision

pub record ImageIdentity : Type 0 where
  pub pcr0 : Bytes
  pub version : ℕ

pub record VerifiedApproval : Type 0 where
  pub pcr0 : Bytes
  pub version : ℕ
  pub mode : ApprovalMode
  pub label : Bytes
  pub role : EnclaveRole
  pub expiry : ℕ
  pub nonce : Bytes

-- The three `saw_…` variables of the loop in `decide_handover`.
pub record Seen : Type 0 where
  pub carry_not_newer : Bool
  pub fresh : Bool
  pub role_mismatch : Bool

-- One round of the loop: it returns, or goes on with its variables.
pub data Round : Type 0 where
  returns : KeyDecision → Round
  goes_on : Seen → Round

unfoldable pub consider_mode :
    ImageIdentity → EnclaveRole → VerifiedApproval → Seen → ApprovalMode → Round
consider_mode own role a seen carry =
    if ltb own.version a.version
    then returns own_key
    else goes_on (record seen { carry_not_newer = true })
consider_mode own oracle a seen child = returns (child_key a.label)
consider_mode own bridge a seen child = returns (refuse child_requested_by_bridge)
consider_mode own role a seen fresh = goes_on (record seen { fresh = true })

unfoldable pub consider : ImageIdentity → EnclaveRole → Bytes → VerifiedApproval → Seen → Round
unfolding consider_mode
consider own role peer_pcr0 a seen =
    if not (a.pcr0 == peer_pcr0)
    then goes_on seen
    else if not (a.role == role)
    then goes_on (record seen { role_mismatch = true })
    else consider_mode own role a seen a.mode

-- The checks behind the loop: the most specific refusal first.
unfoldable pub refusal : Seen → HandoffRefusal
refusal seen =
    if seen.carry_not_newer
    then version_not_newer
    else if seen.role_mismatch
    then HandoffRefusal.role_mismatch
    else if seen.fresh
    then fresh_never_hands_off
    else pcr_mismatch_no_approval

unfoldable pub decide_loop :
    ImageIdentity → EnclaveRole → Bytes → Seen → List VerifiedApproval → KeyDecision
unfolding refusal consider
decide_loop own role peer_pcr0 seen [] = refuse (refusal seen)
decide_loop own role peer_pcr0 seen (a ∷ rest) = elim (consider own role peer_pcr0 a seen) [
  | returns d ↦ d
  | goes_on seen' ↦ decide_loop own role peer_pcr0 seen' rest
]

abbrev pub nothing_seen : Seen
nothing_seen = record { carry_not_newer = false; fresh = false; role_mismatch = false }

unfoldable pub decide_handover :
    ImageIdentity → EnclaveRole → Bytes → Bool → List VerifiedApproval → KeyDecision
unfolding decide_loop
decide_handover own role peer_pcr0 own_key_is_candidate approvals =
    if own_key_is_candidate
    then refuse candidate_key_no_handoff
    else if peer_pcr0 == own.pcr0
    then own_key
    else decide_loop own role peer_pcr0 nothing_seen approvals

unfoldable pub approval_version_matches_new_image : ℕ → ℕ → Bool
approval_version_matches_new_image approval_version own_version = approval_version == own_version

pub data FetchKind : Type 0 where
  root_from_root bridge_from_bridge bridge_from_parent : FetchKind

pub data ClientRefusal : Type 0 where
  server_pcr_not_self_or_ancestor server_pcr_not_self server_pcr_not_parent_oracle : ClientRefusal

pub data ClientDecision : Type 0 where
  accept : ClientDecision
  reject : ClientRefusal → ClientDecision

unfoldable pub client_accepts_server : FetchKind → Bytes → Bytes → List Bytes → ClientDecision
client_accepts_server root_from_root own_pcr0 server_pcr0 baked_ancestors =
    if server_pcr0 == own_pcr0 || any (λ a. a == server_pcr0) baked_ancestors
    then accept
    else reject server_pcr_not_self_or_ancestor
client_accepts_server bridge_from_bridge own_pcr0 server_pcr0 baked_ancestors =
    if server_pcr0 == own_pcr0 then accept else reject server_pcr_not_self
client_accepts_server bridge_from_parent own_pcr0 server_pcr0 baked_ancestors =
    if any (λ a. a == server_pcr0) baked_ancestors
    then accept
    else reject server_pcr_not_parent_oracle
