-- ===== src/Oracle/State.antt =====
-- src/keyex_oracle/state.rs: the boot progress, the installed key, the approvals and the peer hints.
use kaskad_nuntius.Prelude.{
  Bool, true, false, not, ◌&&◌, List, [], ◌∷◌, ◌++◌, Option, none, some, any, Eq, eq_iff, ◌≡◌, ◌↔◌,
  refl, arith, ◌==◌, nat_eq, list_eq, if◌then◌else◌,
}
use kaskad_nuntius.Policy.{Bytes, ApprovalMode, carry, fresh, child, VerifiedApproval, role_eq}
use kaskad_nuntius.Oracle.Peers.{AddressText, bounded_peers}
use kaskad_nuntius.Bridge.State.{BootState, ready, fetching, waiting_registration}

-- `KeySource` of crates/keyex/src/api.rs
pub data KeySource : Type 0 where
  peer genesis : KeySource

pub record OracleKeyexState : Type 0 where
  pub boot_state : BootState
  pub source : KeySource
  pub signer_addr : Option Bytes
  pub signer_pubkey : Option Bytes
  pub root_key : Option Bytes
  pub approvals : List VerifiedApproval
  pub oracle_peers : List Bytes

unfoldable pub new_oracle_state : OracleKeyexState
new_oracle_state = record {
  boot_state = fetching;
  source = genesis;
  signer_addr = none;
  signer_pubkey = none;
  root_key = none;
  approvals = [];
  oracle_peers = [];
}

unfoldable pub publish_candidate : OracleKeyexState → Bytes → Bytes → OracleKeyexState
publish_candidate st addr pubkey = record st {
  signer_addr = some addr;
  signer_pubkey = some pubkey;
  source = genesis;
  boot_state = waiting_registration;
}

unfoldable pub install_root_key :
    OracleKeyexState → Bytes → Bytes → Bytes → KeySource → OracleKeyexState
install_root_key st root_bytes addr pubkey source = record st {
  root_key = some root_bytes;
  signer_addr = some addr;
  signer_pubkey = some pubkey;
  source = source;
  boot_state = ready;
}

abbrev pub mode_beq : ApprovalMode → ApprovalMode → Bool
mode_beq carry carry = true
mode_beq fresh fresh = true
mode_beq child child = true
mode_beq _ _ = false

-- The derived `PartialEq` of `VerifiedApproval`.
unfoldable pub approval_beq : VerifiedApproval → VerifiedApproval → Bool
approval_beq a b =
    a.pcr0 == b.pcr0
    && a.version == b.version
    && mode_beq a.mode b.mode
    && a.label == b.label
    && a.role == b.role
    && a.expiry == b.expiry
    && a.nonce == b.nonce

mode_beq_iff : (a b : ApprovalMode) → (mode_beq a b ≡ true) ↔ (a ≡ b)
mode_beq_iff carry carry = (λ h. refl, λ h. refl)
mode_beq_iff carry fresh = (λ h. cc, λ h. cc)
mode_beq_iff carry child = (λ h. cc, λ h. cc)
mode_beq_iff fresh carry = (λ h. cc, λ h. cc)
mode_beq_iff fresh fresh = (λ h. refl, λ h. refl)
mode_beq_iff fresh child = (λ h. cc, λ h. cc)
mode_beq_iff child carry = (λ h. cc, λ h. cc)
mode_beq_iff child fresh = (λ h. cc, λ h. cc)
mode_beq_iff child child = (λ h. refl, λ h. refl)

pub approval_beq_iff : (a b : VerifiedApproval) → (approval_beq a b ≡ true) ↔ (a ≡ b)
unfolding approval_beq
approval_beq_iff a b = ground (
  arith,
  eq_iff a.pcr0 b.pcr0,
  eq_iff a.version b.version,
  mode_beq_iff a.mode b.mode,
  eq_iff a.label b.label,
  eq_iff a.role b.role,
  eq_iff a.expiry b.expiry,
  eq_iff a.nonce b.nonce,
)

instance abbrev pub approval_eq : Eq VerifiedApproval
approval_eq = record { eq = approval_beq; eq_exact = approval_beq_iff }

unfoldable pub add_approval : OracleKeyexState → VerifiedApproval → OracleKeyexState
add_approval st va =
    if not (any (λ a. a == va) st.approvals)
    then record st { approvals = st.approvals ++ va ∷ [] }
    else st

module _ (t : AddressText) where
  unfoldable pub set_peer_hints : OracleKeyexState → List Bytes → OracleKeyexState
  set_peer_hints st oracle_peers = record st { oracle_peers = bounded_peers t oracle_peers }

  -- The baked peers first, then the hints of the host.
  unfoldable pub peer_snapshot : OracleKeyexState → List Bytes → List Bytes
  peer_snapshot st baked_peers = bounded_peers t (baked_peers ++ st.oracle_peers)
