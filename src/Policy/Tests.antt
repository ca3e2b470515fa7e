-- ===== src/Policy/Tests.antt =====
-- Runs of crates/keyex/src/policy.rs on concrete images.
use kaskad_nuntius.Prelude.{
  ℕ, ◌≡◌, ◌≢◌, refl, ◌⊎◌, ◌↔◌, true, false, List, [], ◌∷◌, All, Any, list_beq,
}
use kaskad_nuntius.Policy.{
  Bytes, EnclaveRole, oracle, ApprovalMode, carry, child, pcr_mismatch_no_approval, own_key,
  child_key, refuse, HandoffRefusal, ImageIdentity, VerifiedApproval, decide_loop, decide_handover,
  consider, consider_mode, refusal,
}
use kaskad_nuntius.Policy.Handover.{
  IsNewerCarry, IsChildApproval, oracle_refuses_iff, decide_handover_own_key,
  decide_handover_child_key,
}
use kaskad_nuntius.Policy.Handover.Matrix.{decisive}

abbrev image : ImageIdentity
image = record { pcr0 = 1 ∷ []; version = 5 }

abbrev approve : Bytes → ℕ → ApprovalMode → EnclaveRole → VerifiedApproval
approve pcr0 version mode role = record {
  pcr0 = pcr0;
  version = version;
  mode = mode;
  label = 9 ∷ [];
  role = role;
  expiry = 100;
  nonce = [];
}

-- A stale carry, then a newer one, for the image 2; a child for the image 3.
abbrev approvals : List VerifiedApproval
approvals =
    approve (2 ∷ []) 5 carry oracle
    ∷ approve (2 ∷ []) 6 carry oracle
    ∷ approve (3 ∷ []) 1 child oracle
    ∷ []

handover_newer : decide_handover image oracle (2 ∷ []) false approvals ≡ own_key
unfolding decide_handover decide_loop consider consider_mode refusal list_beq
handover_newer = refl

handover_child : decide_handover image oracle (3 ∷ []) false approvals ≡ child_key (9 ∷ [])
unfolding decide_handover decide_loop consider consider_mode refusal list_beq
handover_child = refl

handover_stranger :
    decide_handover image oracle (4 ∷ []) false approvals ≡ refuse pcr_mismatch_no_approval
unfolding decide_handover decide_loop consider consider_mode refusal list_beq
handover_stranger = refl

oracle_refuses_iff_example :
    ((e : HandoffRefusal) × (decide_handover image oracle (4 ∷ []) false approvals ≡ refuse e)) ↔ (
      (false ≡ true)
      ⊎ (((4 ∷ []) ≢ image.pcr0) × All (λ a. decisive image oracle (4 ∷ []) a ≡ false) approvals))
oracle_refuses_iff_example = oracle_refuses_iff image (4 ∷ []) false approvals

decide_handover_own_key_example :
    (false ≡ false) × (((2 ∷ []) ≡ image.pcr0) ⊎ Any (IsNewerCarry image oracle (2 ∷ [])) approvals)
decide_handover_own_key_example =
    decide_handover_own_key image oracle (2 ∷ []) false approvals handover_newer

decide_handover_child_key_example :
    (false ≡ false)
    × (oracle ≡ oracle)
    × ((3 ∷ []) ≢ image.pcr0)
    × Any (IsChildApproval oracle (3 ∷ []) (9 ∷ [])) approvals
decide_handover_child_key_example =
    decide_handover_child_key image oracle (3 ∷ []) (9 ∷ []) false approvals handover_child
