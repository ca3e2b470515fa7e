-- ===== src/Approval/Tests.antt =====
-- Runs of crates/keyex/src/approval.rs over the sample instances.
use kaskad_nuntius.Prelude.{
  ◌≤◌, ◌<◌, max, ◌≡◌, refl, ◌↔◌, ◌&&◌, List, [], ◌∷◌, ok, err, length, contains, Distinct, list_eq,
  nat_eq, list_beq,
}
use kaskad_nuntius.Policy.{Bytes, oracle, carry}
use kaskad_nuntius.Sig.{Signature65, recover, recover_with, recovery_id, address_from_key}
use kaskad_nuntius.Approval.{
  ApprovalRequest, push_surviving, surviving, satisfiable, effective_quorum, insufficient_approvals,
  count_signer, distinct_signers, verify_approvals,
}
use kaskad_nuntius.Approval.Quorum.{effective_quorum_ok}
use kaskad_nuntius.Approval.Verify.{SignedQuorum, verify_approvals_iff}
use kaskad_nuntius.Samples.{toy_crypto}

abbrev alice : Bytes
alice = 1 ∷ []

abbrev bob : Bytes
bob = 2 ∷ []

abbrev carol : Bytes
carol = 3 ∷ []

abbrev baked : List Bytes
baked = alice ∷ bob ∷ alice ∷ carol ∷ []

abbrev live : List Bytes
live = carol ∷ alice ∷ []

quorum_run : effective_quorum baked 1 live 2 ≡ ok (alice ∷ carol ∷ [], 2)
unfolding effective_quorum satisfiable surviving push_surviving contains list_beq
quorum_run = refl

effective_quorum_ok_example :
    Distinct (alice ∷ carol ∷ [])
    × ((a : Bytes) → contains (alice ∷ carol ∷ []) a ≡ (contains baked a && contains live a))
    × (2 ≡ max 1 2)
    × (1 ≤ 2)
    × (2 ≤ length (alice ∷ carol ∷ []))
effective_quorum_ok_example = effective_quorum_ok baked live (alice ∷ carol ∷ []) 1 2 2 quorum_run

abbrev request : ApprovalRequest
request = record {
  pcr0 = 5 ∷ [];
  version = 2;
  mode = carry;
  label = [];
  role = oracle;
  expiry = 50;
  nonce = 6 ∷ [];
  chain_id = 1;
}

abbrev signed_by : Bytes → Signature65
signed_by owner = record { rs = owner; v = 28 }

-- Two signatures of one owner count once.
verify_twice :
    verify_approvals toy_crypto request (signed_by alice ∷ signed_by alice ∷ []) live 2 10
    ≡ err insufficient_approvals
unfolding verify_approvals distinct_signers count_signer recover recover_with recovery_id
    address_from_key contains list_beq
verify_twice = refl

verify_both :
    verify_approvals toy_crypto request (signed_by alice ∷ signed_by carol ∷ []) live 2 10 ≡ ok tt
unfolding verify_approvals distinct_signers count_signer recover recover_with recovery_id
    address_from_key contains list_beq
verify_both = refl

verify_approvals_iff_example :
    (verify_approvals toy_crypto request (signed_by alice ∷ signed_by carol ∷ []) live 2 10 ≡ ok tt)
    ↔ ((10 < request.expiry)
        × (1 ≤ 2)
        × (2 ≤ length live)
        × SignedQuorum toy_crypto request (signed_by alice ∷ signed_by carol ∷ []) live 2)
verify_approvals_iff_example =
    verify_approvals_iff toy_crypto request (signed_by alice ∷ signed_by carol ∷ []) live 2 10
