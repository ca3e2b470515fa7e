-- ===== src/Policy/Handover/Matrix.antt =====
-- The approval loop of `decide_handover` in crates/keyex/src/policy.rs, flag by flag.
use kaskad_nuntius.Prelude.{
  ℕ, ◌≡◌, refl, inl, inr, Bool, true, false, not, ◌&&◌, ◌||◌, List, [], ◌∷◌, Option, none, some,
  ltb, any, find, ◌==◌, Bool-cases, nat_eq, list_eq, arith, if◌then◌else◌,
}
use kaskad_nuntius.Policy.{
  Bytes, EnclaveRole, oracle, bridge, ApprovalMode, carry, fresh, child, role_eq, HandoffRefusal,
  pcr_mismatch_no_approval, fresh_never_hands_off, child_requested_by_bridge, version_not_newer,
  KeyDecision, own_key, child_key, refuse, ImageIdentity, VerifiedApproval, Seen, returns, goes_on,
  consider, consider_mode, refusal, decide_loop,
}

-- The approval names the peer, in this role or in the other one.
abbrev pub names : EnclaveRole → Bytes → VerifiedApproval → Bool
names role peer a = a.pcr0 == peer && a.role == role

abbrev pub names_other : EnclaveRole → Bytes → VerifiedApproval → Bool
names_other role peer a = a.pcr0 == peer && not (a.role == role)

abbrev pub is_carry : ApprovalMode → Bool
is_carry carry = true
is_carry _ = false

abbrev pub is_fresh : ApprovalMode → Bool
is_fresh fresh = true
is_fresh _ = false

-- It settles the decision whatever stands behind it: a child, or a carry to a newer version.
abbrev pub settles : ℕ → ApprovalMode → ℕ → Bool
settles own carry v = ltb own v
settles own child v = true
settles own fresh v = false

abbrev pub decisive : ImageIdentity → EnclaveRole → Bytes → VerifiedApproval → Bool
decisive own role peer a = names role peer a && settles own.version a.mode a.version

abbrev pub granted : EnclaveRole → VerifiedApproval → ApprovalMode → KeyDecision
granted oracle a child = child_key a.label
granted bridge a child = refuse child_requested_by_bridge
granted role a _ = own_key

-- What is said to a peer whom no approval settles.
abbrev pub most_specific : EnclaveRole → Bytes → List VerifiedApproval → HandoffRefusal
most_specific role peer l =
    if any (λ a. names role peer a && is_carry a.mode) l
    then version_not_newer
    else if any (names_other role peer) l
    then HandoffRefusal.role_mismatch
    else if any (λ a. names role peer a && is_fresh a.mode) l
    then fresh_never_hands_off
    else pcr_mismatch_no_approval

abbrev pub judged : EnclaveRole → HandoffRefusal → Option VerifiedApproval → KeyDecision
judged role r none = refuse r
judged role r (some a) = granted role a a.mode

-- The refusal that the loop ends with, from what it had seen and what the rest holds.
abbrev specific_from : Seen → EnclaveRole → Bytes → List VerifiedApproval → HandoffRefusal
specific_from s role peer l =
    if s.carry_not_newer || any (λ a. names role peer a && is_carry a.mode) l
    then version_not_newer
    else if s.role_mismatch || any (names_other role peer) l
    then HandoffRefusal.role_mismatch
    else if s.fresh || any (λ a. names role peer a && is_fresh a.mode) l
    then fresh_never_hands_off
    else pcr_mismatch_no_approval

-- What a round that does not settle the decision notes.
abbrev noted : EnclaveRole → Bytes → VerifiedApproval → Seen → Seen
noted role peer a s = record {
  carry_not_newer = s.carry_not_newer || (names role peer a && is_carry a.mode);
  fresh = s.fresh || (names role peer a && is_fresh a.mode);
  role_mismatch = s.role_mismatch || names_other role peer a;
}

consider_mode_lem :
    (own : ImageIdentity) (role : EnclaveRole) (a : VerifiedApproval) (s : Seen) (m : ApprovalMode)
    → consider_mode own role a s m ≡ (
        if settles own.version m a.version
        then returns (granted role a m)
        else goes_on (record s {
          carry_not_newer = s.carry_not_newer || is_carry m;
          fresh = s.fresh || is_fresh m;
        }))
unfolding consider_mode
consider_mode_lem own oracle a s carry = ground arith
consider_mode_lem own bridge a s carry = ground arith
consider_mode_lem own oracle a s child = refl
consider_mode_lem own bridge a s child = refl
consider_mode_lem own oracle a s fresh = ground arith
consider_mode_lem own bridge a s fresh = ground arith

consider_lem :
    (own : ImageIdentity) (role : EnclaveRole) (peer : Bytes) (a : VerifiedApproval) (s : Seen)
    → consider own role peer a s ≡ (
        if decisive own role peer a
        then returns (granted role a a.mode)
        else goes_on (noted role peer a s))
unfolding consider
consider_lem own role peer a s = elim (Bool-cases (a.pcr0 == peer)) [
  | inl p ↦ elim (Bool-cases (a.role == role)) [
    | inl q ↦ rw (p, q) (ground (arith, consider_mode_lem own role a s a.mode))
    | inr q ↦ rw (p, q) (ground arith)
  ]
  | inr p ↦ rw p (ground arith)
]

or_assoc : (a b c : Bool) → ((a || b) || c) ≡ (a || (b || c))
or_assoc true b c = refl
or_assoc false b c = refl

pub decide_loop_lem :
    (own : ImageIdentity) (role : EnclaveRole) (peer : Bytes) (s : Seen) (l : List VerifiedApproval)
    → decide_loop own role peer s l
      ≡ judged role (specific_from s role peer l) (find (decisive own role peer) l)
unfolding decide_loop refusal
decide_loop_lem own role peer s [] = ground arith
decide_loop_lem own role peer s (a ∷ l) = elim (Bool-cases (decisive own role peer a)) [
  | inl d ↦ rw (consider_lem own role peer a s, d, decide_loop, find) refl
  | inr d ↦
      rw (consider_lem own role peer a s, d, decide_loop, find)
        (rw (decide_loop_lem own role peer (noted role peer a s) l)
          (rw (or_assoc, or_assoc, or_assoc) refl))
]
