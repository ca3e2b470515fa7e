-- ===== src/Policy/Handover.antt =====
-- What `decide_handover` and `client_accepts_server` of crates/keyex/src/policy.rs grant.
pub mod Matrix
use kaskad_nuntius.Prelude.{
  ◌<◌, ◌≡◌, ◌≢◌, refl, ◌⊎◌, ◌↔◌, inl, Bool, true, false, List, [], ◌∷◌, none, some, any, find, All,
  Any, ◌==◌, eq_iff, nat_eq, list_eq, arith, if◌then◌else◌,
}
use kaskad_nuntius.Policy.{
  Bytes, EnclaveRole, oracle, bridge, carry, child, HandoffRefusal, role_eq,
  candidate_key_no_handoff, KeyDecision, own_key, child_key, refuse, ImageIdentity,
  VerifiedApproval, refusal, nothing_seen, decide_handover, FetchKind, root_from_root,
  bridge_from_bridge, bridge_from_parent, accept, client_accepts_server,
}
use kaskad_nuntius.Policy.Handover.Matrix.{decisive, judged, most_specific, decide_loop_lem}

-- The decision without flags: a candidate key goes to nobody, the same image gets the key, and otherwise
-- the first decisive approval of the list settles it, where the rows of the documentation's matrix say
-- nothing of the order of approvals; where none is decisive, the most specific refusal is given.
abbrev pub by_first_decisive :
    ImageIdentity → EnclaveRole → Bytes → Bool → List VerifiedApproval → KeyDecision
by_first_decisive own role peer true l = refuse candidate_key_no_handoff
by_first_decisive own role peer false l =
    if peer == own.pcr0
    then own_key
    else judged role (most_specific role peer l) (find (decisive own role peer) l)

-- For every identity, role, peer, candidate flag and list of approvals, the loop with its three flags
-- decides what the decision without flags does.
pub decide_handover-eq-by_first_decisive :
    (own : ImageIdentity) (role : EnclaveRole) (peer : Bytes) (cand : Bool)
    (l : List VerifiedApproval)
    → decide_handover own role peer cand l ≡ by_first_decisive own role peer cand l
unfolding decide_handover
decide_handover-eq-by_first_decisive own role peer true l = refl
decide_handover-eq-by_first_decisive own role peer false l =
    ground (arith, decide_loop_lem own role peer nothing_seen l)

-- An approval that lets this image hand its own key to `peer`.
abbrev pub IsNewerCarry : ImageIdentity → EnclaveRole → Bytes → VerifiedApproval → Type 0
IsNewerCarry own role peer a =
    (a.pcr0 ≡ peer) × (a.role ≡ role) × (a.mode ≡ carry) × (own.version < a.version)

abbrev pub IsChildApproval : EnclaveRole → Bytes → Bytes → VerifiedApproval → Type 0
IsChildApproval role peer label a =
    (a.pcr0 ≡ peer) × (a.role ≡ role) × (a.mode ≡ child) × (a.label ≡ label)

loop-own_key :
    (own : ImageIdentity) (role : EnclaveRole) (peer : Bytes) (r : HandoffRefusal)
    (l : List VerifiedApproval)
    → judged role r (find (decisive own role peer) l) ≡ own_key
    → Any (IsNewerCarry own role peer) l
loop-own_key own role peer r [] h = cc
loop-own_key own role peer r (a ∷ l) h =
    ground (arith, eq_iff a.pcr0 peer, eq_iff a.role role, loop-own_key own role peer r l)

loop-child_key :
    (own : ImageIdentity) (role : EnclaveRole) (peer label : Bytes) (r : HandoffRefusal)
    (l : List VerifiedApproval)
    → judged role r (find (decisive own role peer) l) ≡ child_key label
    → (role ≡ oracle) × Any (IsChildApproval role peer label) l
loop-child_key own role peer label r [] h = cc
loop-child_key own role peer label r (a ∷ l) h =
    ground (arith, eq_iff a.pcr0 peer, eq_iff a.role role, loop-child_key own role peer label r l)

-- If the decision is to hand over this enclave's own key, then the key is no candidate, and the peer
-- runs the same image or some listed approval is a carry for its PCR0 and for this role, at a version
-- above this image's.
pub decide_handover_own_key :
    (own : ImageIdentity) (role : EnclaveRole) (peer : Bytes) (cand : Bool)
    (l : List VerifiedApproval)
    → decide_handover own role peer cand l ≡ own_key
    → (cand ≡ false) × ((peer ≡ own.pcr0) ⊎ Any (IsNewerCarry own role peer) l)
decide_handover_own_key own role peer true l h =
    cc (decide_handover-eq-by_first_decisive own role peer true l)
decide_handover_own_key own role peer false l h = ground (
  arith,
  decide_handover-eq-by_first_decisive own role peer false l,
  eq_iff peer own.pcr0,
  loop-own_key own role peer (most_specific role peer l) l,
)

-- If the decision is to derive a child key, then the key is no candidate, the role is the oracle's, the
-- peer's image is another one, and some listed approval is a child approval for its PCR0, for this
-- role and for that label.
pub decide_handover_child_key :
    (own : ImageIdentity) (role : EnclaveRole) (peer label : Bytes) (cand : Bool)
    (l : List VerifiedApproval)
    → decide_handover own role peer cand l ≡ child_key label
    → (cand ≡ false) × (role ≡ oracle) × (peer ≢ own.pcr0) × Any (IsChildApproval role peer label) l
decide_handover_child_key own role peer label true l h =
    cc (decide_handover-eq-by_first_decisive own role peer true l)
decide_handover_child_key own role peer label false l h = ground (
  arith,
  decide_handover-eq-by_first_decisive own role peer false l,
  eq_iff peer own.pcr0,
  loop-child_key own role peer label (most_specific role peer l) l,
)

loop-refuse :
    (own : ImageIdentity) (peer : Bytes) (r e : HandoffRefusal) (l : List VerifiedApproval)
    → judged oracle r (find (decisive own oracle peer) l) ≡ refuse e
    → All (λ a. decisive own oracle peer a ≡ false) l
loop-refuse own peer r e [] h = tt
loop-refuse own peer r e (a ∷ l) h = ground (arith, loop-refuse own peer r e l)

find-none :
    (own : ImageIdentity) (peer : Bytes) (l : List VerifiedApproval)
    → All (λ a. decisive own oracle peer a ≡ false) l
    → find (decisive own oracle peer) l ≡ none
find-none own peer [] h = refl
find-none own peer (a ∷ l) h = rw (h.0, find) (find-none own peer l h.1)

-- The oracle refuses exactly when its key is a candidate, or the peer's image is another one and no
-- listed approval is decisive (a child, or a carry to a newer version, for that PCR0 and role).
pub oracle_refuses_iff :
    (own : ImageIdentity) (peer : Bytes) (cand : Bool) (l : List VerifiedApproval)
    → ((e : HandoffRefusal) × (decide_handover own oracle peer cand l ≡ refuse e))
      ↔ ((cand ≡ true) ⊎ ((peer ≢ own.pcr0) × All (λ a. decisive own oracle peer a ≡ false) l))
oracle_refuses_iff own peer true l = (
  λ h. inl refl,
  λ h. (candidate_key_no_handoff, decide_handover-eq-by_first_decisive own oracle peer true l),
)
oracle_refuses_iff own peer false l = (
  λ h. ground (
    arith,
    decide_handover-eq-by_first_decisive own oracle peer false l,
    eq_iff peer own.pcr0,
    loop-refuse own peer (most_specific oracle peer l) h.0 l,
  ),
  λ h. (
    most_specific oracle peer l,
    ground (
      arith,
      decide_handover-eq-by_first_decisive own oracle peer false l,
      eq_iff peer own.pcr0,
      find-none own peer l,
    ),
  ),
)

-- The servers that the rule of a kind of fetch names.
abbrev pub AcceptedBy : FetchKind → Bytes → Bytes → List Bytes → Type 0
AcceptedBy root_from_root own server baked = (server ≡ own) ⊎ Any (λ a. a ≡ server) baked
AcceptedBy bridge_from_bridge own server baked = server ≡ own
AcceptedBy bridge_from_parent own server baked = Any (λ a. a ≡ server) baked

any_iff :
    (server : Bytes) (baked : List Bytes)
    → (any (λ a. a == server) baked ≡ true) ↔ Any (λ a. a ≡ server) baked
any_iff server [] = (λ h. cc, λ h. absurd h)
any_iff server (a ∷ baked) = ground (arith, eq_iff a server, any_iff server baked)

-- Each kind of fetch accepts exactly the servers that its rule names: the image itself or a baked
-- ancestor for a root from a root, the image itself for a bridge from a bridge, and a baked
-- measurement alone for a bridge from its parent.
pub client_accepts_server_iff :
    (kind : FetchKind) (own server : Bytes) (baked : List Bytes)
    → (client_accepts_server kind own server baked ≡ accept) ↔ AcceptedBy kind own server baked
unfolding client_accepts_server
client_accepts_server_iff root_from_root own server baked =
    ground (arith, eq_iff server own, any_iff server baked)
client_accepts_server_iff bridge_from_bridge own server baked = ground (arith, eq_iff server own)
client_accepts_server_iff bridge_from_parent own server baked = ground (arith, any_iff server baked)
