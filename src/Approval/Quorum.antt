-- ===== src/Approval/Quorum.antt =====
-- `effective_quorum` of crates/keyex/src/approval.rs: a live read narrows the baked quorum only.
use kaskad_nuntius.Prelude.{
  ℕ, ◌≤◌, max, ◌≡◌, ◌&&◌, ◌||◌, List, [], ◌∷◌, ◌++◌, ok, length, contains, contains-snoc, Distinct,
  Distinct-snoc, eq_iff, nat_eq, list_eq, arith,
}
use kaskad_nuntius.Policy.{Bytes}
use kaskad_nuntius.Approval.{push_surviving, surviving, effective_quorum, satisfiable}

push_surviving-Distinct :
    (live acc : List Bytes) (o : Bytes) → Distinct acc → Distinct (push_surviving live acc o)
unfolding push_surviving
push_surviving-Distinct live acc o d = ground (arith, Distinct-snoc acc o)

surviving-Distinct :
    (live acc baked : List Bytes) → Distinct acc → Distinct (surviving live acc baked)
unfolding surviving
surviving-Distinct live acc [] d = d
surviving-Distinct live acc (o ∷ baked) d =
    surviving-Distinct live (push_surviving live acc o) baked (push_surviving-Distinct live acc o d)

-- Who survives: the baked owners that the live read still lists.
contains-surviving :
    (live acc baked : List Bytes) (a : Bytes)
    → contains (surviving live acc baked) a
      ≡ (contains acc a || (contains baked a && contains live a))
unfolding surviving contains
contains-surviving live acc [] a = ground arith
contains-surviving live acc (o ∷ baked) a = ground (
  arith,
  contains-surviving live (acc ++ o ∷ []) baked a,
  contains-surviving live acc baked a,
  contains-snoc acc o a,
  eq_iff a o,
)

satisfiable-ok :
    (survivors owners : List Bytes) (t threshold : ℕ)
    → satisfiable survivors t ≡ ok (owners, threshold)
    → (owners ≡ survivors) × (threshold ≡ t) × (t ≤ length survivors)
unfolding satisfiable
satisfiable-ok [] owners t threshold h = cc
satisfiable-ok (x ∷ xs) owners t threshold h = ground arith

-- If the quorum is computed, then the owners are, each once, exactly the baked owners whom the live
-- read lists too; the threshold is the larger of the two, is not zero, and does not exceed the number
-- of those owners.
pub effective_quorum_ok :
    (baked live owners : List Bytes) (bt lt threshold : ℕ)
    → effective_quorum baked bt live lt ≡ ok (owners, threshold)
    → Distinct owners
      × ((a : Bytes) → contains owners a ≡ (contains baked a && contains live a))
      × (threshold ≡ max bt lt)
      × (1 ≤ threshold)
      × (threshold ≤ length owners)
unfolding effective_quorum contains
effective_quorum_ok baked live owners bt lt threshold h =
    let found =
      satisfiable-ok (surviving live [] baked) owners (max bt lt) threshold (ground arith) in
    (
      rw found.0 (surviving-Distinct live [] baked tt),
      λ a. rw found.0 (contains-surviving live [] baked a),
      found.1,
      ground arith,
      ground arith,
    )
