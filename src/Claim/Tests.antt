-- ===== src/Claim/Tests.antt =====
-- Runs of crates/keyex/src/claim.rs.
use kaskad_nuntius.Prelude.{◌≡◌, refl, List, [], ◌∷◌, ok, err, list_eq, nat_eq}
use kaskad_nuntius.Policy.{Bytes}
use kaskad_nuntius.Claim.{compute_deadline, clock_skew}

deadline_run : compute_deadline 1000 1600 ≡ ok 4600
unfolding compute_deadline
deadline_run = refl

deadline_skew : compute_deadline 1000 1601 ≡ err clock_skew
unfolding compute_deadline
deadline_skew = refl

abbrev recipient : Bytes
recipient = 0 ∷ 1 ∷ []

abbrev exits : List Bytes
exits = (2 ∷ []) ∷ []
