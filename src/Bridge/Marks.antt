-- ===== src/Bridge/Marks.antt =====
-- The per-recipient marks of crates/pontifex-bridge/src/state.rs.
use kaskad_nuntius.Prelude.{
  ℕ, max, ◌≡◌, refl, List, [], ◌∷◌, some, ◌==◌, eq_iff, nat_eq, list_eq, arith, if◌then◌else◌,
}
use kaskad_nuntius.Policy.{Bytes}
use kaskad_nuntius.Bridge.State.{BridgeState, lookup, insert, high_water, record_signed}

lookup-insert :
    (wanted changed : Bytes) (new : ℕ) (totals : List (Bytes × ℕ))
    → lookup wanted (insert changed new totals)
      ≡ (if changed == wanted then some new else lookup wanted totals)
unfolding lookup insert
lookup-insert wanted changed new [] = refl
lookup-insert wanted changed new ((other, total) ∷ rest) = ground (
  arith,
  eq_iff changed wanted,
  eq_iff other changed,
  eq_iff other wanted,
  lookup-insert wanted changed new rest,
)

-- Recording a total raises the recipient's mark to that total if it is larger and leaves it otherwise,
-- and leaves the marks of all other recipients.
pub high_water-record_signed :
    {Key : Type 0} (st : BridgeState Key) (r j : Bytes) (v : ℕ)
    → high_water (record_signed st r v) j
      ≡ (if r == j then max (high_water st r) v else high_water st j)
unfolding high_water record_signed
high_water-record_signed st r j v = ground (
  arith,
  eq_iff r j,
  lookup-insert j r v st.last_signed,
  lookup-insert j r (high_water st r) st.last_signed,
)
