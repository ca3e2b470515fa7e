-- ===== src/Claim/Rules.antt =====
-- What `check_claimable` and `compute_deadline` of crates/keyex/src/claim.rs let through.
use kaskad_nuntius.Prelude.{
  ℕ, ◌+◌, ◌^◌, ◌≤◌, ◌<◌, min, ◌≡◌, ◌↔◌, ◌⊎◌, false, List, ok, err, contains, nat_eq, list_eq, arith,
}
use kaskad_nuntius.Policy.{Bytes}
use kaskad_nuntius.Claim.{check_claimable, is_zero_address, compute_deadline, clock_skew}

-- A recipient and a total pass exactly when the recipient is neither zero nor forbidden, and the total
-- is not zero.
pub check_claimable_iff :
    (recipient : Bytes) (burned : ℕ) (forbidden : List Bytes)
    → (check_claimable recipient burned forbidden ≡ ok tt) ↔ (
        (is_zero_address recipient ≡ false) × (contains forbidden recipient ≡ false) × (0 < burned))
unfolding check_claimable
check_claimable_iff recipient burned forbidden = ground arith

-- For two clocks of which the earlier one leaves room for an hour below 2^64, the deadline is an hour past
-- the earlier one exactly when they are at most 600 seconds apart, and a clock skew is refused exactly
-- when they are further apart.
pub compute_deadline_window :
    (now ts : ℕ)
    → min now ts + 3600 < 2 ^ 64
    → ((compute_deadline now ts ≡ ok (min now ts + 3600)) ↔ ((now ≤ ts + 600) × (ts ≤ now + 600)))
      × ((compute_deadline now ts ≡ err clock_skew) ↔ ((ts + 600 < now) ⊎ (now + 600 < ts)))
unfolding compute_deadline
compute_deadline_window now ts h = (ground arith, ground arith)
