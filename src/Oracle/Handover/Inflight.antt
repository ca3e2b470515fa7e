-- ===== src/Oracle/Handover/Inflight.antt =====
-- The bound on handovers in flight in src/keyex_oracle/handover.rs, under every order of arrivals and
-- ends.
use kaskad_nuntius.Prelude.{◌+◌, ◌≤◌, ◌≡◌, refl, false, leb, arith, if◌then◌else◌}
use kaskad_nuntius.Oracle.Handover.{
  Handovers, max_handover_inflight, arrive, drop_connection, end_connection, HandoverStep, arrives,
  drops, ends, Reachable, start, after,
}

-- At most eight hold a guard, the counter counts them and a connection that is being dropped, and such
-- a one is there only if eight were counted before it.
pub record IsCounted (h : Handovers) : Type 0 where
  pub bounded : h.guards ≤ max_handover_inflight
  pub exact : h.inflight ≡ h.guards + (if h.dropping then 1 else 0)

arrive-IsCounted : (h : Handovers) → h.dropping ≡ false → IsCounted h → IsCounted (arrive h)
unfolding arrive
arrive-IsCounted h d c = record {
  bounded = ground (arith, d, c.bounded, c.exact);
  exact = ground (arith, d, c.bounded, c.exact);
}

step-IsCounted : {h h' : Handovers} → IsCounted h → HandoverStep h h' → IsCounted h'
unfolding drop_connection end_connection
step-IsCounted {h = h} c (arrives d) = arrive-IsCounted h d c
step-IsCounted {h = h} c (drops d) = record {
  bounded = c.bounded;
  exact = ground (arith, d, c.exact);
}
step-IsCounted {h = h} c (ends l) = record {
  bounded = ground (arith, l, c.bounded);
  exact = ground (arith, l, c.exact);
}

pub reachable-IsCounted : {h : Handovers} → Reachable h → IsCounted h
reachable-IsCounted start = record { bounded = omega arith; exact = refl }
reachable-IsCounted (after r s) = step-IsCounted (reachable-IsCounted r) s

-- In every order of arrivals and ends, the counter of connections in flight is the number of those that
-- hold a guard, one more while a connection is being dropped; at most eight hold one; and the next
-- connection gets a guard exactly when fewer than eight do, so that no slot is lost.
pub arrive_admits :
    (h : Handovers)
    → Reachable h
    → IsCounted h
      × (h.dropping ≡ false
          → ((arrive h).guards
              ≡ (if leb max_handover_inflight h.guards then h.guards else h.guards + 1)))
unfolding arrive
arrive_admits h r = let c = reachable-IsCounted r in (c, λ d. ground (arith, d, c.exact))
