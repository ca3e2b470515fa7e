-- ===== src/Bridge/Failover.antt =====
-- crates/pontifex-bridge/src/transport.rs: one read spread over several endpoints, sticky on the last
-- that answered. The sticky index is a part of the world that the transport acts on.
use kaskad_nuntius.Prelude.{
  ℕ, zero, suc, ◌+◌, ◌%◌, not, List, Option, none, some, length, get_elem?, ◌==◌, nat_eq,
  if◌then◌else◌,
}
use kaskad_nuntius.Chain.Wire.{Wire, Transport}

-- The same wire, over worlds that hold a sticky index too.
abbrev pub sticky : Wire → Wire
sticky x = record x { World = x.World × ℕ }

module _ (x : Wire) where
  open x use {World, Value}

  -- A transport that leaves the index alone.
  abbrev pub beside : Transport x → Transport (sticky x)
  beside t method params (w, s) = let (r, w') = t method params w in (r, (w', s))

  -- `self.endpoints[idx].rpc(..)`; an index out of range, which does not occur, fails.
  abbrev pub call_endpoint : Option (Transport x) → Transport x
  call_endpoint none method params w = (none, w)
  call_endpoint (some t) method params w = t method params w

  unfoldable pub failover_loop : List (Transport x) → ℕ → ℕ → ℕ → Transport (sticky x)
  failover_loop endpoints start zero off method params s = (none, s)
  failover_loop endpoints start (suc left) off method params (w, s) =
      let idx = (start + off) % length endpoints in
      let (r, w') = call_endpoint (get_elem? endpoints idx) method params w in
      elim r [
        | some v ↦ (some v, (w', if not (off == 0) then idx else s))
        | none ↦ failover_loop endpoints start left (off + 1) method params (w', s)
      ]

  unfoldable pub failover : List (Transport x) → Transport (sticky x)
  unfolding failover_loop
  failover endpoints method params (w, s) =
      failover_loop endpoints (s % length endpoints) (length endpoints) 0 method params (w, s)
