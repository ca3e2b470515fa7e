-- ===== src/Boot/Tests.antt =====
-- A decision of crates/keyex/src/boot.rs: a peer's key is installed, which the registry lists.
use kaskad_nuntius.Prelude.{
  ◌≡◌, refl, ◌⊎◌, false, [], ◌∷◌, none, ok, All, Any, list_eq, nat_eq, list_beq,
}
use kaskad_nuntius.Boot.Tick.{oracle, bridge, install_peer_key, TickInput, tick}
use kaskad_nuntius.Boot.Rules.{Listed, Unlisted, tick-Justified}
use kaskad_nuntius.Samples.{registry}

abbrev input : TickInput
input = record {
  role = oracle;
  sweep = (5 ∷ []) ∷ (7 ∷ []) ∷ [];
  fresh_approved = false;
  candidate = none;
}

tick_run : tick registry input 0 ≡ (ok (install_peer_key (7 ∷ [])), 2)
unfolding tick list_beq
tick_run = refl

tick-Justified_example :
    Any (λ b. (7 ∷ []) ≡ b) input.sweep
    × (Listed registry (7 ∷ []) ⊎ ((input.role ≡ bridge) × All (Unlisted registry) input.sweep))
tick-Justified_example = tick-Justified registry input 0 2 (install_peer_key (7 ∷ [])) tick_run
