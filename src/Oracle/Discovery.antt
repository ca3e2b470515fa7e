-- ===== src/Oracle/Discovery.antt =====
-- `run_boot_with_discovery` of src/keyex_oracle/mod.rs: the boot loop of Boot/Driver, with the peers read
-- again for each iteration. The shared state, which the control channel changes in between, is a part of
-- the world.
use Prim.Native.String.{String}
use kaskad_nuntius.Prelude.{ℕ, zero, suc, ◌≡◌, refl, subst, List, map, Option, none, some, false}
use kaskad_nuntius.Policy.{Bytes, root_from_root}
use kaskad_nuntius.Crypto.{Crypto}
use kaskad_nuntius.Boot.Tick.{oracle}
use kaskad_nuntius.Boot.Driver.{Installed, Loop, BootDeps, Seams, step, resume}
use kaskad_nuntius.Boot.Registered.{address_of, HeldRight, Installs, step-Outcome, resume-Installs}
use kaskad_nuntius.Boot.Rules.{Listed}
use kaskad_nuntius.Oracle.Peers.{AddressText}
use kaskad_nuntius.Oracle.State.{OracleKeyexState, peer_snapshot}

module _ (c : Crypto) {World : Type 0} (s : Seams World c.SigningKey) (t : AddressText)
    (named : Bytes → String) (state_of : World → OracleKeyexState) (baked_peers : List Bytes) where
  open c use {SigningKey}

  unfoldable pub boot_deps : World → BootDeps
  boot_deps w = record {
    role = oracle;
    peers = map (λ peer. (named peer, root_from_root)) (peer_snapshot t (state_of w) baked_peers);
    fresh_approved = false;
  }

  unfoldable pub discovery_loop :
      ℕ → Loop World SigningKey → Option (Installed SigningKey) × Loop World SigningKey
  unfolding boot_deps
  discovery_loop zero l = (none, l)
  discovery_loop (suc fuel) l =
      resume c s (boot_deps l.world) (discovery_loop fuel) (step c s (boot_deps l.world) l)

  unfoldable pub run_boot_with_discovery :
      ℕ → World → Option (Installed SigningKey) × Loop World SigningKey
  unfolding discovery_loop
  run_boot_with_discovery fuel w =
      discovery_loop fuel (record { state = record { held = none }; world = w })

  -- The lemmas of the driver are for one set of peers; what they say does not depend on it.
  discovery_loop-Installs :
      (fuel : ℕ) (l : Loop World SigningKey) (deps : BootDeps)
      → HeldRight c s deps l.state.held
      → Installs c s deps (discovery_loop fuel l)
  unfolding discovery_loop
  discovery_loop-Installs zero l deps h = tt
  discovery_loop-Installs (suc fuel) l deps h =
      resume-Installs c s (boot_deps l.world) (discovery_loop fuel) (step c s (boot_deps l.world) l)
        (step-Outcome c s (boot_deps l.world) l refl h)
        (λ l' h'. discovery_loop-Installs fuel l' (boot_deps l'.world) h')

  -- Whatever the host hints between the iterations, and whatever peers, generator and registry answer,
  -- a key that the oracle installs within `fuel` iterations has an address that the registry lists in
  -- some world.
  pub run_boot_with_discovery_installs_registered :
      (fuel : ℕ) (w : World) (i : Installed SigningKey) (l : Loop World SigningKey)
      → run_boot_with_discovery fuel w ≡ (some i, l)
      → Listed s.view (address_of c s (boot_deps w) i)
  unfolding run_boot_with_discovery
  run_boot_with_discovery_installs_registered fuel w i l e =
      let begin : Loop World SigningKey = record { state = record { held = none }; world = w } in
      subst (Installs c s (boot_deps w)) e (discovery_loop-Installs fuel begin (boot_deps w) tt)
