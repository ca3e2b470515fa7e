-- ===== src/Boot/Driver.antt =====
-- crates/keyex/src/driver.rs: one boot iteration and the loop around it, and `FetchedKey` of
-- crates/keyex/src/peer.rs. The peers, the hardware generator and the back-off are seams of the source
-- and arguments here; each acts on the world.
use Prim.Native.String.{String}
use kaskad_nuntius.Prelude.{
  ℕ, zero, suc, Bool, List, [], ◌∷◌, map, Option, none, some, Result, ok, err, map_err, Act, ◌>>=◌,
  find, ◌==◌, nat_eq, list_eq,
}
use mathlib.Core.Option
use kaskad_nuntius.Policy.{Bytes, FetchKind}
use kaskad_nuntius.Crypto.{Crypto}
use kaskad_nuntius.Sig.{address_from_key}
use kaskad_nuntius.Chain.Reads.{ChainError}
use kaskad_nuntius.Boot.Tick.{
  Role, BootAction, install_peer_key, generate_candidate, install_candidate, wait, ChainView, tick,
}

pub data BootError : Type 0 where
  registry_read : ChainError → BootError
  absent_from_sweep generate_failed no_held_candidate : BootError

-- `FetchedKey`, `Installed` and `StepOutcome`, over the type of keys.
pub record FetchedKey (Key : Type 0) : Type 0 where
  pub address : Bytes
  pub key : Key

pub data Installed (Key : Type 0) : Type 0 where
  peer : Bytes → Key → Installed Key
  candidate : Key → Installed Key

pub data StepOutcome (Key : Type 0) : Type 0 where
  goes_on : StepOutcome Key
  done : Installed Key → StepOutcome Key

-- `BootLoopState`: the candidate with its address, carried across ticks.
pub record BootLoopState (Key : Type 0) : Type 0 where
  pub held : Option (Bytes × Key)

-- What an iteration changes: the loop's state, and the world behind the seams.
pub record Loop (World Key : Type 0) : Type 0 where
  pub state : BootLoopState Key
  pub world : World

pub record BootDeps : Type 0 where
  pub role : Role
  pub peers : List (String × FetchKind)
  pub fresh_approved : Bool

-- `FetchedKey::from_bytes` of peer.rs
unfoldable pub fetched_key_from_bytes : (c : Crypto) → Bytes → Option (FetchedKey c.SigningKey)
fetched_key_from_bytes c raw =
    Option.map (λ key. record { address = address_from_key c (c.verifying_key key); key = key })
      (c.key_from_bytes raw)

-- The seams `PeerSource`, `ChainView`, `Genesis` and `Backoff`; a failed fetch is `err`.
pub record Seams (World Key : Type 0) : Type 0 where
  pub fetch : String → FetchKind → World → Result (Unit {0}) (Option (FetchedKey Key)) × World
  pub view : ChainView World
  pub generate : World → Option Key × World
  pub backoff : World → World

module _ (c : Crypto) {World : Type 0} (s : Seams World c.SigningKey) (deps : BootDeps) where
  open c use {SigningKey}

  abbrev pub push_fetched :
      Result (Unit {0}) (Option (FetchedKey SigningKey))
      → List (FetchedKey SigningKey)
      → List (FetchedKey SigningKey)
  push_fetched (ok (some fk)) rest = fk ∷ rest
  push_fetched (ok none) rest = rest
  push_fetched (err e) rest = rest

  -- The sweep: the peers in order, each fetch fault passed over.
  unfoldable pub sweep : List (String × FetchKind) → World → List (FetchedKey SigningKey) × World
  sweep [] w = ([], w)
  sweep ((endpoint, kind) ∷ rest) w =
      let (answer, w₁) = s.fetch endpoint kind w in
      let (fetched, w₂) = sweep rest w₁ in (push_fetched answer fetched, w₂)

  abbrev pub addresses : List (FetchedKey SigningKey) → List Bytes
  addresses = map (λ f. f.address)

  -- `boot::tick` on the loop's world, its error in the driver's channel.
  unfoldable pub decide_action :
      List (FetchedKey SigningKey) → Act (Loop World SigningKey) BootError BootAction
  decide_action fetched l =
      let (answer, w) =
        tick s.view
          (record {
            role = deps.role;
            sweep = addresses fetched;
            fresh_approved = deps.fresh_approved;
            candidate = Option.map (λ h. h.0) l.state.held;
          })
          l.world in
      (map_err registry_read answer, record l { world = w })

  -- `genesis.generate()?`, whose key is then held.
  unfoldable pub hold_candidate :
      Option SigningKey × World
      → Loop World SigningKey
      → Result BootError (StepOutcome SigningKey) × Loop World SigningKey
  hold_candidate (none, w) l = (err generate_failed, record l { world = w })
  hold_candidate (some key, w) l = (
    ok goes_on,
    record {
      state = record { held = some (address_from_key c (c.verifying_key key), key) };
      world = w;
    },
  )

  -- `loop_state.candidate.take()`
  unfoldable pub take_candidate :
      Option (Bytes × SigningKey)
      → Loop World SigningKey
      → Result BootError (StepOutcome SigningKey) × Loop World SigningKey
  take_candidate none l = (err no_held_candidate, l)
  take_candidate (some (a, key)) l =
      (ok (done (candidate key)), record l { state = record { held = none } })

  unfoldable pub installed_peer :
      Option (FetchedKey SigningKey) → Result BootError (StepOutcome SigningKey)
  installed_peer none = err absent_from_sweep
  installed_peer (some fk) = ok (done (peer fk.address fk.key))

  unfoldable pub act_on :
      List (FetchedKey SigningKey)
      → BootAction
      → Act (Loop World SigningKey) BootError (StepOutcome SigningKey)
  unfolding hold_candidate take_candidate installed_peer
  act_on fetched (install_peer_key addr) l =
      (installed_peer (find (λ f. f.address == addr) fetched), l)
  act_on fetched generate_candidate l = hold_candidate (s.generate l.world) l
  act_on fetched install_candidate l = take_candidate l.state.held l
  act_on fetched wait l = (ok goes_on, l)

  unfoldable pub step : Act (Loop World SigningKey) BootError (StepOutcome SigningKey)
  step l =
      let (fetched, w) = sweep deps.peers l.world in
      ◌>>=◌ {B = StepOutcome SigningKey} (decide_action fetched) (act_on fetched)
        (record l { world = w })

  -- `run_boot`, which loops until a key is installed: at most `fuel` iterations of it, `none` if no key
  -- is installed by then.
  abbrev pub waited : Loop World SigningKey → Loop World SigningKey
  waited l = record l { world = s.backoff l.world }

  abbrev pub resume :
      (Loop World SigningKey → Option (Installed SigningKey) × Loop World SigningKey)
      → Result BootError (StepOutcome SigningKey) × Loop World SigningKey
      → Option (Installed SigningKey) × Loop World SigningKey
  resume again (ok (done i), l) = (some i, l)
  resume again (ok goes_on, l) = again (waited l)
  resume again (err e, l) = again (waited l)

  unfoldable pub run_loop :
      ℕ → Loop World SigningKey → Option (Installed SigningKey) × Loop World SigningKey
  run_loop zero l = (none, l)
  run_loop (suc fuel) l = resume (run_loop fuel) (step l)

  unfoldable pub run_boot : ℕ → World → Option (Installed SigningKey) × Loop World SigningKey
  unfolding run_loop
  run_boot fuel w = run_loop fuel (record { state = record { held = none }; world = w })
