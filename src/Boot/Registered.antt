-- ===== src/Boot/Registered.antt =====
-- What the boot loop of crates/keyex/src/driver.rs may install.
use kaskad_nuntius.Prelude.{
  ℕ, zero, suc, ◌≡◌, refl, subst, ◌⊎◌, inl, inr, Bool, true, List, [], ◌∷◌, Option, none, some,
  Result, ok, err, map_err, find, ◌>>=◌, All, ◌==◌, eq_iff, nat_eq, list_eq, Bool-cases,
}
use mathlib.Core.Option
use kaskad_nuntius.Policy.{Bytes}
use kaskad_nuntius.Crypto.{Crypto}
use kaskad_nuntius.Sig.{address_from_key}
use kaskad_nuntius.Chain.Reads.{ChainError}
use kaskad_nuntius.Boot.Tick.{
  oracle, bridge, BootAction, install_peer_key, generate_candidate, install_candidate, wait,
  TickInput, tick,
}
use kaskad_nuntius.Boot.Driver.{
  FetchedKey, Installed, peer, candidate, StepOutcome, goes_on, done, Loop, BootDeps, Seams,
  BootError, registry_read, sweep, addresses, decide_action, hold_candidate, take_candidate,
  installed_peer, act_on, step, waited, resume, run_loop, run_boot,
}
use kaskad_nuntius.Boot.Rules.{Listed, Unlisted, Justified, tick-Justified}

find-some {ℓ} : {A : Type ℓ} (p : A → Bool) (l : List A) (a : A) → find p l ≡ some a → p a ≡ true
find-some p [] a h = cc
find-some p (x ∷ l) a h = elim (Bool-cases (p x)) [
  | inl e ↦ let q : some x ≡ some a = rw (e, find) at h in let r : x ≡ a = cc in rw (← r) e
  | inr e ↦ find-some p l a (rw (e, find) at h)
]

module _ (c : Crypto) {World : Type 0} (s : Seams World c.SigningKey) (deps : BootDeps) where
  open c use {SigningKey}

  -- The address of an installed key: the fetched one's, or the one derived from the candidate.
  abbrev pub address_of : Installed SigningKey → Bytes
  address_of (peer a key) = a
  address_of (candidate key) = address_from_key c (c.verifying_key key)

  -- A held candidate is held under its own address.
  abbrev pub HeldRight : Option (Bytes × SigningKey) → Type 0
  HeldRight none = Unit
  HeldRight (some (a, key)) = a ≡ address_from_key c (c.verifying_key key)

  abbrev pub Outcome : Result BootError (StepOutcome SigningKey) × Loop World SigningKey → Type 0
  Outcome (ok (done i), l) = Listed s.view (address_of i)
  Outcome (ok goes_on, l) = HeldRight l.state.held
  Outcome (err e, l) = HeldRight l.state.held

  abbrev tick_input : List (FetchedKey SigningKey) → Option (Bytes × SigningKey) → TickInput
  tick_input fetched held = record {
    role = deps.role;
    sweep = addresses c s deps fetched;
    fresh_approved = deps.fresh_approved;
    candidate = Option.map (λ h. h.0) held;
  }

  oracle-Listed :
      {a : Bytes} (l : List Bytes)
      → deps.role ≡ oracle
      → Listed s.view a ⊎ ((deps.role ≡ bridge) × All (Unlisted s.view) l)
      → Listed s.view a
  oracle-Listed l o (inl k) = k
  oracle-Listed l o (inr (b, _)) = cc

  peer-Outcome :
      (fetched : List (FetchedKey SigningKey)) (a : Bytes) (l : Loop World SigningKey)
      (r : Option (FetchedKey SigningKey))
      → find (λ f. f.address == a) fetched ≡ r
      → HeldRight l.state.held
      → Listed s.view a
      → Outcome (installed_peer c s deps r, l)
  unfolding installed_peer
  peer-Outcome fetched a l none e h k = h
  peer-Outcome fetched a l (some fk) e h k =
      let q = (eq_iff fk.address a).0 (find-some (λ f. f.address == a) fetched fk e) in rw q k

  held-Outcome :
      (p : Option SigningKey × World) (l : Loop World SigningKey)
      → HeldRight l.state.held
      → Outcome (hold_candidate c s deps p l)
  unfolding hold_candidate
  held-Outcome (none, w) l h = h
  held-Outcome (some key, w) l h = refl

  taken-Outcome :
      (held : Option (Bytes × SigningKey)) (l : Loop World SigningKey) (a : Bytes)
      → HeldRight held
      → Option.map (λ h. h.0) held ≡ some a
      → Listed s.view a
      → Outcome (take_candidate c s deps held l)
  unfolding take_candidate
  taken-Outcome none l a h e k = cc
  taken-Outcome (some (b, key)) l a h e k = let q : a ≡ b = cc in rw (← h, ← q) k

  act-Outcome :
      (fetched : List (FetchedKey SigningKey)) (l : Loop World SigningKey) (a : BootAction)
      → deps.role ≡ oracle
      → HeldRight l.state.held
      → Justified s.view (tick_input fetched l.state.held) a
      → Outcome (act_on c s deps fetched a l)
  unfolding act_on
  act-Outcome fetched l (install_peer_key a) o h j =
      peer-Outcome fetched a l (find (λ f. f.address == a) fetched) refl h
        (oracle-Listed (addresses c s deps fetched) o j.1)
  act-Outcome fetched l generate_candidate o h j = held-Outcome (s.generate l.world) l h
  act-Outcome fetched l install_candidate o h (_, _, (a, e, k)) =
      taken-Outcome l.state.held l a h e k
  act-Outcome fetched l wait o h j = h

  decided-Outcome :
      (fetched : List (FetchedKey SigningKey)) (l : Loop World SigningKey)
      (r : Result ChainError BootAction × World)
      → tick s.view (tick_input fetched l.state.held) l.world ≡ r
      → deps.role ≡ oracle
      → HeldRight l.state.held
      → Outcome (
          ◌>>=◌ {B = StepOutcome SigningKey}
            (λ l. (map_err registry_read r.0, record l { world = r.1 }))
            (act_on c s deps fetched)
            l)
  decided-Outcome fetched l (err x, w) e o h = h
  decided-Outcome fetched l (ok a, w) e o h =
      act-Outcome fetched (record l { world = w }) a o h
        (tick-Justified s.view (tick_input fetched l.state.held) l.world w a e)

  pub step-Outcome :
      (l : Loop World SigningKey)
      → deps.role ≡ oracle
      → HeldRight l.state.held
      → Outcome (step c s deps l)
  unfolding step decide_action
  step-Outcome l o h =
      let (fetched, w) = sweep c s deps deps.peers l.world in
      decided-Outcome fetched (record l { world = w }) _ refl o h

  abbrev pub Installs : Option (Installed SigningKey) × Loop World SigningKey → Type 0
  Installs (none, l) = Unit
  Installs (some i, l) = Listed s.view (address_of i)

  pub resume-Installs :
      (again : Loop World SigningKey → Option (Installed SigningKey) × Loop World SigningKey)
      (r : Result BootError (StepOutcome SigningKey) × Loop World SigningKey)
      → Outcome r
      → ((l : Loop World SigningKey) → HeldRight l.state.held → Installs (again l))
      → Installs (resume c s deps again r)
  resume-Installs again (ok (done i), l) h next = h
  resume-Installs again (ok goes_on, l) h next = next (waited c s deps l) h
  resume-Installs again (err e, l) h next = next (waited c s deps l) h

  run_loop-Installs :
      (fuel : ℕ) (l : Loop World SigningKey)
      → deps.role ≡ oracle
      → HeldRight l.state.held
      → Installs (run_loop c s deps fuel l)
  unfolding run_loop
  run_loop-Installs zero l o h = tt
  run_loop-Installs (suc fuel) l o h =
      resume-Installs (run_loop c s deps fuel) (step c s deps l) (step-Outcome l o h)
        (λ l' h'. run_loop-Installs fuel l' o h')

  -- Whatever an oracle's peers, its generator and the registry answer, if the loop installs a key within
  -- `fuel` iterations, then there is a world in which the registry answers that it lists the address of
  -- that key: the fetched address of a peer's key, the derived one of a candidate.
  pub run_boot_installs_registered :
      (fuel : ℕ) (w : World) (i : Installed SigningKey) (l : Loop World SigningKey)
      → deps.role ≡ oracle
      → run_boot c s deps fuel w ≡ (some i, l)
      → Listed s.view (address_of i)
  unfolding run_boot
  run_boot_installs_registered fuel w i l o e =
      let start : Loop World SigningKey = record { state = record { held = none }; world = w } in
      subst Installs e (run_loop-Installs fuel start o tt)
