-- ===== src/Collectors/Manager.antt =====
-- The set of running collectors in src/collectors/manager.rs. Which exchanges have an implementation,
-- and what the configuration file holds, are parameters; the tasks are their names, and the status
-- messages are left out.
use kaskad_nuntius.Prelude.{
  Bool, true, false, not, ◌&&◌, List, [], ◌∷◌, Option, none, some, any, filter, contains, ◌==◌,
  nat_eq, list_eq, if◌then◌else◌,
}
use kaskad_nuntius.Policy.{Bytes}
use kaskad_nuntius.Cycle.{put_price, lookup_price}

pub record ExchangeConfig : Type 0 where
  pub name : Bytes
  pub enabled : Bool

pub record CollectorManager : Type 0 where
  pub running : List Bytes
  pub known : List (Bytes × ExchangeConfig)

pub data CollectorCommand : Type 0 where
  enable disable : Bytes → CollectorCommand
  status reload stop_all : CollectorCommand

unfoldable pub is_valid_config : ExchangeConfig → Bool
is_valid_config c = elim c.name [ [] ↦ false | ◌∷◌ b rest ↦ true ]

-- `collect` into a map: of two configurations with one name the later one counts.
unfoldable pub config_map :
    List ExchangeConfig → List (Bytes × ExchangeConfig) → List (Bytes × ExchangeConfig)
config_map [] known = known
config_map (c ∷ configs) known = config_map configs (put_price c.name c known)

unfoldable pub is_enabled : Option ExchangeConfig → Bool
is_enabled none = false
is_enabled (some c) = c.enabled

unfoldable pub stop : Bytes → List Bytes → List Bytes
stop name running = filter (λ n. not (n == name)) running

unfoldable pub stop_each : List Bytes → List Bytes → List Bytes
stop_each [] running = running
stop_each (n ∷ names) running = stop_each names (stop n running)

module _ (has_collector : Bytes → Bool) where
  unfoldable pub start : Bytes → List Bytes → List Bytes
  start name running = if has_collector name then name ∷ running else running

  unfoldable pub start_if_enabled : Bytes → ExchangeConfig → List Bytes → List Bytes
  start_if_enabled name c running =
      if c.enabled && not (contains running name) then start c.name running else running

  unfoldable pub start_each : List (Bytes × ExchangeConfig) → List Bytes → List Bytes
  start_each [] running = running
  start_each ((name, c) ∷ known) running = start_each known (start_if_enabled name c running)

  unfoldable pub stopped : List (Bytes × ExchangeConfig) → List Bytes → List Bytes
  stopped known running =
      stop_each (filter (λ n. not (is_enabled (lookup_price n known))) running) running

  unfoldable pub update_config : CollectorManager → List ExchangeConfig → CollectorManager
  update_config m configs =
      let known = config_map configs [] in
      record { running = start_each known (stopped known m.running); known = known }

  -- The file as a list of configurations, or none if it cannot be read or parsed. An enabled exchange
  -- without an implementation refuses the whole file.
  unfoldable pub load_config :
      CollectorManager → Option (List ExchangeConfig) → Option CollectorManager
  load_config m none = none
  load_config m (some configs) =
      let valid = filter is_valid_config configs in
      if any (λ c. c.enabled && not (has_collector c.name)) valid
      then none
      else some (update_config m valid)

  unfoldable pub enable_known : Bytes → CollectorManager → Option ExchangeConfig → CollectorManager
  enable_known name m none = m
  enable_known name m (some c) = record m { running = start c.name m.running }

  unfoldable pub kept_or : CollectorManager → Option CollectorManager → CollectorManager
  kept_or m none = m
  kept_or m (some next) = next

  -- What a command does to the manager, and whether the loop goes on.
  unfoldable pub run_command :
      Option (List ExchangeConfig) → CollectorManager → CollectorCommand → CollectorManager × Bool
  run_command file m status = (m, true)
  run_command file m (enable name) =
      (if contains m.running name then m else enable_known name m (lookup_price name m.known), true)
  run_command file m (disable name) = (record m { running = stop name m.running }, true)
  run_command file m reload = (kept_or m (load_config m file), true)
  run_command file m stop_all = (record m { running = stop_each m.running m.running }, false)

  -- The loop over the commands, each with what the file holds then.
  unfoldable pub run :
      List (Option (List ExchangeConfig) × CollectorCommand) → CollectorManager → CollectorManager
  run [] m = m
  run ((file, command) ∷ rest) m =
      let next = run_command file m command in
      let later = run rest next.0 in if next.1 then later else next.0
