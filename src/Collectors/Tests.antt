-- ===== src/Collectors/Tests.antt =====
-- Runs of src/collectors on small books and configurations.
use kaskad_nuntius.Prelude.{
  ℕ, ◌*◌, ◌^◌, ◌≡◌, refl, List, [], ◌∷◌, Option, none, some, Bool, true, false, not, ◌&&◌, ◌||◌,
  contains, nat_eq, list_eq, list_beq,
}
use kaskad_nuntius.Policy.{Bytes}
use kaskad_nuntius.Samples.Numbers.{Toy, nan, plus, toy_float, toy-EqualityLaws, toy-OrderLaws}
use kaskad_nuntius.Books.{OrderBookData, is_positive, le_i64, sub_i64, best_ask, best_bid, book_key}
use kaskad_nuntius.Cycle.{lookup_price, put_price}
use kaskad_nuntius.Collectors.Latency.{
  LatencyTracker, new_tracker, normalize_timestamp_ms, calculate, recalibrated, relative_latency,
}
use kaskad_nuntius.Collectors.LocalBook.{
  LocalBook, new_book, side_get, apply_snapshot, apply_deltas, apply_delta, is_skipped_delta,
  is_snapshot_level, load_side, side_insert, side_remove, update_side,
}
use kaskad_nuntius.Collectors.Levels.{
  HasLevels, held_after, apply_snapshot-HasLevels, apply_deltas-refines,
}
use kaskad_nuntius.Collectors.Sink.{BookSink, new_sink, emit_book, is_early, noted, passes}
use kaskad_nuntius.Collectors.Manager.{
  ExchangeConfig, CollectorManager, enable, disable, stop_all, config_map, is_enabled,
  update_config, run, run_command, stop, stop_each, start, start_each, start_if_enabled, stopped,
}
use kaskad_nuntius.Collectors.Running.{update_config-running}
use kaskad_nuntius.Books.Selection.{is_valid, tops_are_valid}

abbrev units : ℕ → Toy
units n = plus (n * 10 ^ 16)

abbrev at : ℕ → ℕ → Toy × Toy
at price quantity = (units price, units quantity)

abbrev loaded : LocalBook Toy
loaded =
    apply_snapshot (new_book (1 ∷ []) (2 ∷ [])) (at 98 2 ∷ (nan, units 1) ∷ at 99 1 ∷ [])
      (at 101 3 ∷ at 100 0 ∷ at 100 4 ∷ []) (some 7)

snapshot_sorted : loaded.bids ≡ at 98 2 ∷ at 99 1 ∷ []
unfolding apply_snapshot load_side is_snapshot_level side_insert
snapshot_sorted = refl

loaded-HasLevels : HasLevels loaded
loaded-HasLevels = apply_snapshot-HasLevels _ _ _ _

abbrev changes : List (Toy × Toy)
changes = at 99 0 ∷ at 97 5 ∷ at 98 6 ∷ []

changed : (apply_deltas loaded changes [] none).bids ≡ at 97 5 ∷ at 98 6 ∷ []
unfolding apply_deltas update_side is_skipped_delta apply_delta side_insert side_remove
    apply_snapshot load_side is_snapshot_level
changed = refl

apply_deltas-refines_example :
    HasLevels (apply_deltas loaded changes [] none)
    × (side_get (units 98) (apply_deltas loaded changes [] none).bids
        ≡ held_after changes (units 98) (side_get (units 98) loaded.bids))
    × (side_get (units 98) (apply_deltas loaded changes [] none).asks
        ≡ held_after [] (units 98) (side_get (units 98) loaded.asks))
apply_deltas-refines_example =
    apply_deltas-refines toy-OrderLaws toy-EqualityLaws loaded changes [] none (units 98)
      loaded-HasLevels

seconds_scaled : normalize_timestamp_ms 1700000000 ≡ some 1700000000000
unfolding normalize_timestamp_ms is_positive
seconds_scaled = refl

-- The first sample is the least one, and the next is 30 ms slower.
abbrev first : ℕ × LatencyTracker
first = calculate (new_tracker 5) 1700000000000 1700000000100

second_slower : (calculate first.1 1700000001000 1700000001130).0 ≡ 35
unfolding calculate is_positive relative_latency le_i64 recalibrated new_tracker sub_i64
second_slower = refl

abbrev emitted_book : OrderBookData Toy
emitted_book = record {
  exchange_id = 1 ∷ [];
  symbol = 2 ∷ [];
  exchange_timestamp = 1;
  latency = 0;
  bids = record { price = units 1; quantity = units 1 } ∷ [];
  asks = [];
}

abbrev sent : Option (OrderBookData Toy) × BookSink
sent = emit_book (new_sink true none) emitted_book 1000

first_sent : sent.0 ≡ some emitted_book
unfolding emit_book is_valid tops_are_valid best_bid best_ask passes new_sink is_early lookup_price
first_sent = refl

too_early : (emit_book sent.1 emitted_book 1049).0 ≡ none
unfolding emit_book is_valid tops_are_valid best_bid best_ask passes new_sink is_early lookup_price
    noted put_price list_beq book_key
too_early = refl

in_time : (emit_book sent.1 emitted_book 1050).0 ≡ some emitted_book
unfolding emit_book is_valid tops_are_valid best_bid best_ask passes new_sink is_early lookup_price
    noted put_price list_beq book_key
in_time = refl

abbrev manager : CollectorManager
manager = record { running = (1 ∷ []) ∷ (2 ∷ []) ∷ []; known = [] }

abbrev exchange : ℕ → Bool → ExchangeConfig
exchange n enabled = record { name = n ∷ []; enabled = enabled }

abbrev configs : List ExchangeConfig
configs = exchange 1 true ∷ exchange 2 false ∷ exchange 3 true ∷ exchange 4 true ∷ []

-- Exchange 4 has no implementation.
abbrev implemented : Bytes → Bool
implemented name = not (contains ((4 ∷ []) ∷ []) name)

updated : (update_config implemented manager configs).running ≡ (3 ∷ []) ∷ (1 ∷ []) ∷ []
unfolding update_config start_each config_map put_price list_beq start_if_enabled contains stopped
    stop_each is_enabled lookup_price stop start
updated = refl

update_config-running_example :
    contains (update_config implemented manager configs).running (3 ∷ []) ≡ (
      is_enabled (lookup_price (3 ∷ []) (config_map configs []))
      && (contains manager.running (3 ∷ []) || implemented (3 ∷ [])))
update_config-running_example = update_config-running implemented manager configs (3 ∷ [])

all_stopped :
    (run implemented
      ((none, disable (1 ∷ [])) ∷ (none, stop_all) ∷ (none, enable (3 ∷ [])) ∷ [])
      manager).running
    ≡ []
unfolding run run_command stop_each stop list_beq
all_stopped = refl
