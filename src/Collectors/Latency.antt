-- ===== src/Collectors/Latency.antt =====
-- LatencyTracker of src/cob_common/mod.rs. An `i64` is its two's-complement word. The exchange of
-- `min_delta` is that of a tracker with one caller.
use kaskad_nuntius.Prelude.{
  ℕ, ◌+◌, ◌-◌, ◌*◌, ◌/◌, ◌%◌, ◌^◌, not, ◌&&◌, Option, none, some, ltb, nat_beq, if◌then◌else◌,
}
use kaskad_nuntius.Books.{is_positive, sub_i64, le_i64}

pub record LatencyTracker : Type 0 where
  pub min_delta : ℕ
  pub base_rtt_ms : ℕ
  pub sample_count : ℕ
  pub recalibrate_every : ℕ

-- `i64::MAX`
abbrev pub max_i64 : ℕ
max_i64 = 2 ^ 63 - 1

unfoldable pub new_tracker : ℕ → LatencyTracker
new_tracker base_rtt_ms = record {
  min_delta = max_i64;
  base_rtt_ms = base_rtt_ms;
  sample_count = 0;
  recalibrate_every = 3000;
}

unfoldable pub normalize_timestamp_ms : ℕ → Option ℕ
normalize_timestamp_ms ts =
    if not (is_positive ts)
    then none
    else if ltb ts (10 ^ 12)
    then some (ts * 1000)
    else if ltb (10 ^ 15) ts
    then some (ts / 1000)
    else some ts

-- The minimum from which the next sample is counted.
unfoldable pub recalibrated : LatencyTracker → ℕ
recalibrated t =
    if ltb 0 t.sample_count && nat_beq (t.sample_count % t.recalibrate_every) 0
    then max_i64
    else t.min_delta

unfoldable pub relative_latency : ℕ → ℕ → ℕ → ℕ
relative_latency base current least =
    let relative = sub_i64 current least in
    if nat_beq least max_i64
    then base
    else if ltb relative (2 ^ 63)
    then (relative + base) % 2 ^ 64
    else base

unfoldable pub calculate : LatencyTracker → ℕ → ℕ → ℕ × LatencyTracker
calculate t exchange_ts_ms received_at_ms =
    let current = sub_i64 received_at_ms exchange_ts_ms in
    let before = recalibrated t in
    let least = if le_i64 before current then before else current in
    if not (is_positive exchange_ts_ms) then (2 ^ 64 - 1, t) else (
      relative_latency t.base_rtt_ms current least,
      record t { min_delta = least; sample_count = (t.sample_count + 1) % 2 ^ 64 },
    )

unfoldable pub process : LatencyTracker → ℕ → ℕ → Option (ℕ × ℕ) × LatencyTracker
process t raw_ts received_at_ms = elim (normalize_timestamp_ms raw_ts) [
  | none ↦ (none, t)
  | some ts_ms ↦ let found = calculate t ts_ms received_at_ms in (some (ts_ms, found.0), found.1)
]
