-- ===== src/Collectors/Sink.antt =====
-- The throttle of src/collectors/sink.rs: one snapshot for each book and interval. Times are in
-- milliseconds; what is sent is the result.
use kaskad_nuntius.Prelude.{
  ℕ, ◌-◌, Bool, true, false, not, ◌&&◌, List, [], Option, none, some, ltb, nat_eq, list_eq,
  if◌then◌else◌,
}
use kaskad_nuntius.Policy.{Bytes}
use kaskad_nuntius.Float.{Float64}
use kaskad_nuntius.Books.{OrderBookData, book_key}
use kaskad_nuntius.Books.Selection.{is_valid}
use kaskad_nuntius.Cycle.{put_price, lookup_price}

-- Without an interval there is no throttle.
pub record BookSink : Type 0 where
  pub connected : Bool
  pub throttle : Option (List (Bytes × ℕ))
  pub interval_ms : ℕ

abbrev pub default_emit_interval_ms : ℕ
default_emit_interval_ms = 50

unfoldable pub new_sink : Bool → Option ℕ → BookSink
new_sink connected none = record {
  connected = connected;
  throttle = some [];
  interval_ms = default_emit_interval_ms;
}
new_sink connected (some ms) = record {
  connected = connected;
  throttle = if ltb 0 ms then some [] else none;
  interval_ms = ms;
}

unfoldable pub is_early : ℕ → ℕ → Option ℕ → Bool
is_early interval now none = false
is_early interval now (some last) = ltb (now - last) interval

unfoldable pub passes : ℕ → ℕ → Bytes → Option (List (Bytes × ℕ)) → Bool
passes interval now key none = true
passes interval now key (some sent) = not (is_early interval now (lookup_price key sent))

unfoldable pub noted : ℕ → Bytes → Option (List (Bytes × ℕ)) → Option (List (Bytes × ℕ))
noted now key none = none
noted now key (some sent) = some (put_price key now sent)

-- What is sent, and the sink.
unfoldable pub emit_book :
    {F : Type 0} ⦃f : Float64 F⦄
    → BookSink
    → OrderBookData F
    → ℕ
    → Option (OrderBookData F) × BookSink
emit_book sink book now =
    if is_valid book && passes sink.interval_ms now (book_key book) sink.throttle
    then (
      if sink.connected then some book else none,
      record sink { throttle = noted now (book_key book) sink.throttle },
    )
    else (none, sink)
