-- ===== src/Collectors/LocalBook.antt =====
-- The local order book of src/collectors/book.rs. A BTreeMap is an association list by ascending
-- prices, which are equal when `OrderedFloat` says so.
use mathlib.Core.Option
use kaskad_nuntius.Prelude.{
  ℕ, Bool, true, false, not, ◌&&◌, ◌||◌, List, [], ◌∷◌, map, Option, none, some, take,
  if◌then◌else◌,
}
use kaskad_nuntius.Policy.{Bytes}
use kaskad_nuntius.Float.{Float64, nought}
use kaskad_nuntius.Books.{PriceLevel, OrderBookData}
use kaskad_nuntius.Books.Clearing.{reverse_onto}
use kaskad_nuntius.Collectors.Latency.{LatencyTracker, new_tracker, process}

abbrev pub Side : Type 0 → Type 0
Side F = List (F × F)

pub record LocalBook (F : Type 0) : Type 0 where
  pub exchange_id : Bytes
  pub symbol : Bytes
  pub bids : Side F
  pub asks : Side F
  pub seq : Option ℕ
  pub latency : LatencyTracker

unfoldable pub new_book : {F : Type 0} → Bytes → Bytes → LocalBook F
new_book exchange_id symbol = record {
  exchange_id = exchange_id;
  symbol = symbol;
  bids = [];
  asks = [];
  seq = none;
  latency = new_tracker 0;
}

unfoldable pub has_any : {A : Type 0} → List A → Bool
has_any [] = false
has_any (x ∷ xs) = true

unfoldable pub is_ready : {F : Type 0} → LocalBook F → Bool
is_ready book = elim book.seq [ none ↦ false | some n ↦ has_any book.bids || has_any book.asks ]

unfoldable pub clear_book : {F : Type 0} → LocalBook F → LocalBook F
clear_book book = record book { bids = []; asks = []; seq = none }

unfoldable pub next_seq : Option ℕ → Option ℕ → Option ℕ
next_seq none old = old
next_seq (some n) old = some n

-- `TOP_N`
abbrev pub top_n_published : ℕ
top_n_published = 25

module _ {F : Type 0} ⦃f : Float64 F⦄ where
  unfoldable pub side_get : F → Side F → Option F
  side_get price [] = none
  side_get price ((other, quantity) ∷ rest) =
      if f.feq other price then some quantity else side_get price rest

  unfoldable pub side_insert : F → F → Side F → Side F
  side_insert price quantity [] = (price, quantity) ∷ []
  side_insert price quantity ((other, old) ∷ rest) =
      let later = side_insert price quantity rest in
      if f.feq other price
      then (other, quantity) ∷ rest
      else if f.lt price other
      then (price, quantity) ∷ (other, old) ∷ rest
      else (other, old) ∷ later

  unfoldable pub side_remove : F → Side F → Side F
  side_remove price [] = []
  side_remove price ((other, old) ∷ rest) =
      let later = side_remove price rest in
      if f.feq other price then later else (other, old) ∷ later

  unfoldable pub is_snapshot_level : F → F → Bool
  is_snapshot_level p q = f.lt nought p && f.lt nought q && f.is_finite p && f.is_finite q

  unfoldable pub load_side : List (F × F) → Side F → Side F
  load_side [] side = side
  load_side ((p, q) ∷ levels) side =
      load_side levels (if is_snapshot_level p q then side_insert p q side else side)

  unfoldable pub apply_snapshot : LocalBook F → List (F × F) → List (F × F) → Option ℕ → LocalBook F
  apply_snapshot book bids asks seq = record book {
    bids = load_side bids [];
    asks = load_side asks [];
    seq = seq;
  }

  unfoldable pub is_skipped_delta : F → F → Bool
  is_skipped_delta p q =
      (not (f.is_finite p) || not (f.is_finite q) || f.le p nought) || f.lt q nought

  unfoldable pub apply_delta : F → F → Side F → Side F
  apply_delta p q side = if f.feq q nought then side_remove p side else side_insert p q side

  unfoldable pub update_side : List (F × F) → Side F → Side F
  update_side [] side = side
  update_side ((p, q) ∷ levels) side =
      update_side levels (if is_skipped_delta p q then side else apply_delta p q side)

  unfoldable pub apply_deltas : LocalBook F → List (F × F) → List (F × F) → Option ℕ → LocalBook F
  apply_deltas book bids asks new_seq = record book {
    bids = update_side bids book.bids;
    asks = update_side asks book.asks;
    seq = next_seq new_seq book.seq;
  }

  unfoldable pub crosses : Side F → Side F → Bool
  crosses ((bid, vb) ∷ bids) ((ask, va) ∷ asks) = f.le ask bid
  crosses _ _ = false

  unfoldable pub is_crossed : LocalBook F → Bool
  is_crossed book = crosses (reverse_onto book.bids []) book.asks

  unfoldable pub levels_of : Side F → List (PriceLevel F)
  levels_of side = map (λ l. record { price = l.0; quantity = l.1 }) side

  unfoldable pub top_n : LocalBook F → ℕ → List (PriceLevel F) × List (PriceLevel F)
  top_n book n = (levels_of (take n (reverse_onto book.bids [])), levels_of (take n book.asks))

  unfoldable pub data_of : LocalBook F → ℕ × ℕ → OrderBookData F
  data_of book (ts, latency) =
      let top = top_n book top_n_published in
      record {
        exchange_id = book.exchange_id;
        symbol = book.symbol;
        exchange_timestamp = ts;
        latency = latency;
        bids = top.0;
        asks = top.1;
      }

  -- The snapshot, if the venue gave a time, and the book with its tracker.
  unfoldable pub to_orderbook_data : LocalBook F → ℕ → ℕ → Option (OrderBookData F) × LocalBook F
  to_orderbook_data book exchange_ts_ms received_at_ms =
      let found = process book.latency exchange_ts_ms received_at_ms in
      (Option.map (data_of book) found.0, record book { latency = found.1 })
