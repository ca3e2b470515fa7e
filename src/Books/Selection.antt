-- ===== src/Books/Selection.antt =====
-- The books that count for an asset: the per-book gate and the reader of src/cob.rs.
use kaskad_nuntius.Prelude.{
  ℕ, Bool, true, false, not, ◌&&◌, ◌||◌, List, [], ◌∷◌, map, Option, none, some, ltb, length,
  filter, sort_by, ◌==◌, nat_eq, list_eq, if◌then◌else◌,
}
use kaskad_nuntius.Policy.{Bytes}
use kaskad_nuntius.Float.{Float64, nought}
use kaskad_nuntius.Books.{
  PriceLevel, OrderBookData, BookMap, is_positive, is_within, reference_of, best_bid, best_ask,
}
use kaskad_nuntius.Books.Symbols.{
  extract_base_asset, asset_to_collector_symbol, max_spread_bps_for, tick_decimals_for, is_empty,
}

-- `Level` of cob.rs is a price and a quantity, as PriceLevel.
pub record OrderBookSnapshot (F : Type 0) : Type 0 where
  pub source : Bytes
  pub base_asset : Bytes
  pub bids : List (PriceLevel F)
  pub asks : List (PriceLevel F)
  pub tick_size : F
  pub exchange_timestamp_ms : ℕ

abbrev pub min_book_depth : ℕ
min_book_depth = 3

abbrev pub max_book_age_ms : ℕ
max_book_age_ms = 5000

unfoldable pub fresh_book_age_ms : ℕ → ℕ → Bool
fresh_book_age_ms = is_within max_book_age_ms

-- `a < b` of strings, byte by byte
unfoldable pub text_before : Bytes → Bytes → Bool
text_before [] [] = false
text_before [] (b ∷ rest_b) = true
text_before (a ∷ rest_a) [] = false
text_before (a ∷ rest_a) (b ∷ rest_b) =
    let later = text_before rest_a rest_b in ltb a b || (a == b && later)

module _ {F : Type 0} ⦃f : Float64 F⦄ where
  unfoldable pub mean : F → F → F
  mean a b = f.div (f.add a b) (f.of_decimal 2 0)

  unfoldable pub mid_price : OrderBookData F → Option F
  mid_price book = elim (best_bid book) [
    | none ↦ none
    | some bid ↦ elim (best_ask book) [ none ↦ none | some ask ↦ some (mean bid.price ask.price) ]
  ]

  unfoldable pub tops_are_valid : Option (PriceLevel F) → Option (PriceLevel F) → Bool
  tops_are_valid (some bid) (some ask) =
      f.lt nought bid.price && f.lt nought ask.price && f.lt bid.price ask.price
  tops_are_valid none none = false
  tops_are_valid (some bid) none = f.lt nought bid.price
  tops_are_valid none (some ask) = f.lt nought ask.price

  unfoldable pub is_valid : OrderBookData F → Bool
  is_valid book = tops_are_valid (best_bid book) (best_ask book)

  unfoldable pub spread_of : F → F → F
  spread_of bid ask = f.mul (f.div (f.sub ask bid) (mean bid ask)) (f.of_decimal 10000 0)

  unfoldable pub tops_are_usable : Bytes → List (PriceLevel F) → List (PriceLevel F) → Bool
  tops_are_usable base (bid ∷ bids) (ask ∷ asks) =
      (f.lt nought bid.price && f.lt nought ask.price)
      && not (f.le ask.price bid.price)
      && not (f.lt (f.of_nat (max_spread_bps_for base)) (spread_of bid.price ask.price))
  tops_are_usable base _ _ = false

  unfoldable pub is_book_usable : OrderBookSnapshot F → Bool
  is_book_usable book =
      if ltb (length book.bids) min_book_depth || ltb (length book.asks) min_book_depth
      then false
      else tops_are_usable book.base_asset book.bids book.asks

  unfoldable pub tick_size_for : Bytes → Bytes → F
  tick_size_for source base = f.of_decimal 1 (tick_decimals_for source base)

  unfoldable pub has_levels : List (PriceLevel F) → Bool
  has_levels [] = false
  has_levels (level ∷ rest) = true

  module _ (to_uppercase : Bytes → Bytes) where
    unfoldable pub is_candidate : Bytes → OrderBookData F → Bool
    is_candidate symbol_filter book =
        extract_base_asset to_uppercase book.symbol == symbol_filter
        && has_levels book.bids
        && has_levels book.asks
        && is_positive book.exchange_timestamp

    unfoldable pub snapshot_of : OrderBookData F → OrderBookSnapshot F
    snapshot_of book =
        let base = extract_base_asset to_uppercase book.symbol in
        record {
          source = book.exchange_id;
          base_asset = base;
          bids = book.bids;
          asks = book.asks;
          tick_size = tick_size_for book.exchange_id base;
          exchange_timestamp_ms = book.exchange_timestamp;
        }

    unfoldable pub fresh_snapshots : Bytes → ℕ → BookMap F → List (OrderBookSnapshot F)
    fresh_snapshots symbol_filter reference_ms books = filter is_book_usable (
        map (λ e. snapshot_of e.1)
          (filter
            (λ e.
              is_candidate symbol_filter e.1
              && fresh_book_age_ms reference_ms e.1.exchange_timestamp)
            books))

    unfoldable pub candidate_times : Bytes → BookMap F → List ℕ
    candidate_times symbol_filter books =
        map (λ e. e.1.exchange_timestamp) (filter (λ e. is_candidate symbol_filter e.1) books)

    unfoldable pub read_books_filtered : Bytes → BookMap F → List (OrderBookSnapshot F)
    read_books_filtered symbol_filter books =
        elim (reference_of (candidate_times symbol_filter books)) [
          | none ↦ []
          | some reference_ms ↦
              sort_by (λ a b. text_before a.source b.source)
                (fresh_snapshots symbol_filter reference_ms books)
        ]

    unfoldable pub read_books_from_state : Bytes → BookMap F → List (OrderBookSnapshot F)
    read_books_from_state symbol books =
        let symbol_filter = asset_to_collector_symbol symbol in
        if is_empty symbol_filter then [] else read_books_filtered symbol_filter books
