-- ===== src/Books/Gate.antt =====
-- The gates before the consolidation in src/cob.rs: one mid price for each venue, the outlier rejection
-- of the aggregator, the quorum, and the USDT peg.
use mathlib.Core.Option
use kaskad_nuntius.Prelude.{
  ℕ, ◌/◌, List, [], ◌∷◌, map, Option, none, some, Result, ok, err, ltb, length, filter, contains,
  nat_eq, list_eq, if◌then◌else◌,
}
use kaskad_nuntius.Policy.{Bytes}
use kaskad_nuntius.Chain.Text.{ascii}
use kaskad_nuntius.Float.{Float64, nought}
use kaskad_nuntius.Aggregator.{PricePoint, sanitize}
use kaskad_nuntius.Aggregator.Outliers.{reject_outliers}
use kaskad_nuntius.Books.{PriceLevel, BookMap, is_positive}
use kaskad_nuntius.Books.Selection.{OrderBookSnapshot, mean, read_books_filtered}
use kaskad_nuntius.Books.Clearing.{FairValue, consolidated_order_book}

-- `(ms / 1000).max(0) as u64`
unfoldable pub seconds_of : ℕ → ℕ
seconds_of ms = if is_positive ms then ms / 1000 else 0

abbrev pub max_usdt_depeg_bps : ℕ
max_usdt_depeg_bps = 50

module _ {F : Type 0} ⦃f : Float64 F⦄ where
  unfoldable pub mid_point :
      Bytes
      → ℕ
      → List (PriceLevel F)
      → List (PriceLevel F)
      → List (PricePoint F)
      → List (PricePoint F)
  mid_point source ms (bid ∷ bids) (ask ∷ asks) rest =
      record {
        price = mean bid.price ask.price;
        volume = nought;
        source = source;
        server_time = seconds_of ms;
      }
      ∷ rest
  mid_point source ms _ _ rest = rest

  unfoldable pub mids_of : List (OrderBookSnapshot F) → List (PricePoint F)
  mids_of [] = []
  mids_of (book ∷ books) =
      mid_point book.source book.exchange_timestamp_ms book.bids book.asks (mids_of books)

  unfoldable pub surviving_mids : List (OrderBookSnapshot F) → List (PricePoint F)
  surviving_mids books = reject_outliers (sanitize (mids_of books)) (f.of_decimal 3 0)

  unfoldable pub kept_books :
      List (PricePoint F) → List (OrderBookSnapshot F) → List (OrderBookSnapshot F)
  kept_books cleaned books = filter (λ b. contains (map (λ p. p.source) cleaned) b.source) books

  unfoldable pub gated_consolidated_order_book :
      ℕ → List (OrderBookSnapshot F) → ℕ → Option (Option (FairValue F))
  gated_consolidated_order_book fuel books min_sources =
      let cleaned = surviving_mids books in
      if ltb (length books) min_sources
      then some none
      else if ltb (length cleaned) min_sources
      then some none
      else consolidated_order_book fuel (kept_books cleaned books)

  unfoldable pub price_of : Option (FairValue F) → Option F
  price_of none = none
  price_of (some fair) = some fair.price

  unfoldable pub probe_usdc_mid : ℕ → (Bytes → Bytes) → BookMap F → ℕ → Option (Option F)
  probe_usdc_mid fuel to_uppercase books min_sources =
      let usdc = read_books_filtered to_uppercase (ascii "USDC") books in
      if ltb (length usdc) min_sources
      then some none
      else Option.map price_of (consolidated_order_book fuel usdc)

  unfoldable pub peg_of : F → Result F F
  peg_of mid =
      let drift_bps = f.mul (f.abs (f.sub mid (f.of_decimal 1 0))) (f.of_decimal 10000 0) in
      if f.le drift_bps (f.of_nat max_usdt_depeg_bps) then ok mid else err mid

  unfoldable pub usdt_peg_ok : ℕ → (Bytes → Bytes) → BookMap F → ℕ → Option (Option (Result F F))
  usdt_peg_ok fuel to_uppercase books min_sources =
      Option.map (Option.map peg_of) (probe_usdc_mid fuel to_uppercase books min_sources)
