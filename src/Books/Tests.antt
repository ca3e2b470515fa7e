-- ===== src/Books/Tests.antt =====
-- Runs of src/cob_state/mod.rs and src/cob.rs on small books.
use kaskad_nuntius.Prelude.{
  ℕ, ◌*◌, ◌^◌, ◌≡◌, refl, inr, inl, List, [], ◌∷◌, ◌++◌, Option, none, some, false, length, All,
  filter, count, arith, contains, list_beq, ascending, place, sort_by,
}
use kaskad_nuntius.Policy.{Bytes}
use kaskad_nuntius.Chain.Text.{ascii}
use kaskad_nuntius.Samples.Numbers.{
  Toy, nan, infinite, plus, limit, toy_float, toy-FiniteLaws, toy-EndlessLaws,
}
use kaskad_nuntius.Books.{
  PriceLevel, OrderBookData, BookMap, SharedBookState, insert_book, book_key, is_positive, abs_i64,
  is_sweep_due, is_within, keeps, le_i64, middle_time, prune_in_place, put, reference_now_ms,
  reference_of, sub_i64, sweep_books, timestamps_of,
}
use kaskad_nuntius.Books.Symbols.{
  extract_base_asset, tick_decimals_for, base_of_upper, before, before_any, is_one_of, strip_quotes,
  strip_suffix, max_spread_bps_for,
}
use kaskad_nuntius.Books.Selection.{
  OrderBookSnapshot, read_books_filtered, candidate_times, has_levels, is_candidate, mean,
  fresh_book_age_ms, fresh_snapshots, is_book_usable, snapshot_of, spread_of, text_before,
  tick_size_for, tops_are_usable,
}
use kaskad_nuntius.Books.Anchor.{IsFresh, in_range, usable_candidates, read_books_filtered-IsFresh}
use kaskad_nuntius.Books.Store.{IsWellFormed}
use kaskad_nuntius.Books.Sweeps.{insert_all, IsNear, is_timed_in, insert_book-sweeps}
use kaskad_nuntius.Books.Clearing.{
  Levels, FairValue, gcd_u64, key_before, clear, consolidated_order_book, add_level,
  compute_common_grid, consolidate_on, fair_value, gcd_loop, grid_from, is_skipped, join_tick,
  project, project_asks, project_bids, reverse_onto, take_from,
}
use kaskad_nuntius.Books.Ending.{IsUncrossed, clear-ends, clear-endless}

abbrev pub coins : ℕ → Toy
coins n = plus (n * 10 ^ 16)

abbrev pub level : ℕ → ℕ → PriceLevel Toy
level price quantity = record { price = coins price; quantity = coins quantity }

abbrev pub no_change : Bytes → Bytes
no_change text = text

-- A book of BTC with three levels on each side, around 100000.
abbrev pub book : Bytes → ℕ → OrderBookData Toy
book venue time = record {
  exchange_id = venue;
  symbol = ascii "BTC/USDT";
  exchange_timestamp = time;
  latency = 0;
  bids = level 100000 1 ∷ level 99999 1 ∷ level 99998 1 ∷ [];
  asks = level 100001 1 ∷ level 100002 1 ∷ level 100003 1 ∷ [];
}

abbrev pub entry : Bytes → ℕ → Bytes × OrderBookData Toy
entry venue time = (venue ++ 58 ∷ ascii "BTC/USDT", book venue time)

-- Three honest venues and one from the far future.
abbrev pub books : BookMap Toy
books =
    entry (ascii "okx") 1000000
    ∷ entry (ascii "htx") 1001000
    ∷ entry (ascii "xt") 99000000
    ∷ entry (ascii "gate") 1002000
    ∷ []

base_of_separated : extract_base_asset no_change (ascii "KAS_USDT") ≡ ascii "KAS"
unfolding extract_base_asset base_of_upper before_any before
base_of_separated = refl

base_of_joined : extract_base_asset no_change (ascii "ETHUSDT") ≡ ascii "ETH"
unfolding extract_base_asset base_of_upper before_any before strip_quotes strip_suffix list_beq
base_of_joined = refl

tick_of_bitget : tick_decimals_for (ascii "bitget") (ascii "BTC") ≡ 1
unfolding tick_decimals_for list_beq is_one_of contains
tick_of_bitget = refl

gcd_run : gcd_u64 100000000 10000000 ≡ some 10000000
unfolding gcd_u64 gcd_loop
gcd_run = refl

three_read : length (read_books_filtered no_change (ascii "BTC") books) ≡ 3
unfolding read_books_filtered reference_of middle_time candidate_times is_candidate list_beq
    extract_base_asset base_of_upper before_any before has_levels is_positive ascending sort_by
    place fresh_snapshots fresh_book_age_ms is_within is_book_usable mean snapshot_of spread_of
    text_before tick_size_for tops_are_usable is_one_of max_spread_bps_for strip_quotes strip_suffix
    tick_decimals_for abs_i64 le_i64 sub_i64 contains
three_read = refl

times_mostly :
    candidate_times no_change (ascii "BTC") books ≡ 1000000 ∷ 1001000 ∷ 99000000 ∷ 1002000 ∷ []
unfolding candidate_times is_candidate list_beq extract_base_asset base_of_upper before_any before
    has_levels is_positive
times_mostly = refl

abbrev snapshot : List (PriceLevel Toy) → List (PriceLevel Toy) → OrderBookSnapshot Toy
snapshot bids asks = record {
  source = ascii "okx";
  base_asset = ascii "BTC";
  bids = bids;
  asks = asks;
  tick_size = coins 1;
  exchange_timestamp_ms = 1000000;
}

abbrev price_found : Option (Option (FairValue Toy)) → Option Toy
price_found (some (some fair)) = some fair.price
price_found _ = none

-- Two crossing levels are cleared, and the mid price is that of the levels left.
crossing_cleared :
    price_found (
      consolidated_order_book 4
        (snapshot (level 105 1 ∷ level 98 1 ∷ []) (level 100 1 ∷ level 102 1 ∷ []) ∷ []))
    ≡ some (coins 100)
unfolding consolidated_order_book compute_common_grid grid_from join_tick consolidate_on clear
    reverse_onto project_bids project is_skipped add_level key_before project_asks take_from
    fair_value mean
crossing_cleared = refl

abbrev huge : ℕ → PriceLevel Toy
huge price = record { price = plus price; quantity = plus limit }

-- One venue's book, not crossed, whose quantities are finite but add up to infinity on one key of the
-- grid: the loop does not end.
overflow_endless :
    consolidated_order_book 1000 (
      snapshot
        (huge (101 * 10 ^ 14) ∷ huge (100 * 10 ^ 14) ∷ [])
        (huge (102 * 10 ^ 14) ∷ huge (103 * 10 ^ 14) ∷ [])
      ∷ [])
    ≡ none
unfolding consolidated_order_book compute_common_grid grid_from join_tick consolidate_on clear
    reverse_onto project_bids project is_skipped add_level project_asks key_before take_from
overflow_endless = refl

abbrev bids : Levels Toy
bids = (105, coins 2) ∷ (98, coins 1) ∷ []

abbrev asks : Levels Toy
asks = (100, coins 1) ∷ (102, coins 3) ∷ []

clear-ends_example :
    (left : Levels Toy × Levels Toy) × (clear 4 bids asks ≡ some left) × IsUncrossed left
clear-ends_example =
    clear-ends toy-FiniteLaws 4 bids asks ((refl, refl), ((refl, refl), tt))
      ((refl, refl), ((refl, refl), tt)) (omega arith)

not_before : key_before 105 100 ≡ false
unfolding key_before
not_before = refl

clear-endless_example : clear 1000 ((105, infinite) ∷ []) ((100, nan) ∷ asks) ≡ none
clear-endless_example =
    clear-endless toy-EndlessLaws 1000 105 100 infinite nan [] asks not_before (inr refl) (inl refl)

read_books_filtered-IsFresh_example :
    All (IsFresh (ascii "BTC") 1000000 1004000) (read_books_filtered no_change (ascii "BTC") books)
    × (count (in_range 1000000 1004000) (read_books_filtered no_change (ascii "BTC") books)
        ≡ count
            (in_range 1000000 1004000)
            (usable_candidates {F = Toy} no_change (ascii "BTC") books))
read_books_filtered-IsFresh_example =
    read_books_filtered-IsFresh no_change (ascii "BTC") 1000000 1004000 books (omega arith)
      (omega arith) (rw times_mostly (omega arith))

-- A map of which one book is stale, at an insert that sweeps.
abbrev shared : SharedBookState Toy
shared = record { books = books; insert_count = 1000 }

well_formed : IsWellFormed books
unfolding book_key contains list_beq
well_formed = ((refl, (refl, (refl, (refl, tt)))), (refl, (refl, (refl, (refl, tt)))))

sweep_drops : length (insert_book shared (book (ascii "lbank") 1003000)).books ≡ 4
unfolding insert_book is_sweep_due sweep_books reference_now_ms reference_of middle_time
    timestamps_of put list_beq book_key is_positive ascending sort_by place prune_in_place keeps
    is_within le_i64 abs_i64 sub_i64
sweep_drops = refl

-- The counter is one short of a thousand.
abbrev early : SharedBookState Toy
early = record { books = books; insert_count = 999 }

abbrev htx : OrderBookData Toy
htx = book (ascii "htx") 1002500

abbrev mexc : OrderBookData Toy
mexc = book (ascii "mexc") 1003000

times_at_sweep :
    filter is_positive
      (timestamps_of (put (book_key mexc) mexc (insert_all early (htx ∷ [])).books))
    ≡ 1000000 ∷ 1002500 ∷ 99000000 ∷ 1002000 ∷ 1003000 ∷ []
unfolding insert_all insert_book is_sweep_due timestamps_of put list_beq book_key is_positive
times_at_sweep = refl

insert_book-sweeps_example :
    IsWellFormed (insert_book (insert_all early (htx ∷ [])) mexc).books
    × All (IsNear 1000000 1004000) (insert_book (insert_all early (htx ∷ [])) mexc).books
    × (count (is_timed_in 1000000 1004000) (insert_book (insert_all early (htx ∷ [])) mexc).books
        ≡ count
            (is_timed_in 1000000 1004000)
            (put (book_key mexc) mexc (insert_all early (htx ∷ [])).books))
insert_book-sweeps_example =
    insert_book-sweeps early (htx ∷ []) mexc 0 1000000 1004000 well_formed refl (omega arith)
      (omega arith) (omega arith) (rw times_at_sweep (omega arith))
