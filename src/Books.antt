-- ===== src/Books.antt =====
-- src/cob_common/mod.rs and src/cob_state/mod.rs: the latest order book of each venue and symbol. An
-- `i64` is its two's-complement word, a number below 2^64, and arithmetic on it wraps. `to_uppercase`
-- of `str` is a parameter. A HashMap is an association list: its order is read by no operation whose
-- result depends on it.
pub mod Symbols
pub mod Selection
pub mod Clearing
pub mod Gate
pub mod Store
pub mod Sweeps
pub mod Anchor
pub mod Ending
mod Tests
use kaskad_nuntius.Prelude.{
  ℕ, ◌+◌, ◌-◌, ◌*◌, ◌/◌, ◌%◌, ◌^◌, Bool, true, false, not, ◌&&◌, List, [], ◌∷◌, ◌++◌, map, Option,
  none, some, ltb, leb, nat_beq, length, get_elem?, filter, ascending, ◌==◌, nat_eq, list_eq,
  if◌then◌else◌,
}
use mathlib.Core.Option
use kaskad_nuntius.Policy.{Bytes}
use kaskad_nuntius.Chain.Text.{ascii}

-- `t > 0` of an i64
unfoldable pub is_positive : ℕ → Bool
is_positive t = ltb 0 t && ltb t (2 ^ 63)

unfoldable pub sub_i64 : ℕ → ℕ → ℕ
sub_i64 a b = (a + (2 ^ 64 - b)) % 2 ^ 64

unfoldable pub abs_i64 : ℕ → ℕ
abs_i64 a = if ltb a (2 ^ 63) then a else 2 ^ 64 - a

unfoldable pub le_i64 : ℕ → ℕ → Bool
le_i64 a b = leb ((a + 2 ^ 63) % 2 ^ 64) ((b + 2 ^ 63) % 2 ^ 64)

pub record PriceLevel (F : Type 0) : Type 0 where
  pub price : F
  pub quantity : F

pub record OrderBookData (F : Type 0) : Type 0 where
  pub exchange_id : Bytes
  pub symbol : Bytes
  pub exchange_timestamp : ℕ
  pub latency : ℕ
  pub bids : List (PriceLevel F)
  pub asks : List (PriceLevel F)

abbrev pub BookMap : Type 0 → Type 0
BookMap F = List (Bytes × OrderBookData F)

-- The shared map and the counter of inserts.
pub record SharedBookState (F : Type 0) : Type 0 where
  pub books : BookMap F
  pub insert_count : ℕ

abbrev pub prune_every_n : ℕ
prune_every_n = 1000

abbrev pub default_max_age_ms : ℕ
default_max_age_ms = 60000

unfoldable pub middle_time : List ℕ → Option ℕ
middle_time [] = none
middle_time (t ∷ ts) = get_elem? (ascending (t ∷ ts)) (length (t ∷ ts) / 2)

unfoldable pub reference_of : List ℕ → Option ℕ
reference_of timestamps = middle_time (filter is_positive timestamps)

-- A difference of two times is at most the age.
unfoldable pub is_within : ℕ → ℕ → ℕ → Bool
is_within max_age reference time = le_i64 (abs_i64 (sub_i64 reference time)) max_age

-- `n` is the counter before the insert.
unfoldable pub is_sweep_due : ℕ → Bool
is_sweep_due n = ltb 0 n && nat_beq (n % prune_every_n) 0

module _ {F : Type 0} where
  unfoldable pub timestamps_of : BookMap F → List ℕ
  timestamps_of books = map (λ e. e.1.exchange_timestamp) books

  unfoldable pub reference_now_ms : BookMap F → Option ℕ
  reference_now_ms books = reference_of (timestamps_of books)

  unfoldable pub keeps : ℕ → ℕ → Bytes × OrderBookData F → Bool
  keeps reference_ms max_age_ms e =
      is_positive e.1.exchange_timestamp && is_within max_age_ms reference_ms e.1.exchange_timestamp

  -- The map without the stale entries, and how many there were.
  unfoldable pub prune_in_place : BookMap F → ℕ → ℕ → BookMap F × ℕ
  prune_in_place books reference_ms max_age_ms =
      let kept = filter (keeps reference_ms max_age_ms) books in (kept, length books - length kept)

  unfoldable pub prune : SharedBookState F → ℕ → SharedBookState F × Option ℕ
  prune st max_age_ms = elim (reference_now_ms st.books) [
    | none ↦ (st, none)
    | some reference_ms ↦
        let swept = prune_in_place st.books reference_ms max_age_ms in
        (record st { books = swept.0 }, some swept.1)
  ]

  unfoldable pub put : Bytes → OrderBookData F → BookMap F → BookMap F
  put key book [] = (key, book) ∷ []
  put key book ((other, old) ∷ rest) =
      if other == key then (key, book) ∷ rest else (other, old) ∷ put key book rest

  -- `format!("{}:{}", book.exchange_id, book.symbol)`
  unfoldable pub book_key : OrderBookData F → Bytes
  book_key book = book.exchange_id ++ 58 ∷ book.symbol

  unfoldable pub sweep_books : BookMap F → BookMap F
  sweep_books books = elim (reference_now_ms books) [
    | none ↦ books
    | some reference_ms ↦ (prune_in_place books reference_ms default_max_age_ms).0
  ]

  unfoldable pub insert_book : SharedBookState F → OrderBookData F → SharedBookState F
  insert_book st book =
      let books = put (book_key book) book st.books in
      record {
        books = if is_sweep_due st.insert_count then sweep_books books else books;
        insert_count = (st.insert_count + 1) % 2 ^ 64;
      }

  -- OrderBookData::is_valid takes the comparisons of `f64`; see Selection.
  unfoldable pub best_bid : OrderBookData F → Option (PriceLevel F)
  best_bid book = get_elem? book.bids 0

  unfoldable pub best_ask : OrderBookData F → Option (PriceLevel F)
  best_ask book = get_elem? book.asks 0
