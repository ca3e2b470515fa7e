-- ===== src/Books/Anchor.antt =====
-- The reference time of src/cob.rs and src/cob_state/mod.rs, which is the venues' and not the host's.
use kaskad_nuntius.Prelude.{
  MostlyIn, nth, middle-lo, middle-hi, All-sort_by, count, count-sort_by, ◌∙◌, ℕ, ◌+◌, ◌/◌, ◌^◌,
  ◌≤◌, ◌<◌, ◌≡◌, refl, ◌↔◌, inl, inr, Bool, true, ◌&&◌, List, [], ◌∷◌, map, some, leb, length, All,
  filter, eq_iff, nat_eq, list_eq, Bool-cases, arith,
}
use kaskad_nuntius.Policy.{Bytes}
use kaskad_nuntius.Float.{Float64}
use kaskad_nuntius.Books.{
  OrderBookData, BookMap, is_positive, sub_i64, abs_i64, le_i64, is_within, middle_time,
  reference_of,
}
use kaskad_nuntius.Books.Symbols.{extract_base_asset}
use kaskad_nuntius.Books.Selection.{
  OrderBookSnapshot, is_book_usable, is_candidate, snapshot_of, fresh_snapshots, fresh_book_age_ms,
  candidate_times, read_books_filtered,
}

pub middle_time-in :
    (lo hi : ℕ) (times : List ℕ)
    → MostlyIn lo hi times
    → (m : ℕ) × (middle_time times ≡ some m) × (lo ≤ m) × (m ≤ hi)
unfolding middle_time
middle_time-in lo hi [] m = absurd (omega arith)
middle_time-in lo hi (t ∷ ts) m =
    let n : ℕ = length (t ∷ ts) in
    let x = nth (t ∷ ts) (n / 2) (omega arith) in
    (
      x.0,
      x.1,
      middle-lo lo hi (n / 2) (t ∷ ts) m (omega arith) x.1,
      middle-hi lo hi (n / 2) (t ∷ ts) m (omega arith) x.1,
    )

-- Of two positive times the wrapping difference is the distance.
pub is_within_iff :
    (age a b : ℕ)
    → age < 2 ^ 63
    → a < 2 ^ 63
    → b < 2 ^ 63
    → (is_within age a b ≡ true) ↔ ((a ≤ b + age) × (b ≤ a + age))
unfolding is_within le_i64 abs_i64 sub_i64
is_within_iff age a b l la lb = ground arith

-- What a book is that is read for an asset while the venues' times mostly lie in a range.
abbrev pub IsFresh : {F : Type 0} ⦃f : Float64 F⦄ → Bytes → ℕ → ℕ → OrderBookSnapshot F → Type 0
IsFresh symbol_filter lo hi s =
    (lo ≤ s.exchange_timestamp_ms + 5000)
    × (s.exchange_timestamp_ms ≤ hi + 5000)
    × (s.base_asset ≡ symbol_filter)
    × (is_book_usable s ≡ true)

abbrev pub in_range : {F : Type 0} → ℕ → ℕ → OrderBookSnapshot F → Bool
in_range lo hi s = leb lo s.exchange_timestamp_ms && leb s.exchange_timestamp_ms hi

module _ {F : Type 0} ⦃f : Float64 F⦄ (to_uppercase : Bytes → Bytes) (symbol_filter : Bytes) where
  positive-candidate_times :
      (books : BookMap F)
      → filter is_positive (candidate_times to_uppercase symbol_filter books)
        ≡ candidate_times to_uppercase symbol_filter books
  unfolding candidate_times is_candidate
  positive-candidate_times [] = refl
  positive-candidate_times (e ∷ books) = ground (arith, positive-candidate_times books)

  -- every usable candidate, whatever its time
  unfoldable pub usable_candidates : BookMap F → List (OrderBookSnapshot F)
  usable_candidates books = filter is_book_usable (
      map (λ e. snapshot_of to_uppercase e.1)
        (filter (λ e. is_candidate to_uppercase symbol_filter e.1) books))

  candidate-facts :
      (lo hi m : ℕ) (book : OrderBookData F)
      → lo ≤ m
      → m ≤ hi
      → hi < 2 ^ 63
      → (is_candidate to_uppercase symbol_filter book
          && fresh_book_age_ms m book.exchange_timestamp)
        ≡ true
      → (lo ≤ book.exchange_timestamp + 5000)
        × (book.exchange_timestamp ≤ hi + 5000)
        × ((snapshot_of to_uppercase book).base_asset ≡ symbol_filter)
  unfolding is_candidate snapshot_of is_positive fresh_book_age_ms
  candidate-facts lo hi m book l h b e = ground (
    arith,
    eq_iff (extract_base_asset to_uppercase book.symbol) symbol_filter,
    is_within_iff 5000 m book.exchange_timestamp,
  )

  All-IsFresh :
      (lo hi m : ℕ) (books : BookMap F)
      → lo ≤ m
      → m ≤ hi
      → hi < 2 ^ 63
      → All (IsFresh symbol_filter lo hi) (fresh_snapshots to_uppercase symbol_filter m books)
  unfolding fresh_snapshots snapshot_of
  All-IsFresh lo hi m [] l h b = tt
  All-IsFresh lo hi m (e ∷ books) l h b =
      elim (Bool-cases (
        is_candidate to_uppercase symbol_filter e.1
        && fresh_book_age_ms m e.1.exchange_timestamp)) [
          | inr q ↦ rw q (All-IsFresh lo hi m books l h b)
          | inl q ↦ elim (Bool-cases (is_book_usable (snapshot_of to_uppercase e.1))) [
            | inr u ↦ rw (q, u) (All-IsFresh lo hi m books l h b)
            | inl u ↦
                let facts = candidate-facts lo hi m e.1 l h b q in
                rw (q, u) ((facts.0, facts.1, facts.2, u), All-IsFresh lo hi m books l h b)
          ]
        ]

  count-fresh :
      (lo hi m : ℕ) (books : BookMap F)
      → lo ≤ m
      → m ≤ hi
      → hi < 2 ^ 63
      → hi ≤ lo + 5000
      → count (in_range lo hi) (fresh_snapshots to_uppercase symbol_filter m books)
        ≡ count (in_range lo hi) (usable_candidates books)
  unfolding fresh_snapshots usable_candidates snapshot_of is_candidate fresh_book_age_ms is_positive
  count-fresh lo hi m [] l h b w = refl
  count-fresh lo hi m (e ∷ books) l h b w =
      ground (arith, count-fresh lo hi m books l h b w, is_within_iff 5000 m e.1.exchange_timestamp)

  -- When the times of more than half of an asset's candidate books lie in a range of at most 5 seconds,
  -- every book that is read is of the asset, passes the gate of a single book and has a time at most
  -- 5 seconds outside the range, and no book that passes the gate with its time in the range is lost.
  pub read_books_filtered-IsFresh :
      (lo hi : ℕ) (books : BookMap F)
      → hi < 2 ^ 63
      → hi ≤ lo + 5000
      → MostlyIn lo hi (candidate_times to_uppercase symbol_filter books)
      → All (IsFresh symbol_filter lo hi) (read_books_filtered to_uppercase symbol_filter books)
        × (count (in_range lo hi) (read_books_filtered to_uppercase symbol_filter books)
            ≡ count (in_range lo hi) (usable_candidates books))
  unfolding read_books_filtered reference_of
  read_books_filtered-IsFresh lo hi books b w m =
      let mid = middle_time-in lo hi (candidate_times to_uppercase symbol_filter books) m in
      rw (read_books_filtered, reference_of, positive-candidate_times books, mid.1)
        (
          All-sort_by (IsFresh symbol_filter lo hi) _ _
              (All-IsFresh lo hi mid.0 books mid.2 mid.3 b),
          count-sort_by _ _ _ ∙ count-fresh lo hi mid.0 books mid.2 mid.3 b w,
        )
