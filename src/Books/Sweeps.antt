-- ===== src/Books/Sweeps.antt =====
-- When `insert` of src/cob_state/mod.rs sweeps the map of books, and what a sweep leaves.
use kaskad_nuntius.Prelude.{
  MostlyIn, ap, ◌∙◌, ℕ, suc, ◌+◌, ◌*◌, ◌^◌, ◌≤◌, ◌<◌, ◌≡◌, refl, inl, inr, Bool, true, ◌&&◌, List,
  [], ◌∷◌, ltb, leb, length, All, filter, count, Bool-cases, arith,
}
use kaskad_nuntius.Policy.{Bytes}
use kaskad_nuntius.Books.{
  OrderBookData, BookMap, SharedBookState, put, book_key, insert_book, prune_in_place,
  timestamps_of, reference_now_ms, reference_of, keeps, default_max_age_ms, is_positive,
  sweep_books, is_sweep_due,
}
use kaskad_nuntius.Books.Anchor.{middle_time-in, is_within_iff}
use kaskad_nuntius.Books.Store.{IsWellFormed, insert_book-IsWellFormed}

is_sweep_due-multiple : (q : ℕ) → is_sweep_due (1000 * suc q) ≡ true
unfolding is_sweep_due
is_sweep_due-multiple q = ground arith

module _ {F : Type 0} where
  -- Inserts in a row.
  unfoldable pub insert_all : SharedBookState F → List (OrderBookData F) → SharedBookState F
  insert_all st [] = st
  insert_all st (book ∷ l) = insert_all (insert_book st book) l

  -- A book whose time is positive and at most a minute outside a range.
  abbrev pub IsNear : ℕ → ℕ → Bytes × OrderBookData F → Type 0
  IsNear lo hi e =
      (0 < e.1.exchange_timestamp)
      × (lo ≤ e.1.exchange_timestamp + 60000)
      × (e.1.exchange_timestamp ≤ hi + 60000)

  abbrev pub is_timed_in : ℕ → ℕ → Bytes × OrderBookData F → Bool
  is_timed_in lo hi e =
      ltb 0 e.1.exchange_timestamp && leb lo e.1.exchange_timestamp && leb e.1.exchange_timestamp hi

  insert_all-IsWellFormed :
      (st : SharedBookState F) (l : List (OrderBookData F))
      → IsWellFormed st.books
      → IsWellFormed (insert_all st l).books
  unfolding insert_all
  insert_all-IsWellFormed st [] w = w
  insert_all-IsWellFormed st (book ∷ l) w =
      insert_all-IsWellFormed (insert_book st book) l (insert_book-IsWellFormed st book w)

  insert_book-insert_count :
      (st : SharedBookState F) (book : OrderBookData F)
      → st.insert_count + 1 < 2 ^ 64
      → (insert_book st book).insert_count ≡ st.insert_count + 1
  unfolding insert_book
  insert_book-insert_count st book h = omega arith

  -- The counter counts the inserts.
  insert_all-insert_count :
      (st : SharedBookState F) (l : List (OrderBookData F))
      → st.insert_count + length l < 2 ^ 64
      → (insert_all st l).insert_count ≡ st.insert_count + length l
  unfolding insert_all
  insert_all-insert_count st [] h = omega arith
  insert_all-insert_count st (book ∷ l) h =
      let next : (insert_book st book).insert_count ≡ st.insert_count + 1 =
        insert_book-insert_count st book (omega arith) in
      omega (arith, next, insert_all-insert_count (insert_book st book) l (omega (arith, next)))

  keeps-facts :
      (lo hi m : ℕ) (e : Bytes × OrderBookData F)
      → lo ≤ m
      → m ≤ hi
      → hi < 2 ^ 63
      → keeps m default_max_age_ms e ≡ true
      → IsNear lo hi e
  unfolding keeps is_positive
  keeps-facts lo hi m e l h b k = ground (arith, is_within_iff 60000 m e.1.exchange_timestamp)

  All-keeps :
      (lo hi m : ℕ) (books : BookMap F)
      → lo ≤ m
      → m ≤ hi
      → hi < 2 ^ 63
      → All (IsNear lo hi) (filter (keeps m default_max_age_ms) books)
  All-keeps lo hi m [] l h b = tt
  All-keeps lo hi m (e ∷ books) l h b = elim (Bool-cases (keeps m default_max_age_ms e)) [
    | inl k ↦ rw k (keeps-facts lo hi m e l h b k, All-keeps lo hi m books l h b)
    | inr k ↦ rw k (All-keeps lo hi m books l h b)
  ]

  count-keeps :
      (lo hi m : ℕ) (books : BookMap F)
      → lo ≤ m
      → m ≤ hi
      → hi < 2 ^ 63
      → hi ≤ lo + 60000
      → count (is_timed_in lo hi) (filter (keeps m default_max_age_ms) books)
        ≡ count (is_timed_in lo hi) books
  unfolding keeps is_positive
  count-keeps lo hi m [] l h b w = refl
  count-keeps lo hi m (e ∷ books) l h b w =
      ground
        (arith, count-keeps lo hi m books l h b w, is_within_iff 60000 m e.1.exchange_timestamp)

  -- When the inserts into a well-formed map so far are a positive multiple of a thousand, the next one
  -- sweeps: if the times of more than half of the books that have a positive one, the new one included,
  -- lie in a range of at most a minute, then every book left has a positive time at most a minute
  -- outside the range, no book with a positive time in it is lost, and the map is well-formed. The
  -- counter must not have wrapped.
  pub insert_book-sweeps :
      (st : SharedBookState F) (l : List (OrderBookData F)) (book : OrderBookData F) (q lo hi : ℕ)
      → IsWellFormed st.books
      → st.insert_count + length l ≡ 1000 * suc q
      → st.insert_count + length l < 2 ^ 64
      → hi < 2 ^ 63
      → hi ≤ lo + 60000
      → MostlyIn lo hi
          (filter is_positive (timestamps_of (put (book_key book) book (insert_all st l).books)))
      → IsWellFormed (insert_book (insert_all st l) book).books
        × All (IsNear lo hi) (insert_book (insert_all st l) book).books
        × (count (is_timed_in lo hi) (insert_book (insert_all st l) book).books
            ≡ count (is_timed_in lo hi) (put (book_key book) book (insert_all st l).books))
  unfolding insert_book sweep_books prune_in_place reference_now_ms reference_of
  insert_book-sweeps st l book q lo hi w n b u v most =
      let now = insert_all st l in
      let placed = put (book_key book) book now.books in
      let mid = middle_time-in lo hi (filter is_positive (timestamps_of placed)) most in
      let due : is_sweep_due now.insert_count ≡ true =
        ap is_sweep_due (insert_all-insert_count st l b ∙ n) ∙ is_sweep_due-multiple q in
      let left : (insert_book now book).books ≡ filter (keeps mid.0 default_max_age_ms) placed =
        rw (insert_book, sweep_books, prune_in_place, reference_now_ms, reference_of, due, mid.1)
          refl in
      (
        insert_book-IsWellFormed now book (insert_all-IsWellFormed st l w),
        rw left (All-keeps lo hi mid.0 placed mid.2 mid.3 u),
        rw left (count-keeps lo hi mid.0 placed mid.2 mid.3 u v),
      )
