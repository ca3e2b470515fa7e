-- ===== src/Books/Store.antt =====
-- The map of the latest books in src/cob_state/mod.rs.
use kaskad_nuntius.Prelude.{
  ◌≡◌, refl, inl, inr, Bool, false, ◌||◌, List, [], ◌∷◌, All, filter, Distinct, contains, map, ◌==◌,
  eq_iff, nat_eq, list_eq, subst, ◌∙◌, Option-cases, Bool-cases, arith,
}
use kaskad_nuntius.Policy.{Bytes}
use kaskad_nuntius.Books.{
  OrderBookData, BookMap, SharedBookState, put, book_key, insert_book, prune_in_place,
  reference_now_ms, keeps, default_max_age_ms, sweep_books, is_sweep_due,
}

abbrev pub keys_of : {F : Type 0} → BookMap F → List Bytes
keys_of books = map (λ e. e.0) books

abbrev pub HasKeys : {F : Type 0} → BookMap F → Type 0
HasKeys books = All (λ e. e.0 ≡ book_key e.1) books

-- Every book is under its own key, and no key stands twice.
abbrev pub IsWellFormed : {F : Type 0} → BookMap F → Type 0
IsWellFormed books = HasKeys books × Distinct (keys_of books)

module _ {F : Type 0} where
  contains-put :
      (key wanted : Bytes) (book : OrderBookData F) (books : BookMap F)
      → contains (keys_of (put key book books)) wanted
        ≡ (wanted == key || contains (keys_of books) wanted)
  unfolding put contains
  contains-put key wanted book [] = refl
  contains-put key wanted book ((other, old) ∷ rest) = ground (
    arith,
    eq_iff other key,
    eq_iff wanted key,
    eq_iff wanted other,
    contains-put key wanted book rest,
  )

  contains-filter :
      (p : Bytes × OrderBookData F → Bool) (wanted : Bytes) (books : BookMap F)
      → contains (keys_of books) wanted ≡ false
      → contains (keys_of (filter p books)) wanted ≡ false
  unfolding contains
  contains-filter p wanted [] h = refl
  contains-filter p wanted (e ∷ books) h = ground (arith, contains-filter p wanted books)

  put-IsWellFormed :
      (book : OrderBookData F) (books : BookMap F)
      → IsWellFormed books
      → IsWellFormed (put (book_key book) book books)
  unfolding put contains
  put-IsWellFormed book [] w = ((refl, tt), (refl, tt))
  put-IsWellFormed book ((other, old) ∷ rest) w =
      let later = put-IsWellFormed book rest (w.0.1, w.1.1) in
      elim (Bool-cases (other == book_key book)) [
        | inl q ↦
            let same = (eq_iff other (book_key book)).0 q in
            rw q ((refl, w.0.1), (subst (λ k. contains (keys_of rest) k ≡ false) same w.1.0, w.1.1))
        | inr q ↦
            let absent : contains (keys_of (put (book_key book) book rest)) other ≡ false =
              contains-put (book_key book) other book rest ∙ ground (arith, w.1.0) in
            rw q ((w.0.0, later.0), (absent, later.1))
      ]

  filter-IsWellFormed :
      (p : Bytes × OrderBookData F → Bool) (books : BookMap F)
      → IsWellFormed books
      → IsWellFormed (filter p books)
  filter-IsWellFormed p [] w = w
  filter-IsWellFormed p (e ∷ books) w =
      let rest = filter-IsWellFormed p books (w.0.1, w.1.1) in
      elim (Bool-cases (p e)) [
        | inl q ↦ rw q ((w.0.0, rest.0), (contains-filter p e.0 books w.1.0, rest.1))
        | inr q ↦ rw q rest
      ]

  -- An insert into a map that holds every book under its own key and no key twice leaves such a map.
  pub insert_book-IsWellFormed :
      (st : SharedBookState F) (book : OrderBookData F)
      → IsWellFormed st.books
      → IsWellFormed (insert_book st book).books
  unfolding insert_book sweep_books prune_in_place
  insert_book-IsWellFormed st book w =
      let placed = put-IsWellFormed book st.books w in
      elim (Bool-cases (is_sweep_due st.insert_count)) [
        | inr q ↦ rw q placed
        | inl q ↦ elim (Option-cases (reference_now_ms (put (book_key book) book st.books))) [
          | inl r ↦ rw (insert_book, sweep_books, q, r) placed
          | inr (m, r) ↦
              rw (insert_book, sweep_books, q, r)
                (filter-IsWellFormed (keeps m default_max_age_ms) _ placed)
        ]
      ]
