-- ===== src/Collectors/Levels.antt =====
-- What the local order book of src/collectors/book.rs holds at a price, and what time it gives.
use kaskad_nuntius.Prelude.{
  ℕ, ◌≡◌, refl, ap, ◌∙◌, inl, inr, Bool, Bool-cases, not, ◌&&◌, All, true, false, List, [], ◌∷◌,
  Option, none, some, Option-cases, arith, if◌then◌else◌,
}
use kaskad_nuntius.Float.{Float64, nought}
use kaskad_nuntius.Books.{OrderBookData}
use kaskad_nuntius.Collectors.Latency.{normalize_timestamp_ms, process}
use kaskad_nuntius.Collectors.LocalBook.{
  LocalBook, Side, side_get, side_insert, side_remove, is_skipped_delta, apply_delta, update_side,
  apply_deltas, load_side, is_snapshot_level, apply_snapshot, data_of, to_orderbook_data,
}

-- Equality of `f64` is symmetric and transitive, also where it is not reflexive.
pub record EqualityLaws (F : Type 0) ⦃f : Float64 F⦄ : Type 0 where
  pub feq-sym : (a b : F) → f.feq a b ≡ true → f.feq b a ≡ true
  pub feq-trans : (a b c : F) → f.feq a b ≡ true → f.feq b c ≡ true → f.feq a c ≡ true

module _ {F : Type 0} ⦃f : Float64 F⦄ (laws : EqualityLaws F) where
  side_get-insert :
      (p q wanted : F) (side : Side F)
      → side_get wanted (side_insert p q side)
        ≡ (if f.feq p wanted then some q else side_get wanted side)
  unfolding side_get side_insert
  side_get-insert p q wanted [] = refl
  side_get-insert p q wanted ((other, old) ∷ rest) = ground (
    arith,
    laws.feq-sym other p,
    laws.feq-sym p wanted,
    laws.feq-trans other wanted p,
    laws.feq-trans other p wanted,
    laws.feq-trans p other wanted,
    side_get-insert p q wanted rest,
  )

  side_get-remove :
      (p wanted : F) (side : Side F)
      → side_get wanted (side_remove p side)
        ≡ (if f.feq p wanted then none else side_get wanted side)
  unfolding side_get side_remove
  side_get-remove p wanted [] = ground arith
  side_get-remove p wanted ((other, old) ∷ rest) = ground (
    arith,
    laws.feq-sym other p,
    laws.feq-sym p wanted,
    laws.feq-trans other wanted p,
    laws.feq-trans other p wanted,
    laws.feq-trans p other wanted,
    side_get-remove p wanted rest,
  )

-- Order of finite `f64`: of two, either the one is at most the other or the other is less, and one that
-- is at least another is greater or equal to it. Zero is finite.
pub record OrderLaws (F : Type 0) ⦃f : Float64 F⦄ : Type 0 where
  pub nought-is_finite : f.is_finite nought ≡ true
  pub le-not-lt :
      (a b : F) → f.is_finite a ≡ true → f.is_finite b ≡ true → f.le a b ≡ not (f.lt b a)
  pub le-feq :
      (a b : F)
      → f.is_finite a ≡ true
      → f.is_finite b ≡ true
      → f.le a b ≡ true
      → f.feq b a ≡ false
      → f.lt a b ≡ true

module _ {F : Type 0} ⦃f : Float64 F⦄ where
  -- A level of an update that the venue may mean: a finite positive price, and a finite quantity that is
  -- positive, or zero to clear the price.
  abbrev pub is_meant : F → F → Bool
  is_meant p q = f.is_finite p && f.is_finite q && f.lt nought p && f.le nought q

  -- What a side holds at a price after updates, if it held `now` before: the last update at that price
  -- that is meant decides, and a quantity of zero clears the price.
  unfoldable pub held_after : List (F × F) → F → Option F → Option F
  held_after [] wanted now = now
  held_after ((p, q) ∷ levels) wanted now = held_after levels wanted (
      if is_meant p q
      then (if f.feq p wanted then (if f.feq q nought then none else some q) else now)
      else now)

  -- A finite positive price with a finite positive quantity.
  abbrev pub IsLevel : F × F → Type 0
  IsLevel (p, q) =
      (f.is_finite p ≡ true)
      × (f.is_finite q ≡ true)
      × (f.lt nought p ≡ true)
      × (f.lt nought q ≡ true)

  abbrev pub HasLevels : LocalBook F → Type 0
  HasLevels book = All IsLevel book.bids × All IsLevel book.asks

  side_insert-IsLevel :
      (p q : F) (side : Side F)
      → IsLevel (p, q)
      → All IsLevel side
      → All IsLevel (side_insert p q side)
  unfolding side_insert
  side_insert-IsLevel p q [] l a = (l, tt)
  side_insert-IsLevel p q ((other, old) ∷ rest) l a = elim (Bool-cases (f.feq other p)) [
    | inl e ↦ rw e ((a.0.0, l.1, a.0.2, l.3), a.1)
    | inr e ↦ elim (Bool-cases (f.lt p other)) [
      | inl g ↦ rw (e, g) (l, a)
      | inr g ↦ rw (e, g) (a.0, side_insert-IsLevel p q rest l a.1)
    ]
  ]

  side_remove-IsLevel :
      (p : F) (side : Side F) → All IsLevel side → All IsLevel (side_remove p side)
  unfolding side_remove
  side_remove-IsLevel p [] a = tt
  side_remove-IsLevel p ((other, old) ∷ rest) a = elim (Bool-cases (f.feq other p)) [
    | inl e ↦ rw e (side_remove-IsLevel p rest a.1)
    | inr e ↦ rw e (a.0, side_remove-IsLevel p rest a.1)
  ]

  load_side-IsLevel :
      (levels : List (F × F)) (side : Side F)
      → All IsLevel side
      → All IsLevel (load_side levels side)
  unfolding load_side is_snapshot_level
  load_side-IsLevel [] side a = a
  load_side-IsLevel ((p, q) ∷ levels) side a = elim (Bool-cases (is_snapshot_level p q)) [
    | inl e ↦ load_side-IsLevel levels _ (rw e (side_insert-IsLevel p q side (ground (arith, e)) a))
    | inr e ↦ load_side-IsLevel levels _ (rw e a)
  ]

  -- A snapshot leaves levels with finite positive prices and quantities only, whatever the venue sends.
  pub apply_snapshot-HasLevels :
      (book : LocalBook F) (bids asks : List (F × F)) (seq : Option ℕ)
      → HasLevels (apply_snapshot book bids asks seq)
  unfolding apply_snapshot
  apply_snapshot-HasLevels book bids asks seq =
      (load_side-IsLevel bids [] tt, load_side-IsLevel asks [] tt)

module _ {F : Type 0} ⦃f : Float64 F⦄ (order : OrderLaws F) where
  is_skipped_delta_lem : (p q : F) → is_skipped_delta p q ≡ not (is_meant p q)
  unfolding is_skipped_delta
  is_skipped_delta_lem p q =
      ground (arith, order.le-not-lt p nought, order.le-not-lt nought q, order.nought-is_finite)

  apply_delta-IsLevel :
      (p q : F) (side : Side F)
      → is_meant p q ≡ true
      → All IsLevel side
      → All IsLevel (apply_delta p q side)
  unfolding apply_delta
  apply_delta-IsLevel p q side m a = elim (Bool-cases (f.feq q nought)) [
    | inl e ↦ rw e (side_remove-IsLevel p side a)
    | inr e ↦
        let l : IsLevel (p, q) =
          ground (arith, m, e, order.le-feq nought q, order.nought-is_finite) in
        rw e (side_insert-IsLevel p q side l a)
  ]

  update_side-IsLevel :
      (levels : List (F × F)) (side : Side F)
      → All IsLevel side
      → All IsLevel (update_side levels side)
  unfolding update_side
  update_side-IsLevel [] side a = a
  update_side-IsLevel ((p, q) ∷ levels) side a = elim (Bool-cases (is_meant p q)) [
    | inl m ↦
        let s : is_skipped_delta p q ≡ false = is_skipped_delta_lem p q ∙ ap not m in
        update_side-IsLevel levels _ (rw s (apply_delta-IsLevel p q side m a))
    | inr m ↦
        let s : is_skipped_delta p q ≡ true = is_skipped_delta_lem p q ∙ ap not m in
        update_side-IsLevel levels _ (rw s a)
  ]

  module _ (laws : EqualityLaws F) where
    update_side-refines :
        (levels : List (F × F)) (wanted : F) (side : Side F)
        → side_get wanted (update_side levels side)
          ≡ held_after levels wanted (side_get wanted side)
    unfolding update_side held_after apply_delta
    update_side-refines [] wanted side = refl
    update_side-refines ((p, q) ∷ levels) wanted side =
        let next : Side F = if is_skipped_delta p q then side else apply_delta p q side in
        update_side-refines levels wanted next
        ∙ ap (held_after levels wanted) (
            rw (is_skipped_delta_lem p q) (
              ground
                (arith, side_get-insert laws p q wanted side, side_get-remove laws p wanted side)))

    -- Incremental updates leave levels with finite positive prices and quantities only, if there were only
    -- such, and each side then holds at a price what the last update at that price says that is meant:
    -- a finite positive price, and a finite quantity that is positive, or zero, which clears the price.
    -- Updates that are not meant, negative quantities included, change nothing.
    pub apply_deltas-refines :
        (book : LocalBook F) (bids asks : List (F × F)) (seq : Option ℕ) (wanted : F)
        → HasLevels book
        → HasLevels (apply_deltas book bids asks seq)
          × (side_get wanted (apply_deltas book bids asks seq).bids
              ≡ held_after bids wanted (side_get wanted book.bids))
          × (side_get wanted (apply_deltas book bids asks seq).asks
              ≡ held_after asks wanted (side_get wanted book.asks))
    unfolding apply_deltas
    apply_deltas-refines book bids asks seq wanted h = (
      (update_side-IsLevel bids book.bids h.0, update_side-IsLevel asks book.asks h.1),
      update_side-refines bids wanted book.bids,
      update_side-refines asks wanted book.asks,
    )

module _ {F : Type 0} ⦃f : Float64 F⦄ where
  abbrev pub time_in : Option (OrderBookData F) → Option ℕ
  time_in none = none
  time_in (some made) = some made.exchange_timestamp

  -- The time of a snapshot is the venue's, brought to milliseconds, whatever the host's clock says: there
  -- is a snapshot exactly if the venue gave a usable time.
  pub to_orderbook_data-time :
      (book : LocalBook F) (exchange_ts_ms received_at_ms : ℕ)
      → time_in (to_orderbook_data book exchange_ts_ms received_at_ms).0
        ≡ normalize_timestamp_ms exchange_ts_ms
  unfolding to_orderbook_data process data_of
  to_orderbook_data-time book ts received = elim (Option-cases (normalize_timestamp_ms ts)) [
    | inl h ↦ rw (to_orderbook_data, process, h) refl
    | inr (ms, h) ↦ rw (to_orderbook_data, process, h) refl
  ]
