-- ===== src/Books/Clearing.antt =====
-- The consolidation of the venues' books in src/cob.rs: the common grid, the projection and the loop
-- that clears crossing volume. A BTreeMap is an association list by ascending keys, and a loop runs on
-- fuel: for the clearing loop, one unit for each level and one more are enough while one side of
-- every crossing empties.
use kaskad_nuntius.Prelude.{
  ℕ, zero, suc, ◌+◌, ◌%◌, ◌^◌, Bool, ◌||◌, List, [], ◌∷◌, Option, none, some, ltb, nat_beq, length,
  if◌then◌else◌,
}
use kaskad_nuntius.Float.{Float64, nought}
use kaskad_nuntius.Books.{PriceLevel}
use kaskad_nuntius.Books.Selection.{OrderBookSnapshot, mean}

-- The `while b != 0` of gcd_u64.
unfoldable pub gcd_loop : ℕ → ℕ → ℕ → Option ℕ
gcd_loop fuel a zero = some a
gcd_loop zero a (suc b) = none
gcd_loop (suc fuel) a (suc b) = gcd_loop fuel (suc b) (a % suc b)

unfoldable pub gcd_u64 : ℕ → ℕ → Option ℕ
gcd_u64 a b = gcd_loop b a b

-- The order of i64 keys, by their words.
unfoldable pub key_before : ℕ → ℕ → Bool
key_before a b = ltb ((a + 2 ^ 63) % 2 ^ 64) ((b + 2 ^ 63) % 2 ^ 64)

abbrev pub Levels : Type 0 → Type 0
Levels F = List (ℕ × F)

module _ {F : Type 0} ⦃f : Float64 F⦄ where
  unfoldable pub gcd_f64 : F → F → Option F
  gcd_f64 a b =
      let scale = f.of_decimal (10 ^ 10) 0 in
      elim (gcd_u64 (f.to_u64 (f.round (f.mul a scale))) (f.to_u64 (f.round (f.mul b scale)))) [
        | none ↦ none
        | some g ↦ some (f.div (f.of_nat g) scale)
      ]

  unfoldable pub join_tick : F → F → Option F
  join_tick g tick =
      if f.le tick nought then some g else if f.feq g nought then some tick else gcd_f64 g tick

  unfoldable pub grid_from : F → List (OrderBookSnapshot F) → Option F
  grid_from g [] = some (if f.le g nought then f.of_decimal 1 4 else g)
  grid_from g (book ∷ books) = elim (join_tick g book.tick_size) [
    | none ↦ none
    | some next ↦ grid_from next books
  ]

  unfoldable pub compute_common_grid : List (OrderBookSnapshot F) → Option F
  compute_common_grid books = grid_from nought books

  -- `*levels.entry(key).or_insert(0.0) += quantity`
  unfoldable pub add_level : ℕ → F → Levels F → Levels F
  add_level key quantity [] = (key, f.add nought quantity) ∷ []
  add_level key quantity ((other, total) ∷ rest) =
      let later = add_level key quantity rest in
      if nat_beq other key
      then (other, f.add total quantity) ∷ rest
      else if key_before key other
      then (key, f.add nought quantity) ∷ (other, total) ∷ rest
      else (other, total) ∷ later

  unfoldable pub is_skipped : PriceLevel F → Bool
  is_skipped level = f.le level.price nought || f.le level.quantity nought || f.is_nan level.price

  unfoldable pub project : F → List (PriceLevel F) → Levels F → Levels F
  project inv_grid [] levels = levels
  project inv_grid (level ∷ rest) levels = project inv_grid rest (
      if is_skipped level
      then levels
      else add_level (f.to_i64 (f.round (f.mul level.price inv_grid))) level.quantity levels)

  unfoldable pub project_bids : F → List (OrderBookSnapshot F) → Levels F → Levels F
  project_bids inv_grid [] levels = levels
  project_bids inv_grid (book ∷ books) levels =
      project_bids inv_grid books (project inv_grid book.bids levels)

  unfoldable pub project_asks : F → List (OrderBookSnapshot F) → Levels F → Levels F
  project_asks inv_grid [] levels = levels
  project_asks inv_grid (book ∷ books) levels =
      project_asks inv_grid books (project inv_grid book.asks levels)

  -- What is left of the best level of a side when `cleared` is taken from it.
  unfoldable pub take_from : ℕ → F → F → Levels F → Levels F
  take_from key total cleared rest =
      if f.lt (f.abs (f.sub total cleared)) (f.of_decimal 1 15)
      then rest
      else (key, f.sub total cleared) ∷ rest

  -- The loop, on the bids by descending and the asks by ascending keys: the best level comes first.
  unfoldable pub clear : ℕ → Levels F → Levels F → Option (Levels F × Levels F)
  clear fuel [] asks = some ([], asks)
  clear fuel (bid ∷ bids) [] = some (bid ∷ bids, [])
  clear zero ((kb, vb) ∷ bids) ((ka, va) ∷ asks) =
      if key_before kb ka then some ((kb, vb) ∷ bids, (ka, va) ∷ asks) else none
  clear (suc fuel) ((kb, vb) ∷ bids) ((ka, va) ∷ asks) =
      let v = f.fmin vb va in
      let next = clear fuel (take_from kb vb v bids) (take_from ka va v asks) in
      if key_before kb ka then some ((kb, vb) ∷ bids, (ka, va) ∷ asks) else next

unfoldable pub reverse_onto {ℓ} : {A : Type ℓ} → List A → List A → List A
reverse_onto [] done = done
reverse_onto (level ∷ rest) done = reverse_onto rest (level ∷ done)

pub record FairValue (F : Type 0) : Type 0 where
  pub price : F
  pub best_bid : F
  pub best_ask : F
  pub spread_bps : F
  pub num_sources : ℕ

module _ {F : Type 0} ⦃f : Float64 F⦄ where
  unfoldable pub fair_value : F → ℕ → Levels F → Levels F → Option (FairValue F)
  fair_value grid count ((kb, vb) ∷ bids) ((ka, va) ∷ asks) =
      let bid = f.mul (f.of_i64 kb) grid in
      let ask = f.mul (f.of_i64 ka) grid in
      let mid = mean bid ask in
      some (record {
        price = mid;
        best_bid = bid;
        best_ask = ask;
        spread_bps =
            if f.lt nought mid
            then f.mul (f.div (f.sub ask bid) mid) (f.of_decimal 10000 0)
            else nought;
        num_sources = count;
      })
  fair_value grid count _ _ = none

  -- The outer `none` is a loop that has used up its fuel.
  unfoldable pub consolidate_on : ℕ → F → List (OrderBookSnapshot F) → Option (Option (FairValue F))
  consolidate_on fuel grid books =
      let inv_grid = f.div (f.of_decimal 1 0) grid in
      let bids = reverse_onto (project_bids inv_grid books []) [] in
      let asks = project_asks inv_grid books [] in
      elim (clear fuel bids asks) [
        | none ↦ none
        | some left ↦ some (fair_value grid (length books) left.0 left.1)
      ]

  unfoldable pub consolidated_order_book :
      ℕ → List (OrderBookSnapshot F) → Option (Option (FairValue F))
  consolidated_order_book fuel [] = some none
  consolidated_order_book fuel (book ∷ books) = elim (compute_common_grid (book ∷ books)) [
    | none ↦ none
    | some grid ↦ if f.le grid nought then some none else consolidate_on fuel grid (book ∷ books)
  ]
