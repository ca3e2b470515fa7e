-- ===== src/Cycle/Publishing/Isolation.antt =====
-- One asset at a time: what the loop of src/main.rs leaves alone.
use mathlib.Core.Option
use kaskad_nuntius.Chain.Text.{or_else}
use kaskad_nuntius.Prelude.{
  ℕ, ◌≡◌, refl, sym, ap, subst, ◌∙◌, ◌≢◌, inl, inr, List, [], ◌∷◌, map, Option, none, some,
  Result-cases, ◌==◌, eq_iff, nat_eq, list_eq, Bool-cases, Option-cases, arith, if◌then◌else◌,
}
use kaskad_nuntius.Policy.{Bytes}
use kaskad_nuntius.Crypto.{Crypto}
use kaskad_nuntius.Float.{Float64}
use kaskad_nuntius.Aggregator.{PricePoint, AssetConfig}
use kaskad_nuntius.Aggregator.Outliers.{to_fixed_point}
use kaskad_nuntius.Books.{BookMap, reference_of}
use kaskad_nuntius.Books.Gate.{seconds_of, gated_consolidated_order_book}
use kaskad_nuntius.Books.Symbols.{is_cob_asset}
use kaskad_nuntius.Books.Selection.{OrderBookSnapshot, read_books_from_state}
use kaskad_nuntius.Books.Clearing.{FairValue}
use kaskad_nuntius.Cycle.{
  CachedPrice, LoopState, oracle_decimals, put_price, lookup_price, store_price, usdt_rate,
  cob_price, cob_from_books, cob_path, after_cob, run_asset,
}
use kaskad_nuntius.Cycle.Publishing.{rest_path-IsPublished, store-usdt_rate}

lookup_price-put_price :
    {A : Type 0} (key wanted : Bytes) (price : A) (store : List (Bytes × A))
    → lookup_price wanted (put_price key price store)
      ≡ (if key == wanted then some price else lookup_price wanted store)
unfolding lookup_price put_price
lookup_price-put_price key wanted price [] = refl
lookup_price-put_price key wanted price ((other, old) ∷ rest) = ground (
  arith,
  eq_iff key wanted,
  eq_iff other key,
  eq_iff other wanted,
  lookup_price-put_price key wanted price rest,
)

abbrev name_in : {F : Type 0} → AssetConfig → Option (CachedPrice F) → Bytes
name_in asset none = asset.symbol
name_in asset (some cached) = cached.asset_symbol

map-eq-some :
    {A B : Type 0} (g : A → B) (o : Option A) {b : B}
    → Option.map g o ≡ some b
    → (a : A) × (o ≡ some a) × (g a ≡ b)
map-eq-some g none h = cc
map-eq-some g (some a) {b} h = (a, refl, ap (λ o. or_else o b) h)

module _ {F : Type 0} ⦃f : Float64 F⦄ (crypto : Crypto) where
  store_price-others :
      (st : LoopState F) (cached : CachedPrice F) (wanted : Bytes)
      → wanted ≢ cached.asset_symbol
      → lookup_price wanted (store_price st cached).store ≡ lookup_price wanted st.store
  unfolding store_price
  store_price-others st cached wanted ne = ground (
    arith,
    eq_iff cached.asset_symbol wanted,
    lookup_price-put_price cached.asset_symbol wanted cached st.store,
  )

  after_cob-others :
      (asset : AssetConfig) (raw_prices : List (PricePoint F)) (st : LoopState F)
      (made : Option (CachedPrice F)) (wanted : Bytes)
      → wanted ≢ asset.symbol
      → ((cached : CachedPrice F) → made ≡ some cached → cached.asset_symbol ≡ asset.symbol)
      → lookup_price wanted (after_cob crypto asset raw_prices (st, made)).store
        ≡ lookup_price wanted st.store
  unfolding after_cob
  after_cob-others asset raw st (some cached) wanted ne own =
      store_price-others st cached wanted (λ e. ne (e ∙ own cached refl))
  after_cob-others asset raw st none wanted ne own =
      elim (rest_path-IsPublished crypto st asset raw) [
        | inl h ↦ ap (lookup_price wanted) h
        | inr (cached, h, backed) ↦
            ap (lookup_price wanted) h
            ∙ ground (
              arith,
              ne,
              eq_iff asset.symbol wanted,
              lookup_price-put_price asset.symbol wanted cached st.store,
            )
      ]

  cob_price-own :
      (st : LoopState F) (asset : AssetConfig) (books : List (OrderBookSnapshot F))
      (fair : FairValue F) (reference_ms : ℕ)
      → ((cob_price crypto st asset books fair reference_ms).0.store ≡ st.store)
        × ((cached : CachedPrice F)
            → (cob_price crypto st asset books fair reference_ms).1 ≡ some cached
            → cached.asset_symbol ≡ asset.symbol)
  unfolding cob_price
  cob_price-own st asset books fair ms =
      let rated = usdt_rate st (seconds_of ms) in
      elim (Result-cases (to_fixed_point (f.mul fair.price rated.0) oracle_decimals)) [
        | inr (e, h) ↦ rw (cob_price, h) (store-usdt_rate st (seconds_of ms), λ cached q. cc)
        | inl (fixed, h) ↦
            rw (cob_price, h)
              (store-usdt_rate st (seconds_of ms), λ cached q. sym (ap (name_in asset) q))
      ]

  cob_from_books-own :
      (st : LoopState F) (asset : AssetConfig) (books : List (OrderBookSnapshot F))
      (fair : Option (FairValue F))
      → ((cob_from_books crypto st asset books fair).0.store ≡ st.store)
        × ((cached : CachedPrice F)
            → (cob_from_books crypto st asset books fair).1 ≡ some cached
            → cached.asset_symbol ≡ asset.symbol)
  unfolding cob_from_books
  cob_from_books-own st asset books none = (refl, λ cached q. cc)
  cob_from_books-own st asset books (some fair) =
      elim (Option-cases (reference_of (map (λ b. b.exchange_timestamp_ms) books))) [
        | inl h ↦ rw (cob_from_books, h) (refl, λ cached q. cc)
        | inr (ms, h) ↦ rw (cob_from_books, h) (cob_price-own st asset books fair ms)
      ]

  cob_path-own :
      (fuel : ℕ) (to_uppercase : Bytes → Bytes) (st : LoopState F) (state : BookMap F)
      (asset : AssetConfig) {made : LoopState F × Option (CachedPrice F)}
      → cob_path crypto fuel to_uppercase st state asset ≡ some made
      → (made.0.store ≡ st.store)
        × ((cached : CachedPrice F) → made.1 ≡ some cached → cached.asset_symbol ≡ asset.symbol)
  unfolding cob_path
  cob_path-own fuel up st state asset {made} h = elim (Bool-cases (is_cob_asset asset.symbol)) [
    | inl c ↦
        let found =
          map-eq-some (cob_from_books crypto st asset (read_books_from_state up asset.symbol state))
            (gated_consolidated_order_book fuel (read_books_from_state up asset.symbol state)
              asset.min_sources)
            (rw (cob_path, c) at h) in
        subst
          (λ m.
            (m.0.store ≡ st.store)
            × ((cached : CachedPrice F) → m.1 ≡ some cached → cached.asset_symbol ≡ asset.symbol))
          found.2
          (cob_from_books-own st asset (read_books_from_state up asset.symbol state) found.0)
    | inr c ↦
        subst
          (λ m.
            (m.0.store ≡ st.store)
            × ((cached : CachedPrice F) → m.1 ≡ some cached → cached.asset_symbol ≡ asset.symbol))
          (ap (λ o. or_else o made) (rw (cob_path, c) at h)) (refl, λ cached q. cc)
  ]

  -- A turn of the loop for one asset that ends changes the price of no other asset.
  pub run_asset-others :
      (fuel : ℕ) (to_uppercase : Bytes → Bytes) (st after : LoopState F) (state : BookMap F)
      (asset : AssetConfig) (raw_prices : List (PricePoint F)) (wanted : Bytes)
      → run_asset crypto fuel to_uppercase st state asset raw_prices ≡ some after
      → wanted ≢ asset.symbol
      → lookup_price wanted after.store ≡ lookup_price wanted st.store
  unfolding run_asset
  run_asset-others fuel up st after state asset raw wanted h ne =
      let path =
        map-eq-some (after_cob crypto asset raw) (cob_path crypto fuel up st state asset) h in
      let own = cob_path-own fuel up st state asset path.1 in
      ap (λ s. lookup_price wanted s.store) (sym path.2)
      ∙ after_cob-others asset raw path.0.0 path.0.1 wanted ne own.1
      ∙ ap (lookup_price wanted) own.0
