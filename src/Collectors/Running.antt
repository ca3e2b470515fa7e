-- ===== src/Collectors/Running.antt =====
-- Which collectors run after src/collectors/manager.rs has taken a new configuration.
use kaskad_nuntius.Prelude.{
  Bool, true, false, not, ◌&&◌, ◌||◌, List, [], ◌∷◌, map, none, filter, All, contains, Distinct,
  eq_iff, ◌==◌, nat_eq, list_eq, ◌≡◌, refl, ◌∙◌, ap, subst, Bool-cases, inl, inr, arith,
}
use kaskad_nuntius.Policy.{Bytes}
use kaskad_nuntius.Cycle.{put_price, lookup_price}
use kaskad_nuntius.Collectors.Manager.{
  ExchangeConfig, CollectorManager, config_map, is_enabled, stop, stop_each, start,
  start_if_enabled, start_each, stopped, update_config,
}

abbrev names_of : List (Bytes × ExchangeConfig) → List Bytes
names_of known = map (λ e. e.0) known

-- Every configuration is under its own name, and no name stands twice.
abbrev IsMap : List (Bytes × ExchangeConfig) → Type 0
IsMap known = All (λ e. e.1.name ≡ e.0) known × Distinct (names_of known)

contains-put_price :
    (name wanted : Bytes) (c : ExchangeConfig) (known : List (Bytes × ExchangeConfig))
    → contains (names_of (put_price name c known)) wanted
      ≡ (wanted == name || contains (names_of known) wanted)
unfolding put_price contains
contains-put_price name wanted c [] = refl
contains-put_price name wanted c ((other, old) ∷ rest) = ground (
  arith,
  eq_iff other name,
  eq_iff wanted name,
  eq_iff wanted other,
  contains-put_price name wanted c rest,
)

put_price-IsMap :
    (c : ExchangeConfig) (known : List (Bytes × ExchangeConfig))
    → IsMap known
    → IsMap (put_price c.name c known)
unfolding put_price contains
put_price-IsMap c [] m = ((refl, tt), (refl, tt))
put_price-IsMap c ((other, old) ∷ rest) m =
    let later = put_price-IsMap c rest (m.0.1, m.1.1) in
    elim (Bool-cases (other == c.name)) [
      | inl q ↦
          let same = (eq_iff other c.name).0 q in
          rw q ((refl, m.0.1), (subst (λ k. contains (names_of rest) k ≡ false) same m.1.0, m.1.1))
      | inr q ↦
          let absent : contains (names_of (put_price c.name c rest)) other ≡ false =
            contains-put_price c.name other c rest ∙ ground (arith, m.1.0) in
          rw q ((m.0.0, later.0), (absent, later.1))
    ]

config_map-IsMap :
    (configs : List ExchangeConfig) (known : List (Bytes × ExchangeConfig))
    → IsMap known
    → IsMap (config_map configs known)
unfolding config_map
config_map-IsMap [] known m = m
config_map-IsMap (c ∷ configs) known m =
    config_map-IsMap configs (put_price c.name c known) (put_price-IsMap c known m)

lookup_price-absent :
    (wanted : Bytes) (known : List (Bytes × ExchangeConfig))
    → contains (names_of known) wanted ≡ false
    → lookup_price wanted known ≡ none
unfolding lookup_price contains
lookup_price-absent wanted [] h = refl
lookup_price-absent wanted ((other, c) ∷ rest) h =
    ground (arith, eq_iff other wanted, eq_iff wanted other, lookup_price-absent wanted rest)

contains-filter :
    (p : Bytes → Bool) (names : List Bytes) (wanted : Bytes)
    → contains (filter p names) wanted ≡ (contains names wanted && p wanted)
unfolding contains
contains-filter p [] wanted = refl
contains-filter p (n ∷ names) wanted = elim (Bool-cases (wanted == n)) [
  | inl q ↦
      let same = (eq_iff wanted n).0 q in ground (arith, ap p same, contains-filter p names wanted)
  | inr q ↦ ground (arith, contains-filter p names wanted)
]

contains-stop_each :
    (names running : List Bytes) (wanted : Bytes)
    → contains (stop_each names running) wanted
      ≡ (contains running wanted && not (contains names wanted))
unfolding stop_each stop contains
contains-stop_each [] running wanted = ground arith
contains-stop_each (n ∷ names) running wanted =
    contains-stop_each names (filter (λ m. not (m == n)) running) wanted
    ∙ ground (arith, contains-filter (λ m. not (m == n)) running wanted)

module _ (has_collector : Bytes → Bool) where
  contains-stopped :
      (known : List (Bytes × ExchangeConfig)) (running : List Bytes) (wanted : Bytes)
      → contains (stopped has_collector known running) wanted
        ≡ (contains running wanted && is_enabled (lookup_price wanted known))
  unfolding stopped
  contains-stopped known running wanted = ground (
    arith,
    contains-stop_each (filter (λ n. not (is_enabled (lookup_price n known))) running) running
        wanted,
    contains-filter (λ n. not (is_enabled (lookup_price n known))) running wanted,
  )

  contains-start :
      (c : ExchangeConfig) (running : List Bytes) (wanted : Bytes)
      → contains (start_if_enabled has_collector c.name c running) wanted
        ≡ (contains running wanted || (c.name == wanted && c.enabled && has_collector c.name))
  unfolding start_if_enabled start contains
  contains-start c running wanted = elim (Bool-cases (c.name == wanted)) [
    | inl q ↦
        let same = (eq_iff c.name wanted).0 q in
        ground (arith, ap (contains running) same, eq_iff wanted c.name)
    | inr q ↦ ground (arith, eq_iff wanted c.name, eq_iff c.name wanted)
  ]

  contains-start_each :
      (known : List (Bytes × ExchangeConfig)) (running : List Bytes) (wanted : Bytes)
      → IsMap known
      → contains (start_each has_collector known running) wanted ≡ (
          contains running wanted || is_enabled (lookup_price wanted known) && has_collector wanted)
  unfolding start_each lookup_price is_enabled
  contains-start_each [] running wanted m = ground arith
  contains-start_each ((name, c) ∷ known) running wanted m =
      let started =
        subst
          (λ k.
            contains (start_if_enabled has_collector k c running) wanted
            ≡ (contains running wanted || (k == wanted && c.enabled && has_collector k)))
          m.0.0 (contains-start c running wanted) in
      let same : name == wanted ≡ true → name ≡ wanted = (eq_iff name wanted).0 in
      let absent : name == wanted ≡ true → lookup_price wanted known ≡ none = λ h.
        lookup_price-absent wanted known
          (subst (λ k. contains (names_of known) k ≡ false) (same h) m.1.0) in
      let has : name == wanted ≡ true → has_collector name ≡ has_collector wanted =
        λ h. ap has_collector (same h) in
      contains-start_each known (start_if_enabled has_collector name c running) wanted
        (m.0.1, m.1.1)
      ∙ ground (arith, started, absent, has)

  -- After a new configuration exactly those collectors run that it enables and that ran before or have an
  -- implementation.
  pub update_config-running :
      (m : CollectorManager) (configs : List ExchangeConfig) (wanted : Bytes)
      → contains (update_config has_collector m configs).running wanted ≡ (
          is_enabled (lookup_price wanted (config_map configs []))
          && (contains m.running wanted || has_collector wanted))
  unfolding update_config
  update_config-running m configs wanted =
      let known = config_map configs [] in
      ground (
        arith,
        contains-start_each known (stopped has_collector known m.running) wanted
            (config_map-IsMap configs [] (tt, tt)),
        contains-stopped known m.running wanted,
      )
