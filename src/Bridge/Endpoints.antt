-- ===== src/Bridge/Endpoints.antt =====
-- What the failover transport of crates/pontifex-bridge/src/transport.rs does with its endpoints.
use Prim.Native.String.{String}
use kaskad_nuntius.Prelude.{
  ℕ, zero, suc, ◌+◌, ◌-◌, ◌%◌, ◌≤◌, ◌<◌, ◌≡◌, refl, sym, ap, subst, ◌∙◌, not, List, Option, none,
  some, length, get_elem?, leb, Bool-cases, inl, inr, ◌⊎◌, ◌==◌, nat_eq, arith, eq_iff,
  if◌then◌else◌,
}
use native.Mathlib.Nat.{mod-mod, mod-eq_of_lt, mod-lt, add-mod_right}
use kaskad_nuntius.Chain.Wire.{Wire, Transport}
use kaskad_nuntius.Bridge.Failover.{call_endpoint, failover_loop, failover}

-- Every index is reached from a start by going around once.
around : (start i n : ℕ) → start < n → i < n → (k : ℕ) × (k < n) × ((start + k) % n ≡ i)
around start i n s h = elim (Bool-cases (leb start i)) [
  | inl e ↦
      (let q : start + (i - start) ≡ i = ground arith in
        (i - start, ground arith, ap (λ m. m % n) q ∙ mod-eq_of_lt h))
  | inr e ↦
      (let q : start + (i + n - start) ≡ i + n = ground arith in
        (i + n - start, ground arith, ap (λ m. m % n) q ∙ add-mod_right i n ∙ mod-eq_of_lt h))
]

-- The sticky index that an answer leaves, over n endpoints.
abbrev kept : ℕ → ℕ → ℕ → ℕ → ℕ
kept n start off s = if not (off == 0) then (start + off) % n else s

kept-index : (n start off s : ℕ) → s % n ≡ start → kept n start off s % n ≡ (start + off) % n
kept-index n start off s e = ground (arith, eq_iff off 0, mod-mod (start + off) n, mod-mod s n)

module _ (x : Wire) (method : String) (params : x.Value) where
  open x use {World, Value}

  abbrev pub ask : List (Transport x) → ℕ → World → Option Value × World
  ask endpoints i w = call_endpoint x (get_elem? endpoints i) method params w

  -- What one round of the loop returns, from the answer of an endpoint.
  abbrev turn :
      Option Value × World → ℕ → (World → Option Value × (World × ℕ)) → Option Value × (World × ℕ)
  turn (r, w) kept rest = elim r [ some v ↦ (some v, (w, kept)) | none ↦ rest w ]

  turn-none :
      (r : Option Value × World) (kept : ℕ) (rest : World → Option Value × (World × ℕ))
      (s' : World × ℕ)
      → turn r kept rest ≡ (none, s')
      → (r.0 ≡ none) × (rest r.1 ≡ (none, s'))
  turn-none (some v, w) kept rest s' h = cc
  turn-none (none, w) kept rest s' h = (refl, h)

  turn-some :
      (r : Option Value × World) (kept : ℕ) (rest : World → Option Value × (World × ℕ)) (v : Value)
      (s' : World × ℕ)
      → turn r kept rest ≡ (some v, s')
      → ((r ≡ (some v, s'.0)) × (s'.1 ≡ kept)) ⊎ (rest r.1 ≡ (some v, s'))
  turn-some (some v, w) kept rest u s' h = inl (cc, cc)
  turn-some (none, w) kept rest u s' h = inr h

  abbrev again : List (Transport x) → ℕ → ℕ → ℕ → ℕ → World → Option Value × (World × ℕ)
  again endpoints start left off s w =
      failover_loop x endpoints start left (off + 1) method params (w, s)

  loop_none :
      (endpoints : List (Transport x)) (start left off : ℕ) (s s' : World × ℕ)
      → failover_loop x endpoints start left off method params s ≡ (none, s')
      → (k : ℕ) → off ≤ k
      → k < off + left
      → (w : World) × ((ask endpoints ((start + k) % length endpoints) w).0 ≡ none)
  unfolding failover_loop
  loop_none endpoints start zero off s s' h k l u = ground arith
  loop_none endpoints start (suc left) off (w, s) s' h k l u =
      let (e, h') =
        turn-none (ask endpoints ((start + off) % length endpoints) w)
          (kept (length endpoints) start off s) (again endpoints start left off s) s' h in
      elim (Bool-cases (k == off)) [
        | inl q ↦ (
          w,
          ap (λ j. (ask endpoints ((start + j) % length endpoints) w).0) ((eq_iff k off).0 q) ∙ e,
        )
        | inr q ↦
            loop_none endpoints start left (off + 1)
              ((ask endpoints ((start + off) % length endpoints) w).1, s) s' h' k
              (ground (arith, eq_iff k off)) (omega arith)
      ]

  loop_some :
      (endpoints : List (Transport x)) (start left off : ℕ) (s s' : World × ℕ) (v : Value)
      → s.1 % length endpoints ≡ start
      → failover_loop x endpoints start left off method params s ≡ (some v, s')
      → (w : World) × (ask endpoints (s'.1 % length endpoints) w ≡ (some v, s'.0))
  unfolding failover_loop
  loop_some endpoints start zero off s s' v e h = cc
  loop_some endpoints start (suc left) off (w, s) s' v e h =
      elim (turn-some (ask endpoints ((start + off) % length endpoints) w)
        (kept (length endpoints) start off s) (again endpoints start left off s) v s' h) [
          | inl (a, b) ↦ (
            w,
            subst (λ j. ask endpoints j w ≡ (some v, s'.0))
                (sym
                  (ap (λ j. j % length endpoints) b ∙ kept-index (length endpoints) start off s e))
                a,
          )
          | inr h' ↦ loop_some endpoints start left (off + 1) _ s' v e h'
        ]

  -- If a read over the endpoints fails, then for every one of them there is a world in which it fails.
  pub failover-none :
      (endpoints : List (Transport x)) (s s' : World × ℕ) (i : ℕ)
      → failover x endpoints method params s ≡ (none, s')
      → i < length endpoints
      → (w : World) × ((ask endpoints i w).0 ≡ none)
  unfolding failover
  failover-none endpoints (w, s) s' i h l =
      let n = length endpoints in
      let m : s % n < n = mod-lt s (ground arith) in
      let (k, u, e) = around (s % n) i n m l in
      let (v, a) = loop_none endpoints (s % n) n 0 (w, s) s' h k (omega arith) (omega arith) in
      (v, ap (λ j. (ask endpoints j v).0) (sym e) ∙ a)

  -- If a read over the endpoints succeeds, then its answer and the world behind it are those of one
  -- endpoint, asked in some world, and that endpoint is the one that the next read asks first.
  pub failover_sticks :
      (endpoints : List (Transport x)) (s s' : World × ℕ) (v : Value)
      → failover x endpoints method params s ≡ (some v, s')
      → (w : World) × (ask endpoints (s'.1 % length endpoints) w ≡ (some v, s'.0))
  unfolding failover
  failover_sticks endpoints (w, s) s' v h =
      loop_some endpoints (s % length endpoints) (length endpoints) 0 (w, s) s' v refl h
