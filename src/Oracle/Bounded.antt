-- ===== src/Oracle/Bounded.antt =====
-- What holds of the peers and the approvals of src/keyex_oracle/state.rs.
use kaskad_nuntius.Prelude.{
  ◌+◌, ◌≤◌, ◌<◌, ◌≡◌, refl, sym, ap, ◌∙◌, inl, inr, false, ◌||◌, List, [], ◌∷◌, ◌++◌, Option, none,
  some, any, length, contains, contains-snoc, Distinct, Distinct-snoc, All, Any, All-map, All-snoc,
  ◌==◌, eq_iff, nat_eq, list_eq, arith, Bool-cases, Option-cases, length-append,
}
use mathlib.Core.List.{append_assoc, append-nil}
use kaskad_nuntius.Policy.{Bytes, VerifiedApproval}
use kaskad_nuntius.Oracle.Peers.{
  AddressText, max_boot_peers, normalize_peer, push_peer, bounded_loop, bounded_peers,
}
use kaskad_nuntius.Oracle.State.{
  OracleKeyexState, approval_eq, add_approval, set_peer_hints, peer_snapshot,
}

All-here : (l : List Bytes) → All (λ e. Any (λ f. f ≡ e) l) l
All-here [] = tt
All-here (a ∷ l) = (inl refl, All-map _ _ l (λ e h. inr h) (All-here l))

Any-map : (P Q : Bytes → Type 0) (l : List Bytes) → ((a : Bytes) → P a → Q a) → Any P l → Any Q l
Any-map P Q [] f h = h
Any-map P Q (x ∷ l) f (inl h) = inl (f x h)
Any-map P Q (x ∷ l) f (inr h) = inr (Any-map P Q l f h)

module _ (t : AddressText) where
  -- A push adds one peer that is not there yet, the normal form of the endpoint.
  push_peer-some :
      (out next : List Bytes) (o : Option Bytes)
      → push_peer t out o ≡ some next
      → (p : Bytes) × (o ≡ some p) × (contains out p ≡ false) × (next ≡ out ++ p ∷ [])
  unfolding push_peer
  push_peer-some out next none h = cc
  push_peer-some out next (some p) h = (p, refl, ground arith, ground arith)

  abbrev Bounded : List Bytes → Type 0
  Bounded l = Distinct l × (length l ≤ 16)

  bounded_loop-Bounded :
      (out peers : List Bytes) → Distinct out → length out < 16 → Bounded (bounded_loop t out peers)
  unfolding bounded_loop
  bounded_loop-Bounded out [] d h = (d, omega arith)
  bounded_loop-Bounded out (e ∷ peers) d h =
      elim (Option-cases (push_peer t out (normalize_peer t e))) [
        | inl q ↦ rw (q, bounded_loop) (bounded_loop-Bounded out peers d h)
        | inr (next, q) ↦
            (let (p, _, c, z) = push_peer-some out next (normalize_peer t e) q in
              let d' : Distinct next = rw z (Distinct-snoc out p c d) in
              let n : length next ≡ length out + 1 = ap length z ∙ length-append out (p ∷ []) in
              elim (Bool-cases (length next == max_boot_peers)) [
                | inl f ↦ rw (q, f, bounded_loop) (d', ground (arith, eq_iff (length next) 16))
                | inr f ↦
                    rw (q, f, bounded_loop)
                      (bounded_loop-Bounded next peers d' (ground (arith, eq_iff (length next) 16)))
              ])
      ]

  bounded_loop-All :
      (Good : Bytes → Type 0) (out peers : List Bytes)
      → All Good out
      → All (λ e. (p : Bytes) → normalize_peer t e ≡ some p → Good p) peers
      → All Good (bounded_loop t out peers)
  unfolding bounded_loop
  bounded_loop-All Good out [] g h = g
  bounded_loop-All Good out (e ∷ peers) g h =
      elim (Option-cases (push_peer t out (normalize_peer t e))) [
        | inl q ↦ rw (q, bounded_loop) (bounded_loop-All Good out peers g h.1)
        | inr (next, q) ↦
            (let (p, w, _, z) = push_peer-some out next (normalize_peer t e) q in
              let g' : All _ next = rw z (All-snoc _ out p g (h.0 p w)) in
              elim (Bool-cases (length next == max_boot_peers)) [
                | inl f ↦ rw (q, f, bounded_loop) g'
                | inr f ↦ rw (q, f, bounded_loop) (bounded_loop-All Good next peers g' h.1)
              ])
      ]

  -- What the loop has pushed stays in front.
  bounded_loop-keeps :
      (out peers : List Bytes) → (more : List Bytes) × (bounded_loop t out peers ≡ out ++ more)
  unfolding bounded_loop
  bounded_loop-keeps out [] = ([], sym (append-nil out))
  bounded_loop-keeps out (e ∷ peers) = elim (Option-cases (push_peer t out (normalize_peer t e))) [
    | inl q ↦ (let (more, r) = bounded_loop-keeps out peers in (more, rw (q, bounded_loop) r))
    | inr (next, q) ↦
        (let (p, _, _, z) = push_peer-some out next (normalize_peer t e) q in
          elim (Bool-cases (length next == max_boot_peers)) [
            | inl f ↦ (p ∷ [], rw (q, f, bounded_loop) z)
            | inr f ↦
                (let (more, r) = bounded_loop-keeps next peers in
                  (
                    p ∷ more,
                    rw (q, f, bounded_loop)
                        (r ∙ ap (λ l. l ++ more) z ∙ append_assoc out (p ∷ []) more),
                  ))
          ])
  ]

  bounded_loop-append :
      (out peers hints : List Bytes)
      → (more : List Bytes) × (bounded_loop t out (peers ++ hints)
          ≡ bounded_loop t out peers ++ more)
  unfolding bounded_loop
  bounded_loop-append out [] hints = bounded_loop-keeps out hints
  bounded_loop-append out (e ∷ peers) hints =
      elim (Option-cases (push_peer t out (normalize_peer t e))) [
        | inl q ↦
            (let (more, r) = bounded_loop-append out peers hints in (more, rw (q, bounded_loop) r))
        | inr (next, q) ↦ elim (Bool-cases (length next == max_boot_peers)) [
          | inl f ↦ ([], rw (q, f, bounded_loop) (sym (append-nil next)))
          | inr f ↦
              (let (more, r) = bounded_loop-append next peers hints in
                (more, rw (q, f, bounded_loop) r))
        ]
      ]

  -- The hints that are stored are at most sixteen, each once, and each the normal form of an endpoint
  -- that was given.
  pub set_peer_hints_bounded :
      (st : OracleKeyexState) (given : List Bytes)
      → let kept = (set_peer_hints t st given).oracle_peers in
        Distinct kept
        × (length kept ≤ 16)
        × All (λ p. Any (λ e. normalize_peer t e ≡ some p) given) kept
  unfolding set_peer_hints bounded_peers
  set_peer_hints_bounded st given =
      let (d, n) = bounded_loop-Bounded [] given tt (omega arith) in
      (
        d,
        n,
        bounded_loop-All (λ p. Any (λ e. normalize_peer t e ≡ some p) given) [] given tt
            (All-map _ _ given (λ e h p w. Any-map _ _ given (λ f q. ap (normalize_peer t) q ∙ w) h)
              (All-here given)),
      )

  -- The peers to boot from begin with all that the baked peers alone would give: hints of the host come
  -- behind them.
  pub peer_snapshot_baked_first :
      (st : OracleKeyexState) (baked : List Bytes)
      → (more : List Bytes) × (peer_snapshot t st baked ≡ bounded_peers t baked ++ more)
  unfolding peer_snapshot bounded_peers
  peer_snapshot_baked_first st baked = bounded_loop-append [] baked st.oracle_peers

any-eq-contains :
    (l : List VerifiedApproval) (a : VerifiedApproval) → any (λ b. b == a) l ≡ contains l a
unfolding contains
any-eq-contains [] a = refl
any-eq-contains (b ∷ l) a = ground (arith, eq_iff b a, eq_iff a b, any-eq-contains l a)

-- Recording an approval keeps the list free of duplicates, if it is, and adds this approval alone.
pub add_approval_records :
    (st : OracleKeyexState) (va : VerifiedApproval)
    → Distinct st.approvals
    → Distinct (add_approval st va).approvals
      × ((a : VerifiedApproval)
          → contains (add_approval st va).approvals a ≡ (contains st.approvals a || a == va))
unfolding add_approval
add_approval_records st va d = elim (Bool-cases (any (λ a. a == va) st.approvals)) [
  | inl e ↦
      rw (e, add_approval) (d, λ a. ground (arith, eq_iff a va, any-eq-contains st.approvals va))
  | inr e ↦
      rw (e, add_approval)
        (
          Distinct-snoc st.approvals va (sym (any-eq-contains st.approvals va) ∙ e) d,
          λ a. contains-snoc st.approvals va a,
        )
]
