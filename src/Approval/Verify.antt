-- ===== src/Approval/Verify.antt =====
-- `verify_approvals` of crates/keyex/src/approval.rs: it accepts exactly a live quorum of owners.
use kaskad_nuntius.Prelude.{
  ℕ, ◌≤◌, ◌<◌, ◌≡◌, ◌⊎◌, ◌↔◌, true, List, [], ◌∷◌, Result, ok, err, length, contains, contains-snoc,
  Distinct, Distinct-snoc, length-Distinct-le, All, Any, All-of_contains, All-map, eq_iff, nat_eq,
  list_eq, arith, inr,
}
use kaskad_nuntius.Policy.{Bytes}
use kaskad_nuntius.Crypto.{Crypto}
use kaskad_nuntius.Sig.{Signature65, SigError, recover}
use kaskad_nuntius.Approval.{
  ApprovalRequest, approval_digest, count_signer, distinct_signers, verify_approvals,
}

module _ (c : Crypto) where
  -- One of the signatures recovers to `a` over the digest.
  abbrev pub Signed : Bytes → List Signature65 → Bytes → Type 0
  Signed digest sigs a = Any (λ s. recover c digest s ≡ ok a) sigs

  -- What the loop keeps: each once, owners, and only those already there or signed for.
  count_signer-Distinct :
      (owners acc : List Bytes) (r : Result SigError Bytes)
      → Distinct acc
      → Distinct (count_signer owners acc r)
  unfolding count_signer
  count_signer-Distinct owners acc (ok a) d = ground (arith, Distinct-snoc acc a)
  count_signer-Distinct owners acc (err e) d = d

  contains-count_signer :
      (owners acc : List Bytes) (r : Result SigError Bytes) (b : Bytes)
      → (contains (count_signer owners acc r) b ≡ true)
        ↔ ((contains acc b ≡ true) ⊎ ((contains owners b ≡ true) × (r ≡ ok b)))
  unfolding count_signer
  contains-count_signer owners acc (err e) b = ground arith
  contains-count_signer owners acc (ok a) b = ground (arith, contains-snoc acc a b, eq_iff b a)

  distinct_signers-Distinct :
      (digest : Bytes) (owners acc : List Bytes) (sigs : List Signature65)
      → Distinct acc
      → Distinct (distinct_signers c digest owners acc sigs)
  unfolding distinct_signers
  distinct_signers-Distinct digest owners acc [] d = d
  distinct_signers-Distinct digest owners acc (s ∷ sigs) d =
      distinct_signers-Distinct digest owners (count_signer owners acc (recover c digest s)) sigs
        (count_signer-Distinct owners acc (recover c digest s) d)

  contains-distinct_signers :
      (digest : Bytes) (owners acc : List Bytes) (sigs : List Signature65) (b : Bytes)
      → (contains (distinct_signers c digest owners acc sigs) b ≡ true)
        ↔ ((contains acc b ≡ true) ⊎ ((contains owners b ≡ true) × Signed digest sigs b))
  unfolding distinct_signers
  contains-distinct_signers digest owners acc [] b = ground arith
  contains-distinct_signers digest owners acc (s ∷ sigs) b = ground (
    arith,
    contains-distinct_signers digest owners (count_signer owners acc (recover c digest s)) sigs b,
    contains-count_signer owners acc (recover c digest s) b,
  )

  -- Distinct owners, each with a signature over the digest of the request, at least `threshold` many.
  abbrev pub SignedQuorum : ApprovalRequest → List Signature65 → List Bytes → ℕ → Type 0
  SignedQuorum req sigs owners threshold =
      (signers : List Bytes) × Distinct signers
      × All (λ a. (contains owners a ≡ true) × Signed (approval_digest c req) sigs a) signers
      × (threshold ≤ length signers)

  abbrev counted : ApprovalRequest → List Signature65 → List Bytes → List Bytes
  counted req sigs owners = distinct_signers c (approval_digest c req) owners [] sigs

  counted-SignedQuorum :
      (req : ApprovalRequest) (sigs : List Signature65) (owners : List Bytes) (threshold : ℕ)
      → threshold ≤ length (counted req sigs owners)
      → SignedQuorum req sigs owners threshold
  unfolding contains
  counted-SignedQuorum req sigs owners threshold h =
      let digest = approval_digest c req in
      (
        counted req sigs owners,
        distinct_signers-Distinct digest owners [] sigs tt,
        All-of_contains _ (counted req sigs owners)
            (λ a q. ground (arith, contains-distinct_signers digest owners [] sigs a)),
        h,
      )

  SignedQuorum-counted :
      (req : ApprovalRequest) (sigs : List Signature65) (owners : List Bytes) (threshold : ℕ)
      → SignedQuorum req sigs owners threshold
      → threshold ≤ length (counted req sigs owners)
  SignedQuorum-counted req sigs owners threshold (signers, distinct, signed, enough) =
      let digest = approval_digest c req in
      omega (
        arith,
        length-Distinct-le signers (counted req sigs owners) distinct (
            All-map _ _ signers
              (λ a q. (contains-distinct_signers digest owners [] sigs a).1 (inr q)) signed),
      )

  -- An approval is accepted exactly when the clock is before its expiry, the threshold is not zero and
  -- not above the number of owners, and at least `threshold` distinct owners each have a listed
  -- signature that recovers to them over the request's digest.
  pub verify_approvals_iff :
      (req : ApprovalRequest) (sigs : List Signature65) (owners : List Bytes) (threshold now : ℕ)
      → (verify_approvals c req sigs owners threshold now ≡ ok tt) ↔ (
          (now < req.expiry)
          × (1 ≤ threshold)
          × (threshold ≤ length owners)
          × SignedQuorum req sigs owners threshold)
  unfolding verify_approvals
  verify_approvals_iff req sigs owners threshold now = (
    λ h. (
      ground arith,
      ground arith,
      ground arith,
      counted-SignedQuorum req sigs owners threshold (ground arith),
    ),
    λ h. ground (arith, SignedQuorum-counted req sigs owners threshold h.3),
  )
