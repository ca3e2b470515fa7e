-- ===== src/Oracle/Approved.antt =====
-- What an approval rests on that the control channel of src/keyex_oracle/control.rs records.
use kaskad_nuntius.Prelude.{
  map_err-ok, and_then-ok, ℕ, ◌≤◌, ◌<◌, max, ◌≡◌, refl, ap, ◌∙◌, Bool, true, false, ◌&&◌, List,
  Option, none, some, Result, ok, err, map_err, and_then, contains, Distinct, nat_eq, list_eq,
  if◌then◌else◌,
}
use kaskad_nuntius.Policy.{Bytes, VerifiedApproval}
use kaskad_nuntius.Crypto.{Crypto}
use kaskad_nuntius.Approval.{
  ApprovalRequest, ApprovalError, from_request, effective_quorum, verify_approvals,
}
use kaskad_nuntius.Approval.Quorum.{effective_quorum_ok}
use kaskad_nuntius.Approval.Verify.{SignedQuorum, verify_approvals_iff}
use kaskad_nuntius.Chain.Wire.{Wire}
use kaskad_nuntius.Oracle.State.{OracleKeyexState, add_approval}
use kaskad_nuntius.Oracle.Fields.{Refusal, own_version_mismatch, not_approved}
use kaskad_nuntius.Oracle.Control.{
  ControlCtx, parse_approval_request, parse_signatures, names_other_build, verified,
  process_approval, narrowed, resolve_quorum, recorded, approval_with, approval_reply,
}

module _ (c : Crypto) (x : Wire) where
  open x use {Value, World}

  -- The facts behind an approval that is recorded.
  pub record Approved (ctx : ControlCtx x) (td : Value) (sigs : List Bytes) (now : ℕ) (w w' : World)
      (st st' : OracleKeyexState) : Type 0 where
    pub req : ApprovalRequest
    pub live_owners : List Bytes
    pub live_threshold : ℕ
    pub owners : List Bytes
    pub threshold : ℕ
    pub parsed : parse_approval_request x td ctx.chain_id ≡ ok req
    pub live : ctx.quorum w ≡ (some (live_owners, live_threshold), w')
    pub distinct : Distinct owners
    pub narrow : (a : Bytes) → contains owners a ≡ (contains ctx.owners a && contains live_owners a)
    pub raised : threshold ≡ max ctx.threshold live_threshold
    pub positive : 1 ≤ threshold
    pub in_time : now < req.expiry
    pub signed : SignedQuorum c req (parse_signatures x sigs) owners threshold
    pub same_build : names_other_build x req ctx.pcr0 ctx.version ≡ false
    pub kept : st' ≡ add_approval st (from_request req)

  accepted :
      (other : Bool) (r : Result ApprovalError (Unit {0})) (v va : VerifiedApproval)
      → ◌≡◌ {A = Result Refusal VerifiedApproval}
          (if other
            then err own_version_mismatch
            else and_then (map_err not_approved r) (λ _. ok v))
          (ok va)
      → (other ≡ false) × (r ≡ ok tt) × (va ≡ v)
  accepted true r v va h = cc
  accepted false (ok u) v va h = (refl, refl, cc)
  accepted false (err e) v va h = cc

  verified-ok :
      (req : ApprovalRequest) (sigs owners : List Bytes) (threshold now : ℕ) (own : Bytes)
      (version : ℕ) (va : VerifiedApproval)
      → verified c x req sigs owners threshold now own version ≡ ok va
      → (names_other_build x req own version ≡ false)
        × (verify_approvals c req (parse_signatures x sigs) owners threshold now ≡ ok tt)
        × (va ≡ from_request req)
  unfolding verified
  verified-ok req sigs owners threshold now own version va h =
      accepted (names_other_build x req own version)
        (verify_approvals c req (parse_signatures x sigs) owners threshold now) (from_request req)
        va h

  narrowed-ok :
      (ctx : ControlCtx x) (live : Option (List Bytes × ℕ)) (owners : List Bytes) (threshold : ℕ)
      → narrowed c x ctx live ≡ ok (owners, threshold)
      → (lo : List Bytes) × (lt : ℕ) × (live ≡ some (lo, lt))
        × (effective_quorum ctx.owners ctx.threshold lo lt ≡ ok (owners, threshold))
  unfolding narrowed
  narrowed-ok ctx none owners threshold h = cc
  narrowed-ok ctx (some (lo, lt)) owners threshold h = (lo, lt, refl, map_err-ok _ _ h)

  recorded-ok :
      (st st' : OracleKeyexState) (r : Result Refusal VerifiedApproval) {u : Unit {0}}
      → recorded c x st r ≡ (ok u, st')
      → (va : VerifiedApproval) × (r ≡ ok va) × (st' ≡ add_approval st va)
  recorded-ok st st' (ok va) h = (va, refl, cc)
  recorded-ok st st' (err e) h = cc

  approval_with-ok :
      (ctx : ControlCtx x) (td : Value) (sigs : List Bytes) (now : ℕ) (w w' : World)
      (st st' : OracleKeyexState) (live : Option (List Bytes × ℕ))
      (quorum : Result Refusal (List Bytes × ℕ)) {u : Unit {0}}
      → ctx.quorum w ≡ (live, w')
      → narrowed c x ctx live ≡ quorum
      → approval_with c x ctx st td sigs now quorum ≡ (ok u, st')
      → Approved ctx td sigs now w w' st st'
  unfolding process_approval
  approval_with-ok ctx td sigs now w w' st st' live (err e) q n h = cc
  approval_with-ok ctx td sigs now w w' st st' live (ok (owners, threshold)) q n h =
      let (va, p, kept) =
        recorded-ok st st'
          (process_approval c x td sigs ctx.chain_id owners threshold now ctx.pcr0 ctx.version) h in
      let (req, parsed, v) = and_then-ok (parse_approval_request x td ctx.chain_id) _ p in
      let (build, ok_sigs, made) =
        verified-ok req sigs owners threshold now ctx.pcr0 ctx.version va v in
      let (lo, lt, l, e) = narrowed-ok ctx live owners threshold n in
      let (distinct, narrow, raised, positive, _) =
        effective_quorum_ok ctx.owners lo owners ctx.threshold lt threshold e in
      let (in_time, _, _, signed) =
        (verify_approvals_iff c req (parse_signatures x sigs) owners threshold now).0 ok_sigs in
      record {
        req = req;
        live_owners = lo;
        live_threshold = lt;
        owners = owners;
        threshold = threshold;
        parsed = parsed;
        live = q ∙ ap (λ o. (o, w')) l;
        distinct = distinct;
        narrow = narrow;
        raised = raised;
        positive = positive;
        in_time = in_time;
        signed = signed;
        same_build = build;
        kept = kept ∙ ap (add_approval st) made;
      }

  -- If an approval request is accepted, then it was parsed; the live quorum was read just then; the owners
  -- are the baked ones that the read lists too, each once, and the threshold is the larger one and not
  -- zero; the clock is before the expiry; that many distinct owners signed the request; it does not name
  -- this image at another version; and the state has recorded exactly this approval.
  pub approval_reply-Approved :
      (ctx : ControlCtx x) (st st' : OracleKeyexState) (td : Value) (sigs : List Bytes) (now : ℕ)
      (w w' : World)
      → approval_reply c x ctx st td sigs now w ≡ (ok tt, st', w')
      → Approved ctx td sigs now w w' st st'
  unfolding approval_reply resolve_quorum
  approval_reply-Approved ctx st st' td sigs now w w' h =
      approval_with-ok ctx td sigs now w w' st st' (ctx.quorum w).0
        (narrowed c x ctx (ctx.quorum w).0) (ap (λ v. ((ctx.quorum w).0, v)) (ap (λ p. p.2) h)) refl
        (ap (λ p. (p.0, p.1)) h)
