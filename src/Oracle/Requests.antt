-- ===== src/Oracle/Requests.antt =====
-- What the requests of the control channel of src/keyex_oracle/control.rs leave as it is.
use kaskad_nuntius.Prelude.{
  ℕ, ◌≡◌, refl, List, Option, none, some, Result, ok, err, any, ◌==◌, arith, Bool-cases, inl, inr,
}
use kaskad_nuntius.Policy.{Bytes, VerifiedApproval}
use kaskad_nuntius.Crypto.{Crypto}
use kaskad_nuntius.Chain.Wire.{Wire}
use kaskad_nuntius.Oracle.Peers.{AddressText}
use kaskad_nuntius.Oracle.State.{OracleKeyexState, approval_eq, add_approval, set_peer_hints}
use kaskad_nuntius.Oracle.Fields.{Refusal}
use kaskad_nuntius.Oracle.Control.{
  ControlCtx, resolve_quorum, process_approval, recorded, approval_with, approval_reply,
}
use kaskad_nuntius.Oracle.Dispatch.{
  Hardware, OracleRequest, configure, approval, get_attestation, keyex_health, configure_reply,
  timed_approval, handle_oracle_request,
}

-- The boot progress and the key are the same in both states.
abbrev pub SameKey : OracleKeyexState → OracleKeyexState → Type 0
SameKey st st' =
    (st'.boot_state ≡ st.boot_state)
    × (st'.source ≡ st.source)
    × (st'.signer_addr ≡ st.signer_addr)
    × (st'.signer_pubkey ≡ st.signer_pubkey)
    × (st'.root_key ≡ st.root_key)

SameKey-refl : (st : OracleKeyexState) → SameKey st st
SameKey-refl st = (refl, refl, refl, refl, refl)

add_approval-SameKey :
    (st : OracleKeyexState) (va : VerifiedApproval) → SameKey st (add_approval st va)
unfolding add_approval
add_approval-SameKey st va = elim (Bool-cases (any (λ a. a == va) st.approvals)) [
  | inl e ↦ rw (e, add_approval) (SameKey-refl st)
  | inr e ↦ rw (e, add_approval) (refl, refl, refl, refl, refl)
]

module _ (c : Crypto) (x : Wire) (t : AddressText) (hw : Hardware x) (ctx : ControlCtx x) where
  open x use {World}

  recorded-SameKey :
      (st : OracleKeyexState) (r : Result Refusal VerifiedApproval)
      → SameKey st (recorded c x st r).1
  recorded-SameKey st (ok va) = add_approval-SameKey st va
  recorded-SameKey st (err e) = SameKey-refl st

  approval_with-SameKey :
      (st : OracleKeyexState) (td : x.Value) (sigs : List Bytes) (now : ℕ)
      (quorum : Result Refusal (List Bytes × ℕ))
      → SameKey st (approval_with c x ctx st td sigs now quorum).1
  approval_with-SameKey st td sigs now (err e) = SameKey-refl st
  approval_with-SameKey st td sigs now (ok (owners, threshold)) =
      recorded-SameKey st
        (process_approval c x td sigs ctx.chain_id owners threshold now ctx.pcr0 ctx.version)

  timed_approval-SameKey :
      (st : OracleKeyexState) (td : x.Value) (sigs : List Bytes) (read : Option ℕ × World)
      → SameKey st (timed_approval c x t hw ctx st td sigs read).1
  unfolding timed_approval approval_reply
  timed_approval-SameKey st td sigs (none, w) = SameKey-refl st
  timed_approval-SameKey st td sigs (some now, w) =
      approval_with-SameKey st td sigs now (resolve_quorum c x ctx w).0

  configure_reply-SameKey :
      (st : OracleKeyexState) (registry : Bytes) (peers : List Bytes)
      → SameKey st (configure_reply c x t hw ctx st registry peers).1
  unfolding configure_reply set_peer_hints
  configure_reply-SameKey st registry peers = ground arith

  -- No request of the control channel changes the boot progress, the source of the key, the signer or
  -- the root key.
  pub handle_oracle_request-SameKey :
      (req : OracleRequest x) (st : OracleKeyexState) (w : World)
      → SameKey st (handle_oracle_request c x t hw ctx req st w).1
  unfolding handle_oracle_request
  handle_oracle_request-SameKey (configure registry urls peers) st w =
      configure_reply-SameKey st registry peers
  handle_oracle_request-SameKey (approval td sigs) st w =
      timed_approval-SameKey st td sigs (hw.clock w)
  handle_oracle_request-SameKey (get_attestation asked) st w = SameKey-refl st
  handle_oracle_request-SameKey keyex_health st w = SameKey-refl st
