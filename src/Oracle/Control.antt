-- ===== src/Oracle/Control.antt =====
-- src/keyex_oracle/control.rs: the approval requests of the control channel. Replies are the values that
-- the source serializes. The lock of the state is not modelled: a request has the state for itself.
use Prim.Native.String.{String}
use kaskad_nuntius.Prelude.{
  ℕ, Bool, false, not, ◌&&◌, List, [], ◌∷◌, Option, none, some, Result, ok, err, ok_or, map_err,
  and_then, take, drop, ◌==◌, nat_eq, list_eq, if◌then◌else◌,
}
use mathlib.Core.Option
use kaskad_nuntius.Policy.{
  Bytes, VerifiedApproval, role_of_u8, mode_of_u8, approval_version_matches_new_image,
}
use kaskad_nuntius.Crypto.{Crypto}
use kaskad_nuntius.Sig.{Signature65}
use kaskad_nuntius.Approval.{ApprovalRequest, from_request, effective_quorum, verify_approvals}
use kaskad_nuntius.Chain.Wire.{Wire}
use kaskad_nuntius.Chain.Text.{ascii}
use kaskad_nuntius.Chain.Quantity.{decode_hex}
use kaskad_nuntius.Oracle.State.{OracleKeyexState, add_approval}
use kaskad_nuntius.Oracle.Fields.{
  Refusal, no_domain, name_mismatch, version_mismatch, chain_mismatch, no_message, bad_mode,
  bad_role, own_version_mismatch, quorum_unread, quorum_refused, not_approved, trim,
  parse_u64_flexible, parse_u8_flexible, parse_hex_bytes,
}

-- `ControlCtx`, with the seam `LiveQuorum`; the state is passed on its own.
pub record ControlCtx (x : Wire) : Type 0 where
  pub pcr0 : Bytes
  pub version : ℕ
  pub owners : List Bytes
  pub threshold : ℕ
  pub quorum : x.World → Option (List Bytes × ℕ) × x.World
  pub chain_id : ℕ
  pub registry : Bytes

module _ (x : Wire) where
  open x use {Value, World}

  -- `domain.get(name).and_then(Value::as_str) != Some(text)`
  unfoldable pub text_is : Value → String → Bytes → Bool
  text_is v name text = elim (Option.bind (x.get v name) x.as_str) [
    | none ↦ false
    | some s ↦ s == text
  ]

  unfoldable pub check_domain : ℕ → Value → Result Refusal (Unit {0})
  check_domain expected_chain_id domain =
      if not (text_is domain "name" (ascii "Kaskad Keyex"))
      then err name_mismatch
      else if not (text_is domain "version" (ascii "1"))
      then err version_mismatch
      else and_then (parse_u64_flexible x (x.get domain "chainId"))
          (λ cid. if cid == expected_chain_id then ok tt else err chain_mismatch)

  unfoldable pub parse_message : ℕ → Value → Result Refusal ApprovalRequest
  parse_message expected_chain_id msg = and_then (parse_hex_bytes x 48 (x.get msg "pcr0")) (λ pcr0.
      and_then (parse_u64_flexible x (x.get msg "version")) (λ version.
        and_then (parse_u8_flexible x (x.get msg "mode")) (λ mode_u8.
          and_then (ok_or (mode_of_u8 mode_u8) bad_mode) (λ mode.
            and_then (parse_hex_bytes x 32 (x.get msg "label")) (λ label.
              and_then (parse_u8_flexible x (x.get msg "role")) (λ role_u8.
                and_then (ok_or (role_of_u8 role_u8) bad_role) (λ role.
                  and_then (parse_u64_flexible x (x.get msg "expiry")) (λ expiry.
                    and_then (parse_hex_bytes x 32 (x.get msg "nonce")) (λ nonce. ok (record {
                      pcr0 = pcr0;
                      version = version;
                      mode = mode;
                      label = label;
                      role = role;
                      expiry = expiry;
                      nonce = nonce;
                      chain_id = expected_chain_id;
                    }))))))))))

  unfoldable pub parse_approval_request : Value → ℕ → Result Refusal ApprovalRequest
  parse_approval_request td expected_chain_id =
      and_then (ok_or (x.get td "domain") no_domain) (λ domain.
        and_then (check_domain expected_chain_id domain)
          (λ _. and_then (ok_or (x.get td "message") no_message) (parse_message expected_chain_id)))

  -- A signature that is not 65 bytes of hex is dropped.
  unfoldable pub push_signature : Option Bytes → List Signature65 → List Signature65
  push_signature none rest = rest
  push_signature (some raw) rest = elim (drop 64 raw) [
    | [] ↦ rest
    | v ∷ more ↦ if more == [] then record { rs = take 64 raw; v = v } ∷ rest else rest
  ]

  unfoldable pub parse_signatures : List Bytes → List Signature65
  unfolding push_signature
  parse_signatures [] = []
  parse_signatures (s ∷ l) = push_signature (decode_hex x (trim s)) (parse_signatures l)

  -- `req.pcr0 == own_pcr0 && !approval_version_matches_new_image(..)`
  abbrev pub names_other_build : ApprovalRequest → Bytes → ℕ → Bool
  names_other_build req own_pcr0 own_version =
      req.pcr0 == own_pcr0 && not (approval_version_matches_new_image req.version own_version)

module _ (c : Crypto) (x : Wire) where
  open x use {Value, World}

  unfoldable pub verified :
      ApprovalRequest
      → List Bytes
      → List Bytes
      → ℕ
      → ℕ
      → Bytes
      → ℕ
      → Result Refusal VerifiedApproval
  verified req sigs_hex owners threshold now own_pcr0 own_version =
      if names_other_build x req own_pcr0 own_version
      then err own_version_mismatch
      else and_then
          (map_err not_approved
            (verify_approvals c req (parse_signatures x sigs_hex) owners threshold now))
          (λ _. ok (from_request req))

  unfoldable pub process_approval :
      Value → List Bytes → ℕ → List Bytes → ℕ → ℕ → Bytes → ℕ → Result Refusal VerifiedApproval
  process_approval td sigs_hex expected_chain_id owners threshold now own_pcr0 own_version =
      and_then (parse_approval_request x td expected_chain_id)
        (λ req. verified req sigs_hex owners threshold now own_pcr0 own_version)

  -- The live read, which no baked quorum replaces when it fails.
  unfoldable pub narrowed : ControlCtx x → Option (List Bytes × ℕ) → Result Refusal (List Bytes × ℕ)
  narrowed ctx none = err quorum_unread
  narrowed ctx (some (live_owners, live_threshold)) =
      map_err quorum_refused (effective_quorum ctx.owners ctx.threshold live_owners live_threshold)

  unfoldable pub resolve_quorum : ControlCtx x → World → Result Refusal (List Bytes × ℕ) × World
  resolve_quorum ctx w = let (live, w') = ctx.quorum w in (narrowed ctx live, w')

  abbrev pub recorded :
      OracleKeyexState
      → Result Refusal VerifiedApproval
      → Result Refusal (Unit {0}) × OracleKeyexState
  recorded st (ok va) = (ok tt, add_approval st va)
  recorded st (err reason) = (err reason, st)

  abbrev pub approval_with :
      ControlCtx x
      → OracleKeyexState
      → Value
      → List Bytes
      → ℕ
      → Result Refusal (List Bytes × ℕ)
      → Result Refusal (Unit {0}) × OracleKeyexState
  approval_with ctx st td sigs now (err reason) = (err reason, st)
  approval_with ctx st td sigs now (ok (owners, threshold)) =
      recorded st (process_approval td sigs ctx.chain_id owners threshold now ctx.pcr0 ctx.version)

  -- `ok` is `accepted: true`; a refusal has its reason, and leaves the state.
  unfoldable pub approval_reply :
      ControlCtx x
      → OracleKeyexState
      → Value
      → List Bytes
      → ℕ
      → World
      → Result Refusal (Unit {0}) × OracleKeyexState × World
  approval_reply ctx st td sigs now w =
      let (quorum, w') = resolve_quorum ctx w in
      let (reply, st') = approval_with ctx st td sigs now quorum in (reply, st', w')
