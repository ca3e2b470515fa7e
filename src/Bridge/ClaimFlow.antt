-- ===== src/Bridge/ClaimFlow.antt =====
-- crates/pontifex-bridge/src/claimflow.rs: the money path, and the replies of crates/keyex/src/api.rs
-- that it makes. Every refusal is a coded reply.
use kaskad_nuntius.Prelude.{
  ℕ, List, [], ◌∷◌, ◌++◌, Result, ok, err, map_err, Act, ◌>>=◌, lift, pure,
}
use kaskad_nuntius.Policy.{Bytes}
use kaskad_nuntius.Crypto.{Crypto}
use kaskad_nuntius.Sig.{Signature65, SigError, address_from_key}
use kaskad_nuntius.Claim.{
  ClaimError, not_ready, ClaimRequest, sign_claim, check_claimable, compute_deadline,
}
use kaskad_nuntius.Chain.Wire.{Wire, Transport}
use kaskad_nuntius.Chain.Reads.{
  ChainError, claim_error_of, FinalityPolicy, head_minus, finalized_block, burned_finalized,
  ensure_not_decreasing,
}

-- `struct ClaimGrant` and `enum SignClaimResponse` of api.rs
pub record ClaimGrant : Type 0 where
  pub signature : Bytes
  pub cumulative_burned : Bytes
  pub deadline : ℕ
  pub signer : Bytes
  pub igra_block : ℕ

pub data SignClaimResponse : Type 0 where
  granted : ClaimGrant → SignClaimResponse
  refused : ClaimError → SignClaimResponse

pub record ClaimInputs : Type 0 where
  pub recipient : Bytes
  pub high_water : ℕ
  pub enclave_now : ℕ
  pub forbidden : List Bytes
  pub exit : Bytes
  pub entry : Bytes
  pub chain_id : ℕ
  pub igra_finality : FinalityPolicy

module _ (x : Wire) where
  -- `ClaimGrant::new`
  unfoldable pub new_grant : Signature65 → ℕ → ℕ → Bytes → ℕ → ClaimGrant
  new_grant signature cumulative_burned deadline signer igra_block = record {
    signature = x.hex_encode_prefixed (signature.rs ++ signature.v ∷ []);
    cumulative_burned = x.u256_to_text cumulative_burned;
    deadline = deadline;
    signer = x.address_to_string signer;
    igra_block = igra_block;
  }

  -- `Err(e) => return ClaimError::from(e).into()`
  unfoldable pub coded : {A : Type 0} → Act x.World ChainError A → Act x.World ClaimError A
  coded m w = let (r, w') = m w in (map_err claim_error_of r, w')

  unfoldable pub claim_error_of_signer : SigError → ClaimError
  claim_error_of_signer e = not_ready

  abbrev pub respond : Result ClaimError ClaimGrant × x.World → SignClaimResponse × x.World
  respond (ok g, w) = (granted g, w)
  respond (err e, w) = (refused e, w)

module _ (c : Crypto) (x : Wire) where
  abbrev pub request_of : ClaimInputs → ℕ → ℕ → ClaimRequest
  request_of inp burned deadline = record {
    recipient = inp.recipient;
    cumulative_burned = burned;
    deadline = deadline;
    chain_id = inp.chain_id;
    entry = inp.entry;
  }

  unfoldable pub grant_steps :
      c.SigningKey → Transport x → Transport x → ClaimInputs → Act x.World ClaimError ClaimGrant
  grant_steps key igra rh inp = do
    (burned, igra_block) ←
        coded x (burned_finalized x igra inp.exit inp.recipient inp.igra_finality)
    _ ← lift (map_err claim_error_of (ensure_not_decreasing burned inp.high_water))
    _ ← lift (check_claimable inp.recipient burned inp.forbidden)
    rh_block ← coded x (finalized_block x rh (head_minus 0))
    deadline ← lift (compute_deadline inp.enclave_now rh_block.timestamp)
    signature ←
        lift (map_err (claim_error_of_signer x) (sign_claim c key (request_of inp burned deadline)))
    pure (
        new_grant x signature burned deadline (address_from_key c (c.verifying_key key)) igra_block)

  unfoldable pub build_grant :
      c.SigningKey → Transport x → Transport x → ClaimInputs → x.World → SignClaimResponse × x.World
  unfolding grant_steps
  build_grant key igra rh inp w = respond x (grant_steps key igra rh inp w)
