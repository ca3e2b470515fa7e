-- ===== src/Claim.antt =====
-- crates/keyex/src/claim.rs: the claim that the bridge signs. Integers of the source are numbers with
-- their wrap-around written out; `Address` and `B256` are byte strings, `U256` a number.
pub mod Rules
mod Tests
use kaskad_nuntius.Prelude.{
  ℕ, ◌+◌, ◌-◌, ◌%◌, ◌^◌, min, Bool, true, false, ◌||◌, List, some, none, Result, ok, err, ltb,
  contains, all, ◌==◌, nat_eq, list_eq, if◌then◌else◌,
}
use kaskad_nuntius.Policy.{Bytes}
use kaskad_nuntius.Crypto.{Crypto, Domain}
use kaskad_nuntius.Sig.{Signature65, SigError, sign_recoverable}

pub record ClaimRequest : Type 0 where
  pub recipient : Bytes
  pub cumulative_burned : ℕ
  pub deadline : ℕ
  pub chain_id : ℕ
  pub entry : Bytes

pub data ClaimError : Type 0 where
  not_ready recipient_forbidden nothing_burned read_mismatch : ClaimError
  decreasing_burned rpc_error clock_skew : ClaimError

abbrev pub claim_ttl_secs : ℕ
claim_ttl_secs = 3600

abbrev pub max_clock_skew_secs : ℕ
max_clock_skew_secs = 600

unfoldable pub domain : ℕ → Bytes → Domain
domain chain_id entry = record {
  name = some "Pontifex";
  version = some "1";
  chain_id = some chain_id;
  verifying_contract = some entry;
  salt = none;
}

unfoldable pub claim_digest : Crypto → ClaimRequest → Bytes
unfolding domain
claim_digest c req =
    c.claim_signing_hash
      (record {
        recipient = req.recipient;
        cumulative_burned = req.cumulative_burned;
        deadline = req.deadline;
      })
      (domain req.chain_id req.entry)

module _ (c : Crypto) where
  open c use {SigningKey}

  unfoldable pub sign_claim : SigningKey → ClaimRequest → Result SigError Signature65
  sign_claim key req = sign_recoverable c key (claim_digest c req)

-- `Address::is_zero`
unfoldable pub is_zero_address : Bytes → Bool
is_zero_address a = all (λ b. b == 0) a

unfoldable pub check_claimable : Bytes → ℕ → List Bytes → Result ClaimError (Unit {0})
check_claimable recipient cumulative_burned forbidden =
    if is_zero_address recipient || contains forbidden recipient
    then err recipient_forbidden
    else if cumulative_burned == 0
    then err nothing_burned
    else ok tt

-- `u64::abs_diff`
abbrev pub abs_diff : ℕ → ℕ → ℕ
abs_diff a b = if ltb a b then b - a else a - b

-- The sum wraps at 2^64, as u64 does in a release build.
unfoldable pub compute_deadline : ℕ → ℕ → Result ClaimError ℕ
compute_deadline enclave_now rh_block_ts =
    if ltb max_clock_skew_secs (abs_diff enclave_now rh_block_ts)
    then err clock_skew
    else ok ((min enclave_now rh_block_ts + claim_ttl_secs) % 2 ^ 64)
