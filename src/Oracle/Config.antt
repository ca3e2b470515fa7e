-- ===== src/Oracle/Config.antt =====
-- src/keyex_oracle/config.rs: the configuration that is baked into the image, from the texts that the
-- build puts there. An address is what the parser of addresses takes; the errors are constructors in
-- place of texts. crates/pontifex-bridge/src/config.rs has the same readers.
pub mod Sound
mod Tests
use mathlib.Core.Option
use kaskad_nuntius.Prelude.{
  is_empty, ℕ, ◌+◌, Bool, true, false, not, List, [], ◌∷◌, ◌++◌, Option, none, some, Result, ok,
  err, ok_or, and_then, ltb, length, all, filter, map, ◌==◌, nat_eq, if◌then◌else◌,
}
use kaskad_nuntius.Policy.{Bytes}
use kaskad_nuntius.Claim.{is_zero_address}
use kaskad_nuntius.Chain.Wire.{Wire}
use kaskad_nuntius.Chain.Text.{ascii, or_else, split_on, starts_with, strip_0x}
use kaskad_nuntius.Oracle.Fields.{trim, u64_from_decimal}

-- The compile-time texts: `option_env!` of each name.
pub record BakedTexts : Type 0 where
  pub owners : Option Bytes
  pub threshold : Option Bytes
  pub registry : Option Bytes
  pub safe : Option Bytes
  pub rh_rpcs : Option Bytes
  pub chain_id : Option Bytes
  pub version : Option Bytes
  pub ancestors : Option Bytes
  pub peers : Option Bytes

pub record BakedOracleConfig : Type 0 where
  pub registry : Bytes
  pub rh_rpcs : List Bytes
  pub safe : Bytes
  pub owners : List Bytes
  pub threshold : ℕ
  pub chain_id : ℕ
  pub version : ℕ
  pub ancestors : List Bytes
  pub peers : List Bytes

pub data ConfigError : Type 0 where
  not_baked not_an_address zero_address not_a_u64 empty_list not_https : ConfigError
  non_hex_entry not_48_bytes zero_threshold threshold_exceeds_owners : ConfigError

-- `split(',').map(str::trim).filter(|s| !s.is_empty())`
unfoldable pub entries : Bytes → List Bytes
unfolding split_on
entries raw = filter (λ s. not (is_empty s)) (map trim (split_on b',' [] raw))

unfoldable pub baked_u64 : Option Bytes → Result ConfigError ℕ
baked_u64 v = and_then (ok_or v not_baked) (λ raw. ok_or (u64_from_decimal raw) not_a_u64)

abbrev pub is_https : Bytes → Bool
is_https url = starts_with (ascii "https://") url

-- The list is gathered whole before its endpoints are looked at.
unfoldable pub baked_rpcs : Option Bytes → Result ConfigError (List Bytes)
unfolding entries
baked_rpcs v = and_then (ok_or v not_baked) (λ raw.
    if is_empty (entries raw)
    then err empty_list
    else if all is_https (entries raw)
    then ok (entries raw)
    else err not_https)

unfoldable pub parse_endpoints : Option Bytes → List Bytes
unfolding entries
parse_endpoints (some s) = entries s
parse_endpoints none = []

module _ (x : Wire) where
  unfoldable pub baked_addr : Option Bytes → Result ConfigError Bytes
  baked_addr v =
      and_then (ok_or v not_baked) (λ raw. ok_or (x.address_from_text raw) not_an_address)

  unfoldable pub baked_addr_nonzero : Option Bytes → Result ConfigError Bytes
  unfolding baked_addr
  baked_addr_nonzero v =
      and_then (baked_addr v) (λ a. if is_zero_address a then err zero_address else ok a)

  -- The loop over the entries, with the addresses gathered so far.
  unfoldable pub addr_loop : List Bytes → List Bytes → Result ConfigError (List Bytes)
  addr_loop out [] = ok out
  addr_loop out (entry ∷ rest) = and_then (ok_or (x.address_from_text entry) not_an_address) (λ a.
      let gathered = addr_loop (out ++ (a ∷ [])) rest in
      if is_zero_address a then err zero_address else gathered)

  unfoldable pub baked_addr_list : Option Bytes → Result ConfigError (List Bytes)
  unfolding entries addr_loop
  baked_addr_list v = and_then (ok_or v not_baked) (λ raw.
      and_then (addr_loop [] (entries raw))
        (λ out. if is_empty out then err empty_list else ok out))

  unfoldable pub ancestor_loop : List Bytes → List Bytes → Result ConfigError (List Bytes)
  ancestor_loop out [] = ok out
  ancestor_loop out (entry ∷ rest) =
      and_then (ok_or (x.hex_decode (or_else (strip_0x entry) entry)) non_hex_entry) (λ bytes.
        let gathered = ancestor_loop (out ++ (bytes ∷ [])) rest in
        if length bytes == 48 then gathered else err not_48_bytes)

  unfoldable pub parse_ancestor_pcrs : Option Bytes → Result ConfigError (List Bytes)
  unfolding entries ancestor_loop
  parse_ancestor_pcrs (some raw) = ancestor_loop [] (entries raw)
  parse_ancestor_pcrs none = ok []

  -- The fields behind the owners and the threshold, in the order of the code.
  unfoldable pub resolve : BakedTexts → List Bytes → ℕ → Result ConfigError BakedOracleConfig
  unfolding baked_addr_nonzero baked_rpcs baked_u64 parse_ancestor_pcrs parse_endpoints
  resolve texts owners threshold = and_then (baked_addr_nonzero texts.registry) (λ registry.
      and_then (baked_addr_nonzero texts.safe) (λ safe.
        and_then (baked_rpcs texts.rh_rpcs) (λ rh_rpcs.
          and_then (baked_u64 texts.chain_id) (λ chain_id.
            and_then (baked_u64 texts.version) (λ version.
              and_then (parse_ancestor_pcrs texts.ancestors) (λ ancestors. ok (record {
                registry = registry;
                rh_rpcs = rh_rpcs;
                safe = safe;
                owners = owners;
                threshold = threshold;
                chain_id = chain_id;
                version = version;
                ancestors = ancestors;
                peers = parse_endpoints texts.peers;
              })))))))

  unfoldable pub from_baked : BakedTexts → Result ConfigError BakedOracleConfig
  unfolding baked_addr_list baked_u64 resolve
  from_baked texts = and_then (baked_addr_list texts.owners) (λ owners.
      and_then (baked_u64 texts.threshold) (λ threshold.
        if threshold == 0
        then err zero_threshold
        else if ltb (length owners) threshold
        then err threshold_exceeds_owners
        else resolve texts owners threshold))
