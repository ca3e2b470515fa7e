-- ===== src/Bridge/Config.antt =====
-- crates/pontifex-bridge/src/config.rs: what is baked into the image, and one resolved configuration.
use kaskad_nuntius.Prelude.{ℕ, List, [], ◌∷◌, Option, Result, ok, and_then}
use kaskad_nuntius.Policy.{Bytes}
use kaskad_nuntius.Chain.Wire.{Wire}
use kaskad_nuntius.Oracle.Config.{
  ConfigError, baked_addr, baked_addr_nonzero, baked_u64, baked_rpcs, parse_ancestor_pcrs,
}
use kaskad_nuntius.Chain.Reads.{FinalityPolicy, finalized_with_depth}

abbrev pub igra_finality : FinalityPolicy
igra_finality = finalized_with_depth 800

pub record BakedIdentity : Type 0 where
  pub exit : Bytes
  pub kskd : Bytes
  pub entry : Bytes
  pub chain_id : ℕ

pub record BridgeConfig : Type 0 where
  pub exit : Bytes
  pub kskd : Bytes
  pub entry : Bytes
  pub chain_id : ℕ
  pub rh_rpcs : List Bytes
  pub oracle_peers : List Bytes

unfoldable pub from_parts : BakedIdentity → List Bytes → List Bytes → BridgeConfig
from_parts baked rh_rpcs oracle_peers = record {
  exit = baked.exit;
  kskd = baked.kskd;
  entry = baked.entry;
  chain_id = baked.chain_id;
  rh_rpcs = rh_rpcs;
  oracle_peers = oracle_peers;
}

unfoldable pub forbidden : BridgeConfig → List Bytes
forbidden c = c.exit ∷ c.kskd ∷ []

-- The compile-time texts of the image; their readers are those of the oracle, word for word.
pub record BridgeTexts : Type 0 where
  pub exit : Option Bytes
  pub kskd : Option Bytes
  pub entry : Option Bytes
  pub chain_id : Option Bytes
  pub igra_rpcs : Option Bytes
  pub ancestor_pcrs : Option Bytes

module _ (x : Wire) (texts : BridgeTexts) where
  unfoldable pub identity_from_baked : Result ConfigError BakedIdentity
  unfolding baked_addr baked_addr_nonzero baked_u64
  identity_from_baked = and_then (baked_addr x texts.exit) (λ exit.
      and_then (baked_addr x texts.kskd) (λ kskd.
        and_then (baked_addr_nonzero x texts.entry) (λ entry.
          and_then (baked_u64 texts.chain_id) (λ chain_id.
            ok (record { exit = exit; kskd = kskd; entry = entry; chain_id = chain_id })))))

  unfoldable pub baked_igra_rpcs : Result ConfigError (List Bytes)
  unfolding baked_rpcs
  baked_igra_rpcs = baked_rpcs texts.igra_rpcs

  unfoldable pub baked_ancestor_pcrs : Result ConfigError (List Bytes)
  unfolding parse_ancestor_pcrs
  baked_ancestor_pcrs = parse_ancestor_pcrs x texts.ancestor_pcrs
