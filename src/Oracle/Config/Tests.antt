-- ===== src/Oracle/Config/Tests.antt =====
-- A configuration of src/keyex_oracle/config.rs that is read from its texts.
use kaskad_nuntius.Prelude.{ok, ◌≡◌, refl, [], ◌∷◌, none, some, nat_eq, list_eq}
use kaskad_nuntius.Samples.{toy_wire}
use kaskad_nuntius.Oracle.State.{approval_eq}
use kaskad_nuntius.Claim.{is_zero_address}
use kaskad_nuntius.Chain.Text.{starts_with, ascii}
use kaskad_nuntius.Oracle.Config.{BakedTexts, BakedOracleConfig, from_baked}
use kaskad_nuntius.Oracle.Config.Sound.{IsSound, from_baked-IsSound}
use kaskad_nuntius.Oracle.Fields.{trim, u64_from_decimal}

abbrev texts : BakedTexts
texts = record {
  owners = some (ascii "ab, cd");
  threshold = some (ascii "2");
  registry = some (ascii "r");
  safe = some (ascii "s");
  rh_rpcs = some (ascii " https://a ,,https://b");
  chain_id = some (ascii "4663");
  version = some (ascii "7");
  ancestors = none;
  peers = some (ascii "p:1,");
}

abbrev baked : BakedOracleConfig
baked = record {
  registry = ascii "r";
  rh_rpcs = ascii "https://a" ∷ ascii "https://b" ∷ [];
  safe = ascii "s";
  owners = ascii "ab" ∷ ascii "cd" ∷ [];
  threshold = 2;
  chain_id = 4663;
  version = 7;
  ancestors = [];
  peers = ascii "p:1" ∷ [];
}

baked_run : from_baked toy_wire texts ≡ ok baked
unfolding from_baked trim u64_from_decimal starts_with is_zero_address
baked_run = refl

from_baked-IsSound_example : IsSound baked
from_baked-IsSound_example = from_baked-IsSound toy_wire texts baked baked_run
