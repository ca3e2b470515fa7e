-- ===== src/Bridge/State.antt =====
-- crates/pontifex-bridge/src/state.rs: the state of a running bridge. The map of totals already signed
-- is a list of pairs, in which the first entry of a recipient counts.
use kaskad_nuntius.Prelude.{
  ℕ, Bool, true, false, List, [], ◌∷◌, Option, none, some, ltb, ◌==◌, nat_eq, list_eq,
  if◌then◌else◌,
}
use mathlib.Core.Option
use kaskad_nuntius.Policy.{Bytes}
use kaskad_nuntius.Crypto.{Crypto}
use kaskad_nuntius.Bridge.Config.{BridgeConfig}

-- `BootState` of crates/keyex/src/api.rs
pub data BootState : Type 0 where
  ready fetching waiting_registration : BootState

-- HashMap::get, and HashMap::insert on a key that may be there.
unfoldable pub lookup : Bytes → List (Bytes × ℕ) → Option ℕ
lookup recipient [] = none
lookup recipient ((other, total) ∷ rest) =
    if other == recipient then some total else lookup recipient rest

unfoldable pub insert : Bytes → ℕ → List (Bytes × ℕ) → List (Bytes × ℕ)
insert recipient new [] = (recipient, new) ∷ []
insert recipient new ((other, total) ∷ rest) =
    if other == recipient
    then (recipient, new) ∷ rest
    else (other, total) ∷ insert recipient new rest

pub record BridgeState (Key : Type 0) : Type 0 where
  pub boot : BootState
  pub key : Option Key
  pub signer : Option Bytes
  pub pcr0 : Bytes
  pub version : ℕ
  pub config : Option BridgeConfig
  pub last_signed : List (Bytes × ℕ)

abbrev or_zero : Option ℕ → ℕ
or_zero none = 0
or_zero (some n) = n

-- `self.key.is_some()`
abbrev pub is_some {ℓ} : {A : Type ℓ} → Option A → Bool
is_some none = false
is_some (some a) = true

module _ {Key : Type 0} where
  unfoldable pub new_state : Bytes → ℕ → BridgeState Key
  new_state pcr0 version = record {
    boot = fetching;
    key = none;
    signer = none;
    pcr0 = pcr0;
    version = version;
    config = none;
    last_signed = [];
  }

  unfoldable pub install_key : BridgeState Key → Key → Bytes → BridgeState Key
  install_key st key signer =
      if is_some st.key
      then st
      else record st { key = some key; signer = some signer; boot = ready }

  unfoldable pub set_config : BridgeState Key → BridgeConfig → BridgeState Key
  set_config st config = record st { config = some config }

  unfoldable pub high_water : BridgeState Key → Bytes → ℕ
  high_water st recipient = or_zero (lookup recipient st.last_signed)

  -- The entry is made at zero if there is none, and raised if the new total is larger.
  unfoldable pub record_signed : BridgeState Key → Bytes → ℕ → BridgeState Key
  record_signed st recipient cumulative_burned =
      let mark = or_zero (lookup recipient st.last_signed) in
      record st {
        last_signed =
            insert recipient (if ltb mark cumulative_burned then cumulative_burned else mark)
              st.last_signed;
      }

unfoldable pub signer_pubkey : (c : Crypto) → BridgeState c.SigningKey → Option Bytes
signer_pubkey c st = Option.map (λ k. c.encoded_point (c.verifying_key k)) st.key
