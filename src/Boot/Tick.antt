-- ===== src/Boot/Tick.antt =====
-- crates/keyex/src/boot.rs: one decision of the boot state machine.
use kaskad_nuntius.Prelude.{
  ℕ, Bool, true, false, List, [], ◌∷◌, Option, none, some, Act, ◌>>=◌, pure, ◌==◌, nat_eq,
  if◌then◌else◌,
}
use kaskad_nuntius.Policy.{Bytes}
use kaskad_nuntius.Chain.Wire.{Wire, Transport}
use kaskad_nuntius.Chain.Reads.{ChainError, Registry, FinalityPolicy, is_valid_signer, signer_count}

pub data Role : Type 0 where
  oracle bridge : Role

pub data BootAction : Type 0 where
  install_peer_key : Bytes → BootAction
  generate_candidate install_candidate wait : BootAction

-- `trait ChainView`
pub record ChainView (World : Type 0) : Type 0 where
  pub registered : Bytes → Act World ChainError Bool
  pub signer_count : Act World ChainError ℕ

-- `RpcChainView`: the view over a live transport, bound to one registry.
unfoldable pub rpc_chain_view :
    (x : Wire) → Transport x → Bytes → Registry → FinalityPolicy → ChainView x.World
rpc_chain_view x transport registry kind finality = record {
  registered = λ who. is_valid_signer x transport registry kind who finality;
  signer_count = signer_count x transport registry finality;
}

-- `struct Tick`
pub record TickInput : Type 0 where
  pub role : Role
  pub sweep : List Bytes
  pub fresh_approved : Bool
  pub candidate : Option Bytes

module _ {World : Type 0} (view : ChainView World) where
  -- The loop over the sweep: the first registered address, if there is one.
  unfoldable pub first_registered : List Bytes → Act World ChainError (Option Bytes)
  first_registered [] = pure none
  first_registered (addr ∷ rest) = do
    listed ← view.registered addr
    if listed then pure (some addr) else first_registered rest

  abbrev pub head_or_wait : List Bytes → BootAction
  head_or_wait [] = wait
  head_or_wait (addr ∷ rest) = install_peer_key addr

  -- `t.fresh_approved || view.signer_count().await?.is_zero()`: the count is read only if needed.
  unfoldable pub eligible : Bool → Act World ChainError Bool
  eligible true = pure true
  eligible false = do count ← view.signer_count; pure (count == 0)

  unfoldable pub oracle_rule : Bool → Option Bytes → Act World ChainError BootAction
  unfolding eligible
  oracle_rule fresh_approved (some candidate) = do
    listed ← view.registered candidate
    pure (if listed then install_candidate else wait)
  oracle_rule fresh_approved none = do
    may ← eligible fresh_approved
    pure (if may then generate_candidate else wait)

  unfoldable pub role_rule : Role → TickInput → Act World ChainError BootAction
  unfolding oracle_rule
  role_rule bridge t = pure (head_or_wait t.sweep)
  role_rule oracle t = oracle_rule t.fresh_approved t.candidate

  unfoldable pub decide : TickInput → Option Bytes → Act World ChainError BootAction
  unfolding role_rule
  decide t (some addr) = pure (install_peer_key addr)
  decide t none = role_rule t.role t

  unfoldable pub tick : TickInput → Act World ChainError BootAction
  unfolding decide first_registered
  tick t = do found ← first_registered t.sweep; decide t found
