-- ===== src/Oracle/Config/Sound.antt =====
-- What a configuration that src/keyex_oracle/config.rs accepts holds, whatever the build put into the
-- image.
use kaskad_nuntius.Prelude.{
  is_empty, subst, ℕ, ◌≤◌, ◌≡◌, refl, Bool, true, false, not, List, [], ◌∷◌, ◌++◌, Option, none,
  some, ok, ok_or, and_then-ok, guarded-ok, ok-inj, ltb, length, all, ◌==◌, nat_eq, arith,
}
use kaskad_nuntius.Policy.{Bytes}
use kaskad_nuntius.Claim.{is_zero_address}
use kaskad_nuntius.Chain.Wire.{Wire}
use kaskad_nuntius.Chain.Text.{or_else, strip_0x}
use kaskad_nuntius.Oracle.Config.{
  BakedTexts, BakedOracleConfig, entries, is_https, baked_u64, baked_rpcs, baked_addr,
  baked_addr_nonzero, addr_loop, baked_addr_list, ancestor_loop, parse_ancestor_pcrs, resolve,
  from_baked,
}

abbrev pub is_contract : Bytes → Bool
is_contract a = not (is_zero_address a)

abbrev pub is_measurement : Bytes → Bool
is_measurement pcr = length pcr == 48

-- The threshold is from one to the number of listed owners, the contracts and owners are real addresses, the endpoints cannot be forged by
-- the proxy, and the ancestors are measurements.
pub record IsSound (cfg : BakedOracleConfig) : Type 0 where
  pub quorum : (1 ≤ cfg.threshold) × (cfg.threshold ≤ length cfg.owners)
  pub owners : all is_contract cfg.owners ≡ true
  pub registry : is_contract cfg.registry ≡ true
  pub safe : is_contract cfg.safe ≡ true
  pub endpoints : (is_empty cfg.rh_rpcs ≡ false) × (all is_https cfg.rh_rpcs ≡ true)
  pub ancestors : all is_measurement cfg.ancestors ≡ true

all-append_last :
    (p : Bytes → Bool) (xs : List Bytes) (a : Bytes)
    → all p xs ≡ true
    → p a ≡ true
    → all p (xs ++ (a ∷ [])) ≡ true
all-append_last p [] a h k = ground (arith, k)
all-append_last p (x ∷ xs) a h k = ground (arith, all-append_last p xs a)

baked_rpcs-ok :
    (v : Option Bytes) (urls : List Bytes)
    → baked_rpcs v ≡ ok urls
    → (is_empty urls ≡ false) × (all is_https urls ≡ true)
unfolding baked_rpcs
baked_rpcs-ok v urls h = let (raw, p, h₁) = and_then-ok (ok_or v _) _ h in ground arith

module _ (x : Wire) where
  addr_loop-ok :
      (out todo owners : List Bytes)
      → all is_contract out ≡ true
      → addr_loop x out todo ≡ ok owners
      → all is_contract owners ≡ true
  unfolding addr_loop
  addr_loop-ok out [] owners a h = ground (arith, a, h)
  addr_loop-ok out (entry ∷ rest) owners a h =
      let (b, p, h₁) = and_then-ok (ok_or (x.address_from_text entry) _) _ h in
      let (z, h₂) = guarded-ok (is_zero_address b) _ _ h₁ in
      addr_loop-ok (out ++ (b ∷ [])) rest owners (all-append_last is_contract out b a (rw z refl))
        h₂

  ancestor_loop-ok :
      (out todo pcrs : List Bytes)
      → all is_measurement out ≡ true
      → ancestor_loop x out todo ≡ ok pcrs
      → all is_measurement pcrs ≡ true
  unfolding ancestor_loop
  ancestor_loop-ok out [] pcrs a h = ground (arith, a, h)
  ancestor_loop-ok out (entry ∷ rest) pcrs a h =
      let (b, p, h₁) = and_then-ok (ok_or (x.hex_decode (or_else (strip_0x entry) entry)) _) _ h in
      let (z, h₂) : (is_measurement b ≡ true) × (ancestor_loop x (out ++ (b ∷ [])) rest ≡ ok pcrs) =
        ground (arith, h₁) in
      ancestor_loop-ok (out ++ (b ∷ [])) rest pcrs (all-append_last is_measurement out b a z) h₂

  parse_ancestor_pcrs-ok :
      (v : Option Bytes) (pcrs : List Bytes)
      → parse_ancestor_pcrs x v ≡ ok pcrs
      → all is_measurement pcrs ≡ true
  unfolding parse_ancestor_pcrs
  parse_ancestor_pcrs-ok (some raw) pcrs h = ancestor_loop-ok [] (entries raw) pcrs refl h
  parse_ancestor_pcrs-ok none pcrs h = ground (arith, h)

  baked_addr_list-ok :
      (v : Option Bytes) (owners : List Bytes)
      → baked_addr_list x v ≡ ok owners
      → all is_contract owners ≡ true
  unfolding baked_addr_list
  baked_addr_list-ok v owners h =
      let (raw, p, h₁) = and_then-ok (ok_or v _) _ h in
      let (out, q, h₂) = and_then-ok (addr_loop x [] (entries raw)) _ h₁ in
      let (z, h₃) = guarded-ok (is_empty out) _ _ h₂ in
      addr_loop-ok [] (entries raw) owners refl (ground (arith, q, h₃))

  baked_addr_nonzero-ok :
      (v : Option Bytes) (a : Bytes) → baked_addr_nonzero x v ≡ ok a → is_contract a ≡ true
  unfolding baked_addr_nonzero
  baked_addr_nonzero-ok v a h =
      let (b, p, h₁) = and_then-ok (baked_addr x v) _ h in
      let (z, h₂) = guarded-ok (is_zero_address b) _ _ h₁ in ground (arith, z, h₂)

  resolve-ok :
      (texts : BakedTexts) (owners : List Bytes) (threshold : ℕ) (cfg : BakedOracleConfig)
      → (1 ≤ threshold) × (threshold ≤ length owners)
      → all is_contract owners ≡ true
      → resolve x texts owners threshold ≡ ok cfg
      → IsSound cfg
  unfolding resolve
  resolve-ok texts owners threshold cfg q o h =
      let (registry, p₁, h₁) = and_then-ok (baked_addr_nonzero x texts.registry) _ h in
      let (safe, p₂, h₂) = and_then-ok (baked_addr_nonzero x texts.safe) _ h₁ in
      let (rh_rpcs, p₃, h₃) = and_then-ok (baked_rpcs texts.rh_rpcs) _ h₂ in
      let (chain_id, p₄, h₄) = and_then-ok (baked_u64 texts.chain_id) _ h₃ in
      let (version, p₅, h₅) = and_then-ok (baked_u64 texts.version) _ h₄ in
      let (ancestors, p₆, h₆) = and_then-ok (parse_ancestor_pcrs x texts.ancestors) _ h₅ in
      subst IsSound (ok-inj _ refl h₆) (record {
        quorum = q;
        owners = o;
        registry = baked_addr_nonzero-ok texts.registry registry p₁;
        safe = baked_addr_nonzero-ok texts.safe safe p₂;
        endpoints = baked_rpcs-ok texts.rh_rpcs rh_rpcs p₃;
        ancestors = parse_ancestor_pcrs-ok texts.ancestors ancestors p₆;
      })

  -- A configuration that the oracle boots with has a threshold from one to the number of listed owners, an
  -- owner that is listed twice counted twice, no zero address among the owners, the registry and the Safe, endpoints of which there is one at least and
  -- all are https, and ancestors of 48 bytes each. This holds for any texts in the image, missing and
  -- malformed ones included.
  pub from_baked-IsSound :
      (texts : BakedTexts) (cfg : BakedOracleConfig) → from_baked x texts ≡ ok cfg → IsSound cfg
  unfolding from_baked
  from_baked-IsSound texts cfg h =
      let (owners, p₁, h₁) = and_then-ok (baked_addr_list x texts.owners) _ h in
      let (threshold, p₂, h₂) = and_then-ok (baked_u64 texts.threshold) _ h₁ in
      let (z, h₃) = guarded-ok (threshold == 0) _ _ h₂ in
      let (l, h₄) = guarded-ok (ltb (length owners) threshold) _ _ h₃ in
      resolve-ok texts owners threshold cfg (ground (arith, z), ground (arith, l))
        (baked_addr_list-ok texts.owners owners p₁) h₄
