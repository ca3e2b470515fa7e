-- ===== src/Sig.antt =====
-- crates/keyex/src/sig.rs: recovery and recoverable signing, with EIP-2 low-s and v in {27, 28}.
mod Tests
use kaskad_nuntius.Prelude.{
  ℕ, ◌+◌, ◌≡◌, ◌⊎◌, refl, Bool, true, false, Option, none, some, Result, ok, err, drop, ◌==◌,
  nat_eq, list_eq, eq_iff, ok_or, arith, if◌then◌else◌, Bool-cases, Result-cases, Option-cases, inl,
  inr,
}
use kaskad_nuntius.Policy.{Bytes}
use kaskad_nuntius.Crypto.{Crypto}

-- `[u8; 65]`: the first 64 bytes, and the last.
pub record Signature65 : Type 0 where
  pub rs : Bytes
  pub v : ℕ

pub data SigError : Type 0 where
  bad_signature_bytes high_s non_canonical_v recovery_failed : SigError
  signing_failed emitted_high_s self_check_recover self_check_mismatch : SigError

-- `27 => RecoveryId::from_byte(0), 28 => RecoveryId::from_byte(1), _ => None`
unfoldable pub recovery_id : ℕ → Option ℕ
recovery_id v = if v == 27 then some 0 else if v == 28 then some 1 else none

module _ (c : Crypto) where
  open c use {Signature, VerifyingKey, SigningKey}

  unfoldable pub address_from_key : VerifyingKey → Bytes
  address_from_key vk = drop 12 (c.keccak256 (drop 1 (c.encoded_point vk)))

  unfoldable pub recover_with : Bytes → Signature → Option ℕ → Result SigError Bytes
  recover_with digest s none = err non_canonical_v
  recover_with digest s (some id) = elim (c.recover_from_prehash digest s id) [
    | none ↦ err recovery_failed
    | some vk ↦ ok (address_from_key vk)
  ]

  unfoldable pub recover : Bytes → Signature65 → Result SigError Bytes
  unfolding recover_with recovery_id
  recover digest sig = elim (c.signature_from_slice sig.rs) [
    | none ↦ err bad_signature_bytes
    | some s ↦ if c.is_high_s s then err high_s else recover_with digest s (recovery_id sig.v)
  ]

  unfoldable pub self_check :
      Bytes → Signature65 → Result SigError Bytes → Result SigError Signature65
  self_check expect out (err e) = err self_check_recover
  self_check expect out (ok got) = if got == expect then ok out else err self_check_mismatch

  unfoldable pub emit : SigningKey → Bytes → Option (Signature × ℕ) → Result SigError Signature65
  unfolding self_check
  emit sk digest none = err signing_failed
  emit sk digest (some (sig, rec)) =
      if c.is_high_s sig
      then err emitted_high_s
      else (let out : Signature65 = record { rs = c.signature_to_bytes sig; v = 27 + rec } in
          self_check (address_from_key (c.verifying_key sk)) out (recover digest out))

  unfoldable pub sign_recoverable : SigningKey → Bytes → Result SigError Signature65
  unfolding emit
  sign_recoverable sk digest = emit sk digest (c.sign_prehash_recoverable sk digest)

  self_check-ok :
      (expect : Bytes) (out got : Signature65) (r : Result SigError Bytes)
      → self_check expect out r ≡ ok got
      → (r ≡ ok expect) × (out ≡ got)
  unfolding self_check
  self_check-ok expect out got (ok a) h = ground (arith, eq_iff a expect)
  self_check-ok expect out got (err e) h = cc

  recover_id :
      (digest : Bytes) (s : Signature65) {a : Bytes}
      → recover digest s ≡ ok a
      → ((s.v ≡ 27) ⊎ (s.v ≡ 28))
  unfolding recover recover_with recovery_id
  recover_id digest s h = ground arith

  emit_lem :
      (sk : SigningKey) (digest : Bytes) (p : Option (Signature × ℕ)) (out : Signature65)
      → emit sk digest p ≡ ok out
      → recover digest out ≡ ok (address_from_key (c.verifying_key sk))
  unfolding emit
  emit_lem sk digest none out h = cc
  emit_lem sk digest (some (sig, rec)) out h =
      let made : Signature65 = record { rs = c.signature_to_bytes sig; v = 27 + rec } in
      ground (
        arith,
        self_check-ok (address_from_key (c.verifying_key sk)) made out (recover digest made),
      )

  -- Whatever the signer emits is a signature that recovers, over the digest signed, to the address of
  -- the signing key, and its last byte is 27 or 28.
  pub sign_recoverable-recover :
      (sk : SigningKey) (digest : Bytes) (out : Signature65)
      → sign_recoverable sk digest ≡ ok out
      → (recover digest out ≡ ok (address_from_key (c.verifying_key sk)))
        × ((out.v ≡ 27) ⊎ (out.v ≡ 28))
  unfolding sign_recoverable
  sign_recoverable-recover sk digest out h =
      let same = emit_lem sk digest (c.sign_prehash_recoverable sk digest) out h in
      (same, recover_id digest out same)
