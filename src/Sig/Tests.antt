-- ===== src/Sig/Tests.antt =====
-- A run of crates/keyex/src/sig.rs over the sample instances.
use kaskad_nuntius.Prelude.{◌≡◌, refl, ◌⊎◌, [], ◌∷◌, ok, list_beq}
use kaskad_nuntius.Sig.{
  Signature65, address_from_key, recover, recover_with, recovery_id, self_check, emit,
  sign_recoverable, sign_recoverable-recover,
}
use kaskad_nuntius.Samples.{toy_crypto}

abbrev signature : Signature65
signature = record { rs = 7 ∷ 8 ∷ []; v = 27 }

sign_run : sign_recoverable toy_crypto (7 ∷ 8 ∷ []) (1 ∷ []) ≡ ok signature
unfolding sign_recoverable emit self_check recover recover_with recovery_id address_from_key
    list_beq
sign_run = refl

sign_recoverable-recover_example :
    (recover toy_crypto (1 ∷ []) signature ≡ ok (address_from_key toy_crypto (7 ∷ 8 ∷ [])))
    × ((signature.v ≡ 27) ⊎ (signature.v ≡ 28))
sign_recoverable-recover_example =
    sign_recoverable-recover toy_crypto (7 ∷ 8 ∷ []) (1 ∷ []) signature sign_run
