-- ===== src/Ratls/Binding.antt =====
-- crates/keyex/src/binding.rs: whether an attestation answers our nonce and attests the peer's TLS key.
-- `ct_eq` is also the private function of that name in crates/nitro-common/src/verify.rs.
use kaskad_nuntius.Prelude.{
  is_empty, ℕ, ◌≡◌, refl, ◌≢◌, ◌↔◌, Bool, true, false, not, ◌||◌, [], ◌∷◌, Option, none, some,
  Result, ok, err, and_then, length, bit_or, bit_xor, bit_or-zero, bit_xor-zero, ◌==◌, nat_eq,
  arith, if◌then◌else◌,
}
use kaskad_nuntius.Policy.{Bytes}

pub record AttestationView : Type 0 where
  pub nonce : Option Bytes
  pub public_key : Bytes

pub data BindingError : Type 0 where
  nonce_mismatch no_nonce empty_key key_mismatch : BindingError

-- The loop over `zip` of two slices, with the differences gathered so far.
unfoldable pub diff_loop : ℕ → Bytes → Bytes → ℕ
diff_loop diff (x ∷ a) (y ∷ b) = diff_loop (bit_or diff (bit_xor x y)) a b
diff_loop diff [] b = diff
diff_loop diff (x ∷ a) [] = diff

unfoldable pub ct_eq : Bytes → Bytes → Bool
unfolding diff_loop
ct_eq a b = if not (length a == length b) then false else diff_loop 0 a b == 0

abbrev match_nonce : Option Bytes → Bytes → Result BindingError (Unit {0})
match_nonce (some n) expected_nonce = if ct_eq n expected_nonce then ok tt else err nonce_mismatch
match_nonce none expected_nonce = err no_nonce

unfoldable pub check_nonce : AttestationView → Bytes → Result BindingError (Unit {0})
check_nonce view expected_nonce = match_nonce view.nonce expected_nonce

unfoldable pub check_peer_key : AttestationView → Bytes → Result BindingError (Unit {0})
check_peer_key view expected_key =
    if is_empty view.public_key || is_empty expected_key
    then err empty_key
    else if ct_eq view.public_key expected_key
    then ok tt
    else err key_mismatch

unfoldable pub check_channel_binding :
    AttestationView → Bytes → Bytes → Result BindingError (Unit {0})
unfolding check_nonce check_peer_key
check_channel_binding view expected_nonce expected_key =
    and_then (check_nonce view expected_nonce) (λ _. check_peer_key view expected_key)

diff_loop_iff :
    (diff : ℕ) (a b : Bytes)
    → length a ≡ length b
    → (diff_loop diff a b ≡ 0) ↔ ((diff ≡ 0) × (a ≡ b))
unfolding diff_loop
diff_loop_iff diff [] [] l = (λ h. (h, refl), λ h. h.0)
diff_loop_iff diff [] (y ∷ b) l = absurd (omega arith)
diff_loop_iff diff (x ∷ a) [] l = absurd (omega arith)
diff_loop_iff diff (x ∷ a) (y ∷ b) l = ground (
  arith,
  diff_loop_iff (bit_or diff (bit_xor x y)) a b,
  bit_or-zero diff (bit_xor x y),
  bit_xor-zero x y,
)

-- The comparison without a secret branch is equality.
pub ct_eq_iff : (a b : Bytes) → (ct_eq a b ≡ true) ↔ (a ≡ b)
unfolding ct_eq
ct_eq_iff a b = ground (arith, diff_loop_iff 0 a b)

match_nonce_iff :
    (nonce : Option Bytes) (expected : Bytes)
    → (match_nonce nonce expected ≡ ok tt) ↔ (nonce ≡ some expected)
match_nonce_iff (some n) expected = ground (arith, ct_eq_iff n expected)
match_nonce_iff none expected = (λ h. cc, λ h. cc)

pub check_nonce_iff :
    (view : AttestationView) (nonce : Bytes)
    → (check_nonce view nonce ≡ ok tt) ↔ (view.nonce ≡ some nonce)
unfolding check_nonce
check_nonce_iff view nonce = match_nonce_iff view.nonce nonce

empty_iff : (key : Bytes) → (is_empty key ≡ true) ↔ (key ≡ [])
empty_iff [] = (λ h. refl, λ h. refl)
empty_iff (b ∷ key) = (λ h. cc, λ h. cc)

pub check_peer_key_iff :
    (view : AttestationView) (key : Bytes)
    → (check_peer_key view key ≡ ok tt) ↔ ((view.public_key ≡ key) × (key ≢ []))
unfolding check_peer_key
check_peer_key_iff view key =
    ground (arith, ct_eq_iff view.public_key key, empty_iff key, empty_iff view.public_key)
