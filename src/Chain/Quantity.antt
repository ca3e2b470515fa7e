-- ===== src/Chain/Quantity.antt =====
-- JSON-RPC quantities: `parse_quantity`, `parse_b256` and `decode_hex` of crates/keyex/src/chain.rs, and
-- the `0x{number:x}` texts that the requests carry.
use kaskad_nuntius.Prelude.{
  ℕ, zero, suc, ◌+◌, ◌*◌, ◌/◌, ◌%◌, ◌^◌, ◌<◌, ◌≡◌, refl, ap, ◌∙◌, Bool, true, false, not, ◌||◌, [],
  ◌∷◌, Option, none, some, ltb, length, all, ◌==◌, nat_eq, arith, if◌then◌else◌, Option-cases,
  Bool-cases, inl, inr, bind-eq-some,
}
use mathlib.Core.Option
use native.Mathlib.Nat.{pow-suc}
use kaskad_nuntius.Policy.{Bytes}
use kaskad_nuntius.Chain.Wire.{Wire}
use kaskad_nuntius.Chain.Text.{
  strip_0x, or_else, is_ascii_hexdigit, u64_from_hex, hex_text, hex_digits, hex_value, hex_char,
}

-- `format!("0x{number:x}")`: sixteen digits are enough for a u64.
unfoldable pub format_quantity : ℕ → Bytes
unfolding hex_text
format_quantity number = b'0' ∷ b'x' ∷ hex_text 16 number []

abbrev bad_leading : Bytes → Bool
bad_leading [] = true
bad_leading (b ∷ []) = false
bad_leading (b ∷ c ∷ rest) = b == b'0'

-- The tests behind the prefix: no digit, a leading zero, another byte, or an overflow.
unfoldable pub parse_digits : Bytes → Option ℕ
unfolding u64_from_hex is_ascii_hexdigit
parse_digits s = if bad_leading s || not (all is_ascii_hexdigit s) then none else u64_from_hex s

module _ (x : Wire) where
  unfoldable pub parse_quantity : x.Value → Option ℕ
  unfolding parse_digits strip_0x
  parse_quantity v = Option.bind (Option.bind (x.as_str v) strip_0x) parse_digits

  unfoldable pub decode_hex : Bytes → Option Bytes
  unfolding strip_0x
  decode_hex s = x.hex_decode (or_else (strip_0x s) s)

  unfoldable pub parse_b256 : x.Value → Option Bytes
  unfolding decode_hex
  parse_b256 v =
      Option.bind (Option.bind (x.as_str v) decode_hex)
        (λ bytes. if not (length bytes == 32) then none else some bytes)

hex_digits-lt :
    (s : Bytes) (acc : ℕ) {n : ℕ} → acc < 2 ^ 64 → hex_digits acc s ≡ some n → n < 2 ^ 64
unfolding hex_digits
hex_digits-lt [] acc h e = ground arith
hex_digits-lt (b ∷ s) acc {n} h e = elim (Option-cases (hex_value b)) [
  | inl q ↦ absurd (ground arith)
  | inr (d, q) ↦ ground (arith, hex_digits-lt s (acc * 16 + d) {n = n})
]

u64_from_hex-eq :
    (s : Bytes)
    → all is_ascii_hexdigit s ≡ true
    → bad_leading s ≡ false
    → u64_from_hex s ≡ hex_digits 0 s
unfolding u64_from_hex is_ascii_hexdigit
u64_from_hex-eq [] h k = cc
u64_from_hex-eq (b ∷ []) h k = refl
u64_from_hex-eq (b ∷ c ∷ s) h k = ground arith

hex_value-char : (d : ℕ) → d < 16 → hex_value (hex_char d) ≡ some d
unfolding hex_value hex_char
hex_value-char d h = ground arith

hex_char-digit : (d : ℕ) → d < 16 → is_ascii_hexdigit (hex_char d) ≡ true
unfolding is_ascii_hexdigit hex_char
hex_char-digit d h = ground arith

hex_char-zero : (d : ℕ) → 0 < d → d < 16 → (hex_char d == b'0') ≡ false
unfolding hex_char
hex_char-zero d h k = ground arith

hex_digits-step :
    (acc b d : ℕ) (rest : Bytes)
    → hex_value b ≡ some d
    → acc * 16 + d < 2 ^ 64
    → hex_digits acc (b ∷ rest) ≡ hex_digits (acc * 16 + d) rest
unfolding hex_digits
hex_digits-step acc b d rest q h = rw (q, hex_digits) (ground arith)

-- Reading back what `hex_text` has put in front of a text gives the number and goes on behind it.
hex_digits-text :
    (fuel n : ℕ) (rest : Bytes)
    → n < 16 ^ fuel
    → n < 2 ^ 64
    → hex_digits 0 (hex_text fuel n rest) ≡ hex_digits n rest
unfolding hex_text
hex_digits-text zero n rest h k = let e : n ≡ 0 = omega arith in rw e refl
hex_digits-text (suc f) n rest h k = elim (Bool-cases (ltb n 16)) [
  | inl e ↦
      rw (e, hex_text)
        (hex_digits-step 0 (hex_char n) n rest (hex_value-char n (ground arith)) (omega arith)
          ∙ ap (λ t. hex_digits t rest) (omega arith))
  | inr e ↦
      rw (e, hex_text)
        (hex_digits-text f (n / 16) (hex_char (n % 16) ∷ rest) (omega (arith, pow-suc 16 f))
            (omega arith)
          ∙ hex_digits-step (n / 16) (hex_char (n % 16)) (n % 16) rest
              (hex_value-char (n % 16) (omega arith)) (omega arith)
          ∙ ap (λ t. hex_digits t rest) (omega arith))
]

all-hex_text :
    (fuel n : ℕ) (rest : Bytes)
    → all is_ascii_hexdigit rest ≡ true
    → all is_ascii_hexdigit (hex_text fuel n rest) ≡ true
unfolding hex_text
all-hex_text zero n rest h = h
all-hex_text (suc f) n rest h = elim (Bool-cases (ltb n 16)) [
  | inl e ↦ rw (e, hex_text, hex_char-digit n (ground arith)) h
  | inr e ↦
      rw (e, hex_text)
        (all-hex_text f (n / 16) (hex_char (n % 16) ∷ rest)
          (rw (hex_char-digit (n % 16) (omega arith)) h))
]

bad_leading-hex_text :
    (fuel n : ℕ) (rest : Bytes) → n < 16 ^ fuel → 0 < n → bad_leading (hex_text fuel n rest) ≡ false
unfolding hex_text
bad_leading-hex_text zero n rest h k = absurd (omega arith)
bad_leading-hex_text (suc f) n [] h k = elim (Bool-cases (ltb n 16)) [
  | inl e ↦ rw (e, hex_text) refl
  | inr e ↦
      rw (e, hex_text)
        (bad_leading-hex_text f (n / 16) (hex_char (n % 16) ∷ []) (omega (arith, pow-suc 16 f))
          (ground arith))
]
bad_leading-hex_text (suc f) n (c ∷ rest) h k = elim (Bool-cases (ltb n 16)) [
  | inl e ↦ rw (e, hex_text) (hex_char-zero n k (ground arith))
  | inr e ↦
      rw (e, hex_text)
        (bad_leading-hex_text f (n / 16) (hex_char (n % 16) ∷ c ∷ rest)
          (omega (arith, pow-suc 16 f)) (ground arith))
]

bad_leading-format : (n : ℕ) → n < 2 ^ 64 → bad_leading (hex_text 16 n []) ≡ false
unfolding hex_text
bad_leading-format zero h = refl
bad_leading-format (suc n) h = bad_leading-hex_text 16 (suc n) [] (omega arith) (omega arith)

parse_digits-text : (n : ℕ) → n < 2 ^ 64 → parse_digits (hex_text 16 n []) ≡ some n
unfolding parse_digits
parse_digits-text n h =
    rw (bad_leading-format n h, all-hex_text 16 n [] refl)
      (u64_from_hex-eq (hex_text 16 n []) (all-hex_text 16 n [] refl) (bad_leading-format n h)
        ∙ hex_digits-text 16 n [] (omega arith) h
        ∙ unfold hex_digits in refl)

parse_digits-lt : (s : Bytes) (n : ℕ) → parse_digits s ≡ some n → n < 2 ^ 64
unfolding parse_digits u64_from_hex
parse_digits-lt [] n h = cc
parse_digits-lt (b ∷ []) n h = ground (arith, hex_digits-lt (b ∷ []) 0 {n = n})
parse_digits-lt (b ∷ c ∷ s) n h =
    ground (arith, hex_digits-lt (c ∷ s) 0 {n = n}, hex_digits-lt (b ∷ c ∷ s) 0 {n = n})

module _ (x : Wire) where
  -- A u64 that is written as a quantity is read back as itself.
  pub parse_quantity-format_quantity :
      (v : x.Value) (n : ℕ)
      → n < 2 ^ 64
      → x.as_str v ≡ some (format_quantity n)
      → parse_quantity x v ≡ some n
  unfolding parse_quantity format_quantity strip_0x Option.bind
  parse_quantity-format_quantity v n h e = rw e (parse_digits-text n h)

  -- Whatever the remote side sends, a quantity that is read is a u64.
  pub parse_quantity-lt : (v : x.Value) (n : ℕ) → parse_quantity x v ≡ some n → n < 2 ^ 64
  unfolding parse_quantity
  parse_quantity-lt v n h =
      let (s, _, e) = bind-eq-some (Option.bind (x.as_str v) strip_0x) parse_digits h in
      parse_digits-lt s n e
