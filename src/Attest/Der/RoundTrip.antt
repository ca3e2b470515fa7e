-- ===== src/Attest/Der/RoundTrip.antt =====
-- What `ecdsa_der_to_fixed` of crates/nitro-common/src/verify.rs gives for the DER of
-- two integers: the same two numbers.
use mathlib.Core.List.{append-nil}
use kaskad_nuntius.Prelude.{
  ℕ, zero, suc, ◌+◌, ◌-◌, ◌≤◌, ◌<◌, ◌≡◌, refl, sym, ap, ◌∙◌, ◌⊎◌, some, [], ◌∷◌, ◌++◌, ok, length,
  length-append, drop, get_elem?, get_elem?-append, drop-append_add, take-append_self, replicate,
  nat_eq, arith,
}
use kaskad_nuntius.Policy.{Bytes}
use kaskad_nuntius.Server.Payload.{of_be}
use kaskad_nuntius.Attest.Der.{
  read_der_len, strip_sign, read_der_int, left_pad_into, fields_of, ecdsa_der_to_fixed,
}

-- The DER of an unsigned integer below 128 bytes, and of a sequence of two.
abbrev pub der_integer : Bytes → Bytes
der_integer r = 0x02 ∷ length r ∷ r

abbrev pub der_signature : Bytes → Bytes → Bytes
der_signature r s = 0x30 ∷ (length r + length s + 4) ∷ (der_integer r ++ der_integer s)

-- At least one byte, and at most 48 or a sign byte before 48.
abbrev pub FitsField : Bytes → Type 0
FitsField r =
    (1 ≤ length r) × ((length r ≤ 48) ⊎ ((body : Bytes) × (r ≡ 0 ∷ body) × (length body ≤ 48)))

of_be-zeroes : (n : ℕ) (b : Bytes) → of_be 0 (replicate n 0 ++ b) ≡ of_be 0 b
of_be-zeroes zero b = refl
of_be-zeroes (suc n) b = of_be-zeroes n b

strip_sign-value : (r : Bytes) → of_be 0 (strip_sign r) ≡ of_be 0 r
unfolding strip_sign
strip_sign-value [] = refl
strip_sign-value (b ∷ []) = refl
strip_sign-value (b ∷ c ∷ r) = ground arith

strip_sign-fits : (r : Bytes) → FitsField r → length (strip_sign r) ≤ 48
unfolding strip_sign
strip_sign-fits [] h = absurd (omega (arith, h.0))
strip_sign-fits (b ∷ []) h = omega arith
strip_sign-fits (b ∷ c ∷ r) h = ground arith

length-replicate : (n : ℕ) → length {A = ℕ} (replicate n 0) ≡ n
length-replicate zero = refl
length-replicate (suc n) = omega (arith, length-replicate n)

-- A padded field has its width and the number that it held.
left_pad_into_lem :
    (width : ℕ) (b : Bytes)
    → length b ≤ width
    → (field : Bytes) × (left_pad_into width b ≡ ok field)
      × (length field ≡ width)
      × (of_be 0 field ≡ of_be 0 b)
unfolding left_pad_into
left_pad_into_lem width b h = (
  replicate (width - length b) 0 ++ b,
  ground arith,
  omega (
    arith,
    length-append (replicate (width - length b) 0) b,
    length-replicate (width - length b),
  ),
  of_be-zeroes (width - length b) b,
)

read_der_len_short :
    (der : Bytes) (p n : ℕ)
    → get_elem? der p ≡ some n
    → n < 128
    → read_der_len der p ≡ ok (n, p + 1)
unfolding read_der_len
read_der_len_short der p n e h = rw e (ground arith)

-- An integer that stands behind `pre`.
read_der_int_run :
    (pre r post : Bytes) (end : ℕ)
    → length r < 128
    → length pre + 2 + length r ≤ end
    → read_der_int (pre ++ (der_integer r ++ post)) (length pre) end
      ≡ ok (strip_sign r, length pre + 2 + length r)
unfolding read_der_int
read_der_int_run pre r post end h l =
    let der = pre ++ (der_integer r ++ post) in
    let tag : get_elem? der (length pre) ≡ some 2 =
      ap (get_elem? der) (omega arith) ∙ get_elem?-append pre (der_integer r ++ post) 0 in
    let size : read_der_len der (length pre + 1) ≡ ok (length r, length pre + 1 + 1) =
      read_der_len_short der (length pre + 1) (length r)
        (get_elem?-append pre (der_integer r ++ post) 1) h in
    let body : drop (length pre + 1 + 1) der ≡ r ++ post =
      ap (λ n. drop n der) (omega arith) ∙ drop-append_add pre (der_integer r ++ post) 2 in
    rw (tag, size, body, take-append_self r post) (ground arith)

fields_of_run :
    (der a b high low : Bytes) (start p q end : ℕ)
    → read_der_int der start end ≡ ok (a, p)
    → read_der_int der p end ≡ ok (b, q)
    → left_pad_into 48 a ≡ ok high
    → left_pad_into 48 b ≡ ok low
    → fields_of der start end ≡ ok (high ++ low)
unfolding fields_of
fields_of_run der a b high low start p q end ha hb h l = rw (ha, hb, h, l) refl

ecdsa_der_to_fixed_run :
    (n : ℕ) (body out : Bytes)
    → n < 128
    → n ≤ length body
    → fields_of (0x30 ∷ n ∷ body) 2 (2 + n) ≡ ok out
    → ecdsa_der_to_fixed (0x30 ∷ n ∷ body) ≡ ok out
unfolding ecdsa_der_to_fixed
ecdsa_der_to_fixed_run n body out h l e =
    rw (read_der_len_short (0x30 ∷ n ∷ body) 1 n refl h) (ground (arith, e))

fields_of-der_signature :
    (r s high low : Bytes)
    → length r < 128
    → length s < 128
    → left_pad_into 48 (strip_sign r) ≡ ok high
    → left_pad_into 48 (strip_sign s) ≡ ok low
    → fields_of (der_signature r s) 2 (2 + (length r + length s + 4)) ≡ ok (high ++ low)
fields_of-der_signature r s high low hr hs h l =
    let head = 0x30 ∷ (length r + length s + 4) ∷ [] in
    let end = 2 + (length r + length s + 4) in
    let first = read_der_int_run head r (der_integer s) end hr (omega arith) in
    let second = read_der_int_run (head ++ der_integer r) s [] end hs (omega arith) in
    let bytes : (head ++ der_integer r) ++ (der_integer s ++ []) ≡ der_signature r s =
      ap (λ t. head ++ (der_integer r ++ (0x02 ∷ length s ∷ t))) (append-nil s) in
    let position : length (head ++ der_integer r) ≡ 4 + length r = omega arith in
    fields_of_run (der_signature r s) (strip_sign r) (strip_sign s) high low 2 (4 + length r)
      (6 + length r + length s) end first
      (ap (λ b. read_der_int b (4 + length r) end) (sym bytes)
        ∙ ap (λ p. read_der_int ((head ++ der_integer r) ++ (der_integer s ++ [])) p end)
            (sym position)
        ∙ second
        ∙ ap (λ q. ok (strip_sign s, q)) (omega arith))
      h l

-- The DER of two integers of at most 48 bytes, each perhaps behind a sign byte, is accepted, and gives
-- 48 bytes for each, which are the same numbers.
pub ecdsa_der_to_fixed-der_signature :
    (r s : Bytes)
    → FitsField r
    → FitsField s
    → (high : Bytes) × (low : Bytes) × (ecdsa_der_to_fixed (der_signature r s) ≡ ok (high ++ low))
      × (length high ≡ 48)
      × (length low ≡ 48)
      × (of_be 0 high ≡ of_be 0 r)
      × (of_be 0 low ≡ of_be 0 s)
unfolding ecdsa_der_to_fixed
ecdsa_der_to_fixed-der_signature r s hr hs =
    let (high, ph, lh, vh) = left_pad_into_lem 48 (strip_sign r) (strip_sign-fits r hr) in
    let (low, pl, ll, vl) = left_pad_into_lem 48 (strip_sign s) (strip_sign-fits s hs) in
    (
      high,
      low,
      ecdsa_der_to_fixed_run (length r + length s + 4) (der_integer r ++ der_integer s)
          (high ++ low) (ground arith)
          (omega (arith, length-append (der_integer r) (der_integer s)))
          (fields_of-der_signature r s high low (ground arith) (ground arith) ph pl),
      lh,
      ll,
      vh ∙ strip_sign-value r,
      vl ∙ strip_sign-value s,
    )
