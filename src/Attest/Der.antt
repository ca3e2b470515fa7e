-- ===== src/Attest/Der.antt =====
-- The signatures of certificates in crates/nitro-common/src/verify.rs: from the DER of two integers to 96
-- bytes. A slice is taken from its first to its last index, which the code has tested.
pub mod RoundTrip
use kaskad_nuntius.Prelude.{
  ℕ, zero, suc, ◌+◌, ◌-◌, ◌*◌, ◌%◌, ◌^◌, ◌≤◌, ◌<◌, ◌≡◌, refl, sym, ap, ◌∙◌, Bool, false, not, ◌||◌,
  [], ◌∷◌, ◌++◌, Option, none, some, Result, ok, err, ok_or, and_then, and_then-ok, ltb, leb,
  length, length-append, take, drop, length-take, length-drop, get_elem?, replicate, ◌==◌, nat_eq,
  arith, if◌then◌else◌,
}
use kaskad_nuntius.Policy.{Bytes}

pub data DerError : Type 0 where
  no_sequence truncated_length length_form sequence_overruns no_integer : DerError
  integer_overruns too_wide : DerError

-- The loop over the bytes of a long length, with the length so far (a `usize`) and the position.
unfoldable pub len_loop : ℕ → ℕ → Bytes → ℕ → Result DerError (ℕ × ℕ)
len_loop zero len der p = ok (len, p)
len_loop (suc n) len der p =
    and_then (ok_or (get_elem? der p) truncated_length)
      (λ b. len_loop n ((len * 256 + b) % 2 ^ 64) der (p + 1))

-- A length and the position behind it.
unfoldable pub read_der_len : Bytes → ℕ → Result DerError (ℕ × ℕ)
unfolding len_loop
read_der_len der p = and_then (ok_or (get_elem? der p) truncated_length) (λ first.
    if ltb first 0x80
    then ok (first, p + 1)
    else if first % 0x80 == 0 || ltb 4 (first % 0x80)
    then err length_form
    else len_loop (first % 0x80) 0 der (p + 1))

abbrev pub is_byte : ℕ → Option ℕ → Bool
is_byte b none = false
is_byte b (some c) = c == b

-- One leading sign byte is taken off.
unfoldable pub strip_sign : Bytes → Bytes
strip_sign [] = []
strip_sign (b ∷ []) = b ∷ []
strip_sign (b ∷ c ∷ rest) = if b == 0 then c ∷ rest else b ∷ c ∷ rest

-- The bytes of an integer and the position behind it.
unfoldable pub read_der_int : Bytes → ℕ → ℕ → Result DerError (Bytes × ℕ)
unfolding read_der_len strip_sign
read_der_int der p end =
    if not (is_byte 0x02 (get_elem? der p))
    then err no_integer
    else and_then (read_der_len der (p + 1)) (λ l.
      if ltb end (l.1 + l.0)
      then err integer_overruns
      else ok (strip_sign (take l.0 (drop l.1 der)), l.1 + l.0))

-- A field of `width` zeroes, with the bytes at its end.
unfoldable pub left_pad_into : ℕ → Bytes → Result DerError Bytes
left_pad_into width src =
    if ltb width (length src) then err too_wide else ok (replicate (width - length src) 0 ++ src)

-- The two integers from a position on, each padded to 48 bytes.
unfoldable pub fields_of : Bytes → ℕ → ℕ → Result DerError Bytes
unfolding read_der_int left_pad_into
fields_of der start seq_end = and_then (read_der_int der start seq_end) (λ r.
    and_then (read_der_int der r.1 seq_end) (λ s.
      and_then (left_pad_into 48 r.0)
        (λ high. and_then (left_pad_into 48 s.0) (λ low. ok (high ++ low)))))

unfoldable pub ecdsa_der_to_fixed : Bytes → Result DerError Bytes
unfolding read_der_len fields_of
ecdsa_der_to_fixed der =
    if not (is_byte 0x30 (get_elem? der 0))
    then err no_sequence
    else and_then (read_der_len der 1) (λ seq.
      if ltb (length der) (seq.1 + seq.0)
      then err sequence_overruns
      else fields_of der seq.1 (seq.1 + seq.0))
