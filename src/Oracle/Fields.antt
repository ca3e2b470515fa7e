-- ===== src/Oracle/Fields.antt =====
-- The fields of an approval request, as src/keyex_oracle/control.rs reads them: numbers, hex texts, and
-- the string operations of Rust's standard library that they need. The reasons of a refusal are
-- constructors in place of texts.
use kaskad_nuntius.Prelude.{
  ℕ, ◌+◌, ◌-◌, ◌*◌, ◌^◌, Bool, true, false, ◌&&◌, ◌||◌, [], ◌∷◌, Option, none, some, Result, ok,
  err, ok_or, and_then, ltb, leb, length, ◌==◌, nat_eq, list_eq, if◌then◌else◌,
}
use mathlib.Core.Option
use mathlib.Core.List.{reverse}
use kaskad_nuntius.Policy.{Bytes}
use kaskad_nuntius.Approval.{ApprovalError}
use kaskad_nuntius.Chain.Wire.{Wire}
use kaskad_nuntius.Chain.Text.{strip_0x, u64_from_hex}

pub data Refusal : Type 0 where
  no_domain name_mismatch version_mismatch chain_mismatch no_message bad_number : Refusal
  bad_hex bad_mode bad_role own_version_mismatch quorum_unread clock_unavailable : Refusal
  quorum_refused not_approved : ApprovalError → Refusal

-- The characters of Unicode's White_Space, by their one, two or three UTF-8 bytes.
abbrev space₁ : ℕ → Bool
space₁ a = (leb 9 a && leb a 13) || a == 32

abbrev space₂ : ℕ → ℕ → Bool
space₂ a b = a == 0xC2 && (b == 0x85 || b == 0xA0)

abbrev space₃ : ℕ → ℕ → ℕ → Bool
space₃ a b c =
    (a == 0xE1 && b == 0x9A && c == 0x80)
    || (a == 0xE2
        && b == 0x80
        && ((leb 0x80 c && leb c 0x8A) || c == 0xA8 || c == 0xA9 || c == 0xAF))
    || (a == 0xE2 && b == 0x81 && c == 0x9F)
    || (a == 0xE3 && b == 0x80 && c == 0x80)

-- Leading characters off, by tests on one, two and three bytes.
unfoldable pub skip : (ℕ → ℕ → Bool) → (ℕ → ℕ → ℕ → Bool) → Bytes → Bytes
skip two three [] = []
skip two three (a ∷ []) = if space₁ a then [] else a ∷ []
skip two three (a ∷ b ∷ []) = elim (space₁ a) [
  | true ↦ skip two three (b ∷ [])
  | false ↦ if two a b then [] else a ∷ b ∷ []
]
skip two three (a ∷ b ∷ c ∷ rest) = elim (space₁ a) [
  | true ↦ skip two three (b ∷ c ∷ rest)
  | false ↦ elim (two a b) [
    | true ↦ skip two three (c ∷ rest)
    | false ↦ elim (three a b c) [ true ↦ skip two three rest | false ↦ a ∷ b ∷ c ∷ rest ]
  ]
]

-- `str::trim`
unfoldable pub trim : Bytes → Bytes
unfolding skip
trim s = reverse (skip (λ a b. space₂ b a) (λ a b c. space₃ c b a) (reverse (skip space₂ space₃ s)))

-- `trim_start_matches("0x")`
unfoldable pub trim_0x : Bytes → Bytes
trim_0x [] = []
trim_0x (a ∷ []) = a ∷ []
trim_0x (a ∷ b ∷ rest) = elim (a == b'0' && b == b'x') [
  | true ↦ trim_0x rest
  | false ↦ a ∷ b ∷ rest
]

-- `parse::<u64>()`: no text, and a sign alone, are errors; one leading `+` is skipped.
unfoldable pub decimal_digits : ℕ → Bytes → Option ℕ
decimal_digits acc [] = some acc
decimal_digits acc (b ∷ rest) =
    elim (leb b'0' b && leb b b'9' && ltb (acc * 10 + (b - b'0')) (2 ^ 64)) [
      | true ↦ decimal_digits (acc * 10 + (b - b'0')) rest
      | false ↦ none
    ]

unfoldable pub u64_from_decimal : Bytes → Option ℕ
unfolding decimal_digits
u64_from_decimal [] = none
u64_from_decimal (b ∷ []) = decimal_digits 0 (b ∷ [])
u64_from_decimal (b ∷ c ∷ rest) =
    if b == b'+' then decimal_digits 0 (c ∷ rest) else decimal_digits 0 (b ∷ c ∷ rest)

module _ (x : Wire) where
  open x use {Value, World}

  unfoldable pub text_number : Bytes → Option ℕ
  text_number s = elim (strip_0x s) [
    | some digits ↦ u64_from_hex digits
    | none ↦ u64_from_decimal s
  ]

  unfoldable pub value_number : Option (Option ℕ) → Option Bytes → Option ℕ
  unfolding text_number
  value_number (some n) s = n
  value_number none (some s) = text_number (trim s)
  value_number none none = none

  unfoldable pub parse_u64_flexible : Option Value → Result Refusal ℕ
  unfolding value_number
  parse_u64_flexible none = err bad_number
  parse_u64_flexible (some v) = ok_or (value_number (x.as_number v) (x.as_str v)) bad_number

  unfoldable pub parse_u8_flexible : Option Value → Result Refusal ℕ
  parse_u8_flexible v =
      and_then (parse_u64_flexible v) (λ n. if ltb n (2 ^ 8) then ok n else err bad_number)

  unfoldable pub parse_hex_bytes : ℕ → Option Value → Result Refusal Bytes
  parse_hex_bytes n v =
      ok_or
        (Option.bind (Option.bind (Option.bind v x.as_str) (λ s. x.hex_decode (trim_0x (trim s))))
          (λ bytes. if length bytes == n then some bytes else none))
        bad_hex
