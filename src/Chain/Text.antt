-- ===== src/Chain/Text.antt =====
-- Texts as their UTF-8 bytes, with the string operations of Rust's standard library that the code uses.
use Prim.Native.Char.{code}
use Prim.Native.String.{String}
use kaskad_nuntius.Prelude.{
  List, ◌++◌, ℕ, zero, suc, ◌+◌, ◌-◌, ◌*◌, ◌/◌, ◌%◌, ◌^◌, Bool, true, false, ◌&&◌, ◌||◌, [], ◌∷◌,
  Option, none, some, ltb, leb, ◌==◌, nat_eq, if◌then◌else◌,
}
use kaskad_nuntius.Policy.{Bytes}

-- The bytes of an ASCII literal.
abbrev pub ascii : String → Bytes
ascii String.[] = []
ascii (String.◌∷◌ ch s) = code ch ∷ ascii s

-- `strip_prefix("0x")`
unfoldable pub strip_0x : Bytes → Option Bytes
strip_0x [] = none
strip_0x (a ∷ []) = none
strip_0x (a ∷ b ∷ rest) = if a == b'0' && b == b'x' then some rest else none

abbrev pub or_else {ℓ} : {A : Type ℓ} → Option A → A → A
or_else (some a) d = a
or_else none d = d

abbrev in_range : ℕ → ℕ → ℕ → Bool
in_range lo hi b = leb lo b && leb b hi

-- The value of an ASCII hexadecimal digit, in either case.
unfoldable pub hex_value : ℕ → Option ℕ
hex_value b =
    if in_range b'0' b'9' b
    then some (b - b'0')
    else if in_range b'a' b'f' b
    then some (b - b'a' + 10)
    else if in_range b'A' b'F' b
    then some (b - b'A' + 10)
    else none

-- `u8::is_ascii_hexdigit`
unfoldable pub is_ascii_hexdigit : ℕ → Bool
is_ascii_hexdigit b = in_range b'0' b'9' b || in_range b'a' b'f' b || in_range b'A' b'F' b

-- The digits of `from_str_radix(s, 16)` of u64: `none` on another byte and on overflow.
unfoldable pub hex_digits : ℕ → Bytes → Option ℕ
unfolding hex_value
hex_digits acc [] = some acc
hex_digits acc (b ∷ rest) = elim (hex_value b) [
  | none ↦ none
  | some d ↦ if ltb (acc * 16 + d) (2 ^ 64) then hex_digits (acc * 16 + d) rest else none
]

-- `u64::from_str_radix(s, 16)`: no text, and a sign alone, are errors; one leading `+` is skipped.
unfoldable pub u64_from_hex : Bytes → Option ℕ
unfolding hex_digits
u64_from_hex [] = none
u64_from_hex (b ∷ []) = hex_digits 0 (b ∷ [])
u64_from_hex (b ∷ c ∷ rest) =
    if b == b'+' then hex_digits 0 (c ∷ rest) else hex_digits 0 (b ∷ c ∷ rest)

-- `{:x}` of a digit and of a number, the most significant digit first.
unfoldable pub hex_char : ℕ → ℕ
hex_char d = if ltb d 10 then b'0' + d else b'a' + (d - 10)

unfoldable pub hex_text : ℕ → ℕ → Bytes → Bytes
unfolding hex_char
hex_text zero n acc = acc
hex_text (suc fuel) n acc =
    let more = hex_text fuel (n / 16) (hex_char (n % 16) ∷ acc) in
    if ltb n 16 then hex_char n ∷ acc else more

-- The decimal text of a number.
unfoldable pub decimal_text : ℕ → ℕ → Bytes → Bytes
decimal_text zero n acc = acc
decimal_text (suc fuel) n acc =
    let more = decimal_text fuel (n / 10) ((b'0' + n % 10) ∷ acc) in
    if ltb n 10 then (b'0' + n) ∷ acc else more

-- `u64::to_string`: twenty digits are enough for a u64.
unfoldable pub u64_to_text : ℕ → Bytes
unfolding decimal_text
u64_to_text n = decimal_text 20 n []

-- `str::starts_with`
unfoldable pub starts_with : Bytes → Bytes → Bool
starts_with [] s = true
starts_with (p ∷ prefix) [] = false
starts_with (p ∷ prefix) (b ∷ s) = p == b && starts_with prefix s

-- `split` at a character: the part read so far is in front of the rest
unfoldable pub split_on : ℕ → Bytes → Bytes → List Bytes
split_on sep part [] = part ∷ []
split_on sep part (b ∷ rest) = elim (b == sep) [
  | true ↦ part ∷ split_on sep [] rest
  | false ↦ split_on sep (part ++ b ∷ []) rest
]
