-- ===== src/Oracle/Peers.antt =====
-- `normalize_peer` and `bounded_peers` of src/keyex_oracle/state.rs. A text is its UTF-8 bytes; the
-- address parsers of Rust's standard library are the fields of one record.
use kaskad_nuntius.Prelude.{
  ℕ, ◌+◌, ◌-◌, ◌*◌, ◌^◌, map, Bool, true, false, not, ◌&&◌, ◌||◌, List, [], ◌∷◌, ◌++◌, Option, none,
  some, ltb, leb, any, all, length, contains, ◌==◌, nat_eq, list_eq, if◌then◌else◌,
}
use kaskad_nuntius.Policy.{Bytes}
use kaskad_nuntius.Chain.Text.{split_on, or_else, u64_to_text}

abbrev pub max_boot_peers : ℕ
max_boot_peers = 16

abbrev pub max_peer_endpoint_len : ℕ
max_peer_endpoint_len = 320

abbrev pub handover_port : ℕ
handover_port = 8443

pub record AddressText : Type 0 where
  -- parse::<SocketAddr>(): the port, and the text of the address
  pub socket_addr : Bytes → Option (ℕ × Bytes)
  -- parse::<IpAddr>() and parse::<Ipv6Addr>(): the text of SocketAddr::new with a port
  pub ip_addr : Bytes → Option (ℕ → Bytes)
  pub ipv6_addr : Bytes → Option (ℕ → Bytes)

-- `is_ascii_whitespace` and `is_ascii_control`
unfoldable pub is_space_or_control : ℕ → Bool
is_space_or_control b = leb b 32 || b == 127

unfoldable pub is_digit : ℕ → Bool
is_digit b = leb b'0' b && leb b b'9'

unfoldable pub is_alphanumeric : ℕ → Bool
unfolding is_digit
is_alphanumeric b = is_digit b || (leb b'a' b && leb b b'z') || (leb b'A' b && leb b b'Z')

-- `to_ascii_lowercase` of a byte
unfoldable pub lowercase : ℕ → ℕ
lowercase b = if leb b'A' b && leb b b'Z' then b + 32 else b

-- `strip_suffix` of one character
unfoldable pub strip_last : ℕ → Bytes → Option Bytes
strip_last c [] = none
strip_last c (b ∷ []) = if b == c then some [] else none
strip_last c (b ∷ d ∷ rest) = elim (strip_last c (d ∷ rest)) [
  | none ↦ none
  | some kept ↦ some (b ∷ kept)
]

-- `strip_prefix('[')` and `strip_suffix(']')`
unfoldable pub in_brackets : Bytes → Option Bytes
unfolding strip_last
in_brackets [] = none
in_brackets (b ∷ rest) = if b == b'[' then strip_last b']' rest else none

-- `split_once(':')`
unfoldable pub split_colon : Bytes → Option (Bytes × Bytes)
split_colon [] = none
split_colon (b ∷ rest) = elim (b == b':') [
  | true ↦ some ([], rest)
  | false ↦ elim (split_colon rest) [ none ↦ none | some (host, port) ↦ some (b ∷ host, port) ]
]

-- `parse::<u16>()` of a text of digits: `none` on overflow
unfoldable pub u16_digits : ℕ → Bytes → Option ℕ
u16_digits acc [] = some acc
u16_digits acc (b ∷ rest) = elim (ltb (acc * 10 + (b - b'0')) (2 ^ 16)) [
  | true ↦ u16_digits (acc * 10 + (b - b'0')) rest
  | false ↦ none
]

abbrev starts_with_dash : Bytes → Bool
starts_with_dash [] = false
starts_with_dash (b ∷ rest) = b == b'-'

abbrev ends_with_dash : Bytes → Bool
ends_with_dash [] = false
ends_with_dash (b ∷ []) = b == b'-'
ends_with_dash (b ∷ c ∷ rest) = ends_with_dash (c ∷ rest)

unfoldable pub good_label : Bytes → Bool
unfolding is_alphanumeric
good_label label =
    not (label == [])
    && leb (length label) 63
    && not (starts_with_dash label)
    && not (ends_with_dash label)
    && all (λ b. is_alphanumeric b || b == b'-') label

-- `split_once(':')` and the port behind it; without a colon, the default port.
unfoldable pub host_and_port : Bytes → Option (Bytes × ℕ)
unfolding split_colon u16_digits
host_and_port endpoint = elim (split_colon endpoint) [
  | none ↦ some (endpoint, handover_port)
  | some (host, port) ↦
      if port == [] || not (all is_digit port)
      then none
      else elim (u16_digits 0 port) [ none ↦ none | some n ↦ some (host, n) ]
]

unfoldable pub good_host : Bytes → Bool
unfolding good_label split_on
good_host host =
    leb (length host) 253
    && not (all (λ b. is_digit b || b == b'.') host)
    && all good_label (split_on b'.' [] host)

unfoldable pub normalize_host : Option (Bytes × ℕ) → Option Bytes
unfolding good_host
normalize_host none = none
normalize_host (some (host, port)) =
    let kept = or_else (strip_last b'.' host) host in
    if port == 0 || not (good_host kept)
    then none
    else some (map lowercase kept ++ b':' ∷ u64_to_text port)

unfoldable pub refused_text : Bytes → Bool
refused_text endpoint =
    endpoint == []
    || ltb max_peer_endpoint_len (length endpoint)
    || not (all (λ b. ltb b 128) endpoint)
    || any is_space_or_control endpoint

module _ (t : AddressText) where
  unfoldable pub normalize_bracketed : Option Bytes → Bytes → Option Bytes
  normalize_bracketed none endpoint = normalize_host (host_and_port endpoint)
  normalize_bracketed (some inner) endpoint = elim (t.ipv6_addr inner) [
    | none ↦ none
    | some at ↦ some (at handover_port)
  ]

  unfoldable pub normalize_name : Option (ℕ → Bytes) → Bytes → Option Bytes
  unfolding normalize_bracketed
  normalize_name (some at) endpoint = some (at handover_port)
  normalize_name none endpoint = normalize_bracketed (in_brackets endpoint) endpoint

  unfoldable pub normalize_text : Option (ℕ × Bytes) → Bytes → Option Bytes
  unfolding normalize_name
  normalize_text (some (port, text)) endpoint = if port == 0 then none else some text
  normalize_text none endpoint = normalize_name (t.ip_addr endpoint) endpoint

  unfoldable pub normalize_peer : Bytes → Option Bytes
  unfolding normalize_text
  normalize_peer endpoint =
      if refused_text endpoint then none else normalize_text (t.socket_addr endpoint) endpoint

  -- `if !out.contains(&peer)`: what is pushed, if anything is.
  unfoldable pub push_peer : List Bytes → Option Bytes → Option (List Bytes)
  push_peer out none = none
  push_peer out (some peer) = if not (contains out peer) then some (out ++ peer ∷ []) else none

  -- The loop of `bounded_peers`, which stops when a push has made sixteen; `out` is what it has pushed.
  unfoldable pub bounded_loop : List Bytes → List Bytes → List Bytes
  unfolding push_peer
  bounded_loop out [] = out
  bounded_loop out (peer ∷ peers) = elim (push_peer out (normalize_peer peer)) [
    | none ↦ bounded_loop out peers
    | some next ↦ elim (length next == max_boot_peers) [
      | true ↦ next
      | false ↦ bounded_loop next peers
    ]
  ]

  unfoldable pub bounded_peers : List Bytes → List Bytes
  unfolding bounded_loop
  bounded_peers peers = bounded_loop [] peers
