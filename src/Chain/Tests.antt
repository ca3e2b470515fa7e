-- ===== src/Chain/Tests.antt =====
-- Runs of the reads of crates/keyex/src/chain.rs over the sample node.
use kaskad_nuntius.Prelude.{
  ℕ, ◌≡◌, ◌≤◌, take, drop, length, All, arith, refl, [], ◌∷◌, ◌++◌, none, some, ok, replicate,
  list_eq, nat_eq, list_beq,
}
use mathlib.Core.Option
use kaskad_nuntius.Policy.{Bytes}
use kaskad_nuntius.Chain.Text.{
  ascii, hex_text, hex_char, strip_0x, is_ascii_hexdigit, u64_from_hex, hex_digits, hex_value,
}
use kaskad_nuntius.Chain.Quantity.{
  format_quantity, parse_digits, parse_quantity, parse_b256, parse_quantity-format_quantity,
}
use kaskad_nuntius.Chain.Abi.{
  encode_call, encode_words, address_words, decode_words, decode_address_array,
  decode_address_array_sound,
}
use kaskad_nuntius.Chain.Reads.{
  BlockRef, finalized_with_depth, canonical_hash, call_rpc, field, eth_block_number, read_block,
  finalized_block, sel_burned, eth_call_bytes, eth_call_word, read_block_hash, burned_finalized,
}
use kaskad_nuntius.Chain.Finality.{burned_finalized_agrees}
use kaskad_nuntius.Samples.{text, toy_wire, toy_node}

quantity_run : parse_quantity toy_wire (text (ascii "0x3e8")) ≡ some 1000
unfolding parse_quantity parse_digits strip_0x is_ascii_hexdigit u64_from_hex hex_digits hex_value
    Option.bind
quantity_run = refl

quantity_leading_zero : parse_quantity toy_wire (text (ascii "0x03")) ≡ none
unfolding parse_quantity parse_digits strip_0x is_ascii_hexdigit u64_from_hex hex_digits hex_value
    Option.bind
quantity_leading_zero = refl

format_run : format_quantity 1000 ≡ ascii "0x3e8"
unfolding format_quantity hex_text hex_char
format_run = refl

parse_quantity-format_quantity_example :
    parse_quantity toy_wire (text (format_quantity 1000)) ≡ some 1000
parse_quantity-format_quantity_example =
    parse_quantity-format_quantity toy_wire (text (format_quantity 1000)) 1000 (omega arith) refl

abbrev owner : Bytes
owner = replicate 20 3

abbrev buffer : Bytes
buffer = (replicate 31 0 ++ 32 ∷ []) ++ ((replicate 31 0 ++ 1 ∷ []) ++ (replicate 12 0 ++ owner))

owners_run : decode_address_array toy_wire buffer ≡ some (owner ∷ [])
unfolding decode_address_array decode_words address_words list_beq
owners_run = refl

decode_address_array_sound_example :
    (toy_wire.u256_from_be (take 32 buffer) ≡ 32)
    × (toy_wire.u256_from_be (take 32 (drop 32 buffer)) ≡ length (owner ∷ []))
    × (length (owner ∷ []) ≤ 64)
    × All (λ a. length a ≡ 20) (owner ∷ [])
    × ((behind : Bytes) × (drop 64 buffer ≡ encode_words (owner ∷ []) ++ behind))
decode_address_array_sound_example =
    decode_address_array_sound toy_wire buffer (owner ∷ []) owners_run

abbrev finalized : BlockRef
finalized = record { number = 100; hash = replicate 32 9; timestamp = 1000 }

finalized_run : finalized_block toy_wire toy_node (finalized_with_depth 800) 0 ≡ (ok finalized, 2)
unfolding finalized_block read_block call_rpc list_beq field Option.bind parse_quantity parse_b256
    eth_block_number
finalized_run = refl

burned_run :
    burned_finalized toy_wire toy_node (1 ∷ []) (2 ∷ []) (finalized_with_depth 800) 0
    ≡ (ok (7, 100), 5)
unfolding burned_finalized finalized_block read_block call_rpc list_beq field Option.bind
    parse_quantity parse_b256 eth_block_number eth_call_word eth_call_bytes read_block_hash
    format_quantity
burned_run = refl

burned_finalized_agrees_example :
    let read = λ (hash : Bytes).
      eth_call_word toy_wire toy_node
        (1 ∷ [])
        (encode_call sel_burned (2 ∷ []))
        (canonical_hash hash) in
    (block : BlockRef) × (word : Bytes) × (w₁ : ℕ) × (w₂ : ℕ) × (w₃ : ℕ) × (finalized_block toy_wire
        toy_node
        (finalized_with_depth 800)
        0
      ≡ (ok block, w₁))
    × (read block.hash w₁ ≡ (ok word, w₂))
    × (read_block_hash toy_wire toy_node block.number w₂ ≡ (ok block.hash, w₃))
    × (read block.hash w₃ ≡ (ok word, 5))
    × (7 ≡ toy_wire.u256_from_be word)
    × (100 ≡ block.number)
burned_finalized_agrees_example =
    burned_finalized_agrees toy_wire toy_node (1 ∷ []) (2 ∷ []) (finalized_with_depth 800) 0 5 7 100
      burned_run
