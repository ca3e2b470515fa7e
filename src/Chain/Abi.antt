-- ===== src/Chain/Abi.antt =====
-- ABI words: `encode_call` and `decode_address_array` of crates/keyex/src/chain.rs. The loop over
-- `raw[64 + i * 32 .. 96 + i * 32]` reads word after word of what follows the first 64 bytes.
use kaskad_nuntius.Prelude.{
  ℕ, zero, suc, ◌+◌, ◌*◌, ◌≤◌, ◌≡◌, refl, ap, sym, ◌∙◌, not, ◌||◌, List, [], ◌∷◌, ◌++◌, Option,
  none, some, ltb, length, take, drop, replicate, length-take, length-drop, All, ◌==◌, eq_iff,
  nat_eq, list_eq, arith, if◌then◌else◌, Bool-cases, inl, inr,
}
use mathlib.Core.Option
use mathlib.Core.List.{append_assoc}
use kaskad_nuntius.Policy.{Bytes}
use kaskad_nuntius.Chain.Wire.{Wire}

abbrev pub max_safe_owners : ℕ
max_safe_owners = 64

-- selector, twelve zero bytes, address
unfoldable pub encode_call : Bytes → Bytes → Bytes
encode_call selector arg = selector ++ (replicate 12 0 ++ arg)

-- The remaining rounds of the loop, over what the earlier rounds have left.
unfoldable pub address_words : ℕ → Bytes → Option (List Bytes)
address_words zero rest = some []
address_words (suc n) rest =
    let out = address_words n (drop 32 rest) in
    let w = take 32 rest in
    if not (take 12 w == replicate 12 0) then none else Option.map (λ l. drop 12 w ∷ l) out

-- The tests on the length word, and the loop.
unfoldable pub decode_words : Bytes → ℕ → Option (List Bytes)
decode_words raw len =
    if ltb max_safe_owners len || ltb (length raw) (64 + len * 32)
    then none
    else address_words len (drop 64 raw)

module _ (x : Wire) where
  unfoldable pub decode_address_array : Bytes → Option (List Bytes)
  decode_address_array raw =
      if ltb (length raw) 64
      then none
      else if not (x.u256_from_be (take 32 raw) == 32)
      then none
      else decode_words raw (x.u256_from_be (take 32 (drop 32 raw)))

-- The words that a list of addresses is encoded as.
abbrev pub encode_words : List Bytes → Bytes
encode_words [] = []
encode_words (a ∷ l) = replicate 12 0 ++ (a ++ encode_words l)

take-append-drop : (n : ℕ) (xs : Bytes) → take n xs ++ drop n xs ≡ xs
take-append-drop zero xs = refl
take-append-drop (suc n) [] = refl
take-append-drop (suc n) (y ∷ xs) = ap (◌∷◌ y) (take-append-drop n xs)

length-drop_le : (k : ℕ) (w : Bytes) → 32 ≤ length w → length (drop 12 (take 32 w)) ≡ 20
length-drop_le k w h = omega (arith, length-drop 12 (take 32 w), length-take 32 w)

Option-map-some :
    {A B : Type 0} (f : A → B) (o : Option A) {b : B}
    → Option.map f o ≡ some b
    → (a : A) × (o ≡ some a) × (f a ≡ b)
Option-map-some f none h = cc
Option-map-some f (some a) {b} h = (a, refl, ground arith)

-- A round that does not fail has read a word of twelve zero bytes and an address.
address_words-step :
    (n : ℕ) (rest : Bytes) (l : List Bytes)
    → address_words (suc n) rest ≡ some l
    → (a : Bytes) × (l' : List Bytes) × (take 32 rest ≡ replicate 12 0 ++ a)
      × (a ≡ drop 12 (take 32 rest))
      × (address_words n (drop 32 rest) ≡ some l')
      × (l ≡ a ∷ l')
unfolding address_words
address_words-step n rest l e = elim (Bool-cases (take 12 (take 32 rest) == replicate 12 0)) [
  | inr q ↦ absurd (ground arith)
  | inl q ↦
      let (l', p, r) =
        Option-map-some (λ l. drop 12 (take 32 rest) ∷ l) (address_words n (drop 32 rest)) {b = l}
          (ground arith) in
      (
        drop 12 (take 32 rest),
        l',
        sym (take-append-drop 12 (take 32 rest))
            ∙ ap (λ t. t ++ drop 12 (take 32 rest))
                ((eq_iff (take 12 (take 32 rest)) (replicate 12 0)).0 q),
        refl,
        p,
        sym r,
      )
]

-- What the loop returns is what stands in the words it has read.
address_words-encoded :
    (n : ℕ) (rest : Bytes) (l : List Bytes)
    → n * 32 ≤ length rest
    → address_words n rest ≡ some l
    → (length l ≡ n)
      × All (λ a. length a ≡ 20) l
      × ((behind : Bytes) × (rest ≡ encode_words l ++ behind))
unfolding address_words
address_words-encoded zero rest l h e =
    let z : l ≡ [] = ground arith in rw z (refl, tt, (rest, refl))
address_words-encoded (suc n) rest l h e =
    let (a, l', w, d, p, r) = address_words-step n rest l e in
    let (len, sizes, (behind, q)) =
      address_words-encoded n (drop 32 rest) l' (omega (arith, length-drop 32 rest)) p in
    rw r (
      ap suc len,
      (rw d (length-drop_le 0 rest (omega arith)), sizes),
      (
        behind,
        sym (take-append-drop 32 rest)
            ∙ ap (λ t. t ++ drop 32 rest) w
            ∙ ap (λ t. (replicate 12 0 ++ a) ++ t) q
            ∙ ap (λ t. replicate 12 0 ++ t) (sym (append_assoc a (encode_words l') behind)),
      ),
    )

decode_words-some :
    (raw : Bytes) (len : ℕ) (owners : List Bytes)
    → decode_words raw len ≡ some owners
    → (len ≤ 64) × (64 + len * 32 ≤ length raw) × (address_words len (drop 64 raw) ≡ some owners)
unfolding decode_words
decode_words-some raw len owners h = ground arith

module _ (x : Wire) where
  -- If a return buffer decodes to a list of addresses, then its first word is 32, its second word is the
  -- number of the addresses, that number is at most 64, every address has twenty bytes, and behind the
  -- two words the buffer holds exactly the ABI words of those addresses, before what may follow.
  pub decode_address_array_sound :
      (raw : Bytes) (owners : List Bytes)
      → decode_address_array x raw ≡ some owners
      → (x.u256_from_be (take 32 raw) ≡ 32)
        × (x.u256_from_be (take 32 (drop 32 raw)) ≡ length owners)
        × (length owners ≤ 64)
        × All (λ a. length a ≡ 20) owners
        × ((behind : Bytes) × (drop 64 raw ≡ encode_words owners ++ behind))
  unfolding decode_address_array
  decode_address_array_sound raw owners h =
      let len = x.u256_from_be (take 32 (drop 32 raw)) in
      let d : decode_words raw len ≡ some owners = ground arith in
      let (few, room, read) = decode_words-some raw len owners d in
      let (count, sizes, words) =
        address_words-encoded len (drop 64 raw) owners (omega (arith, length-drop 64 raw)) read in
      (ground arith, sym count, omega (arith, count), sizes, words)
