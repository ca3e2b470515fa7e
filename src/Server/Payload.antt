-- ===== src/Server/Payload.antt =====
-- What a signature of src/signer.rs is over: the payload determines the price that it is for.
use native.Mathlib.Nat.{pow-suc}
use kaskad_nuntius.Prelude.{
  ℕ, zero, suc, ◌+◌, ◌*◌, ◌/◌, ◌%◌, ◌^◌, ◌<◌, ◌≡◌, refl, sym, ap, ◌∙◌, [], ◌∷◌, ◌++◌, length, take,
  drop, length-append, arith,
}
use kaskad_nuntius.Policy.{Bytes}
use kaskad_nuntius.Server.{be_bytes, price_payload}

abbrev pub of_be : ℕ → Bytes → ℕ
of_be total [] = total
of_be total (b ∷ rest) = of_be (total * 256 + b) rest

pub of_be-append : (xs ys : Bytes) (total : ℕ) → of_be total (xs ++ ys) ≡ of_be (of_be total xs) ys
of_be-append [] ys total = refl
of_be-append (x ∷ xs) ys total = of_be-append xs ys (total * 256 + x)

pub length-be_bytes : (n value : ℕ) → length (be_bytes n value) ≡ n
unfolding be_bytes
length-be_bytes zero value = refl
length-be_bytes (suc n) value = omega (
  arith,
  length-append (be_bytes n (value / 256)) (value % 256 ∷ []),
  length-be_bytes n (value / 256),
)

-- A number of as many bytes as are written is read back.
pub of_be-be_bytes : (n value : ℕ) → value < 256 ^ n → of_be 0 (be_bytes n value) ≡ value
unfolding be_bytes
of_be-be_bytes zero value h = omega (arith, h)
of_be-be_bytes (suc n) value h =
    of_be-append (be_bytes n (value / 256)) (value % 256 ∷ []) 0
    ∙ omega (arith, of_be-be_bytes n (value / 256) (omega (arith, h, pow-suc 256 n)))

pub take-append : (xs ys : Bytes) → take (length xs) (xs ++ ys) ≡ xs
take-append [] ys = refl
take-append (x ∷ xs) ys = ap (◌∷◌ x) (take-append xs ys)

pub drop-append : (xs ys : Bytes) → drop (length xs) (xs ++ ys) ≡ ys
drop-append [] ys = refl
drop-append (x ∷ xs) ys = drop-append xs ys

-- Two texts whose first parts have the same length agree in both parts if they agree.
split :
    (xs xs' ys ys' : Bytes)
    → length xs ≡ length xs'
    → xs ++ ys ≡ xs' ++ ys'
    → (xs ≡ xs') × (ys ≡ ys')
split xs xs' ys ys' l e = (
  sym (take-append xs ys)
      ∙ ap (take (length xs)) e
      ∙ ap (λ n. take n (xs' ++ ys')) l
      ∙ take-append xs' ys',
  sym (drop-append xs ys)
      ∙ ap (drop (length xs)) e
      ∙ ap (λ n. drop n (xs' ++ ys')) l
      ∙ drop-append xs' ys',
)

same_number : (a b : ℕ) → a < 2 ^ 256 → b < 2 ^ 256 → be_bytes 32 a ≡ be_bytes 32 b → a ≡ b
same_number a b la lb e = sym (of_be-be_bytes 32 a la) ∙ ap (of_be 0) e ∙ of_be-be_bytes 32 b lb

abbrev numbers : ℕ → ℕ → ℕ → Bytes → Bytes
numbers price time count hash = be_bytes 32 price ++ (be_bytes 32 time ++ (count ∷ hash))

-- Two payloads with asset ids of the same length and with prices and times of at most 256 bits are equal
-- only if the asset ids, the prices, the times, the numbers of sources and the source hashes are: no
-- signature over one of them is a signature over a different price.
pub price_payload-inj :
    (id id' : Bytes) (price price' time time' count count' : ℕ) (hash hash' : Bytes)
    → length id ≡ length id'
    → price < 2 ^ 256
    → price' < 2 ^ 256
    → time < 2 ^ 256
    → time' < 2 ^ 256
    → price_payload id price time count hash ≡ price_payload id' price' time' count' hash'
    → (id ≡ id') × (price ≡ price') × (time ≡ time') × (count ≡ count') × (hash ≡ hash')
unfolding price_payload
price_payload-inj id id' p p' t t' c c' h h' l lp lp' lt lt' e =
    let outer = split id id' (numbers p t c h) (numbers p' t' c' h') l e in
    let second =
      split (be_bytes 32 p) (be_bytes 32 p') (be_bytes 32 t ++ (c ∷ h))
        (be_bytes 32 t' ++ (c' ∷ h')) (length-be_bytes 32 p ∙ sym (length-be_bytes 32 p'))
        outer.1 in
    let third =
      split (be_bytes 32 t) (be_bytes 32 t') (c ∷ h) (c' ∷ h')
        (length-be_bytes 32 t ∙ sym (length-be_bytes 32 t')) second.1 in
    let last = split (c ∷ []) (c' ∷ []) h h' refl third.1 in
    (
      outer.0,
      same_number p p' lp lp' second.0,
      same_number t t' lt lt' third.0,
      omega (arith, ap (of_be 0) last.0),
      last.1,
    )
