-- ===== src/Attest/Random/Draws.antt =====
-- What `get_random` and the two refills draw from the answers of the hardware module.
use mathlib.Core.List.{append_assoc, append-nil}
use kaskad_nuntius.Prelude.{
  ℕ, ◌-◌, ◌≤◌, ◌<◌, min, ◌≡◌, refl, subst, sym, ap, ◌∙◌, inl, inr, true, List, [], ◌∷◌, ◌++◌, leb,
  length, All, take, drop, length-append, length-take, take-append_self, length-drop, Bool-cases,
  arith,
}
use kaskad_nuntius.Policy.{Bytes}
use kaskad_nuntius.Attest.Random.{
  NsmResponse, random, failure, unexpected, Outcome, given, failed, waiting, out_of_fuel,
  get_random_loop, get_random, refill_buf, NsmRng, slot_of, refill, refill_once,
}

-- An answer that gives bytes.
abbrev pub IsGood : NsmResponse → Type 0
IsGood (random []) = ⊥
IsGood (random (b ∷ rest)) = Unit
IsGood failure = ⊥
IsGood unexpected = ⊥

-- Bytes made of a first part of each of the answers, which all give bytes, in their order.
pub data Draws : List NsmResponse → Bytes → Type 0 where
  nothing : Draws [] []
  more :
      (n : ℕ) (b : Bytes) {used : List NsmResponse} {out : Bytes}
      → IsGood (random b)
      → Draws used out
      → Draws (random b ∷ used) (take n b ++ out)

pub Draws-append :
    {used used' : List NsmResponse} {out out' : Bytes}
    → Draws used out
    → Draws used' out'
    → Draws (used ++ used') (out ++ out')
Draws-append nothing e = e
Draws-append {used' = used'} {out' = out'} (more n b {out = out} g d) e =
    rw (append_assoc (take n b) out out') (more n b g (Draws-append d e))

pub Draws-IsGood : {used : List NsmResponse} {out : Bytes} → Draws used out → All IsGood used
Draws-IsGood nothing = tt
Draws-IsGood (more n b g d) = (g, Draws-IsGood d)

pub All-append :
    (used later : List NsmResponse)
    → All IsGood used
    → All IsGood later
    → All IsGood (used ++ later)
All-append [] later a b = b
All-append (x ∷ used) later a b = (a.0, All-append used later a.1 b)

-- The first answer that gives no bytes is among them.
abbrev pub HasBad : List NsmResponse → Type 0
HasBad answers =
    (used : List NsmResponse) × (bad : NsmResponse) × (later : List NsmResponse) × (answers
      ≡ used ++ (bad ∷ later))
    × All IsGood used
    × (IsGood bad → ⊥)

pub HasBad-append :
    (used later : List NsmResponse) → All IsGood used → HasBad later → HasBad (used ++ later)
HasBad-append used later a (u, bad, rest, e, g, n) = (
  used ++ u,
  bad,
  rest,
  ap (λ l. used ++ l) e ∙ sym (append_assoc used u (bad ∷ rest)),
  All-append used u a g,
  n,
)

-- The buffer has 256 bytes, and its unread part lies within it.
pub record IsBuffer (rng : NsmRng) : Type 0 where
  pub buf_size : length rng.buf ≡ refill_buf
  pub end_size : rng.end ≤ refill_buf
  pub pos_size : rng.pos ≤ rng.end

abbrev pub unread : NsmRng → Bytes
unread rng = take (rng.end - rng.pos) (drop rng.pos rng.buf)

-- What a loop that has filled `out` has taken.
abbrev Drawn : ℕ → Bytes → List NsmResponse → Bytes → List NsmResponse → Type 0
Drawn len filled answers out later =
    (used : List NsmResponse) × (fresh : Bytes) × (answers ≡ used ++ later)
    × Draws used fresh
    × (out ≡ filled ++ fresh)
    × (length out ≡ len)

Drawn-full :
    (len : ℕ) (filled : Bytes) (answers : List NsmResponse) {out : Bytes} {later : List NsmResponse}
    → length filled ≤ len
    → leb len (length filled) ≡ true
    → given filled answers ≡ given out later
    → Drawn len filled answers out later
Drawn-full len filled answers {out} {later} l full h =
    let same : filled ≡ out = cc in
    ([], [], cc, nothing, sym same ∙ sym (append-nil filled), rw (← same) (ground arith))

get_random_loop-Draws :
    (len : ℕ) (filled : Bytes) (answers : List NsmResponse) {out : Bytes} {later : List NsmResponse}
    → length filled ≤ len
    → get_random_loop len filled answers ≡ given out later
    → Drawn len filled answers out later
unfolding get_random_loop
get_random_loop-Draws len filled [] l h = elim (Bool-cases (leb len (length filled))) [
  | inl full ↦ Drawn-full len filled [] l full (rw full at h)
  | inr room ↦ absurd (ground arith)
]
get_random_loop-Draws len filled (random [] ∷ rest) l h =
    elim (Bool-cases (leb len (length filled))) [
      | inl full ↦ Drawn-full len filled (random [] ∷ rest) l full (rw full at h)
      | inr room ↦ absurd (ground arith)
    ]
get_random_loop-Draws len filled (random (b ∷ more_bytes) ∷ rest) {out} {later} l h =
    elim (Bool-cases (leb len (length filled))) [
      | inl full ↦ Drawn-full len filled (random (b ∷ more_bytes) ∷ rest) l full (rw full at h)
      | inr room ↦
          let n = len - length filled in
          let (used, fresh, e, d, o, s) =
            get_random_loop-Draws len (filled ++ take n (b ∷ more_bytes)) rest
              (omega (
                arith,
                length-append filled (take n (b ∷ more_bytes)),
                length-take n (b ∷ more_bytes),
              ))
              (rw room at h) in
          (
            random (b ∷ more_bytes) ∷ used,
            take n (b ∷ more_bytes) ++ fresh,
            ap (◌∷◌ (random (b ∷ more_bytes))) e,
            more n (b ∷ more_bytes) tt d,
            o ∙ append_assoc filled (take n (b ∷ more_bytes)) fresh,
            s,
          )
    ]
get_random_loop-Draws len filled (failure ∷ rest) l h =
    elim (Bool-cases (leb len (length filled))) [
      | inl full ↦ Drawn-full len filled (failure ∷ rest) l full (rw full at h)
      | inr room ↦ absurd (ground arith)
    ]
get_random_loop-Draws len filled (unexpected ∷ rest) l h =
    elim (Bool-cases (leb len (length filled))) [
      | inl full ↦ Drawn-full len filled (unexpected ∷ rest) l full (rw full at h)
      | inr room ↦ absurd (ground arith)
    ]

-- A refill gives a buffer that is not used up, whose bytes are draws of the answers that it took.
abbrev Refilled : NsmRng → List NsmResponse → List NsmResponse → Type 0
Refilled rng answers later =
    (used : List NsmResponse) × (answers ≡ used ++ later)
    × Draws used (unread rng)
    × IsBuffer rng
    × (rng.pos < rng.end)

take_prefix : (xs ys : Bytes) (n : ℕ) → length xs ≡ n → take n (xs ++ ys) ≡ xs
take_prefix xs ys n e = rw (← e) (take-append_self xs ys)

given-Refilled :
    {r rng : NsmRng} {rest later : List NsmResponse} (answers : List NsmResponse)
    → given r rest ≡ given rng later
    → Refilled r answers rest
    → Refilled rng answers later
given-Refilled {r} {rng} {rest} {later} answers h p =
    let same : r ≡ rng = cc in
    let same_later : rest ≡ later = cc in
    subst (λ a. Refilled a answers later) same (subst (λ a. Refilled r answers a) same_later p)

slot_of-Refilled :
    (answers : List NsmResponse) (o : Outcome Bytes) {rng : NsmRng} {later : List NsmResponse}
    → get_random refill_buf answers ≡ o
    → slot_of o ≡ given rng later
    → Refilled rng answers later
unfolding get_random
slot_of-Refilled answers (given slot rest) {rng} {later} e h =
    let (used, fresh, a, d, o, s) = get_random_loop-Draws refill_buf [] answers (omega arith) e in
    let whole : take refill_buf slot ≡ fresh =
      ap (take refill_buf) (sym (append-nil slot)) ∙ take_prefix slot [] refill_buf s ∙ o in
    let first : Refilled (record { buf = slot; pos = 0; end = refill_buf }) answers rest = (
      used,
      a,
      rw whole d,
      record { buf_size = s; end_size = omega arith; pos_size = omega arith },
      omega arith,
    ) in
    given-Refilled answers h first
slot_of-Refilled answers failed e h = cc
slot_of-Refilled answers waiting e h = cc
slot_of-Refilled answers out_of_fuel e h = cc

refill_once-Refilled :
    (rng : NsmRng) (answers : List NsmResponse) {rng' : NsmRng} {later : List NsmResponse}
    → IsBuffer rng
    → refill_once rng answers ≡ given rng' later
    → Refilled rng' answers later
unfolding refill_once
refill_once-Refilled rng [] v h = cc
refill_once-Refilled rng (random [] ∷ rest) v h = cc
refill_once-Refilled rng (random (b ∷ m) ∷ rest) v h =
    let n = min (length (b ∷ m)) (length rng.buf) in
    let size_of : length (take n (b ∷ m)) ≡ n = omega (arith, length-take n (b ∷ m)) in
    let whole : take n (take n (b ∷ m) ++ drop n rng.buf) ≡ take n (b ∷ m) ++ [] =
      take_prefix (take n (b ∷ m)) (drop n rng.buf) n size_of ∙ sym (append-nil (take n (b ∷ m))) in
    given-Refilled (random (b ∷ m) ∷ rest) h (
      random (b ∷ m) ∷ [],
      refl,
      subst (Draws (random (b ∷ m) ∷ []))
          (sym (ap (λ k. take k (take n (b ∷ m) ++ drop n rng.buf)) (omega arith) ∙ whole))
          (more n (b ∷ m) tt nothing),
      record {
        buf_size = omega (
          arith,
          v.buf_size,
          length-append (take n (b ∷ m)) (drop n rng.buf),
          size_of,
          length-drop n rng.buf,
        );
        end_size = omega (arith, v.buf_size);
        pos_size = omega arith;
      },
      omega (arith, v.buf_size),
    )
refill_once-Refilled rng (failure ∷ rest) v h = cc
refill_once-Refilled rng (unexpected ∷ rest) v h = cc

refill-Refilled :
    (rng : NsmRng) (answers : List NsmResponse) {rng' : NsmRng} {later : List NsmResponse}
    → IsBuffer rng
    → refill rng answers ≡ given rng' later
    → Refilled rng' answers later
unfolding refill
refill-Refilled rng answers v h = slot_of-Refilled answers (get_random refill_buf answers) refl h

-- A refill that ends in a value is sound; it fails at the first answer that gives no bytes, waits when
-- all answers have given bytes, and never wants fuel.
abbrev pub Refills : List NsmResponse → Outcome NsmRng → Type 0
Refills answers (given rng later) = Refilled rng answers later
Refills answers failed = HasBad answers
Refills answers waiting = All IsGood answers
Refills answers out_of_fuel = ⊥

-- What an end of the loop without a value says of the answers.
abbrev Ends : List NsmResponse → Outcome Bytes → Type 0
Ends answers (given out later) = Unit
Ends answers failed = HasBad answers
Ends answers waiting = All IsGood answers
Ends answers out_of_fuel = ⊥

Ends-cons :
    (a : NsmResponse) (answers : List NsmResponse) (o : Outcome Bytes)
    → IsGood a
    → Ends answers o
    → Ends (a ∷ answers) o
Ends-cons a answers (given out later) g h = tt
Ends-cons a answers failed g h = HasBad-append (a ∷ []) answers (g, tt) h
Ends-cons a answers waiting g h = (g, h)
Ends-cons a answers out_of_fuel g h = h

get_random_loop-Ends :
    (len : ℕ) (filled : Bytes) (answers : List NsmResponse)
    → Ends answers (get_random_loop len filled answers)
unfolding get_random_loop
get_random_loop-Ends len filled [] = elim (Bool-cases (leb len (length filled))) [
  | inl full ↦ rw full tt
  | inr room ↦ rw room tt
]
get_random_loop-Ends len filled (random [] ∷ rest) = elim (Bool-cases (leb len (length filled))) [
  | inl full ↦ rw full tt
  | inr room ↦ rw room ([], random [], rest, refl, tt, λ g. g)
]
get_random_loop-Ends len filled (random (b ∷ m) ∷ rest) =
    elim (Bool-cases (leb len (length filled))) [
      | inl full ↦ rw full tt
      | inr room ↦ rw room (
          Ends-cons (random (b ∷ m)) rest _ tt
            (get_random_loop-Ends len (filled ++ take (len - length filled) (b ∷ m)) rest))
    ]
get_random_loop-Ends len filled (failure ∷ rest) = elim (Bool-cases (leb len (length filled))) [
  | inl full ↦ rw full tt
  | inr room ↦ rw room ([], failure, rest, refl, tt, λ g. g)
]
get_random_loop-Ends len filled (unexpected ∷ rest) = elim (Bool-cases (leb len (length filled))) [
  | inl full ↦ rw full tt
  | inr room ↦ rw room ([], unexpected, rest, refl, tt, λ g. g)
]

slot_of-Refills :
    (answers : List NsmResponse) (o : Outcome Bytes)
    → get_random refill_buf answers ≡ o
    → Refills answers (slot_of o)
unfolding get_random
slot_of-Refills answers (given slot later) e = slot_of-Refilled answers (given slot later) e refl
slot_of-Refills answers failed e =
    subst (Ends answers) e (get_random_loop-Ends refill_buf [] answers)
slot_of-Refills answers waiting e =
    subst (Ends answers) e (get_random_loop-Ends refill_buf [] answers)
slot_of-Refills answers out_of_fuel e =
    subst (Ends answers) e (get_random_loop-Ends refill_buf [] answers)

pub refill-Refills :
    (rng : NsmRng) (answers : List NsmResponse)
    → IsBuffer rng
    → Refills answers (refill rng answers)
unfolding refill
refill-Refills rng answers v = slot_of-Refills answers (get_random refill_buf answers) refl

pub refill_once-Refills :
    (rng : NsmRng) (answers : List NsmResponse)
    → IsBuffer rng
    → Refills answers (refill_once rng answers)
unfolding refill_once
refill_once-Refills rng [] v = tt
refill_once-Refills rng (random [] ∷ rest) v = ([], random [], rest, refl, tt, λ g. g)
refill_once-Refills rng (random (b ∷ m) ∷ rest) v =
    refill_once-Refilled rng (random (b ∷ m) ∷ rest) v refl
refill_once-Refills rng (failure ∷ rest) v = ([], failure, rest, refl, tt, λ g. g)
refill_once-Refills rng (unexpected ∷ rest) v = ([], unexpected, rest, refl, tt, λ g. g)
