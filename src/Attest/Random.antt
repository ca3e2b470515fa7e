-- ===== src/Attest/Random.antt =====
-- Randomness from the hardware module: `Nsm::get_random` of crates/nitro-common/src/nsm.rs, `NsmRng` of
-- crates/nitro-common/src/rng.rs, and `NsmRng` of src/nsm_rng.rs, which differs in its refill. The
-- answers of the module are a list; behind its end a request waits.
pub mod Draws
pub mod Filling
use kaskad_nuntius.Prelude.{
  is_empty, ℕ, zero, suc, ◌+◌, ◌-◌, min, Bool, true, false, List, [], ◌∷◌, ◌++◌, leb, length, take,
  drop, replicate, if◌then◌else◌,
}
use kaskad_nuntius.Policy.{Bytes}

-- `Response` to a `GetRandom` request.
pub data NsmResponse : Type 0 where
  random : Bytes → NsmResponse
  failure unexpected : NsmResponse

-- What a request leaves: a value and the answers to come, an error, a wait for an answer, or a loop cut
-- off for want of fuel.
pub data Outcome (A : Type 0) : Type 0 where
  given : A → List NsmResponse → Outcome A
  failed waiting out_of_fuel : Outcome A

-- The loop of `Nsm::get_random` for `len` bytes.
unfoldable pub get_random_loop : ℕ → Bytes → List NsmResponse → Outcome Bytes
get_random_loop len filled [] = if leb len (length filled) then given filled [] else waiting
get_random_loop len filled (random b ∷ later) =
    let rest = get_random_loop len (filled ++ take (len - length filled) b) later in
    if leb len (length filled)
    then given filled (random b ∷ later)
    else if is_empty b
    then failed
    else rest
get_random_loop len filled (failure ∷ later) =
    if leb len (length filled) then given filled (failure ∷ later) else failed
get_random_loop len filled (unexpected ∷ later) =
    if leb len (length filled) then given filled (unexpected ∷ later) else failed

unfoldable pub get_random : ℕ → List NsmResponse → Outcome Bytes
get_random len answers = get_random_loop len [] answers

abbrev pub refill_buf : ℕ
refill_buf = 256

pub record NsmRng : Type 0 where
  pub buf : Bytes
  pub pos : ℕ
  pub end : ℕ

abbrev pub new_rng : NsmRng
new_rng = record { buf = replicate refill_buf 0; pos = 0; end = 0 }

abbrev pub slot_of : Outcome Bytes → Outcome NsmRng
slot_of (given slot later) = given (record { buf = slot; pos = 0; end = refill_buf }) later
slot_of failed = failed
slot_of waiting = waiting
slot_of out_of_fuel = out_of_fuel

-- `refill` of crates/nitro-common/src/rng.rs: a whole buffer.
unfoldable pub refill : NsmRng → List NsmResponse → Outcome NsmRng
unfolding get_random
refill rng answers = slot_of (get_random refill_buf answers)

-- `refill` of src/nsm_rng.rs: as much of one answer as fits the buffer.
unfoldable pub refill_once : NsmRng → List NsmResponse → Outcome NsmRng
refill_once rng [] = waiting
refill_once rng (random [] ∷ later) = failed
refill_once rng (random (b ∷ more) ∷ later) =
    let n = min (length (b ∷ more)) (length rng.buf) in
    given (record { buf = take n (b ∷ more) ++ drop n rng.buf; pos = 0; end = n }) later
refill_once rng (failure ∷ later) = failed
refill_once rng (unexpected ∷ later) = failed

module _ (refill_with : NsmRng → List NsmResponse → Outcome NsmRng) where
  -- The buffer that the next bytes are copied from.
  unfoldable pub ready : NsmRng → List NsmResponse → Outcome NsmRng
  ready rng answers = if leb rng.end rng.pos then refill_with rng answers else given rng answers

  abbrev pub size : ℕ → Bytes → NsmRng → ℕ
  size len filled rng = min (len - length filled) (rng.end - rng.pos)

  -- The rest of a round of the loop: what is copied, and the loop behind it.
  abbrev pub copied :
      (Bytes → NsmRng → List NsmResponse → Outcome (Bytes × NsmRng))
      → ℕ
      → Bytes
      → Outcome NsmRng
      → Outcome (Bytes × NsmRng)
  copied next len filled (given rng answers) =
      next (filled ++ take (size len filled rng) (drop rng.pos rng.buf))
        (record rng { pos = rng.pos + size len filled rng }) answers
  copied next len filled failed = failed
  copied next len filled waiting = waiting
  copied next len filled out_of_fuel = out_of_fuel

  -- The loop `while filled < dest.len()` of `try_fill_bytes`, on fuel.
  unfoldable pub fill_loop : ℕ → ℕ → Bytes → NsmRng → List NsmResponse → Outcome (Bytes × NsmRng)
  unfolding ready
  fill_loop zero len filled rng answers = out_of_fuel
  fill_loop (suc fuel) len filled rng answers =
      let rest = copied (fill_loop fuel len) len filled (ready rng answers) in
      if leb len (length filled) then given (filled, rng) answers else rest

  -- Each round copies at least one byte.
  unfoldable pub try_fill_bytes : ℕ → NsmRng → List NsmResponse → Outcome (Bytes × NsmRng)
  unfolding fill_loop
  try_fill_bytes len rng answers = fill_loop (suc len) len [] rng answers
