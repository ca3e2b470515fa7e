-- ===== src/Attest/Random/Filling.antt =====
-- Where the bytes of `try_fill_bytes` come from: every one from the hardware module, in order, once.
use kaskad_nuntius.Prelude.{All, ℕ, ◌<◌, ◌≡◌, List, ◌++◌, length}
use kaskad_nuntius.Policy.{Bytes}
use kaskad_nuntius.Attest.Random.{NsmResponse, Outcome, given, failed, waiting, out_of_fuel, NsmRng}
use kaskad_nuntius.Attest.Random.Draws.{Draws, IsGood, HasBad, IsBuffer, unread}

-- What a fill leaves: an error comes from the first answer that gives no bytes, and a wait is behind the
-- last answer when all have given bytes. Else the bytes that were there, the unread part
-- of the buffer and what was drawn are the bytes given and the unread part of the buffer left.
abbrev pub Filled : ℕ → Bytes → NsmRng → List NsmResponse → Outcome (Bytes × NsmRng) → Type 0
Filled len filled rng answers (given (out, rng') later) =
    (used : List NsmResponse) × (fresh : Bytes) × (answers ≡ used ++ later)
    × Draws used fresh
    × (out ++ unread rng' ≡ filled ++ (unread rng ++ fresh))
    × (length out ≡ len)
    × IsBuffer rng'
Filled len filled rng answers failed = HasBad answers
Filled len filled rng answers waiting = All IsGood answers
Filled len filled rng answers out_of_fuel = ⊥

-- A buffer to copy from: what was unread, and what was drawn.
abbrev Supplied : NsmRng → List NsmResponse → Outcome NsmRng → Type 0
Supplied rng answers (given rng' later) =
    (used : List NsmResponse) × (fresh : Bytes) × (answers ≡ used ++ later)
    × Draws used fresh
    × (unread rng' ≡ unread rng ++ fresh)
    × IsBuffer rng'
    × (rng'.pos < rng'.end)
Supplied rng answers failed = HasBad answers
Supplied rng answers waiting = All IsGood answers
Supplied rng answers out_of_fuel = ⊥
