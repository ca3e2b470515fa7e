-- ===== src/Server/Reading.antt =====
-- How src/price_server.rs reads a request: a length, then as many bytes, before a deadline. Each read of
-- the stream is an event with the time before it, and a stream without a further event blocks.
use kaskad_nuntius.Prelude.{
  ℕ, suc, ◌+◌, ◌-◌, ◌≤◌, ◌*◌, min, ap, take, drop, length-take, length-drop, ◌⊎◌, inl, inr, ◌≡◌,
  refl, sym, ◌∙◌, Bool, true, false, List, [], ◌∷◌, ◌++◌, Option, none, some, Result, ok, err, ltb,
  leb, length, subst, Any, All, take-drop, ◌<◌, length-append, Bool-cases, arith, if◌then◌else◌,
}
use kaskad_nuntius.Policy.{Bytes}
use mathlib.Core.List.{append_assoc}

-- What `read` gives: some bytes, of which `got n` names one less, the end of the stream, a timeout or
-- another error. It gives at most what is asked for and what is there.
pub data ReadResult : Type 0 where
  got : ℕ → ReadResult
  closed timed_out failed : ReadResult

pub data ReadError : Type 0 where
  deadline_exceeded connection_closed read_timed_out read_failed too_large : ReadError

abbrev pub ReadEvent : Type 0
ReadEvent = ℕ × ReadResult

-- The bytes to come and the reads of them.
abbrev pub Stream : Type 0
Stream = Bytes × List ReadEvent

abbrev pub max_request_bytes : ℕ
max_request_bytes = 65536

unfoldable pub be_u32 : ℕ → Bytes → ℕ
be_u32 total [] = total
be_u32 total (b ∷ rest) = be_u32 (total * 256 + b) rest

-- The two tests before a read, on whether the buffer is full and the deadline is over.
unfoldable pub unless_over :
    Bool
    → Bool
    → Bytes × Stream
    → Option (Result ReadError (Bytes × Stream))
    → Option (Result ReadError (Bytes × Stream))
unless_over true over done next = some (ok done)
unless_over false true done next = some (err deadline_exceeded)
unless_over false false done next = next

-- How many bytes a read of `suc n` gives at most.
unfoldable pub read_size : ℕ → Bytes → ℕ → ℕ
read_size len filled n = min (suc n) (len - length filled)

-- The loop `while filled < buf.len()`; none is a stream that blocks.
unfoldable pub read_loop :
    ℕ → ℕ → Bytes → Bytes → List ReadEvent → Option (Result ReadError (Bytes × Stream))
read_loop deadline len filled coming [] =
    if leb len (length filled) then some (ok (filled, (coming, []))) else none
read_loop deadline len filled coming ((now, got n) ∷ events) =
    let size = read_size len filled n in
    let later = read_loop deadline len (filled ++ take size coming) (drop size coming) events in
    unless_over (leb len (length filled)) (leb deadline now)
      (filled, (coming, (now, got n) ∷ events)) later
read_loop deadline len filled coming ((now, closed) ∷ events) =
    unless_over (leb len (length filled)) (leb deadline now)
      (filled, (coming, (now, closed) ∷ events)) (some (err connection_closed))
read_loop deadline len filled coming ((now, timed_out) ∷ events) =
    unless_over (leb len (length filled)) (leb deadline now)
      (filled, (coming, (now, timed_out) ∷ events)) (some (err read_timed_out))
read_loop deadline len filled coming ((now, failed) ∷ events) =
    unless_over (leb len (length filled)) (leb deadline now)
      (filled, (coming, (now, failed) ∷ events)) (some (err read_failed))

unfoldable pub read_exact_with_deadline :
    ℕ → ℕ → Stream → Option (Result ReadError (Bytes × Stream))
read_exact_with_deadline deadline len (coming, events) = read_loop deadline len [] coming events

-- The first part of handle_connection: the bytes of the request.
unfoldable pub read_body :
    ℕ → Option (Result ReadError (Bytes × Stream)) → Option (Result ReadError (Bytes × Stream))
read_body deadline none = none
read_body deadline (some (err e)) = some (err e)
read_body deadline (some (ok (header, stream))) =
    if ltb max_request_bytes (be_u32 0 header)
    then some (err too_large)
    else read_exact_with_deadline deadline (be_u32 0 header) stream

unfoldable pub read_request : ℕ → Stream → Option (Result ReadError (Bytes × Stream))
read_request deadline stream = read_body deadline (read_exact_with_deadline deadline 4 stream)

abbrev read_or : Bytes × Stream → Option (Result ReadError (Bytes × Stream)) → Bytes × Stream
read_or read (some (ok other)) = other
read_or read (some (err e)) = read
read_or read none = read

le→leb : (a b : ℕ) → a ≤ b → leb a b ≡ true
le→leb a b h = ground arith

unless_over-ok :
    (full over : Bool) (done : Bytes × Stream) (next : Option (Result ReadError (Bytes × Stream)))
    {read : Bytes × Stream}
    → unless_over full over done next ≡ some (ok read)
    → ((full ≡ true) × (done ≡ read)) ⊎ ((over ≡ false) × (next ≡ some (ok read)))
unfolding unless_over
unless_over-ok true over done next {read} h = inl (refl, ap (read_or read) h)
unless_over-ok false true done next h = cc
unless_over-ok false false done next h = inr (refl, h)

-- a full buffer is what is given
full-length :
    (len : ℕ) (filled : Bytes) (stream : Stream) {read : Bytes × Stream}
    → length filled ≤ len
    → leb len (length filled) ≡ true
    → (filled, stream) ≡ read
    → length read.0 ≡ len
full-length len filled stream l full e = ap (λ r. length r.0) (sym e) ∙ ground arith

unless_over-length :
    (len : ℕ) (over : Bool) (filled : Bytes) (stream : Stream) (e : ReadError)
    {read : Bytes × Stream}
    → length filled ≤ len
    → unless_over (leb len (length filled)) over (filled, stream) (some (err e)) ≡ some (ok read)
    → length read.0 ≡ len
unless_over-length len over filled stream e l h =
    elim (unless_over-ok (leb len (length filled)) over (filled, stream) (some (err e)) h) [
      | inl (full, same) ↦ full-length len filled stream l full same
      | inr (before, bad) ↦ cc
    ]

-- What was read when the loop ends well is exactly as long as the buffer.
pub read_loop-length :
    (deadline len : ℕ) (filled coming : Bytes) (events : List ReadEvent) {read : Bytes × Stream}
    → length filled ≤ len
    → read_loop deadline len filled coming events ≡ some (ok read)
    → length read.0 ≡ len
unfolding read_loop read_size
read_loop-length deadline len filled coming [] {read} l h =
    elim (Bool-cases (leb len (length filled))) [
      | inl full ↦
          full-length len filled (coming, []) l full (ap (read_or read) (rw (read_loop, full) at h))
      | inr part ↦ let stuck = rw (read_loop, part) at h in cc
    ]
read_loop-length deadline len filled coming ((now, got n) ∷ events) l h =
    let size = min (suc n) (len - length filled) in
    elim (unless_over-ok (leb len (length filled)) (leb deadline now)
      (filled, (coming, (now, got n) ∷ events))
      (read_loop deadline len (filled ++ take size coming) (drop size coming) events) h) [
        | inl (full, same) ↦ full-length len filled _ l full same
        | inr (before, later) ↦
            read_loop-length deadline len (filled ++ take size coming) (drop size coming) events
              (omega (arith, length-append filled (take size coming), length-take size coming))
              later
      ]
read_loop-length deadline len filled coming ((now, closed) ∷ events) l h =
    unless_over-length len (leb deadline now) filled _ connection_closed l h
read_loop-length deadline len filled coming ((now, timed_out) ∷ events) l h =
    unless_over-length len (leb deadline now) filled _ read_timed_out l h
read_loop-length deadline len filled coming ((now, failed) ∷ events) l h =
    unless_over-length len (leb deadline now) filled _ read_failed l h

unless_over-ends :
    (full over : Bool) (done : Bytes × Stream) (next : Option (Result ReadError (Bytes × Stream)))
    → (full ≡ false → over ≡ false → (r : Result ReadError (Bytes × Stream)) × (next ≡ some r))
    → (r : Result ReadError (Bytes × Stream)) × (unless_over full over done next ≡ some r)
unfolding unless_over
unless_over-ends true over done next h = (ok done, refl)
unless_over-ends false true done next h = (err deadline_exceeded, refl)
unless_over-ends false false done next h = h refl refl

-- The loop ends once there have been as many reads as bytes are missing, if that many bytes come.
read_loop-fills :
    (deadline len : ℕ) (filled coming : Bytes) (events : List ReadEvent)
    → len ≤ length filled + length events
    → len ≤ length filled + length coming
    → (r : Result ReadError (Bytes × Stream)) × (read_loop deadline len filled coming events
        ≡ some r)
unfolding read_loop read_size
read_loop-fills deadline len filled coming [] h k =
    (ok (filled, (coming, [])), rw (le→leb len (length filled) (omega (arith, h))) refl)
read_loop-fills deadline len filled coming ((now, got n) ∷ events) h k =
    let size = min (suc n) (len - length filled) in
    unless_over-ends (leb len (length filled)) (leb deadline now)
      (filled, (coming, (now, got n) ∷ events))
      (read_loop deadline len (filled ++ take size coming) (drop size coming) events)
      (λ part fresh.
        read_loop-fills deadline len (filled ++ take size coming) (drop size coming) events
          (ground (arith, part, length-append filled (take size coming), length-take size coming))
          (omega (
            arith,
            length-append filled (take size coming),
            length-take size coming,
            length-drop size coming,
          )))
read_loop-fills deadline len filled coming ((now, closed) ∷ events) h k =
    unless_over-ends _ _ _ _ (λ part fresh. (err connection_closed, refl))
read_loop-fills deadline len filled coming ((now, timed_out) ∷ events) h k =
    unless_over-ends _ _ _ _ (λ part fresh. (err read_timed_out, refl))
read_loop-fills deadline len filled coming ((now, failed) ∷ events) h k =
    unless_over-ends _ _ _ _ (λ part fresh. (err read_failed, refl))

-- A read behind the deadline ends the loop.
read_loop-late :
    (deadline len : ℕ) (filled coming : Bytes) (events : List ReadEvent)
    → Any (λ e. deadline ≤ e.0) events
    → (r : Result ReadError (Bytes × Stream)) × (read_loop deadline len filled coming events
        ≡ some r)
unfolding read_loop
read_loop-late deadline len filled coming [] h = absurd h
read_loop-late deadline len filled coming ((now, got n) ∷ events) (inl late) =
    unless_over-ends _ _ _ _ (λ part fresh. absurd (ground arith))
read_loop-late deadline len filled coming ((now, got n) ∷ events) (inr h) =
    let size = read_size len filled n in
    unless_over-ends _ _ _ _ (λ part fresh.
      read_loop-late deadline len (filled ++ take size coming) (drop size coming) events h)
read_loop-late deadline len filled coming ((now, closed) ∷ events) h =
    unless_over-ends _ _ _ _ (λ part fresh. (err connection_closed, refl))
read_loop-late deadline len filled coming ((now, timed_out) ∷ events) h =
    unless_over-ends _ _ _ _ (λ part fresh. (err read_timed_out, refl))
read_loop-late deadline len filled coming ((now, failed) ∷ events) h =
    unless_over-ends _ _ _ _ (λ part fresh. (err read_failed, refl))

-- What read an error comes from.
abbrev pub Causes : ℕ → ReadError → ReadEvent → Type 0
Causes deadline deadline_exceeded (now, result) = deadline ≤ now
Causes deadline connection_closed (now, result) = (now < deadline) × (result ≡ closed)
Causes deadline read_timed_out (now, result) = (now < deadline) × (result ≡ timed_out)
Causes deadline read_failed (now, result) = (now < deadline) × (result ≡ failed)
Causes deadline too_large event = ⊥

-- A loop that ends well has filled the buffer, in order, with reads that were all made before the
-- deadline; one that ends in an error has made its reads before the deadline, up to the one that the
-- error comes from.
abbrev pub InTime :
    ℕ → ℕ → Bytes → Bytes → List ReadEvent → Result ReadError (Bytes × Stream) → Type 0
InTime deadline len filled coming events (ok (out, (left, later))) =
    (used : List ReadEvent) × (events ≡ used ++ later)
    × All (λ e. e.0 < deadline) used
    × (length out ≡ len)
    × (out ++ left ≡ filled ++ coming)
InTime deadline len filled coming events (err e) =
    (used : List ReadEvent) × (event : ReadEvent) × (later : List ReadEvent) × (events
      ≡ used ++ (event ∷ later))
    × All (λ e. e.0 < deadline) used
    × Causes deadline e event

some-inj : {A : Type 0} {a b : A} → some a ≡ some b → a ≡ b
some-inj h = cc

unless_over-InTime :
    (deadline len now : ℕ) (filled coming : Bytes) (result : ReadResult) (events : List ReadEvent)
    (next : Option (Result ReadError (Bytes × Stream))) (r : Result ReadError (Bytes × Stream))
    → length filled ≤ len
    → unless_over
        (leb len (length filled))
        (leb deadline now)
        (filled, (coming, (now, result) ∷ events))
        next
      ≡ some r
    → (now < deadline
        → length filled < len
        → next ≡ some r
        → InTime deadline len filled coming ((now, result) ∷ events) r)
    → InTime deadline len filled coming ((now, result) ∷ events) r
unfolding unless_over
unless_over-InTime deadline len now filled coming result events next r l h k =
    elim (Bool-cases (leb len (length filled))) [
      | inl full ↦
          let e : ok (filled, (coming, (now, result) ∷ events)) ≡ r = some-inj (rw full at h) in
          subst (InTime deadline len filled coming ((now, result) ∷ events)) e
            ([], refl, tt, ground arith, refl)
      | inr part ↦ elim (Bool-cases (leb deadline now)) [
        | inl over ↦
            let e : err deadline_exceeded ≡ r = some-inj (rw (part, over) at h) in
            subst (InTime deadline len filled coming ((now, result) ∷ events)) e
              ([], (now, result), events, refl, tt, ground arith)
        | inr fresh ↦ k (ground arith) (ground arith) (rw (part, fresh) at h)
      ]
    ]

further-InTime :
    (deadline len n now : ℕ) (filled coming : Bytes) (events : List ReadEvent)
    (r : Result ReadError (Bytes × Stream))
    → now < deadline
    → InTime deadline len (filled ++ take n coming) (drop n coming) events r
    → (result : ReadResult) → InTime deadline len filled coming ((now, result) ∷ events) r
further-InTime deadline len n now filled coming events (ok (out, (left, later))) t
      (used, e, a, l, o) result =
    (
      (now, result) ∷ used,
      ap (◌∷◌ (now, result)) e,
      (t, a),
      l,
      o
          ∙ append_assoc filled (take n coming) (drop n coming)
          ∙ ap (λ b. filled ++ b) (take-drop n coming),
    )
further-InTime deadline len n now filled coming events (err x) t (used, event, later, e, a, c)
      result =
    ((now, result) ∷ used, event, later, ap (◌∷◌ (now, result)) e, (t, a), c)

read_loop-InTime :
    (deadline len : ℕ) (filled coming : Bytes) (events : List ReadEvent)
    (r : Result ReadError (Bytes × Stream))
    → length filled ≤ len
    → read_loop deadline len filled coming events ≡ some r
    → InTime deadline len filled coming events r
unfolding read_loop read_size
read_loop-InTime deadline len filled coming [] r l h = elim (Bool-cases (leb len (length filled))) [
  | inl full ↦
      let e : ok (filled, (coming, [])) ≡ r = some-inj (rw (read_loop, full) at h) in
      subst (InTime deadline len filled coming []) e ([], refl, tt, ground arith, refl)
  | inr part ↦ let stuck = rw (read_loop, part) at h in cc
]
read_loop-InTime deadline len filled coming ((now, got n) ∷ events) r l h =
    let size = min (suc n) (len - length filled) in
    unless_over-InTime deadline len now filled coming (got n) events _ r l h (λ t part later.
      further-InTime deadline len size now filled coming events r t
        (read_loop-InTime deadline len (filled ++ take size coming) (drop size coming) events r
          (omega (arith, length-append filled (take size coming), length-take size coming)) later)
        (got n))
read_loop-InTime deadline len filled coming ((now, closed) ∷ events) r l h =
    unless_over-InTime deadline len now filled coming closed events _ r l h (λ t part e.
      subst (InTime deadline len filled coming ((now, closed) ∷ events)) (some-inj e)
        ([], (now, closed), events, refl, tt, (t, refl)))
read_loop-InTime deadline len filled coming ((now, timed_out) ∷ events) r l h =
    unless_over-InTime deadline len now filled coming timed_out events _ r l h (λ t part e.
      subst (InTime deadline len filled coming ((now, timed_out) ∷ events)) (some-inj e)
        ([], (now, timed_out), events, refl, tt, (t, refl)))
read_loop-InTime deadline len filled coming ((now, failed) ∷ events) r l h =
    unless_over-InTime deadline len now filled coming failed events _ r l h (λ t part e.
      subst (InTime deadline len filled coming ((now, failed) ∷ events)) (some-inj e)
        ([], (now, failed), events, refl, tt, (t, refl)))

-- With a read at the deadline or behind it, or with as many reads and bytes to come as bytes are missing,
-- the loop ends. If it ends well, then it has filled the buffer with the next bytes, in order, by reads
-- that were all made before the deadline; if it ends in an error, then the reads up to the one that the
-- error comes from were made before the deadline, and an exceeded deadline comes from a read that was
-- not. So a stream that gives single bytes cannot keep the loop beyond the deadline.
pub read_loop-ends :
    (deadline len : ℕ) (filled coming : Bytes) (events : List ReadEvent)
    → length filled ≤ len
    → Any (λ e. deadline ≤ e.0) events
      ⊎ ((len ≤ length filled + length events) × (len ≤ length filled + length coming))
    → (r : Result ReadError (Bytes × Stream)) × (read_loop deadline len filled coming events
        ≡ some r)
      × InTime deadline len filled coming events r
read_loop-ends deadline len filled coming events l (inl late) =
    let (r, e) = read_loop-late deadline len filled coming events late in
    (r, e, read_loop-InTime deadline len filled coming events r l e)
read_loop-ends deadline len filled coming events l (inr (h, k)) =
    let (r, e) = read_loop-fills deadline len filled coming events h k in
    (r, e, read_loop-InTime deadline len filled coming events r l e)
