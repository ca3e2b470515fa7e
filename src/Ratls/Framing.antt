-- ===== src/Ratls/Framing.antt =====
-- The frames of crates/keyex/src/ratls.rs: four bytes of length, big-endian, and the payload. A stream
-- is what the peer has sent and will send, what has been written, and how many bytes can still be
-- written before the connection breaks.
use kaskad_nuntius.Prelude.{
  ℕ, ◌+◌, ◌-◌, ◌*◌, ◌^◌, ◌≤◌, ◌<◌, ◌≡◌, refl, ◌∙◌, ok, err, Act, ◌>>=◌, length-append, raise, [],
  ◌∷◌, ◌++◌, ltb, leb, length, take, drop, arith, if◌then◌else◌,
}
use mathlib.Core.List.{append_assoc}
use kaskad_nuntius.Policy.{Bytes}
use kaskad_nuntius.Server.{be_bytes}
use kaskad_nuntius.Server.Reading.{be_u32}
use kaskad_nuntius.Server.Payload.{of_be, length-be_bytes, of_be-be_bytes, take-append, drop-append}

pub record Link : Type 0 where
  pub coming : Bytes
  pub sent : Bytes
  pub room : ℕ

pub data Fault : Type 0 where
  no_device closed broken frame_too_large bad_nonce not_attested no_leaf bad_point tls_failed :
      Fault

abbrev pub max_frame : ℕ
max_frame = 65536

-- `write_all`: all of the bytes, or as many as fit before the connection breaks.
unfoldable pub write_all : Bytes → Act Link Fault (Unit {0})
write_all b l =
    if leb (length b) l.room
    then (ok tt, record l { sent = l.sent ++ b; room = l.room - length b })
    else (err broken, record l { sent = l.sent ++ take l.room b; room = 0 })

-- `read_exact`
unfoldable pub read_exact : ℕ → Act Link Fault Bytes
read_exact n l =
    if leb n (length l.coming)
    then (ok (take n l.coming), record l { coming = drop n l.coming })
    else (err closed, record l { coming = [] })

unfoldable pub write_frame : Bytes → Act Link Fault (Unit {0})
unfolding write_all
write_frame payload =
    if ltb (length payload) (2 ^ 32)
    then write_all (be_bytes 4 (length payload)) >>= (λ _. write_all payload)
    else raise frame_too_large

-- A length above the bound is refused before the payload is read.
unfoldable pub read_payload : ℕ → Act Link Fault Bytes
unfolding read_exact
read_payload len = if ltb max_frame len then raise frame_too_large else read_exact len

unfoldable pub read_frame : Act Link Fault Bytes
unfolding read_exact read_payload
read_frame l = (do header ← read_exact 4; read_payload (be_u32 0 header)) l

-- What a frame is on the wire.
abbrev pub frame : Bytes → Bytes
frame payload = be_bytes 4 (length payload) ++ payload

be_u32-eq-of_be : (total : ℕ) (b : Bytes) → be_u32 total b ≡ of_be total b
unfolding be_u32
be_u32-eq-of_be total [] = refl
be_u32-eq-of_be total (x ∷ b) = be_u32-eq-of_be (total * 256 + x) b

read_exact-append :
    (n : ℕ) (b rest sent : Bytes) (room : ℕ)
    → length b ≡ n
    → read_exact n (record { coming = b ++ rest; sent = sent; room = room })
      ≡ (ok b, record { coming = rest; sent = sent; room = room })
unfolding read_exact
read_exact-append n b rest sent room e =
    rw (← e) (ground (arith, length-append b rest, take-append b rest, drop-append b rest))

be_u32-be_bytes : (n : ℕ) → n < 2 ^ 32 → be_u32 0 (be_bytes 4 n) ≡ n
be_u32-be_bytes n h = be_u32-eq-of_be 0 (be_bytes 4 n) ∙ of_be-be_bytes 4 n h

read_payload_lem :
    (payload rest sent : Bytes) (room : ℕ)
    → length payload ≤ max_frame
    → read_payload (length payload) (record { coming = payload ++ rest; sent = sent; room = room })
      ≡ (ok payload, record { coming = rest; sent = sent; room = room })
unfolding read_payload
read_payload_lem payload rest sent room h =
    ground (arith, read_exact-append (length payload) payload rest sent room refl)

-- A frame of at most 64 KiB is read back, and nothing behind it.
pub read_frame-frame :
    (payload rest sent : Bytes) (room : ℕ)
    → length payload ≤ max_frame
    → read_frame (record { coming = frame payload ++ rest; sent = sent; room = room })
      ≡ (ok payload, record { coming = rest; sent = sent; room = room })
unfolding read_frame
read_frame-frame payload rest sent room h =
    rw
      (
        append_assoc (be_bytes 4 (length payload)) payload rest,
        read_exact-append 4 (be_bytes 4 (length payload)) (payload ++ rest) sent room
            (length-be_bytes 4 (length payload)),
        be_u32-be_bytes (length payload) (omega arith),
      )
      (read_payload_lem payload rest sent room h)

-- A frame that is written has been sent whole.
pub write_frame-ok :
    (payload : Bytes) (l : Link) {l' : Link}
    → write_frame payload l ≡ (ok tt, l')
    → (l'.sent ≡ l.sent ++ frame payload) × (l'.coming ≡ l.coming)
unfolding write_frame write_all
write_frame-ok payload l {l'} h =
    ground (arith, append_assoc l.sent (be_bytes 4 (length payload)) payload)

pub write_frame_run :
    (payload coming sent : Bytes) (room : ℕ)
    → length payload < 2 ^ 32
    → 4 + length payload ≤ room
    → write_frame payload (record { coming = coming; sent = sent; room = room }) ≡ (
      ok tt,
      record { coming = coming; sent = sent ++ frame payload; room = room - (4 + length payload) },
    )
unfolding write_frame write_all
write_frame_run payload coming sent room h r = ground (
  arith,
  append_assoc sent (be_bytes 4 (length payload)) payload,
  length-be_bytes 4 (length payload),
)
