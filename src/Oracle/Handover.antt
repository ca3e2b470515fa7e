-- ===== src/Oracle/Handover.antt =====
-- The handover server of src/keyex_oracle/handover.rs: one connection, the faults of `accept` (mod.rs),
-- and the counter of connections in flight. Which connection gets when a turn is a sequence of steps; a
-- handshake that runs out of time is one whose stream ends.
pub mod Served
pub mod Inflight
mod Tests
use kaskad_nuntius.Prelude.{
  ℕ, ◌+◌, ◌-◌, ◌≤◌, ◌≡◌, Bool, true, false, Option, none, some, Result, ok, err, Act, ◌>>=◌, pure,
  raise, leb, if◌then◌else◌,
}
use kaskad_nuntius.Policy.{Bytes, EnclaveRole, oracle, ImageIdentity}
use kaskad_nuntius.Ratls.Framing.{Link, Fault, no_device}
use kaskad_nuntius.Ratls.Exchange.{
  Hkdf, Session, Channel, HandoverInputs, ServerExchange, run_server_handshake,
}
use kaskad_nuntius.Oracle.State.{OracleKeyexState}

-- The names of libc that the code tells apart.
pub data Errno : Type 0 where
  eintr econnaborted emfile enfile enobufs enomem : Errno
  another : ℕ → Errno

pub data AcceptFault : Type 0 where
  retry_now backoff : AcceptFault

-- `none` is the fatal error.
unfoldable pub classify_accept : Option Errno → Option AcceptFault
classify_accept (some eintr) = some retry_now
classify_accept (some econnaborted) = some retry_now
classify_accept (some emfile) = some backoff
classify_accept (some enfile) = some backoff
classify_accept (some enobufs) = some backoff
classify_accept (some enomem) = some backoff
classify_accept (some (another n)) = none
classify_accept none = none

abbrev pub max_handover_inflight : ℕ
max_handover_inflight = 8

-- The counter, with the connections that hold a guard, and whether the accept loop stands between the
-- two changes that it makes for a connection it drops.
pub record Handovers : Type 0 where
  pub inflight : ℕ
  pub guards : ℕ
  pub dropping : Bool

abbrev pub no_handovers : Handovers
no_handovers = record { inflight = 0; guards = 0; dropping = false }

-- `fetch_add`, and what its result decides.
unfoldable pub arrive : Handovers → Handovers
arrive h =
    if leb max_handover_inflight h.inflight
    then record h { inflight = h.inflight + 1; dropping = true }
    else record h { inflight = h.inflight + 1; guards = h.guards + 1 }

-- The `fetch_sub` of an overload.
unfoldable pub drop_connection : Handovers → Handovers
drop_connection h = record h { inflight = h.inflight - 1; dropping = false }

-- `InflightGuard::drop`
unfoldable pub end_connection : Handovers → Handovers
end_connection h = record h { inflight = h.inflight - 1; guards = h.guards - 1 }

-- The accept loop takes connections one after the other; they end at any time.
pub data HandoverStep (h : Handovers) : Handovers → Type 0 where
  arrives : h.dropping ≡ false → HandoverStep h (arrive h)
  drops : h.dropping ≡ true → HandoverStep h (drop_connection h)
  ends : 1 ≤ h.guards → HandoverStep h (end_connection h)

pub data Reachable : Handovers → Type 0 where
  start : Reachable no_handovers
  after : {h h' : Handovers} → Reachable h → HandoverStep h h' → Reachable h'

abbrev pub handover_inputs : ImageIdentity → OracleKeyexState → HandoverInputs
handover_inputs own st = record {
  own = own;
  role = oracle;
  own_key_is_candidate = false;
  approvals = st.approvals;
}

module _ (key_bits : Bytes → Option Bytes) (hkdf : Hkdf) (own : ImageIdentity)
    (session : Session) where
  -- Behind the second lock, with the state at that time.
  unfoldable pub serve_key :
      OracleKeyexState → Channel → Option Bytes → Act Link Fault (Option ServerExchange)
  unfolding run_server_handshake
  serve_key st hs none = pure none
  serve_key st hs (some root_bytes) =
      run_server_handshake key_bits hkdf session hs (handover_inputs own st) root_bytes
      >>= (λ done. pure (some done))

  -- What needs the hardware: its handle, clock and randomness, the certificate and the acceptor.
  unfoldable pub serve_prepared :
      OracleKeyexState → Option Channel → Act Link Fault (Option ServerExchange)
  unfolding serve_key
  serve_prepared st (some hs) = serve_key st hs st.root_key
  serve_prepared st none = raise no_device

  -- A connection: the states of the first and of the second lock, and what the hardware prepares in
  -- between. `none` is a connection that is closed without an exchange.
  unfoldable pub handle_handover_conn :
      OracleKeyexState → Option Channel → OracleKeyexState → Act Link Fault (Option ServerExchange)
  unfolding serve_prepared
  handle_handover_conn st prepared later = elim st.root_key [
    | none ↦ pure none
    | some key ↦ serve_prepared later prepared
  ]
