-- ===== src/Ratls/Transfer.antt =====
-- The two sides of the exchange of crates/keyex/src/ratls.rs together.
use mathlib.Core.List.{append_assoc, append-nil}
use kaskad_nuntius.Prelude.{
  ℕ, ◌+◌, ◌-◌, ◌≤◌, ◌≡◌, refl, subst, sym, ap, ◌∙◌, [], ◌∷◌, ◌++◌, some, ok, length, arith,
}
use kaskad_nuntius.Policy.{Bytes, own_key, accept, client_accepts_server}
use kaskad_nuntius.Ratls.Framing.{Link, max_frame, frame, read_frame-frame, write_frame_run}
use kaskad_nuntius.Ratls.Exchange.{
  Hkdf, VerifiedPeer, handed_own_key, installed, Channel, HandoverInputs, AcceptInputs, nonce_of,
  nonce_and_doc_exchange, tag_grant, hand_over, decide_for, answer_peer, server_exchange, receive,
  take_grant, client_exchange,
}
use kaskad_nuntius.Ratls.Secrecy.{IsBound, evaluate_peer_iff, decision_of}

-- An honest exchange: both nonces have 32 bytes, and the documents fit a frame.
pub record IsHonest (ctx : Channel) (peer_nonce my_doc peer_doc : Bytes) (room : ℕ) : Type 0 where
  pub my_nonce_size : length ctx.my_nonce ≡ 32
  pub peer_nonce_size : length peer_nonce ≡ 32
  pub attested : ctx.attest peer_nonce ctx.my_point ≡ some my_doc
  pub my_doc_size : length my_doc ≤ max_frame
  pub peer_doc_size : length peer_doc ≤ max_frame
  pub enough_room : 77 + length my_doc ≤ room

abbrev room_after : Channel → Bytes → ℕ → ℕ
room_after ctx my_doc room = room - (4 + length ctx.my_nonce) - (4 + length my_doc)

abbrev said : Channel → Bytes → Bytes
said ctx my_doc = frame ctx.my_nonce ++ frame my_doc

nonce_and_doc_exchange_run :
    (ctx : Channel) (n my_doc doc rest sent : Bytes) (room : ℕ)
    → IsHonest ctx n my_doc doc room
    → nonce_and_doc_exchange ctx
        (record { coming = frame n ++ (frame doc ++ rest); sent = sent; room = room })
      ≡ (
        ok (n, doc),
        record {
          coming = rest;
          sent = (sent ++ frame ctx.my_nonce) ++ frame my_doc;
          room = room_after ctx my_doc room;
        },
      )
unfolding nonce_and_doc_exchange nonce_of
nonce_and_doc_exchange_run ctx n my_doc doc rest sent room h =
    let left = room - (4 + length ctx.my_nonce) in
    let said_nonce = sent ++ frame ctx.my_nonce in
    rw
      (
        write_frame_run ctx.my_nonce (frame n ++ (frame doc ++ rest)) sent room
            (omega (arith, h.my_nonce_size)) (omega (arith, h.my_nonce_size, h.enough_room)),
        read_frame-frame n (frame doc ++ rest) said_nonce left (omega (arith, h.peer_nonce_size)),
        h.peer_nonce_size,
        h.attested,
        write_frame_run my_doc (frame doc ++ rest) said_nonce left (omega (arith, h.my_doc_size))
            (omega (arith, h.my_nonce_size, h.enough_room)),
        read_frame-frame doc rest (said_nonce ++ frame my_doc) (left - (4 + length my_doc))
            (omega (arith, h.peer_doc_size)),
      )
      refl

-- The server's side of an honest exchange whose peer has earned the own key.
server_run :
    (hkdf : Hkdf) (ctx : Channel) (inputs : HandoverInputs) (key n my_doc doc : Bytes) (room : ℕ)
    (v : VerifiedPeer)
    → IsHonest ctx n my_doc doc room
    → length key ≡ 32
    → IsBound ctx doc v
    → decision_of inputs v ≡ own_key
    → server_exchange hkdf ctx inputs key
        (record { coming = frame n ++ (frame doc ++ []); sent = []; room = room })
      ≡ (
        ok handed_own_key,
        record {
          coming = [];
          sent = (frame ctx.my_nonce ++ frame my_doc) ++ frame (tag_grant ∷ key);
          room = room_after ctx my_doc room - (4 + length (tag_grant ∷ key));
        },
      )
unfolding server_exchange answer_peer decide_for hand_over
server_run hkdf ctx inputs key n my_doc doc room v h k b d =
    rw
      (
        nonce_and_doc_exchange_run ctx n my_doc doc [] [] room h,
        (evaluate_peer_iff ctx doc v).1 b,
        d,
        write_frame_run (tag_grant ∷ key) [] (said ctx my_doc) (room_after ctx my_doc room)
            (omega (arith, k)) (omega (arith, k, h.my_nonce_size, h.enough_room)),
      )
      refl

client_run :
    (ctx : Channel) (inputs : AcceptInputs) (key n my_doc doc : Bytes) (room : ℕ) (v : VerifiedPeer)
    → IsHonest ctx n my_doc doc room
    → length key ≡ 32
    → IsBound ctx doc v
    → client_accepts_server inputs.kind inputs.own_pcr0 v.pcr0 inputs.baked_ancestors ≡ accept
    → (client_exchange ctx inputs (record {
      coming = frame n ++ (frame doc ++ (frame (tag_grant ∷ key) ++ []));
      sent = [];
      room = room;
    })).0
      ≡ ok (installed key)
unfolding client_exchange take_grant receive
client_run ctx inputs key n my_doc doc room v h k b a =
    rw
      (
        nonce_and_doc_exchange_run ctx n my_doc doc (frame (tag_grant ∷ key) ++ []) [] room h,
        (evaluate_peer_iff ctx doc v).1 b,
        read_frame-frame (tag_grant ∷ key) [] (said ctx my_doc) (room_after ctx my_doc room)
            (omega (arith, k)),
        a,
        k,
      )
      refl

-- Two honest sides, each bound to the other by the document that the other attests: if the policy of the
-- server grants its own key and the policy of the client accepts the server, then the server hands its
-- key over, and a client that reads what the server has written installs exactly that key.
pub server_exchange-client_exchange :
    (hkdf : Hkdf) (server client : Channel) (offer : HandoverInputs) (wish : AcceptInputs)
    (key server_doc client_doc : Bytes) (room : ℕ) (seen_client seen_server : VerifiedPeer)
    → IsHonest server client.my_nonce server_doc client_doc room
    → IsHonest client server.my_nonce client_doc server_doc room
    → IsBound server client_doc seen_client
    → IsBound client server_doc seen_server
    → length key ≡ 32
    → decision_of offer seen_client ≡ own_key
    → client_accepts_server wish.kind wish.own_pcr0 seen_server.pcr0 wish.baked_ancestors ≡ accept
    → (done : Link) × (server_exchange hkdf server offer key (record {
      coming = frame client.my_nonce ++ (frame client_doc ++ []);
      sent = [];
      room = room;
    })
        ≡ (ok handed_own_key, done))
      × ((client_exchange client wish (record { coming = done.sent; sent = []; room = room })).0
          ≡ ok (installed key))
server_exchange-client_exchange hkdf server client offer wish key sd cd room sc ss hs hc bs bc k d
      a =
    let grant = frame (tag_grant ∷ key) in
    (
      _,
      server_run hkdf server offer key client.my_nonce sd cd room sc hs k bs d,
      subst
          (λ c.
            (client_exchange client wish (record { coming = c; sent = []; room = room })).0
            ≡ ok (installed key))
          (ap (λ t. frame server.my_nonce ++ (frame sd ++ t)) (append-nil grant)
            ∙ sym (append_assoc (frame server.my_nonce) (frame sd) grant))
          (client_run client wish key server.my_nonce cd sd room ss hc k bc a),
    )
