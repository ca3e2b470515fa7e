-- ===== src/Ratls/Secrecy.antt =====
-- Who gets a key out of the exchange of crates/keyex/src/ratls.rs.
use kaskad_nuntius.Prelude.{
  ◌≡◌, refl, subst, ◌∙◌, ◌≢◌, ◌↔◌, ◌⊎◌, inl, inr, [], ◌∷◌, some, Result, ok, err, Option-cases,
  map_err, and_then-ok, map_err-ok, >>=-eq-ok, length, arith,
}
use kaskad_nuntius.Policy.{
  Bytes, KeyDecision, own_key, child_key, refuse, ClientDecision, accept, reject, decide_handover,
  client_accepts_server,
}
use kaskad_nuntius.Ratls.Binding.{check_nonce, check_peer_key, check_nonce_iff, check_peer_key_iff}
use kaskad_nuntius.Ratls.Framing.{Link, Fault, read_frame}
use kaskad_nuntius.Ratls.Exchange.{
  Hkdf, derive_child, VerifiedPeer, ExchangeRefusal, ServerExchange, nonce_mismatch, key_mismatch,
  view_of, bind_peer, installed, Channel, HandoverInputs, AcceptInputs, nonce_and_doc_exchange,
  evaluate_peer, tag_grant, hand_over, decide_for, answer_peer, server_exchange, receive,
  drain_and_refuse, take_grant, client_exchange,
}

-- The document was verified against our nonce, carries it, and attests the key of the peer's side of the
-- TLS session, which is not empty.
abbrev pub IsBound : Channel → Bytes → VerifiedPeer → Type 0
IsBound ctx doc v =
    (ctx.verify doc ctx.my_nonce ≡ some v)
    × (v.nonce ≡ some ctx.my_nonce)
    × (v.public_key ≡ ctx.peer_point)
    × (ctx.peer_point ≢ [])

bind_peer-ok :
    (ctx : Channel) (u v : VerifiedPeer)
    → bind_peer ctx u ≡ ok v
    → (u ≡ v)
      × (u.nonce ≡ some ctx.my_nonce)
      × (u.public_key ≡ ctx.peer_point)
      × (ctx.peer_point ≢ [])
unfolding bind_peer
bind_peer-ok ctx u v h =
    let (a, p, h₁) =
      and_then-ok (map_err (λ _. nonce_mismatch) (check_nonce (view_of u) ctx.my_nonce)) _ h in
    let (b, q, h₂) =
      and_then-ok (map_err (λ _. key_mismatch) (check_peer_key (view_of u) ctx.peer_point)) _ h₁ in
    let n = (check_nonce_iff (view_of u) ctx.my_nonce).0 (map_err-ok _ _ p) in
    let k = (check_peer_key_iff (view_of u) ctx.peer_point).0 (map_err-ok _ _ q) in
    (cc, n, k.0, k.1)

bind_peer_run :
    (ctx : Channel) (v : VerifiedPeer)
    → v.nonce ≡ some ctx.my_nonce
    → v.public_key ≡ ctx.peer_point
    → ctx.peer_point ≢ []
    → bind_peer ctx v ≡ ok v
unfolding bind_peer
bind_peer_run ctx v n k e = rw (
  (check_nonce_iff (view_of v) ctx.my_nonce).1 n,
  (check_peer_key_iff (view_of v) ctx.peer_point).1 (k, e),
)

pub evaluate_peer_iff :
    (ctx : Channel) (doc : Bytes) (v : VerifiedPeer)
    → (evaluate_peer ctx doc ≡ ok v) ↔ IsBound ctx doc v
unfolding evaluate_peer
evaluate_peer_iff ctx doc v = (
  λ h. elim (Option-cases (ctx.verify doc ctx.my_nonce)) [
    | inl e ↦ cc (rw e at h)
    | inr (u, e) ↦
        let p = bind_peer-ok ctx u v (rw e at h) in subst (IsBound ctx doc) p.0 (e, p.1, p.2, p.3)
  ],
  λ h. rw h.0 (bind_peer_run ctx v h.1 h.2 h.3),
)

abbrev pub decision_of : HandoverInputs → VerifiedPeer → KeyDecision
decision_of inputs v =
    decide_handover inputs.own inputs.role v.pcr0 inputs.own_key_is_candidate inputs.approvals

-- The peer is bound to the channel, and the policy gives it this decision.
abbrev pub Earns : Channel → HandoverInputs → KeyDecision → Type 0
Earns ctx inputs d =
    (doc : Bytes) × (v : VerifiedPeer) × IsBound ctx doc v × (decision_of inputs v ≡ d)

-- Two runs with two keys: the peer has earned the own key, or it has earned a child key and the runs are
-- the same if the child keys are, or the runs are the same.
abbrev pub KeepsSecret :
    Hkdf
    → Channel
    → HandoverInputs
    → Bytes
    → Bytes
    → Result Fault ServerExchange × Link
    → Result Fault ServerExchange × Link
    → Type 0
KeepsSecret hkdf ctx inputs key other run run' =
    Earns ctx inputs own_key
    ⊎ ((label : Bytes) × Earns ctx inputs (child_key label)
        × (derive_child hkdf key label ≡ derive_child hkdf other label → run ≡ run'))
    ⊎ (run ≡ run')

module _ (hkdf : Hkdf) (ctx : Channel) (inputs : HandoverInputs) (key other : Bytes) where
  hand_over-KeepsSecret :
      (doc : Bytes) (v : VerifiedPeer) (d : KeyDecision) (l : Link)
      → IsBound ctx doc v
      → decision_of inputs v ≡ d
      → KeepsSecret hkdf ctx inputs key other (hand_over hkdf key d l) (hand_over hkdf other d l)
  unfolding hand_over
  hand_over-KeepsSecret doc v own_key l b e = inl (doc, v, b, e)
  hand_over-KeepsSecret doc v (child_key label) l b e =
      inr (inl (label, (doc, v, b, e), λ h. rw h refl))
  hand_over-KeepsSecret doc v (refuse r) l b e = inr (inr refl)

  decide_for-KeepsSecret :
      (doc : Bytes) (r : Result ExchangeRefusal VerifiedPeer) (l : Link)
      → evaluate_peer ctx doc ≡ r
      → KeepsSecret hkdf ctx inputs key other
          (decide_for hkdf inputs key r l)
          (decide_for hkdf inputs other r l)
  unfolding decide_for
  decide_for-KeepsSecret doc (ok v) l e =
      hand_over-KeepsSecret doc v (decision_of inputs v) l ((evaluate_peer_iff ctx doc v).0 e) refl
  decide_for-KeepsSecret doc (err r) l e = inr (inr refl)

  answer_peer-KeepsSecret :
      (r : Result Fault (Bytes × Bytes) × Link)
      → KeepsSecret hkdf ctx inputs key other
          (answer_peer hkdf ctx inputs key r)
          (answer_peer hkdf ctx inputs other r)
  unfolding answer_peer
  answer_peer-KeepsSecret (ok (n, doc), l) =
      decide_for-KeepsSecret doc (evaluate_peer ctx doc) l refl
  answer_peer-KeepsSecret (err e, l) = inr (inr refl)

  -- Whatever the peer sends, one of three holds. It is bound to the channel (its document was verified
  -- against our nonce, carries that nonce and attests the key of its side of the session) and the
  -- policy grants it the own key. Or it is bound, the policy grants it a child key, and two keys with
  -- the same child key give the same run. Or any two keys give the same run: the result, what was read
  -- and every byte that was written do not depend on the key.
  pub server_exchange-KeepsSecret :
      (l : Link)
      → KeepsSecret hkdf ctx inputs key other
          (server_exchange hkdf ctx inputs key l)
          (server_exchange hkdf ctx inputs other l)
  unfolding server_exchange
  server_exchange-KeepsSecret l = answer_peer-KeepsSecret (nonce_and_doc_exchange ctx l)

-- A client that installs a key is bound to a server that its policy accepts, and the key is the 32 bytes
-- behind the tag of a grant.
receive-installed :
    (d : ClientDecision) (f : Bytes) {key : Bytes}
    → receive d f ≡ installed key
    → (d ≡ accept) × (f ≡ tag_grant ∷ key) × (length key ≡ 32)
unfolding receive
receive-installed accept [] {key} h = cc
receive-installed accept (tag ∷ b) {key} h = ground arith
receive-installed (reject r) f {key} h = ground arith

take_grant-installed :
    (inputs : AcceptInputs) (r : Result ExchangeRefusal VerifiedPeer) (l : Link) {l' : Link}
    {key : Bytes}
    → take_grant inputs r l ≡ (ok (installed key), l')
    → (v : VerifiedPeer) × (r ≡ ok v)
      × (client_accepts_server inputs.kind inputs.own_pcr0 v.pcr0 inputs.baked_ancestors ≡ accept)
      × (read_frame l ≡ (ok (tag_grant ∷ key), l'))
      × (length key ≡ 32)
unfolding take_grant drain_and_refuse
take_grant-installed inputs (ok v) l {l'} {key} h =
    let (f, l₁, p, h₁) = >>=-eq-ok read_frame _ l h in
    let d = client_accepts_server inputs.kind inputs.own_pcr0 v.pcr0 inputs.baked_ancestors in
    let q : receive d f ≡ installed key = ground arith in
    let w = receive-installed d f q in let e : l₁ ≡ l' = ground arith in (v, refl, w.0, p ∙ cc, w.2)
take_grant-installed inputs (err r) l {l'} {key} h = absurd (ground arith)

-- A client that installs a key has exchanged nonces and documents with the server, has verified the
-- document that it read then against its own nonce, which carries that nonce and attests the server's
-- key of the TLS session, its policy accepts the image in that document, and the key is what the next
-- frame that it reads holds behind the tag of a grant, 32 bytes; nothing is read after it.
pub client_exchange-installed :
    (ctx : Channel) (inputs : AcceptInputs) (l l' : Link) (key : Bytes)
    → client_exchange ctx inputs l ≡ (ok (installed key), l')
    → (nonce : Bytes) × (doc : Bytes) × (v : VerifiedPeer) × (before : Link)
      × (nonce_and_doc_exchange ctx l ≡ (ok (nonce, doc), before))
      × IsBound ctx doc v
      × (client_accepts_server inputs.kind inputs.own_pcr0 v.pcr0 inputs.baked_ancestors ≡ accept)
      × (read_frame before ≡ (ok (tag_grant ∷ key), l'))
      × (length key ≡ 32)
unfolding client_exchange
client_exchange-installed ctx inputs l l' key h =
    let (p, l₁, q, h₁) = >>=-eq-ok (nonce_and_doc_exchange ctx) _ l h in
    let (v, e, a, r, n) = take_grant-installed inputs (evaluate_peer ctx p.1) l₁ h₁ in
    (p.0, p.1, v, l₁, q, (evaluate_peer_iff ctx p.1 v).0 e, a, r, n)
