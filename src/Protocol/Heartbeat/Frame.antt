-- ===== src/Protocol/Heartbeat/Frame.antt =====
-- The binary frame of a heartbeat: what is encoded is decoded again.
use p2p_net.Prelude.{
  nat_eq, list_eq, ℕ, ◌+◌, ◌^◌, ◌<◌, ◌≡◌, refl, sym, ap, ◌∙◌, not, Option, none, some, List, [],
  ◌∷◌, ◌++◌, length, drop, ltb, nat_beq, arith, length-append, append-nil, Option-cases, inl, inr,
}
use p2p_net.Common.Error.{NetError, ok, refuse, >>=-eq-ok, >>-eq-ok}
use p2p_net.Common.Text.{Text}
use p2p_net.Protocol.Heartbeat.{
  HeartbeatEnvelope, HeartbeatExternals, be_bytes, slice, ok_or, frame, decode_nonce,
  encode_heartbeat_wire, decode_heartbeat_wire,
}
use p2p_net.Protocol.Heartbeat.Bytes.{
  length-be_bytes, slice-part, drop-part, read_number-be_bytes, drop-be_bytes,
}

length-frame :
    (schema_version : ℕ) (peer : List ℕ) (timestamp_ns : ℕ) (nonce entropy : List ℕ)
    → length nonce ≡ 32
    → length entropy ≡ 32
    → length (frame schema_version peer timestamp_ns nonce entropy) ≡ 80 + length peer
unfolding frame
length-frame schema_version peer timestamp_ns nonce entropy n e = omega (
  arith,
  length-be_bytes 2 schema_version
      (be_bytes 2 (length peer) (peer ++ be_bytes 8 timestamp_ns (nonce ++ entropy))),
  length-be_bytes 2 (length peer) (peer ++ be_bytes 8 timestamp_ns (nonce ++ entropy)),
  length-append peer (be_bytes 8 timestamp_ns (nonce ++ entropy)),
  length-be_bytes 8 timestamp_ns (nonce ++ entropy),
  length-append nonce entropy,
)

front_of_frame :
    (v : ℕ) (p : List ℕ) (t : ℕ) (nonce entropy : List ℕ)
    → (slice (frame v p t nonce entropy) 0 4 ≡ b'P' ∷ b'2' ∷ b'P' ∷ b'H' ∷ [])
      × (drop 4 (frame v p t nonce entropy)
          ≡ be_bytes 2 v (be_bytes 2 (length p) (p ++ be_bytes 8 t (nonce ++ entropy))))
unfolding frame
front_of_frame v p t nonce entropy = (refl, refl)

decode_heartbeat_wire-frame :
    (x : HeartbeatExternals) (schema_version peer timestamp_ns : ℕ) (nonce entropy : List ℕ)
    → schema_version < 256 ^ 2
    → length (x.to_bytes peer) < 256 ^ 2
    → timestamp_ns < 256 ^ 8
    → length nonce ≡ 32
    → length entropy ≡ 32
    → decode_heartbeat_wire x (frame schema_version (x.to_bytes peer) timestamp_ns nonce entropy)
      ≡ ok (record {
        schema_version = schema_version;
        peer_id = x.peer_ids.print peer;
        timestamp_ns = timestamp_ns;
        nonce_hex = x.hex_encode nonce;
        entropy = entropy;
      })
unfolding decode_heartbeat_wire
decode_heartbeat_wire-frame x v peer t nonce entropy v_small p_small t_small n32 e32 =
    let p = x.to_bytes peer in
    let w = frame v p t nonce entropy in
    let size = length-frame v p t nonce entropy n32 e32 in
    let (magic, d4) = front_of_frame v p t nonce entropy in
    let e1 = read_number-be_bytes 2 v 4 w _ v_small (omega arith) d4 in
    let d6 = drop-be_bytes 2 v 4 w _ d4 in
    let e2 = read_number-be_bytes 2 (length p) 6 w _ p_small (omega arith) d6 in
    let d8 = drop-be_bytes 2 (length p) 6 w _ d6 in
    let e3 = ap x.from_bytes (slice-part w p _ 8 (length p) d8 refl) ∙ x.from_bytes-to_bytes peer in
    let dp = drop-part w p _ 8 (length p) d8 refl in
    let e4 = read_number-be_bytes 8 t (8 + length p) w _ t_small (omega arith) dp in
    let dt = drop-be_bytes 8 t (8 + length p) w _ dp in
    let e5 = slice-part w nonce entropy (8 + length p + 8) 32 dt n32 in
    let dn = drop-part w nonce entropy (8 + length p + 8) 32 dt n32 ∙ sym (append-nil entropy) in
    let e6 = slice-part w entropy [] (8 + length p + 8 + 32) 32 dn e32 in
    ground (arith, size, magic, e1, e2, e3, e4, e5, e6)

ok_or-eq-ok : {A : Type 0} (o : Option A) (e : NetError) {a : A} → ok_or o e ≡ ok a → o ≡ some a
ok_or-eq-ok none e h = cc
ok_or-eq-ok (some b) e h = cc

decode_nonce-length :
    (x : HeartbeatExternals) (nonce_hex : Text) (nonce : List ℕ)
    → decode_nonce x nonce_hex ≡ some nonce
    → length nonce ≡ 32
unfolding decode_nonce
decode_nonce-length x nonce_hex nonce h = elim (Option-cases (x.hex_decode nonce_hex)) [
  | inl e ↦ ground (arith, e)
  | inr (bytes, e) ↦ ground (arith, e)
]

encode_heartbeat_wire-parts :
    (x : HeartbeatExternals) (env : HeartbeatEnvelope) (wire : List ℕ)
    → encode_heartbeat_wire x env ≡ ok wire
    → (peer : ℕ) × (nonce : List ℕ) × (x.peer_ids.parse env.peer_id ≡ some peer)
      × (decode_nonce x env.nonce_hex ≡ some nonce)
      × (length (x.to_bytes peer) < 256 ^ 2)
      × (length env.entropy ≡ 32)
      × (frame env.schema_version (x.to_bytes peer) env.timestamp_ns nonce env.entropy ≡ wire)
unfolding encode_heartbeat_wire
encode_heartbeat_wire-parts x env wire h =
    let (peer, e1, h1) = >>=-eq-ok (ok_or (x.peer_ids.parse env.peer_id) _) _ h in
    let (_, e2, h2) = >>-eq-ok (refuse (ltb 0xffff (length (x.to_bytes peer))) _) _ h1 in
    let (nonce, e3, h3) = >>=-eq-ok (ok_or (decode_nonce x env.nonce_hex) _) _ h2 in
    let (_, e4, h4) = >>-eq-ok (refuse (not (nat_beq (length env.entropy) 32)) _) _ h3 in
    (
      peer,
      nonce,
      ok_or-eq-ok _ _ e1,
      ok_or-eq-ok _ _ e3,
      ground (arith, e2),
      ground (arith, e4),
      cc,
    )

-- A heartbeat that is encoded comes out of its frame again, with the same version, time and entropy
-- (the numbers being those of u16 and u64), and with its peer id and its nonce in the text form
-- that the peer id and the 32 bytes of the nonce print in.
pub decode_heartbeat_wire-encode_heartbeat_wire :
    (x : HeartbeatExternals) (env : HeartbeatEnvelope) (wire : List ℕ)
    → env.schema_version < 2 ^ 16
    → env.timestamp_ns < 2 ^ 64
    → encode_heartbeat_wire x env ≡ ok wire
    → (peer : ℕ) × (nonce : List ℕ) × (x.peer_ids.parse env.peer_id ≡ some peer)
      × (decode_nonce x env.nonce_hex ≡ some nonce)
      × (decode_heartbeat_wire x wire
          ≡ ok (record env { peer_id = x.peer_ids.print peer; nonce_hex = x.hex_encode nonce }))
decode_heartbeat_wire-encode_heartbeat_wire x env wire v_small t_small h =
    let (peer, nonce, e1, e2, p_small, e32, same) = encode_heartbeat_wire-parts x env wire h in
    let n32 = decode_nonce-length x env.nonce_hex nonce e2 in
    let back =
      decode_heartbeat_wire-frame x env.schema_version peer env.timestamp_ns nonce env.entropy
        (omega arith) p_small (omega arith) n32 e32 in
    (peer, nonce, e1, e2, ap (decode_heartbeat_wire x) (sym same) ∙ back)
