-- ===== src/Tests/Heartbeat.antt =====
-- A heartbeat of peer 42, its frame, and the frame twice.
use p2p_net.Prelude.{
  ℕ, nat_eq, list_eq, ◌<◌, ◌≡◌, ◌≢◌, refl, Option, none, some, List, [], ◌∷◌, all, replicate, arith,
}
use p2p_net.Prelude.Assoc.{lookup}
use p2p_net.Common.Error.{ok}
use p2p_net.Protocol.Config.{
  default_config, validate, validate_heartbeat, validate_app, validate_reputation,
}
use p2p_net.Protocol.ReplayCache.{new, prune, prune_loop, check_and_insert}
use p2p_net.Protocol.Heartbeat.{
  HeartbeatEnvelope, HeartbeatExternals, HeartbeatReplayCache, key_eq, accept, new_cache, be_bytes,
  from_be_bytes, read_number, frame, decode_nonce, encode_heartbeat_wire, decode_heartbeat_wire,
  is_timely, verify_heartbeat_with_config, replay_key, check_heartbeat, validate_heartbeat_wire,
}
use p2p_net.Protocol.Heartbeat.Frame.{decode_heartbeat_wire-encode_heartbeat_wire}
use p2p_net.Protocol.Heartbeat.Replay.{
  Arrival, receive, receive_all, accepted, heartbeat_accepted_once,
}
use p2p_net.Tests.Samples.{digit_ids}

abbrev one_byte : List ℕ → Option ℕ
one_byte (peer ∷ []) = some peer
one_byte _ = none

-- Stand-ins for the bytes of peer ids, the hexadecimal codec and the hash.
abbrev stand_ins : HeartbeatExternals
stand_ins = record {
  peer_ids = digit_ids;
  to_bytes = λ peer. peer ∷ [];
  from_bytes = one_byte;
  from_bytes-to_bytes = λ peer. refl;
  hex_decode = λ t. some t;
  hex_encode = λ bytes. bytes;
  hash = λ bytes. bytes;
}

abbrev heartbeat : HeartbeatEnvelope
heartbeat = record {
  schema_version = 2;
  peer_id = 42 ∷ [];
  timestamp_ns = 5_000_000_000;
  nonce_hex = replicate 32 7;
  entropy = replicate 32 7;
}

heartbeat_frame : List ℕ
heartbeat_frame = frame 2 (42 ∷ []) 5_000_000_000 (replicate 32 7) (replicate 32 7)

heartbeat-encoded : encode_heartbeat_wire stand_ins heartbeat ≡ ok heartbeat_frame
unfolding encode_heartbeat_wire decode_nonce heartbeat_frame
heartbeat-encoded = refl

decode_heartbeat_wire-encode_heartbeat_wire_example :
    (peer : ℕ) × (nonce : List ℕ) × (one_byte (42 ∷ []) ≡ some peer)
    × (decode_nonce stand_ins (replicate 32 7) ≡ some nonce)
    × (decode_heartbeat_wire stand_ins heartbeat_frame
        ≡ ok (record heartbeat { peer_id = peer ∷ []; nonce_hex = nonce }))
decode_heartbeat_wire-encode_heartbeat_wire_example =
    decode_heartbeat_wire-encode_heartbeat_wire stand_ins heartbeat heartbeat_frame (omega arith)
      (omega arith) heartbeat-encoded

default_config-valid : validate default_config ≡ ok tt
unfolding validate validate_heartbeat validate_app validate_reputation
default_config-valid = refl

abbrev arrival : Arrival
arrival = record { source = 42; wire = heartbeat_frame; now_ns = 6_000_000_000 }

abbrev initial : HeartbeatReplayCache
initial = receive_all stand_ins default_config (new_cache default_config) []

first_accepted : (receive stand_ins default_config initial arrival).1 ≡ accept
unfolding receive_all heartbeat_frame frame be_bytes from_be_bytes read_number decode_heartbeat_wire
    validate_heartbeat_wire verify_heartbeat_with_config is_timely replay_key check_heartbeat
    decode_nonce all check_and_insert new_cache new prune prune_loop lookup
first_accepted = refl

nothing_later :
    accepted stand_ins default_config (receive stand_ins default_config initial arrival).0 [] < 8192
unfolding accepted
nothing_later = omega arith

heartbeat_accepted_once_example :
    (receive stand_ins default_config
      (receive_all stand_ins default_config (receive stand_ins default_config initial arrival).0 [])
      (record arrival { now_ns = 7_000_000_000 })).1
    ≢ accept
heartbeat_accepted_once_example =
    heartbeat_accepted_once stand_ins default_config [] [] arrival 7_000_000_000
      default_config-valid first_accepted nothing_later tt (omega arith)
