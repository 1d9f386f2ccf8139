-- ===== src/Protocol/Heartbeat.antt =====
-- crates/protocol/pulse.rs: the heartbeat envelope, its binary frame, and the checks on a frame that
-- comes in. A frame is a list of bytes; `to_be_bytes` and `from_be_bytes` of u16 and u64 are written
-- out. What is not of this repository is the record `HeartbeatExternals`: peer ids and their bytes,
-- the hexadecimal codec and the bytes of a BLAKE3 hash.
pub mod Bytes
pub mod Frame
pub mod Replay
use p2p_net.Prelude.{
  Eq, ==_iff, ◌==◌, nat_eq, list_eq, ℕ, zero, suc, ◌+◌, ◌-◌, ◌*◌, ◌/◌, ◌%◌, ◌≡◌, ◌↔◌, Bool, true,
  false, ◌&&◌, not, Option, none, some, List, [], ◌∷◌, ◌++◌, ltb, leb, nat_beq, nat_beq_iff, length,
  all, take, drop, if◌then◌else◌, arith, saturating_add, saturating_mul,
}
use p2p_net.Common.Error.{NetError, gossip_codec, Result, ok, err, ◌>>=◌, ◌>>◌, refuse}
use p2p_net.Common.Text.{Text, PeerIdText}
use p2p_net.Protocol.Config.{MessageSecurityConfig}
use p2p_net.Protocol.ReplayCache.{Cache, ns_per_sec, new, prune, check_and_insert}

abbrev heartbeat_schema_version : ℕ
heartbeat_schema_version = 2

abbrev heartbeat_entropy_bytes : ℕ
heartbeat_entropy_bytes = 32

abbrev nonce_bytes : ℕ
nonce_bytes = 32

abbrev heartbeat_wire_magic : List ℕ
heartbeat_wire_magic = b'P' ∷ b'2' ∷ b'P' ∷ b'H' ∷ []

abbrev fixed_wire_bytes : ℕ
fixed_wire_bytes = 4 + 2 + 2 + 8 + nonce_bytes + heartbeat_entropy_bytes

pub record HeartbeatEnvelope : Type 0 where
  pub schema_version : ℕ
  pub peer_id : Text
  pub timestamp_ns : ℕ
  pub nonce_hex : Text
  pub entropy : List ℕ

pub record HeartbeatExternals : Type 0 where
  pub peer_ids : PeerIdText
  -- `PeerId::to_bytes` and `from_bytes`: what is written reads back.
  pub to_bytes : ℕ → List ℕ
  pub from_bytes : List ℕ → Option ℕ
  pub from_bytes-to_bytes : (peer : ℕ) → from_bytes (to_bytes peer) ≡ some peer
  -- `hex::decode` and `hex::encode`.
  pub hex_decode : Text → Option (List ℕ)
  pub hex_encode : List ℕ → Text
  -- `blake3::hash(…).as_bytes()`.
  pub hash : List ℕ → List ℕ

-- The `k` bytes of a number, the most significant first, in front of the rest.
unfoldable pub be_bytes : ℕ → ℕ → List ℕ → List ℕ
be_bytes zero n rest = rest
be_bytes (suc k) n rest = be_bytes k (n / 256) (n % 256 ∷ rest)

unfoldable pub from_be_bytes : ℕ → List ℕ → ℕ
from_be_bytes high [] = high
from_be_bytes high (b ∷ bytes) = from_be_bytes (high * 256 + b) bytes

-- `&data[start..end]`, of which the callers know that it is in range.
abbrev pub slice : List ℕ → ℕ → ℕ → List ℕ
slice bytes start stop = take (stop - start) (drop start bytes)

-- `read_u16` (`n` = 2) and `read_u64` (`n` = 8): the number, and the cursor behind it.
unfoldable pub read_number : ℕ → List ℕ → ℕ → Result (ℕ × ℕ)
read_number n bytes cursor =
    if leb (cursor + n) (length bytes)
    then ok (from_be_bytes 0 (slice bytes cursor (cursor + n)), cursor + n)
    else err (gossip_codec "heartbeat frame is truncated")

-- `ok_or_else`.
abbrev pub ok_or {ℓ} : {A : Type ℓ} → Option A → NetError → Result A
ok_or none e = err e
ok_or (some a) e = ok a

-- The bytes of a frame, from its parts.
unfoldable pub frame : ℕ → List ℕ → ℕ → List ℕ → List ℕ → List ℕ
frame schema_version peer timestamp_ns nonce entropy =
    heartbeat_wire_magic
    ++ be_bytes 2 schema_version
        (be_bytes 2 (length peer) (peer ++ be_bytes 8 timestamp_ns (nonce ++ entropy)))

module _ (x : HeartbeatExternals) where
  open x use {peer_ids, to_bytes, from_bytes, hex_decode, hex_encode, hash}
  open peer_ids use {parse, print}

  unfoldable pub decode_nonce : Text → Option (List ℕ)
  decode_nonce nonce_hex = elim (hex_decode nonce_hex) [
    | none ↦ none
    | some bytes ↦ if nat_beq (length bytes) nonce_bytes then some bytes else none
  ]

  unfoldable pub encode_heartbeat_wire : HeartbeatEnvelope → Result (List ℕ)
  encode_heartbeat_wire env = do
    peer ← ok_or (parse env.peer_id) (gossip_codec "invalid heartbeat peer id")
    refuse (ltb 0xffff (length (to_bytes peer))) (gossip_codec "heartbeat peer id is too long")
    nonce ← ok_or (decode_nonce env.nonce_hex) (gossip_codec "heartbeat nonce must be 32-byte hex")
    refuse (not (nat_beq (length env.entropy) heartbeat_entropy_bytes))
        (gossip_codec "heartbeat entropy must be 32 bytes")
    ok (frame env.schema_version (to_bytes peer) env.timestamp_ns nonce env.entropy)

  unfoldable pub decode_heartbeat_wire : List ℕ → Result HeartbeatEnvelope
  decode_heartbeat_wire bytes = do
    refuse (ltb (length bytes) fixed_wire_bytes) (gossip_codec "heartbeat frame is truncated")
    refuse (not (slice bytes 0 4 == heartbeat_wire_magic))
        (gossip_codec "heartbeat frame magic mismatch")
    schema_version ← read_number 2 bytes 4
    peer_len ← read_number 2 bytes schema_version.1
    refuse (not (nat_beq (length bytes) (fixed_wire_bytes + peer_len.0)))
        (gossip_codec "heartbeat frame length mismatch")
    let peer_end = peer_len.1 + peer_len.0
    peer ←
        ok_or (from_bytes (slice bytes peer_len.1 peer_end))
          (gossip_codec "invalid heartbeat peer id bytes")
    timestamp_ns ← read_number 8 bytes peer_end
    let cursor = timestamp_ns.1
    let nonce_end = cursor + nonce_bytes
    ok (record {
      schema_version = schema_version.0;
      peer_id = print peer;
      timestamp_ns = timestamp_ns.0;
      nonce_hex = hex_encode (slice bytes cursor nonce_end);
      entropy = slice bytes nonce_end (nonce_end + heartbeat_entropy_bytes);
    })

  -- The test on the timestamp.
  unfoldable pub is_timely : MessageSecurityConfig → ℕ → ℕ → Bool
  is_timely cfg timestamp_ns now_ns =
      let max_future_ns = saturating_mul cfg.max_heartbeat_future_skew_secs ns_per_sec in
      let max_age_ns = saturating_mul cfg.max_heartbeat_age_secs ns_per_sec in
      if ltb (saturating_add now_ns max_future_ns) timestamp_ns
      then false
      else not (ltb max_age_ns (now_ns - timestamp_ns))

  unfoldable pub verify_heartbeat_with_config :
      ℕ → HeartbeatEnvelope → ℕ → MessageSecurityConfig → Bool
  verify_heartbeat_with_config source env now_ns cfg =
      if not (nat_beq env.schema_version heartbeat_schema_version)
      then false
      else if not (env.peer_id == print source)
      then false
      else if not (nat_beq (length env.entropy) heartbeat_entropy_bytes)
      then false
      else if all (λ b. nat_beq b 0) env.entropy
      then false
      else elim (decode_nonce env.nonce_hex) [
        | none ↦ false
        | some nonce ↦
            if not (hash env.entropy == nonce) then false else is_timely cfg env.timestamp_ns now_ns
      ]

pub data HeartbeatValidationDecision : Type 0 where
  accept reject ignore_duplicate reject_oversize : HeartbeatValidationDecision

pub record HeartbeatValidationResult : Type 0 where
  pub decision : HeartbeatValidationDecision
  pub envelope : Option HeartbeatEnvelope

pub record HeartbeatReplayKey : Type 0 where
  pub source : ℕ
  pub schema_version : ℕ
  pub timestamp_ns : ℕ
  pub nonce : List ℕ

abbrev pub key_beq : HeartbeatReplayKey → HeartbeatReplayKey → Bool
key_beq a b =
    nat_beq a.source b.source
    && nat_beq a.schema_version b.schema_version
    && nat_beq a.timestamp_ns b.timestamp_ns
    && a.nonce == b.nonce

pub key_beq_iff : (a b : HeartbeatReplayKey) → (key_beq a b ≡ true) ↔ (a ≡ b)
key_beq_iff a b = ground (arith, ==_iff a.nonce b.nonce)

instance abbrev pub key_eq : Eq HeartbeatReplayKey
key_eq = record { test = key_beq; test_iff = key_beq_iff }

abbrev pub HeartbeatReplayCache : Type 0
HeartbeatReplayCache = Cache HeartbeatReplayKey

unfoldable pub new_cache : MessageSecurityConfig → HeartbeatReplayCache
unfolding new
new_cache cfg = new cfg.replay_cache_capacity cfg.replay_cache_ttl_secs

module _ (x : HeartbeatExternals) where
  unfoldable pub replay_key : ℕ → HeartbeatEnvelope → Option HeartbeatReplayKey
  replay_key source env = elim (decode_nonce x env.nonce_hex) [
    | none ↦ none
    | some nonce ↦ some (record {
      source = source;
      schema_version = env.schema_version;
      timestamp_ns = env.timestamp_ns;
      nonce = nonce;
    })
  ]

  -- `HeartbeatReplayCache::check_and_insert`.
  unfoldable pub check_heartbeat :
      HeartbeatReplayCache → ℕ → HeartbeatEnvelope → ℕ → HeartbeatReplayCache × Bool
  check_heartbeat cache source env now_ns = elim (replay_key source env) [
    | none ↦ (prune cache now_ns, false)
    | some key ↦ check_and_insert cache key now_ns
  ]

  -- The cache after the call, and the result.
  unfoldable pub validate_heartbeat_wire :
      ℕ
      → List ℕ
      → ℕ
      → MessageSecurityConfig
      → HeartbeatReplayCache
      → HeartbeatReplayCache × HeartbeatValidationResult
  validate_heartbeat_wire source bytes now_ns cfg cache =
      if ltb cfg.max_heartbeat_wire_bytes (length bytes)
      then (cache, record { decision = reject_oversize; envelope = none })
      else elim (decode_heartbeat_wire x bytes) [
        | err e ↦ (cache, record { decision = reject; envelope = none })
        | ok env ↦
            if not (verify_heartbeat_with_config x source env now_ns cfg)
            then (cache, record { decision = reject; envelope = some env })
            else let (cache', is_new) = check_heartbeat cache source env now_ns in
              (
                cache',
                record {
                  decision = if is_new then accept else ignore_duplicate;
                  envelope = some env;
                },
              )
      ]
