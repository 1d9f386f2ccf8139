-- ===== src/Api/Envelope.antt =====
-- crates/api/mod.rs: application messages are made, put on the wire as one envelope, and bound to
-- the author and the topic that Gossipsub authenticates. The random bytes and the clock are
-- arguments; the codec, the hash and the topics of Gossipsub are the record `EnvelopeExternals`.
pub mod Laws
use p2p_net.Prelude.{
  nat_eq, list_eq, ◌==◌, ℕ, zero, suc, ◌+◌, ◌*◌, ◌/◌, ◌%◌, ◌≡◌, Bool, true, false, not, Option,
  none, some, List, [], ◌∷◌, ◌++◌, ltb, nat_beq, length, if◌then◌else◌,
}
use p2p_net.Common.Error.{NetError, app_message, Result, ok, err, ◌>>=◌, ◌>>◌, refuse}
use p2p_net.Common.Text.{Text, codes, PeerIdText}
use p2p_net.Api.Message.{
  AppMessage, app_message_schema_version, max_app_message_bytes, normalize_app_topic,
  validate_app_payload_len, parse_or, validate_app_message,
}

pub record EnvelopeExternals : Type 0 where
  pub peer_ids : PeerIdText
  -- `serde_json::to_vec` and `from_slice` at `AppMessage`: what is written reads back.
  pub to_vec : AppMessage → Option (List ℕ)
  pub from_slice : List ℕ → Option AppMessage
  pub from_slice-to_vec : (m : AppMessage) (w : List ℕ) → to_vec m ≡ some w → from_slice w ≡ some m
  -- `blake3::hash(…).to_hex()`.
  pub hash_hex : List ℕ → Text
  -- `IdentTopic::new(…).hash()`.
  pub topic_hash : Text → Text

abbrev app_topic_prefix : Text
app_topic_prefix = codes "p2p-net/app"

-- A number in decimal, as `format!` writes it. On fuel: 10 digits are enough for a u32.
unfoldable pub decimal_loop : ℕ → ℕ → Text → Text
decimal_loop zero n digits = digits
decimal_loop (suc fuel) n digits =
    let rest = decimal_loop fuel (n / 10) ((b'0' + n % 10) ∷ digits) in
    if ltb n 10 then (b'0' + n) ∷ digits else rest

unfoldable pub decimal_u32 : ℕ → Text
unfolding decimal_loop
decimal_u32 n = decimal_loop 10 n []

unfoldable pub app_topic_name : ℕ → Text → Result Text
app_topic_name network_id topic = do
  topic ← normalize_app_topic topic
  ok (
      app_topic_prefix
      ++ codes "/v"
      ++ decimal_u32 app_message_schema_version
      ++ codes "/net-"
      ++ decimal_u32 network_id
      ++ codes "/"
      ++ topic)

module _ (x : EnvelopeExternals) where
  open x use {peer_ids, to_vec, from_slice, hash_hex, topic_hash}
  open peer_ids use {print}

  abbrev pub print_target : Option ℕ → Option Text
  print_target none = none
  print_target (some peer) = some (print peer)

  -- `AppMessage::new`, with the 32 random bytes and the time.
  unfoldable pub new_message : ℕ → Text → ℕ → Option ℕ → List ℕ → List ℕ → ℕ → Result AppMessage
  new_message network_id topic source target payload entropy now_ns = do
    topic ← normalize_app_topic topic
    validate_app_payload_len (length payload)
    ok (record {
      schema_version = app_message_schema_version;
      network_id = network_id;
      topic = topic;
      source_peer_id = print source;
      target_peer_id = print_target target;
      timestamp_ns = now_ns;
      nonce_hex = hash_hex entropy;
      payload = payload;
    })

  abbrev pub addressed : ℕ → Text → ℕ → ℕ → List ℕ → List ℕ → ℕ → Result AppMessage
  addressed network_id topic source target payload entropy now_ns =
      new_message network_id topic source (some target) payload entropy now_ns

  abbrev pub broadcast : ℕ → Text → ℕ → List ℕ → List ℕ → ℕ → Result AppMessage
  broadcast network_id topic source payload entropy now_ns =
      new_message network_id topic source none payload entropy now_ns

  abbrev pub is_for_peer : AppMessage → ℕ → Bool
  is_for_peer m local_peer = elim m.target_peer_id [
    | some target ↦ target == print local_peer
    | none ↦ true
  ]

  unfoldable pub encode_app_message : AppMessage → Result (List ℕ)
  encode_app_message m = validate_app_message peer_ids m >> (elim (to_vec m) [
    | none ↦ err (app_message m.topic "serde_json")
    | some encoded ↦
        if ltb (6 * max_app_message_bytes) (length encoded)
        then err (app_message m.topic "encoded application envelope exceeds wire safety bound")
        else ok encoded
  ])

  unfoldable pub decode_app_message : List ℕ → Result AppMessage
  decode_app_message raw =
      if ltb (6 * max_app_message_bytes) (length raw)
      then err
          (app_message (codes "<unknown>") "encoded application envelope exceeds wire safety bound")
      else elim (from_slice raw) [
        | none ↦ err (app_message (codes "<unknown>") "serde_json")
        | some m ↦ validate_app_message peer_ids m >> ok m
      ]

  unfoldable pub validate_app_message_authentication : AppMessage → ℕ → Text → Result (Unit {0})
  validate_app_message_authentication m authenticated_source received_topic = do
    claimed_source ←
        parse_or peer_ids m.source_peer_id (app_message m.topic "invalid source peer id")
    refuse (not (nat_beq claimed_source authenticated_source))
        (app_message m.topic "source peer id does not match authenticated Gossipsub author")
    name ← app_topic_name m.network_id m.topic
    refuse (not (topic_hash name == received_topic)) (
        app_message m.topic "application envelope does not match the authenticated Gossipsub topic")
