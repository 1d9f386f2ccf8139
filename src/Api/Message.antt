-- ===== src/Api/Message.antt =====
-- crates/api/mod.rs: the application message and its checks.
use p2p_net.Prelude.{
  ℕ, ◌*◌, Bool, ◌||◌, not, Option, none, some, List, ltb, nat_beq, is_empty, length, all,
}
use p2p_net.Common.Error.{NetError, app_topic, app_message, Result, ok, err, ◌>>◌, refuse}
use p2p_net.Common.Text.{Text, codes, PeerIdText, text_len, trim, is_ascii_alphanumeric}

abbrev pub app_message_schema_version : ℕ
app_message_schema_version = 2

abbrev pub max_app_topic_len : ℕ
max_app_topic_len = 128

abbrev pub max_app_message_bytes : ℕ
max_app_message_bytes = 1024 * 1024

pub record AppMessage : Type 0 where
  pub schema_version : ℕ
  pub network_id : ℕ
  pub topic : Text
  pub source_peer_id : Text
  pub target_peer_id : Option Text
  pub timestamp_ns : ℕ
  pub nonce_hex : Text
  pub payload : List ℕ

-- What a byte of a topic may be.
unfoldable pub is_topic_char : ℕ → Bool
unfolding is_ascii_alphanumeric
is_topic_char c =
    is_ascii_alphanumeric c || nat_beq c b'-' || nat_beq c b'_' || nat_beq c b'.' || nat_beq c b'/'

unfoldable pub normalize_app_topic : Text → Result Text
unfolding is_topic_char all
normalize_app_topic topic = do
  let topic = trim topic
  refuse (is_empty topic) (app_topic topic "topic must not be empty")
  refuse (ltb max_app_topic_len (text_len topic))
      (app_topic topic "topic must not exceed 128 bytes")
  refuse (not (all is_topic_char topic))
      (app_topic topic "topic may only contain ASCII letters, numbers, '-', '_', '.', or '/'")
  ok topic

unfoldable pub validate_app_payload_len : ℕ → Result (Unit {0})
validate_app_payload_len len =
    refuse (ltb max_app_message_bytes len)
      (app_message (codes "<unknown>") "message must not exceed 1048576 bytes")

module _ (peer_ids : PeerIdText) where
  open peer_ids use {parse, print}

  -- `id.parse::<PeerId>()` with its error mapped to `e`.
  abbrev pub parse_or : Text → NetError → Result ℕ
  parse_or id e = elim (parse id) [ some peer ↦ ok peer | none ↦ err e ]

  abbrev pub parse_target_or : Option Text → NetError → Result (Unit {0})
  parse_target_or none e = ok tt
  parse_target_or (some id) e = do parse_or id e; ok tt

  unfoldable pub validate_app_message : AppMessage → Result (Unit {0})
  unfolding normalize_app_topic validate_app_payload_len
  validate_app_message m = do
    refuse (not (nat_beq m.schema_version app_message_schema_version))
        (app_message m.topic "unsupported schema version")
    normalize_app_topic m.topic
    parse_or m.source_peer_id (app_message m.topic "invalid source peer id")
    parse_target_or m.target_peer_id (app_message m.topic "invalid target peer id")
    validate_app_payload_len (length m.payload)
