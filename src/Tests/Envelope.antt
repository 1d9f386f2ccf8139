-- ===== src/Tests/Envelope.antt =====
-- An application message of three bytes from peer 42 to peer 43.
use p2p_net.Prelude.{
  ℕ, nat_eq, ◌≡◌, ◌↔◌, refl, ap, subst, Option, none, some, List, [], ◌∷◌, all, list_eq,
}
use p2p_net.Common.Error.{ok}
use p2p_net.Common.Text.{
  Text, codes, text_len, trim, trim_start, is_whitespace, is_ascii_alphanumeric,
}
use p2p_net.Api.Message.{
  AppMessage, is_topic_char, normalize_app_topic, validate_app_payload_len, validate_app_message,
}
use p2p_net.Api.Fragmentation.{AppFragment}
use p2p_net.Api.Envelope.{
  EnvelopeExternals, app_topic_name, decimal_u32, decimal_loop, new_message, encode_app_message,
  decode_app_message, validate_app_message_authentication,
}
use p2p_net.Api.Envelope.Laws.{
  decode_app_message-encode_app_message, new_message-valid, validate_app_message_authentication_iff,
}
use p2p_net.Tests.Samples.{
  digit_ids, write_text, write_fragment, read_fragment, read_fragment-write_fragment,
}

-- A message written in the fields of a fragment.
abbrev as_fragment : AppMessage → AppFragment
as_fragment m = record {
  fragment_schema_version = 0;
  message_schema_version = m.schema_version;
  network_id = m.network_id;
  topic = m.topic;
  source_peer_id = m.source_peer_id;
  target_peer_id = m.target_peer_id;
  timestamp_ns = m.timestamp_ns;
  nonce_hex = m.nonce_hex;
  payload_hash_hex = [];
  payload_len = 0;
  index = 0;
  total = 0;
  payload = m.payload;
}

abbrev as_message : Option AppFragment → Option AppMessage
as_message none = none
as_message (some f) = some (record {
  schema_version = f.message_schema_version;
  network_id = f.network_id;
  topic = f.topic;
  source_peer_id = f.source_peer_id;
  target_peer_id = f.target_peer_id;
  timestamp_ns = f.timestamp_ns;
  nonce_hex = f.nonce_hex;
  payload = f.payload;
})

written_reads :
    (m : AppMessage) (w : List ℕ)
    → ◌≡◌ {A = Option (List ℕ)} (some (write_fragment (as_fragment m))) (some w)
    → as_message (read_fragment w) ≡ some m
written_reads m w e =
    let same : write_fragment (as_fragment m) ≡ w = cc in
    subst (λ v. as_message (read_fragment v) ≡ some m) same
      (ap as_message (read_fragment-write_fragment (as_fragment m)))

stand_ins : EnvelopeExternals
stand_ins = record {
  peer_ids = digit_ids;
  to_vec = λ m. some (write_fragment (as_fragment m));
  from_slice = λ w. as_message (read_fragment w);
  from_slice-to_vec = written_reads;
  hash_hex = λ bytes. bytes;
  topic_hash = λ name. name;
}

abbrev message : AppMessage
message = record {
  schema_version = 2;
  network_id = 1;
  topic = codes "chat";
  source_peer_id = 42 ∷ [];
  target_peer_id = some (43 ∷ []);
  timestamp_ns = 5;
  nonce_hex = codes "0123";
  payload = 1 ∷ 2 ∷ 3 ∷ [];
}

message-made :
    new_message stand_ins 1 (codes " chat ") 42 (some 43) (1 ∷ 2 ∷ 3 ∷ []) (codes "0123") 5
    ≡ ok message
unfolding stand_ins new_message normalize_app_topic is_topic_char is_ascii_alphanumeric all trim
    trim_start is_whitespace text_len validate_app_payload_len
message-made = refl

new_message-valid_example : validate_app_message stand_ins.peer_ids message ≡ ok tt
new_message-valid_example =
    new_message-valid stand_ins 1 (codes " chat ") 42 (some 43) (1 ∷ 2 ∷ 3 ∷ []) (codes "0123") 5
      message message-made

wire : List ℕ
wire = write_fragment (as_fragment message)

message-encoded : encode_app_message stand_ins message ≡ ok wire
unfolding stand_ins wire write_text encode_app_message validate_app_message normalize_app_topic
    is_topic_char is_ascii_alphanumeric all trim trim_start is_whitespace text_len
    validate_app_payload_len
message-encoded = refl

decode_app_message-encode_app_message_example : decode_app_message stand_ins wire ≡ ok message
decode_app_message-encode_app_message_example =
    decode_app_message-encode_app_message stand_ins message wire message-encoded

validate_app_message_authentication_iff_example :
    (validate_app_message_authentication stand_ins message 42 (codes "p2p-net/app/v2/net-1/chat")
      ≡ ok tt)
    ↔ ((stand_ins.peer_ids.parse (42 ∷ []) ≡ some 42)
        × ((name : Text) × (app_topic_name 1 (codes "chat") ≡ ok name)
            × (stand_ins.topic_hash name ≡ codes "p2p-net/app/v2/net-1/chat")))
validate_app_message_authentication_iff_example =
    validate_app_message_authentication_iff stand_ins message 42 (codes "p2p-net/app/v2/net-1/chat")

-- The other side holds: the message passes on its own topic.
own_topic : app_topic_name 1 (codes "chat") ≡ ok (codes "p2p-net/app/v2/net-1/chat")
unfolding app_topic_name decimal_u32 decimal_loop normalize_app_topic is_topic_char
    is_ascii_alphanumeric all trim trim_start is_whitespace text_len
own_topic = refl
