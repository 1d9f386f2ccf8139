-- ===== src/Api/Fragmentation.antt =====
-- crates/api/fragmentation.rs: large messages travel as fragments, and are put together again
-- under memory ceilings. What is not of this repository is the record `Externals`: the JSON codec
-- of serde_json, the BLAKE3 hash in hexadecimal, and the text of peer ids.
-- Times are nanoseconds of the monotonic clock; a `HashMap` is an association list.
pub mod Reassembler
pub mod Memory
pub mod Ceilings
pub mod Expiry
pub mod Mask
pub mod Progress
pub mod Delivery
pub mod Reassembly
pub mod Chunks
pub mod Wire
use p2p_net.Prelude.{
  ℕ, zero, suc, ◌+◌, ◌-◌, ◌*◌, ◌≡◌, Bool, true, false, ◌&&◌, ◌||◌, not, Option, none, some, List,
  [], ◌∷◌, ltb, leb, nat_beq, ◌==◌, nat_eq, list_eq, option_eq, length, is_empty, all, take, drop,
  div_ceil, if◌then◌else◌,
}
use p2p_net.Common.Error.{NetError, app_message, Result, ok, err, ◌>>=◌, ◌>>◌, refuse}
use p2p_net.Common.Text.{Text, codes, text_len, PeerIdText}
use p2p_net.Api.Message.{
  AppMessage, app_message_schema_version, max_app_message_bytes, normalize_app_topic, parse_or,
  parse_target_or, validate_app_message,
}

abbrev pub app_fragment_schema_version : ℕ
app_fragment_schema_version = 1

abbrev pub app_fragment_payload_bytes : ℕ
app_fragment_payload_bytes = 16 * 1024

abbrev pub max_app_fragments : ℕ
max_app_fragments = div_ceil max_app_message_bytes app_fragment_payload_bytes

abbrev pub max_fragment_wire_bytes : ℕ
max_fragment_wire_bytes = 128 * 1024

abbrev pub max_reassembly_bytes_per_peer : ℕ
max_reassembly_bytes_per_peer = 2 * max_app_message_bytes

abbrev pub max_reassembly_bytes_global : ℕ
max_reassembly_bytes_global = 8 * max_app_message_bytes

-- 30 seconds.
abbrev pub fragment_expiry : ℕ
fragment_expiry = 30 * 1_000_000_000

pub record AppFragment : Type 0 where
  pub fragment_schema_version : ℕ
  pub message_schema_version : ℕ
  pub network_id : ℕ
  pub topic : Text
  pub source_peer_id : Text
  pub target_peer_id : Option Text
  pub timestamp_ns : ℕ
  pub nonce_hex : Text
  pub payload_hash_hex : Text
  pub payload_len : ℕ
  pub index : ℕ
  pub total : ℕ
  pub payload : List ℕ

-- `u8::is_ascii_hexdigit`.
unfoldable pub is_ascii_hexdigit : ℕ → Bool
is_ascii_hexdigit c =
    (leb b'0' c && leb c b'9') || (leb b'A' c && leb c b'F') || (leb b'a' c && leb c b'f')

pub record Externals : Type 0 where
  pub peer_ids : PeerIdText
  -- `serde_json::to_vec` and `from_slice` at `AppFragment`: what is written reads back.
  pub to_vec : AppFragment → Option (List ℕ)
  pub from_slice : List ℕ → Option AppFragment
  pub from_slice-to_vec : (f : AppFragment) (w : List ℕ) → to_vec f ≡ some w → from_slice w ≡ some f
  -- `encode_app_message` behind its validation: the JSON of a whole message.
  pub message_to_vec : AppMessage → Result (List ℕ)
  -- `blake3::hash(…).to_hex()`: 64 hexadecimal digits.
  pub hash_hex : List ℕ → Text
  pub text_len-hash_hex : (p : List ℕ) → text_len (hash_hex p) ≡ 64
  pub hash_hex-digits : (p : List ℕ) → all is_ascii_hexdigit (hash_hex p) ≡ true

-- `slice::chunks`, on fuel: the length of the list is enough (`Chunks.concat-chunks`).
unfoldable pub chunks_loop : ℕ → ℕ → List ℕ → List (List ℕ)
chunks_loop zero n xs = []
chunks_loop (suc fuel) n [] = []
chunks_loop (suc fuel) n (x ∷ xs) = take n (x ∷ xs) ∷ chunks_loop fuel n (drop n (x ∷ xs))

unfoldable pub chunks : ℕ → List ℕ → List (List ℕ)
unfolding chunks_loop
chunks n xs = chunks_loop (length xs) n xs

module _ (x : Externals) where
  open x use {peer_ids, to_vec, from_slice, message_to_vec, hash_hex}

  -- The fragment of a message with an index and a chunk of its payload.
  abbrev pub fragment_of : AppMessage → ℕ → List ℕ → AppFragment
  fragment_of m index payload = record {
    fragment_schema_version = app_fragment_schema_version;
    message_schema_version = m.schema_version;
    network_id = m.network_id;
    topic = m.topic;
    source_peer_id = m.source_peer_id;
    target_peer_id = m.target_peer_id;
    timestamp_ns = m.timestamp_ns;
    nonce_hex = m.nonce_hex;
    payload_hash_hex = hash_hex m.payload;
    payload_len = length m.payload;
    index = index;
    total = div_ceil (length m.payload) app_fragment_payload_bytes;
    payload = payload;
  }

  -- The body of the closure in `fragment_message`: the wire form of one fragment.
  unfoldable pub encode_fragment : AppMessage → AppFragment → Result (List ℕ)
  encode_fragment m f = elim (to_vec f) [
    | none ↦ err (app_message m.topic "serde_json")
    | some wire ↦
        if ltb max_fragment_wire_bytes (length wire)
        then err (app_message m.topic "encoded fragment exceeds wire bound")
        else ok wire
  ]

  -- `.chunks(…).enumerate().map(…).collect()`: the first error ends it.
  unfoldable pub encode_from : AppMessage → ℕ → List (List ℕ) → Result (List (List ℕ))
  encode_from m index [] = ok []
  encode_from m index (c ∷ cs) = do
    wire ← encode_fragment m (fragment_of m index c)
    wires ← encode_from m (suc index) cs
    ok (wire ∷ wires)

  unfoldable pub fragment_message : AppMessage → Result (List (List ℕ))
  unfolding encode_fragment encode_from
  fragment_message m = do
    validate_app_message peer_ids m
    let total = div_ceil (length m.payload) app_fragment_payload_bytes
    if leb (length m.payload) app_fragment_payload_bytes
        then (do wire ← message_to_vec m; ok (wire ∷ []))
        else (do
          refuse (nat_beq total 0 || ltb max_app_fragments total)
              (app_message m.topic "fragment count exceeds bounded maximum")
          encode_from m 0 (chunks app_fragment_payload_bytes m.payload))

  -- The length that a fragment's payload must have.
  pub expected_len : AppFragment → ℕ
  expected_len f =
      if nat_beq (f.index + 1) f.total
      then f.payload_len - app_fragment_payload_bytes * (f.total - 1)
      else app_fragment_payload_bytes

  -- The checks on lengths, index and total.
  pub validate_shape : AppFragment → Result (Unit {0})
  unfolding expected_len
  validate_shape f = do
    refuse (ltb max_app_message_bytes f.payload_len || leb f.payload_len app_fragment_payload_bytes)
        (app_message f.topic "invalid fragmented payload length")
    refuse
        (not (nat_beq f.total (div_ceil f.payload_len app_fragment_payload_bytes))
          || nat_beq f.total 0
          || ltb max_app_fragments f.total
          || leb f.total f.index)
        (app_message f.topic "invalid fragment index/total")
    refuse (not (nat_beq (length f.payload) (expected_len f)))
        (app_message f.topic "fragment payload length does not match index/total")

  unfoldable pub validate_fragment : AppFragment → Result (Unit {0})
  validate_fragment f = do
    refuse
        (not (nat_beq f.fragment_schema_version app_fragment_schema_version)
          || not (nat_beq f.message_schema_version app_message_schema_version))
        (app_message f.topic "unsupported fragment/message schema version")
    normalize_app_topic f.topic
    parse_or peer_ids f.source_peer_id (app_message f.topic "invalid fragment source peer id")
    parse_target_or peer_ids f.target_peer_id
        (app_message f.topic "invalid fragment target peer id")
    validate_shape f
    refuse
        (not (nat_beq (text_len f.payload_hash_hex) 64)
          || not (all is_ascii_hexdigit f.payload_hash_hex))
        (app_message f.topic "invalid fragment payload hash")

  unfoldable pub decode_fragment : List ℕ → Result AppFragment
  decode_fragment raw =
      if ltb max_fragment_wire_bytes (length raw)
      then err (app_message (codes "<unknown>") "fragment wire exceeds bound")
      else elim (from_slice raw) [
        | none ↦ err (app_message (codes "<unknown>") "serde_json")
        | some f ↦ validate_fragment f >> ok f
      ]
