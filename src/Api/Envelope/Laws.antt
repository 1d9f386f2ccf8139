-- ===== src/Api/Envelope/Laws.antt =====
-- Messages that are made are valid, come off the wire as they were, and pass for those of their
-- author on their own topic, and of nobody else.
use p2p_net.Prelude.{
  ==_iff, nat_eq, list_eq, ℕ, ◌*◌, ◌≤◌, ◌≡◌, ◌↔◌, refl, ap, subst, ◌∙◌, Bool, true, false, ◌&&◌,
  not, Option, none, some, List, [], ◌∷◌, ◌++◌, ltb, nat_beq, length, is_empty, all, arith,
  Option-cases, inl, inr,
}
use mathlib.Core.List.{reverse, reverse-cons, reverse-reverse}
use p2p_net.Common.Error.{NetError, Result, ok, refuse, >>=-eq-ok, >>-eq-ok}
use p2p_net.Common.Text.{Text, is_whitespace, trim_start, trim, is_ascii_alphanumeric, text_len}
use p2p_net.Api.Message.{
  AppMessage, app_message_schema_version, max_app_message_bytes, max_app_topic_len, is_topic_char,
  normalize_app_topic, validate_app_payload_len, parse_or, validate_app_message,
}
use p2p_net.Api.Envelope.{
  EnvelopeExternals, app_topic_name, print_target, new_message, encode_app_message,
  decode_app_message, validate_app_message_authentication,
}

encode_app_message-parts :
    (x : EnvelopeExternals) (m : AppMessage) (wire : List ℕ)
    → encode_app_message x m ≡ ok wire
    → (validate_app_message x.peer_ids m ≡ ok tt)
      × (x.to_vec m ≡ some wire)
      × (length wire ≤ 6 * max_app_message_bytes)
unfolding encode_app_message
encode_app_message-parts x m wire h =
    let (_, valid, rest) = >>-eq-ok (validate_app_message x.peer_ids m) _ h in
    elim (Option-cases (x.to_vec m)) [
      | inl e ↦ ground (arith, rest, e, valid)
      | inr (w, e) ↦ ground (arith, rest, e, valid)
    ]

-- A message that `encode_app_message` accepts is what its wire text decodes to.
pub decode_app_message-encode_app_message :
    (x : EnvelopeExternals) (m : AppMessage) (wire : List ℕ)
    → encode_app_message x m ≡ ok wire
    → decode_app_message x wire ≡ ok m
unfolding decode_app_message
decode_app_message-encode_app_message x m wire h =
    let (valid, written, small) = encode_app_message-parts x m wire h in
    ground (arith, valid, small, x.from_slice-to_vec m wire written)

is_topic_char-visible : (c : ℕ) → is_topic_char c ≡ true → is_whitespace c ≡ false
unfolding is_topic_char is_whitespace is_ascii_alphanumeric
is_topic_char-visible c h = ground arith

trim_start-topic : (s : Text) → all is_topic_char s ≡ true → trim_start s ≡ s
unfolding trim_start all
trim_start-topic [] h = refl
trim_start-topic (c ∷ s) h = ground (arith, is_topic_char-visible c)

all-append : (p : ℕ → Bool) (a b : Text) → all p (a ++ b) ≡ all p a && all p b
unfolding all
all-append p [] b = refl
all-append p (c ∷ a) b = ground (arith, all-append p a b)

all-reverse : (p : ℕ → Bool) (s : Text) → all p (reverse s) ≡ all p s
unfolding all
all-reverse p [] = refl
all-reverse p (c ∷ s) =
    ap (all p) (reverse-cons c s)
    ∙ ground (arith, all-append p (reverse s) (c ∷ []), all-reverse p s)

trim-topic : (s : Text) → all is_topic_char s ≡ true → trim s ≡ s
unfolding trim
trim-topic s h =
    let first = trim_start-topic s h in
    let last = trim_start-topic (reverse s) (all-reverse is_topic_char s ∙ h) in
    ap (λ t. reverse (trim_start (reverse t))) first ∙ ap reverse last ∙ reverse-reverse s

-- What `normalize_app_topic` answers is a fixed point of it.
normalize_app_topic_idem :
    (topic name : Text) → normalize_app_topic topic ≡ ok name → normalize_app_topic name ≡ ok name
unfolding normalize_app_topic
normalize_app_topic_idem topic name h =
    let (_, e1, h1) = >>-eq-ok (refuse (is_empty (trim topic)) _) _ h in
    let (_, e2, h2) = >>-eq-ok (refuse (ltb max_app_topic_len (text_len (trim topic))) _) _ h1 in
    let (_, e3, h3) = >>-eq-ok (refuse (not (all is_topic_char (trim topic))) _) _ h2 in
    let same : trim topic ≡ name = cc in
    let fixed = trim-topic (trim topic) (ground (arith, e3)) in
    subst (λ t. normalize_app_topic t ≡ ok t) same (ground (arith, fixed, e1, e2, e3))

parse_or-parse :
    (x : EnvelopeExternals) (id : Text) (e : NetError) (peer : ℕ)
    → parse_or x.peer_ids id e ≡ ok peer
    → x.peer_ids.parse id ≡ some peer
parse_or-parse x id e peer h = elim (Option-cases (x.peer_ids.parse id)) [
  | inl none_there ↦ ground (arith, none_there)
  | inr (p, there) ↦ ground (arith, there)
]

ok_subst :
    (x : EnvelopeExternals) {m m' : AppMessage}
    → validate_app_message x.peer_ids m ≡ ok tt
    → ◌≡◌ {A = Result AppMessage} (ok m) (ok m')
    → validate_app_message x.peer_ids m' ≡ ok tt
ok_subst x {m} {m'} valid e =
    let same : m ≡ m' = cc in subst (λ n. validate_app_message x.peer_ids n ≡ ok tt) same valid

made_message-valid :
    (x : EnvelopeExternals) (network_id : ℕ) (name : Text) (source : ℕ) (target : Option ℕ)
    (payload : List ℕ) (now_ns : ℕ) (nonce : Text)
    → normalize_app_topic name ≡ ok name
    → validate_app_payload_len (length payload) ≡ ok tt
    → validate_app_message x.peer_ids (record {
      schema_version = app_message_schema_version;
      network_id = network_id;
      topic = name;
      source_peer_id = x.peer_ids.print source;
      target_peer_id = print_target x target;
      timestamp_ns = now_ns;
      nonce_hex = nonce;
      payload = payload;
    })
      ≡ ok tt
unfolding validate_app_message
made_message-valid x network_id name source none payload now_ns nonce idem fits =
    ground (arith, idem, fits, x.peer_ids.parse-print source)
made_message-valid x network_id name source (some target) payload now_ns nonce idem fits =
    ground (arith, idem, fits, x.peer_ids.parse-print source, x.peer_ids.parse-print target)

-- A message that is made with `addressed` or `broadcast`, which is `new_message` with a target and
-- without, passes the validation of messages.
pub new_message-valid :
    (x : EnvelopeExternals) (network_id : ℕ) (topic : Text) (source : ℕ) (target : Option ℕ)
    (payload entropy : List ℕ) (now_ns : ℕ) (m : AppMessage)
    → new_message x network_id topic source target payload entropy now_ns ≡ ok m
    → validate_app_message x.peer_ids m ≡ ok tt
unfolding new_message
new_message-valid x network_id topic source target payload entropy now_ns m h =
    let (name, e1, h1) = >>=-eq-ok (normalize_app_topic topic) _ h in
    let (_, e2, h2) = >>-eq-ok (validate_app_payload_len (length payload)) _ h1 in
    let idem = normalize_app_topic_idem topic name e1 in
    ok_subst x
      (made_message-valid x network_id name source target payload now_ns (x.hash_hex entropy) idem
        e2)
      h2

-- A message passes for one of an author on a topic exactly if its source parses to the author and
-- the hash of its topic's name on its network is that topic.
pub validate_app_message_authentication_iff :
    (x : EnvelopeExternals) (m : AppMessage) (author : ℕ) (received : Text)
    → (validate_app_message_authentication x m author received ≡ ok tt) ↔ (
        (x.peer_ids.parse m.source_peer_id ≡ some author)
        × ((name : Text) × (app_topic_name m.network_id m.topic ≡ ok name)
            × (x.topic_hash name ≡ received)))
unfolding validate_app_message_authentication
validate_app_message_authentication_iff x m author received = (
  λ h.
      let (p, e1, h1) = >>=-eq-ok (parse_or x.peer_ids m.source_peer_id _) _ h in
      let (_, e2, h2) = >>-eq-ok (refuse (not (nat_beq p author)) _) _ h1 in
      let (name, e3, e4) = >>=-eq-ok (app_topic_name m.network_id m.topic) _ h2 in
      let parsed = parse_or-parse x m.source_peer_id _ p e1 in
      let own : p ≡ author = ground (arith, e2) in
      (parsed ∙ ap some own, (name, e3, ground (arith, e4, ==_iff (x.topic_hash name) received))),
  λ h. let (name, e3, e4) = h.1 in ground (arith, h.0, e3, e4, ==_iff (x.topic_hash name) received),
)
