-- ===== src/Tests/Samples.antt =====
-- A concrete stand-in for the codec, the hash and the peer ids, which meets what the code relies
-- on, and a message of more than one fragment.
use p2p_net.Prelude.{
  ℕ, zero, suc, ◌≡◌, refl, ap, subst, ◌∙◌, true, Option, none, some, List, [], ◌∷◌, ◌++◌, length,
  all, take, drop, replicate,
}
use p2p_net.Common.Error.{ok}
use p2p_net.Common.Text.{Text, text_len, codes, PeerIdText}
use p2p_net.Api.Message.{AppMessage}
use p2p_net.Api.Fragmentation.{AppFragment, Externals, is_ascii_hexdigit}

abbrev parse_digit : Text → Option ℕ
parse_digit (peer ∷ []) = some peer
parse_digit _ = none

-- A peer id is the text of one code point.
abbrev pub digit_ids : PeerIdText
digit_ids = record { parse = parse_digit; print = λ peer. peer ∷ []; parse-print = λ peer. refl }

-- Texts with their length in front.
unfoldable pub write_text : Text → List ℕ → List ℕ
write_text t rest = length t ∷ t ++ rest

abbrev read_text : {R : Type 0} → (Text → List ℕ → Option R) → List ℕ → Option R
read_text k [] = none
read_text k (n ∷ s) = k (take n s) (drop n s)

take-append : (t rest : List ℕ) → take (length t) (t ++ rest) ≡ t
take-append [] rest = refl
take-append (c ∷ t) rest = ap (◌∷◌ c) (take-append t rest)

drop-append : (t rest : List ℕ) → drop (length t) (t ++ rest) ≡ rest
drop-append [] rest = refl
drop-append (c ∷ t) rest = drop-append t rest

read_text-write_text :
    {R : Type 0} (k : Text → List ℕ → Option R) (t rest : List ℕ)
    → read_text k (write_text t rest) ≡ k t rest
unfolding write_text
read_text-write_text k t rest = rw (take-append t rest, drop-append t rest) refl

abbrev pub write_target : Option Text → List ℕ → List ℕ
write_target none rest = 0 ∷ rest
write_target (some t) rest = 1 ∷ write_text t rest

abbrev read_target : {R : Type 0} → (Option Text → List ℕ → Option R) → List ℕ → Option R
read_target k [] = none
read_target k (zero ∷ s) = k none s
read_target k (suc n ∷ s) = read_text (λ t. k (some t)) s

read_target-write_target :
    {R : Type 0} (k : Option Text → List ℕ → Option R) (t : Option Text) (rest : List ℕ)
    → read_target k (write_target t rest) ≡ k t rest
read_target-write_target k none rest = refl
read_target-write_target k (some t) rest = read_text-write_text (λ t. k (some t)) t rest

abbrev pub write_fragment : AppFragment → List ℕ
write_fragment f =
    f.fragment_schema_version
    ∷ f.message_schema_version
    ∷ f.network_id
    ∷ f.timestamp_ns
    ∷ f.payload_len
    ∷ f.index
    ∷ f.total
    ∷ write_text f.topic (
        write_text f.source_peer_id (
          write_target f.target_peer_id
            (write_text f.nonce_hex (write_text f.payload_hash_hex f.payload))))

abbrev read_payload : AppFragment → Text → List ℕ → Option AppFragment
read_payload f hash payload = some (record f { payload_hash_hex = hash; payload = payload })

abbrev read_hash : AppFragment → Text → List ℕ → Option AppFragment
read_hash f nonce = read_text (read_payload (record f { nonce_hex = nonce }))

abbrev read_nonce : AppFragment → Option Text → List ℕ → Option AppFragment
read_nonce f target = read_text (read_hash (record f { target_peer_id = target }))

abbrev read_targeted : AppFragment → Text → List ℕ → Option AppFragment
read_targeted f source = read_target (read_nonce (record f { source_peer_id = source }))

abbrev read_source : AppFragment → Text → List ℕ → Option AppFragment
read_source f topic = read_text (read_targeted (record f { topic = topic }))

-- A fragment with the numbers given and no texts.
abbrev numbers : ℕ → ℕ → ℕ → ℕ → ℕ → ℕ → ℕ → AppFragment
numbers v w network time len index total = record {
  fragment_schema_version = v;
  message_schema_version = w;
  network_id = network;
  topic = [];
  source_peer_id = [];
  target_peer_id = none;
  timestamp_ns = time;
  nonce_hex = [];
  payload_hash_hex = [];
  payload_len = len;
  index = index;
  total = total;
  payload = [];
}

abbrev pub read_fragment : List ℕ → Option AppFragment
read_fragment (v ∷ w ∷ network ∷ time ∷ len ∷ index ∷ total ∷ s) =
    read_text (read_source (numbers v w network time len index total)) s
read_fragment _ = none

pub read_fragment-write_fragment : (f : AppFragment) → read_fragment (write_fragment f) ≡ some f
read_fragment-write_fragment f =
    read_text-write_text (read_source f) f.topic _
    ∙ read_text-write_text (read_targeted f) f.source_peer_id _
    ∙ read_target-write_target (read_nonce f) f.target_peer_id _
    ∙ read_text-write_text (read_hash f) f.nonce_hex _
    ∙ read_text-write_text (read_payload f) f.payload_hash_hex f.payload

pub written_reads_back :
    (f : AppFragment) (w : List ℕ)
    → ◌≡◌ {A = Option (List ℕ)} (some (write_fragment f)) (some w)
    → read_fragment w ≡ some f
written_reads_back f w e =
    let same : write_fragment f ≡ w = cc in
    subst (λ v. read_fragment v ≡ some f) same (read_fragment-write_fragment f)

pub text_len-zeros : text_len (replicate 64 b'0') ≡ 64
unfolding text_len
text_len-zeros = refl

pub zeros-digits : all is_ascii_hexdigit (replicate 64 b'0') ≡ true
unfolding all is_ascii_hexdigit
zeros-digits = refl

abbrev pub externals : Externals
externals = record {
  peer_ids = digit_ids;
  to_vec = λ f. some (write_fragment f);
  from_slice = read_fragment;
  from_slice-to_vec = written_reads_back;
  message_to_vec = λ m. ok m.payload;
  hash_hex = λ p. replicate 64 b'0';
  text_len-hash_hex = λ p. text_len-zeros;
  hash_hex-digits = λ p. zeros-digits;
}

-- 20000 bytes from peer 42 to all.
abbrev pub large_message : AppMessage
large_message = record {
  schema_version = 2;
  network_id = 1;
  topic = codes "chat/room";
  source_peer_id = 42 ∷ [];
  target_peer_id = none;
  timestamp_ns = 5_000_000_000;
  nonce_hex = replicate 64 b'a';
  payload = replicate 20000 7;
}
