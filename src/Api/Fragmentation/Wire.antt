-- ===== src/Api/Fragmentation/Wire.antt =====
-- From `fragment_message` to `decode_fragment`: what is sent comes out as the fragments of the
-- message.
use p2p_net.Prelude.{
  ℕ, zero, suc, ◌+◌, ◌≤◌, ◌<◌, ◌≡◌, refl, sym, ap, subst, ◌∙◌, some, List, [], ◌∷◌, arith, inl, inr,
  length, get_elem?, div_ceil, Option-cases,
}
use p2p_net.Common.Error.{Result, ok, >>-eq-ok, >>=-eq-ok}
use p2p_net.Api.Message.{
  AppMessage, max_app_message_bytes, validate_app_payload_len, validate_app_message,
}
use p2p_net.Api.Fragmentation.{
  AppFragment, Externals, app_fragment_payload_bytes, max_fragment_wire_bytes, chunks, fragment_of,
  encode_fragment, encode_from, fragment_message, validate_shape, validate_fragment,
  decode_fragment,
}
use p2p_net.Api.Fragmentation.Chunks.{
  concat-chunks, length-chunks, nth-chunks, validate_shape-fragment_of,
}
use p2p_net.Api.Fragmentation.Progress.{IsSplit}

-- The chunks that the sender makes are a split of the payload.
pub chunks-IsSplit :
    (x : Externals) (m : AppMessage) (author : ℕ)
    → m.source_peer_id ≡ x.peer_ids.print author
    → validate_app_message x.peer_ids m ≡ ok tt
    → IsSplit x m author (chunks app_fragment_payload_bytes m.payload)
chunks-IsSplit x m author own valid = record {
  whole = concat-chunks app_fragment_payload_bytes m.payload (omega arith);
  count = length-chunks m.payload;
  own = own;
  valid = valid;
  short = λ i c here. let (len, lt) = nth-chunks m.payload i c here in omega (arith, len);
}

validate_app_message-small :
    (x : Externals) (m : AppMessage)
    → validate_app_message x.peer_ids m ≡ ok tt
    → length m.payload ≤ max_app_message_bytes
unfolding validate_app_message validate_app_payload_len
validate_app_message-small x m h = ground arith

validate_fragment-fragment_of :
    (x : Externals) (m : AppMessage) (i : ℕ) (c : List ℕ)
    → validate_app_message x.peer_ids m ≡ ok tt
    → validate_shape x (fragment_of x m i c) ≡ ok tt
    → validate_fragment x (fragment_of x m i c) ≡ ok tt
unfolding validate_fragment validate_app_message
validate_fragment-fragment_of x m i c valid shape =
    ground (arith, shape, x.text_len-hash_hex m.payload, x.hash_hex-digits m.payload)

encode_fragment-ok :
    (x : Externals) (m : AppMessage) (f : AppFragment) (w : List ℕ)
    → encode_fragment x m f ≡ ok w
    → (x.to_vec f ≡ some w) × (length w ≤ max_fragment_wire_bytes)
unfolding encode_fragment
encode_fragment-ok x m f w h = elim (Option-cases (x.to_vec f)) [
  | inl e ↦ ground (arith, e)
  | inr (v, e) ↦ ground (arith, e)
]

encode_from-nth :
    (x : Externals) (m : AppMessage) (cs : List (List ℕ)) (k : ℕ) (wires : List (List ℕ)) (i : ℕ)
    (w : List ℕ)
    → encode_from x m k cs ≡ ok wires
    → get_elem? wires i ≡ some w
    → (c : List ℕ) × (get_elem? cs i ≡ some c)
      × (encode_fragment x m (fragment_of x m (k + i) c) ≡ ok w)
unfolding encode_from
encode_from-nth x m [] k wires i w h at = ground arith
encode_from-nth x m (c ∷ cs) k wires i w h at =
    let (v, first, rest) = >>=-eq-ok (encode_fragment x m (fragment_of x m k c)) _ h in
    let (vs, others, whole) = >>=-eq-ok (encode_from x m (suc k) cs) _ rest in
    nth v vs first (λ j there. encode_from-nth x m cs (suc k) vs j w others there) i
      (subst (λ l. get_elem? l i ≡ some w) (sym (ok_eq whole)) at)
  where
    ok_eq : {a b : List (List ℕ)} → ◌≡◌ {A = Result (List (List ℕ))} (ok a) (ok b) → a ≡ b
    ok_eq e = cc

    nth :
        (v : List ℕ) (vs : List (List ℕ))
        → encode_fragment x m (fragment_of x m k c) ≡ ok v
        → ((j : ℕ)
            → get_elem? vs j ≡ some w
            → (d : List ℕ) × (get_elem? cs j ≡ some d)
              × (encode_fragment x m (fragment_of x m (suc k + j) d) ≡ ok w))
        → (i : ℕ) → get_elem? (v ∷ vs) i ≡ some w
        → (d : List ℕ) × (get_elem? (c ∷ cs) i ≡ some d)
          × (encode_fragment x m (fragment_of x m (k + i) d) ≡ ok w)
    nth v vs first others zero at =
        let same : v ≡ w = cc in
        (
          c,
          refl,
          subst (λ n. encode_fragment x m (fragment_of x m n c) ≡ ok w) (omega arith)
              (first ∙ ap ok same),
        )
    nth v vs first others (suc i) at =
        let (d, there, sent) = others i at in
        (d, there, subst (λ n. encode_fragment x m (fragment_of x m n d) ≡ ok w) (omega arith) sent)

decode_fragment-to_vec :
    (x : Externals) (f : AppFragment) (w : List ℕ)
    → x.to_vec f ≡ some w
    → length w ≤ max_fragment_wire_bytes
    → validate_fragment x f ≡ ok tt
    → decode_fragment x w ≡ ok f
unfolding decode_fragment
decode_fragment-to_vec x f w written small valid =
    ground (arith, x.from_slice-to_vec f w written, valid)

length-encode_from :
    (x : Externals) (m : AppMessage) (cs : List (List ℕ)) (k : ℕ) (wires : List (List ℕ))
    → encode_from x m k cs ≡ ok wires
    → length wires ≡ length cs
unfolding encode_from
length-encode_from x m [] k wires h = ground (arith, h)
length-encode_from x m (c ∷ cs) k wires h =
    let (v, first, rest) = >>=-eq-ok (encode_fragment x m (fragment_of x m k c)) _ h in
    let (vs, others, whole) = >>=-eq-ok (encode_from x m (suc k) cs) _ rest in
    let ih = length-encode_from x m cs (suc k) vs others in ground (arith, whole, ih)

-- A large message that is sent passes the validation, and is encoded chunk by chunk.
fragment_message-encode_from :
    (x : Externals) (m : AppMessage) (wires : List (List ℕ))
    → app_fragment_payload_bytes < length m.payload
    → fragment_message x m ≡ ok wires
    → (validate_app_message x.peer_ids m ≡ ok tt)
      × (encode_from x m 0 (chunks app_fragment_payload_bytes m.payload) ≡ ok wires)
unfolding fragment_message
fragment_message-encode_from x m wires large h =
    let (_, valid, rest) = >>-eq-ok (validate_app_message x.peer_ids m) _ h in
    (valid, ground (arith, rest))

decode_fragment-encode_fragment :
    (x : Externals) (m : AppMessage) (i : ℕ) (c w : List ℕ)
    → app_fragment_payload_bytes < length m.payload
    → validate_app_message x.peer_ids m ≡ ok tt
    → get_elem? (chunks app_fragment_payload_bytes m.payload) i ≡ some c
    → encode_fragment x m (fragment_of x m i c) ≡ ok w
    → decode_fragment x w ≡ ok (fragment_of x m i c)
decode_fragment-encode_fragment x m i c w large valid there sent =
    let (written, small) = encode_fragment-ok x m (fragment_of x m i c) w sent in
    let shape =
      validate_shape-fragment_of x m i c there large (validate_app_message-small x m valid) in
    decode_fragment-to_vec x (fragment_of x m i c) w written small
      (validate_fragment-fragment_of x m i c valid shape)

-- If `fragment_message` accepts a message with more than 16 KiB of payload, it makes one wire text
-- for each 16 KiB of it (the last may be shorter), and each wire text decodes to the fragment with
-- its index and its chunk of the payload.
pub fragment_message-decode_fragment :
    (x : Externals) (m : AppMessage) (wires : List (List ℕ))
    → app_fragment_payload_bytes < length m.payload
    → fragment_message x m ≡ ok wires
    → (length wires ≡ div_ceil (length m.payload) app_fragment_payload_bytes)
      × ((i : ℕ) (w : List ℕ)
          → get_elem? wires i ≡ some w
          → (c : List ℕ) × (get_elem? (chunks app_fragment_payload_bytes m.payload) i ≡ some c)
            × (decode_fragment x w ≡ ok (fragment_of x m i c)))
fragment_message-decode_fragment x m wires large h =
    let (valid, encoded) = fragment_message-encode_from x m wires large h in
    (
      length-encode_from x m _ 0 wires encoded ∙ length-chunks m.payload,
      λ i w at.
          let (c, there, sent) = encode_from-nth x m _ 0 wires i w encoded at in
          (
            c,
            there,
            decode_fragment-encode_fragment x m i c w large valid there
                (subst (λ n. encode_fragment x m (fragment_of x m n c) ≡ ok w) (omega arith) sent),
          ),
    )
