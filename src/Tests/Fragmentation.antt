-- ===== src/Tests/Fragmentation.antt =====
-- Messages in fragments: a message of 20000 bytes on its way through sender and receiver.
use p2p_net.Prelude.{
  ℕ, ◌≤◌, ◌<◌, ◌≡◌, refl, true, false, none, some, List, [], ◌∷◌, ◌||◌, nat_beq, length, all, any,
  get_elem?, arith, div_ceil,
}
use p2p_net.Prelude.Assoc.{lookup, insert, mem, keys}
use p2p_net.Prelude.Weigh.{weigh}
use p2p_net.Common.Error.{ok}
use p2p_net.Common.Text.{trim, trim_start, text_len, is_ascii_alphanumeric, is_whitespace}
use p2p_net.Api.Message.{
  validate_app_message, validate_app_payload_len, is_topic_char, normalize_app_topic,
}
use p2p_net.Api.Fragmentation.{
  app_fragment_payload_bytes, chunks, chunks_loop, fragment_of, encode_fragment, encode_from,
  fragment_message, decode_fragment,
}
use p2p_net.Api.Fragmentation.Reassembler.{
  key_eq, AppFragmentReassembler, empty, new_entry, push, store, expire, drop_entries, expired_keys,
  retain_positive, over_ceiling, same_message,
}
use p2p_net.Api.Fragmentation.Memory.{author_bytes, total_bytes, IsAccounted, empty-IsAccounted}
use p2p_net.Api.Fragmentation.Ceilings.{filled, push-IsAccounted}
use p2p_net.Api.Fragmentation.Progress.{IsSplit, HasRoom, message_key}
use p2p_net.Api.Fragmentation.Reassembly.{nth_fragment, arrived, push_all, push_all-reassembles}
use p2p_net.Api.Fragmentation.Wire.{chunks-IsSplit, fragment_message-decode_fragment}
use p2p_net.Tests.Samples.{externals, large_message, write_text, write_fragment}

abbrev pieces : List (List ℕ)
pieces = chunks app_fragment_payload_bytes large_message.payload

large_message-valid : validate_app_message externals.peer_ids large_message ≡ ok tt
unfolding validate_app_message normalize_app_topic is_topic_char is_ascii_alphanumeric all trim
    trim_start is_whitespace text_len validate_app_payload_len
large_message-valid = refl

large-IsSplit : IsSplit externals large_message 42 pieces
large-IsSplit = chunks-IsSplit externals large_message 42 refl large_message-valid

large-HasRoom : HasRoom large_message 0 0
large-HasRoom = record { peer_room = omega arith; room = omega arith }

abbrev pushed : AppFragmentReassembler
pushed = record {
  entries =
      (
        message_key 42 large_message,
        filled (new_entry (nth_fragment externals large_message pieces 0) 7)
            (nth_fragment externals large_message pieces 0),
      )
      ∷ [];
  peer_bytes = (42, 16384) ∷ [];
  global_bytes = 16384;
}

push_first :
    push externals empty 42 (nth_fragment externals large_message pieces 0) 7
    ≡ some (pushed, ok none)
unfolding push store chunks chunks_loop expire insert lookup drop_entries expired_keys
    retain_positive over_ceiling same_message any new_entry
push_first = refl

push-IsAccounted_example : IsAccounted pushed
push-IsAccounted_example =
    push-IsAccounted externals empty 42 (nth_fragment externals large_message pieces 0) 7
      empty-IsAccounted push_first

length-pieces : length pieces ≡ 2
unfolding chunks chunks_loop
length-pieces = refl

covered : (j : ℕ) → j < length pieces → (nat_beq 0 j || arrived ((1, 5) ∷ (1, 8) ∷ []) j) ≡ true
unfolding arrived
covered j h = ground (arith, length-pieces)

absent : mem (message_key 42 large_message) (keys empty.entries) ≡ false
unfolding mem
absent = refl

no_bytes : (author_bytes 42 empty.entries ≤ 0) × (total_bytes empty.entries ≤ 0)
unfolding weigh
no_bytes = (omega arith, omega arith)

not_first : arrived ((1, 5) ∷ (1, 8) ∷ []) 0 ≡ false
unfolding arrived
not_first = refl

-- The second fragment comes, then again, then the first.
push_all-reassembles_example :
    (s' : AppFragmentReassembler) × (s'' : AppFragmentReassembler) × (push_all externals
        large_message pieces 42 empty
        ((1, 5) ∷ (1, 8) ∷ [])
      ≡ some s')
    × (push externals s' 42 (nth_fragment externals large_message pieces 0) 10
        ≡ some (s'', ok (some large_message)))
push_all-reassembles_example =
    push_all-reassembles externals large_message 42 pieces 0 0 5 large-IsSplit large-HasRoom empty 1
      ((1, 8) ∷ []) 0 10 empty-IsAccounted absent no_bytes.0 no_bytes.1
      (omega (arith, length-pieces)) ((omega (arith, length-pieces), omega arith), tt)
      (omega (arith, length-pieces)) (omega arith) not_first covered

wire_of : ℕ → List ℕ
wire_of i = write_fragment (nth_fragment externals large_message pieces i)

large_message-sent : fragment_message externals large_message ≡ ok (wire_of 0 ∷ wire_of 1 ∷ [])
unfolding fragment_message wire_of encode_fragment encode_from chunks chunks_loop
    validate_app_message normalize_app_topic is_topic_char is_ascii_alphanumeric all trim trim_start
    is_whitespace text_len validate_app_payload_len write_text
large_message-sent = refl

fragment_message-decode_fragment_example :
    (length (wire_of 0 ∷ wire_of 1 ∷ [])
      ≡ div_ceil (length large_message.payload) app_fragment_payload_bytes)
    × ((i : ℕ) (w : List ℕ)
        → get_elem? (wire_of 0 ∷ wire_of 1 ∷ []) i ≡ some w
        → (c : List ℕ) × (get_elem? pieces i ≡ some c)
          × (decode_fragment externals w ≡ ok (fragment_of externals large_message i c)))
fragment_message-decode_fragment_example =
    fragment_message-decode_fragment externals large_message (wire_of 0 ∷ wire_of 1 ∷ [])
      (omega arith) large_message-sent
