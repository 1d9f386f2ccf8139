-- ===== src/Api/Fragmentation/Progress.antt =====
-- A message on its way through the reassembler: which of its chunks its entry holds.
use p2p_net.Prelude.{
  ==_refl, nat_eq, list_eq, option_eq, ℕ, zero, suc, ◌+◌, ◌≤◌, ◌≡◌, refl, ap, Bool, true, false,
  none, some, List, [], arith, length, get_elem?, replicate, div_ceil,
}
use mathlib.Core.Option.{get_or}
use p2p_net.Prelude.Assoc.{lookup}
use p2p_net.Common.Error.{ok}
use p2p_net.Api.Message.{AppMessage, validate_app_message}
use p2p_net.Api.Fragmentation.{
  Externals, fragment_of, app_fragment_payload_bytes, max_reassembly_bytes_per_peer,
  max_reassembly_bytes_global,
}
use p2p_net.Api.Fragmentation.Reassembler.{
  ReassemblyKey, key_eq, ReassemblyEntry, AppFragmentReassembler, gather, same_message,
  over_ceiling,
}
use p2p_net.Api.Fragmentation.Memory.{total_bytes, author_bytes, IsAccounted}
use p2p_net.Api.Fragmentation.Mask.{concat, mask, length-gather-mask-le}

-- Two fragments of one message agree in all that `same_message` compares.
pub same_message-fragment_of :
    (x : Externals) (m : AppMessage) (i j : ℕ) (c d : List ℕ)
    → same_message (fragment_of x m i c) (fragment_of x m j d) ≡ true
unfolding same_message
same_message-fragment_of x m i j c d = ground (
  arith,
  ==_refl m.topic,
  ==_refl m.source_peer_id,
  ==_refl m.target_peer_id,
  ==_refl m.nonce_hex,
  ==_refl (x.hash_hex m.payload),
)

pub gather-nothing : (n : ℕ) → gather (replicate n none) ≡ []
unfolding gather
gather-nothing zero = refl
gather-nothing (suc n) = gather-nothing n

-- What the message, its author and the list of its chunks must satisfy.
pub record IsSplit (x : Externals) (m : AppMessage) (author : ℕ) (cs : List (List ℕ)) : Type 0 where
  pub whole : concat cs ≡ m.payload
  pub count : length cs ≡ div_ceil (length m.payload) app_fragment_payload_bytes
  pub own : m.source_peer_id ≡ x.peer_ids.print author
  pub valid : validate_app_message x.peer_ids m ≡ ok tt
  pub short : (i : ℕ) (c : List ℕ) → get_elem? cs i ≡ some c → length c ≤ app_fragment_payload_bytes

-- The room that the message needs beside `of_peer` bytes of its author and `of_all` bytes in all.
pub record HasRoom (m : AppMessage) (of_peer of_all : ℕ) : Type 0 where
  pub peer_room :
      of_peer + length m.payload + app_fragment_payload_bytes ≤ max_reassembly_bytes_per_peer
  pub room : of_all + length m.payload + app_fragment_payload_bytes ≤ max_reassembly_bytes_global

abbrev pub message_key : ℕ → AppMessage → ReassemblyKey
message_key author m = record { author = author; nonce_hex = m.nonce_hex; topic = m.topic }

-- The entry of the message holds the chunks with the indices that were seen.
pub record Progress (x : Externals) (m : AppMessage) (author : ℕ) (cs : List (List ℕ))
    (of_peer of_all t0 : ℕ) (s : AppFragmentReassembler) (entry : ReassemblyEntry) (seen : ℕ → Bool)
    : Type 0 where
  pub accounted : IsAccounted s
  pub at : lookup (message_key author m) s.entries ≡ some entry
  pub slots : entry.chunks ≡ mask seen cs
  pub index : ℕ
  pub chunk : List ℕ
  pub origin : entry.fragment ≡ fragment_of x m index chunk
  pub sized : entry.bytes ≡ length (gather entry.chunks)
  pub started : entry.created ≡ t0
  pub peer_bound : author_bytes author s.entries ≤ of_peer + entry.bytes
  pub bound : total_bytes s.entries ≤ of_all + entry.bytes

module _ (x : Externals) (m : AppMessage) (author : ℕ) (cs : List (List ℕ)) (of_peer of_all t0 : ℕ)
    (split : IsSplit x m author cs) (roomy : HasRoom m of_peer of_all) where
  abbrev key : ReassemblyKey
  key = message_key author m

  -- The entry never holds more than the payload.
  pub entry-le :
      (s : AppFragmentReassembler) (entry : ReassemblyEntry) (seen : ℕ → Bool)
      → Progress x m author cs of_peer of_all t0 s entry seen
      → entry.bytes ≤ length m.payload
  entry-le s entry seen p = omega (
    arith,
    p.sized,
    ap (λ l. length (gather l)) p.slots,
    length-gather-mask-le seen cs,
    ap length split.whole,
  )

  pub fits :
      (s : AppFragmentReassembler) (entry : ReassemblyEntry) (seen : ℕ → Bool) (i : ℕ) (c : List ℕ)
      → Progress x m author cs of_peer of_all t0 s entry seen
      → get_elem? cs i ≡ some c
      → over_ceiling s (get_or (lookup author s.peer_bytes) 0) (fragment_of x m i c) ≡ false
  unfolding over_ceiling
  fits s entry seen i c p here =
      let le = entry-le s entry seen p in
      let per = p.accounted.per_peer author in
      ground (arith, le, per, split.short i c here, p.accounted.global)
