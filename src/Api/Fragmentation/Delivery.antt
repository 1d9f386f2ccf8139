-- ===== src/Api/Fragmentation/Delivery.antt =====
-- One fragment of a message on its way: a duplicate, one of several missing, or the last.
use p2p_net.Prelude.{
  ==_iff, ==_refl, nat_eq, list_eq, ◌==◌, ℕ, ◌+◌, ◌-◌, ◌≤◌, ◌<◌, ◌≡◌, refl, sym, ap, ◌∙◌, Bool,
  true, false, none, some, List, if◌then◌else◌, arith, length, any, get_elem?, set, replicate,
  saturating_add,
}
use mathlib.Core.Option.{get_or}
use p2p_net.Prelude.Assoc.{lookup, mem, keys, lookup-insert, lookup_absent}
use p2p_net.Prelude.Weigh.{weigh-insert}
use p2p_net.Common.Error.{ok}
use p2p_net.Api.Message.{AppMessage}
use p2p_net.Api.Fragmentation.{Externals, fragment_of, fragment_expiry}
use p2p_net.Api.Fragmentation.Reassembler.{
  ReassemblyKey, key_eq, ReassemblyEntry, AppFragmentReassembler, is_none, gather, drop_entry,
  expire, new_entry, same_message, assemble, store, push,
}
use p2p_net.Api.Fragmentation.Memory.{
  entry_bytes, bytes_of, total_bytes, author_bytes, IsAccounted, expire-IsAccounted,
}
use p2p_net.Api.Fragmentation.Expiry.{expire-lookup, expire-weigh-le, expire-absent}
use p2p_net.Api.Fragmentation.Ceilings.{
  entered, entered-IsAccounted, entered-weigh, lookup-entered, grown, grown-IsAccounted,
  grown-author, filled, stored, over_ceiling-room, over_ceiling-entered,
}
use p2p_net.Api.Fragmentation.Mask.{
  mask, with_index, mask_nothing, set-mask, get_elem?-mask, any-mask_missing, any-mask_complete,
  gather-mask, length-gather-set,
}
use p2p_net.Api.Fragmentation.Progress.{
  same_message-fragment_of, gather-nothing, IsSplit, HasRoom, message_key, Progress, entry-le, fits,
}

module _ (x : Externals) (m : AppMessage) (author : ℕ) (cs : List (List ℕ)) (of_peer of_all t0 : ℕ)
    (split : IsSplit x m author cs) (roomy : HasRoom m of_peer of_all) where
  abbrev key : ReassemblyKey
  key = message_key author m

  abbrev pub Holding : AppFragmentReassembler → ReassemblyEntry → (ℕ → Bool) → Type 0
  Holding = Progress x m author cs of_peer of_all t0

  same_as_origin :
      (s : AppFragmentReassembler) (entry : ReassemblyEntry) (seen : ℕ → Bool) (i : ℕ) (c : List ℕ)
      → Holding s entry seen
      → same_message entry.fragment (fragment_of x m i c) ≡ true
  same_as_origin s entry seen i c p = rw p.origin (same_message-fragment_of x m p.index i p.chunk c)

  slot :
      (s : AppFragmentReassembler) (entry : ReassemblyEntry) (seen : ℕ → Bool) (i : ℕ) (c : List ℕ)
      → Holding s entry seen
      → get_elem? cs i ≡ some c
      → get_elem? entry.chunks i ≡ some (if seen i then some c else none)
  slot s entry seen i c p here = rw p.slots (get_elem?-mask seen cs i c here)

  -- A chunk that was seen changes nothing.
  pub store_duplicate :
      (s : AppFragmentReassembler) (entry : ReassemblyEntry) (seen : ℕ → Bool) (i n : ℕ)
      (c : List ℕ)
      → Holding s entry seen
      → get_elem? cs i ≡ some c
      → seen i ≡ true
      → store x s key entry n (fragment_of x m i c) ≡ some (s, ok none)
  unfolding store
  store_duplicate s entry seen i n c p here old =
      let taken : get_elem? entry.chunks i ≡ some (some c) =
        slot s entry seen i c p here ∙ ap (λ b. some (if b then some c else none)) old in
      rw (same_as_origin s entry seen i c p, taken, store)

  free_slot :
      (s : AppFragmentReassembler) (entry : ReassemblyEntry) (seen : ℕ → Bool) (i : ℕ) (c : List ℕ)
      → Holding s entry seen
      → get_elem? cs i ≡ some c
      → seen i ≡ false
      → get_elem? entry.chunks i ≡ some none
  free_slot s entry seen i c p here new =
      slot s entry seen i c p here ∙ ap (λ b. some (if b then some c else none)) new

  abbrev pub with_chunk :
      AppFragmentReassembler → ReassemblyEntry → ℕ → List ℕ → AppFragmentReassembler
  with_chunk s entry i c = stored x s key entry (fragment_of x m i c)

  filled-slots :
      (s : AppFragmentReassembler) (entry : ReassemblyEntry) (seen : ℕ → Bool) (i : ℕ) (c : List ℕ)
      → Holding s entry seen
      → get_elem? cs i ≡ some c
      → (filled entry (fragment_of x m i c)).chunks ≡ mask (with_index i seen) cs
  filled-slots s entry seen i c p here =
      ap (λ l. set l i (some c)) p.slots ∙ set-mask seen cs i c here

  -- A new chunk goes into its slot.
  pub with_chunk-Holding :
      (s : AppFragmentReassembler) (entry : ReassemblyEntry) (seen : ℕ → Bool) (i : ℕ) (c : List ℕ)
      → Holding s entry seen
      → get_elem? cs i ≡ some c
      → seen i ≡ false
      → Holding (with_chunk s entry i c) (filled entry (fragment_of x m i c)) (with_index i seen)
  unfolding grown
  with_chunk-Holding s entry seen i c p here new =
      let f = fragment_of x m i c in
      let free = free_slot s entry seen i c p here new in
      let le = entry-le x m author cs of_peer of_all t0 split roomy s entry seen p in
      let (r1, r2) =
        over_ceiling-room s (get_or (lookup author s.peer_bytes) 0) f
          (fits x m author cs of_peer of_all t0 split roomy s entry seen i c p here) in
      let exact : saturating_add entry.bytes (length c) ≡ entry.bytes + length c =
        omega (arith, le, roomy.peer_room, split.short i c here) in
      record {
        accounted =
            grown-IsAccounted s key entry (filled entry f) (length c) p.accounted p.at refl r1 r2;
        at = ground (arith, lookup-insert key key (filled entry f) s.entries, ==_refl key);
        slots = filled-slots s entry seen i c p here;
        index = p.index;
        chunk = p.chunk;
        origin = p.origin;
        sized = omega (arith, exact, p.sized, length-gather-set entry.chunks i c free);
        started = p.started;
        peer_bound = ground (
          arith,
          grown-author s key entry (filled entry f) (length c) p.at exact author,
          exact,
          p.peer_bound,
        );
        bound =
            ground (
              arith,
              weigh-insert entry_bytes key (filled entry f) s.entries,
              p.at,
              exact,
              p.bound,
            );
      }

  pub store_more :
      (s : AppFragmentReassembler) (entry : ReassemblyEntry) (seen : ℕ → Bool) (i j : ℕ)
      (c : List ℕ)
      → Holding s entry seen
      → get_elem? cs i ≡ some c
      → seen i ≡ false
      → j < length cs
      → with_index i seen j ≡ false
      → store x s key entry (get_or (lookup author s.peer_bytes) 0) (fragment_of x m i c)
        ≡ some (with_chunk s entry i c, ok none)
  unfolding store grown
  store_more s entry seen i j c p here new lt missing = rw (
    same_as_origin s entry seen i c p,
    free_slot s entry seen i c p here new,
    filled-slots s entry seen i c p here,
    any-mask_missing (with_index i seen) cs j lt missing,
    store,
  )

  assemble_complete :
      (s : AppFragmentReassembler) (entry : ReassemblyEntry) (seen : ℕ → Bool)
      → Holding s entry seen
      → ((j : ℕ) → j < length cs → seen j ≡ true)
      → assemble x entry ≡ ok (some m)
  unfolding assemble
  assemble_complete s entry seen p all_seen =
      let payload : gather entry.chunks ≡ m.payload =
        ap gather p.slots ∙ gather-mask seen cs all_seen ∙ split.whole in
      rw
        (p.origin, payload, ==_refl (length m.payload), ==_refl (x.hash_hex m.payload), split.valid)

  -- The last chunk completes the message, and its entry is gone.
  pub store_last :
      (s : AppFragmentReassembler) (entry : ReassemblyEntry) (seen : ℕ → Bool) (i : ℕ) (c : List ℕ)
      → Holding s entry seen
      → get_elem? cs i ≡ some c
      → seen i ≡ false
      → ((j : ℕ) → j < length cs → with_index i seen j ≡ true)
      → store x s key entry (get_or (lookup author s.peer_bytes) 0) (fragment_of x m i c)
        ≡ some (drop_entry key (with_chunk s entry i c), ok (some m))
  unfolding store grown
  store_last s entry seen i c p here new all_seen =
      let done =
        assemble_complete (with_chunk s entry i c) (filled entry (fragment_of x m i c))
          (with_index i seen) (with_chunk-Holding s entry seen i c p here new) all_seen in
      rw (
        same_as_origin s entry seen i c p,
        free_slot s entry seen i c p here new,
        ap (any is_none) (filled-slots s entry seen i c p here)
            ∙ any-mask_complete (with_index i seen) cs all_seen,
        store,
        done,
      )

  abbrev pub fresh : ℕ → ℕ → List ℕ → ReassemblyEntry
  fresh now i c = new_entry (fragment_of x m i c) now

  -- The state as `push` hands it to `store`.
  abbrev pub ready : AppFragmentReassembler → ℕ → ℕ → List ℕ → AppFragmentReassembler
  ready s now i c = entered (expire s now) key (fresh now i c)

  -- Before the first fragment there is no entry; `push` makes one.
  pub ready_first :
      (s : AppFragmentReassembler) (i : ℕ) (c : List ℕ)
      → IsAccounted s
      → mem key (keys s.entries) ≡ false
      → author_bytes author s.entries ≤ of_peer
      → total_bytes s.entries ≤ of_all
      → Holding (ready s t0 i c) (fresh t0 i c) (λ j. false)
  unfolding new_entry
  ready_first s i c v absent peer_le le =
      let v1 = expire-IsAccounted s t0 v in
      let none_there = lookup_absent key (expire s t0).entries (expire-absent s t0 key absent) in
      record {
        accounted = entered-IsAccounted (expire s t0) key (fresh t0 i c) v1 refl;
        at =
            lookup-entered (expire s t0) key (fresh t0 i c)
            ∙ ap (λ o. some (get_or o (fresh t0 i c))) none_there;
        slots = ap (λ n. replicate n none) (sym split.count) ∙ mask_nothing cs;
        index = i;
        chunk = c;
        origin = refl;
        sized = omega (arith, ap length (gather-nothing (fresh t0 i c).fragment.total));
        started = refl;
        peer_bound = omega (
          arith,
          peer_le,
          expire-weigh-le (bytes_of author) s t0,
          entered-weigh (bytes_of author) key (fresh t0 i c) (expire s t0).entries (ground arith),
        );
        bound = omega (
          arith,
          le,
          expire-weigh-le entry_bytes s t0,
          entered-weigh entry_bytes key (fresh t0 i c) (expire s t0).entries refl,
        );
      }

  pub found :
      (s : AppFragmentReassembler) (entry : ReassemblyEntry) (seen : ℕ → Bool) (now : ℕ)
      → Holding s entry seen
      → now - t0 < fragment_expiry
      → lookup key (expire s now).entries ≡ some entry
  found s entry seen now p young =
      expire-lookup s now key entry p.accounted p.at (omega (arith, p.started))

  -- A later fragment finds the entry.
  pub ready_next :
      (s : AppFragmentReassembler) (entry : ReassemblyEntry) (seen : ℕ → Bool) (now i : ℕ)
      (c : List ℕ)
      → Holding s entry seen
      → now - t0 < fragment_expiry
      → Holding (ready s now i c) entry seen
  unfolding new_entry
  ready_next s entry seen now i c p young =
      let v1 = expire-IsAccounted s now p.accounted in
      let there = found s entry seen now p young in
      let m1 = (expire s now).entries in
      record {
        accounted = entered-IsAccounted (expire s now) key (fresh now i c) v1 refl;
        at =
            lookup-entered (expire s now) key (fresh now i c)
            ∙ ap (λ o. some (get_or o (fresh now i c))) there;
        slots = p.slots;
        index = p.index;
        chunk = p.chunk;
        origin = p.origin;
        sized = p.sized;
        started = p.started;
        peer_bound = omega (
          arith,
          p.peer_bound,
          expire-weigh-le (bytes_of author) s now,
          entered-weigh (bytes_of author) key (fresh now i c) m1 (ground arith),
        );
        bound = omega (
          arith,
          p.bound,
          expire-weigh-le entry_bytes s now,
          entered-weigh entry_bytes key (fresh now i c) m1 refl,
        );
      }

  -- `push` passes the checks on the source and the ceilings, and stores the fragment.
  pub push-store :
      (s : AppFragmentReassembler) (entry : ReassemblyEntry) (seen : ℕ → Bool) (now i : ℕ)
      (c : List ℕ)
      → Holding (ready s now i c) entry seen
      → get_or (lookup key (expire s now).entries) (fresh now i c) ≡ entry
      → get_elem? cs i ≡ some c
      → push x s author (fragment_of x m i c) now
        ≡ store x
            (ready s now i c)
            key
            entry
            (get_or (lookup author (expire s now).peer_bytes) 0)
            (fragment_of x m i c)
  unfolding push
  push-store s entry seen now i c p there here =
      let f = fragment_of x m i c in
      let room =
        sym (
          over_ceiling-entered (expire s now) key (fresh now i c)
            (get_or (lookup author (expire s now).peer_bytes) 0) f)
        ∙ fits x m author cs of_peer of_all t0 split roomy (ready s now i c) entry seen i c p
            here in
      let mine : (m.source_peer_id == x.peer_ids.print author) ≡ true =
        (==_iff m.source_peer_id (x.peer_ids.print author)).1 split.own in
      rw (mine, room, there)
