-- ===== src/Api/Fragmentation/Ceilings.antt =====
-- `push` keeps the counters of the reassembler right and its memory under the ceilings.
use p2p_net.Prelude.{
  ==_refl, nat_eq, list_eq, ◌==◌, ℕ, ◌+◌, ◌≤◌, ◌≡◌, refl, sym, subst, ◌∙◌, false, Option, none,
  some, nat_beq, if◌then◌else◌, arith, Option-cases, Bool-cases, inl, inr, length, any, get_elem?,
  set, saturating_add,
}
use mathlib.Core.Option.{get_or}
use p2p_net.Prelude.Assoc.{lookup, insert, lookup-insert, insert-Distinct}
use p2p_net.Prelude.Weigh.{weigh, weigh-insert, weigh-remove}
use p2p_net.Common.Error.{Result}
use p2p_net.Api.Message.{AppMessage}
use p2p_net.Api.Fragmentation.{
  AppFragment, Externals, max_reassembly_bytes_per_peer, max_reassembly_bytes_global,
}
use p2p_net.Api.Fragmentation.Reassembler.{
  ReassemblyKey, key_eq, ReassemblyEntry, AppFragmentReassembler, is_none, drop_entry, expire,
  new_entry, same_message, store, over_ceiling, push,
}
use p2p_net.Api.Fragmentation.Memory.{
  Entries, entry_bytes, bytes_of, author_bytes, IsAccounted, expire-IsAccounted,
  drop_entry-IsAccounted,
}

-- The state with the entry of a key, which is new and empty if there was none.
abbrev pub entered :
    AppFragmentReassembler → ReassemblyKey → ReassemblyEntry → AppFragmentReassembler
entered s key fresh = record s {
  entries = insert key (get_or (lookup key s.entries) fresh) s.entries;
}

pub entered-weigh :
    (w : ReassemblyKey → ReassemblyEntry → ℕ) (key : ReassemblyKey) (fresh : ReassemblyEntry)
    (m : Entries)
    → w key fresh ≡ 0
    → weigh w (insert key (get_or (lookup key m) fresh) m) ≡ weigh w m
entered-weigh w key fresh m light = elim (Option-cases (lookup key m)) [
  | inl e ↦ rw e (ground (arith, weigh-insert w key fresh m, e, light))
  | inr (old, e) ↦ rw e (ground (arith, weigh-insert w key old m, e))
]

pub entered-IsAccounted :
    (s : AppFragmentReassembler) (key : ReassemblyKey) (fresh : ReassemblyEntry)
    → IsAccounted s
    → fresh.bytes ≡ 0
    → IsAccounted (entered s key fresh)
entered-IsAccounted s key fresh v light = record {
  distinct = insert-Distinct key _ s.entries v.distinct;
  distinct_peers = v.distinct_peers;
  global = omega (arith, v.global, entered-weigh entry_bytes key fresh s.entries light);
  per_peer = λ peer.
      v.per_peer peer
      ∙ sym (entered-weigh (bytes_of peer) key fresh s.entries (ground (arith, light)));
  global_ceiling = v.global_ceiling;
  peer_ceiling = λ peer. omega (
    arith,
    v.peer_ceiling peer,
    entered-weigh (bytes_of peer) key fresh s.entries (ground (arith, light)),
  );
}

pub lookup-entered :
    (s : AppFragmentReassembler) (key : ReassemblyKey) (fresh : ReassemblyEntry)
    → lookup key (entered s key fresh).entries ≡ some (get_or (lookup key s.entries) fresh)
lookup-entered s key fresh =
    ground
      (arith, lookup-insert key key (get_or (lookup key s.entries) fresh) s.entries, ==_refl key)

pub new_entry-bytes : (f : AppFragment) (now : ℕ) → (new_entry f now).bytes ≡ 0
unfolding new_entry
new_entry-bytes f now = refl

-- A chunk of `len` bytes comes into the entry of a key.
module _ (s : AppFragmentReassembler) (key : ReassemblyKey) (old new : ReassemblyEntry)
    (len : ℕ) where
  unfoldable pub grown : AppFragmentReassembler
  grown = record {
    entries = insert key new s.entries;
    peer_bytes =
        insert key.author (saturating_add (get_or (lookup key.author s.peer_bytes) 0) len)
          s.peer_bytes;
    global_bytes = saturating_add s.global_bytes len;
  }

  pub grown-author :
      lookup key s.entries ≡ some old
      → new.bytes ≡ old.bytes + len
      → (peer : ℕ)
      → author_bytes peer (insert key new s.entries)
        ≡ author_bytes peer s.entries + (if nat_beq key.author peer then len else 0)
  grown-author at exact peer = ground (arith, weigh-insert (bytes_of peer) key new s.entries)

  pub grown-IsAccounted :
      IsAccounted s
      → lookup key s.entries ≡ some old
      → new.bytes ≡ saturating_add old.bytes len
      → saturating_add (get_or (lookup key.author s.peer_bytes) 0) len
        ≤ max_reassembly_bytes_per_peer
      → saturating_add s.global_bytes len ≤ max_reassembly_bytes_global
      → IsAccounted grown
  unfolding grown
  grown-IsAccounted v at size peer_room room =
      let sum = weigh-insert entry_bytes key new s.entries in
      let whole = weigh-remove entry_bytes key s.entries in
      let exact : new.bytes ≡ old.bytes + len = ground (arith, at, size, whole, v.global) in
      let exact_peer : saturating_add (get_or (lookup key.author s.peer_bytes) 0) len
          ≡ author_bytes key.author s.entries + len =
        omega (arith, v.per_peer key.author) in
      record {
        distinct = insert-Distinct key new s.entries v.distinct;
        distinct_peers = insert-Distinct key.author _ s.peer_bytes v.distinct_peers;
        global = ground (arith, at, sum, exact, v.global);
        per_peer = λ peer. ground (
          arith,
          lookup-insert key.author peer
              (saturating_add (get_or (lookup key.author s.peer_bytes) 0) len) s.peer_bytes,
          exact_peer,
          grown-author at exact peer,
          v.per_peer peer,
        );
        global_ceiling = room;
        peer_ceiling =
            λ peer. ground (arith, exact_peer, grown-author at exact peer, v.peer_ceiling peer);
      }

-- The entry with the chunk of a fragment.
abbrev pub filled : ReassemblyEntry → AppFragment → ReassemblyEntry
filled entry f = record entry {
  bytes = saturating_add entry.bytes (length f.payload);
  chunks = set entry.chunks f.index (some f.payload);
}

state_of_some :
    {A : Type 0} (P : AppFragmentReassembler → Type 0) {s s' : AppFragmentReassembler} {q r : A}
    → P s
    → ◌≡◌ {A = Option (AppFragmentReassembler × A)} (some (s, q)) (some (s', r))
    → P s'
state_of_some {A} P {s} {s'} {q} {r} p e = subst P (state_eq e) p
  where
    state_eq : ◌≡◌ {A = Option (AppFragmentReassembler × A)} (some (s, q)) (some (s', r)) → s ≡ s'
    state_eq e = cc

pub over_ceiling-room :
    (s : AppFragmentReassembler) (n : ℕ) (f : AppFragment)
    → over_ceiling s n f ≡ false
    → (saturating_add n (length f.payload) ≤ max_reassembly_bytes_per_peer)
      × (saturating_add s.global_bytes (length f.payload) ≤ max_reassembly_bytes_global)
unfolding over_ceiling
over_ceiling-room s n f h = ground arith

pub over_ceiling-entered :
    (s : AppFragmentReassembler) (key : ReassemblyKey) (fresh : ReassemblyEntry) (n : ℕ)
    (f : AppFragment)
    → over_ceiling (entered s key fresh) n f ≡ over_ceiling s n f
unfolding over_ceiling
over_ceiling-entered s key fresh n f = refl

module _ (x : Externals) (s : AppFragmentReassembler) (key : ReassemblyKey)
    (entry : ReassemblyEntry) (f : AppFragment) where
  abbrev pub stored : AppFragmentReassembler
  stored = grown s key entry (filled entry f) (length f.payload)

  -- A call of `store` leaves the state as it was, with the fragment stored, or without the entry.
  store_cases :
      (P : AppFragmentReassembler → Type 0) {s' : AppFragmentReassembler}
      {r : Result (Option AppMessage)}
      → P s
      → P stored
      → P (drop_entry key stored)
      → store x s key entry (get_or (lookup key.author s.peer_bytes) 0) f ≡ some (s', r)
      → P s'
  unfolding store grown
  store_cases P p q w = elim (Bool-cases (same_message entry.fragment f)) [
    | inr other ↦ rw (other, store) (state_of_some P p)
    | inl same ↦ elim (Option-cases (get_elem? entry.chunks f.index)) [
      | inl out ↦ rw (same, out, store) (λ e. cc)
      | inr (some c, old) ↦ rw (same, old, store) (state_of_some P p)
      | inr (none, free) ↦
          elim (Bool-cases (any is_none (set entry.chunks f.index (some f.payload)))) [
            | inl more ↦ rw (same, free, more, store) (state_of_some P q)
            | inr done ↦ rw (same, free, done, store) (state_of_some P w)
          ]
    ]
  ]

  store-IsAccounted :
      {s' : AppFragmentReassembler} {r : Result (Option AppMessage)}
      → IsAccounted s
      → lookup key s.entries ≡ some entry
      → over_ceiling s (get_or (lookup key.author s.peer_bytes) 0) f ≡ false
      → store x s key entry (get_or (lookup key.author s.peer_bytes) 0) f ≡ some (s', r)
      → IsAccounted s'
  store-IsAccounted v at fits =
      let g =
        grown-IsAccounted s key entry (filled entry f) (length f.payload) v at refl
          (over_ceiling-room s _ f fits).0 (over_ceiling-room s _ f fits).1 in
      store_cases IsAccounted v g (drop_entry-IsAccounted key stored g)

-- The key of a fragment from an author.
abbrev pub key_of : ℕ → AppFragment → ReassemblyKey
key_of author f = record { author = author; nonce_hex = f.nonce_hex; topic = f.topic }

-- Whatever a call of `push` answers, the state that it leaves counts its bytes right, for each
-- peer and in total, and holds at most 2 MiB of one peer and 8 MiB together.
pub push-IsAccounted :
    (x : Externals) (s : AppFragmentReassembler) (author : ℕ) (f : AppFragment) (now : ℕ)
    {s' : AppFragmentReassembler} {r : Result (Option AppMessage)}
    → IsAccounted s
    → push x s author f now ≡ some (s', r)
    → IsAccounted s'
unfolding push
push-IsAccounted x s author f now v =
    let s1 = expire s now in
    let v1 = expire-IsAccounted s now v in
    let key = key_of author f in
    let fresh = new_entry f now in
    elim (Bool-cases (f.source_peer_id == x.peer_ids.print author)) [
      | inr forged ↦ rw (forged, push) (state_of_some IsAccounted v1)
      | inl own ↦ elim (Bool-cases (over_ceiling s1 (get_or (lookup author s1.peer_bytes) 0) f)) [
        | inl full ↦ rw (own, full, push) (state_of_some IsAccounted v1)
        | inr fits ↦
            rw (own, fits, push)
              (store-IsAccounted x (entered s1 key fresh) key _ f
                (entered-IsAccounted s1 key fresh v1 (new_entry-bytes f now))
                (lookup-entered s1 key fresh) (over_ceiling-entered s1 key fresh _ f ∙ fits))
      ]
    ]
