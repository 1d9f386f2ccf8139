-- ===== src/Api/Fragmentation/Memory.antt =====
-- The memory of the reassembler: its counters are the bytes that it holds, and stay under the
-- ceilings.
use p2p_net.Prelude.{
  nat_eq, ℕ, ◌-◌, ◌≤◌, ◌≡◌, refl, false, List, [], ◌∷◌, nat_beq, if◌then◌else◌, arith, Option-cases,
  inl, inr, ◌∙◌,
}
use mathlib.Core.Option.{get_or}
use p2p_net.Prelude.Assoc.{
  lookup, mem, keys, Distinct, lookup-insert, lookup_absent, insert-Distinct, remove-Distinct,
}
use p2p_net.Prelude.Weigh.{weigh, weigh-remove}
use p2p_net.Api.Fragmentation.{max_reassembly_bytes_per_peer, max_reassembly_bytes_global}
use p2p_net.Api.Fragmentation.Reassembler.{
  ReassemblyKey, key_eq, ReassemblyEntry, AppFragmentReassembler, empty, subtract_bytes,
  expired_keys, drop_entry, drop_entries, retain_positive, expire,
}

abbrev pub Entries : Type 0
Entries = List (ReassemblyKey × ReassemblyEntry)

abbrev pub entry_bytes : ReassemblyKey → ReassemblyEntry → ℕ
entry_bytes key entry = entry.bytes

abbrev pub bytes_of : ℕ → ReassemblyKey → ReassemblyEntry → ℕ
bytes_of peer key entry = if nat_beq key.author peer then entry.bytes else 0

-- The bytes of all entries, and of those of one peer.
abbrev pub total_bytes : Entries → ℕ
total_bytes = weigh entry_bytes

abbrev pub author_bytes : ℕ → Entries → ℕ
author_bytes peer = weigh (bytes_of peer)

pub record IsAccounted (s : AppFragmentReassembler) : Type 0 where
  pub distinct : Distinct (keys s.entries)
  pub distinct_peers : Distinct (keys s.peer_bytes)
  pub global : s.global_bytes ≡ total_bytes s.entries
  pub per_peer : (peer : ℕ) → get_or (lookup peer s.peer_bytes) 0 ≡ author_bytes peer s.entries
  pub global_ceiling : s.global_bytes ≤ max_reassembly_bytes_global
  pub peer_ceiling : (peer : ℕ) → author_bytes peer s.entries ≤ max_reassembly_bytes_per_peer

pub empty-IsAccounted : IsAccounted empty
unfolding weigh lookup
empty-IsAccounted = record {
  distinct = tt;
  distinct_peers = tt;
  global = refl;
  per_peer = λ peer. refl;
  global_ceiling = omega arith;
  peer_ceiling = λ peer. omega arith;
}

subtract_bytes-lookup :
    (peer q n : ℕ) (m : List (ℕ × ℕ))
    → get_or (lookup q (subtract_bytes peer n m)) 0
      ≡ (if nat_beq peer q then get_or (lookup peer m) 0 - n else get_or (lookup q m) 0)
unfolding subtract_bytes
subtract_bytes-lookup peer q n m = elim (Option-cases (lookup peer m)) [
  | inl e ↦ rw (e, subtract_bytes) (ground arith)
  | inr (b, e) ↦ rw (e, subtract_bytes) (ground (arith, lookup-insert peer q (b - n) m))
]

subtract_bytes-Distinct :
    (peer n : ℕ) (m : List (ℕ × ℕ)) → Distinct (keys m) → Distinct (keys (subtract_bytes peer n m))
unfolding subtract_bytes
subtract_bytes-Distinct peer n m d = elim (Option-cases (lookup peer m)) [
  | inl e ↦ rw (e, subtract_bytes) d
  | inr (b, e) ↦ rw (e, subtract_bytes) (insert-Distinct peer (b - n) m d)
]

pub drop_entry-IsAccounted :
    (key : ReassemblyKey) (s : AppFragmentReassembler)
    → IsAccounted s
    → IsAccounted (drop_entry key s)
unfolding drop_entry
drop_entry-IsAccounted key s v = elim (Option-cases (lookup key s.entries)) [
  | inl e ↦ rw (e, drop_entry) v
  | inr (entry, e) ↦
      rw (e, drop_entry)
        (record {
          distinct = remove-Distinct key s.entries v.distinct;
          distinct_peers =
              subtract_bytes-Distinct key.author entry.bytes s.peer_bytes v.distinct_peers;
          global = ground (arith, weigh-remove entry_bytes key s.entries, v.global);
          per_peer = λ peer. ground (
            arith,
            subtract_bytes-lookup key.author peer entry.bytes s.peer_bytes,
            weigh-remove (bytes_of peer) key s.entries,
            v.per_peer peer,
          );
          global_ceiling = omega (arith, v.global_ceiling);
          peer_ceiling = λ peer.
              ground (arith, weigh-remove (bytes_of peer) key s.entries, v.peer_ceiling peer);
        })
]

drop_entries-IsAccounted :
    (gone : List ReassemblyKey) (s : AppFragmentReassembler)
    → IsAccounted s
    → IsAccounted (drop_entries gone s)
unfolding drop_entries
drop_entries-IsAccounted [] s v = v
drop_entries-IsAccounted (key ∷ gone) s v =
    drop_entries-IsAccounted gone (drop_entry key s) (drop_entry-IsAccounted key s v)

mem-retain_positive :
    (peer : ℕ) (m : List (ℕ × ℕ))
    → mem peer (keys m) ≡ false
    → mem peer (keys (retain_positive m)) ≡ false
unfolding retain_positive mem
mem-retain_positive peer [] h = refl
mem-retain_positive peer ((q, b) ∷ m) h = ground (arith, mem-retain_positive peer m)

retain_positive-Distinct :
    (m : List (ℕ × ℕ)) → Distinct (keys m) → Distinct (keys (retain_positive m))
unfolding retain_positive
retain_positive-Distinct [] d = tt
retain_positive-Distinct ((q, b) ∷ m) d =
    ground (arith, retain_positive-Distinct m d.1, mem-retain_positive q m d.0)

retain_positive-lookup :
    (peer : ℕ) (m : List (ℕ × ℕ))
    → Distinct (keys m)
    → get_or (lookup peer (retain_positive m)) 0 ≡ get_or (lookup peer m) 0
unfolding retain_positive lookup
retain_positive-lookup peer [] d = refl
retain_positive-lookup peer ((q, b) ∷ m) d =
    ground (arith, retain_positive-lookup peer m d.1, lookup_absent peer m)

pub expire-IsAccounted :
    (s : AppFragmentReassembler) (now : ℕ) → IsAccounted s → IsAccounted (expire s now)
unfolding expire
expire-IsAccounted s now v =
    let s' = drop_entries (expired_keys now s.entries) s in
    let v' = drop_entries-IsAccounted (expired_keys now s.entries) s v in
    record {
      distinct = v'.distinct;
      distinct_peers = retain_positive-Distinct s'.peer_bytes v'.distinct_peers;
      global = v'.global;
      per_peer =
          λ peer. retain_positive-lookup peer s'.peer_bytes v'.distinct_peers ∙ v'.per_peer peer;
      global_ceiling = v'.global_ceiling;
      peer_ceiling = v'.peer_ceiling;
    }
