-- ===== src/Connectivity/PeerBook.antt =====
-- crates/connectivity/peer_book.rs: the bounded store of what is known of each peer, with the
-- index of reconnect candidates, the eviction order of the disconnected and the count of the
-- connected. Each method that reads the clock takes the time in seconds. An address is printed by
-- the libp2p library, by `print` here.

pub mod Ops
pub mod Index
pub mod Bound
pub mod Connected
pub mod Recorded
use p2p_net.Prelude.{
  ℕ, zero, suc, ◌+◌, ◌-◌, ◌*◌, ◌/◌, ◌%◌, ◌^◌, ◌≤◌, ◌<◌, min, max, ◌≡◌, refl, sym, ap, subst, ◌∙◌,
  ◌≢◌, ◌↔◌, ◌⊎◌, inl, inr, Bool, true, false, not, ◌&&◌, ◌||◌, Option, none, some, List, [], ◌∷◌,
  ◌++◌, map, arith, ltb, leb, nat_beq, if◌then◌else◌, Bool-cases, Option-cases, length, all, any,
  is_empty, get_elem?, set, take, drop, replicate, All, u32_max, u64_max, saturating_add32,
  saturating_add, saturating_mul, div_ceil, Eq, ◌==◌, ==_iff, ==_refl, nat_eq, list_eq, option_eq,
}
use p2p_net.Prelude.Assoc.{lookup, insert, remove, contains_key}
use p2p_net.Prelude.OrderedSet.{Pair, pair_eq, pair_ord, nat_ord, text_ord, include, discard}
use p2p_net.Common.Text.{Text}
use p2p_net.Common.Multiaddr.{Multiaddr}
use p2p_net.Api.Source.{PeerSource, connected, source_eq, source_ord}

abbrev pub max_addrs_per_peer : ℕ
max_addrs_per_peer = 64

abbrev pub default_max_peer_book_records : ℕ
default_max_peer_book_records = 2048

pub record PeerRecord : Type 0 where
  pub peer_id : ℕ
  pub addresses : List Text
  pub sources : List PeerSource
  pub namespaces : List Text
  pub is_connected : Bool
  pub supports_relay : Option Bool
  pub supports_rendezvous : Option Bool
  pub supports_dcutr : Option Bool
  pub relay_preferred : Bool
  pub last_seen_unix_secs : Option ℕ
  pub failures : ℕ

-- `PeerRecord::new`.
abbrev pub new_record : ℕ → PeerRecord
new_record peer_id = record {
  peer_id = peer_id;
  addresses = [];
  sources = [];
  namespaces = [];
  is_connected = false;
  supports_relay = none;
  supports_rendezvous = none;
  supports_dcutr = none;
  relay_preferred = false;
  last_seen_unix_secs = none;
  failures = 0;
}

abbrev pub mark_seen : ℕ → PeerRecord → PeerRecord
mark_seen now r = record r { last_seen_unix_secs = some now }

pub record PeerBook : Type 0 where
  pub peers : List (ℕ × PeerRecord)
  pub disconnected_namespace_peers : List ℕ
  pub disconnected_eviction_order : List Pair
  pub connected_count : ℕ
  pub max_records : ℕ

unfoldable pub with_max_records : ℕ → PeerBook
with_max_records max_records = record {
  peers = [];
  disconnected_namespace_peers = [];
  disconnected_eviction_order = [];
  connected_count = 0;
  max_records = max max_records 1;
}

-- The loop of `prune_peer_addrs` on the sorted addresses.
unfoldable pub drop_first : ℕ → List Text → List Text
drop_first max_addrs [] = []
drop_first max_addrs (oldest_sorted ∷ rest) =
    let pruned = drop_first max_addrs rest in
    if ltb max_addrs (length (oldest_sorted ∷ rest)) then pruned else oldest_sorted ∷ rest

abbrev pub prune_peer_addrs : PeerRecord → PeerRecord
prune_peer_addrs r = record r { addresses = drop_first max_addrs_per_peer r.addresses }

-- The loop of `enforce_record_bound`: the table, the candidates and the order after it.
unfoldable pub evict_victims :
    ℕ → List (ℕ × PeerRecord) → List ℕ → List Pair → List (ℕ × PeerRecord) × List ℕ × List Pair
evict_victims max_records peers candidates [] = (peers, candidates, [])
evict_victims max_records peers candidates ((last_seen, victim) ∷ order) =
    let rest = evict_victims max_records (remove victim peers) (discard victim candidates) order in
    if ltb max_records (length peers)
    then rest
    else (peers, candidates, (last_seen, victim) ∷ order)

unfoldable pub enforce_record_bound : PeerBook → PeerBook
enforce_record_bound b =
    let (peers, candidates, order) =
      evict_victims b.max_records b.peers b.disconnected_namespace_peers
        b.disconnected_eviction_order in
    record b {
      peers = peers;
      disconnected_namespace_peers = candidates;
      disconnected_eviction_order = order;
    }

-- The connected count after a record's flag went from the first value to the second.
abbrev pub recount : Bool → Bool → ℕ → ℕ
recount false true n = saturating_add n 1
recount true false n = n - 1
recount true true n = n
recount false false n = n

abbrev pub is_candidate : PeerRecord → Bool
is_candidate r = not r.is_connected && not (is_empty r.namespaces)

-- The eviction order with a record that is disconnected and was seen.
abbrev pub enqueue : ℕ → Bool → Option ℕ → List Pair → List Pair
enqueue peer_id true last_seen order = order
enqueue peer_id false none order = order
enqueue peer_id false (some last_seen) order = include (last_seen, peer_id) order

-- `sync_indexes` with the record that is found.
abbrev pub synced : PeerBook → ℕ → Bool → Option PeerRecord → PeerBook
synced b peer_id before none = b
synced b peer_id before (some r) = record b {
  connected_count = recount before r.is_connected b.connected_count;
  disconnected_namespace_peers =
      if is_candidate r
      then include peer_id b.disconnected_namespace_peers
      else discard peer_id b.disconnected_namespace_peers;
  disconnected_eviction_order =
      enqueue peer_id r.is_connected r.last_seen_unix_secs b.disconnected_eviction_order;
}

unfoldable pub sync_indexes : PeerBook → ℕ → Bool → PeerBook
sync_indexes b peer_id before = synced b peer_id before (lookup peer_id b.peers)

-- The eviction order without a record that was disconnected and seen.
abbrev pub unqueue : ℕ → Bool → Option ℕ → List Pair → List Pair
unqueue peer_id true last_seen order = order
unqueue peer_id false none order = order
unqueue peer_id false (some last_seen) order = discard (last_seen, peer_id) order

abbrev pub dequeue : ℕ → Option PeerRecord → List Pair → List Pair
dequeue peer_id none order = order
dequeue peer_id (some r) order = unqueue peer_id r.is_connected r.last_seen_unix_secs order

-- `or_insert_with(PeerRecord::new)`, and whether the previous record was connected.
abbrev pub record_or_new : ℕ → Option PeerRecord → PeerRecord
record_or_new peer_id none = new_record peer_id
record_or_new peer_id (some r) = r

abbrev pub was_connected : Option PeerRecord → Bool
was_connected none = false
was_connected (some r) = r.is_connected

unfoldable pub mutate_peer : ℕ → PeerBook → ℕ → (PeerRecord → PeerRecord) → PeerBook
mutate_peer now b peer_id mutate =
    let previous = lookup peer_id b.peers in
    let r = mark_seen now (mutate (record_or_new peer_id previous)) in
    enforce_record_bound (
      sync_indexes
        (record b {
          peers = insert peer_id r b.peers;
          disconnected_eviction_order = dequeue peer_id previous b.disconnected_eviction_order;
        })
        peer_id (was_connected previous))
