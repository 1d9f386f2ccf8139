-- ===== src/Tests/PeerBook.antt =====
-- A peer book with room for one record, which a connected peer takes.
use p2p_net.Prelude.{◌≡◌, refl, true, false, none, some, [], ◌∷◌, arith, nat_eq, list_eq, option_eq}
use p2p_net.Prelude.Assoc.{lookup, insert, remove, mem}
use p2p_net.Prelude.OrderedSet.{include, place, discard}
use p2p_net.Prelude.Weigh.{weigh}
use p2p_net.Common.Text.{Text, codes}
use p2p_net.Common.Multiaddr.{Multiaddr, tcp}
use p2p_net.Api.Source.{connected, dht_provider, manual}
use p2p_net.Connectivity.PeerBook.{
  PeerBook, PeerRecord, drop_first, evict_victims, enforce_record_bound, sync_indexes,
  with_max_records, mutate_peer, new_record,
}
use p2p_net.Connectivity.PeerBook.Ops.{
  Step, Reachable, record_peer, record_namespace, record_connected,
}
use p2p_net.Connectivity.PeerBook.Bound.{IsIndexed, Reachable-IsIndexed}
use p2p_net.Connectivity.PeerBook.Connected.{
  IsCounted, mutate_peer-IsCounted, mutate_peer-keeps_connected,
}
use p2p_net.Connectivity.PeerBook.Recorded.{Connects, record_connected-lookup}

abbrev print_address : Multiaddr → Text
print_address a = codes "/tcp/4001"

abbrev book_of_seven : PeerBook
book_of_seven =
    record_connected print_address 6
      (record_namespace 5 (record_peer 4 (with_max_records 1) 7 manual) 7 (codes "chat")
        dht_provider)
      7 (some (tcp 4001 ∷ []))

book_of_seven-Reachable : Reachable print_address 1 book_of_seven
book_of_seven-Reachable =
    Reachable.next
      (Reachable.next (Reachable.next Reachable.start (Step.peer 4 7 manual))
        (Step.namespace 5 7 (codes "chat") dht_provider))
      (Step.connection 6 7 (some (tcp 4001 ∷ [])))

book_of_seven-IsCounted : IsCounted book_of_seven
unfolding lookup record_peer record_connected record_namespace with_max_records mutate_peer
    enforce_record_bound evict_victims sync_indexes insert remove include place discard mem
    drop_first weigh
book_of_seven-IsCounted = refl

one_connected : book_of_seven.connected_count ≡ 1
unfolding lookup record_peer record_connected record_namespace with_max_records mutate_peer
    enforce_record_bound evict_victims sync_indexes insert remove include place discard mem
    drop_first weigh
one_connected = refl

-- The disconnected peer that enters a full book is evicted at once.
newcomer_evicted : lookup 8 (record_peer 9 book_of_seven 8 manual).peers ≡ none
unfolding lookup record_peer record_connected record_namespace with_max_records mutate_peer
    enforce_record_bound evict_victims sync_indexes insert remove include place discard mem
    drop_first weigh
newcomer_evicted = refl

Reachable-IsIndexed_example : IsIndexed book_of_seven
Reachable-IsIndexed_example =
    Reachable-IsIndexed print_address 1 book_of_seven book_of_seven-Reachable

abbrev disconnecting : PeerRecord → PeerRecord
disconnecting r = record r { is_connected = false }

mutate_peer-IsCounted_example : IsCounted (mutate_peer 9 book_of_seven 7 disconnecting)
mutate_peer-IsCounted_example =
    mutate_peer-IsCounted 9 book_of_seven 7 disconnecting
      (Reachable-IsIndexed print_address 1 book_of_seven book_of_seven-Reachable)
      book_of_seven-IsCounted (omega (arith, one_connected))

abbrev seven : PeerRecord
seven = record (new_record 7) {
  addresses = codes "/tcp/4001" ∷ [];
  sources = connected ∷ dht_provider ∷ manual ∷ [];
  namespaces = codes "chat" ∷ [];
  is_connected = true;
  last_seen_unix_secs = some 6;
}

mutate_peer-keeps_connected_example :
    lookup 7 (mutate_peer 9 book_of_seven 8 disconnecting).peers ≡ some seven
unfolding lookup record_peer record_connected record_namespace with_max_records mutate_peer
    enforce_record_bound evict_victims sync_indexes insert remove include place discard mem
    drop_first weigh
mutate_peer-keeps_connected_example =
    mutate_peer-keeps_connected 9 book_of_seven 8 disconnecting 7 seven
      (Reachable-IsIndexed print_address 1 book_of_seven book_of_seven-Reachable) refl refl refl

record_connected-lookup_example :
    (r : PeerRecord) × (lookup 8
        (record_connected print_address 9 book_of_seven 8 (some (tcp 4001 ∷ []))).peers
      ≡ some r)
    × Connects 9 (some (codes "/tcp/4001")) (new_record 8) r
unfolding lookup with_max_records record_peer record_connected record_namespace mutate_peer
    enforce_record_bound evict_victims sync_indexes insert remove include place discard mem
    drop_first
record_connected-lookup_example =
    record_connected-lookup print_address 9 book_of_seven 8 (some (tcp 4001 ∷ []))
      (Reachable-IsIndexed print_address 1 book_of_seven book_of_seven-Reachable)
