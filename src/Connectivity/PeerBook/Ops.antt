-- ===== src/Connectivity/PeerBook/Ops.antt =====
-- crates/connectivity/peer_book.rs: the methods that record what is learnt of a peer, those that
-- read the book, and the histories of a book.
use p2p_net.Prelude.{
  ℕ, ◌-◌, Bool, true, false, not, Option, none, some, List, if◌then◌else◌, length, any,
  saturating_add32, nat_eq, list_eq, option_eq,
}
use p2p_net.Prelude.Assoc.{lookup, contains_key, mem}
use p2p_net.Prelude.OrderedSet.{text_ord, include}
use p2p_net.Common.Text.{Text}
use p2p_net.Common.Multiaddr.{Multiaddr}
use p2p_net.Api.Source.{PeerSource, connected, source_eq, source_ord}
use p2p_net.Connectivity.PeerBook.{
  PeerBook, PeerRecord, mutate_peer, prune_peer_addrs, with_max_records,
}

abbrev pub add_source : PeerSource → PeerRecord → PeerRecord
add_source source r = record r { sources = include source r.sources }

abbrev pub add_address : Text → PeerRecord → PeerRecord
add_address addr r = prune_peer_addrs (record r { addresses = include addr r.addresses })

-- `if value.is_some() {field = value; }`.
abbrev pub or_keep : Option Bool → Option Bool → Option Bool
or_keep none old = old
or_keep (some b) old = some b

unfoldable pub record_peer : ℕ → PeerBook → ℕ → PeerSource → PeerBook
record_peer now b peer_id source = mutate_peer now b peer_id (add_source source)

unfoldable pub record_namespace : ℕ → PeerBook → ℕ → Text → PeerSource → PeerBook
record_namespace now b peer_id namespace source =
    mutate_peer now b peer_id
      (λ r. record (add_source source r) { namespaces = include namespace r.namespaces })

unfoldable pub record_capabilities :
    ℕ → PeerBook → ℕ → Option Bool → Option Bool → Option Bool → PeerBook
record_capabilities now b peer_id relay rendezvous dcutr = mutate_peer now b peer_id (λ r.
    record r {
      supports_relay = or_keep relay r.supports_relay;
      supports_rendezvous = or_keep rendezvous r.supports_rendezvous;
      supports_dcutr = or_keep dcutr r.supports_dcutr;
    })

unfoldable pub record_relay_preferred : ℕ → PeerBook → ℕ → Bool → PeerBook
record_relay_preferred now b peer_id preferred =
    mutate_peer now b peer_id (λ r. record r { relay_preferred = preferred })

unfoldable pub record_disconnected : ℕ → PeerBook → ℕ → PeerBook
record_disconnected now b peer_id =
    mutate_peer now b peer_id (λ r. record r { is_connected = false })

unfoldable pub record_disconnected_if_known : ℕ → PeerBook → ℕ → PeerBook
record_disconnected_if_known now b peer_id =
    if not (contains_key peer_id b.peers)
    then b
    else mutate_peer now b peer_id (λ r. record r { is_connected = false })

unfoldable pub record_failure : ℕ → PeerBook → ℕ → PeerBook
record_failure now b peer_id =
    mutate_peer now b peer_id (λ r. record r { failures = saturating_add32 r.failures 1 })

module _ (print : Multiaddr → Text) where
  unfoldable pub record_addr : ℕ → PeerBook → ℕ → Multiaddr → PeerSource → PeerBook
  record_addr now b peer_id addr source =
      mutate_peer now b peer_id (λ r. add_address (print addr) (add_source source r))

  abbrev pub connecting : Option Multiaddr → PeerRecord → PeerRecord
  connecting none r = record (add_source connected r) { is_connected = true }
  connecting (some addr) r =
      add_address (print addr) (record (add_source connected r) { is_connected = true })

  unfoldable pub record_connected : ℕ → PeerBook → ℕ → Option Multiaddr → PeerBook
  record_connected now b peer_id addr = mutate_peer now b peer_id (connecting addr)

  -- One call of a method that changes the book, at a time.
  pub data Step (b : PeerBook) : PeerBook → Type 0 where
    peer : (now p : ℕ) (s : PeerSource) → Step b (record_peer now b p s)
    addr : (now p : ℕ) (a : Multiaddr) (s : PeerSource) → Step b (record_addr now b p a s)
    namespace : (now p : ℕ) (n : Text) (s : PeerSource) → Step b (record_namespace now b p n s)
    connection : (now p : ℕ) (a : Option Multiaddr) → Step b (record_connected now b p a)
    capabilities : (now p : ℕ) (x y z : Option Bool) → Step b (record_capabilities now b p x y z)
    preference : (now p : ℕ) (x : Bool) → Step b (record_relay_preferred now b p x)
    disconnection : (now p : ℕ) → Step b (record_disconnected now b p)
    disconnection_if_known : (now p : ℕ) → Step b (record_disconnected_if_known now b p)
    failure : (now p : ℕ) → Step b (record_failure now b p)

  -- The books that a program reaches from an empty one.
  pub data Reachable (n : ℕ) : PeerBook → Type 0 where
    start : Reachable n (with_max_records n)
    next : {b c : PeerBook} → Reachable n b → Step b c → Reachable n c

-- `has_application_namespace`.
unfoldable pub has_application_namespace : PeerBook → ℕ → List Text → Bool
has_application_namespace b peer_id namespaces = elim (lookup peer_id b.peers) [
  | none ↦ false
  | some r ↦ any (λ n. mem n namespaces) r.namespaces
]

abbrev pub discovered_count : PeerBook → ℕ
discovered_count b = length b.peers - b.connected_count
