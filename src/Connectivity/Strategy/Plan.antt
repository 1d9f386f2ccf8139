-- ===== src/Connectivity/Strategy/Plan.antt =====
-- crates/connectivity/connection_strategy.rs: the plan of a connection, which is its attempts in
-- order. Printing and parsing of addresses is the libp2p library's, a parameter.
use p2p_net.Prelude.{
  ℕ, Bool, true, false, ◌&&◌, Option, none, some, List, [], ◌∷◌, ◌++◌, if◌then◌else◌, any, nat_eq,
  list_eq, option_eq,
}
use p2p_net.Prelude.Assoc.{lookup, mem}
use p2p_net.Prelude.HashSet.{retain}
use p2p_net.Prelude.OrderedSet.{text_ord, include}
use p2p_net.Common.Text.{Text}
use p2p_net.Common.Multiaddr.{Multiaddr, Protocol, quic, quic_v1}
use p2p_net.Connectivity.Relay.Address.{is_p2p_circuit_addr, peer_of, or_else}
use p2p_net.Connectivity.PeerBook.{PeerBook, PeerRecord}
use p2p_net.Connectivity.Strategy.Transports.{TransportCapabilities, allows_text}

pub data ConnectionAttemptKind : Type 0 where
  direct_quic : ConnectionAttemptKind
  direct : ConnectionAttemptKind
  relay : ConnectionAttemptKind

pub record ConnectionAttempt : Type 0 where
  pub addr : Multiaddr
  pub kind : ConnectionAttemptKind

pub record ConnectionPlan : Type 0 where
  pub target_peer : Option ℕ
  pub attempts : List ConnectionAttempt
  pub relay_preferred : Bool
  pub attempt_dcutr_after_relay : Bool
  pub keep_relay_fallback : Bool

-- crates/connectivity/dcutr.rs: the policy of upgrades to direct connections.
pub record DcutrPolicy : Type 0 where
  pub enabled : Bool
  pub attempt_after_relay_connection : Bool
  pub keep_relay_fallback : Bool
  pub retry_interval_secs : ℕ
  pub max_attempts_per_peer : ℕ

abbrev is_quic : Protocol → Bool
is_quic quic = true
is_quic quic_v1 = true
is_quic _ = false

unfoldable pub classify_addr : Multiaddr → ConnectionAttemptKind
classify_addr addr =
    if is_p2p_circuit_addr addr then relay else if any is_quic addr then direct_quic else direct

-- The loop of `extract_p2p_peer_id`: the last peer id of an address.
unfoldable pub last_peer : Option ℕ → Multiaddr → Option ℕ
last_peer peer [] = peer
last_peer peer (p ∷ rest) = last_peer (or_else (peer_of p) peer) rest

abbrev pub extract_p2p_peer_id : Multiaddr → Option ℕ
extract_p2p_peer_id addr = last_peer none addr

abbrev pub attempt_of : Multiaddr → ConnectionAttempt
attempt_of addr = record { addr = addr; kind = classify_addr addr }

-- The attempts over QUIC, the other direct ones and the relayed ones.
abbrev pub Attempts : Type 0
Attempts = List ConnectionAttempt × List ConnectionAttempt × List ConnectionAttempt

abbrev pub add_attempt : ConnectionAttemptKind → ConnectionAttempt → Attempts → Attempts
add_attempt direct_quic a (quics, directs, relays) = (a ∷ quics, directs, relays)
add_attempt direct a (quics, directs, relays) = (quics, a ∷ directs, relays)
add_attempt relay a (quics, directs, relays) = (quics, directs, a ∷ relays)

-- The loop of `ordered_attempts`.
unfoldable pub split_attempts : List Multiaddr → Attempts
split_attempts [] = ([], [], [])
split_attempts (addr ∷ candidates) =
    add_attempt (classify_addr addr) (attempt_of addr) (split_attempts candidates)

unfoldable pub ordered_attempts : List Multiaddr → Bool → List ConnectionAttempt
ordered_attempts candidates relay_preferred =
    let (quics, directs, relays) = split_attempts candidates in
    if relay_preferred then relays ++ quics ++ directs else quics ++ directs ++ relays

-- `Multiaddr`'s `Display` and `FromStr`.
pub record AddrText : Type 0 where
  pub print : Multiaddr → Text
  pub parse : Text → Option Multiaddr

module _ (x : AddrText) where
  -- The candidates and the texts of those seen.
  unfoldable pub push_candidate :
      List Multiaddr × List Text → Multiaddr → List Multiaddr × List Text
  push_candidate (candidates, seen) addr =
      if mem (x.print addr) seen
      then (candidates, seen)
      else (candidates ++ addr ∷ [], include (x.print addr) seen)

  abbrev pub push_parsed :
      List Multiaddr × List Text → Option Multiaddr → List Multiaddr × List Text
  push_parsed s none = s
  push_parsed s (some addr) = push_candidate s addr

  -- The loop over the addresses of a record; what does not parse is passed over.
  unfoldable pub push_addresses :
      List Multiaddr × List Text → List Text → List Multiaddr × List Text
  push_addresses s [] = s
  push_addresses s (raw ∷ rest) = push_addresses (push_parsed s (x.parse raw)) rest

  abbrev pub known_addresses : Option PeerRecord → List Text
  known_addresses none = []
  known_addresses (some r) = r.addresses

  abbrev pub prefers_relay : Option PeerRecord → Bool
  prefers_relay none = false
  prefers_relay (some r) = r.relay_preferred

  abbrev pub plan_of :
      Option ℕ → Bool → DcutrPolicy → TransportCapabilities → List Multiaddr → ConnectionPlan
  plan_of target relay_preferred policy capabilities candidates = record {
    target_peer = target;
    attempts =
        ordered_attempts (retain (λ addr. allows_text capabilities (x.print addr)) candidates)
          relay_preferred;
    relay_preferred = relay_preferred;
    attempt_dcutr_after_relay = policy.enabled && policy.attempt_after_relay_connection;
    keep_relay_fallback = policy.keep_relay_fallback;
  }

  unfoldable pub build_peer_book_connection_plan_with_capabilities :
      ℕ → PeerBook → DcutrPolicy → TransportCapabilities → ConnectionPlan
  build_peer_book_connection_plan_with_capabilities peer_id book policy capabilities =
      let known = lookup peer_id book.peers in
      plan_of (some peer_id) (prefers_relay known) policy capabilities
        (push_addresses ([], []) (known_addresses known)).0

  -- The record of the target, if the address names one.
  abbrev pub record_of : PeerBook → Option ℕ → Option PeerRecord
  record_of book none = none
  record_of book (some peer) = lookup peer book.peers

  unfoldable pub build_connection_plan_with_capabilities :
      Multiaddr → PeerBook → DcutrPolicy → TransportCapabilities → ConnectionPlan
  build_connection_plan_with_capabilities requested_addr book policy capabilities =
      let target = extract_p2p_peer_id requested_addr in
      let known = record_of book target in
      plan_of target (prefers_relay known) policy capabilities
        (push_addresses (push_candidate ([], []) requested_addr) (known_addresses known)).0
