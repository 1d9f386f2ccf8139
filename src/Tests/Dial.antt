-- ===== src/Tests/Dial.antt =====
-- A swarm that counts the dials it is asked for and refuses those over QUIC, with a peer book in
-- which a peer has two addresses.
use p2p_net.Prelude.{
  ℕ, suc, ◌+◌, ◌≡◌, refl, ◌⊎◌, true, false, ◌&&◌, ◌||◌, Option, none, some, List, [], ◌∷◌, ◌++◌,
  arith, nat_beq, if◌then◌else◌, length, any, ◌==◌, nat_eq, list_eq, option_eq,
}
use p2p_net.Prelude.Assoc.{lookup, insert, mem}
use p2p_net.Prelude.HashSet.{retain}
use p2p_net.Prelude.OrderedSet.{include, place}
use p2p_net.Common.Text.{Text, codes}
use p2p_net.Common.Multiaddr.{Multiaddr, protocol_eq, tcp, udp, quic_v1, p2p, p2p_circuit}
use p2p_net.Connectivity.BoundedSet.{bounded}
use p2p_net.Connectivity.PeerBook.{PeerBook, new_record, with_max_records}
use p2p_net.Connectivity.Relay.Address.{
  is_p2p_circuit_addr, relay_peer_id, relay_dial_addr_for_peer, relay_reservation_addr,
  relay_reservation_addr-route,
}
use p2p_net.Connectivity.Strategy.Transports.{
  native, starts_with, contains, ends_with, before, allows_text,
}
use p2p_net.Connectivity.Strategy.Plan.{
  AddrText, ConnectionAttempt, ConnectionPlan, DcutrPolicy, direct_quic, direct, relay,
  classify_addr, attempt_of, split_attempts, ordered_attempts, push_candidate, push_addresses,
  build_connection_plan_with_capabilities, build_peer_book_connection_plan_with_capabilities,
  last_peer, extract_p2p_peer_id, known_addresses, record_of,
}
use p2p_net.Connectivity.Strategy.Pending.{track_remaining, after_attempt, is_pending}
use p2p_net.Connectivity.Strategy.Order.{of_kind, ordered_attempts_lem}
use p2p_net.Connectivity.Strategy.Candidates.{tally, text_of, is_known, build_connection_plan-tally}
use p2p_net.Connectivity.Strategy.Walk.{walk, IsWalked}
use p2p_net.Node.Dial.{
  Dialer, AutoDialStats, awaiting_address, record_outcome, dial_attempts_loop, dial_connection_plan,
  auto_dial_peer_from_book,
}
use p2p_net.Node.Dial.Stats.{Step, IsBounded, Step-IsBounded}
use p2p_net.Node.Dial.Auto.{auto_dial_peer_from_book-started}
use p2p_net.Node.Dial.Attempts.{
  Refused, StartedAt, Succeeds, Fails, dial_connection_plan-outcome, dial_connection_plan-walk,
}

abbrev over_quic : Multiaddr
over_quic = udp 4001 ∷ quic_v1 ∷ p2p 7 ∷ []

abbrev over_tcp : Multiaddr
over_tcp = tcp 4001 ∷ p2p 7 ∷ []

abbrev over_relay : Multiaddr
over_relay = tcp 4002 ∷ p2p 9 ∷ p2p_circuit ∷ p2p 7 ∷ []

-- The printed form of the three addresses.
abbrev first_component : Multiaddr → ℕ
first_component (tcp n ∷ rest) = n
first_component _ = 0

abbrev print_address : Multiaddr → Text
print_address addr =
    if nat_beq (first_component addr) 4001
    then codes "/tcp/4001"
    else if nat_beq (first_component addr) 4002
    then codes "/tcp/4002/p2p-circuit"
    else codes "/udp/4001/quic-v1"

abbrev parse_address : Text → Option Multiaddr
parse_address t =
    if t == codes "/tcp/4001"
    then some over_tcp
    else if t == codes "/tcp/4002/p2p-circuit"
    then some over_relay
    else if t == codes "/udp/4001/quic-v1"
    then some over_quic
    else none

abbrev addresses : AddrText
addresses = record { print = print_address; parse = parse_address }

abbrev policy : DcutrPolicy
policy = record {
  enabled = true;
  attempt_after_relay_connection = true;
  keep_relay_fallback = true;
  retry_interval_secs = 60;
  max_attempts_per_peer = 3;
}

abbrev book : PeerBook
book = record (with_max_records 4) {
  peers =
      (
        7,
        record (new_record 7) {
          addresses =
              codes "/tcp/4001"
              ∷ codes "/tcp/4002/p2p-circuit"
              ∷ codes "no address"
              ∷ codes "/udp/4001/quic-v1"
              ∷ [];
        },
      )
      ∷ [];
}

abbrev dials : Dialer ℕ
dials = record {
  is_connected = λ s peer. false;
  dial_addr = λ s addr. (s + 1, nat_beq (first_component addr) 4001);
  dial_peer = λ s peer. (s + 1, true);
  show_peer = λ peer. codes "7";
}

abbrev plan : ConnectionPlan
plan = build_connection_plan_with_capabilities addresses over_tcp book policy native

abbrev runs : List ConnectionAttempt
runs = attempt_of over_quic ∷ attempt_of over_tcp ∷ attempt_of over_relay ∷ []

plan_order : plan.attempts ≡ runs
unfolding build_connection_plan_with_capabilities ordered_attempts last_peer lookup split_attempts
    retain push_addresses push_candidate mem include place allows_text contains starts_with before
    ends_with classify_addr is_p2p_circuit_addr any
plan_order = refl

ordered_attempts_lem_example :
    ordered_attempts (over_relay ∷ over_tcp ∷ over_quic ∷ []) true
    ≡ of_kind relay (over_relay ∷ over_tcp ∷ over_quic ∷ [])
      ++ of_kind direct_quic (over_relay ∷ over_tcp ∷ over_quic ∷ [])
      ++ of_kind direct (over_relay ∷ over_tcp ∷ over_quic ∷ [])
ordered_attempts_lem_example = ordered_attempts_lem (over_relay ∷ over_tcp ∷ over_quic ∷ []) true

build_connection_plan-tally_example :
    tally (text_of addresses) (codes "/tcp/4001") plan.attempts ≡ (
      if allows_text native (codes "/tcp/4001")
        && ((print_address over_tcp == codes "/tcp/4001")
            || is_known addresses (codes "/tcp/4001") (
                known_addresses addresses
                  (record_of addresses book (extract_p2p_peer_id over_tcp))))
      then 1
      else 0)
build_connection_plan-tally_example =
    build_connection_plan-tally addresses over_tcp book policy native (codes "/tcp/4001")

abbrev three_runs : ConnectionPlan
three_runs = record {
  target_peer = some 7;
  attempts = runs;
  relay_preferred = false;
  attempt_dcutr_after_relay = true;
  keep_relay_fallback = true;
}

-- The attempt over QUIC is refused, the one over TCP starts, and the relay is left.
tcp_starts : StartedAt dials 0 runs 2 (attempt_of over_tcp)
tcp_starts = record {
  tried = attempt_of over_quic ∷ [];
  rest = attempt_of over_relay ∷ [];
  between = 1;
  split = refl;
  failures = Refused.refused 0 1 (attempt_of over_quic) [] refl (Refused.none_left 1);
  starts = refl;
}

dial_connection_plan-outcome_example :
    Succeeds dials three_runs [] 0 (dial_connection_plan dials 0 [] three_runs)
    ⊎ Fails dials three_runs [] 0 (dial_connection_plan dials 0 [] three_runs)
dial_connection_plan-outcome_example = dial_connection_plan-outcome dials 0 [] three_runs

dial_connection_plan-walk_example :
    IsWalked 7 tcp_starts.rest
      (walk (suc (length tcp_starts.rest)) (dial_connection_plan dials 0 [] three_runs).1 7)
unfolding tally
dial_connection_plan-walk_example =
    dial_connection_plan-walk dials addresses 0 2 [] three_runs 7 (attempt_of over_tcp) tcp_starts
      tt refl (omega arith)

abbrev remote : ℕ
remote = 7

abbrev own : ℕ
own = 1

auto_dial_peer_from_book-started_example :
    (true ≡ true)
    × ((remote == own) ≡ false)
    × (dials.is_connected 0 7 ≡ false)
    × (is_pending [] 7 ≡ false)
    × (is_pending (auto_dial_peer_from_book dials addresses 7 1 true 0 book [] policy native).1 7
        ≡ true)
unfolding auto_dial_peer_from_book dial_connection_plan dial_attempts_loop
    build_peer_book_connection_plan_with_capabilities track_remaining after_attempt insert
    ordered_attempts last_peer lookup split_attempts retain push_addresses push_candidate mem
    include place allows_text contains starts_with before ends_with classify_addr
    is_p2p_circuit_addr any
auto_dial_peer_from_book-started_example =
    auto_dial_peer_from_book-started dials addresses 7 1 true 0 book [] policy native refl

abbrev no_stats : AutoDialStats
no_stats = record {
  dial_attempts = 0;
  dial_failures = 0;
  awaiting_address_peers = bounded [] [];
  suppressed_peers = bounded [] [];
}

no_stats-IsBounded : IsBounded no_stats
no_stats-IsBounded = record {
  awaiting = (refl, tt, omega arith);
  suppressed = (refl, tt, omega arith);
}

Step-IsBounded_example : IsBounded (record_outcome no_stats 7 awaiting_address)
Step-IsBounded_example =
    Step-IsBounded no_stats (record_outcome no_stats 7 awaiting_address)
      (Step.outcome 7 awaiting_address) no_stats-IsBounded

abbrev relay_nine : Multiaddr
relay_nine = tcp 4002 ∷ p2p 9 ∷ []

relay_reservation_addr-route_example :
    ((relay_reservation_addr relay_nine ≡ none)
      × ((relay_peer_id relay_nine ≡ none) ⊎ (is_p2p_circuit_addr relay_nine ≡ true)))
    ⊎ ((reserved : Multiaddr) × (relay_reservation_addr relay_nine ≡ some reserved)
        × (is_p2p_circuit_addr relay_nine ≡ false)
        × (relay_peer_id reserved ≡ relay_peer_id relay_nine)
        × ((peer : ℕ) × (relay_peer_id reserved ≡ some peer))
        × (relay_dial_addr_for_peer reserved 7 ≡ some (reserved ++ p2p 7 ∷ [])))
relay_reservation_addr-route_example = relay_reservation_addr-route relay_nine 7
