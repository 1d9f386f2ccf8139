-- ===== src/Node/Dial.antt =====
-- crates/node/dial.rs: dialing a peer through the attempts of a plan, the outcomes of automatic
-- dialing and their statistics. The swarm is the libp2p library's; the record `Dialer` has what the
-- code calls of it. The text of an outcome, which is only displayed, is left out.

pub mod Stats
pub mod Auto
pub mod Attempts
use p2p_net.Prelude.{
  ℕ, zero, suc, ◌+◌, ◌-◌, ◌*◌, ◌/◌, ◌%◌, ◌^◌, ◌≤◌, ◌<◌, min, max, ◌≡◌, refl, sym, ap, subst, ◌∙◌,
  ◌≢◌, ◌↔◌, ◌⊎◌, inl, inr, Bool, true, false, not, ◌&&◌, ◌||◌, Option, none, some, List, [], ◌∷◌,
  ◌++◌, map, arith, ltb, leb, nat_beq, if◌then◌else◌, Bool-cases, Option-cases, length, all, any,
  is_empty, get_elem?, set, take, drop, replicate, All, u32_max, u64_max, saturating_add32,
  saturating_add, saturating_mul, div_ceil, Eq, ◌==◌, ==_iff, ==_refl, nat_eq, list_eq, option_eq,
  code_eq,
}
use p2p_net.Prelude.Assoc.{mem}
use p2p_net.Prelude.HashSet.{set_insert}
use p2p_net.Common.Text.{Text, codes}
use p2p_net.Common.Error.{NetError, dial, Result, ok, err}
use p2p_net.Common.Multiaddr.{Multiaddr}
use p2p_net.Connectivity.BoundedSet.{Bounded, bounded, prune_peer_set, remove_peer_from_bounded_set}
use p2p_net.Connectivity.PeerBook.{PeerBook}
use p2p_net.Connectivity.Strategy.Transports.{TransportCapabilities, browser, same_capabilities}
use p2p_net.Connectivity.Strategy.Plan.{
  AddrText, ConnectionAttempt, ConnectionPlan, DcutrPolicy,
  build_peer_book_connection_plan_with_capabilities,
}
use p2p_net.Connectivity.Strategy.Pending.{PendingConnectionPlans, track_remaining, is_pending}

abbrev pub max_auto_dial_awaiting_peers : ℕ
max_auto_dial_awaiting_peers = 2048

pub data AutoDialOutcome : Type 0 where
  disabled : AutoDialOutcome
  local_peer : AutoDialOutcome
  already_connected : AutoDialOutcome
  already_pending : AutoDialOutcome
  awaiting_address : AutoDialOutcome
  address_resolution_started : AutoDialOutcome
  dial_started : AutoDialOutcome
  dial_failed : AutoDialOutcome

abbrev pub should_pulse : AutoDialOutcome → Bool
should_pulse awaiting_address = true
should_pulse address_resolution_started = true
should_pulse dial_started = true
should_pulse dial_failed = true
should_pulse _ = false

-- Each set stands with the queue of its members.
pub record AutoDialStats : Type 0 where
  pub dial_attempts : ℕ
  pub dial_failures : ℕ
  pub awaiting_address_peers : Bounded ℕ
  pub suppressed_peers : Bounded ℕ

-- `insert`, with `push_back` when the peer is new, and the loop that evicts the oldest.
unfoldable pub mark_bounded : ℕ → Bounded ℕ → Bounded ℕ
mark_bounded peer s = prune_peer_set max_auto_dial_awaiting_peers (
    bounded (set_insert peer s.members)
      (if mem peer s.members then s.order else s.order ++ peer ∷ []))

abbrev pub mark_awaiting_address : AutoDialStats → ℕ → AutoDialStats
mark_awaiting_address s peer = record s {
  awaiting_address_peers = mark_bounded peer s.awaiting_address_peers;
}

abbrev pub remove_awaiting : AutoDialStats → ℕ → AutoDialStats
remove_awaiting s peer = record s {
  awaiting_address_peers = (remove_peer_from_bounded_set peer s.awaiting_address_peers).0;
}

abbrev pub add_dial_attempt : AutoDialStats → AutoDialStats
add_dial_attempt s = record s { dial_attempts = saturating_add s.dial_attempts 1 }

abbrev pub add_dial_failure : AutoDialStats → AutoDialStats
add_dial_failure s = record s { dial_failures = saturating_add s.dial_failures 1 }

unfoldable pub record_outcome : AutoDialStats → ℕ → AutoDialOutcome → AutoDialStats
record_outcome s peer dial_started = remove_awaiting (add_dial_attempt s) peer
record_outcome s peer dial_failed = remove_awaiting (add_dial_failure (add_dial_attempt s)) peer
record_outcome s peer awaiting_address = mark_awaiting_address s peer
record_outcome s peer address_resolution_started = mark_awaiting_address (add_dial_attempt s) peer
record_outcome s peer already_connected = remove_awaiting s peer
record_outcome s peer disabled = s
record_outcome s peer local_peer = s
record_outcome s peer already_pending = s

abbrev pub clear_awaiting : AutoDialStats → ℕ → AutoDialStats
clear_awaiting s peer = remove_awaiting s peer

abbrev pub record_async_failure : AutoDialStats → ℕ → AutoDialStats
record_async_failure s peer = remove_awaiting (add_dial_failure s) peer

abbrev pub suppress_peer : AutoDialStats → ℕ → AutoDialStats
suppress_peer s peer = record s { suppressed_peers = mark_bounded peer s.suppressed_peers }

abbrev pub allow_peer : AutoDialStats → ℕ → AutoDialStats
allow_peer s peer = record s {
  suppressed_peers = (remove_peer_from_bounded_set peer s.suppressed_peers).0;
}

unfoldable pub is_suppressed : AutoDialStats → ℕ → Bool
is_suppressed s peer = mem peer s.suppressed_peers.members

-- What the code calls of the swarm: whether a dial is refused at once, and the swarm after it.
pub record Dialer (Swarm : Type 0) : Type 0 where
  pub is_connected : Swarm → ℕ → Bool
  pub dial_addr : Swarm → Multiaddr → Swarm × Bool
  pub dial_peer : Swarm → ℕ → Swarm × Bool
  pub show_peer : ℕ → Text

module _ {Swarm : Type 0} (y : Dialer Swarm) where
  -- The loop of `dial_connection_plan`: the first attempt that is not refused ends it.
  unfoldable pub dial_attempts_loop :
      Swarm → List ConnectionAttempt → Swarm × Option ConnectionAttempt
  dial_attempts_loop swarm [] = (swarm, none)
  dial_attempts_loop swarm (attempt ∷ rest) =
      let (after, started) = y.dial_addr swarm attempt.addr in
      let later = dial_attempts_loop after rest in if started then (after, some attempt) else later

  abbrev pub target_text : Option ℕ → Text
  target_text none = codes "<unknown>"
  target_text (some peer) = y.show_peer peer

  abbrev pub dial_error : ConnectionPlan → NetError
  dial_error plan = dial (target_text plan.target_peer) (
      if is_empty plan.attempts
      then "connection plan had no dial attempts"
      else "every dial attempt failed immediately")

  abbrev pub dial_result :
      PendingConnectionPlans
      → ConnectionPlan
      → Swarm × Option ConnectionAttempt
      → Swarm × PendingConnectionPlans × Result (Unit {0})
  dial_result pending plan (swarm, some attempt) =
      (swarm, track_remaining pending plan attempt, ok tt)
  dial_result pending plan (swarm, none) = (swarm, pending, err (dial_error plan))

  unfoldable pub dial_connection_plan :
      Swarm
      → PendingConnectionPlans
      → ConnectionPlan
      → Swarm × PendingConnectionPlans × Result (Unit {0})
  dial_connection_plan swarm pending plan =
      dial_result pending plan (dial_attempts_loop swarm plan.attempts)

  abbrev pub outcome_of : Result (Unit {0}) → AutoDialOutcome
  outcome_of (ok u) = dial_started
  outcome_of (err e) = dial_failed

  unfoldable pub auto_dial_peer_from_book :
      AddrText
      → ℕ
      → ℕ
      → Bool
      → Swarm
      → PeerBook
      → PendingConnectionPlans
      → DcutrPolicy
      → TransportCapabilities
      → Swarm × PendingConnectionPlans × AutoDialOutcome
  auto_dial_peer_from_book x peer own enabled swarm book pending policy capabilities =
      let plan =
        build_peer_book_connection_plan_with_capabilities x peer book policy capabilities in
      let (after, tracked, result) = dial_connection_plan swarm pending plan in
      if not enabled
      then (swarm, pending, disabled)
      else if peer == own
      then (swarm, pending, local_peer)
      else if y.is_connected swarm peer
      then (swarm, pending, already_connected)
      else if is_pending pending peer
      then (swarm, pending, already_pending)
      else if is_empty plan.attempts
      then (swarm, pending, awaiting_address)
      else (after, tracked, outcome_of result)

  -- The outcome for a provider whose addresses only the DHT may know.
  abbrev pub resolve_provider :
      ℕ
      → TransportCapabilities
      → Swarm × PendingConnectionPlans × AutoDialOutcome
      → Swarm × PendingConnectionPlans × AutoDialOutcome
  resolve_provider peer capabilities (swarm, pending, awaiting_address) =
      let (after, started) = y.dial_peer swarm peer in
      if same_capabilities capabilities browser
      then (swarm, pending, awaiting_address)
      else (after, pending, if started then address_resolution_started else awaiting_address)
  resolve_provider peer capabilities (swarm, pending, outcome) = (swarm, pending, outcome)

  unfoldable pub auto_dial_dht_provider :
      AddrText
      → ℕ
      → ℕ
      → Bool
      → Swarm
      → PeerBook
      → PendingConnectionPlans
      → DcutrPolicy
      → TransportCapabilities
      → Swarm × PendingConnectionPlans × AutoDialOutcome
  auto_dial_dht_provider x peer own enabled swarm book pending policy capabilities =
      resolve_provider peer capabilities
        (auto_dial_peer_from_book x peer own enabled swarm book pending policy capabilities)
