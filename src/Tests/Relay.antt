-- ===== src/Tests/Relay.antt =====
-- A relay with one reservation and one circuit, and a peer with one relayed connection.
use p2p_net.Prelude.{
  ℕ, ◌≤◌, ◌≡◌, refl, true, none, some, [], ◌∷◌, ◌++◌, arith, any, nat_eq, list_eq, option_eq,
}
use p2p_net.Prelude.Assoc.{lookup, insert}
use p2p_net.Common.Text.{codes}
use p2p_net.Common.Multiaddr.{Multiaddr, tcp, p2p, p2p_circuit}
use p2p_net.Connectivity.Relay.Retry.{
  ReservationRetries, closed, take_due, backoff, base_delay, max_delay, closed-take_due,
}
use p2p_net.Connectivity.Relay.Metering.{
  CircuitBytes, RelayMeter, open_circuit, close_circuit, totals,
}
use p2p_net.Connectivity.Relay.Metering.Totals.{IsMeter, close_circuit-totals}
use p2p_net.Connectivity.Relay.Schedule.{matches_raw, is_valid_day}
use p2p_net.Connectivity.Relay.Days.{is_valid_day-matches_raw}
use p2p_net.Connectivity.Relay.Service.{default_service}
use p2p_net.Connectivity.Mediator.{
  MediatorConfig, default_mediator, validate_mediator, apply_to_relay, IsMediating,
  apply_to_relay-IsMediating,
}
use p2p_net.Connectivity.DirectUpgrade.{DirectUpgradeState, relayed_established}
use p2p_net.Connectivity.DirectUpgrade.Paths.{IsClean, Step, Step-IsClean}

abbrev reservation : Multiaddr
reservation = tcp 4001 ∷ p2p 9 ∷ p2p_circuit ∷ []

-- The third close in a row is retried after 20 seconds.
abbrev waiting : ReservationRetries
waiting = record { listeners = (3, reservation) ∷ []; closes = (reservation, 2) ∷ []; due = [] }

third_delay : (closed waiting 3 100).1 ≡ some (reservation, 20)
unfolding closed lookup backoff
third_delay = refl

closed-take_due_example :
    let t = closed waiting 3 100 in
    (t.1 ≡ some (reservation, 20))
    × (base_delay ≤ 20)
    × (20 ≤ max_delay)
    × ((take_due t.0 120).1 ≡ (take_due waiting 120).1 ++ reservation ∷ [])
unfolding lookup backoff
closed-take_due_example = closed-take_due waiting 3 100 120 reservation refl

abbrev idle_meter : RelayMeter
idle_meter = record {
  active = [];
  closed_src_to_dst = 10;
  closed_dst_to_src = 20;
  closed_circuits = 1;
  recent_closed = [];
}

abbrev live : ℕ → CircuitBytes
live id = record { src_to_dst = 900; dst_to_src = 300 }

abbrev metered : RelayMeter
metered = (open_circuit idle_meter 5 (codes "a") (codes "b") (live 5) 1000).0

metered-IsMeter : IsMeter metered
unfolding open_circuit
metered-IsMeter = record { src = omega arith; dst = omega arith; recent = omega arith }

close_circuit-totals_example :
    totals (close_circuit metered 5 (codes "a") (codes "b") (live 5) none 2000).0 live
    ≡ totals metered live
unfolding open_circuit lookup insert
close_circuit-totals_example =
    close_circuit-totals metered 5 _ (codes "a") (codes "b") live none 2000 metered-IsMeter refl

is_valid_day-matches_raw_example :
    is_valid_day (codes " Tues ")
    ≡ any (λ day. matches_raw day (codes " Tues ")) (0 ∷ 1 ∷ 2 ∷ 3 ∷ 4 ∷ 5 ∷ 6 ∷ [])
is_valid_day-matches_raw_example = is_valid_day-matches_raw (codes " Tues ")

abbrev mediator : MediatorConfig
mediator = record default_mediator { enabled = true; max_reservations = 8 }

apply_to_relay-IsMediating_example :
    IsMediating mediator default_service (apply_to_relay mediator default_service)
unfolding validate_mediator
apply_to_relay-IsMediating_example =
    apply_to_relay-IsMediating mediator default_service refl refl refl

abbrev no_paths : DirectUpgradeState
no_paths = record {
  relayed = [];
  pending_direct = [];
  upgrades_succeeded = 0;
  upgrades_failed = 0;
  paths_migrated = 0;
}

no_paths-IsClean : IsClean no_paths
no_paths-IsClean = record { distinct = tt; pending = tt; connections = tt }

Step-IsClean_example : IsClean (relayed_established no_paths 7 1)
Step-IsClean_example =
    Step-IsClean no_paths (relayed_established no_paths 7 1) (Step.relayed 7 1) no_paths-IsClean

abbrev other : ℕ
other = 2
