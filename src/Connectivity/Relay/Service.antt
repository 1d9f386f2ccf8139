-- ===== src/Connectivity/Relay/Service.antt =====
-- crates/connectivity/relay/config.rs: the configuration of the relay service, which peers it
-- serves and when. Texts of peer ids are parsed by `parse`, times of a schedule by `parse_u16`.
use p2p_net.Prelude.{
  ℕ, ◌*◌, Bool, true, false, not, ◌&&◌, Option, none, some, List, [], ◌∷◌, ltb, nat_beq,
  if◌then◌else◌, any, ◌==◌, nat_eq, list_eq, option_eq,
}
use p2p_net.Common.Text.{Text}
use p2p_net.Common.Error.{config_error, Result, ok, ◌>>◌, refuse}
use p2p_net.Connectivity.Relay.Schedule.{RelaySchedule, validate_schedule, is_open_now_utc}

pub data RelayAccess : Type 0 where
  allow_all : RelayAccess
  allow_list : RelayAccess
  deny_list : RelayAccess

pub record RelayServiceConfig : Type 0 where
  pub enabled : Bool
  pub access : RelayAccess
  pub allow_peers : List Text
  pub deny_peers : List Text
  pub max_reservations : ℕ
  pub max_reservations_per_peer : ℕ
  pub reservation_duration_secs : ℕ
  pub max_circuits : ℕ
  pub max_circuits_per_peer : ℕ
  pub max_circuit_duration_secs : ℕ
  pub max_circuit_bytes : ℕ
  pub reservation_rate_per_peer_per_min : ℕ
  pub reservation_rate_per_ip_per_min : ℕ
  pub circuit_rate_per_peer_per_min : ℕ
  pub circuit_rate_per_ip_per_min : ℕ
  pub schedule : RelaySchedule

abbrev pub default_service : RelayServiceConfig
default_service = record {
  enabled = false;
  access = allow_all;
  allow_peers = [];
  deny_peers = [];
  max_reservations = 64;
  max_reservations_per_peer = 1;
  reservation_duration_secs = 60 * 60;
  max_circuits = 128;
  max_circuits_per_peer = 4;
  max_circuit_duration_secs = 2 * 60;
  max_circuit_bytes = 100 * 1024 * 1024;
  reservation_rate_per_peer_per_min = 4;
  reservation_rate_per_ip_per_min = 16;
  circuit_rate_per_peer_per_min = 16;
  circuit_rate_per_ip_per_min = 64;
  schedule = record { enabled = false; windows = [] };
}

pub data RelayServiceHealth : Type 0 where
  health_disabled : RelayServiceHealth
  health_enabled : RelayServiceHealth
  closed_by_schedule : RelayServiceHealth
  at_capacity : RelayServiceHealth
  rate_limited : RelayServiceHealth
  health_error : RelayServiceHealth

-- The limits of `validate`, in their order.
abbrev pub validate_limits : RelayServiceConfig → Result (Unit {0})
validate_limits c =
    refuse (nat_beq c.max_reservations 0) (config_error "relay.max_reservations must be at least 1")
    >> refuse (nat_beq c.max_reservations_per_peer 0)
        (config_error "relay.max_reservations_per_peer must be at least 1")
    >> refuse (ltb c.max_reservations c.max_reservations_per_peer)
        (config_error "relay.max_reservations_per_peer must be <= relay.max_reservations")
    >> refuse (nat_beq c.max_circuits 0) (config_error "relay.max_circuits must be at least 1")
    >> refuse (nat_beq c.max_circuits_per_peer 0)
        (config_error "relay.max_circuits_per_peer must be at least 1")
    >> refuse (ltb c.max_circuits c.max_circuits_per_peer)
        (config_error "relay.max_circuits_per_peer must be <= relay.max_circuits")
    >> refuse (nat_beq c.reservation_duration_secs 0)
        (config_error "relay.reservation_duration_secs must be at least 1")
    >> refuse (nat_beq c.max_circuit_duration_secs 0)
        (config_error "relay.max_circuit_duration_secs must be at least 1")
    >> refuse (nat_beq c.max_circuit_bytes 0)
        (config_error "relay.max_circuit_bytes must be at least 1")

module _ (parse : Text → Option ℕ) (parse_u16 : Text → Option ℕ) where
  abbrev pub names_peer : Option ℕ → Bool
  names_peer none = false
  names_peer (some peer) = true

  unfoldable pub validate_peer_ids : List Text → Result (Unit {0})
  validate_peer_ids [] = ok tt
  validate_peer_ids (raw ∷ rest) =
      refuse (not (names_peer (parse raw))) (config_error "contains an invalid peer id")
      >> validate_peer_ids rest

  unfoldable pub validate_service : RelayServiceConfig → Result (Unit {0})
  validate_service c =
      validate_peer_ids c.allow_peers
      >> validate_peer_ids c.deny_peers
      >> validate_schedule parse_u16 c.schedule
      >> validate_limits c

  abbrev pub is_active_now : RelayServiceConfig → Option ℕ → Bool
  is_active_now c secs = c.enabled && is_open_now_utc parse_u16 c.schedule secs

  abbrev pub health_now : RelayServiceConfig → Option ℕ → RelayServiceHealth
  health_now c secs =
      if not c.enabled
      then health_disabled
      else if not (is_open_now_utc parse_u16 c.schedule secs)
      then closed_by_schedule
      else health_enabled

  abbrev pub is_peer : ℕ → Option ℕ → Bool
  is_peer peer none = false
  is_peer peer (some other) = other == peer

  unfoldable pub contains_peer : List Text → ℕ → Bool
  contains_peer values peer = any (λ raw. is_peer peer (parse raw)) values

  abbrev pub by_access : RelayAccess → Bool → Bool
  by_access allow_all listed = true
  by_access deny_list listed = true
  by_access allow_list listed = listed

  unfoldable pub allows_peer : RelayServiceConfig → ℕ → Bool
  allows_peer c peer =
      if contains_peer c.deny_peers peer
      then false
      else by_access c.access (contains_peer c.allow_peers peer)
