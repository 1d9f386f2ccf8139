-- ===== src/Connectivity/Mediator.antt =====
-- crates/connectivity/mediator.rs: the policy of a mediator, which is a relay for peers that then
-- connect directly, and its projection onto the configuration of the relay service.
use p2p_net.Prelude.{
  ℕ, ◌≤◌, min, max, ◌≡◌, refl, subst, Bool, true, false, not, ◌&&◌, Option, arith, nat_beq,
  if◌then◌else◌, is_empty, nat_eq, list_eq, option_eq,
}
use p2p_net.Common.Text.{Text}
use p2p_net.Common.Error.{NetError, config, Result, ok, ◌>>◌, refuse, >>-eq-ok}
use p2p_net.Connectivity.Relay.Service.{
  RelayAccess, allow_list, RelayServiceConfig, is_active_now, validate_limits,
}

pub record MediatorConfig : Type 0 where
  pub enabled : Bool
  pub advertise_for_dcutr : Bool
  pub allow_reservations : Bool
  pub allow_circuits : Bool
  pub require_authenticated_peers : Bool
  pub max_mediated_peers : ℕ
  pub max_reservations : ℕ
  pub max_circuits : ℕ

abbrev pub default_mediator : MediatorConfig
default_mediator = record {
  enabled = false;
  advertise_for_dcutr = true;
  allow_reservations = true;
  allow_circuits = true;
  require_authenticated_peers = false;
  max_mediated_peers = 64;
  max_reservations = 64;
  max_circuits = 128;
}

abbrev pub is_allow_list : RelayAccess → Bool
is_allow_list allow_list = true
is_allow_list _ = false

abbrev pub validate_access : MediatorConfig → RelayServiceConfig → Result (Unit {0})
validate_access m relay =
    if not m.require_authenticated_peers
    then ok tt
    else refuse (not (is_allow_list relay.access))
        (config "<mediator>" "require_authenticated_peers requires relay.access = allow_list")
      >> refuse (is_empty relay.allow_peers)
          (config "<mediator>" "require_authenticated_peers requires relay.allow_peers")

abbrev pub validate_enabled : MediatorConfig → RelayServiceConfig → Result (Unit {0})
validate_enabled m relay =
    refuse (not m.allow_reservations) (
      config "<mediator>" "mediator.allow_reservations must be true while mediator.enabled is true")
    >> refuse (not m.allow_circuits)
        (config "<mediator>" "mediator.allow_circuits must be true while mediator.enabled is true")
    >> refuse (nat_beq m.max_mediated_peers 0)
        (config "<mediator>" "mediator.max_mediated_peers must be at least 1")
    >> refuse (nat_beq m.max_reservations 0)
        (config "<mediator>" "mediator.max_reservations must be at least 1")
    >> refuse (nat_beq m.max_circuits 0)
        (config "<mediator>" "mediator.max_circuits must be at least 1")
    >> validate_access m relay

unfoldable pub validate_mediator : MediatorConfig → RelayServiceConfig → Result (Unit {0})
validate_mediator m relay = if not m.enabled then ok tt else validate_enabled m relay

abbrev pub mediator_active_now :
    (Text → Option ℕ) → (Text → Option ℕ) → MediatorConfig → RelayServiceConfig → Option ℕ → Bool
mediator_active_now parse parse_u16 m relay secs =
    m.enabled && is_active_now parse parse_u16 relay secs

unfoldable pub apply_to_relay : MediatorConfig → RelayServiceConfig → RelayServiceConfig
apply_to_relay m relay = if not m.enabled then relay else record relay {
  enabled = true;
  max_reservations = min relay.max_reservations m.max_reservations;
  max_circuits = min relay.max_circuits m.max_circuits;
  max_reservations_per_peer = max (min relay.max_reservations_per_peer m.max_mediated_peers) 1;
  max_circuits_per_peer = max (min relay.max_circuits_per_peer m.max_mediated_peers) 1;
}

-- The limits of a relay that mediates: at least 1, and within what was configured for both.
pub record IsMediating (m : MediatorConfig) (before after : RelayServiceConfig) : Type 0 where
  pub active : after.enabled ≡ true
  pub reservations :
      (1 ≤ after.max_reservations) × (after.max_reservations ≤ before.max_reservations)
  pub circuits : (1 ≤ after.max_circuits) × (after.max_circuits ≤ before.max_circuits)
  pub own_reservations : after.max_reservations ≤ m.max_reservations
  pub own_circuits : after.max_circuits ≤ m.max_circuits
  pub per_peer :
      (1 ≤ after.max_reservations_per_peer)
      × (after.max_reservations_per_peer ≤ before.max_reservations_per_peer)
  pub circuits_per_peer :
      (1 ≤ after.max_circuits_per_peer)
      × (after.max_circuits_per_peer ≤ before.max_circuits_per_peer)

refuse_ok : (b : Bool) (e : NetError) → refuse b e ≡ ok tt → b ≡ false
refuse_ok false e h = refl
refuse_ok true e h = cc

positive : (n : ℕ) (e : NetError) → refuse (nat_beq n 0) e ≡ ok tt → 1 ≤ n
positive n e h = ground (arith, refuse_ok (nat_beq n 0) e h)

validate_enabled-positive :
    (m : MediatorConfig) (relay : RelayServiceConfig)
    → validate_enabled m relay ≡ ok tt
    → (1 ≤ m.max_mediated_peers) × (1 ≤ m.max_reservations) × (1 ≤ m.max_circuits)
validate_enabled-positive m relay h =
    let (_, h5, _) = >>-eq-ok _ (validate_access m relay) h in
    let (_, h4, circuits) = >>-eq-ok _ _ h5 in
    let (_, h3, reservations) = >>-eq-ok _ _ h4 in
    let (_, h2, peers) = >>-eq-ok _ _ h3 in
    (positive _ _ peers, positive _ _ reservations, positive _ _ circuits)

validate_limits-positive :
    (c : RelayServiceConfig)
    → validate_limits c ≡ ok tt
    → (1 ≤ c.max_reservations)
      × (1 ≤ c.max_reservations_per_peer)
      × (1 ≤ c.max_circuits)
      × (1 ≤ c.max_circuits_per_peer)
validate_limits-positive c h =
    let (_, h8, _) = >>-eq-ok _ _ h in
    let (_, h7, _) = >>-eq-ok _ _ h8 in
    let (_, h6, _) = >>-eq-ok _ _ h7 in
    let (_, h5, _) = >>-eq-ok _ _ h6 in
    let (_, h4, circuits_each) = >>-eq-ok _ _ h5 in
    let (_, h3, circuits) = >>-eq-ok _ _ h4 in
    let (_, h2, _) = >>-eq-ok _ _ h3 in
    let (_, h1, each) = >>-eq-ok _ _ h2 in
    (positive _ _ h1, positive _ _ each, positive _ _ circuits, positive _ _ circuits_each)

-- A mediator that is enabled and passes its checks, applied to a relay whose limits pass theirs,
-- gives an enabled relay: its limits on reservations and circuits, in total and for a peer, are at
-- least 1 and at most what they were, and the totals are within the mediator's.
pub apply_to_relay-IsMediating :
    (m : MediatorConfig) (relay : RelayServiceConfig)
    → m.enabled ≡ true
    → validate_mediator m relay ≡ ok tt
    → validate_limits relay ≡ ok tt
    → IsMediating m relay (apply_to_relay m relay)
unfolding validate_mediator apply_to_relay
apply_to_relay-IsMediating m relay on h g =
    let (peers, reservations, circuits) =
      validate_enabled-positive m relay
        (subst (λ b. (if not b then ok tt else validate_enabled m relay) ≡ ok tt) on h) in
    let (total, each, circuits_total, circuits_each) = validate_limits-positive relay g in
    rw on (record {
      active = refl;
      reservations = (omega arith, omega arith);
      circuits = (omega arith, omega arith);
      own_reservations = omega arith;
      own_circuits = omega arith;
      per_peer = (omega arith, omega arith);
      circuits_per_peer = (omega arith, omega arith);
    })
