-- ===== src/Connectivity/Limits.antt =====
-- crates/connectivity/limits.rs: the connection limits and their runtime state. Connection ids and
-- peer ids are numbers, an IP key is its text; `u32` counts stay in range by saturation.
pub mod Counts
pub mod Validate
use p2p_net.Prelude.{
  ℕ, ◌+◌, ◌-◌, Bool, true, false, ◌&&◌, Option, none, some, List, [], ◌∷◌, ltb, nat_beq, min,
  nat_eq, list_eq, length, u32_max, u64_max, saturating_add32, saturating_add, if◌then◌else◌,
}
use p2p_net.Prelude.Assoc.{lookup, insert, remove}
use mathlib.Core.Option.{get_or}
use Prim.Native.String
use Prim.Native.String.{String}
use p2p_net.Common.Error.{config_error, Result, ok, err, ◌>>◌, refuse}
use p2p_net.Common.Text.{Text}
use p2p_net.Common.Multiaddr.{Protocol, ip4, ip6, Multiaddr}

pub record ConnectionLimitsConfig : Type 0 where
  pub enabled : Bool
  pub max_pending_incoming : Option ℕ
  pub max_pending_outgoing : Option ℕ
  pub max_established_incoming : Option ℕ
  pub max_established_outgoing : Option ℕ
  pub max_established : Option ℕ
  pub max_established_per_peer : Option ℕ
  pub max_established_per_ip : Option ℕ

-- `ConnectionLimitsConfig::default()`.
abbrev pub default_limits : ConnectionLimitsConfig
default_limits = record {
  enabled = true;
  max_pending_incoming = some 32;
  max_pending_outgoing = some 32;
  max_established_incoming = some 64;
  max_established_outgoing = some 64;
  max_established = some 128;
  max_established_per_peer = some 3;
  max_established_per_ip = some 8;
}

unfoldable pub ensure_nonzero : String → Option ℕ → Result (Unit {0})
ensure_nonzero field none = ok tt
ensure_nonzero field (some n) =
    refuse (nat_beq n 0) (config_error (String.◌++◌ field " must be null or at least 1"))

-- `if let (Some(part), Some(total)) = … { if part > total { return Err(…) } }`
unfoldable pub ensure_at_most : String → Option ℕ → Option ℕ → Result (Unit {0})
ensure_at_most reason (some part) (some total) = refuse (ltb total part) (config_error reason)
ensure_at_most _ _ _ = ok tt

unfoldable pub validate : ConnectionLimitsConfig → Result (Unit {0})
validate c =
    if c.enabled
    then (do
      ensure_nonzero "connection_limits.max_pending_incoming" c.max_pending_incoming
      ensure_nonzero "connection_limits.max_pending_outgoing" c.max_pending_outgoing
      ensure_nonzero "connection_limits.max_established_incoming" c.max_established_incoming
      ensure_nonzero "connection_limits.max_established_outgoing" c.max_established_outgoing
      ensure_nonzero "connection_limits.max_established" c.max_established
      ensure_nonzero "connection_limits.max_established_per_peer" c.max_established_per_peer
      ensure_nonzero "connection_limits.max_established_per_ip" c.max_established_per_ip
      ensure_at_most
          "connection_limits.max_established_per_peer must be <= connection_limits.max_established"
          c.max_established_per_peer c.max_established
      ensure_at_most
          "connection_limits.max_established_per_ip must be <= connection_limits.max_established"
          c.max_established_per_ip c.max_established
      ok tt)
    else ok tt

pub record ConnectionCapState : Type 0 where
  pub max_established_per_ip : Option ℕ
  pub max_established_outgoing : Option ℕ
  pub by_connection : List (ℕ × Text)
  pub outgoing_by_connection : List (ℕ × ℕ)
  pub by_ip : List (Text × ℕ)
  pub cap_disconnects : ℕ

unfoldable pub new : ConnectionLimitsConfig → ConnectionCapState
new cfg = record {
  max_established_per_ip = if cfg.enabled then cfg.max_established_per_ip else none;
  max_established_outgoing = if cfg.enabled then cfg.max_established_outgoing else none;
  by_connection = [];
  outgoing_by_connection = [];
  by_ip = [];
  cap_disconnects = 0;
}

unfoldable pub multiaddr_ip_key : Multiaddr → Option Text
multiaddr_ip_key [] = none
multiaddr_ip_key (ip4 ip ∷ addr) = some ip
multiaddr_ip_key (ip6 ip ∷ addr) = some ip
multiaddr_ip_key (_ ∷ addr) = multiaddr_ip_key addr

unfoldable pub count_for_ip : ConnectionCapState → Text → ℕ
count_for_ip s ip = get_or (lookup ip s.by_ip) 0

-- `limit.is_some_and(|limit| count > limit)`.
abbrev pub is_over : Option ℕ → ℕ → Bool
is_over none count = false
is_over (some limit) count = ltb limit count

-- The part of `record_established` for an address with an IP.
unfoldable pub record_ip : ConnectionCapState → ℕ → Text → ConnectionCapState × Bool
unfolding count_for_ip
record_ip s connection_id ip =
    let count = saturating_add32 (count_for_ip s ip) 1 in
    let s' = record s {
      by_connection = insert connection_id ip s.by_connection;
      by_ip = insert ip count s.by_ip;
    } in
    if is_over s.max_established_per_ip count
    then (record s' { cap_disconnects = saturating_add s.cap_disconnects 1 }, true)
    else (s', false)

unfoldable pub record_established :
    ConnectionCapState → ℕ → ℕ → Multiaddr → Bool → ConnectionCapState × Bool
record_established s connection_id peer_id remote_addr outgoing =
    let s' =
      if outgoing
      then record s {
        outgoing_by_connection = insert connection_id peer_id s.outgoing_by_connection;
      }
      else s in
    elim (multiaddr_ip_key remote_addr) [
      | none ↦ (s', false)
      | some ip ↦ record_ip s' connection_id ip
    ]

-- `if let Some(count) = self.by_ip.get_mut(&ip) { … }`
pub release_ip : Text → List (Text × ℕ) → List (Text × ℕ)
release_ip ip by_ip = elim (lookup ip by_ip) [
  | none ↦ by_ip
  | some count ↦ if nat_beq (count - 1) 0 then remove ip by_ip else insert ip (count - 1) by_ip
]

unfoldable pub record_closed : ConnectionCapState → ℕ → ConnectionCapState
record_closed s connection_id =
    let s' = record s { outgoing_by_connection = remove connection_id s.outgoing_by_connection } in
    elim (lookup connection_id s.by_connection) [
      | none ↦ s'
      | some ip ↦ record s' {
        by_connection = remove connection_id s.by_connection;
        by_ip = release_ip ip s.by_ip;
      }
    ]

unfoldable pub outgoing_connections_to_release : ConnectionCapState → ℕ → ℕ
outgoing_connections_to_release s desired_headroom = elim s.max_established_outgoing [
  | none ↦ 0
  | some limit ↦
      let current = min (length s.outgoing_by_connection) u32_max in
      desired_headroom - (limit - current)
]
