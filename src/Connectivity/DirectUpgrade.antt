-- ===== src/Connectivity/DirectUpgrade.antt =====
-- crates/connectivity/direct_upgrade.rs: which peers are reached through relayed connections, and
-- which direct connections wait for the proof that the remote has them. Connections are numbers.
pub mod Paths
use p2p_net.Prelude.{
  ℕ, zero, suc, ◌+◌, ◌-◌, ◌*◌, ◌/◌, ◌%◌, ◌^◌, ◌≤◌, ◌<◌, min, max, ◌≡◌, refl, sym, ap, subst, ◌∙◌,
  ◌≢◌, ◌↔◌, ◌⊎◌, inl, inr, Bool, true, false, not, ◌&&◌, ◌||◌, Option, none, some, List, [], ◌∷◌,
  ◌++◌, map, arith, ltb, leb, nat_beq, if◌then◌else◌, Bool-cases, Option-cases, length, all, any,
  is_empty, get_elem?, set, take, drop, replicate, All, u32_max, u64_max, saturating_add32,
  saturating_add, saturating_mul, div_ceil, Eq, ◌==◌, ==_iff, ==_refl, nat_eq, list_eq, option_eq,
  code_eq, length-append, length-drop, length-take, append_assoc, append-nil, length-map,
}
use p2p_net.Prelude.Assoc.{
  lookup, insert, remove, keys, mem, Distinct, contains_key, lookup-insert, lookup-remove,
  insert-Distinct, remove-Distinct, Distinct-snoc,
}
use p2p_net.Prelude.HashSet.{retain}
use p2p_net.Common.Multiaddr.{Multiaddr, Protocol, p2p_circuit, webrtc, webrtc_direct}

pub record DirectUpgradeState : Type 0 where
  pub relayed : List (ℕ × List ℕ)
  pub pending_direct : List (ℕ × ℕ)
  pub upgrades_succeeded : ℕ
  pub upgrades_failed : ℕ
  pub paths_migrated : ℕ

abbrev pub connections_or_none : Option (List ℕ) → List ℕ
connections_or_none none = []
connections_or_none (some connections) = connections

unfoldable pub relayed_established : DirectUpgradeState → ℕ → ℕ → DirectUpgradeState
relayed_established s peer connection =
    let connections = connections_or_none (lookup peer s.relayed) in
    record s {
      relayed =
          insert peer
            (if mem connection connections then connections else connections ++ connection ∷ [])
            s.relayed;
    }

unfoldable pub direct_established : DirectUpgradeState → ℕ → ℕ → DirectUpgradeState
direct_established s peer connection = record s {
  pending_direct = insert peer connection s.pending_direct;
}

-- `self.pending_direct.get(peer) == Some(&connection)`.
abbrev pub is_connection : ℕ → Option ℕ → Bool
is_connection connection none = false
is_connection connection (some other) = other == connection

abbrev pub is_pending_direct : DirectUpgradeState → ℕ → ℕ → Bool
is_pending_direct s peer connection = is_connection connection (lookup peer s.pending_direct)

unfoldable pub take_relayed : DirectUpgradeState → ℕ → DirectUpgradeState × List ℕ
take_relayed s peer =
    (record s { relayed = remove peer s.relayed }, connections_or_none (lookup peer s.relayed))

unfoldable pub confirm_direct : DirectUpgradeState → ℕ → ℕ → DirectUpgradeState × Option (List ℕ)
confirm_direct s peer connection =
    let (taken, connections) =
      take_relayed (record s { pending_direct = remove peer s.pending_direct }) peer in
    if not (is_pending_direct s peer connection) then (s, none) else (taken, some connections)

-- The relayed connections of a peer without one, and the peer's entry without it.
abbrev pub without : ℕ → List ℕ → List ℕ
without connection connections = retain (λ existing. not (existing == connection)) connections

abbrev pub drop_relayed : ℕ → ℕ → Option (List ℕ) → List (ℕ × List ℕ) → List (ℕ × List ℕ)
drop_relayed peer connection none relayed = relayed
drop_relayed peer connection (some connections) relayed =
    if is_empty (without connection connections)
    then remove peer relayed
    else insert peer (without connection connections) relayed

unfoldable pub connection_closed : DirectUpgradeState → ℕ → ℕ → DirectUpgradeState
connection_closed s peer connection = record s {
  pending_direct =
      if is_pending_direct s peer connection
      then remove peer s.pending_direct
      else s.pending_direct;
  relayed = drop_relayed peer connection (lookup peer s.relayed) s.relayed;
}

abbrev pub has_relayed : DirectUpgradeState → ℕ → Bool
has_relayed s peer = contains_key peer s.relayed

pub record DirectUpgradeSnapshot : Type 0 where
  pub upgrades_succeeded : ℕ
  pub upgrades_failed : ℕ
  pub paths_migrated : ℕ
  pub relayed_peers : ℕ

abbrev pub snapshot : DirectUpgradeState → DirectUpgradeSnapshot
snapshot s = record {
  upgrades_succeeded = s.upgrades_succeeded;
  upgrades_failed = s.upgrades_failed;
  paths_migrated = s.paths_migrated;
  relayed_peers = length s.relayed;
}

-- The loop of `is_direct_browser_webrtc`, with the flag.
unfoldable pub webrtc_seen : Bool → Multiaddr → Bool
webrtc_seen seen [] = seen
webrtc_seen seen (p2p_circuit ∷ rest) = false
webrtc_seen seen (webrtc_direct ∷ rest) = false
webrtc_seen seen (webrtc ∷ rest) = webrtc_seen true rest
webrtc_seen seen (_ ∷ rest) = webrtc_seen seen rest

abbrev pub is_direct_browser_webrtc : Multiaddr → Bool
is_direct_browser_webrtc addr = webrtc_seen false addr
