-- ===== src/Connectivity/Relay/Metering.antt =====
-- crates/connectivity/relay/metering.rs: the usage of relay circuits and the totals derived from
-- it. The live counters of the circuits are those of the relay library: what `snapshot` reads from
-- them is `live`, by the id of the circuit. The texts of peers are given.
pub mod Totals
use p2p_net.Prelude.{
  ℕ, zero, suc, ◌+◌, ◌-◌, ◌*◌, ◌/◌, ◌%◌, ◌^◌, ◌≤◌, ◌<◌, min, max, ◌≡◌, refl, sym, ap, subst, ◌∙◌,
  ◌≢◌, ◌↔◌, ◌⊎◌, inl, inr, Bool, true, false, not, ◌&&◌, ◌||◌, Option, none, some, List, [], ◌∷◌,
  ◌++◌, map, arith, ltb, leb, nat_beq, if◌then◌else◌, Bool-cases, Option-cases, length, all, any,
  is_empty, get_elem?, set, take, drop, replicate, All, u32_max, u64_max, saturating_add32,
  saturating_add, saturating_mul, div_ceil, Eq, ◌==◌, ==_iff, ==_refl, nat_eq, list_eq, option_eq,
  code_eq, length-append, length-drop, length-take, append_assoc, append-nil, length-map,
}
use p2p_net.Prelude.Assoc.{lookup, insert, remove}
use p2p_net.Common.Text.{Text, codes}

-- `CircuitBytes` of the relay library.
pub record CircuitBytes : Type 0 where
  pub src_to_dst : ℕ
  pub dst_to_src : ℕ

abbrev pub recent_closed_circuits : ℕ
recent_closed_circuits = 256

pub data RelayCircuitCloseReason : Type 0 where
  completed : RelayCircuitCloseReason
  byte_limit : RelayCircuitCloseReason
  duration_limit : RelayCircuitCloseReason
  peer_disconnected : RelayCircuitCloseReason
  transport_error : Text → RelayCircuitCloseReason

-- The kinds of `std::io::Error` that are told apart, and an error with its text.
pub data ErrorKind : Type 0 where
  timed_out : ErrorKind
  connection_aborted : ErrorKind
  connection_reset : ErrorKind
  broken_pipe : ErrorKind
  unexpected_eof : ErrorKind
  other_kind : ErrorKind

abbrev pub by_kind : ErrorKind → Text → RelayCircuitCloseReason
by_kind timed_out text = duration_limit
by_kind connection_aborted text = peer_disconnected
by_kind connection_reset text = peer_disconnected
by_kind broken_pipe text = peer_disconnected
by_kind unexpected_eof text = peer_disconnected
by_kind other_kind text = transport_error text

unfoldable pub from_error : Option (ErrorKind × Text) → RelayCircuitCloseReason
from_error none = completed
from_error (some (kind, text)) =
    if text == codes "Max circuit bytes reached." then byte_limit else by_kind kind text

pub record RelayCircuitUsage : Type 0 where
  pub circuit_id : ℕ
  pub src_peer_id : Text
  pub dst_peer_id : Text
  pub started_at_ms : ℕ
  pub ended_at_ms : Option ℕ
  pub bytes_src_to_dst : ℕ
  pub bytes_dst_to_src : ℕ
  pub close_reason : Option RelayCircuitCloseReason

abbrev pub total_transit_bytes : RelayCircuitUsage → ℕ
total_transit_bytes u = saturating_add u.bytes_src_to_dst u.bytes_dst_to_src

abbrev pub duration_since : ℕ → Option ℕ → Option ℕ
duration_since started none = none
duration_since started (some ended) = some (ended - started)

abbrev pub duration_ms : RelayCircuitUsage → Option ℕ
duration_ms u = duration_since u.started_at_ms u.ended_at_ms

abbrev pub with_bytes : CircuitBytes → RelayCircuitUsage → RelayCircuitUsage
with_bytes bytes u = record u {
  bytes_src_to_dst = bytes.src_to_dst;
  bytes_dst_to_src = bytes.dst_to_src;
}

pub record ActiveCircuit : Type 0 where
  pub usage : RelayCircuitUsage
  pub reported : CircuitBytes

pub record RelayMeter : Type 0 where
  pub active : List (ℕ × ActiveCircuit)
  pub closed_src_to_dst : ℕ
  pub closed_dst_to_src : ℕ
  pub closed_circuits : ℕ
  pub recent_closed : List RelayCircuitUsage

unfoldable pub open_circuit :
    RelayMeter → ℕ → Text → Text → CircuitBytes → ℕ → RelayMeter × RelayCircuitUsage
open_circuit m circuit_id src dst live now_ms =
    let usage : RelayCircuitUsage = record {
      circuit_id = circuit_id;
      src_peer_id = src;
      dst_peer_id = dst;
      started_at_ms = now_ms;
      ended_at_ms = none;
      bytes_src_to_dst = live.src_to_dst;
      bytes_dst_to_src = live.dst_to_src;
      close_reason = none;
    } in
    (
      record m { active = insert circuit_id (record { usage = usage; reported = live }) m.active },
      usage,
    )

abbrev pub start_of : ℕ → Option ActiveCircuit → ℕ
start_of now_ms none = now_ms
start_of now_ms (some a) = a.usage.started_at_ms

unfoldable pub close_circuit :
    RelayMeter
    → ℕ
    → Text
    → Text
    → CircuitBytes
    → Option (ErrorKind × Text)
    → ℕ
    → RelayMeter × RelayCircuitUsage
close_circuit m circuit_id src dst bytes error now_ms =
    let usage : RelayCircuitUsage = record {
      circuit_id = circuit_id;
      src_peer_id = src;
      dst_peer_id = dst;
      started_at_ms = start_of now_ms (lookup circuit_id m.active);
      ended_at_ms = some now_ms;
      bytes_src_to_dst = bytes.src_to_dst;
      bytes_dst_to_src = bytes.dst_to_src;
      close_reason = some (from_error error);
    } in
    (
      record {
        active = remove circuit_id m.active;
        closed_src_to_dst = saturating_add m.closed_src_to_dst bytes.src_to_dst;
        closed_dst_to_src = saturating_add m.closed_dst_to_src bytes.dst_to_src;
        closed_circuits = saturating_add m.closed_circuits 1;
        recent_closed =
            (if nat_beq (length m.recent_closed) recent_closed_circuits
              then drop 1 m.recent_closed
              else m.recent_closed)
            ++ usage ∷ [];
      },
      usage,
    )

-- `sort_by_key(circuit_id)`.
unfoldable pub insert_usage : RelayCircuitUsage → List RelayCircuitUsage → List RelayCircuitUsage
insert_usage u [] = u ∷ []
insert_usage u (v ∷ rest) =
    if leb u.circuit_id v.circuit_id then u ∷ v ∷ rest else v ∷ insert_usage u rest

unfoldable pub sort_usages : List RelayCircuitUsage → List RelayCircuitUsage
sort_usages [] = []
sort_usages (u ∷ rest) = insert_usage u (sort_usages rest)

-- `PartialEq` of the snapshots.
abbrev pub same_bytes : CircuitBytes → CircuitBytes → Bool
same_bytes a b = nat_beq a.src_to_dst b.src_to_dst && nat_beq a.dst_to_src b.dst_to_src

-- The loop of `take_changed`: the circuits after it, and what changed.
unfoldable pub report_changes :
    (ℕ → CircuitBytes)
    → List (ℕ × ActiveCircuit)
    → List (ℕ × ActiveCircuit) × List RelayCircuitUsage
report_changes live [] = ([], [])
report_changes live ((id, a) ∷ rest) =
    let (circuits, changed) = report_changes live rest in
    if same_bytes (live id) a.reported
    then ((id, a) ∷ circuits, changed)
    else ((id, record a { reported = live id }) ∷ circuits, with_bytes (live id) a.usage ∷ changed)

unfoldable pub take_changed : RelayMeter → (ℕ → CircuitBytes) → RelayMeter × List RelayCircuitUsage
take_changed m live =
    let (circuits, changed) = report_changes live m.active in
    (record m { active = circuits }, sort_usages changed)

abbrev pub add_bytes : CircuitBytes → CircuitBytes → CircuitBytes
add_bytes a b = record {
  src_to_dst = saturating_add a.src_to_dst b.src_to_dst;
  dst_to_src = saturating_add a.dst_to_src b.dst_to_src;
}

-- The loop of `totals` over the active circuits.
unfoldable pub add_live :
    (ℕ → CircuitBytes) → CircuitBytes → List (ℕ × ActiveCircuit) → CircuitBytes
add_live live totals [] = totals
add_live live totals ((id, a) ∷ rest) = add_live live (add_bytes totals (live id)) rest

unfoldable pub totals : RelayMeter → (ℕ → CircuitBytes) → CircuitBytes
totals m live =
    add_live live (record { src_to_dst = m.closed_src_to_dst; dst_to_src = m.closed_dst_to_src })
      m.active

unfoldable pub active_circuits : RelayMeter → (ℕ → CircuitBytes) → List RelayCircuitUsage
active_circuits m live = sort_usages (map (λ q. with_bytes (live q.0) q.1.usage) m.active)
