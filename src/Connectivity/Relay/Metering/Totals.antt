-- ===== src/Connectivity/Relay/Metering/Totals.antt =====
-- The totals of the relay: a circuit that closes with its final counters changes no total, and the
-- window of closed circuits is bounded.
use p2p_net.Prelude.{
  ℕ, ◌≤◌, ◌≡◌, ap, inl, inr, Option, some, List, [], ◌∷◌, ◌++◌, arith, nat_beq, if◌then◌else◌,
  Bool-cases, length, drop, u64_max, saturating_add, nat_eq, list_eq, option_eq, length-append,
  length-drop,
}
use p2p_net.Prelude.Assoc.{lookup, remove}
use p2p_net.Prelude.Weigh.{weigh, weight_of, weigh-remove}
use p2p_net.Common.Text.{Text}
use p2p_net.Connectivity.Relay.Metering.{
  CircuitBytes, ErrorKind, ActiveCircuit, RelayMeter, RelayCircuitUsage, close_circuit, add_bytes,
  add_live, totals, recent_closed_circuits,
}

-- The live bytes of a circuit in one direction.
abbrev src_live : (ℕ → CircuitBytes) → ℕ → ActiveCircuit → ℕ
src_live live id a = (live id).src_to_dst

abbrev dst_live : (ℕ → CircuitBytes) → ℕ → ActiveCircuit → ℕ
dst_live live id a = (live id).dst_to_src

add_live-src :
    (live : ℕ → CircuitBytes) (t : CircuitBytes) (m : List (ℕ × ActiveCircuit))
    → t.src_to_dst ≤ u64_max
    → (add_live live t m).src_to_dst ≡ saturating_add t.src_to_dst (weigh (src_live live) m)
unfolding add_live weigh
add_live-src live t [] le = omega arith
add_live-src live t ((id, a) ∷ m) le =
    omega (arith, add_live-src live (add_bytes t (live id)) m (omega arith))

add_live-dst :
    (live : ℕ → CircuitBytes) (t : CircuitBytes) (m : List (ℕ × ActiveCircuit))
    → t.dst_to_src ≤ u64_max
    → (add_live live t m).dst_to_src ≡ saturating_add t.dst_to_src (weigh (dst_live live) m)
unfolding add_live weigh
add_live-dst live t [] le = omega arith
add_live-dst live t ((id, a) ∷ m) le =
    omega (arith, add_live-dst live (add_bytes t (live id)) m (omega arith))

same_totals :
    (a b : CircuitBytes) → a.src_to_dst ≡ b.src_to_dst → a.dst_to_src ≡ b.dst_to_src → a ≡ b
same_totals a b e f = cc

-- The counters of the closed circuits are numbers of 64 bits, and their window is not too long.
pub record IsMeter (m : RelayMeter) : Type 0 where
  pub src : m.closed_src_to_dst ≤ u64_max
  pub dst : m.closed_dst_to_src ≤ u64_max
  pub recent : length m.recent_closed ≤ recent_closed_circuits

window :
    (xs : List RelayCircuitUsage) (u : RelayCircuitUsage)
    → length xs ≤ recent_closed_circuits
    → length ((if nat_beq (length xs) recent_closed_circuits then drop 1 xs else xs) ++ u ∷ [])
      ≤ recent_closed_circuits
window xs u le = elim (Bool-cases (nat_beq (length xs) recent_closed_circuits)) [
  | inl e ↦ rw e (ground (arith, e, length-append (drop 1 xs) (u ∷ []), length-drop 1 xs))
  | inr e ↦ rw e (ground (arith, e, length-append xs (u ∷ [])))
]

-- Closing a circuit keeps the meter's counters in range and the window within its bound.
pub close_circuit-IsMeter :
    (m : RelayMeter) (id : ℕ) (src dst : Text) (bytes : CircuitBytes)
    (error : Option (ErrorKind × Text)) (now : ℕ)
    → IsMeter m
    → IsMeter (close_circuit m id src dst bytes error now).0
unfolding close_circuit
close_circuit-IsMeter m id src dst bytes error now v = record {
  src = omega arith;
  dst = omega arith;
  recent = window m.recent_closed _ v.recent;
}

-- When an active circuit closes with the final values of its counters, the totals of both
-- directions are what they were: no byte is lost and none is counted twice.
pub close_circuit-totals :
    (m : RelayMeter) (id : ℕ) (a : ActiveCircuit) (src dst : Text) (live : ℕ → CircuitBytes)
    (error : Option (ErrorKind × Text)) (now : ℕ)
    → IsMeter m
    → lookup id m.active ≡ some a
    → totals (close_circuit m id src dst (live id) error now).0 live ≡ totals m live
unfolding close_circuit totals
close_circuit-totals m id a src dst live error now v at =
    let c : CircuitBytes = record {
      src_to_dst = m.closed_src_to_dst;
      dst_to_src = m.closed_dst_to_src;
    } in
    same_totals _ _
      (omega (
        arith,
        add_live-src live (add_bytes c (live id)) (remove id m.active) (omega arith),
        add_live-src live c m.active v.src,
        weigh-remove (src_live live) id m.active,
        ap (weight_of (src_live live) id) at,
      ))
      (omega (
        arith,
        add_live-dst live (add_bytes c (live id)) (remove id m.active) (omega arith),
        add_live-dst live c m.active v.dst,
        weigh-remove (dst_live live) id m.active,
        ap (weight_of (dst_live live) id) at,
      ))
