-- ===== src/Node/Dial/Stats.antt =====
-- The statistics of automatic dialing: their sets and queues agree and are bounded in every
-- history.
use p2p_net.Prelude.{
  ℕ, ◌≤◌, ◌≡◌, refl, sym, subst, inl, inr, true, not, ◌&&◌, List, arith, Bool-cases, length, ◌==◌,
  nat_eq, list_eq, option_eq,
}
use p2p_net.Prelude.Assoc.{mem, Distinct}
use p2p_net.Prelude.HashSet.{set_insert_new, set_insert_known}
use p2p_net.Connectivity.BoundedSet.{
  Bounded, bounded, IsTracking, of_same, entered-IsTracking, mem-entered, prune_peer_set-entered,
  prune_peer_set-within, remove_peer_from_bounded_set-IsTracking, mem-remove_peer_from_bounded_set,
}
use p2p_net.Node.Dial.{
  max_auto_dial_awaiting_peers, AutoDialOutcome, disabled, local_peer, already_connected,
  already_pending, awaiting_address, address_resolution_started, dial_started, dial_failed,
  AutoDialStats, mark_bounded, mark_awaiting_address, remove_awaiting, record_outcome,
  clear_awaiting, record_async_failure, suppress_peer, allow_peer, is_suppressed,
}

-- The set is in order, and the peer is a member.
abbrev HasMember : ℕ → Bounded ℕ → Type 0
HasMember peer s = IsTracking max_auto_dial_awaiting_peers s × (mem peer s.members ≡ true)

mark_same :
    (peer : ℕ) (xs : List ℕ)
    → Distinct xs
    → length xs ≤ max_auto_dial_awaiting_peers
    → HasMember peer (mark_bounded peer (bounded xs xs))
unfolding mark_bounded
mark_same peer xs d le = elim (Bool-cases (mem peer xs)) [
  | inl known ↦
      rw (known, set_insert_known peer xs known)
        (subst (HasMember peer) (sym (prune_peer_set-within max_auto_dial_awaiting_peers xs le))
          ((refl, d, le), known))
  | inr new ↦
      rw (new, set_insert_new peer xs new)
        (subst (HasMember peer) (sym (prune_peer_set-entered max_auto_dial_awaiting_peers peer xs))
          (
            entered-IsTracking max_auto_dial_awaiting_peers peer xs d new,
            mem-entered max_auto_dial_awaiting_peers peer xs (omega arith) le,
          ))
]

mark_bounded-HasMember :
    (peer : ℕ) (s : Bounded ℕ)
    → IsTracking max_auto_dial_awaiting_peers s
    → HasMember peer (mark_bounded peer s)
mark_bounded-HasMember peer s (same, d, le) =
    subst (λ b. HasMember peer (mark_bounded peer b)) (sym (of_same s same))
      (mark_same peer s.members d le)

-- Each of the two sets is listed by its queue, without repetition, and within its bound.
pub record IsBounded (s : AutoDialStats) : Type 0 where
  pub awaiting : IsTracking max_auto_dial_awaiting_peers s.awaiting_address_peers
  pub suppressed : IsTracking max_auto_dial_awaiting_peers s.suppressed_peers

-- One call of a method.
pub data Step (s : AutoDialStats) : AutoDialStats → Type 0 where
  outcome : (peer : ℕ) (o : AutoDialOutcome) → Step s (record_outcome s peer o)
  clear : (peer : ℕ) → Step s (clear_awaiting s peer)
  async_failure : (peer : ℕ) → Step s (record_async_failure s peer)
  suppress : (peer : ℕ) → Step s (suppress_peer s peer)
  allow : (peer : ℕ) → Step s (allow_peer s peer)

mark-IsBounded :
    (s : AutoDialStats) (peer : ℕ) → IsBounded s → IsBounded (mark_awaiting_address s peer)
mark-IsBounded s peer v = record {
  awaiting = (mark_bounded-HasMember peer s.awaiting_address_peers v.awaiting).0;
  suppressed = v.suppressed;
}

remove-IsBounded : (s : AutoDialStats) (peer : ℕ) → IsBounded s → IsBounded (remove_awaiting s peer)
remove-IsBounded s peer v = record {
  awaiting = remove_peer_from_bounded_set-IsTracking _ peer s.awaiting_address_peers v.awaiting;
  suppressed = v.suppressed;
}

record_outcome-IsBounded :
    (s : AutoDialStats) (peer : ℕ) (o : AutoDialOutcome)
    → IsBounded s
    → IsBounded (record_outcome s peer o)
unfolding record_outcome
record_outcome-IsBounded s peer disabled v = v
record_outcome-IsBounded s peer local_peer v = v
record_outcome-IsBounded s peer already_connected v = remove-IsBounded s peer v
record_outcome-IsBounded s peer already_pending v = v
record_outcome-IsBounded s peer awaiting_address v = mark-IsBounded s peer v
record_outcome-IsBounded s peer address_resolution_started v =
    mark-IsBounded _ peer (record { awaiting = v.awaiting; suppressed = v.suppressed })
record_outcome-IsBounded s peer dial_started v =
    remove-IsBounded _ peer (record { awaiting = v.awaiting; suppressed = v.suppressed })
record_outcome-IsBounded s peer dial_failed v =
    remove-IsBounded _ peer (record { awaiting = v.awaiting; suppressed = v.suppressed })

-- Every method of the statistics keeps its two sets and their queues together: each queue lists
-- its set, each peer once and the oldest first, and no set exceeds its bound.
pub Step-IsBounded : (s t : AutoDialStats) → Step s t → IsBounded s → IsBounded t
Step-IsBounded s _ (Step.outcome peer o) v = record_outcome-IsBounded s peer o v
Step-IsBounded s _ (Step.clear peer) v = remove-IsBounded s peer v
Step-IsBounded s _ (Step.async_failure peer) v =
    remove-IsBounded _ peer (record { awaiting = v.awaiting; suppressed = v.suppressed })
Step-IsBounded s _ (Step.suppress peer) v = record {
  awaiting = v.awaiting;
  suppressed = (mark_bounded-HasMember peer s.suppressed_peers v.suppressed).0;
}
Step-IsBounded s _ (Step.allow peer) v = record {
  awaiting = v.awaiting;
  suppressed = remove_peer_from_bounded_set-IsTracking _ peer s.suppressed_peers v.suppressed;
}

-- A peer that is suppressed is suppressed until it is allowed, whatever else was suppressed
-- before, and allowing it again changes no other peer.
pub suppress_peer-allow_peer :
    (s : AutoDialStats) (peer other : ℕ)
    → IsBounded s
    → (is_suppressed (suppress_peer s peer) peer ≡ true)
      × (is_suppressed (allow_peer (suppress_peer s peer) peer) other
          ≡ not (peer == other) && is_suppressed (suppress_peer s peer) other)
unfolding is_suppressed
suppress_peer-allow_peer s peer other v =
    let m = mark_bounded-HasMember peer s.suppressed_peers v.suppressed in
    (m.1, mem-remove_peer_from_bounded_set _ peer other (mark_bounded peer s.suppressed_peers) m.0)
