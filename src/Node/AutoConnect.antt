-- ===== src/Node/AutoConnect.antt =====
-- crates/node/events/kademlia.rs: `maybe_auto_dial_dht_providers`, which dials the providers that
-- the DHT found. It joins the policy of `Connectivity.Dht`, the statistics of `Node.Dial` and the
-- dial itself, `auto_dial_dht_provider` after connections were released for it, which is `dial`
-- here on a world that has the swarm and the pending plans. The three readings of the clock for a
-- candidate are given with it; the lines that are only displayed are left out.
use p2p_net.Prelude.{
  ℕ, ◌≡◌, refl, inl, inr, Bool, true, false, List, [], ◌∷◌, if◌then◌else◌, Bool-cases, nat_eq,
  list_eq, option_eq,
}
use p2p_net.Prelude.Assoc.{lookup}
use p2p_net.Connectivity.Dht.State.{
  DhtProviderState, mark_auto_connect_attempted, mark_auto_connect_waiting_for_addrs,
  mark_auto_connect_failed, auto_connect_retry_allowed, should_auto_connect_provider_result,
  should_auto_connect_after_addr_update,
}
use p2p_net.Connectivity.Dht.Retry.{
  IsLimited, is_ready, mark_attempted-IsLimited, retry_allowed-Decided, provider_result-Decided,
  mark_waiting-IsLimited,
}
use p2p_net.Node.Dial.{
  AutoDialOutcome, disabled, local_peer, already_connected, already_pending, awaiting_address,
  address_resolution_started, dial_started, dial_failed, AutoDialStats, record_outcome,
  is_suppressed,
}

pub record AutoDialCandidate : Type 0 where
  pub peer : ℕ
  pub address_updated : Bool
  -- The times at which the policy is asked and at which the attempt is noted.
  pub asked : ℕ
  pub noted : ℕ

-- What the outcome of a dial does to the policy.
unfoldable pub note_outcome : ℕ → DhtProviderState → ℕ → AutoDialOutcome → DhtProviderState
note_outcome now s peer dial_started = (mark_auto_connect_attempted now s peer).0
note_outcome now s peer address_resolution_started = (mark_auto_connect_attempted now s peer).0
note_outcome now s peer dial_failed =
    (mark_auto_connect_failed (mark_auto_connect_attempted now s peer).0 peer).0
note_outcome now s peer awaiting_address = (mark_auto_connect_waiting_for_addrs s peer).0
note_outcome now s peer disabled = s
note_outcome now s peer local_peer = s
note_outcome now s peer already_connected = s
note_outcome now s peer already_pending = s

module _ {W : Type 0} (dial : W → ℕ → W × AutoDialOutcome) where
  abbrev pub Dialing : Type 0
  Dialing = DhtProviderState × AutoDialStats × W

  -- `should_attempt`, with the policy after the question.
  abbrev pub should_attempt : DhtProviderState → AutoDialCandidate → DhtProviderState × Bool
  should_attempt s c =
      if c.address_updated
      then should_auto_connect_after_addr_update c.asked s c.peer
      else should_auto_connect_provider_result c.asked s c.peer

  -- The dial of a candidate that the policy admits.
  abbrev pub attempt : AutoDialCandidate → AutoDialStats → W → DhtProviderState × Bool → Dialing
  attempt c stats w (s, false) = (s, stats, w)
  attempt c stats w (s, true) =
      let (after, outcome) = dial w c.peer in
      (note_outcome c.noted s c.peer outcome, record_outcome stats c.peer outcome, after)

  unfoldable pub consider_candidate : Dialing → AutoDialCandidate → Dialing
  consider_candidate (s, stats, w) c =
      let tried = attempt c stats w (should_attempt s c) in
      if is_suppressed stats c.peer then (s, stats, w) else tried

  unfoldable pub maybe_auto_dial_dht_providers : Dialing → List AutoDialCandidate → Dialing
  maybe_auto_dial_dht_providers d [] = d
  maybe_auto_dial_dht_providers d (c ∷ rest) =
      maybe_auto_dial_dht_providers (consider_candidate d c) rest

failed-IsLimited :
    (s : DhtProviderState) (peer : ℕ) → IsLimited s → IsLimited (mark_auto_connect_failed s peer).0
unfolding mark_auto_connect_failed
failed-IsLimited s peer v = v

note_outcome-IsLimited :
    (now : ℕ) (s : DhtProviderState) (peer : ℕ) (o : AutoDialOutcome)
    → is_ready (lookup peer s.auto_connect_retry.table) ≡ true
    → IsLimited s
    → IsLimited (note_outcome now s peer o)
unfolding note_outcome
note_outcome-IsLimited now s peer dial_started ready v = mark_attempted-IsLimited now s peer ready v
note_outcome-IsLimited now s peer address_resolution_started ready v =
    mark_attempted-IsLimited now s peer ready v
note_outcome-IsLimited now s peer dial_failed ready v =
    failed-IsLimited (mark_auto_connect_attempted now s peer).0 peer
      (mark_attempted-IsLimited now s peer ready v)
note_outcome-IsLimited now s peer awaiting_address ready v = mark_waiting-IsLimited s peer v
note_outcome-IsLimited now s peer disabled ready v = v
note_outcome-IsLimited now s peer local_peer ready v = v
note_outcome-IsLimited now s peer already_connected ready v = v
note_outcome-IsLimited now s peer already_pending ready v = v

module _ {W : Type 0} (dial : W → ℕ → W × AutoDialOutcome) where
  attempt-IsLimited :
      (c : AutoDialCandidate) (stats : AutoDialStats) (w : W) (d : DhtProviderState × Bool)
      → IsLimited d.0
      → (d.1 ≡ true → is_ready (lookup c.peer d.0.auto_connect_retry.table) ≡ true)
      → IsLimited (attempt dial c stats w d).0
  attempt-IsLimited c stats w (s, false) v ready = v
  attempt-IsLimited c stats w (s, true) v ready =
      note_outcome-IsLimited c.noted s c.peer (dial w c.peer).1 (ready refl) v

  tried-IsLimited :
      (s : DhtProviderState) (stats : AutoDialStats) (w : W) (c : AutoDialCandidate)
      → IsLimited s
      → IsLimited (attempt dial c stats w (should_attempt dial s c)).0
  tried-IsLimited s stats w c v = by_kind c.address_updated
    where
      by_kind :
          (b : Bool)
          → IsLimited
              (attempt dial c stats w (
                if b
                then should_auto_connect_after_addr_update c.asked s c.peer
                else should_auto_connect_provider_result c.asked s c.peer)).0
      by_kind true =
          let d = retry_allowed-Decided c.asked s c.peer v in
          attempt-IsLimited c stats w (auto_connect_retry_allowed c.asked s c.peer) d.0 d.1
      by_kind false =
          let d = provider_result-Decided c.asked s c.peer v in
          attempt-IsLimited c stats w (should_auto_connect_provider_result c.asked s c.peer) d.0 d.1

  consider_candidate-IsLimited :
      (d : Dialing dial) (c : AutoDialCandidate)
      → IsLimited d.0
      → IsLimited (consider_candidate dial d c).0
  unfolding consider_candidate
  consider_candidate-IsLimited (s, stats, w) c v = elim (Bool-cases (is_suppressed stats c.peer)) [
    | inl e ↦ rw (e, consider_candidate) v
    | inr e ↦ rw (e, consider_candidate) (tried-IsLimited s stats w c v)
  ]

  -- Whatever providers are found and whatever their dials give, at whatever times, no entry of the
  -- history of retries has more attempts in its window than the cap.
  pub maybe_auto_dial_dht_providers-IsLimited :
      (d : Dialing dial) (candidates : List AutoDialCandidate)
      → IsLimited d.0
      → IsLimited (maybe_auto_dial_dht_providers dial d candidates).0
  unfolding maybe_auto_dial_dht_providers
  maybe_auto_dial_dht_providers-IsLimited d [] v = v
  maybe_auto_dial_dht_providers-IsLimited d (c ∷ rest) v =
      maybe_auto_dial_dht_providers-IsLimited (consider_candidate dial d c) rest
        (consider_candidate-IsLimited d c v)
