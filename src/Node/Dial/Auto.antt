-- ===== src/Node/Dial/Auto.antt =====
-- Automatic dialing of a peer from the peer book, and of a provider that the DHT found.
use p2p_net.Prelude.{
  ℕ, ◌≡◌, refl, sym, ap, subst, Bool, true, false, not, Option, none, some, arith, if◌then◌else◌,
  is_empty, ◌==◌, nat_eq, list_eq, option_eq,
}
use p2p_net.Prelude.Assoc.{lookup-insert}
use p2p_net.Connectivity.PeerBook.{PeerBook}
use p2p_net.Connectivity.Strategy.Transports.{TransportCapabilities}
use p2p_net.Connectivity.Strategy.Plan.{
  AddrText, ConnectionAttempt, ConnectionPlan, DcutrPolicy,
  build_peer_book_connection_plan_with_capabilities,
}
use p2p_net.Connectivity.Strategy.Pending.{
  PendingConnectionPlans, track_remaining, track_for, after_attempt, is_pending,
}
use p2p_net.Node.Dial.{
  Dialer, AutoDialOutcome, disabled, local_peer, already_connected, already_pending,
  awaiting_address, dial_started, dial_failed, dial_attempts_loop, dial_result,
  dial_connection_plan, outcome_of, auto_dial_peer_from_book,
}

-- The code of an outcome, by which the two that dialing has are told from the others.
abbrev is_started : AutoDialOutcome → Bool
is_started dial_started = true
is_started _ = false

abbrev is_dialed : AutoDialOutcome → Bool
is_dialed dial_started = true
is_dialed dial_failed = true
is_dialed _ = false

plan_target :
    (x : AddrText) (peer : ℕ) (book : PeerBook) (policy : DcutrPolicy) (c : TransportCapabilities)
    → (build_peer_book_connection_plan_with_capabilities x peer book policy c).target_peer
      ≡ some peer
unfolding build_peer_book_connection_plan_with_capabilities
plan_target x peer book policy c = refl

module _ {Swarm : Type 0} (y : Dialer Swarm) where
  tracked_pending :
      (pending : PendingConnectionPlans) (plan : ConnectionPlan) (peer : ℕ)
      (r : Swarm × Option ConnectionAttempt)
      → plan.target_peer ≡ some peer
      → is_started (outcome_of y (dial_result y pending plan r).2) ≡ true
      → is_pending (dial_result y pending plan r).1 peer ≡ true
  unfolding track_remaining
  tracked_pending pending plan peer (s, some a) target h =
      subst (λ o. is_pending (track_for o (after_attempt a plan.attempts) pending) peer ≡ true)
        (sym target)
        (ground (arith, lookup-insert peer peer (after_attempt a plan.attempts) pending))
  tracked_pending pending plan peer (s, none) target h = ground (arith, h)

  abbrev Outcome : Type 0
  Outcome = Swarm × PendingConnectionPlans × AutoDialOutcome

  -- The guards of automatic dialing before what it does behind them.
  abbrev guarded :
      Swarm → PendingConnectionPlans → Bool → Bool → Bool → Bool → Bool → Outcome → Outcome
  guarded s pending on own there queued bare r =
      if not on
      then (s, pending, disabled)
      else if own
      then (s, pending, local_peer)
      else if there
      then (s, pending, already_connected)
      else if queued
      then (s, pending, already_pending)
      else if bare
      then (s, pending, awaiting_address)
      else r

  abbrev Through : Bool → Bool → Bool → Bool → Outcome → Outcome → Type 0
  Through on own there queued r q =
      (on ≡ true) × (own ≡ false) × (there ≡ false) × (queued ≡ false) × (r ≡ q)

  guarded_lem :
      (s : Swarm) (pending : PendingConnectionPlans) (on own there queued bare : Bool) (r : Outcome)
      → is_started (guarded s pending on own there queued bare r).2 ≡ true
      → Through on own there queued (guarded s pending on own there queued bare r) r
  guarded_lem s pending false own there queued bare r h = absurd (ground (arith, h))
  guarded_lem s pending true true there queued bare r h = absurd (ground (arith, h))
  guarded_lem s pending true false true queued bare r h = absurd (ground (arith, h))
  guarded_lem s pending true false false true bare r h = absurd (ground (arith, h))
  guarded_lem s pending true false false false true r h = absurd (ground (arith, h))
  guarded_lem s pending true false false false false r h = (refl, refl, refl, refl, refl)

  -- Automatic dialing starts a dial only where it is enabled, for a remote peer that is neither
  -- connected nor pending, and then the peer is pending, so that it is not dialed again.
  pub auto_dial_peer_from_book-started :
      (x : AddrText) (peer own : ℕ) (enabled : Bool) (s : Swarm) (book : PeerBook)
      (pending : PendingConnectionPlans) (policy : DcutrPolicy) (c : TransportCapabilities)
      → (auto_dial_peer_from_book y x peer own enabled s book pending policy c).2 ≡ dial_started
      → (enabled ≡ true)
        × ((peer == own) ≡ false)
        × (y.is_connected s peer ≡ false)
        × (is_pending pending peer ≡ false)
        × (is_pending (auto_dial_peer_from_book y x peer own enabled s book pending policy c).1 peer
            ≡ true)
  unfolding auto_dial_peer_from_book dial_connection_plan
  auto_dial_peer_from_book-started x peer own enabled s book pending policy c h =
      let plan = build_peer_book_connection_plan_with_capabilities x peer book policy c in
      let d = dial_result y pending plan (dial_attempts_loop y s plan.attempts) in
      let (on, remote, away, idle, same) =
        guarded_lem s pending enabled (peer == own) (y.is_connected s peer)
          (is_pending pending peer) (is_empty plan.attempts) (d.0, d.1, outcome_of y d.2)
          (ap is_started h) in
      (
        on,
        remote,
        away,
        idle,
        subst (λ r. is_pending r.1 peer ≡ true) (sym same)
            (tracked_pending pending plan peer (dial_attempts_loop y s plan.attempts)
              (plan_target x peer book policy c)
              (subst (λ r. is_started r.2 ≡ true) same (ap is_started h))),
      )
