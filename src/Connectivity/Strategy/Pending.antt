-- ===== src/Connectivity/Strategy/Pending.antt =====
-- crates/connectivity/connection_strategy.rs: the plans whose later attempts are still pending.
use p2p_net.Prelude.{
  ℕ, ◌≡◌, refl, Bool, ◌&&◌, Option, none, some, List, [], ◌∷◌, nat_beq, if◌then◌else◌, get_elem?,
  ◌==◌, nat_eq, list_eq, option_eq,
}
use p2p_net.Prelude.Assoc.{lookup, insert, remove, contains_key}
use p2p_net.Common.Multiaddr.{protocol_eq}
use p2p_net.Connectivity.Strategy.Plan.{
  ConnectionAttempt, ConnectionAttemptKind, ConnectionPlan, direct_quic, direct, relay,
}

-- The code of a kind, by which attempts are compared.
abbrev pub kind_code : ConnectionAttemptKind → ℕ
kind_code direct_quic = 0
kind_code direct = 1
kind_code relay = 2

abbrev pub kinds : List ConnectionAttemptKind
kinds = direct_quic ∷ direct ∷ relay ∷ []

pub kind-read : (k : ConnectionAttemptKind) → get_elem? kinds (kind_code k) ≡ some k
kind-read direct_quic = refl
kind-read direct = refl
kind-read relay = refl

-- `==` of two attempts.
abbrev pub same_attempt : ConnectionAttempt → ConnectionAttempt → Bool
same_attempt a b = (a.addr == b.addr) && nat_beq (kind_code a.kind) (kind_code b.kind)

-- The plans whose later attempts are pending, for each peer.
abbrev pub PendingConnectionPlans : Type 0
PendingConnectionPlans = List (ℕ × List ConnectionAttempt)

-- The `filter_map` of `track_remaining`: what follows the attempted one.
unfoldable pub after_attempt : ConnectionAttempt → List ConnectionAttempt → List ConnectionAttempt
after_attempt attempted [] = []
after_attempt attempted (candidate ∷ rest) =
    let later = after_attempt attempted rest in
    if same_attempt candidate attempted then rest else later

abbrev pub track_for :
    Option ℕ → List ConnectionAttempt → PendingConnectionPlans → PendingConnectionPlans
track_for none remaining pending = pending
track_for (some peer) remaining pending = insert peer remaining pending

unfoldable pub track_remaining :
    PendingConnectionPlans → ConnectionPlan → ConnectionAttempt → PendingConnectionPlans
track_remaining pending plan attempted =
    track_for plan.target_peer (after_attempt attempted plan.attempts) pending

-- `pop_front` of the peer's queue, and removal of a queue that is empty then.
abbrev pub pop_queue :
    ℕ
    → Option (List ConnectionAttempt)
    → PendingConnectionPlans
    → PendingConnectionPlans × Option ConnectionAttempt
pop_queue peer none pending = (pending, none)
pop_queue peer (some []) pending = (remove peer pending, none)
pop_queue peer (some (a ∷ [])) pending = (remove peer (insert peer [] pending), some a)
pop_queue peer (some (a ∷ b ∷ rest)) pending = (insert peer (b ∷ rest) pending, some a)

unfoldable pub next_after_failure :
    PendingConnectionPlans → ℕ → PendingConnectionPlans × Option ConnectionAttempt
next_after_failure pending peer = pop_queue peer (lookup peer pending) pending

abbrev pub complete : PendingConnectionPlans → ℕ → PendingConnectionPlans
complete pending peer = remove peer pending

abbrev pub is_pending : PendingConnectionPlans → ℕ → Bool
is_pending pending peer = contains_key peer pending
