-- ===== src/Connectivity/Dht/State.antt =====
-- crates/connectivity/dht/state.rs: the providers that were found and the policy of automatic
-- connections. Query ids are numbers, and each method that reads the clock takes the time in
-- seconds. A set with its queue is one field here; the cache of provider keys is left out.
use p2p_net.Prelude.{
  ℕ, ◌-◌, Bool, true, false, not, ◌&&◌, ◌||◌, Option, none, some, List, [], ◌∷◌, ◌++◌, ltb, leb,
  nat_beq, if◌then◌else◌, length, saturating_add32, ◌==◌, nat_eq, list_eq, option_eq,
}
use p2p_net.Prelude.Assoc.{lookup, insert, remove, mem, contains_key}
use p2p_net.Prelude.HashSet.{retain, set_insert}
use p2p_net.Prelude.OrderedSet.{text_ord, include}
use p2p_net.Common.Text.{Text}
use p2p_net.Connectivity.BoundedSet.{Bounded, bounded, remove_peer_from_bounded_set, prune_peer_set}

abbrev pub max_tracked_provider_peers : ℕ
max_tracked_provider_peers = 2048

abbrev pub provider_addr_lookup_cooldown_secs : ℕ
provider_addr_lookup_cooldown_secs = 30

abbrev pub auto_connect_retry_cooldown_secs : ℕ
auto_connect_retry_cooldown_secs = 5

abbrev pub auto_connect_retry_window_secs : ℕ
auto_connect_retry_window_secs = 300

abbrev pub max_auto_connect_attempts_per_window : ℕ
max_auto_connect_attempts_per_window = 8

pub record AutoConnectRetryState : Type 0 where
  pub attempts : ℕ
  pub window_started_unix_secs : ℕ
  pub last_attempt_unix_secs : ℕ

abbrev pub default_retry : AutoConnectRetryState
default_retry = record { attempts = 0; window_started_unix_secs = 0; last_attempt_unix_secs = 0 }

-- A table of peers with the order in which they entered.
pub record Ordered (V : Type 0) : Type 0 where
  pub table : List (ℕ × V)
  pub order : List ℕ

pub record DhtProviderState : Type 0 where
  pub namespaces_announced : List Text
  pub discovered_provider_peers : Ordered (List Text)
  pub auto_connect_attempted_peers : Bounded ℕ
  pub auto_connect_waiting_for_addrs : Bounded ℕ
  pub auto_connect_retry : Ordered AutoConnectRetryState
  pub provider_announce_started_unix_secs : List (Text × ℕ)
  pub provider_query_started_unix_secs : List (Text × ℕ)
  pub provider_addr_lookup_started_unix_secs : List (ℕ × ℕ)
  pub start_providing_queries : List (ℕ × Text)
  pub start_providing_query_keys : List (ℕ × Text)
  pub get_provider_queries : List (ℕ × Text)
  pub get_provider_query_keys : List (ℕ × Text)
  pub provider_addr_lookup_queries : List (ℕ × ℕ)
  pub address_record_put_queries : List (ℕ × (Text × Text))
  pub address_record_get_queries : List (ℕ × (ℕ × Text))
  pub address_record_last_fingerprint : List (Text × Text)
  pub address_record_published_unix_secs : List (Text × ℕ)
  pub address_record_lookup_started_unix_secs : List ((ℕ × Text) × ℕ)

-- `remove_peer_from_bounded_set` on the two sets.
abbrev pub forget_attempted : ℕ → DhtProviderState → DhtProviderState
forget_attempted peer s = record s {
  auto_connect_attempted_peers =
      (remove_peer_from_bounded_set peer s.auto_connect_attempted_peers).0;
}

abbrev pub forget_waiting : ℕ → DhtProviderState → DhtProviderState
forget_waiting peer s = record s {
  auto_connect_waiting_for_addrs =
      (remove_peer_from_bounded_set peer s.auto_connect_waiting_for_addrs).0;
}

-- What is forgotten with a provider that is evicted.
abbrev pub forget_provider : ℕ → DhtProviderState → DhtProviderState
forget_provider peer s = record (forget_waiting peer (forget_attempted peer s)) {
  provider_addr_lookup_started_unix_secs = remove peer s.provider_addr_lookup_started_unix_secs;
  provider_addr_lookup_queries = retain (λ q. not (q.1 == peer)) s.provider_addr_lookup_queries;
  address_record_lookup_started_unix_secs =
      retain (λ q. not (q.0.0 == peer)) s.address_record_lookup_started_unix_secs;
  address_record_get_queries = retain (λ q. not (q.1.0 == peer)) s.address_record_get_queries;
}

abbrev pub set_discovered : List (ℕ × List Text) → List ℕ → DhtProviderState → DhtProviderState
set_discovered table order s = record s {
  discovered_provider_peers = record { table = table; order = order };
}

-- The loop of `prune_provider_tracking`, along the queue.
unfoldable pub prune_providers : List (ℕ × List Text) → List ℕ → DhtProviderState → DhtProviderState
prune_providers table [] s = set_discovered table [] s
prune_providers table (evicted ∷ order) s =
    let rest =
      prune_providers (remove evicted table) order
        (if contains_key evicted table then forget_provider evicted s else s) in
    if ltb max_tracked_provider_peers (length table)
    then rest
    else set_discovered table (evicted ∷ order) s

unfoldable pub prune_provider_tracking : DhtProviderState → DhtProviderState
prune_provider_tracking s =
    prune_providers s.discovered_provider_peers.table s.discovered_provider_peers.order s

abbrev pub namespaces_of : Option (List Text) → List Text
namespaces_of none = []
namespaces_of (some namespaces) = namespaces

unfoldable pub record_provider_peer : DhtProviderState → ℕ → Text → DhtProviderState × Bool
record_provider_peer s peer namespace =
    let table = s.discovered_provider_peers.table in
    let order = s.discovered_provider_peers.order in
    let known = namespaces_of (lookup peer table) in
    let next = insert peer (include namespace known) table in
    (
      if contains_key peer table
          then set_discovered next order s
          else prune_provider_tracking (set_discovered next (order ++ peer ∷ []) s),
      not (mem namespace known),
    )

abbrev pub retry_or_default : Option AutoConnectRetryState → AutoConnectRetryState
retry_or_default none = default_retry
retry_or_default (some retry) = retry

-- One more attempt, in a new window if there is none or it is over.
unfoldable pub count_attempt : ℕ → AutoConnectRetryState → AutoConnectRetryState
count_attempt now retry =
    if nat_beq retry.window_started_unix_secs 0
      || leb auto_connect_retry_window_secs (now - retry.window_started_unix_secs)
    then record {
      attempts = saturating_add32 0 1;
      window_started_unix_secs = now;
      last_attempt_unix_secs = now;
    }
    else record retry { attempts = saturating_add32 retry.attempts 1; last_attempt_unix_secs = now }

-- The loop that bounds the history of retries.
unfoldable pub evict_retries :
    List (ℕ × AutoConnectRetryState) → List ℕ → Ordered AutoConnectRetryState
evict_retries table [] = record { table = table; order = [] }
evict_retries table (evicted ∷ order) =
    let rest = evict_retries (remove evicted table) order in
    if ltb max_tracked_provider_peers (length table)
    then rest
    else record { table = table; order = evicted ∷ order }

unfoldable pub note_attempt : ℕ → ℕ → Ordered AutoConnectRetryState → Ordered AutoConnectRetryState
note_attempt now peer retries =
    evict_retries
      (insert peer (count_attempt now (retry_or_default (lookup peer retries.table))) retries.table)
      (if contains_key peer retries.table then retries.order else retries.order ++ peer ∷ [])

-- `insert` into a set, and where the peer is new, its place in the queue and the bound.
unfoldable pub enter : ℕ → Bounded ℕ → Bounded ℕ
enter peer s =
    if mem peer s.members
    then s
    else prune_peer_set max_tracked_provider_peers
        (bounded (set_insert peer s.members) (s.order ++ peer ∷ []))

unfoldable pub mark_auto_connect_attempted : ℕ → DhtProviderState → ℕ → DhtProviderState × Bool
mark_auto_connect_attempted now s peer =
    let known = mem peer s.auto_connect_attempted_peers.members in
    (
      record (forget_waiting peer s) {
        auto_connect_attempted_peers = enter peer s.auto_connect_attempted_peers;
        auto_connect_retry =
            if known then s.auto_connect_retry else note_attempt now peer s.auto_connect_retry;
      },
      not known,
    )

unfoldable pub mark_auto_connect_waiting_for_addrs : DhtProviderState → ℕ → DhtProviderState × Bool
mark_auto_connect_waiting_for_addrs s peer =
    if mem peer s.auto_connect_attempted_peers.members then (s, false) else (
      record s { auto_connect_waiting_for_addrs = enter peer s.auto_connect_waiting_for_addrs },
      not (mem peer s.auto_connect_waiting_for_addrs.members),
    )

unfoldable pub mark_auto_connect_failed : DhtProviderState → ℕ → DhtProviderState × Bool
mark_auto_connect_failed s peer =
    (forget_attempted peer (forget_waiting peer s), mem peer s.auto_connect_attempted_peers.members)

unfoldable pub mark_auto_connect_disconnected : DhtProviderState → ℕ → DhtProviderState
mark_auto_connect_disconnected s peer = forget_attempted peer (forget_waiting peer s)

-- The decision on a retry and the history after it, for what the history has of the peer.
abbrev pub decide_retry :
    ℕ
    → ℕ
    → Option AutoConnectRetryState
    → Ordered AutoConnectRetryState
    → Ordered AutoConnectRetryState × Bool
decide_retry now peer none retries = (retries, true)
decide_retry now peer (some retry) retries =
    if leb auto_connect_retry_window_secs (now - retry.window_started_unix_secs)
    then (
      record retries {
        table = insert peer (record default_retry { window_started_unix_secs = now }) retries.table;
      },
      true,
    )
    else (
      retries,
      ltb retry.attempts max_auto_connect_attempts_per_window
          && leb auto_connect_retry_cooldown_secs (now - retry.last_attempt_unix_secs),
    )

unfoldable pub auto_connect_retry_allowed : ℕ → DhtProviderState → ℕ → DhtProviderState × Bool
auto_connect_retry_allowed now s peer =
    let (retries, allowed) =
      decide_retry now peer (lookup peer s.auto_connect_retry.table) s.auto_connect_retry in
    if mem peer s.auto_connect_attempted_peers.members
    then (s, false)
    else (record s { auto_connect_retry = retries }, allowed)

unfoldable pub should_auto_connect_provider_result :
    ℕ → DhtProviderState → ℕ → DhtProviderState × Bool
should_auto_connect_provider_result now s peer =
    let decided = auto_connect_retry_allowed now s peer in
    if mem peer s.auto_connect_waiting_for_addrs.members then (s, false) else decided

abbrev pub should_auto_connect_after_addr_update :
    ℕ → DhtProviderState → ℕ → DhtProviderState × Bool
should_auto_connect_after_addr_update now s peer = auto_connect_retry_allowed now s peer
