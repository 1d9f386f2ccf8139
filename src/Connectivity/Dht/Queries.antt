-- ===== src/Connectivity/Dht/Queries.antt =====
-- crates/connectivity/dht/state.rs: the queries in progress and the times of the last ones, which
-- say whether a namespace is announced, queried, published or looked up again.
use p2p_net.Prelude.{
  ℕ, ◌-◌, max, ◌≡◌, ◌↔◌, Bool, true, false, not, ◌&&◌, ◌||◌, Option, none, some, List, [], ◌∷◌,
  arith, leb, if◌then◌else◌, Eq, ◌==◌, ==_iff, nat_eq, list_eq, option_eq,
}
use p2p_net.Prelude.Assoc.{lookup, insert, remove, mem}
use p2p_net.Common.Text.{Text}
use p2p_net.Connectivity.Dht.State.{
  DhtProviderState, auto_connect_retry_cooldown_secs, provider_addr_lookup_cooldown_secs,
}

-- The tables are keyed by a namespace, a peer or both.
abbrev pub peer_namespace_test : ℕ × Text → ℕ × Text → Bool
peer_namespace_test a b = (a.0 == b.0) && (a.1 == b.1)

pub peer_namespace_test_iff : (a b : ℕ × Text) → (peer_namespace_test a b ≡ true) ↔ (a ≡ b)
peer_namespace_test_iff a b = ground (arith, ==_iff a.0 b.0, ==_iff a.1 b.1)

instance abbrev pub peer_namespace_eq : Eq (ℕ × Text)
peer_namespace_eq = record { test = peer_namespace_test; test_iff = peer_namespace_test_iff }

-- `values().any(..)`.
unfoldable pub any_value {ℓ} : {V : Type ℓ} → (V → Bool) → List (ℕ × V) → Bool
any_value p [] = false
any_value p ((k, v) ∷ m) = p v || any_value p m

-- Is the time since the last one, if there was one, at least the interval?
abbrev pub is_due : ℕ → ℕ → Option ℕ → Bool
is_due now interval none = true
is_due now interval (some last) = leb interval (now - last)

abbrev pub differs : Text → Option Text → Bool
differs fingerprint none = true
differs fingerprint (some known) = not (known == fingerprint)

unfoldable pub should_publish_address_record : ℕ → DhtProviderState → Text → Text → ℕ → Bool
should_publish_address_record now s namespace fingerprint refresh_interval_secs =
    if any_value (λ q. q.0 == namespace) s.address_record_put_queries
    then false
    else if differs fingerprint (lookup namespace s.address_record_last_fingerprint)
    then true
    else is_due now (max refresh_interval_secs 1)
        (lookup namespace s.address_record_published_unix_secs)

unfoldable pub track_put_address_record : DhtProviderState → ℕ → Text → Text → DhtProviderState
track_put_address_record s id namespace fingerprint = record s {
  address_record_put_queries = insert id (namespace, fingerprint) s.address_record_put_queries;
}

-- What a completed put leaves, for the query that is found.
abbrev pub complete_put :
    ℕ → ℕ → Bool → Option (Text × Text) → DhtProviderState → DhtProviderState × Option Text
complete_put now id success none s = (s, none)
complete_put now id false (some (namespace, fingerprint)) s = (
  record s { address_record_put_queries = remove id s.address_record_put_queries },
  some namespace,
)
complete_put now id true (some (namespace, fingerprint)) s = (
  record s {
    address_record_put_queries = remove id s.address_record_put_queries;
    address_record_last_fingerprint =
        insert namespace fingerprint s.address_record_last_fingerprint;
    address_record_published_unix_secs = insert namespace now s.address_record_published_unix_secs;
  },
  some namespace,
)

unfoldable pub complete_put_address_record :
    ℕ → DhtProviderState → ℕ → Bool → DhtProviderState × Option Text
complete_put_address_record now s id success =
    complete_put now id success (lookup id s.address_record_put_queries) s

unfoldable pub should_lookup_address_record : ℕ → DhtProviderState → ℕ → Text → Bool
should_lookup_address_record now s peer namespace =
    if any_value (λ q. (q.0 == peer) && (q.1 == namespace)) s.address_record_get_queries
    then false
    else is_due now auto_connect_retry_cooldown_secs
        (lookup (peer, namespace) s.address_record_lookup_started_unix_secs)

unfoldable pub track_get_address_record : ℕ → DhtProviderState → ℕ → ℕ → Text → DhtProviderState
track_get_address_record now s id peer namespace = record s {
  address_record_lookup_started_unix_secs =
      insert (peer, namespace) now s.address_record_lookup_started_unix_secs;
  address_record_get_queries = insert id (peer, namespace) s.address_record_get_queries;
}

abbrev pub address_record_lookup : DhtProviderState → ℕ → Option (ℕ × Text)
address_record_lookup s id = lookup id s.address_record_get_queries

unfoldable pub complete_get_address_record :
    DhtProviderState → ℕ → DhtProviderState × Option (ℕ × Text)
complete_get_address_record s id = (
  record s { address_record_get_queries = remove id s.address_record_get_queries },
  lookup id s.address_record_get_queries,
)

abbrev pub track_start_providing_for_key : DhtProviderState → ℕ → Text → Text → DhtProviderState
track_start_providing_for_key s id namespace query_key = record s {
  start_providing_queries = insert id namespace s.start_providing_queries;
  start_providing_query_keys = insert id query_key s.start_providing_query_keys;
}

abbrev pub complete_start_providing : DhtProviderState → ℕ → DhtProviderState × Option Text
complete_start_providing s id = (
  record s {
    start_providing_query_keys = remove id s.start_providing_query_keys;
    start_providing_queries = remove id s.start_providing_queries;
  },
  lookup id s.start_providing_queries,
)

abbrev pub track_get_providers_for_key : DhtProviderState → ℕ → Text → Text → DhtProviderState
track_get_providers_for_key s id namespace query_key = record s {
  get_provider_queries = insert id namespace s.get_provider_queries;
  get_provider_query_keys = insert id query_key s.get_provider_query_keys;
}

abbrev pub provider_namespace : DhtProviderState → ℕ → Option Text
provider_namespace s id = lookup id s.get_provider_queries

abbrev pub complete_get_providers : DhtProviderState → ℕ → DhtProviderState × Option Text
complete_get_providers s id = (
  record s {
    get_provider_query_keys = remove id s.get_provider_query_keys;
    get_provider_queries = remove id s.get_provider_queries;
  },
  lookup id s.get_provider_queries,
)

unfoldable pub should_announce_key : DhtProviderState → Text → Text → ℕ → ℕ → Bool
should_announce_key s query_key namespace now refresh_interval_secs =
    if any_value (λ k. k == query_key) s.start_providing_query_keys
    then false
    else if not (mem namespace s.namespaces_announced)
    then true
    else is_due now refresh_interval_secs (lookup query_key s.provider_announce_started_unix_secs)

unfoldable pub should_query_key : DhtProviderState → Text → ℕ → ℕ → Bool
should_query_key s query_key now refresh_interval_secs =
    if any_value (λ k. k == query_key) s.get_provider_query_keys
    then false
    else is_due now refresh_interval_secs (lookup query_key s.provider_query_started_unix_secs)

unfoldable pub start_provider_addr_lookup : DhtProviderState → ℕ → ℕ → ℕ → DhtProviderState
start_provider_addr_lookup s id peer now = record s {
  provider_addr_lookup_queries = insert id peer s.provider_addr_lookup_queries;
  provider_addr_lookup_started_unix_secs = insert peer now s.provider_addr_lookup_started_unix_secs;
}

abbrev pub provider_addr_lookup_peer : DhtProviderState → ℕ → Option ℕ
provider_addr_lookup_peer s id = lookup id s.provider_addr_lookup_queries

unfoldable pub complete_provider_addr_lookup : DhtProviderState → ℕ → DhtProviderState × Option ℕ
complete_provider_addr_lookup s id = (
  record s { provider_addr_lookup_queries = remove id s.provider_addr_lookup_queries },
  lookup id s.provider_addr_lookup_queries,
)

unfoldable pub should_lookup_provider_addrs : DhtProviderState → ℕ → ℕ → Bool
should_lookup_provider_addrs s peer now =
    if any_value (λ p. p == peer) s.provider_addr_lookup_queries
    then false
    else is_due now provider_addr_lookup_cooldown_secs
        (lookup peer s.provider_addr_lookup_started_unix_secs)

-- `start_provider_addr_lookup_if_due`; `query` is Kademlia's `get_closest_peers`, with the id that
-- it gives to the query.
module _ {Swarm : Type 0} (query : Swarm → ℕ → Swarm × ℕ) where
  unfoldable pub start_provider_addr_lookup_if_due :
      ℕ → DhtProviderState → Swarm → ℕ → DhtProviderState × Swarm × Bool
  start_provider_addr_lookup_if_due now s swarm peer =
      let (after, id) = query swarm peer in
      if not (should_lookup_provider_addrs s peer now)
      then (s, swarm, false)
      else (start_provider_addr_lookup s id peer now, after, true)
