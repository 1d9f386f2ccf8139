-- ===== src/Tests/Dht.antt =====
-- A node without searches, which tries to connect to one provider.
use p2p_net.Prelude.{ℕ, ◌+◌, ◌≡◌, refl, true, some, [], ◌∷◌, arith, nat_eq, list_eq, option_eq}
use p2p_net.Prelude.Assoc.{lookup, mem}
use p2p_net.Common.Text.{codes}
use p2p_net.Connectivity.BoundedSet.{bounded}
use p2p_net.Connectivity.Dht.State.{
  DhtProviderState, AutoConnectRetryState, count_attempt, record_provider_peer,
  mark_auto_connect_attempted, mark_auto_connect_failed, auto_connect_retry_allowed,
}
use p2p_net.Connectivity.Dht.Consistent.{IsConsistent}
use p2p_net.Connectivity.Dht.Histories.{IsTracked, Step, Step-IsTracked}
use p2p_net.Connectivity.Dht.Retry.{IsLimited, IsAttempt, auto_connect_retry_allowed-failed}
use p2p_net.Node.Dial.{AutoDialOutcome, AutoDialStats, dial_failed}
use p2p_net.Node.AutoConnect.{
  AutoDialCandidate, maybe_auto_dial_dht_providers, maybe_auto_dial_dht_providers-IsLimited,
}

abbrev no_searches : DhtProviderState
no_searches = record {
  namespaces_announced = [];
  discovered_provider_peers = record { table = []; order = [] };
  auto_connect_attempted_peers = bounded [] [];
  auto_connect_waiting_for_addrs = bounded [] [];
  auto_connect_retry = record { table = []; order = [] };
  provider_announce_started_unix_secs = [];
  provider_query_started_unix_secs = [];
  provider_addr_lookup_started_unix_secs = [];
  start_providing_queries = [];
  start_providing_query_keys = [];
  get_provider_queries = [];
  get_provider_query_keys = [];
  provider_addr_lookup_queries = [];
  address_record_put_queries = [];
  address_record_get_queries = [];
  address_record_last_fingerprint = [];
  address_record_published_unix_secs = [];
  address_record_lookup_started_unix_secs = [];
}

no_searches-IsConsistent : IsConsistent no_searches
unfolding mem
no_searches-IsConsistent = record {
  attempted = (refl, tt, omega arith);
  waiting = (refl, tt, omega arith);
  apart = λ q. refl;
  retries = record { same = refl; distinct = tt; bounded = omega arith };
}

no_searches-IsTracked : IsTracked no_searches
no_searches-IsTracked = record {
  policy = no_searches-IsConsistent;
  providers = record { same = refl; distinct = tt; bounded = omega arith };
}

Step-IsTracked_example : IsTracked (record_provider_peer no_searches 7 (codes "chat")).0
Step-IsTracked_example =
    Step-IsTracked no_searches (record_provider_peer no_searches 7 (codes "chat")).0
      (Step.provider 7 (codes "chat")) no_searches-IsTracked

-- An attempt one second before its window ends is repeated one second later, within the cooldown.
abbrev one_attempt : AutoConnectRetryState
one_attempt = record {
  attempts = 1;
  window_started_unix_secs = 1000;
  last_attempt_unix_secs = 1000;
}

abbrev two_attempts : AutoConnectRetryState
two_attempts = record {
  attempts = 2;
  window_started_unix_secs = 1000;
  last_attempt_unix_secs = 1299;
}

abbrev near_the_end : DhtProviderState
near_the_end = record no_searches {
  auto_connect_retry = record { table = (7, one_attempt) ∷ []; order = 7 ∷ [] };
}

near_the_end-IsConsistent : IsConsistent near_the_end
unfolding mem
near_the_end-IsConsistent = record {
  attempted = (refl, tt, omega arith);
  waiting = (refl, tt, omega arith);
  apart = λ q. refl;
  retries = record { same = refl; distinct = (refl, tt); bounded = omega arith };
}

auto_connect_retry_allowed-failed_example :
    IsAttempt 1299 one_attempt two_attempts
    × (lookup 7
          (mark_auto_connect_failed
            (mark_auto_connect_attempted 1299 near_the_end 7).0
            7).0.auto_connect_retry.table
        ≡ some two_attempts)
    × ((auto_connect_retry_allowed 1300
          (mark_auto_connect_failed (mark_auto_connect_attempted 1299 near_the_end 7).0 7).0
          7).1
        ≡ true)
unfolding mem lookup count_attempt
auto_connect_retry_allowed-failed_example =
    auto_connect_retry_allowed-failed 1299 1300 near_the_end 7 near_the_end-IsConsistent refl

abbrev no_dials : AutoDialStats
no_dials = record {
  dial_attempts = 0;
  dial_failures = 0;
  awaiting_address_peers = bounded [] [];
  suppressed_peers = bounded [] [];
}

-- Every dial fails; the world counts them.
abbrev failing : ℕ → ℕ → ℕ × AutoDialOutcome
failing dials peer = (dials + 1, dial_failed)

abbrev candidate : ℕ → AutoDialCandidate
candidate now = record { peer = 7; address_updated = true; asked = now; noted = now }

maybe_auto_dial_dht_providers-IsLimited_example :
    IsLimited
      (maybe_auto_dial_dht_providers failing
        (no_searches, no_dials, 0)
        (candidate 100 ∷ candidate 103 ∷ candidate 106 ∷ [])).0
maybe_auto_dial_dht_providers-IsLimited_example =
    maybe_auto_dial_dht_providers-IsLimited failing (no_searches, no_dials, 0)
      (candidate 100 ∷ candidate 103 ∷ candidate 106 ∷ []) tt
