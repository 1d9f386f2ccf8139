-- ===== src/Protocol/AppSecurity/Replay.antt =====
-- No application message is accepted twice.
use p2p_net.Prelude.{
  ℕ, ◌+◌, ◌-◌, ◌≤◌, ◌<◌, ◌≡◌, ◌≢◌, refl, ap, Bool, true, Option, none, some, List, [], ◌∷◌,
  if◌then◌else◌, arith, All, Option-cases, inl, inr, u64_max, saturating_mul,
}
use p2p_net.Common.Error.{ok}
use p2p_net.Common.Text.{Text}
use p2p_net.Api.Message.{AppMessage}
use p2p_net.Protocol.Config.{MessageSecurityConfig, Covers, validate, validate-Covers}
use p2p_net.Protocol.ReplayCache.{ns_per_sec, new, check_and_insert}
use p2p_net.Protocol.ReplayCache.Window.{IsValid}
use p2p_net.Protocol.ReplayCache.Survival.{run, inserted, replay_detected, run-IsValid, run-limits}
use p2p_net.Protocol.AppSecurity.{
  AppMessageSecurityDecision, accept, ignore_duplicate, AppReplayKey, key_eq, AppMessageReplayCache,
  new_cache, is_fresh, replay_key, validate_app_message_security,
}

-- A message as it arrives: from an authenticated source, at a time of the local clock.
pub record Arrival : Type 0 where
  pub source : ℕ
  pub message : AppMessage
  pub now_ns : ℕ

-- A message that is fresh both times came back within the time to live of the cache.
fresh_within_ttl :
    (cfg : MessageSecurityConfig) (timestamp_ns first_ns now_ns : ℕ)
    → Covers cfg.max_app_message_age_secs cfg.max_app_message_future_skew_secs
        cfg.app_replay_cache_capacity cfg.app_replay_cache_ttl_secs
    → is_fresh cfg timestamp_ns first_ns ≡ true
    → is_fresh cfg timestamp_ns now_ns ≡ true
    → now_ns ≤ u64_max
    → now_ns - first_ns ≤ saturating_mul cfg.app_replay_cache_ttl_secs ns_per_sec
unfolding is_fresh
fresh_within_ttl cfg timestamp_ns first_ns now_ns v f1 f2 small = ground arith

module _ (hex_decode : Text → Option (List ℕ)) (cfg : MessageSecurityConfig) where
  abbrev pub receive :
      AppMessageReplayCache → Arrival → AppMessageReplayCache × AppMessageSecurityDecision
  receive c a = validate_app_message_security hex_decode a.source a.message a.now_ns cfg c

  -- The cache after a series of arrivals, and how many of them were accepted.
  unfoldable pub receive_all : AppMessageReplayCache → List Arrival → AppMessageReplayCache
  receive_all c [] = c
  receive_all c (a ∷ arrivals) = receive_all (receive c a).0 arrivals

  abbrev count_accept : AppMessageSecurityDecision → ℕ
  count_accept accept = 1
  count_accept _ = 0

  unfoldable pub accepted : AppMessageReplayCache → List Arrival → ℕ
  accepted c [] = 0
  accepted c (a ∷ arrivals) = count_accept (receive c a).1 + accepted (receive c a).0 arrivals

  -- The calls of the cache that a series of arrivals makes.
  calls : List Arrival → List (AppReplayKey × ℕ)
  calls [] = []
  calls (a ∷ arrivals) = elim (replay_key hex_decode a.source a.message a.now_ns cfg) [
    | none ↦ calls arrivals
    | some key ↦ (key, a.now_ns) ∷ calls arrivals
  ]

  receive_all-run :
      (arrivals : List Arrival) (c : AppMessageReplayCache)
      → (receive_all c arrivals ≡ run c (calls arrivals))
        × (accepted c arrivals ≡ inserted c (calls arrivals))
  unfolding receive_all accepted calls run inserted validate_app_message_security
  receive_all-run [] c = (refl, refl)
  receive_all-run (a ∷ arrivals) c =
      elim (Option-cases (replay_key hex_decode a.source a.message a.now_ns cfg)) [
        | inl refused ↦
            rw (refused, validate_app_message_security, calls)
              ((receive_all-run arrivals c).0, omega (arith, (receive_all-run arrivals c).1))
        | inr (key, e) ↦
            rw (e, validate_app_message_security, calls)
              (next (check_and_insert c key a.now_ns).0 (check_and_insert c key a.now_ns).1
                (receive_all-run arrivals (check_and_insert c key a.now_ns).0))
      ]
    where
      next :
          (c' : AppMessageReplayCache) (is_new : Bool)
          → (receive_all c' arrivals ≡ run c' (calls arrivals))
            × (accepted c' arrivals ≡ inserted c' (calls arrivals))
          → (receive_all c' arrivals ≡ run c' (calls arrivals))
            × (count_accept (if is_new then accept else ignore_duplicate) + accepted c' arrivals
                ≡ (if is_new then 1 else 0) + inserted c' (calls arrivals))
      next c' is_new ih = ground arith

  All-calls :
      (t limit : ℕ) (arrivals : List Arrival)
      → All (λ a. a.now_ns - t ≤ limit) arrivals
      → All (λ call. call.1 - t ≤ limit) (calls arrivals)
  unfolding calls
  All-calls t limit [] h = tt
  All-calls t limit (a ∷ arrivals) h =
      elim (Option-cases (replay_key hex_decode a.source a.message a.now_ns cfg)) [
        | inl refused ↦ rw (refused, calls) (All-calls t limit arrivals h.1)
        | inr (key, e) ↦ rw (e, calls) (h.0, All-calls t limit arrivals h.1)
      ]

  new_cache-IsValid : IsValid (new_cache cfg)
  unfolding new_cache
  new_cache-IsValid = record {
    in_order = refl;
    distinct = tt;
    bounded = omega arith;
    positive = omega arith;
  }

  new_cache-room : cfg.app_replay_cache_capacity ≤ (new_cache cfg).capacity
  unfolding new_cache
  new_cache-room = omega arith

  new_cache-life : (new_cache cfg).ttl_ns ≡ saturating_mul cfg.app_replay_cache_ttl_secs ns_per_sec
  unfolding new_cache
  new_cache-life = refl

  -- An accepted message has a key, which the cache found new.
  accept-inserts :
      (c : AppMessageReplayCache) (a : Arrival)
      → (receive c a).1 ≡ accept
      → (key : AppReplayKey) × (replay_key hex_decode a.source a.message a.now_ns cfg ≡ some key)
        × ((check_and_insert c key a.now_ns).1 ≡ true)
        × ((receive c a).0 ≡ (check_and_insert c key a.now_ns).0)
  unfolding validate_app_message_security
  accept-inserts c a = elim (Option-cases (replay_key hex_decode a.source a.message a.now_ns cfg)) [
    | inl refused ↦ rw (refused, validate_app_message_security) (λ h. cc)
    | inr (key, e) ↦ rw (e, validate_app_message_security) (λ h. (key, refl, ground arith, refl))
  ]

  -- The key of a message does not depend on the time, and a message that has one is fresh.
  replay_key-same :
      (source : ℕ) (m : AppMessage) (t u : ℕ) {k j : AppReplayKey}
      → replay_key hex_decode source m t cfg ≡ some k
      → replay_key hex_decode source m u cfg ≡ some j
      → (k ≡ j) × (is_fresh cfg m.timestamp_ns t ≡ true) × (is_fresh cfg m.timestamp_ns u ≡ true)
  unfolding replay_key
  replay_key-same source m t u p q = ground arith

  ordered-young :
      (t again_ns limit : ℕ) (arrivals : List Arrival)
      → again_ns - t ≤ limit
      → All (λ b. b.now_ns ≤ again_ns) arrivals
      → All (λ b. b.now_ns - t ≤ limit) arrivals
  ordered-young t again_ns limit [] h o = tt
  ordered-young t again_ns limit (b ∷ arrivals) h o =
      (omega (arith, o.0), ordered-young t again_ns limit arrivals h o.1)

  -- The same at any valid cache with the limits of the configuration.
  not_twice :
      (c : AppMessageReplayCache) (later : List Arrival) (a : Arrival) (again_ns : ℕ)
      → validate cfg ≡ ok tt
      → IsValid c
      → cfg.app_replay_cache_capacity ≤ c.capacity
      → c.ttl_ns ≡ saturating_mul cfg.app_replay_cache_ttl_secs ns_per_sec
      → (receive c a).1 ≡ accept
      → accepted (receive c a).0 later < cfg.app_replay_cache_capacity
      → All (λ b. b.now_ns ≤ again_ns) later
      → again_ns ≤ u64_max
      → (receive (receive_all (receive c a).0 later) (record a { now_ns = again_ns })).1 ≢ accept
  not_twice c later a again_ns valid v room life first few ordered small second =
      let (key, e1, new, after) = accept-inserts c a first in
      let (key', e2, new', _) =
        accept-inserts (receive_all (receive c a).0 later) (record a { now_ns = again_ns })
          second in
      let (same, fresh, fresh') = replay_key-same a.source a.message a.now_ns again_ns e1 e2 in
      let young =
        fresh_within_ttl cfg a.message.timestamp_ns a.now_ns again_ns (validate-Covers cfg valid).1
          fresh fresh' small in
      let last : again_ns - a.now_ns ≤ c.ttl_ns = omega (arith, life, young) in
      let c' = (check_and_insert c key a.now_ns).0 in
      let (runs, counts) = receive_all-run later c' in
      let few' : inserted c' (calls later) < c.capacity =
        omega (arith, counts, room, few, ap (λ d. accepted d later) after) in
      let known =
        replay_detected c key a.now_ns again_ns (calls later) v new few'
          (All-calls a.now_ns c.ttl_ns later
            (ordered-young a.now_ns again_ns c.ttl_ns later last ordered))
          last in
      cc (known, new', same, runs, after)

  -- With a configuration that passes its checks, a message that was accepted once is not accepted
  -- again from the same source: not after any number of earlier arrivals, nor after later ones, if
  -- fewer than the cache's capacity of those were accepted and the clock did not run past the time
  -- of the second arrival, which fits 64 bits, before it.
  pub never_accepted_twice :
      (earlier later : List Arrival) (a : Arrival) (again_ns : ℕ)
      → validate cfg ≡ ok tt
      → let c = receive_all (new_cache cfg) earlier in
        (receive c a).1 ≡ accept
        → accepted (receive c a).0 later < cfg.app_replay_cache_capacity
        → All (λ b. b.now_ns ≤ again_ns) later
        → again_ns ≤ u64_max
        → (receive (receive_all (receive c a).0 later) (record a { now_ns = again_ns })).1 ≢ accept
  never_accepted_twice earlier later a again_ns valid =
      let (runs, _) = receive_all-run earlier (new_cache cfg) in
      let (size, life) = run-limits (calls earlier) (new_cache cfg) in
      let v = run-IsValid (calls earlier) (new_cache cfg) new_cache-IsValid in
      not_twice (receive_all (new_cache cfg) earlier) later a again_ns valid (rw runs v)
        (rw (runs, size) new_cache-room) (rw (runs, life) new_cache-life)
