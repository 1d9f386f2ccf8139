-- ===== src/Protocol/Heartbeat/Replay.antt =====
-- No heartbeat is accepted twice.
use p2p_net.Prelude.{
  ℕ, ◌+◌, ◌-◌, ◌≤◌, ◌<◌, ◌≡◌, ◌≢◌, refl, sym, ap, ◌∙◌, Bool, true, false, Option, none, some, List,
  [], ◌∷◌, if◌then◌else◌, ltb, length, arith, All, Option-cases, Bool-cases, inl, inr, u64_max,
  saturating_mul,
}
use p2p_net.Common.Error.{Result, ok, err, Result-cases}
use p2p_net.Protocol.Config.{MessageSecurityConfig, Covers, validate, validate-Covers}
use p2p_net.Protocol.ReplayCache.{ns_per_sec, new, check_and_insert}
use p2p_net.Protocol.ReplayCache.Window.{IsValid}
use p2p_net.Protocol.ReplayCache.Survival.{run, inserted, replay_detected, run-IsValid, run-limits}
use p2p_net.Protocol.Heartbeat.{
  HeartbeatEnvelope, HeartbeatExternals, HeartbeatValidationDecision, accept, reject,
  ignore_duplicate, reject_oversize, HeartbeatReplayKey, key_eq, HeartbeatReplayCache, new_cache,
  decode_heartbeat_wire, is_timely, verify_heartbeat_with_config, replay_key, check_heartbeat,
  validate_heartbeat_wire,
}

-- A frame as it arrives: from an authenticated source, at a time of the local clock.
pub record Arrival : Type 0 where
  pub source : ℕ
  pub wire : List ℕ
  pub now_ns : ℕ

abbrev count_accept : HeartbeatValidationDecision → ℕ
count_accept accept = 1
count_accept _ = 0

count_if : (b : Bool) → count_accept (if b then accept else ignore_duplicate) ≡ (if b then 1 else 0)
count_if true = refl
count_if false = refl

if_accept : (b : Bool) → (if b then accept else ignore_duplicate) ≡ accept → b ≡ true
if_accept true h = refl
if_accept false h = cc

module _ (x : HeartbeatExternals) (cfg : MessageSecurityConfig) where
  abbrev pub receive :
      HeartbeatReplayCache → Arrival → HeartbeatReplayCache × HeartbeatValidationDecision
  receive c a =
      let r = validate_heartbeat_wire x a.source a.wire a.now_ns cfg c in (r.0, r.1.decision)

  -- The cache after a series of arrivals, and how many of them were accepted.
  unfoldable pub receive_all : HeartbeatReplayCache → List Arrival → HeartbeatReplayCache
  receive_all c [] = c
  receive_all c (a ∷ arrivals) = receive_all (receive c a).0 arrivals

  unfoldable pub accepted : HeartbeatReplayCache → List Arrival → ℕ
  accepted c [] = 0
  accepted c (a ∷ arrivals) = count_accept (receive c a).1 + accepted (receive c a).0 arrivals

  -- The key of an envelope that passes all checks but that of the cache.
  abbrev key_of_result : ℕ → ℕ → Result HeartbeatEnvelope → Option HeartbeatReplayKey
  key_of_result source now_ns (err e) = none
  key_of_result source now_ns (ok env) =
      if verify_heartbeat_with_config x source env now_ns cfg then replay_key x source env else none

  admitted : Arrival → Option HeartbeatReplayKey
  admitted a =
      if ltb cfg.max_heartbeat_wire_bytes (length a.wire)
      then none
      else key_of_result a.source a.now_ns (decode_heartbeat_wire x a.wire)

  verified-keyed :
      (source now_ns : ℕ) (env : HeartbeatEnvelope)
      → verify_heartbeat_with_config x source env now_ns cfg ≡ true
      → replay_key x source env ≢ none
  unfolding verify_heartbeat_with_config replay_key
  verified-keyed source now_ns env h = ground arith

  verified-timely :
      (source now_ns : ℕ) (env : HeartbeatEnvelope)
      → verify_heartbeat_with_config x source env now_ns cfg ≡ true
      → is_timely x cfg env.timestamp_ns now_ns ≡ true
  unfolding verify_heartbeat_with_config
  verified-timely source now_ns env h = ground arith

  -- A frame is too long, or wrong, or does not verify, or has a key.
  data Fate (c : HeartbeatReplayCache) (a : Arrival) : Type 0 where
    refused :
        (d : HeartbeatValidationDecision)
        → admitted a ≡ none
        → count_accept d ≡ 0
        → receive c a ≡ (c, d)
        → Fate c a
    keyed :
        (key : HeartbeatReplayKey)
        → (env : HeartbeatEnvelope) → decode_heartbeat_wire x a.wire ≡ ok env
        → replay_key x a.source env ≡ some key
        → verify_heartbeat_with_config x a.source env a.now_ns cfg ≡ true
        → admitted a ≡ some key
        → receive c a ≡ (
          (check_and_insert c key a.now_ns).0,
          if (check_and_insert c key a.now_ns).1 then accept else ignore_duplicate,
        )
        → Fate c a

  fate : (c : HeartbeatReplayCache) (a : Arrival) → Fate c a
  unfolding admitted validate_heartbeat_wire check_heartbeat
  fate c a = elim (Bool-cases (ltb cfg.max_heartbeat_wire_bytes (length a.wire))) [
    | inl long ↦
        refused reject_oversize (rw (long, admitted) refl) refl
          (rw (long, validate_heartbeat_wire) refl)
    | inr fits ↦ elim (Result-cases (decode_heartbeat_wire x a.wire)) [
      | inr (e, wrong) ↦
          refused reject (rw (fits, wrong, admitted) refl) refl
            (rw (fits, wrong, validate_heartbeat_wire) refl)
      | inl (env, right) ↦
          elim (Bool-cases (verify_heartbeat_with_config x a.source env a.now_ns cfg)) [
            | inr bad ↦
                refused reject (rw (fits, right, bad, admitted) refl) refl
                  (rw (fits, right, bad, validate_heartbeat_wire) refl)
            | inl good ↦ elim (Option-cases (replay_key x a.source env)) [
              | inl e ↦ absurd (verified-keyed a.source a.now_ns env good e)
              | inr (key, e) ↦
                  keyed key env right e good (rw (fits, right, good, e, admitted) refl)
                    (rw (fits, right, good, e, validate_heartbeat_wire, check_heartbeat) refl)
            ]
          ]
    ]
  ]

  -- The calls of the cache that a series of arrivals makes.
  calls : List Arrival → List (HeartbeatReplayKey × ℕ)
  calls [] = []
  calls (a ∷ arrivals) = elim (admitted a) [
    | none ↦ calls arrivals
    | some key ↦ (key, a.now_ns) ∷ calls arrivals
  ]

  Followed : HeartbeatReplayCache → List Arrival → Type 0
  Followed c arrivals =
      (receive_all c arrivals ≡ run c (calls arrivals))
      × (accepted c arrivals ≡ inserted c (calls arrivals))

  Followed-next :
      (c : HeartbeatReplayCache) (a : Arrival) (arrivals : List Arrival)
      → ((c' : HeartbeatReplayCache) → Followed c' arrivals)
      → Followed c (a ∷ arrivals)
  unfolding Followed receive_all accepted calls run inserted
  Followed-next c a arrivals ih = elim (fate c a) [
    | refused d e nothing took ↦
        let same : (receive c a).0 ≡ c = ap (λ r. r.0) took in
        let decided : count_accept (receive c a).1 ≡ 0 =
          ap (λ r. count_accept r.1) took ∙ nothing in
        rw (e, calls)
          (
            ap (λ d'. receive_all d' arrivals) same ∙ (ih c).0,
            omega (arith, decided, ap (λ d'. accepted d' arrivals) same, (ih c).1),
          )
    | keyed key env right e good adm took ↦
        let same : (receive c a).0 ≡ (check_and_insert c key a.now_ns).0 = ap (λ r. r.0) took in
        let decided =
          ap (λ r. count_accept r.1) took ∙ count_if (check_and_insert c key a.now_ns).1 in
        let later = ih (check_and_insert c key a.now_ns).0 in
        rw (adm, calls)
          (
            ap (λ d. receive_all d arrivals) same ∙ later.0,
            omega (arith, decided, ap (λ d. accepted d arrivals) same, later.1),
          )
  ]

  follow : (arrivals : List Arrival) (c : HeartbeatReplayCache) → Followed c arrivals
  unfolding Followed receive_all accepted calls run inserted
  follow [] c = (refl, refl)
  follow (a ∷ arrivals) c = Followed-next c a arrivals (λ c'. follow arrivals c')

  All-calls :
      (t limit : ℕ) (arrivals : List Arrival)
      → All (λ a. a.now_ns - t ≤ limit) arrivals
      → All (λ call. call.1 - t ≤ limit) (calls arrivals)
  unfolding calls
  All-calls t limit [] h = tt
  All-calls t limit (a ∷ arrivals) h = elim (Option-cases (admitted a)) [
    | inl e ↦ rw (e, calls) (All-calls t limit arrivals h.1)
    | inr (key, e) ↦ rw (e, calls) (h.0, All-calls t limit arrivals h.1)
  ]

  new_cache-IsValid : IsValid (new_cache cfg)
  unfolding new_cache
  new_cache-IsValid = record {
    in_order = refl;
    distinct = tt;
    bounded = omega arith;
    positive = omega arith;
  }

  new_cache-limits :
      (cfg.replay_cache_capacity ≤ (new_cache cfg).capacity)
      × ((new_cache cfg).ttl_ns ≡ saturating_mul cfg.replay_cache_ttl_secs ns_per_sec)
  unfolding new_cache
  new_cache-limits = (omega arith, refl)

  -- What an accepted frame says of the cache.
  accept-inserts :
      (c : HeartbeatReplayCache) (a : Arrival)
      → (receive c a).1 ≡ accept
      → (key : HeartbeatReplayKey) × (env : HeartbeatEnvelope) × (decode_heartbeat_wire x a.wire
          ≡ ok env)
        × (replay_key x a.source env ≡ some key)
        × (is_timely x cfg env.timestamp_ns a.now_ns ≡ true)
        × ((check_and_insert c key a.now_ns).1 ≡ true)
        × ((receive c a).0 ≡ (check_and_insert c key a.now_ns).0)
  accept-inserts c a h = elim (fate c a) [
    | refused d e nothing took ↦
        let decided = ap (λ r. count_accept r.1) took ∙ nothing in
        absurd (omega (arith, decided, ap count_accept h))
    | keyed key env right e good adm took ↦ (
      key,
      env,
      right,
      e,
      verified-timely a.source a.now_ns env good,
      if_accept _ (sym (ap (λ r. r.1) took) ∙ h),
      ap (λ r. r.0) took,
    )
  ]

  -- A frame that is timely twice came back within the time to live of the cache.
  timely_within_ttl :
      (timestamp_ns first_ns now_ns : ℕ)
      → Covers cfg.max_heartbeat_age_secs cfg.max_heartbeat_future_skew_secs
          cfg.replay_cache_capacity cfg.replay_cache_ttl_secs
      → is_timely x cfg timestamp_ns first_ns ≡ true
      → is_timely x cfg timestamp_ns now_ns ≡ true
      → now_ns ≤ u64_max
      → now_ns - first_ns ≤ saturating_mul cfg.replay_cache_ttl_secs ns_per_sec
  unfolding is_timely
  timely_within_ttl timestamp_ns first_ns now_ns v f1 f2 small = ground arith

  ordered-young :
      (t again_ns limit : ℕ) (arrivals : List Arrival)
      → again_ns - t ≤ limit
      → All (λ b. b.now_ns ≤ again_ns) arrivals
      → All (λ b. b.now_ns - t ≤ limit) arrivals
  ordered-young t again_ns limit [] h o = tt
  ordered-young t again_ns limit (b ∷ arrivals) h o =
      (omega (arith, o.0), ordered-young t again_ns limit arrivals h o.1)

  same_key :
      (a : Arrival) {env env' : HeartbeatEnvelope} {k j : HeartbeatReplayKey}
      → decode_heartbeat_wire x a.wire ≡ ok env
      → replay_key x a.source env ≡ some k
      → decode_heartbeat_wire x a.wire ≡ ok env'
      → replay_key x a.source env' ≡ some j
      → (k ≡ j) × (env.timestamp_ns ≡ env'.timestamp_ns)
  same_key a {env} {env'} r e r' e' =
      let same : env ≡ env' = cc in (cc, ap (λ v. v.timestamp_ns) same)

  not_twice :
      (c : HeartbeatReplayCache) (later : List Arrival) (a : Arrival) (again_ns : ℕ)
      → validate cfg ≡ ok tt
      → IsValid c
      → cfg.replay_cache_capacity ≤ c.capacity
      → c.ttl_ns ≡ saturating_mul cfg.replay_cache_ttl_secs ns_per_sec
      → (receive c a).1 ≡ accept
      → accepted (receive c a).0 later < cfg.replay_cache_capacity
      → All (λ b. b.now_ns ≤ again_ns) later
      → again_ns ≤ u64_max
      → (receive (receive_all (receive c a).0 later) (record a { now_ns = again_ns })).1 ≢ accept
  unfolding Followed
  not_twice c later a again_ns valid v room life first few ordered small second =
      let (key, env, r1, e1, t1, new, after) = accept-inserts c a first in
      let (key', env', r2, e2, t2, new', _) =
        accept-inserts (receive_all (receive c a).0 later) (record a { now_ns = again_ns })
          second in
      let (same, stamp) = same_key a r1 e1 r2 e2 in
      let young =
        timely_within_ttl env.timestamp_ns a.now_ns again_ns (validate-Covers cfg valid).0 t1
          (cc (stamp, t2)) small in
      let last : again_ns - a.now_ns ≤ c.ttl_ns = omega (arith, life, young) in
      let c' = (check_and_insert c key a.now_ns).0 in
      let (runs, counts) = follow later c' in
      let few' : inserted c' (calls later) < c.capacity =
        omega (arith, counts, room, few, ap (λ d. accepted d later) after) in
      let known =
        replay_detected c key a.now_ns again_ns (calls later) v new few'
          (All-calls a.now_ns c.ttl_ns later
            (ordered-young a.now_ns again_ns c.ttl_ns later last ordered))
          last in
      cc (known, new', same, runs, after)

  -- With a configuration that passes its checks, a heartbeat frame that was accepted once is not
  -- accepted again from the same source: not after any number of earlier frames, nor after later
  -- ones, if fewer than the cache's capacity of those were accepted and the clock did not run past
  -- the time of the second arrival, which fits 64 bits, before it.
  pub heartbeat_accepted_once :
      (earlier later : List Arrival) (a : Arrival) (again_ns : ℕ)
      → validate cfg ≡ ok tt
      → let c = receive_all (new_cache cfg) earlier in
        (receive c a).1 ≡ accept
        → accepted (receive c a).0 later < cfg.replay_cache_capacity
        → All (λ b. b.now_ns ≤ again_ns) later
        → again_ns ≤ u64_max
        → (receive (receive_all (receive c a).0 later) (record a { now_ns = again_ns })).1 ≢ accept
  unfolding Followed
  heartbeat_accepted_once earlier later a again_ns valid =
      let (runs, _) = follow earlier (new_cache cfg) in
      let (size, life) = run-limits (calls earlier) (new_cache cfg) in
      let v = run-IsValid (calls earlier) (new_cache cfg) new_cache-IsValid in
      not_twice (receive_all (new_cache cfg) earlier) later a again_ns valid (rw runs v)
        (rw (runs, size) new_cache-limits.0) (rw (runs, life) new_cache-limits.1)
