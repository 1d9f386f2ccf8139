-- ===== src/Protocol/Config.antt =====
-- The configuration types of crates/protocol/pulse.rs and their checks.
use p2p_net.Prelude.{ℕ, ◌+◌, ◌*◌, ◌≤◌, ◌≡◌, Bool, ltb, nat_beq, min, u64_max, saturating_add, arith}
use p2p_net.Prelude.Int.{ℤ, pos, ◌≤ℤ◌, ltb_ℤ}
use p2p_net.Common.Error.{config_error, >>-eq-ok, Result, ok, ◌>>◌, refuse}

pub record ReputationConfig : Type 0 where
  pub accept_reward : ℤ
  pub invalid_penalty : ℤ
  pub decay_step : ℤ
  pub decay_interval_secs : ℕ

abbrev not_positive : ℤ → Bool
not_positive a = ltb_ℤ a (pos 1)

unfoldable pub validate_reputation : ReputationConfig → Result (Unit {0})
validate_reputation cfg = do
  refuse (not_positive cfg.accept_reward)
      (config_error "message_security.reputation.accept_reward must be positive")
  refuse (not_positive cfg.invalid_penalty)
      (config_error "message_security.reputation.invalid_penalty must be positive")
  refuse (not_positive cfg.decay_step)
      (config_error "message_security.reputation.decay_step must be positive")
  refuse (nat_beq cfg.decay_interval_secs 0)
      (config_error "message_security.reputation.decay_interval_secs must be at least 1")
  ok tt

pub record MessageSecurityConfig : Type 0 where
  pub max_heartbeat_wire_bytes : ℕ
  pub max_heartbeat_age_secs : ℕ
  pub max_heartbeat_future_skew_secs : ℕ
  pub replay_cache_capacity : ℕ
  pub replay_cache_ttl_secs : ℕ
  pub max_app_message_age_secs : ℕ
  pub max_app_message_future_skew_secs : ℕ
  pub app_replay_cache_capacity : ℕ
  pub app_replay_cache_ttl_secs : ℕ
  pub reputation : ReputationConfig

-- `MessageSecurityConfig::default()`, with the constants at the head of the file.
abbrev pub default_config : MessageSecurityConfig
default_config = record {
  max_heartbeat_wire_bytes = 4096;
  max_heartbeat_age_secs = 10 * 60;
  max_heartbeat_future_skew_secs = 2 * 60;
  replay_cache_capacity = 8192;
  replay_cache_ttl_secs = 15 * 60;
  max_app_message_age_secs = 10 * 60;
  max_app_message_future_skew_secs = 2 * 60;
  app_replay_cache_capacity = 8192;
  app_replay_cache_ttl_secs = 15 * 60;
  reputation = record {
    accept_reward = pos 1;
    invalid_penalty = pos 5;
    decay_step = pos 1;
    decay_interval_secs = 60;
  };
}

-- The checks of the heartbeat settings, and then those of the application messages.
unfoldable pub validate_heartbeat : MessageSecurityConfig → Result (Unit {0})
validate_heartbeat cfg = do
  refuse (nat_beq cfg.max_heartbeat_wire_bytes 0)
      (config_error "message_security.max_heartbeat_wire_bytes must be at least 1")
  refuse (ltb (1024 * 1024) cfg.max_heartbeat_wire_bytes)
      (config_error "message_security.max_heartbeat_wire_bytes must not exceed 1048576")
  refuse (nat_beq cfg.max_heartbeat_age_secs 0)
      (config_error "message_security.max_heartbeat_age_secs must be at least 1")
  refuse (ltb cfg.max_heartbeat_age_secs cfg.max_heartbeat_future_skew_secs) (
      config_error
        "message_security.max_heartbeat_future_skew_secs must be <= max_heartbeat_age_secs")
  refuse (nat_beq cfg.replay_cache_capacity 0)
      (config_error "message_security.replay_cache_capacity must be at least 1")
  refuse (nat_beq cfg.replay_cache_ttl_secs 0)
      (config_error "message_security.replay_cache_ttl_secs must be at least 1")
  refuse
      (ltb cfg.replay_cache_ttl_secs
        (saturating_add cfg.max_heartbeat_age_secs cfg.max_heartbeat_future_skew_secs))
      (config_error
        "message_security.replay_cache_ttl_secs must cover max_heartbeat_age_secs + max_heartbeat_future_skew_secs")

unfoldable pub validate_app : MessageSecurityConfig → Result (Unit {0})
validate_app cfg = do
  refuse (nat_beq cfg.max_app_message_age_secs 0)
      (config_error "message_security.max_app_message_age_secs must be at least 1")
  refuse (ltb cfg.max_app_message_age_secs cfg.max_app_message_future_skew_secs) (
      config_error
        "message_security.max_app_message_future_skew_secs must be <= max_app_message_age_secs")
  refuse (nat_beq cfg.app_replay_cache_capacity 0)
      (config_error "message_security.app_replay_cache_capacity must be at least 1")
  refuse (nat_beq cfg.app_replay_cache_ttl_secs 0)
      (config_error "message_security.app_replay_cache_ttl_secs must be at least 1")
  refuse
      (ltb cfg.app_replay_cache_ttl_secs
        (saturating_add cfg.max_app_message_age_secs cfg.max_app_message_future_skew_secs))
      (config_error
        "message_security.app_replay_cache_ttl_secs must cover max_app_message_age_secs + max_app_message_future_skew_secs")

unfoldable pub validate : MessageSecurityConfig → Result (Unit {0})
validate cfg = do validate_heartbeat cfg; validate_app cfg; validate_reputation cfg.reputation

-- What a configuration that passes guarantees of a replay cache: it remembers a message for as
-- long as the message counts as fresh.
pub record Covers (age skew capacity ttl : ℕ) : Type 0 where
  pub has_age : 1 ≤ age
  pub skew_le_age : skew ≤ age
  pub has_room : 1 ≤ capacity
  pub ttl_covers : min (age + skew) u64_max ≤ ttl

heartbeat-Covers :
    (cfg : MessageSecurityConfig)
    → validate_heartbeat cfg ≡ ok tt
    → Covers cfg.max_heartbeat_age_secs cfg.max_heartbeat_future_skew_secs cfg.replay_cache_capacity
        cfg.replay_cache_ttl_secs
unfolding validate_heartbeat
heartbeat-Covers cfg h = ground arith

app-Covers :
    (cfg : MessageSecurityConfig)
    → validate_app cfg ≡ ok tt
    → Covers cfg.max_app_message_age_secs cfg.max_app_message_future_skew_secs
        cfg.app_replay_cache_capacity cfg.app_replay_cache_ttl_secs
unfolding validate_app
app-Covers cfg h = ground arith

reputation_positive :
    (cfg : ReputationConfig)
    → validate_reputation cfg ≡ ok tt
    → (pos 1 ≤ℤ cfg.accept_reward)
      × (pos 1 ≤ℤ cfg.invalid_penalty)
      × (pos 1 ≤ℤ cfg.decay_step)
      × (1 ≤ cfg.decay_interval_secs)
unfolding validate_reputation
reputation_positive cfg h = ground arith

-- A configuration that passes has, for heartbeats and for application messages, a replay cache
-- with room for a key that remembers it for the age and the skew together (or for ever, where
-- the sum leaves 64 bits); and its reward, penalty, decay step and decay interval of the
-- reputation are positive.
pub validate-Covers :
    (cfg : MessageSecurityConfig)
    → validate cfg ≡ ok tt
    → Covers cfg.max_heartbeat_age_secs cfg.max_heartbeat_future_skew_secs cfg.replay_cache_capacity
        cfg.replay_cache_ttl_secs
      × Covers cfg.max_app_message_age_secs cfg.max_app_message_future_skew_secs
          cfg.app_replay_cache_capacity cfg.app_replay_cache_ttl_secs
      × (pos 1 ≤ℤ cfg.reputation.accept_reward)
      × (pos 1 ≤ℤ cfg.reputation.invalid_penalty)
      × (pos 1 ≤ℤ cfg.reputation.decay_step)
      × (1 ≤ cfg.reputation.decay_interval_secs)
unfolding validate
validate-Covers cfg h =
    let (_, hb, rest) = >>-eq-ok (validate_heartbeat cfg) _ h in
    let (_, ap, rep) = >>-eq-ok (validate_app cfg) _ rest in
    let (reward, penalty, step, interval) = reputation_positive cfg.reputation rep in
    (heartbeat-Covers cfg hb, app-Covers cfg ap, reward, penalty, step, interval)
