-- ===== src/Protocol/AppSecurity.antt =====
-- crates/protocol/app_security.rs: freshness and replay protection of application messages.
-- `hex::decode_to_slice` is not of this repository: it is the parameter `hex_decode`, which gives
-- the decoded bytes, or `none` for what is no hexadecimal text.
pub mod Replay
use p2p_net.Prelude.{
  Eq, ==_iff, ◌==◌, ℕ, ◌+◌, ◌-◌, ◌*◌, ◌≡◌, ◌↔◌, Bool, true, false, ◌&&◌, ◌||◌, not, Option, none,
  some, List, ltb, nat_beq, nat_beq_iff, all, list_eq, nat_eq, saturating_add, saturating_mul,
  if◌then◌else◌, arith,
}
use p2p_net.Common.Text.{Text, text_len}
use p2p_net.Api.Message.{AppMessage}
use p2p_net.Protocol.Config.{MessageSecurityConfig}
use p2p_net.Protocol.ReplayCache.{Cache, ns_per_sec, new, check_and_insert}

pub data AppMessageSecurityDecision : Type 0 where
  accept reject ignore_duplicate : AppMessageSecurityDecision

-- The third field is an array of 32 bytes.
pub record AppReplayKey : Type 0 where
  pub source : ℕ
  pub timestamp_ns : ℕ
  pub nonce : List ℕ

abbrev pub key_beq : AppReplayKey → AppReplayKey → Bool
key_beq a b =
    nat_beq a.source b.source && nat_beq a.timestamp_ns b.timestamp_ns && a.nonce == b.nonce

pub key_beq_iff : (a b : AppReplayKey) → (key_beq a b ≡ true) ↔ (a ≡ b)
key_beq_iff a b = ground (arith, ==_iff a.nonce b.nonce)

instance abbrev pub key_eq : Eq AppReplayKey
key_eq = record { test = key_beq; test_iff = key_beq_iff }

abbrev pub AppMessageReplayCache : Type 0
AppMessageReplayCache = Cache AppReplayKey

unfoldable pub new_cache : MessageSecurityConfig → AppMessageReplayCache
unfolding new
new_cache cfg = new cfg.app_replay_cache_capacity cfg.app_replay_cache_ttl_secs

abbrev app_nonce_bytes : ℕ
app_nonce_bytes = 32

-- The test on the timestamp: neither from the future nor stale.
unfoldable pub is_fresh : MessageSecurityConfig → ℕ → ℕ → Bool
is_fresh cfg timestamp_ns now_ns =
    let max_future_ns = saturating_mul cfg.max_app_message_future_skew_secs ns_per_sec in
    let max_age_ns = saturating_mul cfg.max_app_message_age_secs ns_per_sec in
    not (
      ltb (saturating_add now_ns max_future_ns) timestamp_ns
      || ltb max_age_ns (now_ns - timestamp_ns))

module _ (hex_decode : Text → Option (List ℕ)) where
  unfoldable pub decode_nonce : Text → Option (List ℕ)
  decode_nonce nonce_hex =
      if nat_beq (text_len nonce_hex) (app_nonce_bytes * 2) then hex_decode nonce_hex else none

  -- The checks on the nonce and the time: the key of a message that passes.
  unfoldable pub replay_key : ℕ → AppMessage → ℕ → MessageSecurityConfig → Option AppReplayKey
  replay_key source m now_ns cfg = elim (decode_nonce m.nonce_hex) [
    | none ↦ none
    | some nonce ↦
        if all (λ b. nat_beq b 0) nonce
        then none
        else if is_fresh cfg m.timestamp_ns now_ns
        then some (record { source = source; timestamp_ns = m.timestamp_ns; nonce = nonce })
        else none
  ]

  -- The cache after the call, and the decision.
  unfoldable pub validate_app_message_security :
      ℕ
      → AppMessage
      → ℕ
      → MessageSecurityConfig
      → AppMessageReplayCache
      → AppMessageReplayCache × AppMessageSecurityDecision
  validate_app_message_security source m now_ns cfg cache = elim (replay_key source m now_ns cfg) [
    | none ↦ (cache, reject)
    | some key ↦
        let (cache', is_new) = check_and_insert cache key now_ns in
        (cache', if is_new then accept else ignore_duplicate)
  ]
