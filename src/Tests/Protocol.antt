-- ===== src/Tests/Protocol.antt =====
-- Message security: the default configuration, a cache of two keys, and one message twice.
use p2p_net.Prelude.{
  ℕ, nat_eq, ◌≤◌, ◌<◌, ◌≡◌, ◌≢◌, refl, true, false, Option, some, List, [], ◌∷◌, all, arith,
  if◌then◌else◌, ◌++◌,
}
use p2p_net.Prelude.Int.{pos, ◌≤ℤ◌}
use p2p_net.Prelude.Assoc.{mem, keys, lookup, insert, remove}
use p2p_net.Common.Error.{ok}
use p2p_net.Common.Text.{Text, text_len}
use p2p_net.Protocol.Config.{
  default_config, validate, validate_heartbeat, validate_app, validate_reputation, Covers,
  validate-Covers,
}
use p2p_net.Protocol.ReplayCache.{
  Cache, new, check_and_insert, prune, prune_loop, insert_new, evict_loop,
}
use p2p_net.Protocol.ReplayCache.Window.{
  IsValid, live, newest, holding, check_and_insert-newest, check_and_insert-IsValid,
}
use p2p_net.Protocol.ReplayCache.Survival.{run, inserted, replay_detected}
use p2p_net.Protocol.AppSecurity.{
  AppMessageReplayCache, accept, key_eq, new_cache, is_fresh, decode_nonce, replay_key,
  validate_app_message_security,
}
use p2p_net.Protocol.AppSecurity.Replay.{
  Arrival, receive, receive_all, accepted, never_accepted_twice,
}
use p2p_net.Tests.Samples.{large_message}

default_config-valid : validate default_config ≡ ok tt
unfolding validate validate_heartbeat validate_app validate_reputation
default_config-valid = refl

validate-Covers_example :
    Covers 600 120 8192 900
    × Covers 600 120 8192 900
    × (pos 1 ≤ℤ pos 1)
    × (pos 1 ≤ℤ pos 5)
    × (pos 1 ≤ℤ pos 1)
    × (1 ≤ 60)
validate-Covers_example = validate-Covers default_config default_config-valid

-- Keys 1 and 2, put in at 10 and 20 nanoseconds.
abbrev two_keys : Cache ℕ
two_keys = record {
  capacity = 2;
  ttl_ns = 50;
  entries = (1, 10) ∷ (2, 20) ∷ [];
  order = 1 ∷ 2 ∷ [];
}

two_keys-IsValid : IsValid two_keys
unfolding mem
two_keys-IsValid = record {
  in_order = refl;
  distinct = (refl, (refl, tt));
  bounded = omega arith;
  positive = omega arith;
}

check_and_insert-newest_example : check_and_insert two_keys 3 65 ≡ (
    if mem 3 (keys (live 50 65 two_keys.entries))
    then (holding two_keys (live 50 65 two_keys.entries), false)
    else (holding two_keys (newest 2 (live 50 65 two_keys.entries ++ (3, 65) ∷ [])), true))
check_and_insert-newest_example = check_and_insert-newest two_keys 3 65 two_keys-IsValid

check_and_insert-IsValid_example : IsValid (check_and_insert two_keys 3 65).0
check_and_insert-IsValid_example = check_and_insert-IsValid two_keys 3 65 two_keys-IsValid

three_is_new : (check_and_insert two_keys 3 30).1 ≡ true
unfolding check_and_insert prune prune_loop lookup
three_is_new = refl

one_more : inserted (check_and_insert two_keys 3 30).0 ((3, 40) ∷ (4, 50) ∷ []) < 2
unfolding check_and_insert inserted prune prune_loop lookup insert_new insert evict_loop remove
one_more = omega arith

replay_detected_example :
    (check_and_insert (run (check_and_insert two_keys 3 30).0 ((3, 40) ∷ (4, 50) ∷ [])) 3 80).1
    ≡ false
replay_detected_example =
    replay_detected two_keys 3 30 80 ((3, 40) ∷ (4, 50) ∷ []) two_keys-IsValid three_is_new one_more
      (omega arith, (omega arith, tt)) (omega arith)

-- A stand-in for the hexadecimal decoder.
abbrev decode_same : Text → Option (List ℕ)
decode_same t = some t

abbrev arrival : Arrival
arrival = record { source = 42; message = large_message; now_ns = 6_000_000_000 }

abbrev initial : AppMessageReplayCache
initial = receive_all decode_same default_config (new_cache default_config) []

first_accepted : (receive decode_same default_config initial arrival).1 ≡ accept
unfolding receive_all validate_app_message_security replay_key decode_nonce is_fresh text_len all
    check_and_insert new_cache new prune prune_loop lookup
first_accepted = refl

nothing_later :
    accepted decode_same default_config (receive decode_same default_config initial arrival).0 []
    < 8192
unfolding accepted
nothing_later = omega arith

never_accepted_twice_example :
    (receive decode_same default_config
      (receive_all decode_same default_config
        (receive decode_same default_config initial arrival).0
        [])
      (record arrival { now_ns = 7_000_000_000 })).1
    ≢ accept
never_accepted_twice_example =
    never_accepted_twice decode_same default_config [] [] arrival 7_000_000_000 default_config-valid
      first_accepted nothing_later tt (omega arith)
