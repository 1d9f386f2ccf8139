-- ===== src/Tests/Connectivity.antt =====
-- Connection limits: two connections from one IP address.
use p2p_net.Prelude.{
  ℕ, nat_eq, list_eq, ◌+◌, ◌-◌, ◌≤◌, ◌<◌, ◌≡◌, refl, true, false, some, [], ◌∷◌, arith, length,
  u32_max,
}
use p2p_net.Prelude.Assoc.{mem, keys, lookup, insert}
use p2p_net.Prelude.Occurs.{occurs}
use p2p_net.Common.Error.{ok}
use p2p_net.Common.Text.{Text, codes}
use p2p_net.Common.Multiaddr.{Multiaddr, ip4}
use p2p_net.Connectivity.Limits.{
  ConnectionCapState, default_limits, validate, ensure_nonzero, ensure_at_most, new,
  multiaddr_ip_key, record_established, record_ip, count_for_ip, record_closed,
  outgoing_connections_to_release,
}
use p2p_net.Connectivity.Limits.Counts.{
  IsCounting, new-IsCounting, record_established-IsCounting, record_closed-IsCounting,
  outgoing_connections_to_release-headroom,
}

default_limits-valid : validate default_limits ≡ ok tt
unfolding validate ensure_nonzero ensure_at_most
default_limits-valid = refl

abbrev localhost : Multiaddr
localhost = ip4 (codes "127.0.0.1") ∷ []

-- A limit of one connection for each IP, two outgoing ones, and none open.
abbrev one_per_ip : ConnectionCapState
one_per_ip =
    new
      (record default_limits { max_established_per_ip = some 1; max_established_outgoing = some 2 })

abbrev one_open : ConnectionCapState
one_open = (record_established one_per_ip 7 42 localhost true).0

new-IsCounting_example : IsCounting (new default_limits)
new-IsCounting_example = new-IsCounting default_limits

not_open : mem 7 (keys one_per_ip.by_connection) ≡ false
unfolding new mem
not_open = refl

room_for_one :
    (ip : Text)
    → multiaddr_ip_key localhost ≡ some ip
    → occurs ip one_per_ip.by_connection < u32_max
unfolding new occurs
room_for_one ip e = omega arith

record_established-IsCounting_example : IsCounting one_open
record_established-IsCounting_example =
    record_established-IsCounting one_per_ip 7 42 localhost true (new-IsCounting _) not_open
      room_for_one

one_open-IsCounting : IsCounting one_open
one_open-IsCounting =
    record_established-IsCounting one_per_ip 7 42 localhost true (new-IsCounting _) not_open
      room_for_one

record_closed-IsCounting_example : IsCounting (record_closed one_open 7)
record_closed-IsCounting_example = record_closed-IsCounting one_open 7 one_open-IsCounting

limit_two : one_open.max_established_outgoing ≡ some 2
unfolding record_established record_ip count_for_ip multiaddr_ip_key new lookup
limit_two = refl

at_most_two : length one_open.outgoing_by_connection ≤ 2
unfolding record_established record_ip count_for_ip multiaddr_ip_key new insert lookup
at_most_two = omega arith

outgoing_connections_to_release-headroom_example :
    let n = outgoing_connections_to_release one_open 2 in
    let open_now = length one_open.outgoing_by_connection in
    (n ≤ open_now) × (open_now - n + 2 ≤ 2) × ((m : ℕ) → m < n → 2 < open_now - m + 2)
outgoing_connections_to_release-headroom_example =
    outgoing_connections_to_release-headroom one_open 2 2 limit_two at_most_two (omega arith)
      (omega arith)
