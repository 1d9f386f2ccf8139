-- ===== src/Connectivity/Limits/Counts.antt =====
-- The per-IP counters count the open connections.
use p2p_net.Prelude.{
  ==_iff, ==_refl, ◌==◌, nat_eq, list_eq, ℕ, ◌+◌, ◌-◌, ◌≤◌, ◌<◌, ◌≡◌, ◌≢◌, refl, Bool, true, false,
  none, some, List, arith, if◌then◌else◌, Option-cases, inl, inr, u32_max, length, nat_beq, min,
}
use p2p_net.Prelude.Assoc.{
  lookup, insert, remove, mem, keys, Distinct, lookup-insert, lookup-remove, insert-Distinct,
  remove-Distinct,
}
use mathlib.Core.Option.{get_or}
use p2p_net.Prelude.Occurs.{occurs, occurs-insert, occurs-remove}
use p2p_net.Common.Text.{Text}
use p2p_net.Common.Multiaddr.{Multiaddr}
use p2p_net.Connectivity.Limits.{
  ConnectionLimitsConfig, ConnectionCapState, new, multiaddr_ip_key, count_for_ip, is_over,
  record_ip, record_established, release_ip, record_closed, outgoing_connections_to_release,
}

-- Each counter is the number of open connections from its IP, and no counter is 0.
pub record Counting (by_connection : List (ℕ × Text)) (by_ip : List (Text × ℕ)) : Type 0 where
  pub distinct : Distinct (keys by_connection)
  pub distinct_ips : Distinct (keys by_ip)
  pub counted : (ip : Text) → get_or (lookup ip by_ip) 0 ≡ occurs ip by_connection
  pub no_zero : (ip : Text) → lookup ip by_ip ≢ some 0

abbrev pub IsCounting : ConnectionCapState → Type 0
IsCounting s = Counting s.by_connection s.by_ip

pub new-IsCounting : (cfg : ConnectionLimitsConfig) → IsCounting (new cfg)
unfolding new lookup occurs
new-IsCounting cfg = record {
  distinct = tt;
  distinct_ips = tt;
  counted = λ ip. refl;
  no_zero = λ ip h. cc;
}

insert-Counting :
    (m : List (ℕ × Text)) (n : List (Text × ℕ)) (id : ℕ) (ip : Text)
    → Counting m n
    → mem id (keys m) ≡ false
    → Counting (insert id ip m) (insert ip (get_or (lookup ip n) 0 + 1) n)
insert-Counting m n id ip v new = record {
  distinct = insert-Distinct id ip m v.distinct;
  distinct_ips = insert-Distinct ip _ n v.distinct_ips;
  counted = λ j. ground (
    arith,
    lookup-insert ip j (get_or (lookup ip n) 0 + 1) n,
    occurs-insert id ip j m new,
    ==_iff ip j,
    v.counted ip,
    v.counted j,
  );
  no_zero = λ j. ground (arith, lookup-insert ip j (get_or (lookup ip n) 0 + 1) n, v.no_zero j);
}

record_ip-tables :
    (s : ConnectionCapState) (id : ℕ) (ip : Text)
    → count_for_ip s ip < u32_max
    → let s' = (record_ip s id ip).0 in
      (s'.by_connection ≡ insert id ip s.by_connection)
      × (s'.by_ip ≡ insert ip (get_or (lookup ip s.by_ip) 0 + 1) s.by_ip)
unfolding record_ip
record_ip-tables s id ip room =
    let full : min (get_or (lookup ip s.by_ip) 0 + 1) u32_max ≡ get_or (lookup ip s.by_ip) 0 + 1 =
      omega arith in
    ground (arith, full)

release_ip-lookup :
    (ip j : Text) (n : List (Text × ℕ)) (k : ℕ)
    → Distinct (keys n)
    → lookup ip n ≡ some k
    → lookup j (release_ip ip n)
      ≡ (if ip == j then (if nat_beq (k - 1) 0 then none else some (k - 1)) else lookup j n)
unfolding release_ip
release_ip-lookup ip j n k d h =
    ground (arith, lookup-insert ip j (k - 1) n, lookup-remove ip j n d)

release_ip-Distinct :
    (ip : Text) (n : List (Text × ℕ)) → Distinct (keys n) → Distinct (keys (release_ip ip n))
unfolding release_ip
release_ip-Distinct ip n d = elim (Option-cases (lookup ip n)) [
  | inl e ↦ rw (e, release_ip) d
  | inr (k, e) ↦
      rw (e, release_ip) (ground (arith, remove-Distinct ip n d, insert-Distinct ip (k - 1) n d))
]

-- A counter of an open connection is there, and is not 0.
counter_there :
    (m : List (ℕ × Text)) (n : List (Text × ℕ)) (id : ℕ) (ip : Text)
    → Counting m n
    → lookup id m ≡ some ip
    → (k : ℕ) × (lookup ip n ≡ some k) × (1 ≤ k)
counter_there m n id ip v open_at = elim (Option-cases (lookup ip n)) [
  | inl e ↦ absurd (ground (arith, v.counted ip, occurs-remove id ip ip m open_at, ==_refl ip))
  | inr (k, e) ↦ (k, e, ground (arith, v.no_zero ip))
]

remove-Counting :
    (m : List (ℕ × Text)) (n : List (Text × ℕ)) (id : ℕ) (ip : Text)
    → Counting m n
    → lookup id m ≡ some ip
    → Counting (remove id m) (release_ip ip n)
remove-Counting m n id ip v open_at =
    let (k, e, pos) = counter_there m n id ip v open_at in
    record {
      distinct = remove-Distinct id m v.distinct;
      distinct_ips = release_ip-Distinct ip n v.distinct_ips;
      counted = λ j. ground (
        arith,
        release_ip-lookup ip j n k v.distinct_ips e,
        occurs-remove id ip j m open_at,
        ==_iff ip j,
        v.counted ip,
        v.counted j,
      );
      no_zero = λ j. ground (arith, release_ip-lookup ip j n k v.distinct_ips e, v.no_zero j);
    }

record_ip-IsCounting :
    (s : ConnectionCapState) (id : ℕ) (ip : Text)
    → IsCounting s
    → mem id (keys s.by_connection) ≡ false
    → occurs ip s.by_connection < u32_max
    → IsCounting (record_ip s id ip).0
unfolding count_for_ip
record_ip-IsCounting s id ip v new room =
    let (m, n) = record_ip-tables s id ip (omega (arith, v.counted ip)) in
    rw (m, n) (insert-Counting s.by_connection s.by_ip id ip v new)

-- Recording a new connection (one whose id is not open) keeps every counter equal to the number of
-- open connections from its IP, if the IP of the address has fewer than 2 ^ 32 - 1 of them.
pub record_established-IsCounting :
    (s : ConnectionCapState) (id peer : ℕ) (addr : Multiaddr) (outgoing : Bool)
    → IsCounting s
    → mem id (keys s.by_connection) ≡ false
    → ((ip : Text) → multiaddr_ip_key addr ≡ some ip → occurs ip s.by_connection < u32_max)
    → IsCounting (record_established s id peer addr outgoing).0
unfolding record_established
record_established-IsCounting s id peer addr true v new room =
    elim (Option-cases (multiaddr_ip_key addr)) [
      | inl e ↦ rw (e, record_established) v
      | inr (ip, e) ↦ rw (e, record_established) (record_ip-IsCounting _ id ip v new (room ip e))
    ]
record_established-IsCounting s id peer addr false v new room =
    elim (Option-cases (multiaddr_ip_key addr)) [
      | inl e ↦ rw (e, record_established) v
      | inr (ip, e) ↦ rw (e, record_established) (record_ip-IsCounting s id ip v new (room ip e))
    ]

-- What `record_established` has to answer: is the cap exceeded by the open connections from the
-- IP of the address, the new one included?
abbrev pub exceeds_cap : ConnectionCapState → Multiaddr → Bool
exceeds_cap s addr = elim (multiaddr_ip_key addr) [
  | none ↦ false
  | some ip ↦ is_over s.max_established_per_ip (occurs ip s.by_connection + 1)
]

-- Closing a connection, known or not, keeps every counter equal to the number of open connections
-- from its IP, and drops a counter that falls to 0.
pub record_closed-IsCounting :
    (s : ConnectionCapState) (id : ℕ) → IsCounting s → IsCounting (record_closed s id)
unfolding record_closed
record_closed-IsCounting s id v = elim (Option-cases (lookup id s.by_connection)) [
  | inl e ↦ rw (e, record_closed) v
  | inr (ip, e) ↦ rw (e, record_closed) (remove-Counting s.by_connection s.by_ip id ip v e)
]

-- Where a limit of outgoing connections is set, which fits 32 bits, and both the open outgoing
-- connections and the desired headroom are at most the limit: closing as many of the connections
-- as the function says gives the desired headroom, there are that many to close, and fewer would
-- not do.
pub outgoing_connections_to_release-headroom :
    (s : ConnectionCapState) (limit desired : ℕ)
    → s.max_established_outgoing ≡ some limit
    → length s.outgoing_by_connection ≤ limit
    → limit ≤ u32_max
    → desired ≤ limit
    → let n = outgoing_connections_to_release s desired in
      let open_now = length s.outgoing_by_connection in
      (n ≤ open_now)
      × (open_now - n + desired ≤ limit)
      × ((m : ℕ) → m < n → limit < open_now - m + desired)
unfolding outgoing_connections_to_release
outgoing_connections_to_release-headroom s limit desired e within small wanted =
    (ground arith, ground arith, λ m h. ground arith)
