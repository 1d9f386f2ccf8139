-- ===== src/Protocol/ReplayCache.antt =====
-- The bounded, expiring cache of seen envelopes of crates/protocol/app_security.rs
-- (`AppMessageReplayCache`) and crates/protocol/pulse.rs (`HeartbeatReplayCache`). The two types
-- have the same fields and the same loops over another key, so the cache is generic in its key.
-- `order` has the front of the `VecDeque` first. Times are nanoseconds below 2 ^ 64.
pub mod Window
pub mod Survival
use p2p_net.Prelude.{
  Eq, ℕ, ◌-◌, Bool, true, false, Option, none, some, List, [], ◌∷◌, ◌++◌, max, length, ltb, leb,
  saturating_mul, if◌then◌else◌,
}
use p2p_net.Prelude.Assoc.{lookup, insert, remove, contains_key}

abbrev pub ns_per_sec : ℕ
ns_per_sec = 1_000_000_000

pub record Cache (K : Type 0) : Type 0 where
  pub capacity : ℕ
  pub ttl_ns : ℕ
  pub entries : List (K × ℕ)
  pub order : List K

-- `new`, from the two fields of the configuration that it reads.
unfoldable pub new : {K : Type 0} → ℕ → ℕ → Cache K
new capacity ttl_secs = record {
  capacity = max capacity 1;
  ttl_ns = saturating_mul ttl_secs ns_per_sec;
  entries = [];
  order = [];
}

module _ {K : Type 0} ⦃e : Eq K⦄ where
  -- The loop of `prune`: entries and order, after it.
  unfoldable pub prune_loop : ℕ → ℕ → List (K × ℕ) → List K → List (K × ℕ) × List K
  prune_loop ttl_ns now_ns entries [] = (entries, [])
  prune_loop ttl_ns now_ns entries (front ∷ order) = elim (lookup front entries) [
    | none ↦ prune_loop ttl_ns now_ns entries order
    | some inserted_ns ↦
        let rest = prune_loop ttl_ns now_ns (remove front entries) order in
        if leb (now_ns - inserted_ns) ttl_ns then (entries, front ∷ order) else rest
  ]

  unfoldable pub prune : Cache K → ℕ → Cache K
  unfolding prune_loop
  prune c now_ns =
      let (entries, order) = prune_loop c.ttl_ns now_ns c.entries c.order in
      record c { entries = entries; order = order }

  -- `while self.entries.len() > self.capacity`.
  unfoldable pub evict_loop : ℕ → List (K × ℕ) → List K → List (K × ℕ) × List K
  evict_loop capacity entries [] = (entries, [])
  evict_loop capacity entries (oldest ∷ order) =
      let rest = evict_loop capacity (remove oldest entries) order in
      if ltb capacity (length entries) then rest else (entries, oldest ∷ order)

  -- The part of `check_and_insert` behind the test for a known key.
  unfoldable pub insert_new : Cache K → K → ℕ → Cache K
  unfolding evict_loop
  insert_new c key now_ns =
      let (entries, order) =
        evict_loop c.capacity (insert key now_ns c.entries) (c.order ++ key ∷ []) in
      record c { entries = entries; order = order }

  -- The cache after the call, and `true` if the key is new.
  unfoldable pub check_and_insert : Cache K → K → ℕ → Cache K × Bool
  unfolding prune insert_new
  check_and_insert c key now_ns =
      let c' = prune c now_ns in
      if contains_key key c'.entries then (c', false) else (insert_new c' key now_ns, true)
