-- ===== src/Protocol/ReplayCache/Window.antt =====
-- The replay cache as a single window of keys with their times, oldest first: the map and the
-- queue of the code hold the same keys in the same order, and its two loops drop a prefix.
use p2p_net.Prelude.{
  Eq, ==_refl, ℕ, ◌-◌, ◌≤◌, ◌≡◌, refl, true, false, List, [], ◌∷◌, ◌++◌, length, ltb, leb,
  if◌then◌else◌, arith, Bool-cases, inl, inr,
}
use p2p_net.Prelude.Assoc.{
  lookup, insert, remove, mem, keys, Distinct, Distinct-snoc, keys-append, contains_key-mem,
}
use p2p_net.Prelude.Assoc as Assoc
use p2p_net.Protocol.ReplayCache.{
  Cache, prune_loop, prune, evict_loop, insert_new, check_and_insert,
}

-- What is left when the expired entries at the front are gone.
unfoldable pub live : {K : Type 0} → ℕ → ℕ → List (K × ℕ) → List (K × ℕ)
live ttl_ns now_ns [] = []
live ttl_ns now_ns ((k, t) ∷ w) =
    if leb (now_ns - t) ttl_ns then (k, t) ∷ w else live ttl_ns now_ns w

-- The newest `n` entries.
unfoldable pub newest : {A : Type 0} → ℕ → List A → List A
newest n [] = []
newest n (x ∷ w) = if ltb n (length (x ∷ w)) then newest n w else x ∷ w

module _ {K : Type 0} ⦃e : Eq K⦄ where
  pub record IsValid (c : Cache K) : Type 0 where
    pub in_order : keys c.entries ≡ c.order
    pub distinct : Distinct (keys c.entries)
    pub bounded : length c.entries ≤ c.capacity
    pub positive : 1 ≤ c.capacity

  -- The cache that holds the entries of a window.
  abbrev pub holding : Cache K → List (K × ℕ) → Cache K
  holding c w = record c { entries = w; order = keys w }

  prune_loop-live :
      (ttl_ns now_ns : ℕ) (w : List (K × ℕ))
      → prune_loop ttl_ns now_ns w (keys w) ≡ (live ttl_ns now_ns w, keys (live ttl_ns now_ns w))
  unfolding prune_loop live lookup remove
  prune_loop-live ttl_ns now_ns [] = refl
  prune_loop-live ttl_ns now_ns ((k, t) ∷ w) =
      ground (arith, ==_refl k, prune_loop-live ttl_ns now_ns w)

  evict_loop-newest :
      (n : ℕ) (w : List (K × ℕ)) → evict_loop n w (keys w) ≡ (newest n w, keys (newest n w))
  unfolding evict_loop newest remove
  evict_loop-newest n [] = refl
  evict_loop-newest n ((k, t) ∷ w) = ground (arith, ==_refl k, evict_loop-newest n w)

  prune-live :
      (c : Cache K) (now_ns : ℕ)
      → keys c.entries ≡ c.order
      → prune c now_ns ≡ holding c (live c.ttl_ns now_ns c.entries)
  unfolding prune
  prune-live c now_ns h = ground (arith, prune_loop-live c.ttl_ns now_ns c.entries)

  insert_new-newest :
      (c : Cache K) (k : K) (now_ns : ℕ) (w : List (K × ℕ))
      → mem k (keys w) ≡ false
      → insert_new (holding c w) k now_ns ≡ holding c (newest c.capacity (w ++ (k, now_ns) ∷ []))
  unfolding insert_new
  insert_new-newest c k now_ns w h = ground (
    arith,
    Assoc.insert_new k now_ns w,
    keys-append w ((k, now_ns) ∷ []),
    evict_loop-newest c.capacity (w ++ (k, now_ns) ∷ []),
  )

  -- On a valid cache a call drops the expired front of the window and, if the key is not left in
  -- it, adds the key at the end and keeps the newest `capacity` entries.
  pub check_and_insert-newest :
      (c : Cache K) (k : K) (now_ns : ℕ)
      → IsValid c
      → let w = live c.ttl_ns now_ns c.entries in
        check_and_insert c k now_ns ≡ (
          if mem k (keys w)
          then (holding c w, false)
          else (holding c (newest c.capacity (w ++ (k, now_ns) ∷ [])), true))
  unfolding check_and_insert
  check_and_insert-newest c k now_ns v =
      let w = live c.ttl_ns now_ns c.entries in
      ground (arith, prune-live c now_ns, contains_key-mem k w, insert_new-newest c k now_ns w)

  live-Distinct :
      (ttl_ns now_ns : ℕ) (w : List (K × ℕ))
      → Distinct (keys w)
      → Distinct (keys (live ttl_ns now_ns w))
  unfolding live
  live-Distinct ttl_ns now_ns [] d = tt
  live-Distinct ttl_ns now_ns ((k, t) ∷ w) d = ground (arith, live-Distinct ttl_ns now_ns w d.1)

  newest-Distinct : (n : ℕ) (w : List (K × ℕ)) → Distinct (keys w) → Distinct (keys (newest n w))
  unfolding newest
  newest-Distinct n [] d = tt
  newest-Distinct n ((k, t) ∷ w) d = ground (arith, newest-Distinct n w d.1)

length-live :
    {K : Type 0} (ttl_ns now_ns : ℕ) (w : List (K × ℕ)) → length (live ttl_ns now_ns w) ≤ length w
unfolding live
length-live ttl_ns now_ns [] = omega arith
length-live ttl_ns now_ns ((k, t) ∷ w) = ground (arith, length-live ttl_ns now_ns w)

length-newest : {A : Type 0} (n : ℕ) (w : List A) → length (newest n w) ≤ n
unfolding newest
length-newest n [] = omega arith
length-newest n (x ∷ w) = ground (arith, length-newest n w)

module _ {K : Type 0} ⦃e : Eq K⦄ where
  holding-IsValid :
      (c : Cache K) (w : List (K × ℕ))
      → Distinct (keys w)
      → length w ≤ c.capacity
      → 1 ≤ c.capacity
      → IsValid (holding c w)
  holding-IsValid c w d short pos = record {
    in_order = refl;
    distinct = d;
    bounded = short;
    positive = pos;
  }

  -- Both results of a call are valid caches again: the map and the queue hold the same distinct
  -- keys, no more than `capacity` of them.
  pub check_and_insert-IsValid :
      (c : Cache K) (k : K) (now_ns : ℕ) → IsValid c → IsValid (check_and_insert c k now_ns).0
  check_and_insert-IsValid c k now_ns v =
      let w = live c.ttl_ns now_ns c.entries in
      let d = live-Distinct c.ttl_ns now_ns c.entries v.distinct in
      rw (check_and_insert-newest c k now_ns v) (elim (Bool-cases (mem k (keys w))) [
        | inl known ↦ rw known (holding-IsValid c w d (shorter c now_ns v) v.positive)
        | inr new ↦ rw new (
            holding-IsValid c (newest c.capacity (w ++ (k, now_ns) ∷ []))
              (newest-Distinct c.capacity _
                (rw (keys-append w ((k, now_ns) ∷ [])) (Distinct-snoc (keys w) k d new)))
              (length-newest c.capacity (w ++ (k, now_ns) ∷ [])) v.positive)
      ])
    where
      shorter :
          (c : Cache K) (now_ns : ℕ)
          → IsValid c
          → length (live c.ttl_ns now_ns c.entries) ≤ c.capacity
      shorter c now_ns v = omega (arith, length-live c.ttl_ns now_ns c.entries, v.bounded)
