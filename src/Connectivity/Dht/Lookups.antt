-- ===== src/Connectivity/Dht/Lookups.antt =====
-- Lookups of the addresses of a provider: one at a time for each peer, with a cooldown.
use p2p_net.Prelude.{
  ℕ, ◌-◌, ◌≡◌, refl, true, false, some, List, [], ◌∷◌, arith, leb, ◌==◌, nat_eq, list_eq, option_eq,
}
use p2p_net.Prelude.Assoc.{insert, remove, mem, keys, lookup-insert_same}
use p2p_net.Connectivity.Dht.State.{DhtProviderState, provider_addr_lookup_cooldown_secs}
use p2p_net.Connectivity.Dht.Queries.{
  any_value, start_provider_addr_lookup, complete_provider_addr_lookup,
  should_lookup_provider_addrs,
}

any_value-insert_same :
    (id peer : ℕ) (m : List (ℕ × ℕ)) → any_value (λ p. p == peer) (insert id peer m) ≡ true
unfolding any_value insert
any_value-insert_same id peer [] = ground arith
any_value-insert_same id peer ((j, q) ∷ m) = ground (arith, any_value-insert_same id peer m)

remove-insert :
    (id peer : ℕ) (m : List (ℕ × ℕ)) → mem id (keys m) ≡ false → remove id (insert id peer m) ≡ m
unfolding insert remove mem
remove-insert id peer [] new = ground arith
remove-insert id peer ((j, q) ∷ m) new = ground (arith, remove-insert id peer m)

-- While a lookup of a peer's addresses is in progress, no other one is due. When it completes, it
-- gives back the peer, and where no other one is in progress the next is due after the cooldown
-- since its start.
pub complete_provider_addr_lookup-start_provider_addr_lookup :
    (s : DhtProviderState) (id peer now later : ℕ)
    → mem id (keys s.provider_addr_lookup_queries) ≡ false
    → any_value (λ p. p == peer) s.provider_addr_lookup_queries ≡ false
    → let started = start_provider_addr_lookup s id peer now in
      let completed = complete_provider_addr_lookup started id in
      (should_lookup_provider_addrs started peer later ≡ false)
      × (completed.1 ≡ some peer)
      × (should_lookup_provider_addrs completed.0 peer later
          ≡ leb provider_addr_lookup_cooldown_secs (later - now))
unfolding start_provider_addr_lookup complete_provider_addr_lookup should_lookup_provider_addrs
complete_provider_addr_lookup-start_provider_addr_lookup s id peer now later fresh idle = (
  rw (any_value-insert_same id peer s.provider_addr_lookup_queries) refl,
  lookup-insert_same id peer s.provider_addr_lookup_queries,
  rw
      (
        remove-insert id peer s.provider_addr_lookup_queries fresh,
        idle,
        lookup-insert_same peer now s.provider_addr_lookup_started_unix_secs,
      )
      refl,
)
