-- ===== src/Connectivity/Dht/Histories.antt =====
-- The providers that were found, and the histories of the state of the DHT searches.
use p2p_net.Prelude.{
  ℕ, ◌-◌, ◌≡◌, refl, sym, ap, subst, ◌∙◌, inl, inr, true, false, List, [], ◌∷◌, ◌++◌, arith,
  Bool-cases, excess-cases, length, drop, ==_refl, nat_eq, list_eq, option_eq,
}
use p2p_net.Prelude.Assoc.{
  lookup, insert, remove, mem, contains_key, contains_key-mem, keys, Distinct, insert-Distinct,
}
use p2p_net.Common.Text.{Text}
use p2p_net.Connectivity.Dht.State.{
  DhtProviderState, max_tracked_provider_peers, forget_attempted, forget_waiting, forget_provider,
  set_discovered, prune_providers, prune_provider_tracking, record_provider_peer,
  mark_auto_connect_attempted, mark_auto_connect_waiting_for_addrs, mark_auto_connect_failed,
  mark_auto_connect_disconnected, auto_connect_retry_allowed, should_auto_connect_provider_result,
  should_auto_connect_after_addr_update,
}
use p2p_net.Connectivity.Dht.Ordered.{
  IsOrdered, aligned, dropped-IsOrdered, order_lem, keys-insert-known, length-insert-known,
}
use p2p_net.Connectivity.Dht.Consistent.{
  IsConsistent, forget_attempted-IsConsistent, forget_waiting-IsConsistent,
  mark_attempted-IsConsistent, mark_waiting-IsConsistent, retry_allowed-IsConsistent,
  provider_result-IsConsistent,
}

-- The policy is consistent and the providers are in order.
pub record IsTracked (s : DhtProviderState) : Type 0 where
  pub policy : IsConsistent s
  pub providers : IsOrdered s.discovered_provider_peers

forget_provider-IsConsistent :
    (peer : ℕ) (s : DhtProviderState) → IsConsistent s → IsConsistent (forget_provider peer s)
forget_provider-IsConsistent peer s v =
    let w =
      forget_waiting-IsConsistent peer (forget_attempted peer s)
        (forget_attempted-IsConsistent peer s v) in
    record { attempted = w.attempted; waiting = w.waiting; apart = w.apart; retries = w.retries }

set_discovered-IsConsistent :
    (table : List (ℕ × List Text)) (order : List ℕ) (s : DhtProviderState)
    → IsConsistent s
    → IsConsistent (set_discovered table order s)
set_discovered-IsConsistent table order s v = record {
  attempted = v.attempted;
  waiting = v.waiting;
  apart = v.apart;
  retries = v.retries;
}

abbrev Pruned : List (ℕ × List Text) → DhtProviderState → Type 0
Pruned m t =
    IsConsistent t
    × (t.discovered_provider_peers ≡ aligned (drop (length m - max_tracked_provider_peers) m))

prune_providers-Pruned :
    (m : List (ℕ × List Text)) (s : DhtProviderState)
    → IsConsistent s
    → Pruned m (prune_providers m (keys m) s)
unfolding prune_providers remove lookup
prune_providers-Pruned [] s v = (set_discovered-IsConsistent [] [] s v, refl)
prune_providers-Pruned ((k, n) ∷ m) s v =
    rw (==_refl k) (elim (excess-cases max_tracked_provider_peers (length m)) [
      | inl (e, d) ↦
          rw (e, d)
            (prune_providers-Pruned m (forget_provider k s) (forget_provider-IsConsistent k s v))
      | inr (e, d) ↦ rw (e, d) (set_discovered-IsConsistent ((k, n) ∷ m) (k ∷ keys m) s v, refl)
    ])

Pruned-IsTracked :
    (m : List (ℕ × List Text)) (t : DhtProviderState) → Distinct (keys m) → Pruned m t → IsTracked t
Pruned-IsTracked m t d (v, e) = record {
  policy = v;
  providers = subst IsOrdered (sym e) (dropped-IsOrdered m d);
}

-- A known provider keeps its place.
known-IsTracked :
    (s : DhtProviderState) (peer : ℕ) (namespaces : List Text)
    → IsTracked s
    → contains_key peer s.discovered_provider_peers.table ≡ true
    → IsTracked (
        set_discovered
          (insert peer namespaces s.discovered_provider_peers.table)
          s.discovered_provider_peers.order
          s)
known-IsTracked s peer namespaces v known =
    let m = s.discovered_provider_peers.table in
    let there : mem peer (keys m) ≡ true = sym (contains_key-mem peer m) ∙ known in
    record {
      policy = set_discovered-IsConsistent _ _ s v.policy;
      providers = record {
        same = keys-insert-known peer namespaces m there ∙ v.providers.same;
        distinct = insert-Distinct peer namespaces m v.providers.distinct;
        bounded = omega (arith, length-insert-known peer namespaces m there, v.providers.bounded);
      };
    }

-- A new provider goes to the end of the order, and the oldest may be evicted.
new-IsTracked :
    (s : DhtProviderState) (peer : ℕ) (namespaces : List Text)
    → IsTracked s
    → contains_key peer s.discovered_provider_peers.table ≡ false
    → let next = insert peer namespaces s.discovered_provider_peers.table in
      IsTracked (
        prune_providers next
          (s.discovered_provider_peers.order ++ peer ∷ [])
          (set_discovered next (s.discovered_provider_peers.order ++ peer ∷ []) s))
new-IsTracked s peer namespaces v new =
    let m = s.discovered_provider_peers.table in
    let o = s.discovered_provider_peers.order in
    let next = insert peer namespaces m in
    let e : keys next ≡ o ++ peer ∷ [] =
      sym (order_lem peer namespaces m) ∙ rw new (ap (λ l. l ++ peer ∷ []) v.providers.same) in
    let t = set_discovered next (o ++ peer ∷ []) s in
    subst (λ order. IsTracked (prune_providers next order t)) e
      (Pruned-IsTracked next (prune_providers next (keys next) t)
        (insert-Distinct peer namespaces m v.providers.distinct)
        (prune_providers-Pruned next t
          (set_discovered-IsConsistent next (o ++ peer ∷ []) s v.policy)))

record_provider_peer-IsTracked :
    (s : DhtProviderState) (peer : ℕ) (namespace : Text)
    → IsTracked s
    → IsTracked (record_provider_peer s peer namespace).0
unfolding record_provider_peer prune_provider_tracking
record_provider_peer-IsTracked s peer namespace v =
    elim (Bool-cases (contains_key peer s.discovered_provider_peers.table)) [
      | inl known ↦ rw known (known-IsTracked s peer _ v known)
      | inr new ↦ rw new (new-IsTracked s peer _ v new)
    ]

-- One call of a method of the policy, at a time.
pub data Step (s : DhtProviderState) : DhtProviderState → Type 0 where
  provider : (peer : ℕ) (n : Text) → Step s (record_provider_peer s peer n).0
  attempt : (now peer : ℕ) → Step s (mark_auto_connect_attempted now s peer).0
  wait : (peer : ℕ) → Step s (mark_auto_connect_waiting_for_addrs s peer).0
  failure : (peer : ℕ) → Step s (mark_auto_connect_failed s peer).0
  disconnection : (peer : ℕ) → Step s (mark_auto_connect_disconnected s peer)
  provider_result : (now peer : ℕ) → Step s (should_auto_connect_provider_result now s peer).0
  addr_update : (now peer : ℕ) → Step s (should_auto_connect_after_addr_update now s peer).0

forgotten-IsTracked :
    (s : DhtProviderState) (peer : ℕ)
    → IsTracked s
    → IsTracked (forget_attempted peer (forget_waiting peer s))
forgotten-IsTracked s peer v = record {
  policy =
      forget_attempted-IsConsistent peer (forget_waiting peer s)
        (forget_waiting-IsConsistent peer s v.policy);
  providers = v.providers;
}

-- The methods of the policy leave the providers as they are.
attempt-providers :
    (now : ℕ) (s : DhtProviderState) (peer : ℕ)
    → (mark_auto_connect_attempted now s peer).0.discovered_provider_peers
      ≡ s.discovered_provider_peers
unfolding mark_auto_connect_attempted
attempt-providers now s peer = refl

wait-providers :
    (s : DhtProviderState) (peer : ℕ)
    → (mark_auto_connect_waiting_for_addrs s peer).0.discovered_provider_peers
      ≡ s.discovered_provider_peers
unfolding mark_auto_connect_waiting_for_addrs
wait-providers s peer = elim (Bool-cases (mem peer s.auto_connect_attempted_peers.members)) [
  | inl e ↦ rw (e, mark_auto_connect_waiting_for_addrs) refl
  | inr e ↦ rw (e, mark_auto_connect_waiting_for_addrs) refl
]

allowed-providers :
    (now : ℕ) (s : DhtProviderState) (peer : ℕ)
    → (auto_connect_retry_allowed now s peer).0.discovered_provider_peers
      ≡ s.discovered_provider_peers
unfolding auto_connect_retry_allowed
allowed-providers now s peer = elim (Bool-cases (mem peer s.auto_connect_attempted_peers.members)) [
  | inl e ↦ rw (e, auto_connect_retry_allowed) refl
  | inr e ↦ rw (e, auto_connect_retry_allowed) refl
]

result-providers :
    (now : ℕ) (s : DhtProviderState) (peer : ℕ)
    → (should_auto_connect_provider_result now s peer).0.discovered_provider_peers
      ≡ s.discovered_provider_peers
unfolding should_auto_connect_provider_result
result-providers now s peer =
    elim (Bool-cases (mem peer s.auto_connect_waiting_for_addrs.members)) [
      | inl e ↦ rw (e, should_auto_connect_provider_result) refl
      | inr e ↦ rw (e, should_auto_connect_provider_result) (allowed-providers now s peer)
    ]

tracked :
    (s t : DhtProviderState)
    → IsTracked s
    → IsConsistent t
    → t.discovered_provider_peers ≡ s.discovered_provider_peers
    → IsTracked t
tracked s t v w e = record { policy = w; providers = subst IsOrdered (sym e) v.providers }

-- Every method that records a provider or decides or notes an automatic connection keeps the state
-- consistent: the sets of attempted and of waiting peers are listed by their queues, each peer once
-- and the oldest first; no peer is in both; the retries and the providers are tables whose order
-- lists their keys; and each of the four has at most 2048 entries.
pub Step-IsTracked : (s t : DhtProviderState) → Step s t → IsTracked s → IsTracked t
unfolding mark_auto_connect_failed mark_auto_connect_disconnected
Step-IsTracked s _ (Step.provider peer n) v = record_provider_peer-IsTracked s peer n v
Step-IsTracked s _ (Step.attempt now peer) v =
    tracked s _ v (mark_attempted-IsConsistent now s peer v.policy) (attempt-providers now s peer)
Step-IsTracked s _ (Step.wait peer) v =
    tracked s _ v (mark_waiting-IsConsistent s peer v.policy) (wait-providers s peer)
Step-IsTracked s _ (Step.failure peer) v = forgotten-IsTracked s peer v
Step-IsTracked s _ (Step.disconnection peer) v = forgotten-IsTracked s peer v
Step-IsTracked s _ (Step.provider_result now peer) v =
    tracked s _ v (provider_result-IsConsistent now s peer v.policy) (result-providers now s peer)
Step-IsTracked s _ (Step.addr_update now peer) v =
    tracked s _ v (retry_allowed-IsConsistent now s peer v.policy) (allowed-providers now s peer)
