-- ===== src/Connectivity/PeerBook/Bound.antt =====
-- The bound of the peer book: records are evicted from the front of the order of the disconnected,
-- so that the indexes stay exact and only connected records can exceed the bound.
use p2p_net.Prelude.{
  ℕ, ◌≤◌, ◌≡◌, refl, sym, ap, subst, ◌∙◌, ◌⊎◌, inl, inr, Bool, true, false, not, ◌&&◌, Option, none,
  some, List, [], ◌∷◌, arith, ltb, Bool-cases, Option-cases, length, nat_eq, list_eq, option_eq,
}
use p2p_net.Prelude.Assoc.{
  is_some, contains_key, lookup, insert, remove, mem, lookup-insert, lookup-remove, remove-Distinct,
}
use p2p_net.Prelude.OrderedSet.{
  Pair, pair_eq, pair_ord, nat_ord, discard, mem-discard, discard-Distinct,
}
use p2p_net.Common.Multiaddr.{Multiaddr}
use p2p_net.Common.Text.{Text}
use p2p_net.Connectivity.PeerBook.{
  PeerRecord, PeerBook, with_max_records, dequeue, evict_victims, enforce_record_bound,
  sync_indexes, synced, mutate_peer, record_or_new, was_connected, mark_seen,
}
use p2p_net.Connectivity.PeerBook.Index.{Table, Indexed, is_queued, seen_at, is_seen, put-Indexed}
use p2p_net.Connectivity.PeerBook.Ops.{
  Step, Reachable, record_peer, record_addr, record_namespace, record_connected,
  record_capabilities, record_relay_preferred, record_disconnected, record_disconnected_if_known,
  record_failure,
}

-- Every record of the table is connected.
abbrev pub is_connected_or_absent : Option PeerRecord → Bool
is_connected_or_absent none = true
is_connected_or_absent (some r) = r.is_connected

pub record IsIndexed (b : PeerBook) : Type 0 where
  pub index : Indexed b.peers b.disconnected_namespace_peers b.disconnected_eviction_order
  pub bounded :
      (length b.peers ≤ b.max_records)
      ⊎ ((p : ℕ) → is_connected_or_absent (lookup p b.peers) ≡ true)

-- The first of the order is a record of the table, disconnected.
pub first_queued :
    (peers : Table) (candidates : List ℕ) (t p : ℕ) (order : List Pair)
    → Indexed peers candidates ((t, p) ∷ order)
    → is_queued t (lookup p peers) ≡ true
unfolding mem
first_queued peers candidates t p order v = ground (arith, v.queued t p)

pub drop_victim-Indexed :
    (peers : Table) (candidates : List ℕ) (t p : ℕ) (order : List Pair)
    → Indexed peers candidates ((t, p) ∷ order)
    → Indexed (remove p peers) (discard p candidates) order
unfolding mem
drop_victim-Indexed peers candidates t p order v =
    let first = first_queued peers candidates t p order v in
    record {
      distinct = remove-Distinct p peers v.distinct;
      distinct_candidates = discard-Distinct p candidates v.distinct_candidates;
      distinct_order = v.distinct_order.1;
      queued = λ s q.
          ground
            (arith, lookup-remove p q peers v.distinct, v.queued s q, first, v.distinct_order.0);
      reconnectable = λ q. ground (
        arith,
        lookup-remove p q peers v.distinct,
        v.reconnectable q,
        mem-discard p q candidates v.distinct_candidates,
      );
      seen = λ q. ground (arith, lookup-remove p q peers v.distinct, v.seen q);
    }

empty_order-connected :
    (peers : Table) (candidates : List ℕ)
    → Indexed peers candidates []
    → (p : ℕ) → is_connected_or_absent (lookup p peers) ≡ true
unfolding mem
empty_order-connected peers candidates v p = elim (Option-cases (lookup p peers)) [
  | inl e ↦ rw e refl
  | inr (r, e) ↦ rw e (
      go r.is_connected r.last_seen_unix_secs (λ t. v.queued t p ∙ ap (is_queued t) e)
        (sym (ap is_seen e) ∙ v.seen p))
]
  where
    go :
        (c : Bool) (s : Option ℕ)
        → ((t : ℕ) → false ≡ not c && seen_at t s)
        → is_some s ≡ true
        → c ≡ true
    go true s h e = refl
    go false none h e = ground arith
    go false (some t) h e = ground (arith, h t)

evict_victims-Indexed :
    (n : ℕ) (peers : Table) (candidates : List ℕ) (order : List Pair)
    → Indexed peers candidates order
    → let r = evict_victims n peers candidates order in
      Indexed r.0 r.1 r.2
      × ((length r.0 ≤ n) ⊎ ((p : ℕ) → is_connected_or_absent (lookup p r.0) ≡ true))
unfolding evict_victims
evict_victims-Indexed n peers candidates [] v = (v, inr (empty_order-connected peers candidates v))
evict_victims-Indexed n peers candidates ((t, p) ∷ order) v =
    let ih =
      evict_victims-Indexed n (remove p peers) (discard p candidates) order
        (drop_victim-Indexed peers candidates t p order v) in
    elim (Bool-cases (ltb n (length peers))) [
      | inl over ↦ rw (over, evict_victims) ih
      | inr within ↦ rw (within, evict_victims) (v, inl (ground (arith, within)))
    ]

enforce_record_bound-IsIndexed :
    (b : PeerBook)
    → Indexed b.peers b.disconnected_namespace_peers b.disconnected_eviction_order
    → IsIndexed (enforce_record_bound b)
unfolding enforce_record_bound
enforce_record_bound-IsIndexed b v =
    let (index, bounded) =
      evict_victims-Indexed b.max_records b.peers b.disconnected_namespace_peers
        b.disconnected_eviction_order v in
    record { index = index; bounded = bounded }

pub with_max_records-IsIndexed : (n : ℕ) → IsIndexed (with_max_records n)
unfolding with_max_records lookup mem
with_max_records-IsIndexed n = record {
  index = record {
    distinct = tt;
    distinct_candidates = tt;
    distinct_order = tt;
    queued = λ t p. refl;
    reconnectable = λ p. refl;
    seen = λ p. refl;
  };
  bounded = inl (omega arith);
}

-- The book after the record was put, before the bound is enforced.
abbrev pub put_record : PeerBook → ℕ → PeerRecord → PeerBook
put_record b p r = record b {
  peers = insert p r b.peers;
  disconnected_eviction_order = dequeue p (lookup p b.peers) b.disconnected_eviction_order;
}

pub lookup-put_record :
    (b : PeerBook) (p : ℕ) (r : PeerRecord) → some r ≡ lookup p (put_record b p r).peers
lookup-put_record b p r = ground (arith, lookup-insert p p r b.peers)

-- Whatever a method does to the record of a peer, the indexes stay exact.
pub mutate_peer-IsIndexed :
    (now : ℕ) (b : PeerBook) (p : ℕ) (f : PeerRecord → PeerRecord)
    → IsIndexed b
    → IsIndexed (mutate_peer now b p f)
unfolding mutate_peer sync_indexes
mutate_peer-IsIndexed now b p f v =
    let r = mark_seen now (f (record_or_new p (lookup p b.peers))) in
    let before = was_connected (lookup p b.peers) in
    subst (λ o. IsIndexed (enforce_record_bound (synced (put_record b p r) p before o)))
      (lookup-put_record b p r)
      (enforce_record_bound-IsIndexed _ (
        put-Indexed b.peers b.disconnected_namespace_peers b.disconnected_eviction_order p r v.index
          refl))

record_disconnected_if_known-IsIndexed :
    (now : ℕ) (b : PeerBook) (p : ℕ)
    → IsIndexed b
    → IsIndexed (record_disconnected_if_known now b p)
unfolding record_disconnected_if_known
record_disconnected_if_known-IsIndexed now b p v = elim (Bool-cases (contains_key p b.peers)) [
  | inl known ↦ rw (known, record_disconnected_if_known) (mutate_peer-IsIndexed now b p _ v)
  | inr unknown ↦ rw (unknown, record_disconnected_if_known) v
]

module _ (print : Multiaddr → Text) where
  pub Step-IsIndexed : {b c : PeerBook} → Step print b c → IsIndexed b → IsIndexed c
  unfolding record_peer record_addr record_namespace record_connected record_capabilities
      record_relay_preferred record_disconnected record_failure
  Step-IsIndexed (Step.peer now p s) v = mutate_peer-IsIndexed now _ p _ v
  Step-IsIndexed (Step.addr now p a s) v = mutate_peer-IsIndexed now _ p _ v
  Step-IsIndexed (Step.namespace now p n s) v = mutate_peer-IsIndexed now _ p _ v
  Step-IsIndexed (Step.connection now p a) v = mutate_peer-IsIndexed now _ p _ v
  Step-IsIndexed (Step.capabilities now p x y z) v = mutate_peer-IsIndexed now _ p _ v
  Step-IsIndexed (Step.preference now p x) v = mutate_peer-IsIndexed now _ p _ v
  Step-IsIndexed (Step.disconnection now p) v = mutate_peer-IsIndexed now _ p _ v
  Step-IsIndexed (Step.disconnection_if_known now p) v =
      record_disconnected_if_known-IsIndexed now _ p v
  Step-IsIndexed (Step.failure now p) v = mutate_peer-IsIndexed now _ p _ v

  -- In every history of a book, the order of eviction holds exactly the disconnected records, each
  -- once and at the time when it was last seen; the reconnect candidates are exactly the
  -- disconnected records with a namespace; every record was seen; and the book is within its bound
  -- or all that it still holds is connected.
  pub Reachable-IsIndexed : (n : ℕ) (b : PeerBook) → Reachable print n b → IsIndexed b
  Reachable-IsIndexed n _ Reachable.start = with_max_records-IsIndexed n
  Reachable-IsIndexed n _ (Reachable.next path step) =
      Step-IsIndexed step (Reachable-IsIndexed n _ path)
