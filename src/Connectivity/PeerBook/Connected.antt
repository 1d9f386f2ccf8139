-- ===== src/Connectivity/PeerBook/Connected.antt =====
-- The connected records of the peer book: they are counted exactly, and never evicted.
use p2p_net.Prelude.{
  ℕ, ◌+◌, ◌≤◌, ◌<◌, ◌≡◌, refl, sym, subst, ◌∙◌, inl, inr, Bool, true, false, Option, none, some,
  List, [], ◌∷◌, arith, ltb, Bool-cases, length, u64_max, ◌==◌, ==_iff, nat_eq, list_eq, option_eq,
}
use p2p_net.Prelude.Assoc.{lookup, insert, remove, lookup-insert, lookup-remove}
use p2p_net.Prelude.Weigh.{weigh, weight_of, weigh-insert, weigh-remove}
use p2p_net.Prelude.OrderedSet.{Pair, pair_eq, pair_ord, nat_ord, discard}
use p2p_net.Connectivity.PeerBook.{
  PeerRecord, PeerBook, evict_victims, enforce_record_bound, sync_indexes, synced, mutate_peer,
  recount, record_or_new, was_connected, mark_seen,
}
use p2p_net.Connectivity.PeerBook.Index.{Table, Indexed, is_queued, put-Indexed}
use p2p_net.Connectivity.PeerBook.Bound.{
  IsIndexed, put_record, lookup-put_record, first_queued, drop_victim-Indexed,
}

-- 1 for a connected record.
abbrev pub one_if : Bool → ℕ
one_if true = 1
one_if false = 0

abbrev pub count : ℕ → PeerRecord → ℕ
count p r = one_if r.is_connected

abbrev pub IsCounted : PeerBook → Type 0
IsCounted b = b.connected_count ≡ weigh count b.peers

-- A queued record is not connected.
queued-weight : (t p : ℕ) (o : Option PeerRecord) → is_queued t o ≡ true → weight_of count p o ≡ 0
queued-weight t p none h = refl
queued-weight t p (some r) h = ground (arith, h)

weigh-evict_victims :
    (n : ℕ) (peers : Table) (candidates : List ℕ) (order : List Pair)
    → Indexed peers candidates order
    → weigh count (evict_victims n peers candidates order).0 ≡ weigh count peers
unfolding evict_victims
weigh-evict_victims n peers candidates [] v = refl
weigh-evict_victims n peers candidates ((t, p) ∷ order) v =
    let ih =
      weigh-evict_victims n (remove p peers) (discard p candidates) order
        (drop_victim-Indexed peers candidates t p order v) in
    let w = queued-weight t p (lookup p peers) (first_queued peers candidates t p order v) in
    elim (Bool-cases (ltb n (length peers))) [
      | inl over ↦ rw (over, evict_victims) (ih ∙ omega (arith, weigh-remove count p peers, w))
      | inr within ↦ rw (within, evict_victims) refl
    ]

-- A connected record is found again after the eviction.
queued-disconnected :
    (t : ℕ) (r : PeerRecord) → is_queued t (some r) ≡ true → r.is_connected ≡ true → ⊥
queued-disconnected t r h c = ground arith

lookup-evict_victims :
    (n : ℕ) (peers : Table) (candidates : List ℕ) (order : List Pair) (q : ℕ) (r : PeerRecord)
    → Indexed peers candidates order
    → lookup q peers ≡ some r
    → r.is_connected ≡ true
    → lookup q (evict_victims n peers candidates order).0 ≡ some r
unfolding evict_victims
lookup-evict_victims n peers candidates [] q r v at c = at
lookup-evict_victims n peers candidates ((t, p) ∷ order) q r v at c =
    elim (Bool-cases (ltb n (length peers))) [
      | inl over ↦
          rw (over, evict_victims)
            (lookup-evict_victims n (remove p peers) (discard p candidates) order q r
              (drop_victim-Indexed peers candidates t p order v)
              (kept (first_queued peers candidates t p order v)) c)
      | inr within ↦ rw (within, evict_victims) at
    ]
  where
    kept : is_queued t (lookup p peers) ≡ true → lookup q (remove p peers) ≡ some r
    kept first = lookup-remove p q peers v.distinct ∙ elim (Bool-cases (p == q)) [
      | inr other ↦ rw other at
      | inl e ↦ absurd (
          queued-disconnected t r
            (subst (λ o. is_queued t o ≡ true) at
              (subst (λ z. is_queued t (lookup z peers) ≡ true) ((==_iff p q).0 e) first))
            c)
    ]

recount_lem :
    (before after : Bool) (n : ℕ)
    → n < u64_max
    → one_if before ≤ n
    → recount before after n + one_if before ≡ n + one_if after
recount_lem false false n small le = ground arith
recount_lem false true n small le = ground arith
recount_lem true false n small le = ground arith
recount_lem true true n small le = ground arith

weight_of-le : (p : ℕ) (peers : Table) → weight_of count p (lookup p peers) ≤ weigh count peers
weight_of-le p peers = omega (arith, weigh-remove count p peers)

was_connected-weight :
    (p : ℕ) (o : Option PeerRecord) → one_if (was_connected o) ≡ weight_of count p o
was_connected-weight p none = refl
was_connected-weight p (some r) = refl

put_record-IsCounted :
    (b : PeerBook) (p : ℕ) (r : PeerRecord)
    → IsCounted b
    → b.connected_count < u64_max
    → recount (was_connected (lookup p b.peers)) r.is_connected b.connected_count
      ≡ weigh count (insert p r b.peers)
put_record-IsCounted b p r v small = omega (
  arith,
  recount_lem (was_connected (lookup p b.peers)) r.is_connected b.connected_count small
      (omega (arith, v, weight_of-le p b.peers, was_connected-weight p (lookup p b.peers))),
  was_connected-weight p (lookup p b.peers),
  weigh-insert count p r b.peers,
  v,
)

-- The count of connected peers stays the number of connected records, whatever a method does to
-- the record of a peer, where the indexes are exact and the count is below the greatest number of
-- 64 bits.
pub mutate_peer-IsCounted :
    (now : ℕ) (b : PeerBook) (p : ℕ) (f : PeerRecord → PeerRecord)
    → IsIndexed b
    → IsCounted b
    → b.connected_count < u64_max
    → IsCounted (mutate_peer now b p f)
unfolding mutate_peer sync_indexes enforce_record_bound
mutate_peer-IsCounted now b p f v counted small =
    let r = mark_seen now (f (record_or_new p (lookup p b.peers))) in
    let before = was_connected (lookup p b.peers) in
    subst (λ o. IsCounted (enforce_record_bound (synced (put_record b p r) p before o)))
      (lookup-put_record b p r)
      (put_record-IsCounted b p r counted small
        ∙ sym (
            weigh-evict_victims b.max_records (insert p r b.peers) _ _ (
              put-Indexed b.peers b.disconnected_namespace_peers b.disconnected_eviction_order p r
                v.index refl)))

-- What is put and connected is still found after the bound is enforced.
pub put_record-lookup :
    (now : ℕ) (b : PeerBook) (p : ℕ) (f : PeerRecord → PeerRecord) (q : ℕ) (r : PeerRecord)
    → IsIndexed b
    → lookup q (insert p (mark_seen now (f (record_or_new p (lookup p b.peers)))) b.peers) ≡ some r
    → r.is_connected ≡ true
    → lookup q (mutate_peer now b p f).peers ≡ some r
unfolding mutate_peer sync_indexes enforce_record_bound
put_record-lookup now b p f q r v at c =
    let new = mark_seen now (f (record_or_new p (lookup p b.peers))) in
    let before = was_connected (lookup p b.peers) in
    subst
      (λ o. lookup q (enforce_record_bound (synced (put_record b p new) p before o)).peers ≡ some r)
      (lookup-put_record b p new)
      (lookup-evict_victims b.max_records (insert p new b.peers) _ _ q r
        (put-Indexed b.peers b.disconnected_namespace_peers b.disconnected_eviction_order p new
          v.index refl)
        at c)

-- In a book with exact indexes and within its bound, a connected record survives every change to
-- another peer's record unchanged: it is never evicted.
pub mutate_peer-keeps_connected :
    (now : ℕ) (b : PeerBook) (p : ℕ) (f : PeerRecord → PeerRecord) (q : ℕ) (r : PeerRecord)
    → IsIndexed b
    → lookup q b.peers ≡ some r
    → r.is_connected ≡ true
    → (p == q) ≡ false
    → lookup q (mutate_peer now b p f).peers ≡ some r
mutate_peer-keeps_connected now b p f q r v at c other =
    put_record-lookup now b p f q r v (lookup-insert p q _ b.peers ∙ rw other at) c
