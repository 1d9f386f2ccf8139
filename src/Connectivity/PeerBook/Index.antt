-- ===== src/Connectivity/PeerBook/Index.antt =====
-- The indexes of the peer book: the eviction order holds exactly the disconnected records, each at
-- the time when it was last seen, and the candidates are the disconnected records with a
-- namespace.
use p2p_net.Prelude.{
  ℕ, ◌≡◌, inl, inr, Bool, true, false, not, ◌&&◌, Option, none, some, List, arith, nat_beq,
  if◌then◌else◌, Bool-cases, ◌==◌, ==_iff, nat_eq, list_eq, option_eq,
}
use p2p_net.Prelude.Assoc.{
  is_some, lookup, insert, mem, keys, Distinct, lookup-insert, insert-Distinct,
}
use p2p_net.Prelude.OrderedSet.{
  Pair, pair_eq, pair_ord, nat_ord, include, discard, mem-include, include-Distinct, mem-discard,
  discard-Distinct,
}
use p2p_net.Connectivity.PeerBook.{PeerRecord, is_candidate, enqueue, unqueue, dequeue}

abbrev pub Table : Type 0
Table = List (ℕ × PeerRecord)

-- Was the record seen last at the time, and is it disconnected?
abbrev pub seen_at : ℕ → Option ℕ → Bool
seen_at t none = false
seen_at t (some s) = nat_beq s t

abbrev pub is_queued : ℕ → Option PeerRecord → Bool
is_queued t none = false
is_queued t (some r) = not r.is_connected && seen_at t r.last_seen_unix_secs

abbrev pub is_reconnectable : Option PeerRecord → Bool
is_reconnectable none = false
is_reconnectable (some r) = is_candidate r

-- A record of the table was seen.
abbrev pub is_seen : Option PeerRecord → Bool
is_seen none = true
is_seen (some r) = is_some r.last_seen_unix_secs

pub record Indexed (peers : Table) (candidates : List ℕ) (order : List Pair) : Type 0 where
  pub distinct : Distinct (keys peers)
  pub distinct_candidates : Distinct candidates
  pub distinct_order : Distinct order
  pub queued : (t p : ℕ) → mem (t, p) order ≡ is_queued t (lookup p peers)
  pub reconnectable : (p : ℕ) → mem p candidates ≡ is_reconnectable (lookup p peers)
  pub seen : (p : ℕ) → is_seen (lookup p peers) ≡ true

abbrev pub put_candidate : ℕ → PeerRecord → List ℕ → List ℕ
put_candidate p r candidates = if is_candidate r then include p candidates else discard p candidates

put_candidate-Distinct :
    (p : ℕ) (r : PeerRecord) (candidates : List ℕ)
    → Distinct candidates
    → Distinct (put_candidate p r candidates)
put_candidate-Distinct p r candidates d = elim (Bool-cases (is_candidate r)) [
  | inl e ↦ rw e (include-Distinct p candidates d)
  | inr e ↦ rw e (discard-Distinct p candidates d)
]

mem-put_candidate :
    (p q : ℕ) (r : PeerRecord) (candidates : List ℕ)
    → Distinct candidates
    → mem q (put_candidate p r candidates) ≡ (if p == q then is_candidate r else mem q candidates)
mem-put_candidate p q r candidates d =
    ground (arith, ==_iff p q, ==_iff q p, mem-include p q candidates, mem-discard p q candidates d)

unqueue-Distinct :
    (p : ℕ) (c : Bool) (seen : Option ℕ) (order : List Pair)
    → Distinct order
    → Distinct (unqueue p c seen order)
unqueue-Distinct p true seen order d = d
unqueue-Distinct p false none order d = d
unqueue-Distinct p false (some t) order d = discard-Distinct (t, p) order d

enqueue-Distinct :
    (p : ℕ) (c : Bool) (seen : Option ℕ) (order : List Pair)
    → Distinct order
    → Distinct (enqueue p c seen order)
enqueue-Distinct p true seen order d = d
enqueue-Distinct p false none order d = d
enqueue-Distinct p false (some t) order d = include-Distinct (t, p) order d

-- Without a record's own entry, the order has the others only.
mem-unqueue :
    (p : ℕ) (c : Bool) (seen : Option ℕ) (order : List Pair) (t q : ℕ)
    → Distinct order
    → ((s : ℕ) → mem (s, p) order ≡ not c && seen_at s seen)
    → mem (t, q) (unqueue p c seen order) ≡ (if p == q then false else mem (t, q) order)
mem-unqueue p true seen order t q d v = ground (arith, v t)
mem-unqueue p false none order t q d v = ground (arith, v t)
mem-unqueue p false (some s) order t q d v = ground (arith, v t, mem-discard (s, p) (t, q) order d)

mem-enqueue :
    (p : ℕ) (c : Bool) (seen : Option ℕ) (order : List Pair) (t q : ℕ)
    → mem (t, q) (enqueue p c seen order)
      ≡ (if p == q && (not c && seen_at t seen) then true else mem (t, q) order)
mem-enqueue p true seen order t q = ground arith
mem-enqueue p false none order t q = ground arith
mem-enqueue p false (some s) order t q = ground (arith, mem-include (s, p) (t, q) order)

dequeue-Distinct :
    (p : ℕ) (o : Option PeerRecord) (order : List Pair)
    → Distinct order
    → Distinct (dequeue p o order)
dequeue-Distinct p none order d = d
dequeue-Distinct p (some r) order d =
    unqueue-Distinct p r.is_connected r.last_seen_unix_secs order d

mem-dequeue :
    (p : ℕ) (o : Option PeerRecord) (order : List Pair) (t q : ℕ)
    → Distinct order
    → ((s : ℕ) → mem (s, p) order ≡ is_queued s o)
    → mem (t, q) (dequeue p o order) ≡ (if p == q then false else mem (t, q) order)
mem-dequeue p none order t q d v = ground (arith, v t)
mem-dequeue p (some r) order t q d v =
    mem-unqueue p r.is_connected r.last_seen_unix_secs order t q d v

pub put-Indexed :
    (peers : Table) (candidates : List ℕ) (order : List Pair) (p : ℕ) (r : PeerRecord)
    → Indexed peers candidates order
    → is_some r.last_seen_unix_secs ≡ true
    → Indexed
        (insert p r peers)
        (put_candidate p r candidates)
        (enqueue p r.is_connected r.last_seen_unix_secs (dequeue p (lookup p peers) order))
put-Indexed peers candidates order p r v seen = record {
  distinct = insert-Distinct p r peers v.distinct;
  distinct_candidates = put_candidate-Distinct p r candidates v.distinct_candidates;
  distinct_order =
      enqueue-Distinct p r.is_connected r.last_seen_unix_secs _
        (dequeue-Distinct p (lookup p peers) order v.distinct_order);
  queued = λ t q. ground (
    arith,
    lookup-insert p q r peers,
    v.queued t q,
    mem-enqueue p r.is_connected r.last_seen_unix_secs (dequeue p (lookup p peers) order) t q,
    mem-dequeue p (lookup p peers) order t q v.distinct_order (λ s. v.queued s p),
  );
  reconnectable = λ q. ground (
    arith,
    lookup-insert p q r peers,
    v.reconnectable q,
    mem-put_candidate p q r candidates v.distinct_candidates,
  );
  seen = λ q. ground (arith, lookup-insert p q r peers, v.seen q, seen);
}
