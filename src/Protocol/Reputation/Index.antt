-- ===== src/Protocol/Reputation/Index.antt =====
-- The age index of the reputation store: it holds exactly the peers of the table, each at the time
-- of its last update, and the table stays within its bound.
use p2p_net.Prelude.{
  nat_eq, ℕ, ◌≤◌, ◌≡◌, refl, ap, subst, ◌∙◌, Bool, false, Option, none, some, List, [], ◌∷◌,
  nat_beq, ltb, length, arith, Bool-cases, Option-cases, inl, inr,
}
use p2p_net.Prelude.Assoc.{
  lookup, insert, remove, mem, keys, Distinct, lookup-insert, lookup-remove, insert-Distinct,
  remove-Distinct,
}
use p2p_net.Prelude.Int.{int_eq}
use p2p_net.Prelude.OrderedSet.{
  Pair, pair_eq, pair_ord, include, discard, mem-include, include-Distinct, mem-discard,
  discard-Distinct,
}
use p2p_net.Protocol.Config.{ReputationConfig}
use p2p_net.Protocol.Reputation.{
  ReputationEntry, ReputationStore, new_entry, with_capacity, evict_oldest, enforce_capacity,
  update_peer, accept, penalize_invalid, ignore_duplicate,
}

-- Was the peer of an entry updated at the time?
abbrev pub is_at : ℕ → Option ReputationEntry → Bool
is_at t none = false
is_at t (some entry) = nat_beq entry.last_updated t

pub record Indexed (by_peer : List (ℕ × ReputationEntry)) (order : List Pair) : Type 0 where
  pub distinct : Distinct (keys by_peer)
  pub distinct_order : Distinct order
  pub indexed : (t peer : ℕ) → mem (t, peer) order ≡ is_at t (lookup peer by_peer)

pub record IsIndexed (s : ReputationStore) : Type 0 where
  pub index : Indexed s.by_peer s.age_order
  pub bounded : length s.by_peer ≤ s.max_peers
  pub positive : 1 ≤ s.max_peers

pub with_capacity-IsIndexed : (cfg : ReputationConfig) (n : ℕ) → IsIndexed (with_capacity cfg n)
unfolding with_capacity lookup mem
with_capacity-IsIndexed cfg n = record {
  index = record { distinct = tt; distinct_order = tt; indexed = λ t peer. refl };
  bounded = omega arith;
  positive = omega arith;
}

pub remove-Indexed :
    (m : List (ℕ × ReputationEntry)) (order : List Pair) (peer : ℕ) (entry : ReputationEntry)
    → Indexed m order
    → lookup peer m ≡ some entry
    → Indexed (remove peer m) (discard (entry.last_updated, peer) order)
remove-Indexed m order peer entry v at = record {
  distinct = remove-Distinct peer m v.distinct;
  distinct_order = discard-Distinct (entry.last_updated, peer) order v.distinct_order;
  indexed = λ t q. ground (
    arith,
    mem-discard (entry.last_updated, peer) (t, q) order v.distinct_order,
    lookup-remove peer q m v.distinct,
    v.indexed t q,
  );
}

-- The order without the peer that is updated.
abbrev pub without : ℕ → Option ReputationEntry → List Pair → List Pair
without peer none order = order
without peer (some entry) order = discard (entry.last_updated, peer) order

insert-Indexed :
    (m : List (ℕ × ReputationEntry)) (order : List Pair) (peer : ℕ) (entry : ReputationEntry)
    → Indexed m order
    → Indexed
        (insert peer entry m)
        (include (entry.last_updated, peer) (without peer (lookup peer m) order))
insert-Indexed m order peer entry v = elim (Option-cases (lookup peer m)) [
  | inl new ↦ rw new (record {
    distinct = insert-Distinct peer entry m v.distinct;
    distinct_order = include-Distinct (entry.last_updated, peer) order v.distinct_order;
    indexed = λ t q. ground (
      arith,
      mem-include (entry.last_updated, peer) (t, q) order,
      lookup-insert peer q entry m,
      v.indexed t q,
    );
  })
  | inr (old, at) ↦ rw at (
      let w = mem-discard {K = Pair} (old.last_updated, peer) in
      record {
        distinct = insert-Distinct peer entry m v.distinct;
        distinct_order =
            include-Distinct (entry.last_updated, peer) _
              (discard-Distinct (old.last_updated, peer) order v.distinct_order);
        indexed = λ t q. ground (
          arith,
          mem-include (entry.last_updated, peer) (t, q) (discard (old.last_updated, peer) order),
          w (t, q) order v.distinct_order,
          lookup-insert peer q entry m,
          v.indexed t q,
        );
      })
]

-- The first of the order is in the table, at its time.
first_there :
    (m : List (ℕ × ReputationEntry)) (t peer : ℕ) (order : List Pair)
    → Indexed m ((t, peer) ∷ order)
    → (entry : ReputationEntry) × (lookup peer m ≡ some entry) × (entry.last_updated ≡ t)
unfolding mem
first_there m t peer order v = elim (Option-cases (lookup peer m)) [
  | inl e ↦ absurd (absent e (v.indexed t peer))
  | inr (entry, e) ↦ (entry, e, there entry e (v.indexed t peer))
]
  where
    absent : lookup peer m ≡ none → mem (t, peer) ((t, peer) ∷ order) ≡ is_at t (lookup peer m) → ⊥
    absent e h = ground (arith, e)

    there :
        (entry : ReputationEntry)
        → lookup peer m ≡ some entry
        → mem (t, peer) ((t, peer) ∷ order) ≡ is_at t (lookup peer m)
        → entry.last_updated ≡ t
    there entry e h = ground (arith, e)

no_order-empty : (m : List (ℕ × ReputationEntry)) → Indexed m [] → length m ≡ 0
unfolding mem lookup
no_order-empty [] v = refl
no_order-empty ((peer, entry) ∷ m) v = absurd (ground (arith, v.indexed entry.last_updated peer))

discard-head :
    (a t peer : ℕ) (order : List Pair) → a ≡ t → discard (a, peer) ((t, peer) ∷ order) ≡ order
unfolding discard
discard-head a t peer order e = ground arith

evict_oldest-Indexed :
    (n : ℕ) (m : List (ℕ × ReputationEntry)) (order : List Pair)
    → Indexed m order
    → let r = evict_oldest n m order in Indexed r.0 r.1 × (length r.0 ≤ n)
unfolding evict_oldest
evict_oldest-Indexed n m [] v = (v, omega (arith, no_order-empty m v))
evict_oldest-Indexed n m ((t, peer) ∷ order) v =
    let (entry, at, time) = first_there m t peer order v in
    let less = remove-Indexed m ((t, peer) ∷ order) peer entry v at in
    let ih = evict_oldest-Indexed n (remove peer m) order (dropped entry time less) in
    elim (Bool-cases (ltb n (length m))) [
      | inl over ↦ rw (over, evict_oldest) ih
      | inr within ↦ rw (within, evict_oldest) (v, ground (arith, within))
    ]
  where
    dropped :
        (entry : ReputationEntry)
        → entry.last_updated ≡ t
        → Indexed (remove peer m) (discard (entry.last_updated, peer) ((t, peer) ∷ order))
        → Indexed (remove peer m) order
    dropped entry time less =
        subst (Indexed (remove peer m)) (discard-head entry.last_updated t peer order time) less

enforce_capacity-IsIndexed :
    (s : ReputationStore)
    → Indexed s.by_peer s.age_order
    → 1 ≤ s.max_peers
    → IsIndexed (enforce_capacity s)
unfolding enforce_capacity
enforce_capacity-IsIndexed s v positive =
    let (index, bounded) = evict_oldest-Indexed s.max_peers s.by_peer s.age_order v in
    record { index = index; bounded = bounded; positive = positive }

pub put-Indexed :
    (m : List (ℕ × ReputationEntry)) (order rest : List Pair) (peer now : ℕ)
    (entry : ReputationEntry) (o : Option ReputationEntry)
    → Indexed m order
    → entry.last_updated ≡ now
    → lookup peer m ≡ o
    → without peer o order ≡ rest
    → Indexed (insert peer entry m) (include (now, peer) rest)
put-Indexed m order rest peer now entry o v time at e =
    subst (λ t. Indexed (insert peer entry m) (include (t, peer) rest)) time
      (subst (λ r. Indexed (insert peer entry m) (include (entry.last_updated, peer) r))
        (ap (λ p. without peer p order) at ∙ e) (insert-Indexed m order peer entry v))

update_peer-IsIndexed :
    (s : ReputationStore) (now peer : ℕ) (update : ReputationEntry → ReputationEntry)
    → IsIndexed s
    → ((entry : ReputationEntry) → (update entry).last_updated ≡ entry.last_updated)
    → IsIndexed (update_peer s now peer update)
unfolding update_peer
update_peer-IsIndexed s now peer update v keeps = elim (Option-cases (lookup peer s.by_peer)) [
  | inl new ↦
      rw (new, update_peer)
        (enforce_capacity-IsIndexed _
          (put-Indexed s.by_peer s.age_order _ peer now _ none v.index (keeps (new_entry now)) new
            refl)
          v.positive)
  | inr (old, at) ↦
      rw (at, update_peer)
        (enforce_capacity-IsIndexed _
          (put-Indexed s.by_peer s.age_order _ peer now _ (some old) v.index refl at refl)
          v.positive)
]

-- Each of the three reports on a peer keeps the age index exact (it holds every peer of the table
-- once, at the time of its last update, and no other pair) and the table within its bound.
pub report-IsIndexed :
    (s : ReputationStore) (now peer : ℕ)
    → IsIndexed s
    → IsIndexed (accept s now peer)
      × IsIndexed (penalize_invalid s now peer)
      × IsIndexed (ignore_duplicate s now peer)
unfolding accept penalize_invalid ignore_duplicate
report-IsIndexed s now peer v = (
  update_peer-IsIndexed s now peer _ v (λ entry. refl),
  update_peer-IsIndexed s now peer _ v (λ entry. refl),
  update_peer-IsIndexed s now peer _ v (λ entry. refl),
)
