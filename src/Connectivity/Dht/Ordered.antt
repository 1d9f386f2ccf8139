-- ===== src/Connectivity/Dht/Ordered.antt =====
-- Tables with the order in which their keys entered, from whose front the oldest are evicted.
use p2p_net.Prelude.{
  ℕ, zero, suc, ◌-◌, ◌≤◌, ◌≡◌, refl, sym, ap, subst, ◌∙◌, inl, inr, true, false, some, List, [],
  ◌∷◌, ◌++◌, arith, if◌then◌else◌, Bool-cases, excess-cases, length, drop, ==_iff, ==_refl, nat_eq,
  list_eq, option_eq, length-append, length-drop,
}
use p2p_net.Prelude.Assoc.{
  lookup, lookup-insert, insert, remove, mem, contains_key, contains_key-mem, keys, Distinct,
  insert_new, keys-insert, length-keys, insert-Distinct,
}
use p2p_net.Connectivity.BoundedSet.{drop-Distinct}
use p2p_net.Connectivity.Dht.State.{
  Ordered, AutoConnectRetryState, max_tracked_provider_peers, evict_retries, note_attempt,
  count_attempt, retry_or_default,
}

-- The order lists the keys of the table, each once, and there are not too many.
pub record IsOrdered {V : Type 0} (o : Ordered V) : Type 0 where
  pub same : keys o.table ≡ o.order
  pub distinct : Distinct (keys o.table)
  pub bounded : length o.table ≤ max_tracked_provider_peers

module _ {V : Type 0} where
  abbrev pub aligned : List (ℕ × V) → Ordered V
  aligned table = record { table = table; order = keys table }

  pub keys-drop : (n : ℕ) (m : List (ℕ × V)) → keys (drop n m) ≡ drop n (keys m)
  keys-drop zero m = refl
  keys-drop (suc n) [] = refl
  keys-drop (suc n) ((k, v) ∷ m) = keys-drop n m

  pub aligned-IsOrdered :
      (m : List (ℕ × V))
      → Distinct (keys m)
      → length m ≤ max_tracked_provider_peers
      → IsOrdered (aligned m)
  aligned-IsOrdered m d le = record { same = refl; distinct = d; bounded = le }

  pub keys-insert-known :
      (k : ℕ) (v : V) (m : List (ℕ × V)) → mem k (keys m) ≡ true → keys (insert k v m) ≡ keys m
  keys-insert-known k v m h = keys-insert k v m ∙ rw h refl

  pub length-insert-known :
      (k : ℕ) (v : V) (m : List (ℕ × V)) → mem k (keys m) ≡ true → length (insert k v m) ≡ length m
  length-insert-known k v m h =
      sym (length-keys (insert k v m)) ∙ ap length (keys-insert-known k v m h) ∙ length-keys m

  -- The newest entry is found after the eviction of the oldest.
  pub lookup-drop-last :
      (n : ℕ) (k : ℕ) (v : V) (m : List (ℕ × V))
      → n ≤ length m
      → mem k (keys m) ≡ false
      → lookup k (drop n (m ++ (k, v) ∷ [])) ≡ some v
  unfolding lookup mem
  lookup-drop-last zero k v [] le new = rw (==_refl k) refl
  lookup-drop-last zero k v ((j, w) ∷ m) le new =
      ground (arith, ==_iff j k, ==_iff k j, lookup-drop-last zero k v m (omega arith))
  lookup-drop-last (suc n) k v [] le new = absurd (omega arith)
  lookup-drop-last (suc n) k v ((j, w) ∷ m) le new =
      lookup-drop-last n k v m (omega arith) (ground (arith, new))

-- The eviction of retries drops the oldest entries, as many as are too many.
pub evict_retries_lem :
    (m : List (ℕ × AutoConnectRetryState))
    → evict_retries m (keys m) ≡ aligned (drop (length m - max_tracked_provider_peers) m)
unfolding evict_retries remove
evict_retries_lem [] = refl
evict_retries_lem ((k, v) ∷ m) =
    rw (==_refl k) (elim (excess-cases max_tracked_provider_peers (length m)) [
      | inl (e, d) ↦ rw (e, d) (evict_retries_lem m)
      | inr (e, d) ↦ rw (e, d) refl
    ])

-- The history of retries after an attempt is in order, and has the attempt.
abbrev pub IsNoted : ℕ → ℕ → Ordered AutoConnectRetryState → Ordered AutoConnectRetryState → Type 0
IsNoted now peer before after =
    IsOrdered after
    × (lookup peer after.table
        ≡ some (count_attempt now (retry_or_default (lookup peer before.table))))

pub order_lem :
    {V : Type 0} (peer : ℕ) (c : V) (m : List (ℕ × V))
    → (if contains_key peer m then keys m else keys m ++ peer ∷ []) ≡ keys (insert peer c m)
order_lem peer c m = ground (arith, contains_key-mem peer m, keys-insert peer c m)

note_attempt_lem :
    (now peer : ℕ) (m : List (ℕ × AutoConnectRetryState))
    → let after = insert peer (count_attempt now (retry_or_default (lookup peer m))) m in
      note_attempt now peer (aligned m)
      ≡ aligned (drop (length after - max_tracked_provider_peers) after)
unfolding note_attempt
note_attempt_lem now peer m =
    let after = insert peer (count_attempt now (retry_or_default (lookup peer m))) m in
    ap (evict_retries after) (order_lem peer _ m) ∙ evict_retries_lem after

pub dropped-IsOrdered :
    {V : Type 0} (m : List (ℕ × V))
    → Distinct (keys m)
    → IsOrdered (aligned (drop (length m - max_tracked_provider_peers) m))
dropped-IsOrdered m d =
    let n = length m - max_tracked_provider_peers in
    aligned-IsOrdered (drop n m) (subst Distinct (sym (keys-drop n m)) (drop-Distinct n (keys m) d))
      (omega (arith, length-drop n m))

note_lookup :
    (peer : ℕ) (c : AutoConnectRetryState) (m : List (ℕ × AutoConnectRetryState))
    → length m ≤ max_tracked_provider_peers
    → lookup peer (drop (length (insert peer c m) - max_tracked_provider_peers) (insert peer c m))
      ≡ some c
note_lookup peer c m le = elim (Bool-cases (mem peer (keys m))) [
  | inl known ↦
      let none_dropped : length (insert peer c m) - max_tracked_provider_peers ≡ 0 =
        omega (arith, length-insert-known peer c m known) in
      rw none_dropped (lookup-insert peer peer c m ∙ rw (==_refl peer) refl)
  | inr new ↦
      rw (insert_new peer c m new)
        (lookup-drop-last _ peer c m (omega (arith, length-append m ((peer, c) ∷ []))) new)
]

pub of_aligned : {V : Type 0} (o : Ordered V) → keys o.table ≡ o.order → aligned o.table ≡ o
of_aligned o e = ap (λ order. record o { order = order }) e

-- Noting an attempt keeps the history in order and within its bound, and the attempt is found.
pub note_attempt-IsNoted :
    (now peer : ℕ) (o : Ordered AutoConnectRetryState)
    → IsOrdered o
    → IsNoted now peer o (note_attempt now peer o)
note_attempt-IsNoted now peer o v =
    let m = o.table in
    let c = count_attempt now (retry_or_default (lookup peer m)) in
    subst (λ q. IsNoted now peer q (note_attempt now peer q)) (of_aligned o v.same)
      (subst (IsNoted now peer (aligned m)) (sym (note_attempt_lem now peer m)) (
        dropped-IsOrdered (insert peer c m) (insert-Distinct peer c m v.distinct),
        note_lookup peer c m v.bounded,
      ))
