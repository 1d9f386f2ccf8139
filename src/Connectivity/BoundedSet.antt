-- ===== src/Connectivity/BoundedSet.antt =====
-- The bounded sets of peers that the DHT and dial layers keep (crates/connectivity/dht/state.rs
-- and crates/node/dial.rs): a `HashSet` beside a `VecDeque` of the order in which its members
-- entered, from whose front the oldest are evicted.
use p2p_net.Prelude.{
  ℕ, zero, suc, ◌-◌, ◌≤◌, ◌≡◌, refl, sym, ap, subst, ◌∙◌, inl, inr, Bool, true, false, not, ◌&&◌,
  List, [], ◌∷◌, ◌++◌, arith, ltb, if◌then◌else◌, Bool-cases, excess-cases, length, set, drop, Eq,
  ◌==◌, ==_refl, nat_eq, list_eq, option_eq, length-append, length-drop,
}
use p2p_net.Prelude.Assoc.{mem, Distinct, mem-append, Distinct-snoc}
use p2p_net.Prelude.HashSet.{
  retain, set_remove, retain-set_remove, set_remove_absent, mem-set_remove, set_remove-Distinct,
}

-- The set and its queue, a pair of fields of the source.
pub record Bounded {ℓ} (K : Type ℓ) : Type ℓ where
  pub members : List K
  pub order : List K

abbrev pub bounded {ℓ} : {K : Type ℓ} → List K → List K → Bounded K
bounded set order = record { members = set; order = order }

module _ {ℓ} {K : Type ℓ} ⦃e : Eq K⦄ where
  -- `set.remove(peer)`, and `order.retain(..)` when it was there.
  unfoldable pub remove_peer_from_bounded_set : K → Bounded K → Bounded K × Bool
  remove_peer_from_bounded_set peer s =
      let removed = mem peer s.members in
      (
        bounded (set_remove peer s.members)
            (if removed then retain (λ queued. not (queued == peer)) s.order else s.order),
        removed,
      )

  -- The loop of `prune_peer_set`: while the set is too large, the front of the queue goes.
  unfoldable pub evict_front : ℕ → List K → List K → Bounded K
  evict_front max_entries set [] = bounded set []
  evict_front max_entries set (evicted ∷ order) =
      let rest = evict_front max_entries (set_remove evicted set) order in
      if ltb max_entries (length set) then rest else bounded set (evicted ∷ order)

  unfoldable pub prune_peer_set : ℕ → Bounded K → Bounded K
  prune_peer_set max_entries s = evict_front max_entries s.members s.order

  -- The queue lists the members of the set, each once and in the order in which they entered,
  -- and there are at most `max_entries` of them.
  abbrev pub IsTracking : ℕ → Bounded K → Type ℓ
  IsTracking max_entries s =
      (s.members ≡ s.order) × Distinct s.members × (length s.members ≤ max_entries)

  pub length-set_remove_le : (k : K) (xs : List K) → length (set_remove k xs) ≤ length xs
  unfolding set_remove
  length-set_remove_le k [] = omega arith
  length-set_remove_le k (x ∷ xs) = ground (arith, length-set_remove_le k xs)

  -- Evicting from a set of that form drops the oldest members, as many as are too many.
  pub evict_front_lem :
      (max_entries : ℕ) (xs : List K)
      → evict_front max_entries xs xs
        ≡ bounded (drop (length xs - max_entries) xs) (drop (length xs - max_entries) xs)
  unfolding evict_front set_remove
  evict_front_lem max_entries [] = ground arith
  evict_front_lem max_entries (x ∷ xs) =
      rw (==_refl x) (elim (excess-cases max_entries (length xs)) [
        | inl (e, d) ↦ rw (e, d) (evict_front_lem max_entries xs)
        | inr (e, d) ↦ rw (e, d) refl
      ])

  pub drop-Distinct : (n : ℕ) (xs : List K) → Distinct xs → Distinct (drop n xs)
  drop-Distinct zero xs d = d
  drop-Distinct (suc n) [] d = tt
  drop-Distinct (suc n) (x ∷ xs) d = drop-Distinct n xs d.1

  -- Removing a peer keeps that form; the peer is gone, and no other is affected.
  pub remove_peer_from_bounded_set_lem :
      (peer : K) (set : List K)
      → Distinct set
      → remove_peer_from_bounded_set peer (bounded set set)
        ≡ (bounded (set_remove peer set) (set_remove peer set), mem peer set)
  unfolding remove_peer_from_bounded_set
  remove_peer_from_bounded_set_lem peer set d = elim (Bool-cases (mem peer set)) [
    | inl e ↦ rw (e, retain-set_remove peer set d) refl
    | inr e ↦ rw (e, set_remove_absent peer set e) refl
  ]

  pub of_same : (s : Bounded K) → s.members ≡ s.order → s ≡ bounded s.members s.members
  of_same s e = ap (bounded s.members) (sym e)

  -- The members after a new one entered and the oldest were evicted.
  abbrev pub entered : ℕ → K → List K → List K
  entered max_entries peer xs = drop (length (xs ++ peer ∷ []) - max_entries) (xs ++ peer ∷ [])

  mem-drop-last :
      (n : ℕ) (peer : K) (xs : List K) → n ≤ length xs → mem peer (drop n (xs ++ peer ∷ [])) ≡ true
  unfolding mem
  mem-drop-last zero peer xs le = ground (arith, ==_refl peer, mem-append peer xs (peer ∷ []))
  mem-drop-last (suc n) peer [] le = absurd (omega arith)
  mem-drop-last (suc n) peer (x ∷ xs) le = mem-drop-last n peer xs (omega arith)

  -- What entered is a member, and what is a member was one or entered.
  pub mem-entered :
      (max_entries : ℕ) (peer : K) (xs : List K)
      → 1 ≤ max_entries
      → length xs ≤ max_entries
      → mem peer (entered max_entries peer xs) ≡ true
  mem-entered max_entries peer xs pos le =
      mem-drop-last (length (xs ++ peer ∷ []) - max_entries) peer xs
        (omega (arith, length-append xs (peer ∷ [])))

  pub entered-IsTracking :
      (max_entries : ℕ) (peer : K) (xs : List K)
      → Distinct xs
      → mem peer xs ≡ false
      → IsTracking max_entries (bounded (entered max_entries peer xs) (entered max_entries peer xs))
  entered-IsTracking max_entries peer xs d new = (
    refl,
    drop-Distinct _ (xs ++ peer ∷ []) (Distinct-snoc xs peer d new),
    omega (arith, length-drop (length (xs ++ peer ∷ []) - max_entries) (xs ++ peer ∷ [])),
  )

  -- A set within its bound is not pruned.
  pub prune_peer_set-within :
      (max_entries : ℕ) (xs : List K)
      → length xs ≤ max_entries
      → prune_peer_set max_entries (bounded xs xs) ≡ bounded xs xs
  unfolding prune_peer_set
  prune_peer_set-within max_entries xs le =
      let d : length xs - max_entries ≡ 0 = omega arith in
      evict_front_lem max_entries xs ∙ ap (λ n. bounded (drop n xs) (drop n xs)) d

  pub prune_peer_set-entered :
      (max_entries : ℕ) (peer : K) (xs : List K)
      → prune_peer_set max_entries (bounded (xs ++ peer ∷ []) (xs ++ peer ∷ []))
        ≡ bounded (entered max_entries peer xs) (entered max_entries peer xs)
  unfolding prune_peer_set
  prune_peer_set-entered max_entries peer xs = evict_front_lem max_entries (xs ++ peer ∷ [])

  -- After a removal the form is kept, the peer is no member, and the others are as before.
  pub remove_peer_from_bounded_set-IsTracking :
      (max_entries : ℕ) (peer : K) (s : Bounded K)
      → IsTracking max_entries s
      → IsTracking max_entries (remove_peer_from_bounded_set peer s).0
  remove_peer_from_bounded_set-IsTracking max_entries peer s (same, d, le) =
      subst (λ b. IsTracking max_entries (remove_peer_from_bounded_set peer b).0)
        (sym (of_same s same))
        (subst (λ r. IsTracking max_entries r.0)
          (sym (remove_peer_from_bounded_set_lem peer s.members d))
          (
            refl,
            set_remove-Distinct peer s.members d,
            omega (arith, length-set_remove_le peer s.members),
          ))

  pub mem-remove_peer_from_bounded_set :
      (max_entries : ℕ) (peer q : K) (s : Bounded K)
      → IsTracking max_entries s
      → mem q (remove_peer_from_bounded_set peer s).0.members ≡ not (peer == q) && mem q s.members
  unfolding remove_peer_from_bounded_set
  mem-remove_peer_from_bounded_set max_entries peer q s (same, d, le) =
      mem-set_remove peer q s.members d
