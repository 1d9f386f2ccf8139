-- ===== src/Connectivity/DirectUpgrade/Paths.antt =====
-- The paths of direct upgrades: which relayed connections a peer has after each event.
use p2p_net.Prelude.{
  ℕ, ◌≡◌, refl, inl, inr, Bool, true, false, not, ◌&&◌, Option, none, some, List, [], ◌∷◌, ◌++◌,
  arith, if◌then◌else◌, Bool-cases, is_empty, ◌==◌, ==_iff, nat_eq, list_eq, option_eq,
}
use p2p_net.Prelude.Assoc.{
  lookup, remove, keys, mem, Distinct, insert-Distinct, remove-Distinct, Distinct-snoc, Values,
  insert-Values, remove-Values, lookup-Values,
}
use p2p_net.Prelude.HashSet.{retain}
use p2p_net.Connectivity.DirectUpgrade.{
  DirectUpgradeState, connections_or_none, relayed_established, direct_established,
  is_pending_direct, take_relayed, confirm_direct, without, drop_relayed, connection_closed,
}

-- The relayed connections of a peer.
abbrev pub relayed_of : DirectUpgradeState → ℕ → List ℕ
relayed_of s peer = connections_or_none (lookup peer s.relayed)

-- The connections of a peer: some, and each once.
abbrev pub IsPath : List ℕ → Type 0
IsPath connections = Distinct connections × (is_empty connections ≡ false)

-- No peer stands twice, and no connection of one; no peer stands without a connection.
pub record IsClean (s : DirectUpgradeState) : Type 0 where
  pub distinct : Distinct (keys s.relayed)
  pub pending : Distinct (keys s.pending_direct)
  pub connections : Values IsPath s.relayed

mem-without :
    (c connection : ℕ) (xs : List ℕ)
    → mem c (without connection xs) ≡ not (c == connection) && mem c xs
unfolding mem retain
mem-without c connection [] = ground arith
mem-without c connection (x ∷ xs) =
    ground (arith, mem-without c connection xs, ==_iff x connection, ==_iff c x)

without-Distinct : (connection : ℕ) (xs : List ℕ) → Distinct xs → Distinct (without connection xs)
unfolding retain
without-Distinct connection [] d = tt
without-Distinct connection (x ∷ xs) d = elim (Bool-cases (x == connection)) [
  | inl e ↦ rw e (without-Distinct connection xs d.1)
  | inr e ↦
      rw e (ground (arith, mem-without x connection xs, d.0), without-Distinct connection xs d.1)
]

-- One more connection, if it is new.
added-IsPath :
    (c : ℕ) (o : Option (List ℕ)) (m : List (ℕ × List ℕ)) (peer : ℕ)
    → lookup peer m ≡ o
    → Values IsPath m
    → IsPath (
        if mem c (connections_or_none o)
        then connections_or_none o
        else connections_or_none o ++ c ∷ [])
unfolding mem
added-IsPath c none m peer at v = ((refl, tt), refl)
added-IsPath c (some cs) m peer at v =
    let p = lookup-Values IsPath peer cs m at v in
    elim (Bool-cases (mem c cs)) [
      | inl e ↦ rw e p
      | inr e ↦ rw e (Distinct-snoc cs c p.0 e, snoc cs)
    ]
  where
    snoc : (xs : List ℕ) → is_empty (xs ++ c ∷ []) ≡ false
    snoc [] = refl
    snoc (x ∷ xs) = refl

relayed-IsClean :
    (s : DirectUpgradeState) (peer c : ℕ) → IsClean s → IsClean (relayed_established s peer c)
unfolding relayed_established
relayed-IsClean s peer c v = record {
  distinct = insert-Distinct peer _ s.relayed v.distinct;
  pending = v.pending;
  connections =
      insert-Values IsPath peer _ s.relayed
        (added-IsPath c (lookup peer s.relayed) s.relayed peer refl v.connections) v.connections;
}

confirm-IsClean :
    (s : DirectUpgradeState) (peer c : ℕ) → IsClean s → IsClean (confirm_direct s peer c).0
unfolding confirm_direct take_relayed
confirm-IsClean s peer c v = elim (Bool-cases (is_pending_direct s peer c)) [
  | inr e ↦ rw (e, confirm_direct) v
  | inl e ↦
      rw (e, confirm_direct)
        (record {
          distinct = remove-Distinct peer s.relayed v.distinct;
          pending = remove-Distinct peer s.pending_direct v.pending;
          connections = remove-Values IsPath peer s.relayed v.connections;
        })
]

abbrev CleanTable : List (ℕ × List ℕ) → Type 0
CleanTable m = Distinct (keys m) × Values IsPath m

drop_relayed-clean :
    (peer c : ℕ) (o : Option (List ℕ)) (m : List (ℕ × List ℕ))
    → lookup peer m ≡ o
    → CleanTable m
    → CleanTable (drop_relayed peer c o m)
drop_relayed-clean peer c none m at v = v
drop_relayed-clean peer c (some cs) m at (d, v) = elim (Bool-cases (is_empty (without c cs))) [
  | inl e ↦ rw e (remove-Distinct peer m d, remove-Values IsPath peer m v)
  | inr e ↦ rw e (
    insert-Distinct peer (without c cs) m d,
    insert-Values IsPath peer (without c cs) m
        (without-Distinct c cs (lookup-Values IsPath peer cs m at v).0, e) v,
  )
]

pending-closed :
    (peer : ℕ) (b : Bool) (m : List (ℕ × ℕ))
    → Distinct (keys m)
    → Distinct (keys (if b then remove peer m else m))
pending-closed peer true m d = remove-Distinct peer m d
pending-closed peer false m d = d

closed-IsClean :
    (s : DirectUpgradeState) (peer c : ℕ) → IsClean s → IsClean (connection_closed s peer c)
unfolding connection_closed
closed-IsClean s peer c v =
    let (d, w) =
      drop_relayed-clean peer c (lookup peer s.relayed) s.relayed refl
        (v.distinct, v.connections) in
    record {
      distinct = d;
      pending = pending-closed peer (is_pending_direct s peer c) s.pending_direct v.pending;
      connections = w;
    }

direct-IsClean :
    (s : DirectUpgradeState) (peer c : ℕ) → IsClean s → IsClean (direct_established s peer c)
unfolding direct_established
direct-IsClean s peer c v = record {
  distinct = v.distinct;
  pending = insert-Distinct peer c s.pending_direct v.pending;
  connections = v.connections;
}

-- One event of a connection.
pub data Step (s : DirectUpgradeState) : DirectUpgradeState → Type 0 where
  relayed : (peer c : ℕ) → Step s (relayed_established s peer c)
  direct : (peer c : ℕ) → Step s (direct_established s peer c)
  confirmed : (peer c : ℕ) → Step s (confirm_direct s peer c).0
  closed : (peer c : ℕ) → Step s (connection_closed s peer c)

-- Every event keeps the paths clean: a peer has one entry, with at least one relayed connection and
-- none twice, and at most one direct connection that waits for its proof.
pub Step-IsClean : (s t : DirectUpgradeState) → Step s t → IsClean s → IsClean t
Step-IsClean s _ (Step.relayed peer c) v = relayed-IsClean s peer c v
Step-IsClean s _ (Step.direct peer c) v = direct-IsClean s peer c v
Step-IsClean s _ (Step.confirmed peer c) v = confirm-IsClean s peer c v
Step-IsClean s _ (Step.closed peer c) v = closed-IsClean s peer c v
