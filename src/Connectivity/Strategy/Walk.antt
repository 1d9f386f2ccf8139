-- ===== src/Connectivity/Strategy/Walk.antt =====
-- The walk through the attempts of a plan that are still pending.
use p2p_net.Prelude.{
  ℕ, zero, suc, ◌≡◌, refl, sym, ap, subst, false, Option, none, some, List, [], ◌∷◌, arith, length,
  nat_eq, list_eq, option_eq,
}
use p2p_net.Prelude.Assoc.{
  is_some, lookup, insert, remove, keys, Distinct, lookup-insert, lookup-remove, insert-Distinct,
}
use p2p_net.Connectivity.Strategy.Plan.{ConnectionAttempt}
use p2p_net.Connectivity.Strategy.Pending.{
  PendingConnectionPlans, pop_queue, next_after_failure, is_pending,
}

-- The attempts that `next_after_failure` hands out in so many calls, until it has none, and the
-- plans after them.
abbrev pub proceed :
    PendingConnectionPlans
    → Option ConnectionAttempt
    → List ConnectionAttempt × PendingConnectionPlans
    → List ConnectionAttempt × PendingConnectionPlans
proceed after none rest = ([], after)
proceed after (some a) rest = (a ∷ rest.0, rest.1)

unfoldable pub walk :
    ℕ → PendingConnectionPlans → ℕ → List ConnectionAttempt × PendingConnectionPlans
walk zero pending peer = ([], pending)
walk (suc n) pending peer =
    let r = next_after_failure pending peer in proceed r.0 r.1 (walk n r.0 peer)

-- The peer's queue has been handed out, and it is not pending.
abbrev pub IsWalked :
    ℕ → List ConnectionAttempt → List ConnectionAttempt × PendingConnectionPlans → Type 0
IsWalked peer queue r = (r.0 ≡ queue) × (is_pending r.1 peer ≡ false)

-- One call, by the queue that it finds.
walk_found :
    (n : ℕ) (pending : PendingConnectionPlans) (peer : ℕ) (o : Option (List ConnectionAttempt))
    (queue : List ConnectionAttempt)
    → lookup peer pending ≡ o
    → (let r = pop_queue peer o pending in IsWalked peer queue (proceed r.0 r.1 (walk n r.0 peer)))
    → IsWalked peer queue (walk (suc n) pending peer)
unfolding walk next_after_failure
walk_found n pending peer o queue at w =
    subst
      (λ q.
        let r = pop_queue peer q pending in IsWalked peer queue (proceed r.0 r.1 (walk n r.0 peer)))
      (sym at) w

lookup_removed :
    (pending : PendingConnectionPlans) (peer : ℕ)
    → Distinct (keys pending)
    → lookup peer (remove peer pending) ≡ none
lookup_removed pending peer d = ground (arith, lookup-remove peer peer pending d)

walk_absent :
    (n : ℕ) (pending : PendingConnectionPlans) (peer : ℕ)
    → lookup peer pending ≡ none
    → IsWalked peer [] (walk n pending peer)
unfolding walk
walk_absent zero pending peer e = (refl, ap is_some e)
walk_absent (suc n) pending peer e = walk_found n pending peer none [] e (refl, ap is_some e)

IsWalked-proceed :
    (after : PendingConnectionPlans) (peer : ℕ) (a : ConnectionAttempt)
    (queue : List ConnectionAttempt) (r : List ConnectionAttempt × PendingConnectionPlans)
    → IsWalked peer queue r
    → IsWalked peer (a ∷ queue) (proceed after (some a) r)
IsWalked-proceed after peer a queue r w = (ap (◌∷◌ a) w.0, w.1)

-- Calls of `next_after_failure`, one more than a peer has attempts pending, hand out the attempts
-- in their order, and then the peer is not pending.
pub walk-IsWalked :
    (pending : PendingConnectionPlans) (peer : ℕ) (queue : List ConnectionAttempt)
    → Distinct (keys pending)
    → lookup peer pending ≡ some queue
    → IsWalked peer queue (walk (suc (length queue)) pending peer)
walk-IsWalked pending peer [] d at =
    walk_found 0 pending peer (some []) [] at (refl, ap is_some (lookup_removed pending peer d))
walk-IsWalked pending peer (a ∷ []) d at =
    let d1 = insert-Distinct peer [] pending d in
    walk_found 1 pending peer (some (a ∷ [])) (a ∷ []) at (
      IsWalked-proceed pending peer a [] _ (
        walk_absent 1 (remove peer (insert peer [] pending)) peer
          (lookup_removed (insert peer [] pending) peer d1)))
walk-IsWalked pending peer (a ∷ b ∷ queue) d at =
    walk_found _ pending peer (some (a ∷ b ∷ queue)) (a ∷ b ∷ queue) at (
      IsWalked-proceed pending peer a (b ∷ queue) _ (
        walk-IsWalked (insert peer (b ∷ queue) pending) peer (b ∷ queue)
          (insert-Distinct peer (b ∷ queue) pending d)
          (ground (arith, lookup-insert peer peer (b ∷ queue) pending))))
