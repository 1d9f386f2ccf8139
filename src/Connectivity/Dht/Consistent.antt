-- ===== src/Connectivity/Dht/Consistent.antt =====
-- What stays true of the state of the DHT searches: the sets agree with their queues, no peer is
-- both attempted and waiting, and every table is bounded.
use p2p_net.Prelude.{
  ℕ, zero, suc, ◌-◌, ◌≡◌, refl, sym, ap, subst, ◌∙◌, inl, inr, Bool, true, false, not, ◌&&◌, Option,
  none, some, List, [], ◌∷◌, ◌++◌, arith, leb, if◌then◌else◌, Bool-cases, drop, ◌==◌, ==_iff,
  nat_eq, list_eq, option_eq,
}
use p2p_net.Prelude.Assoc.{
  is_some, lookup, mem, contains_key-mem, keys, mem-append, insert-Distinct,
}
use p2p_net.Prelude.HashSet.{set_insert_new}
use p2p_net.Connectivity.BoundedSet.{
  Bounded, bounded, IsTracking, of_same, mem-entered, entered-IsTracking, prune_peer_set-entered,
  remove_peer_from_bounded_set-IsTracking, mem-remove_peer_from_bounded_set,
}
use p2p_net.Connectivity.Dht.State.{
  DhtProviderState, Ordered, AutoConnectRetryState, max_tracked_provider_peers, default_retry,
  forget_attempted, forget_waiting, note_attempt, enter, mark_auto_connect_attempted,
  mark_auto_connect_waiting_for_addrs, decide_retry, auto_connect_retry_allowed,
  should_auto_connect_provider_result,
}
use p2p_net.Connectivity.Dht.Ordered.{
  IsOrdered, note_attempt-IsNoted, keys-insert-known, length-insert-known,
}

mem-drop : (q : ℕ) (n : ℕ) (xs : List ℕ) → mem q xs ≡ false → mem q (drop n xs) ≡ false
unfolding mem
mem-drop q zero xs h = h
mem-drop q (suc n) [] h = refl
mem-drop q (suc n) (x ∷ xs) h = mem-drop q n xs (ground (arith, h))

mem-snoc :
    (peer q : ℕ) (xs : List ℕ)
    → mem q xs ≡ false
    → (peer == q) ≡ false
    → mem q (xs ++ peer ∷ []) ≡ false
unfolding mem
mem-snoc peer q xs out other = ground (arith, mem-append q xs (peer ∷ []), out, other)

-- A set after a peer entered: in order, with the peer, and with none that was not there.
abbrev Entered : ℕ → Bounded ℕ → Bounded ℕ → Type 0
Entered peer s t =
    IsTracking max_tracked_provider_peers t
    × (mem peer t.members ≡ true)
    × ((q : ℕ) → (mem q s.members ≡ false) → (peer == q) ≡ false → mem q t.members ≡ false)

enter_same :
    (peer : ℕ) (xs : List ℕ)
    → IsTracking max_tracked_provider_peers (bounded xs xs)
    → Entered peer (bounded xs xs) (enter peer (bounded xs xs))
unfolding enter
enter_same peer xs (same, d, le) = elim (Bool-cases (mem peer xs)) [
  | inl known ↦ rw known ((refl, d, le), known, λ q out other. out)
  | inr new ↦
      rw (new, set_insert_new peer xs new)
        (subst (Entered peer (bounded xs xs))
          (sym (prune_peer_set-entered max_tracked_provider_peers peer xs))
          (
            entered-IsTracking max_tracked_provider_peers peer xs d new,
            mem-entered max_tracked_provider_peers peer xs (omega arith) le,
            λ q out other. mem-drop q _ (xs ++ peer ∷ []) (mem-snoc peer q xs out other),
          ))
]

enter-Entered :
    (peer : ℕ) (s : Bounded ℕ)
    → IsTracking max_tracked_provider_peers s
    → Entered peer s (enter peer s)
enter-Entered peer s (same, d, le) =
    subst (λ b. Entered peer b (enter peer b)) (sym (of_same s same))
      (enter_same peer s.members (refl, d, le))

pub record IsConsistent (s : DhtProviderState) : Type 0 where
  pub attempted : IsTracking max_tracked_provider_peers s.auto_connect_attempted_peers
  pub waiting : IsTracking max_tracked_provider_peers s.auto_connect_waiting_for_addrs
  pub apart :
      (q : ℕ)
      → mem q s.auto_connect_attempted_peers.members
          && mem q s.auto_connect_waiting_for_addrs.members
        ≡ false
  pub retries : IsOrdered s.auto_connect_retry

pub forget_waiting-IsConsistent :
    (peer : ℕ) (s : DhtProviderState) → IsConsistent s → IsConsistent (forget_waiting peer s)
forget_waiting-IsConsistent peer s v = record {
  attempted = v.attempted;
  waiting =
      remove_peer_from_bounded_set-IsTracking _ peer s.auto_connect_waiting_for_addrs v.waiting;
  apart = λ q. ground (
    arith,
    v.apart q,
    mem-remove_peer_from_bounded_set _ peer q s.auto_connect_waiting_for_addrs v.waiting,
  );
  retries = v.retries;
}

pub forget_attempted-IsConsistent :
    (peer : ℕ) (s : DhtProviderState) → IsConsistent s → IsConsistent (forget_attempted peer s)
forget_attempted-IsConsistent peer s v = record {
  attempted =
      remove_peer_from_bounded_set-IsTracking _ peer s.auto_connect_attempted_peers v.attempted;
  waiting = v.waiting;
  apart = λ q. ground (
    arith,
    v.apart q,
    mem-remove_peer_from_bounded_set _ peer q s.auto_connect_attempted_peers v.attempted,
  );
  retries = v.retries;
}

-- No peer is in both sets after one entered the first and left the second.
apart_after :
    (peer q : ℕ) (attempted attempted' waiting waiting' : List ℕ)
    → mem q attempted && mem q waiting ≡ false
    → mem q waiting' ≡ not (peer == q) && mem q waiting
    → (mem q attempted ≡ false → (peer == q) ≡ false → mem q attempted' ≡ false)
    → mem q attempted' && mem q waiting' ≡ false
apart_after peer q attempted attempted' waiting waiting' h w o =
    elim (Bool-cases (mem q attempted)) [
      | inl e ↦ ground (arith, h, w, e)
      | inr e ↦ elim (Bool-cases (peer == q)) [
        | inl f ↦ ground (arith, w, f)
        | inr f ↦ ground (arith, o e f)
      ]
    ]

retries_after :
    (known : Bool) (now peer : ℕ) (o : Ordered AutoConnectRetryState)
    → IsOrdered o
    → IsOrdered (if known then o else note_attempt now peer o)
retries_after true now peer o v = v
retries_after false now peer o v = (note_attempt-IsNoted now peer o v).0

pub mark_attempted-IsConsistent :
    (now : ℕ) (s : DhtProviderState) (peer : ℕ)
    → IsConsistent s
    → IsConsistent (mark_auto_connect_attempted now s peer).0
unfolding mark_auto_connect_attempted
mark_attempted-IsConsistent now s peer v =
    let (tracking, there, others) = enter-Entered peer s.auto_connect_attempted_peers v.attempted in
    record {
      attempted = tracking;
      waiting =
          remove_peer_from_bounded_set-IsTracking _ peer s.auto_connect_waiting_for_addrs v.waiting;
      apart = λ q.
          apart_after peer q s.auto_connect_attempted_peers.members _
            s.auto_connect_waiting_for_addrs.members _ (v.apart q)
            (mem-remove_peer_from_bounded_set _ peer q s.auto_connect_waiting_for_addrs v.waiting)
            (others q);
      retries =
          retries_after (mem peer s.auto_connect_attempted_peers.members) now peer
            s.auto_connect_retry v.retries;
    }

waiting_apart :
    (peer q : ℕ) (attempted waiting waiting' : List ℕ)
    → mem q attempted && mem q waiting ≡ false
    → mem peer attempted ≡ false
    → (mem q waiting ≡ false → (peer == q) ≡ false → mem q waiting' ≡ false)
    → mem q attempted && mem q waiting' ≡ false
waiting_apart peer q attempted waiting waiting' h out o = elim (Bool-cases (peer == q)) [
  | inl f ↦
      let e : mem q attempted ≡ false =
        subst (λ z. mem z attempted ≡ false) ((==_iff peer q).0 f) out in
      ground (arith, e)
  | inr f ↦ elim (Bool-cases (mem q attempted)) [
    | inl e ↦ ground (arith, o (ground (arith, h, e)) f)
    | inr e ↦ ground (arith, e)
  ]
]

pub mark_waiting-IsConsistent :
    (s : DhtProviderState) (peer : ℕ)
    → IsConsistent s
    → IsConsistent (mark_auto_connect_waiting_for_addrs s peer).0
unfolding mark_auto_connect_waiting_for_addrs
mark_waiting-IsConsistent s peer v =
    elim (Bool-cases (mem peer s.auto_connect_attempted_peers.members)) [
      | inl e ↦ rw (e, mark_auto_connect_waiting_for_addrs) v
      | inr e ↦
          rw (e, mark_auto_connect_waiting_for_addrs)
            (let (tracking, there, others) =
                enter-Entered peer s.auto_connect_waiting_for_addrs v.waiting in
              record {
                attempted = v.attempted;
                waiting = tracking;
                apart = λ q.
                    waiting_apart peer q s.auto_connect_attempted_peers.members
                      s.auto_connect_waiting_for_addrs.members _ (v.apart q) e (others q);
                retries = v.retries;
              })
    ]

decide_retry-IsOrdered :
    (now peer : ℕ) (o : Option AutoConnectRetryState) (r : Ordered AutoConnectRetryState)
    → lookup peer r.table ≡ o
    → IsOrdered r
    → IsOrdered (decide_retry now peer o r).0
decide_retry-IsOrdered now peer none r at v = v
decide_retry-IsOrdered now peer (some retry) r at v =
    elim (Bool-cases (leb 300 (now - retry.window_started_unix_secs))) [
      | inr e ↦ rw e v
      | inl e ↦
          let known : mem peer (keys r.table) ≡ true =
            sym (contains_key-mem peer r.table) ∙ ap is_some at in
          rw e (record {
            same = keys-insert-known peer _ r.table known ∙ v.same;
            distinct = insert-Distinct peer _ r.table v.distinct;
            bounded = omega (
              arith,
              length-insert-known peer (record default_retry { window_started_unix_secs = now })
                  r.table known,
              v.bounded,
            );
          })
    ]

pub retry_allowed-IsConsistent :
    (now : ℕ) (s : DhtProviderState) (peer : ℕ)
    → IsConsistent s
    → IsConsistent (auto_connect_retry_allowed now s peer).0
unfolding auto_connect_retry_allowed
retry_allowed-IsConsistent now s peer v =
    elim (Bool-cases (mem peer s.auto_connect_attempted_peers.members)) [
      | inl e ↦ rw (e, auto_connect_retry_allowed) v
      | inr e ↦
          rw (e, auto_connect_retry_allowed)
            (record {
              attempted = v.attempted;
              waiting = v.waiting;
              apart = v.apart;
              retries =
                  decide_retry-IsOrdered now peer (lookup peer s.auto_connect_retry.table)
                    s.auto_connect_retry refl v.retries;
            })
    ]

pub provider_result-IsConsistent :
    (now : ℕ) (s : DhtProviderState) (peer : ℕ)
    → IsConsistent s
    → IsConsistent (should_auto_connect_provider_result now s peer).0
unfolding should_auto_connect_provider_result
provider_result-IsConsistent now s peer v =
    elim (Bool-cases (mem peer s.auto_connect_waiting_for_addrs.members)) [
      | inl e ↦ rw (e, should_auto_connect_provider_result) v
      | inr e ↦
          rw (e, should_auto_connect_provider_result) (retry_allowed-IsConsistent now s peer v)
    ]
