-- ===== src/Node/Dial/Attempts.antt =====
-- Dialing a plan: the attempts are made in order, and what follows the one that starts is pending.
use p2p_net.Prelude.{
  ℕ, suc, ◌≤◌, ◌≡◌, refl, sym, ap, subst, ◌∙◌, ◌⊎◌, inl, inr, Bool, true, false, Option, none, some,
  List, [], ◌∷◌, ◌++◌, arith, if◌then◌else◌, Bool-cases, length, ◌==◌, ==_refl, nat_eq, list_eq,
  option_eq,
}
use p2p_net.Prelude.Assoc.{insert, keys, Distinct, lookup, lookup-insert, insert-Distinct}
use p2p_net.Common.Error.{Result, ok, err}
use p2p_net.Common.Multiaddr.{protocol_eq}
use p2p_net.Connectivity.Strategy.Plan.{AddrText, ConnectionAttempt, ConnectionPlan}
use p2p_net.Connectivity.Strategy.Pending.{
  PendingConnectionPlans, after_attempt, track_for, track_remaining,
}
use p2p_net.Connectivity.Strategy.Candidates.{tally, text_of}
use p2p_net.Connectivity.Strategy.Walk.{walk, IsWalked, walk-IsWalked}
use p2p_net.Connectivity.Strategy.Places.{
  FirstPlace, first_place, after_attempt-behind, after_attempt-split,
}
use p2p_net.Node.Dial.{Dialer, dial_attempts_loop, dial_connection_plan, dial_result, dial_error}

module _ {Swarm : Type 0} (y : Dialer Swarm) where
  -- The attempts are refused one after the other, and lead from a swarm to another.
  pub data Refused : Swarm → List ConnectionAttempt → Swarm → Type 0 where
    none_left : (s : Swarm) → Refused s [] s
    refused :
        (s t : Swarm) (a : ConnectionAttempt) (rest : List ConnectionAttempt)
        → (y.dial_addr s a.addr).1 ≡ false
        → Refused (y.dial_addr s a.addr).0 rest t
        → Refused s (a ∷ rest) t

  -- An attempt starts after those before it were refused.
  pub record StartedAt (s : Swarm) (attempts : List ConnectionAttempt) (t : Swarm)
      (a : ConnectionAttempt) : Type 0 where
    pub tried : List ConnectionAttempt
    pub rest : List ConnectionAttempt
    pub between : Swarm
    pub split : attempts ≡ tried ++ a ∷ rest
    pub failures : Refused s tried between
    pub starts : y.dial_addr between a.addr ≡ (t, true)

  later-StartedAt :
      (s t : Swarm) (b a : ConnectionAttempt) (attempts : List ConnectionAttempt)
      → (y.dial_addr s b.addr).1 ≡ false
      → StartedAt (y.dial_addr s b.addr).0 attempts t a
      → StartedAt s (b ∷ attempts) t a
  later-StartedAt s t b a attempts refusal v = record {
    tried = b ∷ v.tried;
    rest = v.rest;
    between = v.between;
    split = ap (◌∷◌ b) v.split;
    failures = Refused.refused s v.between b v.tried refusal v.failures;
    starts = v.starts;
  }

  now-StartedAt :
      (s t : Swarm) (b a : ConnectionAttempt) (attempts : List ConnectionAttempt)
      → y.dial_addr s b.addr ≡ (t, true)
      → b ≡ a
      → StartedAt s (b ∷ attempts) t a
  now-StartedAt s t b a attempts start e = record {
    tried = [];
    rest = attempts;
    between = s;
    split = ap (λ c. c ∷ attempts) e;
    failures = Refused.none_left s;
    starts = ap (λ c. y.dial_addr s c.addr) (sym e) ∙ start;
  }

  loop-StartedAt :
      (s t : Swarm) (attempts : List ConnectionAttempt) (a : ConnectionAttempt)
      → dial_attempts_loop y s attempts ≡ (t, some a)
      → StartedAt s attempts t a
  unfolding dial_attempts_loop
  loop-StartedAt s t [] a h = absurd (ground (arith, ap (λ r. r.1) h))
  loop-StartedAt s t (b ∷ attempts) a h = elim (Bool-cases (y.dial_addr s b.addr).1) [
    | inl start ↦
        let r : ((y.dial_addr s b.addr).0, some b) ≡ (t, some a) =
          subst
            (λ c.
              (if c
                then ((y.dial_addr s b.addr).0, some b)
                else dial_attempts_loop y (y.dial_addr s b.addr).0 attempts)
              ≡ (t, some a))
            start h in
        now-StartedAt s t b a attempts (pair_of (y.dial_addr s b.addr) (ap (λ q. q.0) r) start)
          (some_of (ap (λ q. q.1) r))
    | inr refusal ↦ later-StartedAt s t b a attempts refusal (
        loop-StartedAt (y.dial_addr s b.addr).0 t attempts a (
          subst
            (λ c.
              (if c
                then ((y.dial_addr s b.addr).0, some b)
                else dial_attempts_loop y (y.dial_addr s b.addr).0 attempts)
              ≡ (t, some a))
            refusal h))
  ]
    where
      pair_of : (r : Swarm × Bool) → r.0 ≡ t → r.1 ≡ true → r ≡ (t, true)
      pair_of r e f = cc

      some_of : some b ≡ some a → b ≡ a
      some_of e = cc

  -- Where no attempt starts, all of them were refused.
  loop-Refused :
      (s t : Swarm) (attempts : List ConnectionAttempt)
      → dial_attempts_loop y s attempts ≡ (t, none)
      → Refused s attempts t
  unfolding dial_attempts_loop
  loop-Refused s t [] h = subst (Refused s []) (ap (λ r. r.0) h) (Refused.none_left s)
  loop-Refused s t (b ∷ attempts) h = elim (Bool-cases (y.dial_addr s b.addr).1) [
    | inl start ↦ absurd (started start (ap (λ r. r.1) h))
    | inr refusal ↦ Refused.refused s t b attempts refusal (
        loop-Refused (y.dial_addr s b.addr).0 t attempts (
          subst
            (λ c.
              (if c
                then ((y.dial_addr s b.addr).0, some b)
                else dial_attempts_loop y (y.dial_addr s b.addr).0 attempts)
              ≡ (t, none))
            refusal h))
  ]
    where
      started :
          (y.dial_addr s b.addr).1 ≡ true
          → (if (y.dial_addr s b.addr).1
              then ((y.dial_addr s b.addr).0, some b)
              else dial_attempts_loop y (y.dial_addr s b.addr).0 attempts).1
            ≡ none
          → ⊥
      started e f = ground (arith, e, f)

  -- What starts after refusals is what the loop ends with.
  StartedAt-loop :
      (s t : Swarm) (attempts : List ConnectionAttempt) (a : ConnectionAttempt)
      → StartedAt s attempts t a
      → dial_attempts_loop y s attempts ≡ (t, some a)
  unfolding dial_attempts_loop
  StartedAt-loop s t attempts a v =
      subst (λ l. dial_attempts_loop y s l ≡ (t, some a)) (sym v.split)
        (over s v.tried v.between v.failures v.starts)
    where
      over :
          (s : Swarm) (tried : List ConnectionAttempt) (between : Swarm)
          → Refused s tried between
          → y.dial_addr between a.addr ≡ (t, true)
          → dial_attempts_loop y s (tried ++ a ∷ v.rest) ≡ (t, some a)
      over _ _ _ (Refused.none_left s) start = rw start refl
      over _ _ _ (Refused.refused s between b tried refusal later) start =
          rw refusal (over (y.dial_addr s b.addr).0 tried between later start)

  -- The pending plans after the dial of a plan for a peer, or for none, that has a queue left: the
  -- queue stands under the peer, all else is as it was.
  abbrev pub HasQueue :
      Option ℕ → List ConnectionAttempt → PendingConnectionPlans → PendingConnectionPlans → Type 0
  HasQueue none queue before after = after ≡ before
  HasQueue (some peer) queue before after =
      (q : ℕ) → lookup q after ≡ (if peer == q then some queue else lookup q before)

  -- A dial that started an attempt: it is a success, and pending for the plan's peer is what
  -- stands in the plan behind the first place of the attempt.
  pub record Succeeds (plan : ConnectionPlan) (pending : PendingConnectionPlans) (s : Swarm)
      (r : Swarm × PendingConnectionPlans × Result (Unit {0})) : Type 0 where
    pub attempt : ConnectionAttempt
    pub started : StartedAt s plan.attempts r.0 attempt
    pub place : FirstPlace attempt plan.attempts
    pub queued : HasQueue plan.target_peer place.behind pending r.1
    pub success : r.2 ≡ ok tt

  -- A dial of which all attempts were refused: nothing becomes pending, and the result is an error.
  pub record Fails (plan : ConnectionPlan) (pending : PendingConnectionPlans) (s : Swarm)
      (r : Swarm × PendingConnectionPlans × Result (Unit {0})) : Type 0 where
    pub failures : Refused s plan.attempts r.0
    pub unchanged : r.1 ≡ pending
    pub failure : r.2 ≡ err (dial_error y plan)

  HasQueue-track_for :
      (target : Option ℕ) (queue : List ConnectionAttempt) (pending : PendingConnectionPlans)
      → HasQueue target queue pending (track_for target queue pending)
  HasQueue-track_for none queue pending = refl
  HasQueue-track_for (some peer) queue pending = λ q. lookup-insert peer q queue pending

  -- Dialing a plan makes its attempts in order. Either one starts after all those before it were
  -- refused: then the result is a success, and the attempts behind the first place of that one in
  -- the plan are the queue of the plan's peer, if it has one, and no other queue changes. Or all
  -- are refused: then no queue changes and the result is an error.
  pub dial_connection_plan-outcome :
      (s : Swarm) (pending : PendingConnectionPlans) (plan : ConnectionPlan)
      → Succeeds plan pending s (dial_connection_plan y s pending plan)
        ⊎ Fails plan pending s (dial_connection_plan y s pending plan)
  unfolding dial_connection_plan track_remaining
  dial_connection_plan-outcome s pending plan =
      by_result (dial_attempts_loop y s plan.attempts) refl
    where
      by_result :
          (r : Swarm × Option ConnectionAttempt)
          → dial_attempts_loop y s plan.attempts ≡ r
          → Succeeds plan pending s
              (dial_result y pending plan (dial_attempts_loop y s plan.attempts))
            ⊎ Fails plan pending s
                (dial_result y pending plan (dial_attempts_loop y s plan.attempts))
      by_result (t, some a) e =
          let v = loop-StartedAt s t plan.attempts a e in
          let p = first_place a v.tried v.rest plan.attempts v.split in
          rw e (
            inl (record {
              attempt = a;
              started = v;
              place = p;
              queued =
                  subst
                    (λ l.
                      HasQueue plan.target_peer p.behind pending
                        (track_for plan.target_peer l pending))
                    (after_attempt-behind a plan.attempts p)
                    (HasQueue-track_for plan.target_peer p.behind pending);
              success = refl;
            }))
      by_result (t, none) e = rw e (
          inr (record {
            failures = loop-Refused s t plan.attempts e;
            unchanged = refl;
            failure = refl;
          }))

-- Where the peers of the pending plans are distinct, the plan is for a peer, an attempt of it starts
-- after those before it are refused, and the plan attempts that one's address once: from the pending
-- plans that the dial leaves, the failures that follow hand out exactly the attempts behind the one
-- that started, in their order, and then the peer is not pending any more.
pub dial_connection_plan-walk :
    {Swarm : Type 0} (y : Dialer Swarm) (x : AddrText) (s t : Swarm)
    (pending : PendingConnectionPlans) (plan : ConnectionPlan) (peer : ℕ) (a : ConnectionAttempt)
    (v : StartedAt y s plan.attempts t a)
    → Distinct (keys pending)
    → plan.target_peer ≡ some peer
    → tally (text_of x) (text_of x a) plan.attempts ≤ 1
    → IsWalked peer v.rest
        (walk (suc (length v.rest)) (dial_connection_plan y s pending plan).1 peer)
unfolding dial_connection_plan track_remaining
dial_connection_plan-walk y x s t pending plan peer a v d target once =
    let rest : after_attempt a plan.attempts ≡ v.rest =
      ap (after_attempt a) v.split
      ∙ after_attempt-split x a v.tried v.rest
          (subst (λ l. tally (text_of x) (text_of x a) l ≤ 1) v.split once) in
    rw (StartedAt-loop y s t plan.attempts a v) (
      subst
        (λ o.
          IsWalked peer v.rest
            (walk (suc (length v.rest)) (track_for o (after_attempt a plan.attempts) pending) peer))
        (sym target)
        (walk-IsWalked (insert peer (after_attempt a plan.attempts) pending) peer v.rest
          (insert-Distinct peer (after_attempt a plan.attempts) pending d)
          (lookup-insert peer peer (after_attempt a plan.attempts) pending
            ∙ rw (==_refl peer) (ap some rest))))
