-- ===== src/Connectivity/Dht/Retry.antt =====
-- The retry policy of automatic connections: no window has more attempts than its cap, and a
-- failed attempt is not repeated at once.
use p2p_net.Prelude.{
  ℕ, ◌+◌, ◌-◌, ◌≤◌, ◌<◌, min, u32_max, ◌⊎◌, ◌≡◌, refl, sym, ap, subst, ◌∙◌, inl, inr, Bool, true,
  false, ◌&&◌, ◌||◌, Option, none, some, List, [], ◌∷◌, arith, ltb, leb, nat_beq, if◌then◌else◌,
  Bool-cases, length, nat_eq, list_eq, option_eq,
}
use p2p_net.Prelude.Assoc.{
  lookup, insert, remove, mem, lookup-insert_same, Values, insert-Values, remove-Values,
}
use p2p_net.Connectivity.BoundedSet.{mem-remove_peer_from_bounded_set}
use p2p_net.Connectivity.Dht.State.{
  DhtProviderState, Ordered, AutoConnectRetryState, default_retry, retry_or_default, count_attempt,
  evict_retries, note_attempt, mark_auto_connect_attempted, mark_auto_connect_waiting_for_addrs,
  mark_auto_connect_failed, decide_retry, auto_connect_retry_allowed,
  should_auto_connect_provider_result, auto_connect_retry_window_secs,
  auto_connect_retry_cooldown_secs, max_auto_connect_attempts_per_window,
  max_tracked_provider_peers,
}
use p2p_net.Connectivity.Dht.Ordered.{note_attempt-IsNoted}
use p2p_net.Connectivity.Dht.Consistent.{IsConsistent, mark_attempted-IsConsistent}

abbrev pub Retries : Type 0
Retries = List (ℕ × AutoConnectRetryState)

-- No entry has more attempts than the cap.
abbrev pub InCap : AutoConnectRetryState → Type 0
InCap r = r.attempts ≤ max_auto_connect_attempts_per_window

abbrev pub Limited : Retries → Type 0
Limited m = Values InCap m

abbrev pub IsLimited : DhtProviderState → Type 0
IsLimited s = Limited s.auto_connect_retry.table

evict-Limited : (m : Retries) (order : List ℕ) → Limited m → Limited (evict_retries m order).table
unfolding evict_retries
evict-Limited m [] v = v
evict-Limited m (k ∷ order) v = elim (Bool-cases (ltb max_tracked_provider_peers (length m))) [
  | inl e ↦ rw (e, evict_retries) (evict-Limited (remove k m) order (remove-Values InCap k m v))
  | inr e ↦ rw (e, evict_retries) v
]

-- One more attempt stays within the cap.
abbrev pub is_ready : Option AutoConnectRetryState → Bool
is_ready none = true
is_ready (some r) = ltb r.attempts max_auto_connect_attempts_per_window

count_attempt-le :
    (now : ℕ) (o : Option AutoConnectRetryState)
    → is_ready o ≡ true
    → (count_attempt now (retry_or_default o)).attempts ≤ max_auto_connect_attempts_per_window
unfolding count_attempt
count_attempt-le now none h = ground arith
count_attempt-le now (some r) h = ground (arith, h)

note_attempt-Limited :
    (now peer : ℕ) (o : Ordered AutoConnectRetryState)
    → is_ready (lookup peer o.table) ≡ true
    → Limited o.table
    → Limited (note_attempt now peer o).table
unfolding note_attempt
note_attempt-Limited now peer o ready v =
    evict-Limited _ _
      (insert-Values InCap peer _ o.table (count_attempt-le now (lookup peer o.table) ready) v)

pub mark_attempted-IsLimited :
    (now : ℕ) (s : DhtProviderState) (peer : ℕ)
    → is_ready (lookup peer s.auto_connect_retry.table) ≡ true
    → IsLimited s
    → IsLimited (mark_auto_connect_attempted now s peer).0
unfolding mark_auto_connect_attempted
mark_attempted-IsLimited now s peer ready v =
    by_known (mem peer s.auto_connect_attempted_peers.members)
  where
    by_known :
        (b : Bool)
        → Limited
            (if b then s.auto_connect_retry else note_attempt now peer s.auto_connect_retry).table
    by_known true = v
    by_known false = note_attempt-Limited now peer s.auto_connect_retry ready v

-- A decision keeps the cap, and where it is positive one more attempt does too.
abbrev Decided : ℕ → Ordered AutoConnectRetryState × Bool → Type 0
Decided peer d = Limited d.0.table × (d.1 ≡ true → is_ready (lookup peer d.0.table) ≡ true)

fresh_ready :
    (now peer : ℕ) (m : Retries)
    → is_ready
        (lookup peer (insert peer (record default_retry { window_started_unix_secs = now }) m))
      ≡ true
fresh_ready now peer m =
    subst (λ o. is_ready o ≡ true)
      (sym (lookup-insert_same peer (record default_retry { window_started_unix_secs = now }) m))
      refl

decide_retry-Decided :
    (now peer : ℕ) (o : Option AutoConnectRetryState) (r : Ordered AutoConnectRetryState)
    → lookup peer r.table ≡ o
    → Limited r.table
    → Decided peer (decide_retry now peer o r)
decide_retry-Decided now peer none r at v = (v, λ h. ap is_ready at)
decide_retry-Decided now peer (some retry) r at v =
    elim (Bool-cases (leb 300 (now - retry.window_started_unix_secs))) [
      | inl e ↦
          rw e
            (insert-Values InCap peer _ r.table (omega arith) v, λ h. fresh_ready now peer r.table)
      | inr e ↦ rw e (v, λ h. ap is_ready at ∙ ground (arith, h))
    ]

pub retry_allowed-Decided :
    (now : ℕ) (s : DhtProviderState) (peer : ℕ)
    → IsLimited s
    → let d = auto_connect_retry_allowed now s peer in
      IsLimited d.0 × (d.1 ≡ true → is_ready (lookup peer d.0.auto_connect_retry.table) ≡ true)
unfolding auto_connect_retry_allowed
retry_allowed-Decided now s peer v =
    elim (Bool-cases (mem peer s.auto_connect_attempted_peers.members)) [
      | inl e ↦ rw (e, auto_connect_retry_allowed) (v, λ h. absurd (ground (arith, h)))
      | inr e ↦
          rw (e, auto_connect_retry_allowed)
            (decide_retry-Decided now peer (lookup peer s.auto_connect_retry.table)
              s.auto_connect_retry refl v)
    ]

pub provider_result-Decided :
    (now : ℕ) (s : DhtProviderState) (peer : ℕ)
    → IsLimited s
    → let d = should_auto_connect_provider_result now s peer in
      IsLimited d.0 × (d.1 ≡ true → is_ready (lookup peer d.0.auto_connect_retry.table) ≡ true)
unfolding should_auto_connect_provider_result
provider_result-Decided now s peer v =
    elim (Bool-cases (mem peer s.auto_connect_waiting_for_addrs.members)) [
      | inl e ↦ rw (e, should_auto_connect_provider_result) (v, λ h. absurd (ground (arith, h)))
      | inr e ↦ rw (e, should_auto_connect_provider_result) (retry_allowed-Decided now s peer v)
    ]

pub mark_waiting-IsLimited :
    (s : DhtProviderState) (peer : ℕ)
    → IsLimited s
    → IsLimited (mark_auto_connect_waiting_for_addrs s peer).0
unfolding mark_auto_connect_waiting_for_addrs
mark_waiting-IsLimited s peer v =
    elim (Bool-cases (mem peer s.auto_connect_attempted_peers.members)) [
      | inl e ↦ rw (e, mark_auto_connect_waiting_for_addrs) v
      | inr e ↦ rw (e, mark_auto_connect_waiting_for_addrs) v
    ]

-- The retry that a failed attempt leaves.
attempt_failed-retry :
    (now : ℕ) (s : DhtProviderState) (peer : ℕ)
    → IsConsistent s
    → mem peer s.auto_connect_attempted_peers.members ≡ false
    → lookup peer (mark_auto_connect_attempted now s peer).0.auto_connect_retry.table
      ≡ some (count_attempt now (retry_or_default (lookup peer s.auto_connect_retry.table)))
unfolding mark_auto_connect_attempted
attempt_failed-retry now s peer v new =
    rw new (note_attempt-IsNoted now peer s.auto_connect_retry v.retries).1

attempt_failed-gone :
    (s : DhtProviderState) (peer : ℕ)
    → IsConsistent s
    → mem peer (mark_auto_connect_failed s peer).0.auto_connect_attempted_peers.members ≡ false
unfolding mark_auto_connect_failed
attempt_failed-gone s peer v =
    ground (
      arith,
      mem-remove_peer_from_bounded_set _ peer peer s.auto_connect_attempted_peers v.attempted,
    )

last_attempt :
    (now : ℕ) (r : AutoConnectRetryState) → (count_attempt now r).last_attempt_unix_secs ≡ now
unfolding count_attempt
last_attempt now r = ground arith

-- The decision for a peer that is not attempted, by its retry.
allowed_by_retry :
    (now : ℕ) (s : DhtProviderState) (peer : ℕ) (r : AutoConnectRetryState)
    → mem peer s.auto_connect_attempted_peers.members ≡ false
    → lookup peer s.auto_connect_retry.table ≡ some r
    → (auto_connect_retry_allowed now s peer).1
      ≡ leb auto_connect_retry_window_secs (now - r.window_started_unix_secs)
        || (ltb r.attempts max_auto_connect_attempts_per_window
            && leb auto_connect_retry_cooldown_secs (now - r.last_attempt_unix_secs))
unfolding auto_connect_retry_allowed
allowed_by_retry now s peer r out at =
    rw (out, at, auto_connect_retry_allowed)
      (elim (Bool-cases (leb 300 (now - r.window_started_unix_secs))) [
        | inl e ↦ rw e refl
        | inr e ↦ rw e refl
      ])

failed-retry :
    (s : DhtProviderState) (peer : ℕ)
    → (mark_auto_connect_failed s peer).0.auto_connect_retry ≡ s.auto_connect_retry
unfolding mark_auto_connect_failed
failed-retry s peer = refl

-- The first attempt of a new window, or one more in the window that is running.
abbrev pub IsAttempt : ℕ → AutoConnectRetryState → AutoConnectRetryState → Type 0
IsAttempt now before after =
    (after.last_attempt_unix_secs ≡ now)
    × ((((before.window_started_unix_secs ≡ 0)
            ⊎ (auto_connect_retry_window_secs ≤ now - before.window_started_unix_secs))
          × (after.attempts ≡ 1)
          × (after.window_started_unix_secs ≡ now))
        ⊎ ((1 ≤ before.window_started_unix_secs)
            × (now - before.window_started_unix_secs < auto_connect_retry_window_secs)
            × (after.attempts ≡ min (before.attempts + 1) u32_max)
            × (after.window_started_unix_secs ≡ before.window_started_unix_secs)))

count_attempt-IsAttempt :
    (now : ℕ) (r : AutoConnectRetryState) → IsAttempt now r (count_attempt now r)
unfolding count_attempt
count_attempt-IsAttempt now r =
    elim (Bool-cases (
      nat_beq r.window_started_unix_secs 0
      || leb auto_connect_retry_window_secs (now - r.window_started_unix_secs))) [
        | inl e ↦ rw (e, count_attempt) (refl, inl (ground (arith, e), refl, refl))
        | inr e ↦
            rw (e, count_attempt) (refl, inr (ground (arith, e), ground (arith, e), refl, refl))
      ]

-- An attempt on a peer that was not attempted, in a consistent state, is the first of a new window
-- where the peer had none or it is over, and else one more in the old window, up to the greatest
-- number of 32 bits, and it is stored, also after a failure. After its failure another attempt on the peer is allowed exactly when the window of the attempt is over, however short the time since the
-- attempt is, or when the window has room for it and the cooldown since the attempt is over.
pub auto_connect_retry_allowed-failed :
    (now later : ℕ) (s : DhtProviderState) (peer : ℕ)
    → IsConsistent s
    → mem peer s.auto_connect_attempted_peers.members ≡ false
    → let r = count_attempt now (retry_or_default (lookup peer s.auto_connect_retry.table)) in
      let t = (mark_auto_connect_failed (mark_auto_connect_attempted now s peer).0 peer).0 in
      IsAttempt now (retry_or_default (lookup peer s.auto_connect_retry.table)) r
      × (lookup peer t.auto_connect_retry.table ≡ some r)
      × ((auto_connect_retry_allowed later t peer).1
          ≡ leb auto_connect_retry_window_secs (later - r.window_started_unix_secs)
            || (ltb r.attempts max_auto_connect_attempts_per_window
                && leb auto_connect_retry_cooldown_secs (later - now)))
auto_connect_retry_allowed-failed now later s peer v new =
    let r = count_attempt now (retry_or_default (lookup peer s.auto_connect_retry.table)) in
    let u = (mark_auto_connect_attempted now s peer).0 in
    let t = (mark_auto_connect_failed u peer).0 in
    let stored : lookup peer t.auto_connect_retry.table ≡ some r =
      ap (λ o. lookup peer o.table) (failed-retry u peer) ∙ attempt_failed-retry now s peer v new in
    (
      count_attempt-IsAttempt now (retry_or_default (lookup peer s.auto_connect_retry.table)),
      stored,
      allowed_by_retry later t peer r
            (attempt_failed-gone u peer (mark_attempted-IsConsistent now s peer v)) stored
          ∙ ap
              (λ n.
                leb auto_connect_retry_window_secs (later - r.window_started_unix_secs)
                || (ltb r.attempts max_auto_connect_attempts_per_window
                    && leb auto_connect_retry_cooldown_secs (later - n)))
              (last_attempt now (retry_or_default (lookup peer s.auto_connect_retry.table))),
    )
