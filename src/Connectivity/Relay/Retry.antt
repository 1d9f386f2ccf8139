-- ===== src/Connectivity/Relay/Retry.antt =====
-- crates/connectivity/relay/reservation_retry.rs: re-requests of relay reservations whose listener
-- closed. Listeners are numbers, times and delays are in seconds.
use p2p_net.Prelude.{
  ℕ, zero, suc, ◌+◌, ◌*◌, ◌^◌, ◌≤◌, min, ◌≡◌, refl, ap, ◌∙◌, inl, inr, Bool, false, not, Option,
  none, some, List, [], ◌∷◌, ◌++◌, map, arith, leb, if◌then◌else◌, Bool-cases, saturating_add32,
  ◌==◌, nat_eq, list_eq, option_eq,
}
use p2p_net.Prelude.Assoc.{lookup, insert, remove}
use p2p_net.Prelude.HashSet.{retain}
use p2p_net.Common.Multiaddr.{Multiaddr, protocol_eq}
use p2p_net.Connectivity.Relay.Address.{relay_peer_id}

abbrev pub base_delay : ℕ
base_delay = 5

abbrev pub max_delay : ℕ
max_delay = 120

pub record ReservationRetries : Type 0 where
  pub listeners : List (ℕ × Multiaddr)
  pub closes : List (Multiaddr × ℕ)
  pub due : List (ℕ × Multiaddr)

unfoldable pub track : ReservationRetries → ℕ → Multiaddr → ReservationRetries
track s listener addr = record s { listeners = insert listener addr s.listeners }

abbrev pub count_or_zero : Option ℕ → ℕ
count_or_zero none = 0
count_or_zero (some n) = n

-- The delay after a number of closes, and what `closed` does for a listener that is found.
unfoldable pub backoff : ℕ → ℕ
backoff closes = min (base_delay * 2 ^ min closes 5) max_delay

abbrev pub schedule_retry :
    ReservationRetries → ℕ → ℕ → Option Multiaddr → ReservationRetries × Option (Multiaddr × ℕ)
schedule_retry s listener now none = (s, none)
schedule_retry s listener now (some addr) =
    let closes = count_or_zero (lookup addr s.closes) in
    let delay = backoff closes in
    (
      record {
        listeners = remove listener s.listeners;
        closes = insert addr (saturating_add32 closes 1) s.closes;
        due = s.due ++ (now + delay, addr) ∷ [];
      },
      some (addr, delay),
    )

unfoldable pub closed : ReservationRetries → ℕ → ℕ → ReservationRetries × Option (Multiaddr × ℕ)
closed s listener now = schedule_retry s listener now (lookup listener s.listeners)

abbrev pub is_relay : ℕ → Option ℕ → Bool
is_relay relay none = false
is_relay relay (some peer) = peer == relay

unfoldable pub accepted : ReservationRetries → ℕ → ReservationRetries
accepted s relay = record s {
  closes = retain (λ c. not (is_relay relay (relay_peer_id c.0))) s.closes;
}

unfoldable pub take_due : ReservationRetries → ℕ → ReservationRetries × List Multiaddr
take_due s now = (
  record s { due = retain (λ d. not (leb d.0 now)) s.due },
  map (λ d. d.1) (retain (λ d. leb d.0 now) s.due),
)

retain-append :
    {A : Type 0} (p : A → Bool) (xs ys : List A) → retain p (xs ++ ys) ≡ retain p xs ++ retain p ys
unfolding retain
retain-append p [] ys = refl
retain-append p (x ∷ xs) ys = elim (Bool-cases (p x)) [
  | inl e ↦ rw e (ap (◌∷◌ x) (retain-append p xs ys))
  | inr e ↦ rw e (retain-append p xs ys)
]

map-append : {A B : Type 0} (f : A → B) (xs ys : List A) → map f (xs ++ ys) ≡ map f xs ++ map f ys
map-append f [] ys = refl
map-append f (x ∷ xs) ys = ap (◌∷◌ (f x)) (map-append f xs ys)

pow2_pos : (k : ℕ) → 1 ≤ 2 ^ k
pow2_pos zero = omega arith
pow2_pos (suc k) = omega (arith, pow2_pos k)

-- Every delay is between the base delay and the greatest.
backoff-bounds : (n : ℕ) → (base_delay ≤ backoff n) × (backoff n ≤ max_delay)
unfolding backoff
backoff-bounds n = (omega (arith, pow2_pos (min n 5)), omega arith)

due_after :
    (s : ReservationRetries) (now : ℕ) (at : ℕ) (addr : Multiaddr)
    → map (λ d. d.1) (retain (λ d. leb d.0 now) (s.due ++ (at, addr) ∷ []))
      ≡ (take_due s now).1 ++ (if leb at now then addr ∷ [] else [])
unfolding take_due retain
due_after s now at addr =
    ap (map (λ d. d.1)) (retain-append (λ d. leb d.0 now) s.due ((at, addr) ∷ []))
    ∙ map-append (λ d. d.1) (retain (λ d. leb d.0 now) s.due) _
    ∙ elim (Bool-cases (leb at now)) [ inl e ↦ rw e refl | inr e ↦ rw e refl ]

-- When a reservation's listener closes, a re-request of its address is scheduled: its delay is at
-- least 5 seconds, at most 120, and from the time of the close and the delay on the address is
-- due, at the end of those that were due before.
pub closed-take_due :
    (s : ReservationRetries) (listener now later : ℕ) (addr : Multiaddr)
    → lookup listener s.listeners ≡ some addr
    → let delay = backoff (count_or_zero (lookup addr s.closes)) in
      let t = closed s listener now in
      (t.1 ≡ some (addr, delay))
      × (base_delay ≤ delay)
      × (delay ≤ max_delay)
      × ((take_due t.0 later).1
          ≡ (take_due s later).1 ++ (if leb (now + delay) later then addr ∷ [] else []))
unfolding closed take_due
closed-take_due s listener now later addr at =
    let n = count_or_zero (lookup addr s.closes) in
    let b = backoff-bounds n in rw at (refl, b.0, b.1, due_after s later (now + backoff n) addr)
