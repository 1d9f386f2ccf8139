-- ===== src/Connectivity/Relay/Address.antt =====
-- crates/connectivity/relay/address.rs: the addresses through which a relay is asked for a
-- reservation and a peer is dialed.
use p2p_net.Prelude.{
  ℕ, ◌≡◌, refl, sym, ap, subst, ◌∙◌, ◌⊎◌, inl, inr, Bool, true, false, not, ◌||◌, Option, none,
  some, [], ◌∷◌, ◌++◌, arith, if◌then◌else◌, Bool-cases, Option-cases, any, ◌==◌, ==_iff, ==_refl,
  nat_eq, list_eq, option_eq,
}
use p2p_net.Prelude.Assoc.{is_some}
use p2p_net.Common.Multiaddr.{Multiaddr, Protocol, p2p, p2p_circuit}

abbrev pub is_circuit : Protocol → Bool
is_circuit p2p_circuit = true
is_circuit _ = false

-- The peer id of a component, if it is one.
abbrev pub peer_of : Protocol → Option ℕ
peer_of (p2p peer) = some peer
peer_of _ = none

unfoldable pub is_p2p_circuit_addr : Multiaddr → Bool
is_p2p_circuit_addr addr = any is_circuit addr

unfoldable pub has_p2p_peer_id : Multiaddr → Bool
has_p2p_peer_id addr = any (λ p. is_some (peer_of p)) addr

unfoldable pub relay_reservation_addr : Multiaddr → Option Multiaddr
relay_reservation_addr relay_addr =
    if not (has_p2p_peer_id relay_addr) || is_p2p_circuit_addr relay_addr
    then none
    else some (relay_addr ++ p2p_circuit ∷ [])

-- `first.or(second)` of options.
abbrev pub or_else : Option ℕ → Option ℕ → Option ℕ
or_else none other = other
or_else (some a) other = some a

-- The loop of `relay_peer_id`: the first peer id, unless a circuit comes before it.
unfoldable pub relay_peer_id : Multiaddr → Option ℕ
relay_peer_id [] = none
relay_peer_id (p ∷ rest) =
    let later = relay_peer_id rest in or_else (peer_of p) (if is_circuit p then none else later)

-- The loop of `relay_dial_addr_for_peer`: the last peer id after a circuit.
unfoldable pub target_after_circuit : Bool → Option ℕ → Multiaddr → Option ℕ
target_after_circuit seen target [] = target
target_after_circuit seen target (p ∷ rest) =
    target_after_circuit (seen || is_circuit p)
      (if seen then or_else (peer_of p) target else target) rest

-- The address of a route, for the target that it has or lacks.
abbrev pub route_for : Multiaddr → ℕ → Option ℕ → Option Multiaddr
route_for addr target (some peer) = if peer == target then some addr else none
route_for addr target none = some (addr ++ p2p target ∷ [])

unfoldable pub relay_dial_addr_for_peer : Multiaddr → ℕ → Option Multiaddr
relay_dial_addr_for_peer addr target =
    if not (is_p2p_circuit_addr addr)
    then none
    else route_for addr target (target_after_circuit false none addr)

-- Adding a peer id behind a circuit makes that peer the target.
target_after_circuit-append :
    (seen : Bool) (target : Option ℕ) (addr : Multiaddr) (peer : ℕ)
    → (seen || any is_circuit addr) ≡ true
    → target_after_circuit seen target (addr ++ p2p peer ∷ []) ≡ some peer
unfolding target_after_circuit any
target_after_circuit-append seen target [] peer h = ground arith
target_after_circuit-append seen target (p ∷ addr) peer h =
    target_after_circuit-append (seen || is_circuit p)
      (if seen then or_else (peer_of p) target else target) addr peer (ground arith)

is_circuit-append :
    (xs ys : Multiaddr) → any is_circuit (xs ++ ys) ≡ any is_circuit xs || any is_circuit ys
unfolding any
is_circuit-append [] ys = refl
is_circuit-append (x ∷ xs) ys = ground (arith, is_circuit-append xs ys)

-- Without a circuit nothing is behind one.
target_after_circuit-none :
    (addr : Multiaddr)
    → any is_circuit addr ≡ false
    → target_after_circuit false none (addr ++ p2p_circuit ∷ []) ≡ none
unfolding target_after_circuit any
target_after_circuit-none [] h = refl
target_after_circuit-none (p ∷ addr) h =
    let e : is_circuit p ≡ false = ground (arith, h) in
    subst (λ c. target_after_circuit c none (addr ++ p2p_circuit ∷ []) ≡ none) (sym e)
      (target_after_circuit-none addr (ground (arith, h)))

relay_peer_id-append :
    (addr : Multiaddr)
    → any is_circuit addr ≡ false
    → relay_peer_id (addr ++ p2p_circuit ∷ []) ≡ relay_peer_id addr
unfolding relay_peer_id any
relay_peer_id-append [] h = refl
relay_peer_id-append (p ∷ addr) h = ground (arith, relay_peer_id-append addr)

-- What a route is: it goes through a circuit to the target, and it is its own route.
pub record IsRoute (route : Multiaddr) (target : ℕ) : Type 0 where
  pub circuit : is_p2p_circuit_addr route ≡ true
  pub behind : target_after_circuit false none route ≡ some target
  pub fixed : relay_dial_addr_for_peer route target ≡ some route

to-IsRoute :
    (route : Multiaddr) (target : ℕ)
    → any is_circuit route ≡ true
    → target_after_circuit false none route ≡ some target
    → IsRoute route target
unfolding is_p2p_circuit_addr relay_dial_addr_for_peer
to-IsRoute route target c t = record {
  circuit = c;
  behind = t;
  fixed = rw (c, t, ==_refl target) refl;
}

route_for-IsRoute :
    (addr route : Multiaddr) (target : ℕ) (o : Option ℕ)
    → any is_circuit addr ≡ true
    → target_after_circuit false none addr ≡ o
    → route_for addr target o ≡ some route
    → IsRoute route target
route_for-IsRoute addr route target none c t h =
    let e : addr ++ p2p target ∷ [] ≡ route = cc in
    subst (λ r. IsRoute r target) e
      (to-IsRoute (addr ++ p2p target ∷ []) target
        (ground (arith, is_circuit-append addr (p2p target ∷ []), c))
        (target_after_circuit-append false none addr target c))
route_for-IsRoute addr route target (some peer) c t h = elim (Bool-cases (peer == target)) [
  | inl e ↦
      let same : addr ≡ route = ground (arith, h, e) in
      subst (λ r. IsRoute r target) same
        (to-IsRoute addr target c (t ∙ ap some ((==_iff peer target).0 e)))
  | inr e ↦ absurd (ground (arith, h, e))
]

-- A route that is found for a target goes through a circuit, has the target as the last peer
-- behind it, and is its own route for that target.
pub relay_dial_addr_for_peer-IsRoute :
    (addr route : Multiaddr) (target : ℕ)
    → relay_dial_addr_for_peer addr target ≡ some route
    → IsRoute route target
unfolding relay_dial_addr_for_peer is_p2p_circuit_addr
relay_dial_addr_for_peer-IsRoute addr route target h = elim (Bool-cases (any is_circuit addr)) [
  | inr e ↦ absurd (refused e)
  | inl e ↦ route_for-IsRoute addr route target _ e refl (through e)
]
  where
    refused : any is_circuit addr ≡ false → ⊥
    refused e = ground (arith, h, e)

    through :
        any is_circuit addr ≡ true
        → route_for addr target (target_after_circuit false none addr) ≡ some route
    through e = ground (arith, h, e)

-- An address that has a peer id and no circuit names a relay.
relay_peer_id-named :
    (addr : Multiaddr)
    → any is_circuit addr ≡ false
    → any (λ p. is_some (peer_of p)) addr ≡ true
    → (relay : ℕ) × (relay_peer_id addr ≡ some relay)
unfolding relay_peer_id any
relay_peer_id-named [] h n = absurd (ground arith)
relay_peer_id-named (p ∷ addr) h n = elim (Option-cases (peer_of p)) [
  | inl e ↦
      let (relay, f) = relay_peer_id-named addr (ground (arith, h)) (ground (arith, n, e)) in
      (relay, ground (arith, e, f, h))
  | inr (relay, e) ↦ (relay, ground (arith, e))
]

-- An address without a peer id names no relay.
relay_peer_id-unnamed :
    (addr : Multiaddr) → any (λ p. is_some (peer_of p)) addr ≡ false → relay_peer_id addr ≡ none
unfolding relay_peer_id any
relay_peer_id-unnamed [] n = refl
relay_peer_id-unnamed (p ∷ addr) n = ground (arith, n, relay_peer_id-unnamed addr)

reserved_route :
    (relay_addr reserved : Multiaddr) (target : ℕ)
    → relay_reservation_addr relay_addr ≡ some reserved
    → (is_p2p_circuit_addr relay_addr ≡ false)
      × (relay_peer_id reserved ≡ relay_peer_id relay_addr)
      × ((relay : ℕ) × (relay_peer_id reserved ≡ some relay))
      × (relay_dial_addr_for_peer reserved target ≡ some (reserved ++ p2p target ∷ []))
unfolding relay_reservation_addr has_p2p_peer_id relay_dial_addr_for_peer is_p2p_circuit_addr any
reserved_route relay_addr reserved target h = elim (Bool-cases (any is_circuit relay_addr)) [
  | inl e ↦ absurd (refused e)
  | inr e ↦
      subst
        (λ r.
          (any is_circuit relay_addr ≡ false)
          × (relay_peer_id r ≡ relay_peer_id relay_addr)
          × ((relay : ℕ) × (relay_peer_id r ≡ some relay))
          × ((if not (any is_circuit r)
                then none
                else route_for r target (target_after_circuit false none r))
              ≡ some (r ++ p2p target ∷ [])))
        (reserved_is e)
        (
          e,
          relay_peer_id-append relay_addr e,
          (let (relay, n) = relay_peer_id-named relay_addr e named in
              (relay, relay_peer_id-append relay_addr e ∙ n)),
          rw
              (
                is_circuit-append relay_addr (p2p_circuit ∷ []),
                e,
                target_after_circuit-none relay_addr e,
              )
              refl,
        )
]
  where
    refused : any is_circuit relay_addr ≡ true → ⊥
    refused e = ground (arith, h, e)

    named : any (λ p. is_some (peer_of p)) relay_addr ≡ true
    named = ground (arith, h)

    reserved_is : any is_circuit relay_addr ≡ false → relay_addr ++ p2p_circuit ∷ [] ≡ reserved
    reserved_is e = ground (arith, h, e)

not_reserved :
    (relay_addr : Multiaddr)
    → relay_reservation_addr relay_addr ≡ none
    → (relay_peer_id relay_addr ≡ none) ⊎ (is_p2p_circuit_addr relay_addr ≡ true)
unfolding relay_reservation_addr has_p2p_peer_id
not_reserved relay_addr h = elim (Bool-cases (any (λ p. is_some (peer_of p)) relay_addr)) [
  | inl named ↦ inr (ground (arith, h, named))
  | inr unnamed ↦ inl (relay_peer_id-unnamed relay_addr unnamed)
]

-- For an address that names no relay or goes through a circuit already, no reservation is asked
-- for, and for no other. The address with which one is asked for names a relay, by the peer id that
-- the configured address names first, and the route to a peer over it ends in that peer.
pub relay_reservation_addr-route :
    (relay_addr : Multiaddr) (target : ℕ)
    → ((relay_reservation_addr relay_addr ≡ none)
        × ((relay_peer_id relay_addr ≡ none) ⊎ (is_p2p_circuit_addr relay_addr ≡ true)))
      ⊎ ((reserved : Multiaddr) × (relay_reservation_addr relay_addr ≡ some reserved)
          × (is_p2p_circuit_addr relay_addr ≡ false)
          × (relay_peer_id reserved ≡ relay_peer_id relay_addr)
          × ((relay : ℕ) × (relay_peer_id reserved ≡ some relay))
          × (relay_dial_addr_for_peer reserved target ≡ some (reserved ++ p2p target ∷ [])))
relay_reservation_addr-route relay_addr target =
    elim (Option-cases (relay_reservation_addr relay_addr)) [
      | inl e ↦ inl (e, not_reserved relay_addr e)
      | inr (reserved, e) ↦
          let (circuit, same, named, route) = reserved_route relay_addr reserved target e in
          inr (reserved, e, circuit, same, named, route)
    ]
