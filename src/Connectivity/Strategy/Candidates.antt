-- ===== src/Connectivity/Strategy/Candidates.antt =====
-- Which addresses a plan attempts: those that are requested or known and allowed, each once.
use p2p_net.Prelude.{
  ℕ, ◌+◌, ◌≡◌, refl, ap, ◌∙◌, Bool, true, false, ◌&&◌, ◌||◌, Option, none, some, List, [], ◌∷◌,
  ◌++◌, map, arith, if◌then◌else◌, ◌==◌, ==_iff, nat_eq, list_eq, option_eq,
}
use p2p_net.Prelude.Assoc.{mem, lookup}
use p2p_net.Prelude.HashSet.{retain}
use p2p_net.Prelude.OrderedSet.{text_ord, mem-include}
use p2p_net.Common.Text.{Text}
use p2p_net.Common.Multiaddr.{Multiaddr}
use p2p_net.Connectivity.PeerBook.{PeerBook}
use p2p_net.Connectivity.Strategy.Transports.{TransportCapabilities, allows_text}
use p2p_net.Connectivity.Strategy.Plan.{
  ConnectionAttempt, ConnectionAttemptKind, direct_quic, direct, relay, attempt_of, classify_addr,
  ordered_attempts, AddrText, push_candidate, push_parsed, push_addresses, plan_of, DcutrPolicy,
  known_addresses, prefers_relay, record_of, extract_p2p_peer_id,
  build_connection_plan_with_capabilities, build_peer_book_connection_plan_with_capabilities,
}
use p2p_net.Connectivity.Strategy.Order.{is_kind, of_kind, of_kind_cons, ordered_attempts_lem}

-- Equal texts pass the same filter.
same-text : (p : Text → Bool) (t u : Text) → (u == t) ≡ true → p u ≡ p t
same-text p t u e = ap p ((==_iff u t).0 e)

-- How many elements of a list have a text.
module _ {ℓ} {A : Type ℓ} (text : A → Text) where
  unfoldable pub tally : Text → List A → ℕ
  tally t [] = 0
  tally t (a ∷ rest) = (if text a == t then 1 else 0) + tally t rest

  tally-append : (t : Text) (xs ys : List A) → tally t (xs ++ ys) ≡ tally t xs + tally t ys
  unfolding tally
  tally-append t [] ys = omega arith
  tally-append t (x ∷ xs) ys = omega (arith, tally-append t xs ys)

  -- A filter that looks at the text only.
  tally-retain :
      (p : Text → Bool) (t : Text) (xs : List A)
      → tally t (retain (λ a. p (text a)) xs) ≡ (if p t then tally t xs else 0)
  unfolding tally retain
  tally-retain p t [] = ground arith
  tally-retain p t (x ∷ xs) =
      ground (arith, tally-retain p t xs, ==_iff (text x) t, same-text p t (text x))

abbrev pub text_of : AddrText → ConnectionAttempt → Text
text_of x a = x.print a.addr

-- The candidates are those whose texts were seen, each once.
abbrev pub IsCollected : AddrText → List Multiaddr × List Text → Type 0
IsCollected x s = (t : Text) → tally x.print t s.0 ≡ (if mem t s.1 then 1 else 0)

module _ (x : AddrText) where
  push_candidate-IsCollected :
      (s : List Multiaddr × List Text) (addr : Multiaddr)
      → IsCollected x s
      → IsCollected x (push_candidate x s addr)
  unfolding push_candidate tally
  push_candidate-IsCollected s addr v t = ground (
    arith,
    v t,
    ==_iff (x.print addr) t,
    ==_iff t (x.print addr),
    v (x.print addr),
    mem-include (x.print addr) t s.1,
    tally-append x.print t s.0 (addr ∷ []),
  )

  mem-push_candidate :
      (s : List Multiaddr × List Text) (addr : Multiaddr) (t : Text)
      → mem t (push_candidate x s addr).1 ≡ (x.print addr == t) || mem t s.1
  unfolding push_candidate
  mem-push_candidate s addr t =
      ground
        (arith, ==_iff (x.print addr) t, ==_iff t (x.print addr), mem-include (x.print addr) t s.1)

  -- One of the printed addresses parses to an address with the text.
  abbrev has_text : Option Multiaddr → Text → Bool
  has_text none t = false
  has_text (some addr) t = x.print addr == t

  unfoldable pub is_known : Text → List Text → Bool
  is_known t [] = false
  is_known t (raw ∷ rest) = has_text (x.parse raw) t || is_known t rest

  push_parsed-IsCollected :
      (s : List Multiaddr × List Text) (o : Option Multiaddr)
      → IsCollected x s
      → IsCollected x (push_parsed x s o)
  push_parsed-IsCollected s none v = v
  push_parsed-IsCollected s (some addr) v = push_candidate-IsCollected s addr v

  mem-push_parsed :
      (s : List Multiaddr × List Text) (o : Option Multiaddr) (t : Text)
      → mem t (push_parsed x s o).1 ≡ has_text o t || mem t s.1
  mem-push_parsed s none t = refl
  mem-push_parsed s (some addr) t = mem-push_candidate s addr t

  push_addresses-IsCollected :
      (s : List Multiaddr × List Text) (raws : List Text)
      → IsCollected x s
      → IsCollected x (push_addresses x s raws)
  unfolding push_addresses
  push_addresses-IsCollected s [] v = v
  push_addresses-IsCollected s (raw ∷ rest) v =
      push_addresses-IsCollected (push_parsed x s (x.parse raw)) rest
        (push_parsed-IsCollected s (x.parse raw) v)

  mem-push_addresses :
      (s : List Multiaddr × List Text) (raws : List Text) (t : Text)
      → mem t (push_addresses x s raws).1 ≡ mem t s.1 || is_known t raws
  unfolding push_addresses is_known
  mem-push_addresses s [] t = ground arith
  mem-push_addresses s (raw ∷ rest) t = ground (
    arith,
    mem-push_addresses (push_parsed x s (x.parse raw)) rest t,
    mem-push_parsed s (x.parse raw) t,
  )

  -- The attempts on the candidates of a kind have the texts of those candidates.
  tally-map :
      (t : Text) (candidates : List Multiaddr)
      → tally (text_of x) t (map attempt_of candidates) ≡ tally x.print t candidates
  unfolding tally
  tally-map t [] = refl
  tally-map t (a ∷ candidates) = omega (arith, tally-map t candidates)

  tally-of_kind :
      (t : Text) (k k' : ConnectionAttemptKind) (a : Multiaddr) (candidates : List Multiaddr)
      → classify_addr a ≡ k'
      → tally (text_of x) t (of_kind k (a ∷ candidates))
        ≡ (if is_kind k k' && (x.print a == t) then 1 else 0)
          + tally (text_of x) t (of_kind k candidates)
  unfolding tally
  tally-of_kind t k k' a candidates e =
      ap (tally (text_of x) t) (of_kind_cons k k' a candidates e) ∙ go (is_kind k k')
    where
      go :
          (b : Bool)
          → tally
              (text_of x)
              t
              (if b then attempt_of a ∷ of_kind k candidates else of_kind k candidates)
            ≡ (if b && (x.print a == t) then 1 else 0) + tally (text_of x) t (of_kind k candidates)
      go true = refl
      go false = omega arith

  one_kind :
      (k : ConnectionAttemptKind) (b : Bool)
      → (if is_kind direct_quic k && b then 1 else 0)
          + (if is_kind direct k && b then 1 else 0)
          + (if is_kind relay k && b then 1 else 0)
        ≡ (if b then 1 else 0)
  one_kind direct_quic true = refl
  one_kind direct_quic false = refl
  one_kind direct true = refl
  one_kind direct false = refl
  one_kind relay true = refl
  one_kind relay false = refl

  tally-no_kinds :
      (t : Text)
      → tally (text_of x) t (of_kind direct_quic [])
          + tally (text_of x) t (of_kind direct [])
          + tally (text_of x) t (of_kind relay [])
        ≡ 0
  unfolding tally retain
  tally-no_kinds t = refl

  tally-kinds :
      (t : Text) (candidates : List Multiaddr)
      → tally (text_of x) t (of_kind direct_quic candidates)
          + tally (text_of x) t (of_kind direct candidates)
          + tally (text_of x) t (of_kind relay candidates)
        ≡ tally x.print t candidates
  unfolding tally
  tally-kinds t [] = tally-no_kinds t
  tally-kinds t (a ∷ candidates) =
      let k = classify_addr a in
      omega (
        arith,
        tally-of_kind t direct_quic k a candidates refl,
        tally-of_kind t direct k a candidates refl,
        tally-of_kind t relay k a candidates refl,
        one_kind k (x.print a == t),
        tally-kinds t candidates,
      )

  tally-ordered_attempts :
      (t : Text) (candidates : List Multiaddr) (relay_preferred : Bool)
      → tally (text_of x) t (ordered_attempts candidates relay_preferred)
        ≡ tally x.print t candidates
  tally-ordered_attempts t candidates relay_preferred =
      ap (tally (text_of x) t) (ordered_attempts_lem candidates relay_preferred)
      ∙ go relay_preferred
    where
      q : List ConnectionAttempt
      q = of_kind direct_quic candidates

      d : List ConnectionAttempt
      d = of_kind direct candidates

      r : List ConnectionAttempt
      r = of_kind relay candidates

      go :
          (b : Bool)
          → tally (text_of x) t (if b then r ++ q ++ d else q ++ d ++ r)
            ≡ tally x.print t candidates
      go true = omega (
        arith,
        tally-append (text_of x) t (r ++ q) d,
        tally-append (text_of x) t r q,
        tally-kinds t candidates,
      )
      go false = omega (
        arith,
        tally-append (text_of x) t (q ++ d) r,
        tally-append (text_of x) t q d,
        tally-kinds t candidates,
      )

  tally-plan_of :
      (target : Option ℕ) (b : Bool) (policy : DcutrPolicy) (c : TransportCapabilities)
      (s : List Multiaddr × List Text) (t : Text)
      → IsCollected x s
      → tally (text_of x) t (plan_of x target b policy c s.0).attempts
        ≡ (if allows_text c t && mem t s.1 then 1 else 0)
  tally-plan_of target b policy c s t v = ground (
    arith,
    tally-ordered_attempts t (retain (λ a. allows_text c (x.print a)) s.0) b,
    tally-retain x.print (allows_text c) t s.0,
    v t,
  )

  nothing-IsCollected : IsCollected x ([], [])
  unfolding tally mem
  nothing-IsCollected t = refl

  mem-nothing : (t : Text) → mem t [] ≡ false
  unfolding mem
  mem-nothing t = refl

  -- The plan of a connection to an address attempts, once each, exactly the addresses that the
  -- transports allow among the one that is requested and those that the peer book has for the peer
  -- that it names and that parse; an address counts by its text.
  pub build_connection_plan-tally :
      (requested : Multiaddr) (book : PeerBook) (policy : DcutrPolicy) (c : TransportCapabilities)
      (t : Text)
      → tally
          (text_of x)
          t
          (build_connection_plan_with_capabilities x requested book policy c).attempts
        ≡ (if allows_text c t
              && ((x.print requested == t)
                  || is_known t
                      (known_addresses x (record_of x book (extract_p2p_peer_id requested))))
            then 1
            else 0)
  unfolding build_connection_plan_with_capabilities
  build_connection_plan-tally requested book policy c t =
      let target = extract_p2p_peer_id requested in
      let known = record_of x book target in
      let s = push_candidate x ([], []) requested in
      ground (
        arith,
        tally-plan_of target (prefers_relay x known) policy c
            (push_addresses x s (known_addresses x known)) t
            (push_addresses-IsCollected s (known_addresses x known)
              (push_candidate-IsCollected ([], []) requested nothing-IsCollected)),
        mem-push_addresses s (known_addresses x known) t,
        mem-push_candidate ([], []) requested t,
        mem-nothing t,
      )

  -- The plan of a connection to a known peer attempts, once each, exactly the addresses that the
  -- transports allow among those that the peer book has for the peer and that parse.
  pub build_peer_book_connection_plan-tally :
      (peer : ℕ) (book : PeerBook) (policy : DcutrPolicy) (c : TransportCapabilities) (t : Text)
      → tally
          (text_of x)
          t
          (build_peer_book_connection_plan_with_capabilities x peer book policy c).attempts
        ≡ (if allows_text c t && is_known t (known_addresses x (lookup peer book.peers))
            then 1
            else 0)
  unfolding build_peer_book_connection_plan_with_capabilities
  build_peer_book_connection_plan-tally peer book policy c t =
      let known = lookup peer book.peers in
      ground (
        arith,
        tally-plan_of (some peer) (prefers_relay x known) policy c
            (push_addresses x ([], []) (known_addresses x known)) t
            (push_addresses-IsCollected ([], []) (known_addresses x known) nothing-IsCollected),
        mem-push_addresses ([], []) (known_addresses x known) t,
        mem-nothing t,
      )
