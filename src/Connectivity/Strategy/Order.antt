-- ===== src/Connectivity/Strategy/Order.antt =====
-- The attempts of a plan: the allowed candidates, each once, in the order of their kinds.
use p2p_net.Prelude.{
  ◌≡◌, refl, sym, ap, subst, ◌∙◌, Bool, true, false, List, [], ◌∷◌, ◌++◌, map, if◌then◌else◌,
  nat_eq, list_eq, option_eq,
}
use p2p_net.Prelude.HashSet.{retain}
use p2p_net.Common.Multiaddr.{Multiaddr}
use p2p_net.Connectivity.Strategy.Plan.{
  ConnectionAttempt, ConnectionAttemptKind, direct_quic, direct, relay, attempt_of, classify_addr,
  split_attempts, add_attempt, ordered_attempts,
}

abbrev pub is_kind : ConnectionAttemptKind → ConnectionAttemptKind → Bool
is_kind direct_quic direct_quic = true
is_kind direct direct = true
is_kind relay relay = true
is_kind _ _ = false

-- The attempts on the candidates of a kind, in their order.
abbrev pub of_kind : ConnectionAttemptKind → List Multiaddr → List ConnectionAttempt
of_kind k candidates = map attempt_of (retain (λ a. is_kind k (classify_addr a)) candidates)

-- The attempts of a kind, with one more candidate.
pub of_kind_cons :
    (k k' : ConnectionAttemptKind) (addr : Multiaddr) (candidates : List Multiaddr)
    → classify_addr addr ≡ k'
    → of_kind k (addr ∷ candidates)
      ≡ (if is_kind k k' then attempt_of addr ∷ of_kind k candidates else of_kind k candidates)
unfolding retain
of_kind_cons k k' addr candidates e =
    subst
      (λ c.
        map attempt_of (
          if is_kind k c
          then addr ∷ retain (λ a. is_kind k (classify_addr a)) candidates
          else retain (λ a. is_kind k (classify_addr a)) candidates)
        ≡ (if is_kind k k' then attempt_of addr ∷ of_kind k candidates else of_kind k candidates))
      (sym e) (go (is_kind k k'))
  where
    go :
        (b : Bool)
        → map attempt_of (
            if b
            then addr ∷ retain (λ a. is_kind k (classify_addr a)) candidates
            else retain (λ a. is_kind k (classify_addr a)) candidates)
          ≡ (if b then attempt_of addr ∷ of_kind k candidates else of_kind k candidates)
    go true = refl
    go false = refl

add_attempt_lem :
    (k : ConnectionAttemptKind) (addr : Multiaddr) (candidates : List Multiaddr)
    → classify_addr addr ≡ k
    → add_attempt k
        (attempt_of addr)
        (of_kind direct_quic candidates, of_kind direct candidates, of_kind relay candidates)
      ≡ (
        of_kind direct_quic (addr ∷ candidates),
        of_kind direct (addr ∷ candidates),
        of_kind relay (addr ∷ candidates),
      )
add_attempt_lem direct_quic addr candidates e =
    rw
      (
        of_kind_cons direct_quic _ addr candidates e,
        of_kind_cons direct _ addr candidates e,
        of_kind_cons relay _ addr candidates e,
      )
      refl
add_attempt_lem direct addr candidates e =
    rw
      (
        of_kind_cons direct_quic _ addr candidates e,
        of_kind_cons direct _ addr candidates e,
        of_kind_cons relay _ addr candidates e,
      )
      refl
add_attempt_lem relay addr candidates e =
    rw
      (
        of_kind_cons direct_quic _ addr candidates e,
        of_kind_cons direct _ addr candidates e,
        of_kind_cons relay _ addr candidates e,
      )
      refl

split_attempts_lem :
    (candidates : List Multiaddr)
    → split_attempts candidates
      ≡ (of_kind direct_quic candidates, of_kind direct candidates, of_kind relay candidates)
unfolding split_attempts retain
split_attempts_lem [] = refl
split_attempts_lem (addr ∷ candidates) =
    ap (add_attempt (classify_addr addr) (attempt_of addr)) (split_attempts_lem candidates)
    ∙ add_attempt_lem (classify_addr addr) addr candidates refl

-- The attempts on the candidates are ordered as this description says: one attempt on each, with
-- its kind, first the direct ones over QUIC, then the other direct ones and then the relayed ones,
-- or the relayed ones first where a relay is preferred, and the order of the candidates within a
-- kind.
pub ordered_attempts_lem :
    (candidates : List Multiaddr) (relay_preferred : Bool)
    → ordered_attempts candidates relay_preferred ≡ (
        if relay_preferred
        then of_kind relay candidates ++ of_kind direct_quic candidates ++ of_kind direct candidates
        else of_kind direct_quic candidates
          ++ of_kind direct candidates
          ++ of_kind relay candidates)
unfolding ordered_attempts
ordered_attempts_lem candidates relay_preferred = rw (split_attempts_lem candidates) refl
