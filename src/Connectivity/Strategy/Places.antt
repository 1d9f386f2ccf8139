-- ===== src/Connectivity/Strategy/Places.antt =====
-- Where an attempt stands in a plan, and what stands behind it (`track_remaining` of
-- crates/connectivity/connection_strategy.rs).
use p2p_net.Prelude.{
  ◌≤◌, ◌≡◌, ◌≢◌, refl, sym, ap, ◌∙◌, inl, inr, true, false, some, All, get_elem?, List, [], ◌∷◌,
  ◌++◌, arith, nat_beq, nat_beq_iff, Bool-cases, ◌==◌, ==_iff, ==_refl, nat_eq, list_eq, option_eq,
}
use p2p_net.Common.Multiaddr.{protocol_eq}
use p2p_net.Connectivity.Strategy.Plan.{AddrText, ConnectionAttempt, ConnectionAttemptKind}
use p2p_net.Connectivity.Strategy.Pending.{kind-read, kinds, kind_code, after_attempt, same_attempt}
use p2p_net.Connectivity.Strategy.Candidates.{tally, text_of}

-- Where an attempt stands first in a list.
pub record FirstPlace (a : ConnectionAttempt) (attempts : List ConnectionAttempt) : Type 0 where
  pub before : List ConnectionAttempt
  pub behind : List ConnectionAttempt
  pub split : attempts ≡ before ++ a ∷ behind
  pub first : All (λ b. b ≢ a) before

same_attempt_refl : (a : ConnectionAttempt) → same_attempt a a ≡ true
same_attempt_refl a = ground (arith, ==_refl a.addr)

kind_eq : (j k : ConnectionAttemptKind) → nat_beq (kind_code j) (kind_code k) ≡ true → j ≡ k
kind_eq j k h = some_injective (
    sym (kind-read j)
    ∙ ap (get_elem? kinds) ((nat_beq_iff (kind_code j) (kind_code k)).0 h)
    ∙ kind-read k)
  where
    some_injective : some j ≡ some k → j ≡ k
    some_injective e = cc

same_attempt_eq : (a b : ConnectionAttempt) → same_attempt b a ≡ true → b ≡ a
same_attempt_eq a b h =
    let e : b.addr ≡ a.addr = (==_iff b.addr a.addr).0 (ground arith) in
    let k : b.kind ≡ a.kind = kind_eq b.kind a.kind (ground arith) in
    ap (λ x. record { addr = x; kind = b.kind }) e ∙ ap (λ x. record { addr = a.addr; kind = x }) k

same_attempt_neq : (a b : ConnectionAttempt) → same_attempt b a ≡ false → b ≢ a
same_attempt_neq a b h e =
    absurd (ground (arith, h, sym (ap (λ c. same_attempt c a) e), same_attempt_refl a))

-- An attempt of a list has a first place there.
pub first_place :
    (a : ConnectionAttempt) (tried rest attempts : List ConnectionAttempt)
    → attempts ≡ tried ++ a ∷ rest
    → FirstPlace a attempts
first_place a [] rest attempts e = record { before = []; behind = rest; split = e; first = tt }
first_place a (b ∷ tried) rest attempts e = elim (Bool-cases (same_attempt b a)) [
  | inl same ↦ record {
    before = [];
    behind = tried ++ a ∷ rest;
    split = e ∙ ap (λ c. c ∷ tried ++ a ∷ rest) (same_attempt_eq a b same);
    first = tt;
  }
  | inr other ↦
      let p = first_place a tried rest (tried ++ a ∷ rest) refl in
      record {
        before = b ∷ p.before;
        behind = p.behind;
        split = e ∙ ap (◌∷◌ b) p.split;
        first = (same_attempt_neq a b other, p.first);
      }
]

-- What `after_attempt` finds is what stands behind that place.
pub after_attempt-behind :
    (a : ConnectionAttempt) (attempts : List ConnectionAttempt) (p : FirstPlace a attempts)
    → p.behind ≡ after_attempt a attempts
unfolding after_attempt
after_attempt-behind a attempts p = sym (ap (after_attempt a) p.split ∙ over p.before p.first)
  where
    over :
        (before : List ConnectionAttempt)
        → All (λ b. b ≢ a) before
        → after_attempt a (before ++ a ∷ p.behind) ≡ p.behind
    over [] f = rw (same_attempt_refl a) refl
    over (b ∷ before) f = elim (Bool-cases (same_attempt b a)) [
      | inl e ↦ absurd (f.0 (same_attempt_eq a b e))
      | inr e ↦ rw e (over before f.1)
    ]

-- Where no address is attempted twice, what follows an attempt is found by looking for it.
same_attempt-text :
    (x : AddrText) (a b : ConnectionAttempt)
    → same_attempt b a ≡ true
    → (text_of x b == text_of x a) ≡ true
same_attempt-text x a b h =
    let e : b.addr ≡ a.addr = (==_iff b.addr a.addr).0 (ground arith) in
    (==_iff (text_of x b) (text_of x a)).1 (ap x.print e)

tally-middle :
    (x : AddrText) (a : ConnectionAttempt) (tried rest : List ConnectionAttempt)
    → 1 ≤ tally (text_of x) (text_of x a) (tried ++ a ∷ rest)
unfolding tally
tally-middle x a [] rest = ground (arith, ==_refl (text_of x a))
tally-middle x a (b ∷ tried) rest = ground (arith, tally-middle x a tried rest)

pub after_attempt-split :
    (x : AddrText) (a : ConnectionAttempt) (tried rest : List ConnectionAttempt)
    → tally (text_of x) (text_of x a) (tried ++ a ∷ rest) ≤ 1
    → after_attempt a (tried ++ a ∷ rest) ≡ rest
unfolding after_attempt tally
after_attempt-split x a [] rest le = rw (same_attempt_refl a) refl
after_attempt-split x a (b ∷ tried) rest le = elim (Bool-cases (same_attempt b a)) [
  | inl e ↦ absurd (ground (arith, same_attempt-text x a b e, tally-middle x a tried rest))
  | inr e ↦ rw e (after_attempt-split x a tried rest (ground arith))
]
