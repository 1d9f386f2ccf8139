-- ===== src/Prelude/OrderedSet.antt =====
-- `std::collections::BTreeSet` as the list of its elements in ascending order, for an order that is
-- an instance.
use Prim.Native.Nat.{ℕ, suc, ◌≤◌}
use mathlib.Core.Path.{◌≡◌, refl, sym, subst}
use mathlib.Core.Logic.{◌↔◌, inl, inr}
use mathlib.Core.Bool.{Bool, true, false, not, ◌&&◌, ◌||◌}
use mathlib.Core.List.{List, [], ◌∷◌}
use native.Mathlib.Omega.{arith}
use p2p_net.Prelude.Tests.{nat_beq, ltb, if◌then◌else◌, Bool-cases}
use p2p_net.Prelude.Lists.{length}
use p2p_net.Prelude.Equality.{Eq, ◌==◌, ==_iff, nat_eq}
use p2p_net.Prelude.Assoc.{mem, Distinct}

abbrev pub Pair : Type 0
Pair = ℕ × ℕ

abbrev pub pair_test : Pair → Pair → Bool
pair_test a b = nat_beq a.0 b.0 && nat_beq a.1 b.1

pub pair_test_iff : (a b : Pair) → (pair_test a b ≡ true) ↔ (a ≡ b)
pair_test_iff a b = ground arith

instance abbrev pub pair_eq : Eq Pair
pair_eq = record { test = pair_test; test_iff = pair_test_iff }

abbrev pub pair_lt : Pair → Pair → Bool
pair_lt a b = ltb a.0 b.0 || (nat_beq a.0 b.0 && ltb a.1 b.1)

-- `Ord`: the strict order by which the elements stand.
pub record Ord {ℓ} (K : Type ℓ) : Type ℓ where
  pub lt : K → K → Bool

instance abbrev pub nat_ord : Ord ℕ
nat_ord = record { lt = ltb }

instance abbrev pub pair_ord : Ord Pair
pair_ord = record { lt = pair_lt }

-- The order of lists of numbers by their first difference, which is the order of `str`.
abbrev pub list_lt : List ℕ → List ℕ → Bool
list_lt xs [] = false
list_lt [] (y ∷ ys) = true
list_lt (x ∷ xs) (y ∷ ys) = ltb x y || (nat_beq x y && list_lt xs ys)

instance abbrev pub text_ord : Ord (List ℕ)
text_ord = record { lt = list_lt }

module _ {ℓ} {K : Type ℓ} ⦃e : Eq K⦄ ⦃o : Ord K⦄ where
  -- A new element goes before the first that is greater.
  unfoldable pub place : K → List K → List K
  place x [] = x ∷ []
  place x (y ∷ ys) = if o.lt x y then x ∷ y ∷ ys else y ∷ place x ys

  -- `BTreeSet::insert` and `BTreeSet::remove`.
  unfoldable pub include : K → List K → List K
  include x ys = if mem x ys then ys else place x ys

  unfoldable pub discard : K → List K → List K
  discard x [] = []
  discard x (y ∷ ys) = if x == y then ys else y ∷ discard x ys

  mem-place : (x q : K) (ys : List K) → mem q (place x ys) ≡ q == x || mem q ys
  unfolding place mem
  mem-place x q [] = refl
  mem-place x q (y ∷ ys) = ground (arith, mem-place x q ys)

  place-Distinct : (x : K) (ys : List K) → Distinct ys → mem x ys ≡ false → Distinct (place x ys)
  unfolding place mem
  place-Distinct x [] d new = (refl, tt)
  place-Distinct x (y ∷ ys) d new =
      ground (arith, ==_iff x y, ==_iff y x, mem-place x y ys, place-Distinct x ys)

  length-place : (x : K) (ys : List K) → length (place x ys) ≡ suc (length ys)
  unfolding place
  length-place x [] = refl
  length-place x (y ∷ ys) = ground (arith, length-place x ys)

  pub length-include_le : (x : K) (ys : List K) → length (include x ys) ≤ suc (length ys)
  unfolding include
  length-include_le x ys = ground (arith, length-place x ys)

  pub mem-include : (x q : K) (ys : List K) → mem q (include x ys) ≡ q == x || mem q ys
  unfolding include
  mem-include x q ys = elim (Bool-cases (mem x ys)) [
    | inl e ↦ rw e (ground (arith, ==_iff q x, member q x ys e))
    | inr e ↦ rw e (mem-place x q ys)
  ]
    where
      member : (q x : K) (ys : List K) → mem x ys ≡ true → (q == x) ≡ true → mem q ys ≡ true
      member q x ys e h = subst (λ z. mem z ys ≡ true) (sym ((==_iff q x).0 h)) e

  pub include-Distinct : (x : K) (ys : List K) → Distinct ys → Distinct (include x ys)
  unfolding include
  include-Distinct x ys d = elim (Bool-cases (mem x ys)) [
    | inl e ↦ rw e d
    | inr e ↦ rw e (place-Distinct x ys d e)
  ]

  pub mem-discard :
      (x q : K) (ys : List K) → Distinct ys → mem q (discard x ys) ≡ not (q == x) && mem q ys
  unfolding discard mem
  mem-discard x q [] d = ground arith
  mem-discard x q (y ∷ ys) d =
      ground (arith, ==_iff x y, ==_iff q x, ==_iff q y, mem-discard x q ys d.1, d.0)

  pub discard-Distinct : (x : K) (ys : List K) → Distinct ys → Distinct (discard x ys)
  unfolding discard mem
  discard-Distinct x [] d = tt
  discard-Distinct x (y ∷ ys) d = ground (arith, mem-discard x y ys, discard-Distinct x ys)
