-- ===== src/Prelude/Weigh.antt =====
-- Sums over the entries of an association list.
use p2p_net.Prelude.Equality.{Eq, ==_iff}
use p2p_net.Prelude.Assoc.{lookup, insert, remove}
use Prim.Native.Nat.{ℕ, ◌+◌}
use mathlib.Core.Path.{◌≡◌}
use mathlib.Core.Option.{Option, none, some}
use mathlib.Core.List.{List, [], ◌∷◌}
use native.Mathlib.Omega.{arith}

module _ {ℓ κ} {K : Type ℓ} {V : Type κ} (w : K → V → ℕ) where
  unfoldable pub weigh : List (K × V) → ℕ
  weigh [] = 0
  weigh ((k, v) ∷ m) = w k v + weigh m

  abbrev pub weight_of : K → Option V → ℕ
  weight_of k none = 0
  weight_of k (some v) = w k v

module _ {ℓ κ} {K : Type ℓ} ⦃e : Eq K⦄ {V : Type κ} (w : K → V → ℕ) where
  pub weigh-insert :
      (k : K) (v : V) (m : List (K × V))
      → weigh w (insert k v m) + weight_of w k (lookup k m) ≡ weigh w m + w k v
  unfolding weigh insert lookup
  weigh-insert k v [] = omega arith
  weigh-insert k v ((j, u) ∷ m) = ground (arith, ==_iff j k, weigh-insert k v m)

  pub weigh-remove :
      (k : K) (m : List (K × V)) → weigh w (remove k m) + weight_of w k (lookup k m) ≡ weigh w m
  unfolding weigh remove lookup
  weigh-remove k [] = omega arith
  weigh-remove k ((j, u) ∷ m) = ground (arith, ==_iff j k, weigh-remove k m)
