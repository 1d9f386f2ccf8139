-- ===== src/Prelude/Occurs.antt =====
-- How often a value stands in an association list.
use p2p_net.Prelude.Tests.{if◌then◌else◌}
use p2p_net.Prelude.Equality.{Eq, ◌==◌}
use p2p_net.Prelude.Lists.{length}
use p2p_net.Prelude.Assoc.{lookup, insert, remove, mem, keys, insert_new}
use Prim.Native.Nat.{ℕ, ◌+◌, ◌≤◌}
use mathlib.Core.Path.{◌≡◌}
use mathlib.Core.Bool.{false}
use mathlib.Core.Option.{some}
use mathlib.Core.List.{List, [], ◌∷◌, ◌++◌}
use native.Mathlib.Omega.{arith}

module _ {ℓ κ} {K : Type ℓ} {V : Type κ} ⦃e : Eq V⦄ where
  unfoldable pub occurs : V → List (K × V) → ℕ
  occurs v [] = 0
  occurs v ((k, w) ∷ m) = (if w == v then 1 else 0) + occurs v m

  pub occurs-append : (v : V) (m n : List (K × V)) → occurs v (m ++ n) ≡ occurs v m + occurs v n
  unfolding occurs
  occurs-append v [] n = omega arith
  occurs-append v ((k, w) ∷ m) n = omega (arith, occurs-append v m n)

  pub occurs-le : (v : V) (m : List (K × V)) → occurs v m ≤ length m
  unfolding occurs
  occurs-le v [] = omega arith
  occurs-le v ((k, w) ∷ m) = ground (arith, occurs-le v m)

module _ {ℓ κ} {K : Type ℓ} ⦃d : Eq K⦄ {V : Type κ} ⦃e : Eq V⦄ where
  pub occurs-insert :
      (k : K) (w v : V) (m : List (K × V))
      → mem k (keys m) ≡ false
      → occurs v (insert k w m) ≡ occurs v m + (if w == v then 1 else 0)
  unfolding occurs
  occurs-insert k w v m h = ground (arith, insert_new k w m h, occurs-append v m ((k, w) ∷ []))

  pub occurs-remove :
      (k : K) (w v : V) (m : List (K × V))
      → lookup k m ≡ some w
      → occurs v (remove k m) + (if w == v then 1 else 0) ≡ occurs v m
  unfolding occurs lookup remove
  occurs-remove k w v [] h = cc
  occurs-remove k w v ((j, u) ∷ m) h = ground (arith, occurs-remove k w v m)
