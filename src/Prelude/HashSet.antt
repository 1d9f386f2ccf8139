-- ===== src/Prelude/HashSet.antt =====
-- `std::collections::HashSet` as the list of its members in the order of insertion, and
-- `retain` of a sequence.
use p2p_net.Prelude.Tests.{if◌then◌else◌}
use p2p_net.Prelude.Equality.{Eq, ◌==◌, ==_iff}
use p2p_net.Prelude.Assoc.{mem, Distinct}
use mathlib.Core.Path.{◌≡◌, refl}
use mathlib.Core.Bool.{Bool, true, false, not, ◌&&◌}
use mathlib.Core.List.{List, [], ◌∷◌, ◌++◌}
use native.Mathlib.Omega.{arith}

-- `Vec::retain`, `VecDeque::retain` and `Iterator::filter`.
unfoldable pub retain {ℓ} : {A : Type ℓ} → (A → Bool) → List A → List A
retain p [] = []
retain p (x ∷ xs) = if p x then x ∷ retain p xs else retain p xs

module _ {ℓ} {K : Type ℓ} ⦃e : Eq K⦄ where
  unfoldable pub set_insert : K → List K → List K
  set_insert k [] = k ∷ []
  set_insert k (x ∷ xs) = if k == x then x ∷ xs else x ∷ set_insert k xs

  unfoldable pub set_remove : K → List K → List K
  set_remove k [] = []
  set_remove k (x ∷ xs) = if k == x then xs else x ∷ set_remove k xs

  pub set_insert_new : (k : K) (xs : List K) → mem k xs ≡ false → set_insert k xs ≡ xs ++ k ∷ []
  unfolding set_insert mem
  set_insert_new k [] h = refl
  set_insert_new k (x ∷ xs) h = ground (arith, set_insert_new k xs)

  pub set_insert_known : (k : K) (xs : List K) → mem k xs ≡ true → set_insert k xs ≡ xs
  unfolding set_insert mem
  set_insert_known k [] h = ground arith
  set_insert_known k (x ∷ xs) h = ground (arith, set_insert_known k xs)

  pub set_remove_absent : (k : K) (xs : List K) → mem k xs ≡ false → set_remove k xs ≡ xs
  unfolding set_remove mem
  set_remove_absent k [] h = refl
  set_remove_absent k (x ∷ xs) h = ground (arith, set_remove_absent k xs)

  -- In a sequence without repetition, filtering a key out removes its one occurrence.
  pub retain-set_remove :
      (k : K) (xs : List K) → Distinct xs → retain (λ x. not (x == k)) xs ≡ set_remove k xs
  unfolding retain set_remove
  retain-set_remove k [] d = refl
  retain-set_remove k (x ∷ xs) d =
      ground
        (arith, ==_iff x k, ==_iff k x, retain-set_remove k xs d.1, set_remove_absent k xs, d.0)

  pub mem-set_remove :
      (k j : K) (xs : List K) → Distinct xs → mem j (set_remove k xs) ≡ not (k == j) && mem j xs
  unfolding set_remove mem
  mem-set_remove k j [] d = ground arith
  mem-set_remove k j (x ∷ xs) d =
      ground (arith, ==_iff k x, ==_iff j x, ==_iff k j, mem-set_remove k j xs d.1, d.0)

  pub mem-set_remove_absent :
      (k j : K) (xs : List K) → mem j xs ≡ false → mem j (set_remove k xs) ≡ false
  unfolding set_remove mem
  mem-set_remove_absent k j [] h = refl
  mem-set_remove_absent k j (x ∷ xs) h = ground (arith, mem-set_remove_absent k j xs)

  pub set_remove-Distinct : (k : K) (xs : List K) → Distinct xs → Distinct (set_remove k xs)
  unfolding set_remove
  set_remove-Distinct k [] d = tt
  set_remove-Distinct k (x ∷ xs) d =
      ground (arith, set_remove-Distinct k xs d.1, mem-set_remove_absent k x xs d.0)
