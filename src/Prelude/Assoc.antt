-- ===== src/Prelude/Assoc.antt =====
-- `std::collections::HashMap` as an association list with distinct keys, in the order of
-- insertion: `insert` replaces the value of a key in place or adds the pair at the end.
use p2p_net.Prelude.Tests.{if◌then◌else◌, Bool-cases}
use p2p_net.Prelude.Equality.{Eq, ◌==◌, ==_iff, ==_refl}
use p2p_net.Prelude.Lists.{length, All}
use mathlib.Core.Logic.{inl, inr}
use Prim.Native.Nat.{suc, ◌≤◌}
use mathlib.Core.Path.{◌≡◌, refl, ap, subst}
use mathlib.Core.Bool.{Bool, true, false, ◌||◌}
use mathlib.Core.Option.{Option, none, some}
use mathlib.Core.List.{List, [], ◌∷◌, ◌++◌}
use native.Mathlib.Omega.{arith}

-- The test `Option::is_some`.
abbrev pub is_some {ℓ} : {A : Type ℓ} → Option A → Bool
is_some none = false
is_some (some a) = true

module _ {ℓ} {K : Type ℓ} ⦃e : Eq K⦄ where
  -- Membership, `contains` of a sequence or set of keys.
  unfoldable pub mem : K → List K → Bool
  mem k [] = false
  mem k (x ∷ xs) = k == x || mem k xs

  -- No key stands twice.
  abbrev pub Distinct : List K → Type 0
  Distinct [] = Unit
  Distinct (k ∷ ks) = (mem k ks ≡ false) × Distinct ks

  pub mem-append : (k : K) (xs ys : List K) → mem k (xs ++ ys) ≡ mem k xs || mem k ys
  unfolding mem
  mem-append k [] ys = refl
  mem-append k (x ∷ xs) ys = ground (arith, mem-append k xs ys)

  pub Distinct-snoc :
      (xs : List K) (k : K) → Distinct xs → mem k xs ≡ false → Distinct (xs ++ k ∷ [])
  unfolding mem
  Distinct-snoc [] k d h = (refl, tt)
  Distinct-snoc (x ∷ xs) k d h = (
    ground (arith, mem-append x xs (k ∷ []), ==_iff x k, ==_iff k x, d.0),
    Distinct-snoc xs k d.1 (ground arith),
  )

module _ {ℓ κ} {K : Type ℓ} {V : Type κ} where
  abbrev pub keys : List (K × V) → List K
  keys [] = []
  keys ((k, v) ∷ m) = k ∷ keys m

  pub length-keys : (m : List (K × V)) → length (keys m) ≡ length m
  length-keys [] = refl
  length-keys ((k, v) ∷ m) = ap suc (length-keys m)

  pub keys-append : (m n : List (K × V)) → keys (m ++ n) ≡ keys m ++ keys n
  keys-append [] n = refl
  keys-append ((k, v) ∷ m) n = ap (◌∷◌ k) (keys-append m n)

module _ {ℓ κ} {K : Type ℓ} ⦃e : Eq K⦄ {V : Type κ} where
  unfoldable pub lookup : K → List (K × V) → Option V
  lookup key [] = none
  lookup key ((other, value) ∷ rest) = if other == key then some value else lookup key rest

  unfoldable pub insert : K → V → List (K × V) → List (K × V)
  insert key value [] = (key, value) ∷ []
  insert key value ((other, old) ∷ rest) =
      if other == key then (other, value) ∷ rest else (other, old) ∷ insert key value rest

  unfoldable pub remove : K → List (K × V) → List (K × V)
  remove k [] = []
  remove k ((j, v) ∷ m) = if j == k then m else (j, v) ∷ remove k m

  abbrev pub contains_key : K → List (K × V) → Bool
  contains_key k m = is_some (lookup k m)

  pub contains_key-mem : (k : K) (m : List (K × V)) → contains_key k m ≡ mem k (keys m)
  unfolding lookup mem
  contains_key-mem k [] = refl
  contains_key-mem k ((j, v) ∷ m) = ground (arith, ==_iff j k, ==_iff k j, contains_key-mem k m)

  pub lookup-insert :
      (k q : K) (v : V) (table : List (K × V))
      → lookup q (insert k v table) ≡ (if k == q then some v else lookup q table)
  unfolding lookup insert
  lookup-insert k q v [] = refl
  lookup-insert k q v ((i, w) ∷ table) =
      ground (arith, ==_iff k q, ==_iff i k, ==_iff i q, lookup-insert k q v table)

  pub lookup-insert_same :
      (k : K) (v : V) (table : List (K × V)) → lookup k (insert k v table) ≡ some v
  lookup-insert_same k v table = ground (arith, lookup-insert k k v table, ==_refl k)

  -- The key list grows at its end, if at all.
  pub keys-insert :
      (k : K) (v : V) (m : List (K × V))
      → keys (insert k v m) ≡ (if mem k (keys m) then keys m else keys m ++ k ∷ [])
  unfolding insert mem
  keys-insert k v [] = refl
  keys-insert k v ((j, w) ∷ m) = ground (arith, ==_iff j k, ==_iff k j, keys-insert k v m)

  pub insert_new :
      (k : K) (v : V) (m : List (K × V)) → mem k (keys m) ≡ false → insert k v m ≡ m ++ (k, v) ∷ []
  unfolding insert mem
  insert_new k v [] h = refl
  insert_new k v ((j, w) ∷ m) h = ground (arith, ==_iff j k, ==_iff k j, insert_new k v m)

  pub lookup_absent : (k : K) (m : List (K × V)) → mem k (keys m) ≡ false → lookup k m ≡ none
  unfolding lookup mem
  lookup_absent k [] h = refl
  lookup_absent k ((j, w) ∷ m) h = ground (arith, ==_iff j k, ==_iff k j, lookup_absent k m)

  pub remove_absent : (k : K) (m : List (K × V)) → mem k (keys m) ≡ false → remove k m ≡ m
  unfolding remove mem
  remove_absent k [] h = refl
  remove_absent k ((j, w) ∷ m) h = ground (arith, ==_iff j k, ==_iff k j, remove_absent k m)

  pub lookup-remove :
      (k j : K) (m : List (K × V))
      → Distinct (keys m)
      → lookup j (remove k m) ≡ (if k == j then none else lookup j m)
  unfolding lookup remove
  lookup-remove k j [] d = ground arith
  lookup-remove k j ((i, w) ∷ m) d =
      ground (arith, ==_iff k j, ==_iff i k, ==_iff i j, lookup-remove k j m, lookup_absent j m)

  pub mem-keys-remove :
      (k j : K) (m : List (K × V)) → mem j (keys m) ≡ false → mem j (keys (remove k m)) ≡ false
  unfolding remove mem
  mem-keys-remove k j [] h = refl
  mem-keys-remove k j ((i, w) ∷ m) h = ground (arith, mem-keys-remove k j m)

  pub insert-Distinct :
      (k : K) (v : V) (m : List (K × V)) → Distinct (keys m) → Distinct (keys (insert k v m))
  insert-Distinct k v m d = rw (keys-insert k v m) (ground (arith, Distinct-snoc (keys m) k d))

  pub remove-Distinct :
      (k : K) (m : List (K × V)) → Distinct (keys m) → Distinct (keys (remove k m))
  unfolding remove
  remove-Distinct k [] d = tt
  remove-Distinct k ((j, v) ∷ m) d =
      ground (arith, remove-Distinct k m d.1, mem-keys-remove k j m d.0)

  pub length-remove_le : (k : K) (m : List (K × V)) → length (remove k m) ≤ length m
  unfolding remove
  length-remove_le k [] = omega arith
  length-remove_le k ((j, v) ∷ m) = ground (arith, length-remove_le k m)

  pub length-insert_known :
      (k : K) (v old : V) (m : List (K × V))
      → lookup k m ≡ some old
      → length (insert k v m) ≡ length m
  unfolding insert lookup
  length-insert_known k v old [] h = cc
  length-insert_known k v old ((j, w) ∷ m) h = ground (arith, length-insert_known k v old m)

-- A property of every value of a table.
module _ {ℓ κ μ} {K : Type ℓ} ⦃e : Eq K⦄ {V : Type κ} (P : V → Type μ) where
  abbrev pub Values : List (K × V) → Type μ
  Values m = All (λ q. P q.1) m

  pub insert-Values : (k : K) (v : V) (m : List (K × V)) → P v → Values m → Values (insert k v m)
  unfolding insert
  insert-Values k v [] p q = (p, tt)
  insert-Values k v ((j, w) ∷ m) p q = elim (Bool-cases (j == k)) [
    | inl same ↦ rw same (p, q.1)
    | inr other ↦ rw other (q.0, insert-Values k v m p q.1)
  ]

  pub remove-Values : (k : K) (m : List (K × V)) → Values m → Values (remove k m)
  unfolding remove
  remove-Values k [] q = tt
  remove-Values k ((j, w) ∷ m) q = elim (Bool-cases (j == k)) [
    | inl same ↦ rw same q.1
    | inr other ↦ rw other (q.0, remove-Values k m q.1)
  ]

  pub lookup-Values : (k : K) (v : V) (m : List (K × V)) → lookup k m ≡ some v → Values m → P v
  unfolding lookup
  lookup-Values k v [] h q = cc
  lookup-Values k v ((j, w) ∷ m) h q = elim (Bool-cases (j == k)) [
    | inl same ↦ let here : w ≡ v = ground (arith, h, same) in subst P here q.0
    | inr other ↦ lookup-Values k v m (ground (arith, h, other)) q.1
  ]
