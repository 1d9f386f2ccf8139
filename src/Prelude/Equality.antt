-- ===== src/Prelude/Equality.antt =====
-- Rust's `Eq` as an interface: a Boolean test that agrees with equality.
use Prim.Native.Nat.{ℕ}
use mathlib.Core.Path.{◌≡◌, refl, sym, ap, ◌∙◌}
use mathlib.Core.Logic.{◌↔◌}
use mathlib.Core.Bool.{Bool, true, false, ◌&&◌}
use mathlib.Core.Option.{Option, none, some}
use mathlib.Core.List.{List, [], ◌∷◌}
use native.Mathlib.Omega.{arith}
use p2p_net.Prelude.Tests.{nat_beq, nat_beq_iff}

pub record Eq {ℓ} (A : Type ℓ) : Type ℓ where
  pub test : A → A → Bool
  pub test_iff : (a b : A) → (test a b ≡ true) ↔ (a ≡ b)

infix 50 ◌==◌
abbrev pub ◌==◌ {ℓ} : {A : Type ℓ} ⦃eq : Eq A⦄ → A → A → Bool
◌==◌ ⦃eq⦄ = eq.test

pub ==_iff {ℓ} : {A : Type ℓ} ⦃e : Eq A⦄ (a b : A) → ((a == b) ≡ true) ↔ (a ≡ b)
==_iff ⦃e⦄ a b = e.test_iff a b

pub ==_refl {ℓ} : {A : Type ℓ} ⦃e : Eq A⦄ (a : A) → (a == a) ≡ true
==_refl ⦃e⦄ a = (e.test_iff a a).1 refl

instance abbrev pub nat_eq : Eq ℕ
nat_eq = record { test = nat_beq; test_iff = nat_beq_iff }

module _ {ℓ} {A : Type ℓ} ⦃e : Eq A⦄ where
  abbrev pub list_beq : List A → List A → Bool
  list_beq [] [] = true
  list_beq (x ∷ xs) (y ∷ ys) = e.test x y && list_beq xs ys
  list_beq _ _ = false

  pub list_beq_iff : (xs ys : List A) → (list_beq xs ys ≡ true) ↔ (xs ≡ ys)
  list_beq_iff [] [] = ground arith
  list_beq_iff (x ∷ xs) (y ∷ ys) = ground (arith, e.test_iff x y, list_beq_iff xs ys)
  list_beq_iff [] (y ∷ ys) = ground arith
  list_beq_iff (x ∷ xs) [] = ground arith

  instance abbrev pub list_eq : Eq (List A)
  list_eq = record { test = list_beq; test_iff = list_beq_iff }

  abbrev pub option_beq : Option A → Option A → Bool
  option_beq none none = true
  option_beq (some x) (some y) = e.test x y
  option_beq _ _ = false

  pub option_beq_iff : (a b : Option A) → (option_beq a b ≡ true) ↔ (a ≡ b)
  option_beq_iff none none = ground arith
  option_beq_iff (some x) (some y) = ground (arith, e.test_iff x y)
  option_beq_iff none (some y) = ground arith
  option_beq_iff (some x) none = ground arith

  instance abbrev pub option_eq : Eq (Option A)
  option_eq = record { test = option_beq; test_iff = option_beq_iff }

-- Equality of what a code tells apart: the code of a value reads back as the value.
module _ {ℓ κ} {A : Type ℓ} {C : Type κ} ⦃e : Eq C⦄ (code : A → C) (read : C → Option A)
    (reads : (a : A) → read (code a) ≡ some a) where
  code-injective : (a b : A) → code a ≡ code b → a ≡ b
  code-injective a b p = let q : some a ≡ some b = sym (reads a) ∙ ap read p ∙ reads b in cc

  pub code_test_iff : (a b : A) → (e.test (code a) (code b) ≡ true) ↔ (a ≡ b)
  code_test_iff a b = (
    λ h. code-injective a b ((e.test_iff (code a) (code b)).0 h),
    λ p. (e.test_iff (code a) (code b)).1 (ap code p),
  )

  abbrev pub code_eq : Eq A
  code_eq = record { test = λ a b. e.test (code a) (code b); test_iff = code_test_iff }
