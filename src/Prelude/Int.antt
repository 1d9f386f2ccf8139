-- ===== src/Prelude/Int.antt =====
-- Signed integers over the native numbers, under the library's names (its ℤ stands on the unary ℕ).
-- Sums and orders go through the two parts of an integer, which are numbers that `omega` reads.
use Prim.Native.Nat.{ℕ, suc, ◌+◌, ◌-◌, ◌≤◌}
use mathlib.Core.Path.{◌≡◌}
use mathlib.Core.Bool.{Bool, true, false}
use mathlib.Core.Logic.{◌↔◌}
use p2p_net.Prelude.Equality.{Eq}
use native.Mathlib.Omega.{arith}
use p2p_net.Prelude.Tests.{ltb, leb, nat_beq, if◌then◌else◌}

-- `negsuc n` is -(n + 1).
pub data ℤ : Type 0 where
  pos : ℕ → ℤ
  negsuc : ℕ → ℤ

abbrev pub pos_part : ℤ → ℕ
pos_part (pos n) = n
pos_part (negsuc n) = 0

abbrev pub neg_part : ℤ → ℕ
neg_part (pos n) = 0
neg_part (negsuc n) = suc n

-- a - b, as an integer.
abbrev pub sub_ℕ : ℕ → ℕ → ℤ
sub_ℕ a b = if leb b a then pos (a - b) else negsuc (b - a - 1)

infixl 65 ◌+ℤ◌ ◌-ℤ◌
infix 50 ◌≤ℤ◌
unfoldable pub ◌+ℤ◌ : ℤ → ℤ → ℤ
a +ℤ b = sub_ℕ (pos_part a + pos_part b) (neg_part a + neg_part b)

unfoldable pub ◌-ℤ◌ : ℤ → ℤ → ℤ
a -ℤ b = sub_ℕ (pos_part a + neg_part b) (neg_part a + pos_part b)

abbrev pub ◌≤ℤ◌ : ℤ → ℤ → Type 0
a ≤ℤ b = pos_part a + neg_part b ≤ pos_part b + neg_part a

abbrev pub ltb_ℤ : ℤ → ℤ → Bool
ltb_ℤ a b = ltb (pos_part a + neg_part b) (pos_part b + neg_part a)

-- One lemma for each operation lets `omega` work with the operations shut, at any depth.
pub +ℤ_parts :
    (a b : ℤ)
    → pos_part (a +ℤ b) + neg_part a + neg_part b ≡ neg_part (a +ℤ b) + pos_part a + pos_part b
unfolding ◌+ℤ◌
+ℤ_parts a b = ground arith

pub -ℤ_parts :
    (a b : ℤ)
    → pos_part (a -ℤ b) + neg_part a + pos_part b ≡ neg_part (a -ℤ b) + pos_part a + neg_part b
unfolding ◌-ℤ◌
-ℤ_parts a b = ground arith

pub eq_of_parts : (a b : ℤ) → pos_part a + neg_part b ≡ pos_part b + neg_part a → a ≡ b
eq_of_parts a b h = ground arith

pub ruleset int_laws = (arith, +ℤ_parts, -ℤ_parts, eq_of_parts)

abbrev pub min_ℤ : ℤ → ℤ → ℤ
min_ℤ a b = if ltb_ℤ b a then b else a

abbrev pub max_ℤ : ℤ → ℤ → ℤ
max_ℤ a b = if ltb_ℤ a b then b else a

-- `i32::MIN` and `i32::MAX`, and the addition and subtraction that saturate there.
abbrev pub i32_min : ℤ
i32_min = negsuc 2_147_483_647

abbrev pub i32_max : ℤ
i32_max = pos 2_147_483_647

abbrev pub clamp_i32 : ℤ → ℤ
clamp_i32 a = max_ℤ i32_min (min_ℤ i32_max a)

unfoldable pub saturating_add_i32 : ℤ → ℤ → ℤ
unfolding ◌+ℤ◌
saturating_add_i32 a b = clamp_i32 (a +ℤ b)

unfoldable pub saturating_sub_i32 : ℤ → ℤ → ℤ
unfolding ◌-ℤ◌
saturating_sub_i32 a b = clamp_i32 (a -ℤ b)

abbrev pub int_test : ℤ → ℤ → Bool
int_test (pos a) (pos b) = nat_beq a b
int_test (negsuc a) (negsuc b) = nat_beq a b
int_test _ _ = false

pub int_test_iff : (a b : ℤ) → (int_test a b ≡ true) ↔ (a ≡ b)
int_test_iff (pos a) (pos b) = ground arith
int_test_iff (negsuc a) (negsuc b) = ground arith
int_test_iff (pos a) (negsuc b) = ground arith
int_test_iff (negsuc a) (pos b) = ground arith

instance abbrev pub int_eq : Eq ℤ
int_eq = record { test = int_test; test_iff = int_test_iff }
