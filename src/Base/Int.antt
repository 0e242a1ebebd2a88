-- ===== src/Base/Int.antt =====
-- Go's int64 as an integer: `ℤ` is the exact integer, and `int64` wraps it to 64 bits.
-- Sums and orders go through the two parts of an integer, which are numbers that `omega` reads.
use Prim.Native.Nat.{ℕ, suc, ◌+◌, ◌-◌, ◌%◌, ◌^◌, ◌≤◌, ◌<◌}
use mathlib.Core.Path.{◌≡◌, refl}
use mathlib.Core.Logic.{◌⊎◌, inl, inr}
use mathlib.Core.Bool.{Bool}
use native.Mathlib.Omega.{arith}
use rm_vms.Base.Tests.{leb, ltb, ◌==◌, if◌then◌else◌}

-- `negsuc n` is -(n + 1).
pub data ℤ : Type 0 where
  pos : ℕ → ℤ
  negsuc : ℕ → ℤ

abbrev pub pos_part : ℤ → ℕ
pos_part (pos n) = n
pos_part (negsuc n) = 0

abbrev pub neg_part : ℤ → ℕ
neg_part (pos n) = 0
neg_part (negsuc n) = suc n

-- a - b, as an integer.
abbrev pub sub_ℕ : ℕ → ℕ → ℤ
sub_ℕ a b = if leb b a then pos (a - b) else negsuc (b - a - 1)

infixl 65 ◌+ℤ◌ ◌-ℤ◌
infix 50 ◌≤ℤ◌ ◌<ℤ◌
unfoldable pub ◌+ℤ◌ : ℤ → ℤ → ℤ
a +ℤ b = sub_ℕ (pos_part a + pos_part b) (neg_part a + neg_part b)

unfoldable pub ◌-ℤ◌ : ℤ → ℤ → ℤ
a -ℤ b = sub_ℕ (pos_part a + neg_part b) (neg_part a + pos_part b)

abbrev pub ◌≤ℤ◌ : ℤ → ℤ → Type 0
a ≤ℤ b = pos_part a + neg_part b ≤ pos_part b + neg_part a

abbrev pub ◌<ℤ◌ : ℤ → ℤ → Type 0
a <ℤ b = pos_part a + neg_part b < pos_part b + neg_part a

abbrev pub ltb_ℤ : ℤ → ℤ → Bool
ltb_ℤ a b = ltb (pos_part a + neg_part b) (pos_part b + neg_part a)

abbrev pub leb_ℤ : ℤ → ℤ → Bool
leb_ℤ a b = leb (pos_part a + neg_part b) (pos_part b + neg_part a)

abbrev pub eqb_ℤ : ℤ → ℤ → Bool
eqb_ℤ a b = (pos_part a + neg_part b) == (pos_part b + neg_part a)

pub eq_of_parts : (a b : ℤ) → pos_part a + neg_part b ≡ pos_part b + neg_part a → a ≡ b
eq_of_parts a b h = ground arith

pub +ℤ_parts :
    (a b : ℤ)
    → pos_part (a +ℤ b) + neg_part a + neg_part b ≡ neg_part (a +ℤ b) + pos_part a + pos_part b
unfolding ◌+ℤ◌
+ℤ_parts a b = ground arith

pub -ℤ_parts :
    (a b : ℤ)
    → pos_part (a -ℤ b) + neg_part a + pos_part b ≡ neg_part (a -ℤ b) + pos_part a + neg_part b
unfolding ◌-ℤ◌
-ℤ_parts a b = ground arith

-- One of the two parts is 0.
pub parts_apart : (a : ℤ) → (pos_part a ≡ 0) ⊎ (neg_part a ≡ 0)
parts_apart (pos n) = inr refl
parts_apart (negsuc n) = inl refl

-- The two's complement value of an exact integer, in 64 bits.
unfoldable pub int64 : ℤ → ℤ
int64 (pos n) = let r = n % 2 ^ 64 in if ltb r (2 ^ 63) then pos r else negsuc (2 ^ 64 - 1 - r)
int64 (negsuc n) = let r = n % 2 ^ 64 in if ltb r (2 ^ 63) then negsuc r else pos (2 ^ 64 - 1 - r)

abbrev pub IsInt64 : ℤ → Type 0
IsInt64 a = (pos_part a < 2 ^ 63) × (neg_part a ≤ 2 ^ 63)

pub int64-IsInt64 : (a : ℤ) → IsInt64 (int64 a)
unfolding int64
int64-IsInt64 (pos n) = ground arith
int64-IsInt64 (negsuc n) = ground arith

pub int64_id : (a : ℤ) → IsInt64 a → int64 a ≡ a
unfolding int64
int64_id (pos n) h = ground arith
int64_id (negsuc n) h = ground arith

-- Go's `a + b` and `a - b` on int64.
unfoldable pub add64 : ℤ → ℤ → ℤ
add64 a b = int64 (a +ℤ b)

unfoldable pub sub64 : ℤ → ℤ → ℤ
sub64 a b = int64 (a -ℤ b)

-- Wrapping early does not change a sum.
pub int64-add : (a b : ℤ) → int64 (int64 a +ℤ b) ≡ int64 (a +ℤ b)
unfolding int64 ◌+ℤ◌
int64-add (pos m) (pos n) = ground arith
int64-add (pos m) (negsuc n) = ground arith
int64-add (negsuc m) (pos n) = ground arith
int64-add (negsuc m) (negsuc n) = ground arith

pub int64-sub : (a b : ℤ) → int64 (int64 a -ℤ b) ≡ int64 (a -ℤ b)
unfolding int64 ◌-ℤ◌
int64-sub (pos m) (pos n) = ground arith
int64-sub (pos m) (negsuc n) = ground arith
int64-sub (negsuc m) (pos n) = ground arith
int64-sub (negsuc m) (negsuc n) = ground arith

-- The absolute value is below 2 ^ k.
abbrev pub Within : ℕ → ℤ → Type 0
Within k a = (pos_part a < 2 ^ k) × (neg_part a < 2 ^ k)

pub add64_exact : (a b : ℤ) → Within 62 a → Within 62 b → add64 a b ≡ a +ℤ b
unfolding add64 ◌+ℤ◌
add64_exact a b h k = int64_id _ (ground arith)

pub sub64_exact : (a b : ℤ) → Within 62 a → Within 62 b → sub64 a b ≡ a -ℤ b
unfolding sub64 ◌-ℤ◌
sub64_exact a b h k = int64_id _ (ground arith)

pub ruleset int_laws = (arith, +ℤ_parts, -ℤ_parts, eq_of_parts)
