-- ===== src/Base/Int.antt =====
-- Signed integers over the native numbers, and Go's fixed widths: `int32` and `int64` (also `int`).
use Prim.Native.Nat.{ℕ, suc, ◌+◌, ◌-◌, ◌*◌, ◌%◌, ◌^◌, ◌≤◌, ◌<◌}
use mathlib.Core.Path.{◌≡◌}
use mathlib.Core.Logic.{◌↔◌}
use mathlib.Core.Bool.{Bool, true}
use native.Mathlib.Omega.{arith}
use capten_autoscaler.Base.Tests.{ltb, leb, nat_eq, if◌then◌else◌, Eq}

-- `negsuc n` is -(n + 1).
pub data ℤ : Type 0 where
  pos : ℕ → ℤ
  negsuc : ℕ → ℤ

abbrev pub pos_part : ℤ → ℕ
pos_part (pos n) = n
pos_part (negsuc n) = 0

abbrev pub neg_part : ℤ → ℕ
neg_part (pos n) = 0
neg_part (negsuc n) = suc n

-- a - b, as an integer.
abbrev pub sub_ℕ : ℕ → ℕ → ℤ
sub_ℕ a b = if leb b a then pos (a - b) else negsuc (b - a - 1)

infixl 65 ◌+ℤ◌ ◌-ℤ◌
infix 50 ◌≤ℤ◌ ◌<ℤ◌
unfoldable pub ◌+ℤ◌ : ℤ → ℤ → ℤ
a +ℤ b = sub_ℕ (pos_part a + pos_part b) (neg_part a + neg_part b)

unfoldable pub ◌-ℤ◌ : ℤ → ℤ → ℤ
a -ℤ b = sub_ℕ (pos_part a + neg_part b) (neg_part a + pos_part b)

abbrev pub ◌≤ℤ◌ : ℤ → ℤ → Type 0
a ≤ℤ b = pos_part a + neg_part b ≤ pos_part b + neg_part a

abbrev pub ◌<ℤ◌ : ℤ → ℤ → Type 0
a <ℤ b = pos_part a + neg_part b < pos_part b + neg_part a

abbrev pub ltb_ℤ : ℤ → ℤ → Bool
ltb_ℤ a b = ltb (pos_part a + neg_part b) (pos_part b + neg_part a)

abbrev pub leb_ℤ : ℤ → ℤ → Bool
leb_ℤ a b = leb (pos_part a + neg_part b) (pos_part b + neg_part a)

abbrev pub int_eq : ℤ → ℤ → Bool
int_eq a b = nat_eq (pos_part a + neg_part b) (pos_part b + neg_part a)

pub int_eq_iff : (a b : ℤ) → (int_eq a b ≡ true) ↔ (a ≡ b)
int_eq_iff a b = ground arith

instance abbrev pub int_Eq : Eq ℤ
int_Eq = record { equals = int_eq; equals_iff = int_eq_iff }

abbrev pub min_ℤ : ℤ → ℤ → ℤ
min_ℤ a b = if ltb_ℤ b a then b else a

abbrev pub max_ℤ : ℤ → ℤ → ℤ
max_ℤ a b = if ltb_ℤ a b then b else a

pub +ℤ_parts :
    (a b : ℤ)
    → pos_part (a +ℤ b) + neg_part a + neg_part b ≡ neg_part (a +ℤ b) + pos_part a + pos_part b
unfolding ◌+ℤ◌
+ℤ_parts a b = ground arith

pub -ℤ_parts :
    (a b : ℤ)
    → pos_part (a -ℤ b) + neg_part a + pos_part b ≡ neg_part (a -ℤ b) + pos_part a + neg_part b
unfolding ◌-ℤ◌
-ℤ_parts a b = ground arith

pub eq_of_parts : (a b : ℤ) → pos_part a + neg_part b ≡ pos_part b + neg_part a → a ≡ b
eq_of_parts a b h = ground arith

pub ruleset int_laws = (arith, +ℤ_parts, -ℤ_parts, eq_of_parts)

-- The bit pattern of an integer in a word of `2 * half` values, read as two's complement.
abbrev signed : ℕ → ℕ → ℤ
signed half u = if ltb u half then pos u else negsuc (2 * half - 1 - u)

unfoldable pub int64 : ℤ → ℤ
int64 (pos n) = signed (2 ^ 63) (n % 2 ^ 64)
int64 (negsuc n) = signed (2 ^ 63) (2 ^ 64 - 1 - n % 2 ^ 64)

unfoldable pub int32 : ℤ → ℤ
int32 (pos n) = signed (2 ^ 31) (n % 2 ^ 32)
int32 (negsuc n) = signed (2 ^ 31) (2 ^ 32 - 1 - n % 2 ^ 32)

abbrev pub FitsInt64 : ℤ → Type 0
FitsInt64 a = (pos_part a < 2 ^ 63) × (neg_part a ≤ 2 ^ 63)

abbrev pub FitsInt32 : ℤ → Type 0
FitsInt32 a = (pos_part a < 2 ^ 31) × (neg_part a ≤ 2 ^ 31)

pub int64_exact : (a : ℤ) → FitsInt64 a → int64 a ≡ a
unfolding int64
int64_exact (pos n) h = ground arith
int64_exact (negsuc n) h = ground arith

pub int32_exact : (a : ℤ) → FitsInt32 a → int32 a ≡ a
unfolding int32
int32_exact (pos n) h = ground arith
int32_exact (negsuc n) h = ground arith

pub int64-FitsInt64 : (a : ℤ) → FitsInt64 (int64 a)
unfolding int64
int64-FitsInt64 (pos n) = ground arith
int64-FitsInt64 (negsuc n) = ground arith

pub int32-FitsInt32 : (a : ℤ) → FitsInt32 (int32 a)
unfolding int32
int32-FitsInt32 (pos n) = ground arith
int32-FitsInt32 (negsuc n) = ground arith
