-- ===== src/Prelude/Int.antt =====
-- Signed integers over the native numbers, under the library's names, with the checked and
-- saturating operations of `i64`.
use Prim.Native.Nat.{ℕ, suc, ◌+◌, ◌-◌, ◌≤◌, ◌<◌}
use mathlib.Core.Bool.{Bool}
use mathlib.Core.Option.{Option, none, some}
use dent.Prelude.Tests.{ltb, leb, if◌then◌else◌}

-- `negsuc n` is -(n + 1).
pub data ℤ : Type 0 where
  pos : ℕ → ℤ
  negsuc : ℕ → ℤ

abbrev pub pos_part : ℤ → ℕ
pos_part (pos n) = n
pos_part (negsuc n) = 0

abbrev pub neg_part : ℤ → ℕ
neg_part (pos n) = 0
neg_part (negsuc n) = suc n

abbrev pub sub_ℕ : ℕ → ℕ → ℤ
sub_ℕ a b = if leb b a then pos (a - b) else negsuc (b - a - 1)

infixl 65 ◌+ℤ◌ ◌-ℤ◌
infix 50 ◌≤ℤ◌ ◌<ℤ◌
abbrev pub ◌+ℤ◌ : ℤ → ℤ → ℤ
a +ℤ b = sub_ℕ (pos_part a + pos_part b) (neg_part a + neg_part b)

abbrev pub ◌-ℤ◌ : ℤ → ℤ → ℤ
a -ℤ b = sub_ℕ (pos_part a + neg_part b) (neg_part a + pos_part b)

abbrev pub ◌≤ℤ◌ : ℤ → ℤ → Type 0
a ≤ℤ b = pos_part a + neg_part b ≤ pos_part b + neg_part a

abbrev pub ◌<ℤ◌ : ℤ → ℤ → Type 0
a <ℤ b = pos_part a + neg_part b < pos_part b + neg_part a

abbrev pub leb_ℤ : ℤ → ℤ → Bool
leb_ℤ a b = leb (pos_part a + neg_part b) (pos_part b + neg_part a)

abbrev pub ltb_ℤ : ℤ → ℤ → Bool
ltb_ℤ a b = ltb (pos_part a + neg_part b) (pos_part b + neg_part a)

abbrev pub min_ℤ : ℤ → ℤ → ℤ
min_ℤ a b = if leb_ℤ a b then a else b

-- What an `i64` and a `u64` hold.
abbrev pub i64_max : ℕ
i64_max = 9223372036854775807

abbrev pub u64_max : ℕ
u64_max = 18446744073709551615

abbrev pub IsI64 : ℤ → Type 0
IsI64 (pos n) = n ≤ i64_max
IsI64 (negsuc n) = n ≤ i64_max

abbrev pub fits_i64 : ℤ → Bool
fits_i64 (pos n) = leb n i64_max
fits_i64 (negsuc n) = leb n i64_max

-- `i64::try_from` of a `u64`.
abbrev pub i64_try_from : ℕ → Option ℤ
i64_try_from n = if leb n i64_max then some (pos n) else none

-- `i64::checked_add`.
abbrev pub checked_add : ℤ → ℤ → Option ℤ
checked_add a b = let s = a +ℤ b in if fits_i64 s then some s else none

abbrev pub clamp_i64 : ℤ → ℤ
clamp_i64 (pos n) = if leb n i64_max then pos n else pos i64_max
clamp_i64 (negsuc n) = if leb n i64_max then negsuc n else negsuc i64_max

-- `i64::saturating_sub`.
abbrev pub saturating_sub : ℤ → ℤ → ℤ
saturating_sub a b = clamp_i64 (a -ℤ b)

-- `u64::try_from(d).unwrap_or(0)` of an `i64`.
abbrev pub u64_or_zero : ℤ → ℕ
u64_or_zero (pos n) = n
u64_or_zero (negsuc n) = 0
