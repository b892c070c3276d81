-- ===== src/Base/Int.antt =====
-- Signed 64-bit integers: an integer is `pos n` or `negsuc n`, which stands for -(n + 1).
use Prim.Native.Nat.{ℕ, suc, ◌+◌, ◌-◌, ◌^◌, ◌≤◌, ◌<◌}
use mathlib.Core.Path.{◌≡◌}
use mathlib.Core.Logic.{◌↔◌, ◌≢◌}
use mathlib.Core.Bool.{Bool, true, false}
use native.Mathlib.Omega.{arith}
use artillery.Base.Tests.{ltb, leb, ◌==◌, if◌then◌else◌}

pub data ℤ : Type 0 where
  pos : ℕ → ℤ
  negsuc : ℕ → ℤ

abbrev pub pos_part : ℤ → ℕ
pos_part (pos n) = n
pos_part (negsuc n) = 0

abbrev pub neg_part : ℤ → ℕ
neg_part (pos n) = 0
neg_part (negsuc n) = suc n

abbrev pub ltb_ℤ : ℤ → ℤ → Bool
ltb_ℤ a b = ltb (pos_part a + neg_part b) (pos_part b + neg_part a)

abbrev pub leb_ℤ : ℤ → ℤ → Bool
leb_ℤ a b = leb (pos_part a + neg_part b) (pos_part b + neg_part a)

abbrev pub eqb_ℤ : ℤ → ℤ → Bool
eqb_ℤ a b = pos_part a + neg_part b == pos_part b + neg_part a

abbrev pub ◌≤ℤ◌ : ℤ → ℤ → Type 0
a ≤ℤ b = pos_part a + neg_part b ≤ pos_part b + neg_part a

abbrev pub ◌<ℤ◌ : ℤ → ℤ → Type 0
a <ℤ b = pos_part a + neg_part b < pos_part b + neg_part a

infix 50 ◌≤ℤ◌ ◌<ℤ◌
pub eqb_ℤ_iff : (a b : ℤ) → (eqb_ℤ a b ≡ true) ↔ (a ≡ b)
eqb_ℤ_iff a b = ground arith

pub eqb_ℤ-refl : (a : ℤ) → eqb_ℤ a a ≡ true
eqb_ℤ-refl a = ground arith

pub eqb_ℤ_ne : (a b : ℤ) → a ≢ b → eqb_ℤ a b ≡ false
eqb_ℤ_ne a b h = ground (arith, eqb_ℤ_iff a b)

-- a - b, as an integer.
abbrev pub sub_ℕ : ℕ → ℕ → ℤ
sub_ℕ a b = if leb b a then pos (a - b) else negsuc (b - a - 1)

abbrev pub min_ℤ : ℤ → ℤ → ℤ
min_ℤ a b = if leb_ℤ a b then a else b

-- The range of an `i64`.
abbrev pub i64_max : ℤ
i64_max = pos (2 ^ 63 - 1)

abbrev pub i64_min : ℤ
i64_min = negsuc (2 ^ 63 - 1)

abbrev pub clamp : ℤ → ℤ
clamp a = if ltb_ℤ i64_max a then i64_max else if ltb_ℤ a i64_min then i64_min else a

abbrev pub saturating_add : ℤ → ℤ → ℤ
saturating_add a b = clamp (sub_ℕ (pos_part a + pos_part b) (neg_part a + neg_part b))

abbrev pub saturating_sub : ℤ → ℤ → ℤ
saturating_sub a b = clamp (sub_ℕ (pos_part a + neg_part b) (neg_part a + pos_part b))

-- a + 1 on an `i64`, which wraps at the top.
abbrev pub next_i64 : ℤ → ℤ
next_i64 (pos n) = if ltb (n + 1) (2 ^ 63) then pos (n + 1) else i64_min
next_i64 (negsuc n) = if n == 0 then pos 0 else negsuc (n - 1)

-- Below the top of the range the successor is the next integer.
pub lt-next_i64 :
    (a : ℤ)
    → a <ℤ i64_max
    → (a <ℤ next_i64 a)
      × (pos_part (next_i64 a) + neg_part a ≡ pos_part a + neg_part (next_i64 a) + 1)
lt-next_i64 a h = ground arith

pub saturating_sub_self : (a : ℤ) → saturating_sub a a ≡ pos 0
saturating_sub_self (pos n) = ground arith
saturating_sub_self (negsuc n) = ground arith

pub min_ℤ_zero : (a : ℤ) → pos 0 ≤ℤ a → min_ℤ a (pos 0) ≡ pos 0
min_ℤ_zero a h = ground arith

pub saturating_add_zero : (a : ℤ) → pos 0 ≤ℤ a → a ≤ℤ i64_max → saturating_add a (pos 0) ≡ a
saturating_add_zero (pos n) low high = ground arith
saturating_add_zero (negsuc n) low high = absurd (omega arith)
