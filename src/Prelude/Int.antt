-- ===== src/Prelude/Int.antt =====
-- Signed integers over the native numbers, for Go's time.Duration: a difference of times may be
-- negative.
use Prim.Native.Nat.{ℕ, zero, suc, ◌+◌, ◌-◌}
use native.Mathlib.Omega.{arith}
use mathlib.Core.Path.{◌≡◌, refl}
use mathlib.Core.Bool.{Bool}
use sentinel5g.Prelude.Tests.{ltb, leb, if◌then◌else◌}

-- `negsuc n` is -(n + 1).
pub data ℤ : Type 0 where
  pos : ℕ → ℤ
  negsuc : ℕ → ℤ

abbrev pub pos_part : ℤ → ℕ
pos_part (pos n) = n
pos_part (negsuc n) = 0

-- A setting, or a default where it is not positive.
abbrev pub set_or : ℤ → ℕ → ℕ
set_or (pos (suc n)) fallback = suc n
set_or (pos zero) fallback = fallback
set_or (negsuc n) fallback = fallback

abbrev pub neg_part : ℤ → ℕ
neg_part (pos n) = 0
neg_part (negsuc n) = suc n

-- a - b, as an integer: `a.Sub(b)` of two times.
abbrev pub sub_ℕ : ℕ → ℕ → ℤ
sub_ℕ a b = if leb b a then pos (a - b) else negsuc (b - a - 1)

abbrev pub ltb_ℤ : ℤ → ℤ → Bool
ltb_ℤ a b = ltb (pos_part a + neg_part b) (pos_part b + neg_part a)

abbrev pub leb_ℤ : ℤ → ℤ → Bool
leb_ℤ a b = leb (pos_part a + neg_part b) (pos_part b + neg_part a)

pub set_or-eq :
    (d : ℤ) (fallback : ℕ) → (if ltb_ℤ (pos 0) d then pos_part d else fallback) ≡ set_or d fallback
set_or-eq (pos zero) fallback = refl
set_or-eq (pos (suc n)) fallback = ground arith
set_or-eq (negsuc n) fallback = ground arith

pub pos_set_or-eq :
    (d : ℤ) (fallback : ℕ) → (if ltb_ℤ (pos 0) d then d else pos fallback) ≡ pos (set_or d fallback)
pos_set_or-eq (pos zero) fallback = refl
pos_set_or-eq (pos (suc n)) fallback = ground arith
pos_set_or-eq (negsuc n) fallback = ground arith
