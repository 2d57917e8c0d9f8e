-- ===== src/Prelude/Int.antt =====
-- Power levels and timestamps: integers that are only compared.
use Prim.Native.Nat.{ℕ, suc, ◌+◌}
use mathlib.Core.Path.{◌≡◌}
use mathlib.Core.Bool.{Bool, true, false}
use native.Mathlib.Omega.{arith}
use cinquain.Prelude.Tests.{ltb, leb}

-- `negsuc n` is -(n + 1).
pub data ℤ : Type 0 where
  pos : ℕ → ℤ
  negsuc : ℕ → ℤ

abbrev pub pos_part : ℤ → ℕ
pos_part (pos n) = n
pos_part (negsuc n) = 0

abbrev pub neg_part : ℤ → ℕ
neg_part (pos n) = 0
neg_part (negsuc n) = suc n

abbrev pub leℤ : ℤ → ℤ → Bool
leℤ a b = leb (pos_part a + neg_part b) (pos_part b + neg_part a)

abbrev pub ltℤ : ℤ → ℤ → Bool
ltℤ a b = ltb (pos_part a + neg_part b) (pos_part b + neg_part a)

pub leℤ_antisym : (a b : ℤ) → leℤ a b ≡ true → leℤ b a ≡ true → a ≡ b
leℤ_antisym a b h k = ground arith

pub leℤ_total : (a b : ℤ) → leℤ a b ≡ false → leℤ b a ≡ true
leℤ_total a b h = ground arith

pub leℤ_trans : (a b c : ℤ) → leℤ a b ≡ true → leℤ b c ≡ true → leℤ a c ≡ true
leℤ_trans a b c h k = ground arith
