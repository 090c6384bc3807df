-- ===== src/Base/Int.antt =====
-- Integers over the native numbers.
use Prim.Native.Nat.{ℕ, zero, suc}
use mathlib.Core.Bool.{Bool, true}
use silksocks.Base.Tests.{ltb}

-- `negsuc n` is -(n + 1).
pub data ℤ : Type 0 where
  pos : ℕ → ℤ
  negsuc : ℕ → ℤ

-- `z < n`
abbrev pub lt_ℕ : ℤ → ℕ → Bool
lt_ℕ (pos m) n = ltb m n
lt_ℕ (negsuc m) n = true

-- `z + 1`
abbrev pub suc_ℤ : ℤ → ℤ
suc_ℤ (pos m) = pos (suc m)
suc_ℤ (negsuc zero) = pos 0
suc_ℤ (negsuc (suc m)) = negsuc m

-- `z - 1`
abbrev pub pred_ℤ : ℤ → ℤ
pred_ℤ (pos zero) = negsuc 0
pred_ℤ (pos (suc m)) = pos m
pred_ℤ (negsuc m) = negsuc (suc m)
