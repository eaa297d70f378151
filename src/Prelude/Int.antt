-- ===== src/Prelude/Int.antt =====
-- Python's integers, which have a sign and no bound.
use Prim.Native.Nat.{ℕ}
use mathlib.Core.Bool.{Bool, false}
use omni_flow.Prelude.Tests.{nat_beq}

-- `negsuc n` is -(n + 1).
pub data ℤ : Type 0 where
  pos : ℕ → ℤ
  negsuc : ℕ → ℤ

-- `i == n` for a natural number `n`.
abbrev pub int_is : ℤ → ℕ → Bool
int_is (pos m) n = nat_beq m n
int_is (negsuc m) n = false
