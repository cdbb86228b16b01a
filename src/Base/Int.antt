-- ===== src/Base/Int.antt =====
-- Signed integers of the wire format: `negsuc n` is -(n + 1).
use Prim.Native.Nat.{ℕ, zero, suc}
use mathlib.Core.Bool.{Bool, true, false}
use cogmemory.Base.Tests.{ltb, if◌then◌else◌}

pub data ℤ : Type 0 where
  pos : ℕ → ℤ
  negsuc : ℕ → ℤ

-- x > 0
abbrev pub is_pos : ℤ → Bool
is_pos (pos zero) = false
is_pos (pos (suc n)) = true
is_pos (negsuc n) = false

-- x == 0
abbrev pub is_zero : ℤ → Bool
is_zero (pos zero) = true
is_zero _ = false

-- The value held between two bounds, of which none is negative.
abbrev pub clamp : ℤ → ℕ → ℕ → ℕ
clamp (negsuc n) lo hi = lo
clamp (pos v) lo hi = if ltb v lo then lo else if ltb hi v then hi else v
