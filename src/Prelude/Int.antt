-- ===== src/Prelude/Int.antt =====
-- Integers, as far as the source's amounts need them: a difference that may be negative.
use Prim.Native.Nat.{ℕ, ◌-◌}
use eto_mcp.Prelude.Tests.{leb, if◌then◌else◌}
use eto_mcp.Prelude.Number.{f64}

-- `negsuc n` is -(n + 1).
pub data ℤ : Type 0 where
  pos : ℕ → ℤ
  negsuc : ℕ → ℤ

-- `a - b` on integral doubles.
unfoldable pub sub_f64 : ℕ → ℕ → ℤ
sub_f64 a b = if leb b a then pos (f64 (a - b)) else negsuc (f64 (b - a) - 1)
