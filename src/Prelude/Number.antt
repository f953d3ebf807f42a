-- ===== src/Prelude/Number.antt =====
-- JavaScript numbers. A value is told apart as far as the source's tests do: integers by their
-- value, a fraction by the integer below it. -0 is 0.
use native.Mathlib.Omega.{arith}
use Prim.Native.Nat.{◌<◌, ℕ, zero, suc, ◌+◌, ◌*◌, ◌/◌, ◌%◌, ◌^◌, ◌≤◌}
use mathlib.Core.Path.{◌≡◌, refl}
use mathlib.Core.Bool.{Bool, true, false}
use mathlib.Core.Option.{Option, none, some}
use eto_mcp.Prelude.Tests.{ltb, leb, if◌then◌else◌, le→leb}

pub data Number : Type 0 where
  -- n, and -(n + 1)
  nat : ℕ → Number
  neg : ℕ → Number
  -- strictly between n and n + 1, and between -(n + 1) and -n
  frac : ℕ → Number
  neg_frac : ℕ → Number
  infinity neg_infinity nan : Number

-- `Number.isInteger(x)`
abbrev pub is_integer : Number → Bool
is_integer (nat n) = true
is_integer (neg n) = true
is_integer _ = false

-- `x < 0`
abbrev pub lt_zero : Number → Bool
lt_zero (neg n) = true
lt_zero (neg_frac n) = true
lt_zero neg_infinity = true
lt_zero _ = false

-- `x > c` for an integer c
abbrev pub gt_nat : Number → ℕ → Bool
gt_nat (nat n) c = ltb c n
gt_nat (frac n) c = leb c n
gt_nat infinity c = true
gt_nat _ c = false

-- `x <= c` for an integer c
abbrev pub le_nat : Number → ℕ → Bool
le_nat (nat n) c = leb n c
le_nat (neg n) c = true
le_nat (frac n) c = ltb n c
le_nat (neg_frac n) c = true
le_nat neg_infinity c = true
le_nat _ c = false

-- The number passes `!Number.isInteger(x) || x <= 0`, and is handed on as what it then is.
abbrev pub positive_integer : Number → Option ℕ
positive_integer (nat zero) = none
positive_integer (nat (suc n)) = some (suc n)
positive_integer _ = none

pub positive_integer_nat :
    (n : Number) (c : ℕ) → positive_integer n ≡ some c → (n ≡ nat c) × (0 < c)
positive_integer_nat (nat zero) c h = cc
positive_integer_nat (nat (suc n)) c h = ground arith
positive_integer_nat _ c h = cc

pub positive_integer_of_nat : (c : ℕ) → 0 < c → positive_integer (nat c) ≡ some c
positive_integer_of_nat zero h = elim h [ ]
positive_integer_of_nat (suc c) h = refl

-- The number passes `!Number.isInteger(x) || x < 0`.
abbrev pub non_negative_integer : Number → Option ℕ
non_negative_integer (nat n) = some n
non_negative_integer _ = none

-- `Number.MAX_SAFE_INTEGER`
abbrev pub max_safe : ℕ
max_safe = 9007199254740991

-- The number passes `!Number.isInteger(x) || x < 0 || !Number.isSafeInteger(x)`.
abbrev pub safe_cents : Number → Option ℕ
safe_cents (nat n) = if leb n max_safe then some n else none
safe_cents _ = none

-- How many halvings take n below 2^53; 971 are enough for every finite double.
exponent : ℕ → ℕ → ℕ
exponent zero n = 0
exponent (suc fuel) n =
    let rest = suc (exponent fuel (n / 2)) in if ltb n 9007199254740992 then 0 else rest

-- To the nearer of q and q + 1, and to the even one from the middle, where the value is
-- q + r / unit.
round_half_even : ℕ → ℕ → ℕ → ℕ
round_half_even q r unit =
    if ltb (2 * r) unit then q else if ltb unit (2 * r) then q + 1 else q + q % 2

-- The double nearest to an exact integer result: what `+`, `-` and `*` of integers give.
unfoldable pub f64 : ℕ → ℕ
unfolding exponent round_half_even
f64 n =
    let unit = 2 ^ exponent 971 n in
    let rounded = round_half_even (n / unit) (n % unit) unit * unit in
    if leb n 9007199254740992 then n else rounded

-- Up to 2^53 the arithmetic is exact.
pub f64_exact : (n : ℕ) → n ≤ 9007199254740992 → f64 n ≡ n
unfolding f64
f64_exact n h = rw (le→leb n 9007199254740992 h)

-- 2^53 + 1 is no double: adding 1 to 2^53 is lost.
f64_loses_one : f64 9007199254740993 ≡ 9007199254740992
unfolding f64
f64_loses_one = refl
