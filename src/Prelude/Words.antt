-- ===== src/Prelude/Words.antt =====
-- Go's int64, as its 64-bit two's-complement pattern: a number below 2^64. Sums wrap at 2^64, and
-- the signed order compares the patterns with the sign bit flipped.
use Prim.Native.Nat.{ℕ, ◌+◌, ◌-◌, ◌%◌, ◌^◌, ◌<◌}
use mathlib.Core.Path.{◌≡◌}
use mathlib.Core.Bool.{Bool}
use native.Mathlib.Omega.{arith}
use gomm.Prelude.Tests.{ltb, leb}

abbrev pub Int64 : Type 0
Int64 = ℕ

abbrev pub IsInt64 : Int64 → Type 0
IsInt64 a = a < 2 ^ 64

-- The value plus 2^63: the signed order is the order of ranks.
abbrev pub rank : Int64 → ℕ
rank a = (a + 2 ^ 63) % 2 ^ 64

abbrev pub add64 : Int64 → Int64 → Int64
add64 a b = (a + b) % 2 ^ 64

abbrev pub sub64 : Int64 → Int64 → Int64
sub64 a b = (a + 2 ^ 64 - b) % 2 ^ 64

abbrev pub lt64 : Int64 → Int64 → Bool
lt64 a b = ltb (rank a) (rank b)

abbrev pub le64 : Int64 → Int64 → Bool
le64 a b = leb (rank a) (rank b)

abbrev pub minus_one : Int64
minus_one = 2 ^ 64 - 1

pub rank-nonneg : (a : Int64) → a < 2 ^ 63 → rank a ≡ a + 2 ^ 63
rank-nonneg a h = omega arith
