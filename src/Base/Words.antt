-- ===== src/Base/Words.antt =====
-- Machine words of the x86-64 ABI as native numbers: an unsigned word of w bits is a number below
-- `2 ^ w`, and an `int` is the 32-bit pattern that stands for it.
use Prim.Native.Nat.{ℕ, ◌+◌, ◌-◌, ◌%◌, ◌^◌, ◌<◌}
use mathlib.Core.Path.{◌≡◌}
use native.Mathlib.Omega.{arith}
use tx_driver.Base.Tests.{ltb, if◌then◌else◌}

abbrev pub u32 : ℕ → ℕ
u32 x = x % 2 ^ 32

abbrev pub u64 : ℕ → ℕ
u64 x = x % 2 ^ 64

-- `a - b` on unsigned words: `-` on ℕ stops at 0, so the modulus is added first.
abbrev pub sub32 : ℕ → ℕ → ℕ
sub32 a b = u32 (a + 2 ^ 32 - u32 b)

abbrev pub sub64 : ℕ → ℕ → ℕ
sub64 a b = u64 (a + 2 ^ 64 - u64 b)

-- An `int` converted to `size_t`: the sign is extended.
abbrev pub size_of_int : ℕ → ℕ
size_of_int n = if ltb n (2 ^ 31) then n else n + (2 ^ 64 - 2 ^ 32)

pub sub64-add : (a b : ℕ) → a < 2 ^ 64 → sub64 (u64 (a + b)) b ≡ a
sub64-add a b h = omega arith
