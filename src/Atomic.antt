-- ===== src/Atomic.antt =====
-- src/txd_atomic.c (src/atomic.c is the same text): the locked instructions on a 32-bit `int`.
-- Each function is one instruction on the addressed cell, so it maps the old value of the cell, a
-- 32-bit pattern, to the new one and to what the function returns.
pub mod Laws
pub mod Counting
pub mod Schedules
use tx_driver.Base.{ℕ, ◌+◌, ◌-◌, ◌%◌, ◌^◌, Bool, true, false, u32, sub32, ◌==◌, if◌then◌else◌}

-- `lock addl`
unfoldable pub atomic_add : ℕ → ℕ → ℕ
atomic_add value inc_val = u32 (value + inc_val)

-- `lock subl`
unfoldable pub atomic_sub : ℕ → ℕ → ℕ
atomic_sub value dec_val = sub32 value dec_val

-- `lock incl`
unfoldable pub atomic_inc : ℕ → ℕ
atomic_inc value = u32 (value + 1)

-- `lock decl`
unfoldable pub atomic_dec : ℕ → ℕ
atomic_dec value = sub32 value 1

-- `lock decl; sete`: the zero flag is that of the new value.
unfoldable pub atomic_dec_and_test : ℕ → ℕ × Bool
atomic_dec_and_test value = let value' = sub32 value 1 in (value', value' == 0)

-- The source has `decl` here too.
unfoldable pub atomic_inc_and_test : ℕ → ℕ × Bool
atomic_inc_and_test value = let value' = sub32 value 1 in (value', value' == 0)

-- `lock bts` of bit 0: the old bit is returned, and the bit is set.
unfoldable pub test_and_set : ℕ → ℕ × ℕ
test_and_set lock = (if lock % 2 == 0 then lock + 1 else lock, lock % 2)

-- `lock xchgl`; `atomic_set` is a macro for it.
unfoldable pub atomic_xchg : ℕ → ℕ → ℕ × ℕ
atomic_xchg value newval = (newval, value)
