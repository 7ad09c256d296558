-- ===== src/Atomic/Laws.antt =====
-- Single operations of the atomic counters, on every value of the cell.
use tx_driver.Base.{ℕ, ◌^◌, ◌<◌, ◌≡◌, ◌≢◌, refl, arith}
use tx_driver.Atomic.{
  atomic_add, atomic_sub, atomic_inc, atomic_dec, atomic_dec_and_test, atomic_inc_and_test,
  test_and_set,
}

-- `atomic_sub` undoes `atomic_add`, and `atomic_dec` undoes `atomic_inc`, also across the wrap.
pub atomic_sub-add :
    (v a : ℕ)
    → v < 2 ^ 32
    → a < 2 ^ 32
    → (atomic_sub (atomic_add v a) a ≡ v) × (atomic_dec (atomic_inc v) ≡ v)
unfolding atomic_sub atomic_add atomic_dec atomic_inc
atomic_sub-add v a hv ha = omega arith

-- `atomic_inc_and_test` leaves the value one lower, and tests for that: for no value is the cell
-- what an increment leaves.
pub atomic_inc_and_test-decrements :
    (v : ℕ)
    → v < 2 ^ 32
    → (atomic_inc_and_test v ≡ atomic_dec_and_test v) × ((atomic_inc_and_test v).0 ≢ atomic_inc v)
unfolding atomic_inc_and_test atomic_dec_and_test atomic_inc
atomic_inc_and_test-decrements v hv = (refl, omega arith)

-- A lock word taken by `test_and_set` stays a 32-bit word with its bit set: the call that finds the
-- bit clear returns 0, and any later call returns 1 and changes nothing.
pub test_and_set-excludes :
    (lock : ℕ)
    → lock < 2 ^ 32
    → let (taken, old) = test_and_set lock in
      (taken < 2 ^ 32) × (old < 2) × (test_and_set taken ≡ (taken, 1))
unfolding test_and_set
test_and_set-excludes lock h = ground arith
