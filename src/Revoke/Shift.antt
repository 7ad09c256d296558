-- ===== src/Revoke/Shift.antt =====
-- `hash_shift`: the loop computes the binary logarithm.
use native.Mathlib.Nat.{pow-suc}
use tx_driver.Base.{
  ℕ, zero, suc, ◌+◌, ◌*◌, ◌/◌, ◌^◌, ◌<◌, ◌≤◌, ◌≡◌, refl, none, some, arith, Bool-cases, inl, inr,
  ◌==◌, ◌∙◌, ap,
}
use tx_driver.Revoke.{shift_loop, shift_right, int_bits}

shift_loop-log :
    (fuel tmp shift : ℕ)
    → 0 < tmp
    → tmp < 2 ^ 31
    → tmp < 2 ^ fuel
    → (e : ℕ) × (shift_loop fuel tmp shift ≡ some (shift + e)) × (2 ^ e ≤ tmp) × (tmp < 2 * 2 ^ e)
unfolding shift_loop
shift_loop-log zero tmp shift pos int fits = absurd (omega arith)
shift_loop-log (suc fuel) tmp shift pos int fits = elim (Bool-cases (tmp / 2 == 0)) [
  | inl last ↦ (0, ground arith, ground arith, ground arith)
  | inr more ↦
      let half : tmp / 2 < 2 ^ fuel = omega (arith, pow-suc 2 fuel) in
      let (e, run, low, high) =
        shift_loop-log fuel (tmp / 2) (shift + 1) (ground arith) (omega arith) half in
      (suc e, ground arith, omega (arith, low, pow-suc 2 e), omega (arith, high, pow-suc 2 e))
]

-- The sign bit of a negative `int` is never shifted out.
shift_right_negative : (tmp : ℕ) → 2 ^ 31 ≤ tmp → tmp < 2 ^ 32 → 2 ^ 31 ≤ shift_right tmp
shift_right_negative tmp low high = ground arith

-- For a positive table size the loop ends within the bits of an `int`, with the shift that is the
-- binary logarithm of the size, rounded down.
pub hash_shift-log :
    (hash_size : ℕ)
    → 0 < hash_size
    → hash_size < 2 ^ 31
    → (e : ℕ) × (shift_loop int_bits hash_size 0 ≡ some e)
      × (2 ^ e ≤ hash_size)
      × (hash_size < 2 * 2 ^ e)
hash_shift-log hash_size pos fits =
    let (e, run, low, high) = shift_loop-log int_bits hash_size 0 pos fits (omega arith) in
    (e, run ∙ ap some (omega arith), low, high)

-- For a negative size the loop never ends, whatever the number of rounds.
hash_shift_endless :
    (fuel hash_size shift : ℕ)
    → 2 ^ 31 ≤ hash_size
    → hash_size < 2 ^ 32
    → shift_loop fuel hash_size shift ≡ none
unfolding shift_loop
hash_shift_endless zero hash_size shift low high = refl
hash_shift_endless (suc fuel) hash_size shift low high =
    ground (arith, hash_shift_endless fuel (hash_size / 2 + 2 ^ 31) (shift + 1))
