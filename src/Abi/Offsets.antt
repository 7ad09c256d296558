-- ===== src/Abi/Offsets.antt =====
-- How long a struct is at least: the sum of its members.
use native.Mathlib.Nat.{div-add-mod', mod-lt}
use tx_driver.Abi.{Member, align_up, end_of, max_align}
use tx_driver.Base.{ℕ, ◌+◌, ◌-◌, ◌≤◌, ◌<◌, List, [], ◌∷◌, arith}

-- Every alignment is at least 1.
abbrev pub Aligned : List Member → Type 0
Aligned [] = Unit {0}
Aligned (f ∷ fs) = (0 < f.align) × Aligned fs

pub align_up-le : (o a : ℕ) → 0 < a → o ≤ align_up o a
align_up-le o a h = omega (arith, div-add-mod' (o + a - 1) a, mod-lt (o + a - 1) h)

pub max_align-pos : (fs : List Member) → 0 < max_align fs
max_align-pos [] = omega arith
max_align-pos (f ∷ fs) = ground (arith, max_align-pos fs)

-- The bytes of the members alone.
abbrev pub total : List Member → ℕ
total [] = 0
total (f ∷ fs) = f.size + total fs

pub end_of-total : (start : ℕ) (fs : List Member) → Aligned fs → start + total fs ≤ end_of start fs
end_of-total start [] aligned = omega arith
end_of-total start (f ∷ fs) (pos, rest) =
    omega
      (arith, align_up-le start f.align pos, end_of-total (align_up start f.align + f.size) fs rest)
