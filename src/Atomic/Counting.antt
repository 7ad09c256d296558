-- ===== src/Atomic/Counting.antt =====
-- Counters under any interleaving of atomic calls.
use mathlib.Core.List.{Perm, Permᴰ}
use mathlib.Core.Logic.{∥∥₁_elim}
use native.Mathlib.Nat.{ℕ_set}
use tx_driver.Base.{
  ℕ, zero, suc, ◌+◌, ◌-◌, ◌%◌, ◌^◌, ◌<◌, ◌≡◌, refl, sym, ◌∙◌, ap, Bool, true, false, List, [], ◌∷◌,
  ◌++◌, arith, u32, replicate,
}
use tx_driver.Atomic.{atomic_add, atomic_sub, atomic_inc, atomic_dec, atomic_dec_and_test}

-- A call on the counter, by some thread.
pub data Call : Type 0 where
  add sub : ℕ → Call
  inc dec : Call

-- The interleaving as the sequence of calls in the order in which the bus grants them.
pub run : List Call → ℕ → ℕ
run [] v = v
run (add n ∷ cs) v = run cs (atomic_add v n)
run (sub n ∷ cs) v = run cs (atomic_sub v n)
run (inc ∷ cs) v = run cs (atomic_inc v)
run (dec ∷ cs) v = run cs (atomic_dec v)

-- What a call adds, modulo 2 ^ 32.
abbrev pub weight : Call → ℕ
weight (add n) = n % 2 ^ 32
weight (sub n) = (2 ^ 32 - n % 2 ^ 32) % 2 ^ 32
weight inc = 1
weight dec = 2 ^ 32 - 1

abbrev pub total : List Call → ℕ
total [] = 0
total (c ∷ cs) = weight c + total cs

pub run-total : (cs : List Call) (v : ℕ) → v < 2 ^ 32 → run cs v ≡ u32 (v + total cs)
unfolding run atomic_add atomic_sub atomic_inc atomic_dec
run-total [] v h = omega arith
run-total (add n ∷ cs) v h = run-total cs _ (omega arith) ∙ omega arith
run-total (sub n ∷ cs) v h = run-total cs _ (omega arith) ∙ omega arith
run-total (inc ∷ cs) v h = run-total cs _ (omega arith) ∙ omega arith
run-total (dec ∷ cs) v h = run-total cs _ (omega arith) ∙ omega arith

pub total-perm : {cs ds : List Call} → Permᴰ cs ds → total cs ≡ total ds
total-perm Permᴰ.nil = refl
total-perm (Permᴰ.cons e p) = ground (arith, total-perm p)
total-perm (Permᴰ.swap e f) = ground arith
total-perm (Permᴰ.trans p q) = total-perm p ∙ total-perm q

-- The order in which the calls of several threads reach the bus does not matter: every interleaving
-- of the same calls, from the same 32-bit value, leaves the counter at that value plus what the
-- calls add, modulo 2 ^ 32.
pub run-perm :
    (cs ds : List Call) (v : ℕ)
    → v < 2 ^ 32
    → Perm cs ds
    → (run cs v ≡ u32 (v + total cs)) × (run ds v ≡ run cs v)
run-perm cs ds v h p = (
  run-total cs v h,
  ∥∥₁_elim p (ℕ_set _ _)
      λ q. run-total ds v h ∙ (ap (λ t. u32 (v + t)) (sym (total-perm q)) ∙ sym (run-total cs v h)),
)

-- `n` calls of `atomic_dec_and_test`, in the order in which they are granted, with their results.
pub release : ℕ → ℕ → List Bool × ℕ
release zero v = ([], v)
release (suc n) v =
    let (v', zeroed) = atomic_dec_and_test v in
    let (rest, end) = release n v' in (zeroed ∷ rest, end)

-- A reference count that stands for its holders: when each of the n + 1 holders drops its reference
-- once, the last call, and no earlier one, reports zero, and the count ends at zero.
pub release-last :
    (n : ℕ) → n + 1 < 2 ^ 32 → release (suc n) (n + 1) ≡ (replicate n false ++ true ∷ [], 0)
unfolding release atomic_dec_and_test
release-last zero h = refl
release-last (suc n) h = ground (arith, release-last n)
