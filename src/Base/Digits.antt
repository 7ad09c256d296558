-- ===== src/Base/Digits.antt =====
-- Numbers as text, the way `printf` of the C library writes them: `%x`, `%d` and `%lu`, in ASCII codes.
use Prim.Native.Nat.{ℕ, zero, suc, ◌+◌, ◌-◌, ◌*◌, ◌/◌, ◌%◌, ◌^◌, ◌<◌}
use mathlib.Core.Path.{◌≡◌}
use mathlib.Core.List.{List, [], ◌∷◌}
use mathlib.Core.Logic.{ite, dite}
use mathlib.Core.WellFounded.{Acc, Acc-prop, WellFounded}
use native.Mathlib.Decide.{dec_lt}
use native.Mathlib.Omega.{arith}
use tx_driver.Base.Tests.{ltb, ◌==◌, if◌then◌else◌}

below-Acc : (k n : ℕ) → n < k → Acc ◌<◌ n
below-Acc zero n h = absurd (omega arith)
below-Acc (suc k) n h = Acc.intro n λ m lt. below-Acc k m (omega arith)

pub lt_wf : WellFounded ◌<◌
unfolding below-Acc
lt_wf = record { apply = λ n. below-Acc (suc n) n (omega arith) }

-- The base of a notation with digits up to `f`.
pub record Radix : Type 0 where
  pub base : ℕ
  pub smaller : {n : ℕ} → 0 < n → n / base < n
  pub exact : (n : ℕ) → n / base * base + n % base ≡ n
  pub low : (n : ℕ) → n % base < 16

abbrev pub ten : Radix
ten = record {
  base = 10;
  smaller = λ h. omega arith;
  exact = λ n. omega arith;
  low = λ n. omega arith;
}

abbrev pub sixteen : Radix
sixteen = record {
  base = 16;
  smaller = λ h. omega arith;
  exact = λ n. omega arith;
  low = λ n. omega arith;
}

unfoldable pub digit_char : ℕ → ℕ
digit_char d = if ltb d 10 then b'0' + d else b'a' + (d - 10)

emit : (r : Radix) (n : ℕ) → Acc ◌<◌ n → List ℕ → List ℕ
emit r n (Acc.intro _ less) out =
    dite (dec_lt 0 n)
      (λ more.
        let rest = n / r.base in
        emit r rest (less rest (r.smaller more)) (digit_char (n % r.base) ∷ out))
      (λ _. out)

-- The digits of a positive number, before `out`.
unfoldable pub digits : Radix → ℕ → List ℕ → List ℕ
unfolding emit lt_wf dec_lt
digits r n = emit r n (lt_wf.apply n)

module _ (r : Radix) where
  emit_step :
      (n : ℕ) (acc : Acc ◌<◌ n) (out : List ℕ) (acc' : Acc ◌<◌ (n / r.base))
      → emit r n acc out
        ≡ ite (dec_lt 0 n) (emit r (n / r.base) acc' (digit_char (n % r.base) ∷ out)) out
  unfolding emit
  emit_step n (Acc.intro _ less) out acc' = λ i.
      let rest = n / r.base in
      dite (dec_lt 0 n)
        (λ more.
          emit r rest (Acc-prop (less rest (r.smaller more)) acc' i)
            (digit_char (n % r.base) ∷ out))
        (λ _. out)

  digits_step :
      (n : ℕ) (out : List ℕ)
      → digits r n out
        ≡ ite (dec_lt 0 n) (digits r (n / r.base) (digit_char (n % r.base) ∷ out)) out
  unfolding digits
  digits_step n out = emit_step n (lt_wf.apply n) out (lt_wf.apply (n / r.base))

  pub digits_more :
      (n : ℕ) (out : List ℕ)
      → 0 < n
      → digits r n out ≡ digits r (n / r.base) (digit_char (n % r.base) ∷ out)
  digits_more n out h = ground (arith, digits_step n out, h)

  pub digits_over : (n : ℕ) (out : List ℕ) → n ≡ 0 → digits r n out ≡ out
  digits_over n out h = ground (arith, digits_step n out, h)

unfoldable pub natural_text : Radix → ℕ → List ℕ
natural_text r n = if n == 0 then b'0' ∷ [] else digits r n []

-- `%d` of the 32-bit pattern of an `int`.
unfoldable pub int_text : ℕ → List ℕ
int_text n = if ltb n (2 ^ 31) then natural_text ten n else b'-' ∷ natural_text ten (2 ^ 32 - n)
