-- ===== src/Base/Reading.antt =====
-- The texts of Base.Digits determine their numbers, and stand between other texts of a line.
use Prim.Native.Nat.{ℕ, ◌+◌, ◌-◌, ◌*◌, ◌/◌, ◌%◌, ◌^◌, ◌≤◌, ◌<◌}
use mathlib.Core.Path.{◌≡◌, refl, sym, ap, subst, ◌∙◌}
use mathlib.Core.List.{List, [], ◌∷◌, ◌++◌}
use mathlib.Core.Logic.{inl, inr}
use mathlib.Core.WellFounded
use native.Mathlib.Decide.{dec_lt}
use native.Mathlib.Omega.{arith}
use tx_driver.Base.Tests.{ltb, ◌==◌, if◌then◌else◌, Bool-cases}
use tx_driver.Base.Digits.{
  Radix, ten, digit_char, lt_wf, digits, digits_more, digits_over, natural_text, int_text,
}

-- The characters of a text come after `bound` in the character set.
pub data Above (bound : ℕ) : List ℕ → Type 0 where
  blank : Above bound []
  char : {c : ℕ} {cs : List ℕ} → bound < c → Above bound cs → Above bound (c ∷ cs)

pub Above-weaken : {a b : ℕ} {cs : List ℕ} → a ≤ b → Above b cs → Above a cs
Above-weaken h blank = blank
Above-weaken h (char above rest) = char (omega arith) (Above-weaken h rest)

digit_value : ℕ → ℕ
digit_value c = if ltb c b'a' then c - b'0' else c - b'a' + 10

digit_value-digit_char : (d : ℕ) → d < 16 → digit_value (digit_char d) ≡ d
unfolding digit_value digit_char
digit_value-digit_char d h = ground arith

digit_char-above : (d : ℕ) → 47 < digit_char d
unfolding digit_char
digit_char-above d = ground arith

-- The number that digits stand for, after `n`.
value : ℕ → List ℕ → ℕ → ℕ
value base [] n = n
value base (c ∷ cs) n = value base cs (n * base + digit_value c)

module _ (r : Radix) where
  -- The last digit, after the digits before it.
  value_last :
      (n : ℕ) (out : List ℕ)
      → value r.base (digit_char (n % r.base) ∷ out) (n / r.base) ≡ value r.base out n
  unfolding value
  value_last n out = ap (value r.base out) (
      ap (λ d. n / r.base * r.base + d) (digit_value-digit_char (n % r.base) (r.low n)) ∙ r.exact n)

  value-digits : (n : ℕ) (out : List ℕ) → value r.base (digits r n out) 0 ≡ value r.base out n
  value-digits n =
      WellFounded.induction lt_wf
        {C = λ m. (out : List ℕ) → value r.base (digits r m out) 0 ≡ value r.base out m} n
        λ m ih out. elim (dec_lt 0 m) [
          | yes more ↦
              rw (digits_more r m out more) (ih (m / r.base) (r.smaller more) _ ∙ value_last m out)
          | no over ↦
              let nothing : m ≡ 0 = omega (arith, over) in
              rw (digits_over r m out nothing) (ap (value r.base out) (sym nothing))
        ]

  digits-Above : (n : ℕ) (out : List ℕ) → Above 47 out → Above 47 (digits r n out)
  digits-Above n =
      WellFounded.induction lt_wf
        {C = λ m. (out : List ℕ) → Above 47 out → Above 47 (digits r m out)} n
        λ m ih out above. elim (dec_lt 0 m) [
          | yes more ↦
              rw (digits_more r m out more)
                (ih (m / r.base) (r.smaller more) _ (char (digit_char-above _) above))
          | no over ↦ rw (digits_over r m out (omega (arith, over))) above
        ]

  pub natural_text-Above : (n : ℕ) → Above 47 (natural_text r n)
  unfolding natural_text
  natural_text-Above n = elim (Bool-cases (n == 0)) [
    | inl nothing ↦ rw nothing (char (omega arith) blank)
    | inr more ↦ rw more (digits-Above n [] blank)
  ]

  value-natural_text : (n : ℕ) → value r.base (natural_text r n) 0 ≡ n
  unfolding natural_text value digit_value
  value-natural_text n = elim (Bool-cases (n == 0)) [
    | inl nothing ↦ rw nothing (ground (arith, nothing))
    | inr more ↦ rw more (value-digits n [])
  ]

  pub natural_text_injective : (n m : ℕ) → natural_text r n ≡ natural_text r m → n ≡ m
  natural_text_injective n m e =
      sym (value-natural_text n) ∙ ap (λ cs. value r.base cs 0) e ∙ value-natural_text m

-- No digit is a sign.
unsigned : (cs : List ℕ) → Above 47 (b'-' ∷ cs) → ⊥
unsigned cs (char above rest) = omega (arith, above)

pub int_text-Above : (n : ℕ) → Above 44 (int_text n)
unfolding int_text
int_text-Above n = elim (Bool-cases (ltb n (2 ^ 31))) [
  | inl small ↦ rw small (Above-weaken (omega arith) (natural_text-Above ten n))
  | inr large ↦
      rw large
        (char (omega arith) (Above-weaken (omega arith) (natural_text-Above ten (2 ^ 32 - n))))
]

signs_differ : (n m : ℕ) → natural_text ten n ≡ b'-' ∷ natural_text ten m → ⊥
signs_differ n m e = unsigned (natural_text ten m) (subst (Above 47) e (natural_text-Above ten n))

tails : (a : ℕ) (cs ds : List ℕ) → a ∷ cs ≡ a ∷ ds → cs ≡ ds
tails a cs ds e = cc

pub int_text_injective : (n m : ℕ) → n < 2 ^ 32 → m < 2 ^ 32 → int_text n ≡ int_text m → n ≡ m
unfolding int_text
int_text_injective n m h k e = elim (Bool-cases (ltb n (2 ^ 31))) [
  | inl small ↦ elim (Bool-cases (ltb m (2 ^ 31))) [
    | inl small' ↦ natural_text_injective ten n m (rw (small, small') at e)
    | inr large' ↦ absurd (signs_differ n (2 ^ 32 - m) (rw (small, large') at e))
  ]
  | inr large ↦ elim (Bool-cases (ltb m (2 ^ 31))) [
    | inl small' ↦ absurd (signs_differ m (2 ^ 32 - n) (sym (rw (large, small') at e)))
    | inr large' ↦
        let same =
          natural_text_injective ten (2 ^ 32 - n) (2 ^ 32 - m)
            (tails b'-' _ _ (rw (large, large') at e)) in
        omega (arith, same, h, k)
  ]
]

heads : {a b : ℕ} {cs ds : List ℕ} → a ∷ cs ≡ b ∷ ds → a < b → ⊥
heads {a} {b} e h = let same : a ≡ b = cc in omega (arith, same, h)

-- Up to the end of the line.
pub line_split :
    (end : ℕ) (cs ds : List ℕ) {rest rest' : List ℕ}
    → Above end cs
    → Above end ds
    → cs ++ (end ∷ rest) ≡ ds ++ (end ∷ rest')
    → (cs ≡ ds) × (rest ≡ rest')
line_split end [] [] a b e = (refl, tails end _ _ e)
line_split end [] (d ∷ ds) a (char above b) e = absurd (heads e above)
line_split end (c ∷ cs) [] (char above a) b e = absurd (heads (sym e) above)
line_split end (c ∷ cs) (d ∷ ds) {rest} {rest'} (char above a) (char above' b) e =
    let head : c ≡ d = cc in
    let tail : cs ++ (end ∷ rest) ≡ ds ++ (end ∷ rest') = cc in
    let (same, more) = line_split end cs ds a b tail in (cc (head, same), more)
