-- ===== src/Base/Calls.antt =====
-- What a C call comes to, over a state `S`, and commands in that state.
use mathlib.Core.Path.{◌≡◌, refl, subst, subst₂}
use Prim.Native.Nat.{ℕ}

pub data Outcome (S A : Type 0) : Type 0 where
  ok : A → S → Outcome S A
  exited : ℕ → Outcome S A  -- `exit(status)`
  aborted : Outcome S A  -- a failed `assert`
  fault : Outcome S A  -- undefined behaviour: a NULL or dangling pointer, a bad `free`
  blocked : Outcome S A  -- the call never returns

abbrev pub Cmd : Type 0 → Type 0 → Type 0
Cmd S A = S → Outcome S A

abbrev pub pure : {S A : Type 0} → A → Cmd S A
pure = ok

module _ {S A B : Type 0} where
  abbrev pub and_then : Outcome S A → (A → Cmd S B) → Outcome S B
  and_then (ok a s) k = k a s
  and_then (exited n) k = exited n
  and_then aborted k = aborted
  and_then fault k = fault
  and_then blocked k = blocked

  infixl 5 ◌>>=◌ ◌>>◌
  abbrev pub ◌>>=◌ : Cmd S A → (A → Cmd S B) → Cmd S B
  m >>= k = λ s. and_then (m s) k

  abbrev pub ◌>>◌ : Cmd S A → Cmd S B → Cmd S B
  m >> n = m >>= λ _. n

-- Total correctness: the call returns, and its value and final state satisfy `P`.
pub data Returns {S A : Type 0} (P : A → S → Type 0) : Outcome S A → Type 0 where
  returns : {a : A} {s : S} → P a s → Returns P (ok a s)

module _ {S A : Type 0} {P : A → S → Type 0} where
  pub Returns-bind :
      {B : Type 0} {Q : B → S → Type 0} {r : Outcome S A} {k : A → Cmd S B}
      → Returns P r
      → ((a : A) (s : S) → P a s → Returns Q (k a s))
      → Returns Q (and_then r k)
  Returns-bind (returns p) next = next _ _ p

  pub Returns-weaken :
      {Q : A → S → Type 0} {r : Outcome S A}
      → Returns P r
      → ((a : A) (s : S) → P a s → Q a s)
      → Returns Q r
  Returns-weaken (returns p) weaken = returns (weaken _ _ p)

  pub Returns-cases : {r : Outcome S A} → Returns P r → (a : A) × (s : S) × (r ≡ ok a s) × P a s
  Returns-cases (returns {a} {s} p) = (a, s, refl, p)

  -- What a call returned satisfies the postcondition.
  pub Returns-value : {r : Outcome S A} {a : A} {s : S} → Returns P r → r ≡ ok a s → P a s
  Returns-value (returns p) e = subst₂ P (cc) (cc) p

-- Partial correctness: if the call returns, `P` holds of the state.
abbrev pub IfReturns : {S A : Type 0} → (S → Type 0) → Outcome S A → Type 0
IfReturns P (ok a s) = P s
IfReturns P _ = Unit {0}

pub IfReturns-bind :
    {S A B : Type 0} (P Q : S → Type 0) (r : Outcome S A) (k : A → Cmd S B)
    → IfReturns P r
    → ((a : A) (s : S) → P s → IfReturns Q (k a s))
    → IfReturns Q (and_then r k)
IfReturns-bind P Q (ok a s) k p next = next a s p
IfReturns-bind P Q (exited n) k p next = tt
IfReturns-bind P Q aborted k p next = tt
IfReturns-bind P Q fault k p next = tt
IfReturns-bind P Q blocked k p next = tt

pub IfReturns-ok :
    {S A : Type 0} (P : S → Type 0) {r : Outcome S A} {a : A} {s : S}
    → IfReturns P r
    → r ≡ ok a s
    → P s
IfReturns-ok P p e = subst (IfReturns P) e p

-- A call that returned is one whose first part returned, and whose rest did.
pub and_then_ok :
    {S A B : Type 0} (r : Outcome S A) (k : A → Cmd S B) {b : B} {s' : S}
    → and_then r k ≡ ok b s'
    → (a : A) × (s : S) × (r ≡ ok a s) × (k a s ≡ ok b s')
and_then_ok (ok a s) k e = (a, s, refl, e)
and_then_ok (exited n) k e = cc
and_then_ok aborted k e = cc
and_then_ok fault k e = cc
and_then_ok blocked k e = cc

-- Partial correctness with the value: if the call returns, `P` holds of its value and its state.
abbrev pub IfOk : {S A : Type 0} → (A → S → Type 0) → Outcome S A → Type 0
IfOk P (ok a s) = P a s
IfOk P _ = Unit {0}

module _ {S A : Type 0} where
  pub IfOk-bind :
      {B : Type 0} (P : A → S → Type 0) (Q : B → S → Type 0) (r : Outcome S A) (k : A → Cmd S B)
      → IfOk P r
      → ((a : A) (s : S) → P a s → IfOk Q (k a s))
      → IfOk Q (and_then r k)
  IfOk-bind P Q (ok a s) k p next = next a s p
  IfOk-bind P Q (exited n) k p next = tt
  IfOk-bind P Q aborted k p next = tt
  IfOk-bind P Q fault k p next = tt
  IfOk-bind P Q blocked k p next = tt

  pub IfOk-value :
      (P : A → S → Type 0) {r : Outcome S A} {a : A} {s : S} → IfOk P r → r ≡ ok a s → P a s
  IfOk-value P p e = subst (IfOk P) e p

  pub IfOk-state : (P : S → Type 0) (r : Outcome S A) → IfReturns P r → IfOk (λ _. P) r
  IfOk-state P (ok a s) p = p
  IfOk-state P (exited n) p = tt
  IfOk-state P aborted p = tt
  IfOk-state P fault p = tt
  IfOk-state P blocked p = tt

  pub IfOk-Returns : {P : A → S → Type 0} {r : Outcome S A} → Returns P r → IfOk P r
  IfOk-Returns (returns p) = p
