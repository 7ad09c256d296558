-- ===== src/Atomic/Schedules.antt =====
-- Threads that call the functions of src/txd_atomic.c on one counter, in every order.
use mathlib.Core.List.Permᴰ
use mathlib.Core.List.{Permᴰ}
use mathlib.Core.Quot
use mathlib.Core.Quot.{Quot, Quot-set}
use native.Mathlib.Nat.{ℕ_set}
use tx_driver.Atomic.Counting.{Call, run, total, run-total, total-perm}
use tx_driver.Base.{ℕ, ◌+◌, ◌^◌, ◌<◌, ◌≡◌, refl, sym, ◌∙◌, ap, List, [], ◌∷◌, ◌++◌, arith, u32}

-- The calls of all threads, one thread after the other.
abbrev pub all_calls : List (List Call) → List Call
all_calls [] = []
all_calls (t ∷ ts) = t ++ all_calls ts

-- Each thread makes its own calls in order; at each step some thread makes its next call.
pub data Schedules : List (List Call) → List Call → Type 0 where
  finished : {ts : List (List Call)} → all_calls ts ≡ [] → Schedules ts []
  next :
      {ts : List (List Call)} {es : List Call} (before after : List (List Call)) (c : Call)
      (cs : List Call)
      → ts ≡ before ++ ((c ∷ cs) ∷ after)
      → Schedules (before ++ (cs ∷ after)) es
      → Schedules ts (c ∷ es)

-- The threads one after the other, each alone.
abbrev pub in_turn : List (List Call) → ℕ → ℕ
in_turn [] v = v
in_turn (t ∷ ts) v = in_turn ts (run t v)

-- The calls without their order.
abbrev pub Work : Type 0
Work = Quot (Permᴰ {A = Call})

-- What they leave of a 32-bit word.
unfoldable pub final : (v : ℕ) → v < 2 ^ 32 → Work → ℕ
final v h =
    Quot.lift ℕ_set (λ cs. run cs v)
      (λ cs ds p. run-total cs v h ∙ ap (λ t. u32 (v + t)) (total-perm p) ∙ sym (run-total ds v h))

unfoldable pub also : List Call → Work → Work
also cs =
    Quot.lift Quot-set (λ ds. Quot.mk (cs ++ ds)) (λ ds es p. Quot.sound (Permᴰ.append_left cs p))

pub also-perm : {cs ds : List Call} → Permᴰ cs ds → (w : Work) → also cs w ≡ also ds w
unfolding also
also-perm p = Quot.ind (λ w. Quot-set _ _) (λ es. Quot.sound (Permᴰ.append_right es p))

-- The calls of two together.
unfoldable pub merge : Work → Work → Work
merge a b = Quot.lift Quot-set (λ cs. also cs b) (λ cs ds p. also-perm p b) a

pub merge_comm : (a b : Work) → merge a b ≡ merge b a
unfolding merge also
merge_comm a b =
    Quot.ind {β = λ x. merge x b ≡ merge b x} (λ w. Quot-set _ _)
      (λ cs.
        Quot.ind {β = λ y. merge (Quot.mk cs) y ≡ merge y (Quot.mk cs)} (λ w. Quot-set _ _)
          (λ ds. Quot.sound (Permᴰ.append_comm cs ds)) b)
      a

-- The work of the threads, in whatever order they are listed.
abbrev pub work : List (List Call) → Work
work [] = Quot.mk []
work (t ∷ ts) = merge (Quot.mk t) (work ts)

work-all_calls : (ts : List (List Call)) → work ts ≡ Quot.mk (all_calls ts)
unfolding merge also
work-all_calls [] = refl
work-all_calls (t ∷ ts) = ap (also t) (work-all_calls ts)

total-append : (cs ds : List Call) → total (cs ++ ds) ≡ total cs + total ds
total-append [] ds = omega arith
total-append (c ∷ cs) ds = omega (arith, total-append cs ds)

all_calls-append :
    (ts us : List (List Call))
    → total (all_calls (ts ++ us)) ≡ total (all_calls ts) + total (all_calls us)
all_calls-append [] us = omega arith
all_calls-append (t ∷ ts) us = omega (
  arith,
  all_calls-append ts us,
  total-append t (all_calls (ts ++ us)),
  total-append t (all_calls ts),
)

-- A step takes one call off those that are left.
total-next :
    (before after : List (List Call)) (c : Call) (cs : List Call)
    → total (all_calls (before ++ ((c ∷ cs) ∷ after)))
      ≡ total (c ∷ []) + total (all_calls (before ++ (cs ∷ after)))
total-next before after c cs = omega (
  arith,
  all_calls-append before ((c ∷ cs) ∷ after),
  all_calls-append before (cs ∷ after),
  total-append cs (all_calls after),
  total-append (c ∷ cs) (all_calls after),
)

total-Schedules :
    {ts : List (List Call)} {es : List Call} → Schedules ts es → total es ≡ total (all_calls ts)
total-Schedules (finished e) = ap total (sym e)
total-Schedules (next before after c cs e s) =
    omega
      (arith, ap (λ us. total (all_calls us)) e, total-next before after c cs, total-Schedules s)

total-order : {ts us : List (List Call)} → Permᴰ ts us → total (all_calls ts) ≡ total (all_calls us)
total-order Permᴰ.nil = refl
total-order (Permᴰ.cons {a} {b} {l₁} {l₂} e p) =
    omega (
      arith,
      ap total e,
      total-append a (all_calls l₁),
      total-append b (all_calls l₂),
      total-order p,
    )
total-order (Permᴰ.swap {a} {b} {a'} {b'} {l} e f) = omega (
  arith,
  ap total e,
  ap total f,
  total-append a (b ++ all_calls l),
  total-append b (all_calls l),
  total-append a' (b' ++ all_calls l),
  total-append b' (all_calls l),
)
total-order (Permᴰ.trans p q) = total-order p ∙ total-order q

in_turn-total :
    (ts : List (List Call)) (v : ℕ) → v < 2 ^ 32 → in_turn ts v ≡ u32 (v + total (all_calls ts))
in_turn-total [] v h = omega arith
in_turn-total (t ∷ ts) v h =
    let first = run-total t v h in
    in_turn-total ts (run t v) (omega (arith, first))
    ∙ omega (arith, first, total-append t (all_calls ts))

-- Threads that make their calls on one counter, each in its own order, leave a 32-bit counter, under
-- every schedule, at its value plus what the calls add (what is added or subtracted, or 1 up or down),
-- modulo 2 ^ 32; and they leave it as the threads do one after the other, each alone, in whatever order these are
-- taken. What they leave depends on which calls there are, and not on their order or their threads.
pub schedule-serial :
    (ts us : List (List Call)) (es : List Call) (v : ℕ) (h : v < 2 ^ 32)
    → Schedules ts es
    → Permᴰ ts us
    → (run es v ≡ u32 (v + total (all_calls ts)))
      × (run es v ≡ in_turn us v)
      × (run es v ≡ final v h (work ts))
unfolding final
schedule-serial ts us es v h s p =
    let same : total es ≡ total (all_calls us) = total-Schedules s ∙ total-order p in
    (
      run-total es v h ∙ ap (λ t. u32 (v + t)) (total-Schedules s),
      run-total es v h ∙ ap (λ t. u32 (v + t)) same ∙ sym (in_turn-total us v h),
      run-total es v h
          ∙ ap (λ t. u32 (v + t)) (total-Schedules s)
          ∙ sym (run-total (all_calls ts) v h)
          ∙ ap (final v h) (sym (work-all_calls ts)),
    )
