-- ===== src/Thread/Progress.antt =====
-- The start of the journal thread neither deadlocks nor loses its wakeup, and it ends.
use tx_driver.Base.{
  ℕ, ◌+◌, ◌*◌, ◌<◌, ◌≤◌, ◌≡◌, ◌≢◌, refl, Option, none, some, arith, ◌⊎◌, inl, inr, ℕ_discrete,
}
use tx_driver.Thread.{
  Who, starter, journald, MainPc, at_start, at_create, at_lock, at_test, waiting, woken, at_count,
  at_unlock, returned, refused, ThreadPc, absent, enters, clears, signals, leaves, finished, System,
  Step, start, create_done, create_refused, create_missed, lock, wait, relock, pass, count, unlock,
  thread_lock, thread_clear, thread_signal, thread_unlock, Spurious, spurious, Reach, here, next,
  wakeup,
}
use tx_driver.Thread.Invariant.{Inv, Reach-Inv}

-- Some thread can take a proper step.
abbrev pub CanStep : ℕ → System → Type 0
CanStep spawn s = (t : System) × Step spawn s t

-- How many proper steps are left, if no wakeup is spurious.
abbrev main_rank : MainPc → ℕ
main_rank at_start = 12
main_rank at_create = 11
main_rank at_lock = 10
main_rank woken = 10
main_rank at_test = 9
main_rank waiting = 8
main_rank at_count = 2
main_rank at_unlock = 1
main_rank returned = 0
main_rank refused = 0

abbrev thread_rank : ThreadPc → ℕ
thread_rank absent = 5
thread_rank enters = 4
thread_rank clears = 3
thread_rank signals = 2
thread_rank leaves = 1
thread_rank finished = 0

abbrev pub measure : System → ℕ
measure s = main_rank s.main + 3 * thread_rank s.thread

Step-measure : {spawn : ℕ} {s t : System} → Step spawn s t → Inv spawn s → measure t < measure s
Step-measure (start e) v = ground arith
Step-measure (create_done e f) v = ground (arith, v.alone)
Step-measure (create_refused e f) v = ground arith
Step-measure (create_missed e f g) v = ground arith
Step-measure (lock e f) v = ground arith
Step-measure (wait e f) v = ground arith
Step-measure (relock e f) v = ground arith
Step-measure (pass e f) v = ground arith
Step-measure (count e) v = ground arith
Step-measure (unlock e) v = ground arith
Step-measure (thread_lock e f) v = ground arith
Step-measure (thread_clear e) v = ground arith
Step-measure (thread_signal e) v = ground arith
Step-measure (thread_unlock e) v = ground arith

Spurious-measure : {s t : System} → Spurious s t → measure t ≡ measure s + 2
Spurious-measure (spurious e) = ground arith

-- However the two threads are interleaved, they take at most 27 proper steps, and two more for each
-- spurious wakeup. So no execution with finitely many of these runs for ever.
pub steps_bounded : {spawn n k : ℕ} {s : System} → Reach spawn n k s → n + measure s ≤ 27 + 2 * k
steps_bounded here = omega arith
steps_bounded (next r st) = omega (arith, steps_bounded r, Step-measure st (Reach-Inv r))
steps_bounded (wakeup r st) = omega (arith, steps_bounded r, Spurious-measure st)

-- Both threads are done, or the creation was refused, or the starter sleeps and there is no thread
-- that would wake it up, since `pthread_create` failed with an error that went unnoticed.
abbrev pub Settled : ℕ → System → Type 0
Settled spawn s =
    ((s.main ≡ returned) × (s.thread ≡ finished))
    ⊎ (((s.main ≡ refused) × (spawn ≡ 1))
        ⊎ ((s.main ≡ waiting) × (s.thread ≡ absent) × (spawn ≢ 0) × (spawn ≢ 1)))

abbrev Progress : ℕ → System → Type 0
Progress spawn s = Settled spawn s ⊎ CanStep spawn s

module _ {spawn : ℕ} (s : System) (v : Inv spawn s) where
  -- The starter has the mutex.
  starter_moves : (m : MainPc) → s.main ≡ m → s.owner ≡ some starter → CanStep spawn s
  starter_moves at_test e o = elim (ℕ_discrete s.condition 0) [
    | yes cleared ↦ (_, pass e cleared)
    | no set ↦ (_, wait e set)
  ]
  starter_moves at_count e o = (_, count e)
  starter_moves at_unlock e o = (_, unlock e)
  starter_moves _ e o = absurd (ground (arith, v.starter_owns))

  -- The journal thread has the mutex.
  thread_moves : (p : ThreadPc) → s.thread ≡ p → s.owner ≡ some journald → CanStep spawn s
  thread_moves clears e o = (_, thread_clear e)
  thread_moves signals e o = (_, thread_signal e)
  thread_moves leaves e o = (_, thread_unlock e)
  thread_moves _ e o = absurd (ground (arith, v.thread_owns))

  creates : s.main ≡ at_create → CanStep spawn s
  creates e = elim (ℕ_discrete spawn 0) [
    | yes done ↦ (_, create_done e done)
    | no other ↦ elim (ℕ_discrete spawn 1) [
      | yes failed ↦ (_, create_refused e failed)
      | no missed ↦ (_, create_missed e other missed)
    ]
  ]

  -- The mutex is free, and the journal thread does not want it.
  main_moves :
      (m : MainPc)
      → s.main ≡ m
      → s.owner ≡ none
      → (s.thread ≡ absent) ⊎ (s.thread ≡ finished)
      → Progress spawn s
  main_moves at_start e o q = inr (_, start e)
  main_moves at_create e o q = inr (creates e)
  main_moves at_lock e o q = inr (_, lock e o)
  main_moves woken e o q = inr (_, relock e o)
  main_moves refused e o q = inl (inr (inl (e, v.noticed e)))
  main_moves returned e o (inr q) = inl (inl (e, q))
  main_moves returned e o (inl q) = absurd (ground (arith, v.passed))
  main_moves waiting e o (inr q) = absurd (ground (arith, v.asleep))
  main_moves waiting e o (inl q) =
      inl (inr (inr (e, q, (λ z. ground (arith, v.running)), v.not_noticed (rw e))))
  main_moves _ e o q = absurd (ground (arith, v.starter_owns))

  -- The mutex is free.
  free_moves : (p : ThreadPc) → s.thread ≡ p → s.owner ≡ none → Progress spawn s
  free_moves absent e o = main_moves s.main refl o (inl e)
  free_moves finished e o = main_moves s.main refl o (inr e)
  free_moves enters e o = inr (_, thread_lock e o)
  free_moves _ e o = absurd (ground (arith, v.thread_owns))

  progress : (o : Option Who) → s.owner ≡ o → Progress spawn s
  progress none o = free_moves s.thread refl o
  progress (some starter) o = inr (starter_moves s.main refl o)
  progress (some journald) o = inr (thread_moves s.thread refl o)

-- No deadlock and no lost wakeup: in every reachable state some thread can take a proper step, or
-- both are done, or `pthread_create` failed: with 1, and the starter has returned that, or with
-- another error, and the starter sleeps with no thread to wake it up.
pub no_lost_wakeup :
    {spawn n k : ℕ} {s : System} → Reach spawn n k s → Settled spawn s ⊎ CanStep spawn s
no_lost_wakeup {s} r = progress s (Reach-Inv r) s.owner refl
