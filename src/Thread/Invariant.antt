-- ===== src/Thread/Invariant.antt =====
-- What holds in every reachable state of the start of the journal thread.
use tx_driver.Base.{ℕ, ◌≡◌, ◌≢◌, Bool, true, false, Option, some, arith, if◌then◌else◌}
use tx_driver.Thread.{
  Who, starter, journald, MainPc, at_start, at_create, at_test, waiting, at_count, at_unlock,
  returned, refused, ThreadPc, absent, clears, signals, leaves, finished, System, Step, start,
  create_done, create_refused, create_missed, lock, wait, relock, pass, count, unlock, thread_lock,
  thread_clear, thread_signal, thread_unlock, Spurious, spurious, init, Reach, here, next, wakeup,
}

-- Between taking the mutex and giving it back.
abbrev pub starter_holds : MainPc → Bool
starter_holds at_test = true
starter_holds at_count = true
starter_holds at_unlock = true
starter_holds _ = false

abbrev pub thread_holds : ThreadPc → Bool
thread_holds clears = true
thread_holds signals = true
thread_holds leaves = true
thread_holds _ = false

abbrev pub owned_by_starter : Option Who → Bool
owned_by_starter (some starter) = true
owned_by_starter _ = false

abbrev pub owned_by_thread : Option Who → Bool
owned_by_thread (some journald) = true
owned_by_thread _ = false

-- The thread has set the condition to 0, or has also signalled.
abbrev pub has_cleared : ThreadPc → Bool
has_cleared signals = true
has_cleared leaves = true
has_cleared finished = true
has_cleared _ = false

abbrev pub has_signalled : ThreadPc → Bool
has_signalled leaves = true
has_signalled finished = true
has_signalled _ = false

-- The starter has passed its test, or has also counted.
abbrev pub has_passed : MainPc → Bool
has_passed at_count = true
has_passed at_unlock = true
has_passed returned = true
has_passed _ = false

abbrev pub has_counted : MainPc → Bool
has_counted at_unlock = true
has_counted returned = true
has_counted _ = false

-- Before `pthread_create`, or after it returned an error that is noticed.
abbrev pub is_alone : MainPc → Bool
is_alone at_start = true
is_alone at_create = true
is_alone refused = true
is_alone _ = false

abbrev pub is_absent : ThreadPc → Bool
is_absent absent = true
is_absent _ = false

-- What the condition is once the starter has set it.
abbrev pub value_at : MainPc → ThreadPc → ℕ → ℕ
value_at at_start pc c = c
value_at at_create pc c = 1
value_at m pc c = if has_counted m then 1 else if has_cleared pc then 0 else 1

pub record Inv (spawn : ℕ) (s : System) : Type 0 where
  pub starter_owns : owned_by_starter s.owner ≡ starter_holds s.main
  pub thread_owns : owned_by_thread s.owner ≡ thread_holds s.thread
  pub value : s.condition ≡ value_at s.main s.thread s.condition
  pub alone : is_alone s.main ≡ true → s.thread ≡ absent
  pub passed : has_passed s.main ≡ true → has_cleared s.thread ≡ true
  pub asleep : s.main ≡ waiting → has_signalled s.thread ≡ false
  pub created : is_absent s.thread ≡ false → spawn ≡ 0
  pub running : is_alone s.main ≡ false → spawn ≡ 0 → is_absent s.thread ≡ false
  pub noticed : s.main ≡ refused → spawn ≡ 1
  pub not_noticed : is_alone s.main ≡ false → spawn ≢ 1

pub Step-Inv : {spawn : ℕ} {s t : System} → Step spawn s t → Inv spawn s → Inv spawn t
Step-Inv (start e) v = ground arith
Step-Inv (create_done e f) v = ground arith
Step-Inv (create_refused e f) v = ground arith
Step-Inv (create_missed e f g) v = ground arith
Step-Inv (lock e f) v = ground arith
Step-Inv (wait e f) v = ground arith
Step-Inv (relock e f) v = ground arith
Step-Inv (pass e f) v = ground arith
Step-Inv (count e) v = ground arith
Step-Inv (unlock e) v = ground arith
Step-Inv (thread_lock e f) v = ground arith
Step-Inv (thread_clear e) v = ground arith
Step-Inv (thread_signal e) v = ground arith
Step-Inv (thread_unlock e) v = ground arith

Spurious-Inv : {spawn : ℕ} {s t : System} → Spurious s t → Inv spawn s → Inv spawn t
Spurious-Inv (spurious e) v = ground arith

Inv-init : (spawn : ℕ) → Inv spawn init
Inv-init spawn = ground arith

pub Reach-Inv : {spawn n k : ℕ} {s : System} → Reach spawn n k s → Inv spawn s
Reach-Inv {spawn} here = Inv-init spawn
Reach-Inv (next r st) = Step-Inv st (Reach-Inv r)
Reach-Inv (wakeup r st) = Spurious-Inv st (Reach-Inv r)

-- In every reachable state at most one of the two threads is between taking the mutex and giving it
-- back.
pub mutual_exclusion :
    {spawn n k : ℕ} {s : System}
    → Reach spawn n k s
    → starter_holds s.main ≡ true
    → thread_holds s.thread ≡ false
mutual_exclusion r h = let v = Reach-Inv r in ground (arith, v.starter_owns, v.thread_owns)

-- When `txd_journal_start_thread` has returned success, the thread was created, it has cleared the
-- condition, and the condition is 1, however the two threads were interleaved.
returned_after_signal :
    {spawn n k : ℕ} {s : System}
    → Reach spawn n k s
    → s.main ≡ returned
    → (spawn ≡ 0) × (has_cleared s.thread ≡ true) × (s.condition ≡ 1)
returned_after_signal r e = let v = Reach-Inv r in ground (arith, v.value, v.passed, v.created)
