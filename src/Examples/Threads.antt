-- ===== src/Examples/Threads.antt =====
-- Executions of the start of the journal thread.
use tx_driver.Base.{◌+◌, ◌*◌, ◌≤◌, ◌≡◌, refl, none, some, arith, Bool, ◌⊎◌}
use tx_driver.Examples.{blank}
use tx_driver.Journal.Load.{txd_journal_start_thread}
use tx_driver.Thread.{
  starter, at_test, waiting, woken, returned, enters, finished, System, Step, start, create_done,
  create_refused, create_missed, lock, wait, relock, pass, count, unlock, thread_lock, thread_clear,
  thread_signal, thread_unlock, spurious, Reach, here, next, wakeup,
}
use tx_driver.Thread.Progress.{measure, Settled, CanStep, steps_bounded, no_lost_wakeup}
use tx_driver.Thread.Refinement.{result_of, start_thread-refines}

-- The starter has the mutex, and the new thread wants it.
abbrev contended : System
contended = record { condition = 1; owner = some starter; main = at_test; thread = enters }

Reach-contended : Reach 0 3 0 contended
Reach-contended = next (next (next here (start refl)) (create_done refl refl)) (lock refl refl)

-- The starter sleeps, is woken up for no reason, and sleeps again; then the thread signals.
abbrev ended : System
ended = record { condition = 1; owner = none; main = returned; thread = finished }

Reach-wakeup : Reach 0 6 1 (record { condition = 1; owner = none; main = waiting; thread = enters })
Reach-wakeup =
    next
      (next (wakeup (next Reach-contended (wait refl (omega arith))) (spurious refl))
        (relock refl refl))
      (wait refl (omega arith))

Reach-signalled :
    Reach 0 10 1 (record { condition = 0; owner = none; main = woken; thread = finished })
Reach-signalled =
    next
      (next (next (next Reach-wakeup (thread_lock refl refl)) (thread_clear refl))
        (thread_signal refl))
      (thread_unlock refl)

Reach-ended : Reach 0 14 1 ended
Reach-ended =
    next (next (next (next Reach-signalled (relock refl refl)) (pass refl refl)) (count refl))
      (unlock refl)

ended-stuck : {t : System} → ¬ Step 0 ended t
ended-stuck (start e) = ground arith
ended-stuck (create_done e f) = ground arith
ended-stuck (create_refused e f) = ground arith
ended-stuck (create_missed e f g) = ground arith
ended-stuck (lock e f) = ground arith
ended-stuck (wait e f) = ground arith
ended-stuck (relock e f) = ground arith
ended-stuck (pass e f) = ground arith
ended-stuck (count e) = ground arith
ended-stuck (unlock e) = ground arith
ended-stuck (thread_lock e f) = ground arith
ended-stuck (thread_clear e) = ground arith
ended-stuck (thread_signal e) = ground arith
ended-stuck (thread_unlock e) = ground arith

steps_bounded_example : 14 + measure ended ≤ 27 + 2 * 1
steps_bounded_example = steps_bounded Reach-ended

no_lost_wakeup_example : Settled 0 contended ⊎ CanStep 0 contended
no_lost_wakeup_example = no_lost_wakeup Reach-contended

start_thread-refines_example :
    txd_journal_start_thread Bool 0 blank ≡ result_of Bool blank ended ended.main
start_thread-refines_example =
    start_thread-refines Bool blank refl Reach-ended (λ (t, s). ended-stuck s)
