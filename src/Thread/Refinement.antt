-- ===== src/Thread/Refinement.antt =====
-- The interleaved start against `txd_journal_start_thread` as one command on the journal.
use tx_driver.Base.{ℕ, ◌≡◌, arith, ok, blocked, Outcome, inl, inr}
use tx_driver.Journal.Defs.{Journal, Lock}
use tx_driver.Journal.Load.{txd_journal_start_thread, set_condition}
use tx_driver.Ondisk.{txd_success, txd_fail}
use tx_driver.Thread.{System, MainPc, returned, refused, Reach}
use tx_driver.Thread.Invariant.{Reach-Inv}
use tx_driver.Thread.Progress.{CanStep, no_lost_wakeup}

-- What a state in which nobody can take a step means for the caller.
abbrev pub result_of : (Head : Type 0) → Journal Head → System → MainPc → Outcome (Journal Head) ℕ
result_of Head j s returned = ok txd_success (set_condition Head s.condition j)
result_of Head j s refused = ok txd_fail (set_condition Head s.condition j)
result_of Head j s _ = blocked

-- Every execution of the two threads that can go no further ends as the command says: with its
-- return value and its condition, or asleep for ever where the command never returns.
pub start_thread-refines :
    (Head : Type 0) (j : Journal Head) {spawn n k : ℕ} {s : System}
    → j.j_wait_done_commit.wq_mtx ≡ Lock.free
    → Reach spawn n k s
    → ¬ CanStep spawn s
    → txd_journal_start_thread Head spawn j ≡ result_of Head j s s.main
unfolding txd_journal_start_thread
start_thread-refines Head j {spawn} {s = s} mutex r stuck = elim (no_lost_wakeup r) [
  | inr more ↦ absurd (stuck more)
  | inl settled ↦ ground (
    arith,
    (Reach-Inv r).value,
    (Reach-Inv r).alone,
    settled,
    (Reach-Inv r).passed,
    (Reach-Inv r).created,
  )
]
