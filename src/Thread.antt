-- ===== src/Thread.antt =====
-- `txd_journal_start_thread` and `txd_journald` of src/txd_journal.c, interleaved: the starter sets
-- `condition`, creates the journal thread and waits on the condition variable; the journal thread
-- clears the condition and signals. `spawn` is what `pthread_create` returns.
--
-- Each step is one statement on the shared wait queue. `pthread_cond_wait` gives up the mutex and
-- sleeps in one step, and may wake up with no signal. `sleep(5)` and the thread's end touch nothing
-- shared, and are the state `finished`.
pub mod Invariant
pub mod Progress
pub mod Refinement
use tx_driver.Base.{ℕ, ◌+◌, ◌≡◌, ◌≢◌, Option, none, some, u32}

pub data Who : Type 0 where
  starter journald : Who

-- The statement at which `txd_journal_start_thread` stands.
pub data MainPc : Type 0 where
  at_start : MainPc  -- `wq->condition = 1`
  at_create : MainPc  -- `pthread_create`
  at_lock : MainPc  -- `pthread_mutex_lock`
  at_test : MainPc  -- `while (wq->condition)`
  waiting : MainPc  -- asleep in `pthread_cond_wait`
  woken : MainPc  -- awake in `pthread_cond_wait`, without the mutex
  at_count : MainPc  -- `wq->condition++`
  at_unlock : MainPc  -- `pthread_mutex_unlock`
  returned : MainPc  -- returned `TXD_SUCCESS`
  refused : MainPc  -- returned `err`, which is `TXD_FAIL`

-- The statement at which `txd_journald` stands.
pub data ThreadPc : Type 0 where
  absent : ThreadPc
  enters : ThreadPc  -- `pthread_mutex_lock`
  clears : ThreadPc  -- `wq->condition = 0`
  signals : ThreadPc  -- `pthread_cond_signal`
  leaves : ThreadPc  -- `pthread_mutex_unlock`
  finished : ThreadPc

pub record System : Type 0 where
  pub condition : ℕ  -- int
  pub owner : Option Who  -- of `wq_mtx`
  pub main : MainPc
  pub thread : ThreadPc

abbrev pub wake : MainPc → MainPc
wake waiting = woken
wake pc = pc

pub data Step (spawn : ℕ) (s : System) : System → Type 0 where
  start : s.main ≡ at_start → Step spawn s (record s { condition = 1; main = at_create })
  create_done :
      s.main ≡ at_create → spawn ≡ 0 → Step spawn s (record s { main = at_lock; thread = enters })
  create_refused : s.main ≡ at_create → spawn ≡ 1 → Step spawn s (record s { main = refused })
  create_missed :
      s.main ≡ at_create → spawn ≢ 0 → spawn ≢ 1 → Step spawn s (record s { main = at_lock })
  lock :
      s.main ≡ at_lock
      → s.owner ≡ none
      → Step spawn s (record s { owner = some starter; main = at_test })
  wait :
      s.main ≡ at_test → s.condition ≢ 0 → Step spawn s (record s { owner = none; main = waiting })
  relock :
      s.main ≡ woken
      → s.owner ≡ none
      → Step spawn s (record s { owner = some starter; main = at_test })
  pass : s.main ≡ at_test → s.condition ≡ 0 → Step spawn s (record s { main = at_count })
  count :
      s.main ≡ at_count
      → Step spawn s (record s { condition = u32 (s.condition + 1); main = at_unlock })
  unlock : s.main ≡ at_unlock → Step spawn s (record s { owner = none; main = returned })
  thread_lock :
      s.thread ≡ enters
      → s.owner ≡ none
      → Step spawn s (record s { owner = some journald; thread = clears })
  thread_clear : s.thread ≡ clears → Step spawn s (record s { condition = 0; thread = signals })
  thread_signal :
      s.thread ≡ signals → Step spawn s (record s { main = wake s.main; thread = leaves })
  thread_unlock : s.thread ≡ leaves → Step spawn s (record s { owner = none; thread = finished })

-- A spurious wakeup.
pub data Spurious (s : System) : System → Type 0 where
  spurious : s.main ≡ waiting → Spurious s (record s { main = woken })

-- `init_wait_queue` has set the condition to 0 and made the mutex.
abbrev pub init : System
init = record { condition = 0; owner = none; main = at_start; thread = absent }

-- The states after `steps` proper steps and `wakeups` spurious wakeups.
pub data Reach (spawn : ℕ) : (steps wakeups : ℕ) → System → Type 0 where
  here : Reach spawn 0 0 init
  next : {n k : ℕ} {s t : System} → Reach spawn n k s → Step spawn s t → Reach spawn (n + 1) k t
  wakeup : {n k : ℕ} {s t : System} → Reach spawn n k s → Spurious s t → Reach spawn n (k + 1) t
