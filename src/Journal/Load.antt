-- ===== src/Journal/Load.antt =====
-- `txd_journal_load` of src/txd_journal.c and what it calls, as commands on the journal that the
-- pointer names. `spawn` is what `pthread_create` returns.
use Prim.Native.Nat.{bit_and, bit_or}
use tx_driver.Base.{
  ℕ, ◌+◌, ◌-◌, ◌/◌, ◌^◌, Bool, Option, none, some, ltb, ◌==◌, if◌then◌else◌, u64, sub32, sub64, ok,
  fault, blocked, Cmd, pure, ◌>>=◌, ◌>>◌,
}
use tx_driver.Journal.Defs.{
  Journal, Lock, txd_abort, txd_flushed, txd_loaded, txd_min_journal_blocks,
}
use tx_driver.Ondisk.{Superblock, txd_success, txd_fail}

abbrev pub txd_true : ℕ
txd_true = 1

-- `j_flags |= mask` and `j_flags &= ~mask`, on an `unsigned long`
abbrev pub set_flag : ℕ → ℕ → ℕ
set_flag flags mask = bit_or flags mask

abbrev pub clear_flag : ℕ → ℕ → ℕ
clear_flag flags mask = bit_and flags (2 ^ 64 - 1 - mask)

module _ (Head : Type 0) where
  -- These five are stubs in the source: each returns a constant. The superblock on disk is never
  -- updated, since the bodies of the last two are compiled out.
  unfoldable pub txd_journal_recover : Cmd (Journal Head) ℕ
  txd_journal_recover = pure txd_success

  unfoldable pub txd_journal_need_recovery : Cmd (Journal Head) ℕ
  txd_journal_need_recovery = pure txd_true

  unfoldable pub txd_wipe_journal_log : Cmd (Journal Head) ℕ
  txd_wipe_journal_log = pure txd_fail

  unfoldable pub txd_journal_destroy : Cmd (Journal Head) ℕ
  txd_journal_destroy = pure txd_fail

  unfoldable pub jbd2_write_superblock : ℕ → Cmd (Journal Head) ℕ
  jbd2_write_superblock write_flags = pure txd_fail

  unfoldable pub txd_journal_update_sb_log_tail :
      (tail_tid tail_block write_op : ℕ) → Cmd (Journal Head) ℕ
  txd_journal_update_sb_log_tail tail_tid tail_block write_op = pure txd_fail

  -- `REQ_FUA`: the enumeration starts at bit 8, and `__REQ_FUA` is the ninth after it.
  abbrev pub req_fua : ℕ
  req_fua = 2 ^ 17

  -- A lock that is taken twice blocks for ever; one that was never initialised is a fault.
  abbrev pub lock_checkpoint : Cmd (Journal Head) (Unit {0})
  lock_checkpoint j = elim j.j_checkpoint_mutex [
    | Lock.free ↦ ok tt (record j { j_checkpoint_mutex = Lock.held })
    | Lock.held ↦ blocked
    | Lock.unset ↦ fault
  ]

  abbrev pub unlock_checkpoint : Cmd (Journal Head) (Unit {0})
  unlock_checkpoint j = ok tt (record j { j_checkpoint_mutex = Lock.free })

  -- `wq->condition = c`
  abbrev pub set_condition : ℕ → Journal Head → Journal Head
  set_condition c j = record j {
    j_wait_done_commit = record (j.j_wait_done_commit) { condition = c };
  }

  -- `pthread_create` and the wait, with the journal thread run to the point where it has signalled.
  -- `Thread` has the interleavings of the two threads. If no thread was created, and the code is
  -- not the one that the source compares with, nobody ever clears the condition.
  unfoldable pub txd_journal_start_thread : (spawn : ℕ) → Cmd (Journal Head) ℕ
  txd_journal_start_thread spawn j =
      if spawn == txd_fail
      then ok txd_fail (set_condition 1 j)
      else elim j.j_wait_done_commit.wq_mtx [
        | Lock.free ↦ if spawn == 0 then ok txd_success (set_condition 1 j) else blocked
        | Lock.held ↦ blocked
        | Lock.unset ↦ fault
      ]

  -- `first + TXD_MIN_JOURNAL_BLOCKS > last + 1`, on `unsigned long long`
  abbrev pub is_too_short : Superblock → Bool
  is_too_short sb = ltb (u64 (sb.s_maxlen + 1)) (u64 (sb.s_first + txd_min_journal_blocks))

  -- The log is made empty.
  unfoldable pub reset_log : Superblock → Journal Head → Journal Head
  reset_log sb j = record j {
    j_first = sb.s_first;
    j_last = sb.s_maxlen;
    j_head = sb.s_first;
    j_tail = sb.s_first;
    j_free = sub64 sb.s_maxlen sb.s_first;
    j_tail_sequence = j.j_transaction_sequence;
    j_commit_sequence = sub32 j.j_transaction_sequence 1;
    j_commit_request = sub32 j.j_transaction_sequence 1;
    j_max_transaction_buffers = j.j_maxlen / 4;
  }

  -- The superblock needs an update unless it says that the log is empty.
  unfoldable pub update_superblock : Superblock → Cmd (Journal Head) (Unit {0})
  unfolding txd_journal_update_sb_log_tail
  update_superblock sb j =
      if sb.s_start == 0
      then ok tt (record j { j_flags = set_flag j.j_flags txd_flushed })
      else (do
        lock_checkpoint
        txd_journal_update_sb_log_tail j.j_tail_sequence j.j_tail req_fua
        unlock_checkpoint)
          j

  -- `j_sb` is read through the pointer of the journal.
  abbrev pub with_superblock :
      Option Superblock → (Superblock → Cmd (Journal Head) ℕ) → Cmd (Journal Head) ℕ
  with_superblock none body j = fault
  with_superblock (some sb) body j = body sb j

  unfoldable pub reset_from : (spawn : ℕ) → Superblock → Cmd (Journal Head) ℕ
  reset_from spawn sb j =
      if is_too_short sb
      then ok txd_fail j
      else (update_superblock sb >> txd_journal_start_thread spawn) (reset_log sb j)

  unfoldable pub txd_journal_reset : (spawn : ℕ) → Cmd (Journal Head) ℕ
  txd_journal_reset spawn j = with_superblock j.j_superblock (reset_from spawn) j

  -- `j_flags &= ~TXD_ABORT; j_flags |= TXD_LOADED;`
  unfoldable pub mark_loaded : Cmd (Journal Head) ℕ
  mark_loaded j =
      ok txd_success (record j { j_flags = set_flag (clear_flag j.j_flags txd_abort) txd_loaded })

  -- The reset, and what follows it.
  unfoldable pub load_clean : (spawn : ℕ) → Cmd (Journal Head) ℕ
  load_clean spawn = do
    err ← txd_journal_reset spawn
    if err == 0 then mark_loaded else pure txd_fail

  -- After a recovery that returned 0.
  unfoldable pub load_recovered : (spawn : ℕ) → Cmd (Journal Head) ℕ
  load_recovered spawn j = if j.j_failed_commit == 0 then load_clean spawn j else ok txd_fail j

  unfoldable pub txd_journal_load : (spawn : ℕ) → Cmd (Journal Head) ℕ
  txd_journal_load spawn = do
    err ← txd_journal_recover
    if err == 0 then load_recovered spawn else pure txd_fail
