-- ===== src/Journal/Geometry.antt =====
-- `txd_journal_reset`: the log that it leaves, and the cases in which it does not return 0.
use tx_driver.Base.{
  ℕ, ◌+◌, ◌*◌, ◌^◌, ◌<◌, ◌≤◌, ◌≡◌, ◌≢◌, refl, true, false, some, arith, ok, blocked, u32, Returns,
  returns, ◌==◌, if◌then◌else◌, Bool-cases, inl, inr, ap, ◌∙◌,
}
use tx_driver.Journal.Defs.{Journal, Lock, txd_flushed, txd_min_journal_blocks}
use tx_driver.Journal.Load.{
  set_flag, reset_log, update_superblock, txd_journal_start_thread, txd_journal_reset, is_too_short,
  set_condition, reset_from, with_superblock,
}
use tx_driver.Ondisk.{Superblock, txd_success, txd_fail}

module _ (Head : Type 0) where
  -- A journal that `txd_journal_init_common` has set up for `sb`: it points at the superblock, and
  -- the locks that a reset takes are free.
  pub record IsAttached (sb : Superblock) (j : Journal Head) : Type 0 where
    pub superblock : j.j_superblock ≡ some sb
    pub first_fits : sb.s_first < 2 ^ 32
    pub maxlen_fits : sb.s_maxlen < 2 ^ 32
    pub sequence_fits : j.j_transaction_sequence < 2 ^ 32
    pub checkpoint_mutex : j.j_checkpoint_mutex ≡ Lock.free
    pub wq_mtx : j.j_wait_done_commit.wq_mtx ≡ Lock.free

  -- `j'` is `j` with an empty log on the blocks from `s_first` up to `s_maxlen`.
  pub record EmptyLog (sb : Superblock) (j j' : Journal Head) : Type 0 where
    pub head : j'.j_head ≡ sb.s_first
    pub tail : j'.j_tail ≡ j'.j_head
    pub first : j'.j_first ≡ j'.j_head
    pub last : j'.j_last ≡ sb.s_maxlen
    pub free : j'.j_head + j'.j_free ≡ j'.j_last
    pub room : txd_min_journal_blocks ≤ j'.j_free + 1
    pub tail_sequence : j'.j_tail_sequence ≡ j.j_transaction_sequence
    pub committed : u32 (j'.j_commit_sequence + 1) ≡ j.j_transaction_sequence
    pub request : j'.j_commit_request ≡ j'.j_commit_sequence
    pub transaction_buffers : 4 * j'.j_max_transaction_buffers ≤ j.j_maxlen
    pub flags : j'.j_flags ≡ (if sb.s_start == 0 then set_flag j.j_flags txd_flushed else j.j_flags)
    pub checkpoint_mutex : j'.j_checkpoint_mutex ≡ Lock.free
    pub condition : j'.j_wait_done_commit.condition ≡ 1
    pub failed_commit : j'.j_failed_commit ≡ j.j_failed_commit
    pub superblock : j'.j_superblock ≡ some sb

  too_short-true :
      (sb : Superblock)
      → sb.s_first < 2 ^ 32
      → sb.s_maxlen < 2 ^ 32
      → sb.s_maxlen + 1 < sb.s_first + txd_min_journal_blocks
      → is_too_short Head sb ≡ true
  too_short-true sb a b h = ground arith

  too_short-false :
      (sb : Superblock)
      → sb.s_first < 2 ^ 32
      → sb.s_maxlen < 2 ^ 32
      → sb.s_first + txd_min_journal_blocks ≤ sb.s_maxlen + 1
      → is_too_short Head sb ≡ false
  too_short-false sb a b h = ground arith

  reset_attached :
      (sb : Superblock) (j : Journal Head) (spawn : ℕ)
      → IsAttached sb j
      → txd_journal_reset Head spawn j ≡ reset_from Head spawn sb j
  unfolding txd_journal_reset
  reset_attached sb j spawn a =
      ap (λ o. with_superblock Head o (reset_from Head spawn) j) a.superblock

  -- A log of fewer than 1023 blocks is refused, and the journal stays as it is.
  pub reset_too_short :
      (sb : Superblock) (j : Journal Head) (spawn : ℕ)
      → IsAttached sb j
      → sb.s_maxlen + 1 < sb.s_first + txd_min_journal_blocks
      → txd_journal_reset Head spawn j ≡ ok txd_fail j
  unfolding reset_from
  reset_too_short sb j spawn a short =
      reset_attached sb j spawn a ∙ rw (too_short-true sb a.first_fits a.maxlen_fits short)

  -- Both ways through `update_superblock` leave the checkpoint mutex free and the log alone.
  pub update_superblock_lem :
      (sb : Superblock) (j : Journal Head)
      → j.j_checkpoint_mutex ≡ Lock.free
      → update_superblock Head sb j
        ≡ ok tt (record j {
          j_flags = if sb.s_start == 0 then set_flag j.j_flags txd_flushed else j.j_flags;
          j_checkpoint_mutex = Lock.free;
        })
  unfolding update_superblock
  update_superblock_lem sb j h = elim (Bool-cases (sb.s_start == 0)) [
    | inl recovered ↦ rw (recovered, h)
    | inr used ↦ rw (used, h)
  ]

  module _ (sb : Superblock) (j : Journal Head) (a : IsAttached sb j)
      (long : sb.s_first + txd_min_journal_blocks ≤ sb.s_maxlen + 1) where
    -- The journal when the thread is started.
    abbrev emptied : Journal Head
    emptied = record (reset_log Head sb j) {
      j_flags = if sb.s_start == 0 then set_flag j.j_flags txd_flushed else j.j_flags;
      j_checkpoint_mutex = Lock.free;
    }

    reset-starts :
        (spawn : ℕ) → txd_journal_reset Head spawn j ≡ txd_journal_start_thread Head spawn emptied
    unfolding reset_from reset_log
    reset-starts spawn =
        reset_attached sb j spawn a
        ∙ rw (too_short-false sb a.first_fits a.maxlen_fits long)
            (rw (update_superblock_lem sb (reset_log Head sb j) mutex))
      where
        mutex : (reset_log Head sb j).j_checkpoint_mutex ≡ Lock.free
        mutex = a.checkpoint_mutex

    emptied-EmptyLog : EmptyLog sb j (set_condition Head 1 emptied)
    unfolding reset_log
    emptied-EmptyLog = record {
      head = refl;
      tail = refl;
      first = refl;
      last = refl;
      free = omega (arith, long, a.maxlen_fits);
      room = omega (arith, long, a.maxlen_fits);
      tail_sequence = refl;
      committed = omega (arith, a.sequence_fits);
      request = refl;
      transaction_buffers = omega arith;
      flags = refl;
      checkpoint_mutex = refl;
      condition = refl;
      failed_commit = refl;
      superblock = a.superblock;
    }

    emptied_wq : emptied.j_wait_done_commit.wq_mtx ≡ Lock.free
    unfolding reset_log
    emptied_wq = a.wq_mtx

    -- A log that is long enough, and a thread that starts: the reset returns 0, and leaves an empty
    -- log with all its blocks free, the sequence numbers in step and the journal thread signalled.
    pub reset-EmptyLog :
        Returns (λ err j'. (err ≡ txd_success) × EmptyLog sb j j') (txd_journal_reset Head 0 j)
    unfolding txd_journal_start_thread
    reset-EmptyLog = rw (reset-starts 0) (rw emptied_wq (returns (refl, emptied-EmptyLog)))

    -- If `pthread_create` returns 1, so does the reset, after the log was made empty.
    pub reset_thread_refused :
        Returns (λ err j'. (err ≡ txd_fail) × EmptyLog sb j j') (txd_journal_reset Head 1 j)
    unfolding txd_journal_start_thread
    reset_thread_refused = rw (reset-starts 1) (returns (refl, emptied-EmptyLog))

    -- With any other error of `pthread_create` the reset never returns.
    pub reset_thread_missing :
        (spawn : ℕ) → spawn ≢ 0 → spawn ≢ 1 → txd_journal_reset Head spawn j ≡ blocked
    unfolding txd_journal_start_thread
    reset_thread_missing spawn h k = rw (reset-starts spawn) (ground (arith, emptied_wq))
