-- ===== src/Journal/Structs.antt =====
-- The structs of include/txdriver.h as the compiler lays them out: the members of the journal, in full,
-- and of the transactions, handles and inodes, which no function uses yet.
use tx_driver.Abi.{Member, scalar, sizeof, max_align, sizeof_pointer, list_head_member}
use tx_driver.Base.{ℕ, ◌*◌, List, [], ◌∷◌, ◌++◌}

-- The types of libpthread.
pub record Pthread : Type 0 where
  pub mutex : Member
  pub cond : Member
  pub rwlock : Member
  pub spinlock : Member

-- A struct as a member.
abbrev pub nested : List Member → Member
nested fs = record { size = sizeof fs; align = max_align fs }

abbrev pub pointer : Member
pointer = scalar sizeof_pointer

-- `unsigned long`
abbrev pub long : Member
long = scalar 8

abbrev pub int : Member
int = scalar 4

abbrev pub txd_nr_batch : ℕ
txd_nr_batch = 64

-- The states of a transaction, in the order of the enumeration.
pub data TState : Type 0 where
  t_running t_locked t_flush t_commit t_commit_dflush t_commit_jflush t_commit_callback t_finished :
      TState

-- `struct timer_list`: when, what and with what.
abbrev pub timer_members : List Member
timer_members = long ∷ pointer ∷ long ∷ []

abbrev pub revoke_record_members : List Member
revoke_record_members = list_head_member ∷ int ∷ scalar 8 ∷ []

-- `struct txd_buffer_trigger_type`: two callbacks.
abbrev pub trigger_members : List Member
trigger_members = pointer ∷ pointer ∷ []

abbrev pub journal_head_members : List Member
journal_head_members =
    pointer  -- b_bh
    ∷ int  -- b_jcount
    ∷ int  -- b_jlist
    ∷ int  -- b_modified
    ∷ pointer  -- b_frozen_data
    ∷ pointer  -- b_committed_data
    ∷ pointer  -- b_transaction
    ∷ pointer  -- b_next_transaction
    ∷ pointer  -- b_tnext
    ∷ pointer  -- b_tprev
    ∷ pointer  -- b_cp_transaction
    ∷ pointer  -- b_cpnext
    ∷ pointer  -- b_cpprev
    ∷ pointer  -- b_triggers
    ∷ pointer  -- b_frozen_triggers
    ∷ []

abbrev pub chp_stats_members : List Member
chp_stats_members = long ∷ int ∷ int ∷ int ∷ []

-- `struct txd_handle_s`: the six bit-fields share one `unsigned int`.
abbrev pub handle_members : List Member
handle_members =
    pointer  -- h_transaction
    ∷ pointer  -- h_journal
    ∷ int  -- h_buffer_credits
    ∷ int  -- h_ref
    ∷ int  -- h_err
    ∷ int  -- h_sync, h_jdata, h_reserved, h_aborted, h_type, h_line_no
    ∷ long  -- h_start_jiffies
    ∷ int  -- h_requested_credits
    ∷ []

abbrev pub inode_members : List Member
inode_members = pointer ∷ pointer ∷ pointer ∷ list_head_member ∷ []

module _ (p : Pthread) where
  open p use {mutex, cond, rwlock, spinlock}

  abbrev pub wait_queue_members : List Member
  wait_queue_members = int ∷ mutex ∷ cond ∷ []

  -- `struct txd_transaction_s`, up to the list of inodes.
  abbrev pub transaction_lists : List Member
  transaction_lists =
      pointer  -- t_journal
      ∷ int  -- t_tid
      ∷ int  -- t_state
      ∷ long  -- t_log_start
      ∷ int  -- t_nr_buffers
      ∷ pointer  -- t_reserved_list
      ∷ pointer  -- t_buffers
      ∷ pointer  -- t_forget
      ∷ pointer  -- t_checkpoint_list
      ∷ pointer  -- t_checkpoint_io_list
      ∷ pointer  -- t_shadow_list
      ∷ list_head_member  -- t_inode_list
      ∷ []

  -- The rest of it.
  abbrev pub transaction_times : List Member
  transaction_times =
      spinlock  -- t_handle_lock
      ∷ long  -- t_max_wait
      ∷ long  -- t_start
      ∷ long  -- t_requested
      ∷ nested chp_stats_members  -- t_chp_stats
      ∷ int  -- t_updates
      ∷ int  -- t_outstanding_credits
      ∷ pointer  -- t_cpnext
      ∷ pointer  -- t_cpprev
      ∷ long  -- t_expires
      ∷ long  -- t_start_time
      ∷ int  -- t_handle_count
      ∷ int  -- t_synchronous_commit
      ∷ int  -- t_need_data_flush
      ∷ list_head_member  -- t_private_list
      ∷ []

  abbrev pub transaction_members : List Member
  transaction_members = transaction_lists ++ transaction_times

  -- `struct txd_journal_s` behind `j_flags`, up to the wait queues.
  abbrev pub journal_state : List Member
  journal_state =
      int  -- j_errno
      ∷ pointer  -- j_sb_buffer
      ∷ pointer  -- j_superblock
      ∷ rwlock  -- j_state_lock
      ∷ int  -- j_barrier_count
      ∷ mutex  -- j_barrier
      ∷ pointer  -- j_running_transaction
      ∷ pointer  -- j_committing_transaction
      ∷ pointer  -- j_checkpoint_transactions
      ∷ nested wait_queue_members  -- j_wait_transaction_locked
      ∷ nested wait_queue_members  -- j_wait_done_commit
      ∷ nested wait_queue_members  -- j_wait_commit
      ∷ nested wait_queue_members  -- j_wait_updates
      ∷ nested wait_queue_members  -- j_wait_reserved
      ∷ mutex  -- j_checkpoint_mutex
      ∷ record { size = txd_nr_batch * sizeof_pointer; align = sizeof_pointer }  -- j_chkpt_bhs
      ∷ []

  -- The log.
  abbrev pub journal_log : List Member
  journal_log =
      long  -- j_head
      ∷ long  -- j_tail
      ∷ long  -- j_free
      ∷ long  -- j_first
      ∷ long  -- j_last
      ∷ int  -- j_blocksize
      ∷ scalar 8  -- j_blk_offset
      ∷ int  -- j_maxlen
      ∷ int  -- j_reserved_credits
      ∷ spinlock  -- j_list_lock
      ∷ int  -- j_tail_sequence
      ∷ int  -- j_transaction_sequence
      ∷ int  -- j_commit_sequence
      ∷ int  -- j_commit_request
      ∷ []

  -- The commits; `NEED_TO_FIND` is 0, so the timer is compiled out.
  abbrev pub journal_commit : List Member
  journal_commit =
      int  -- j_max_transaction_buffers
      ∷ long  -- j_commit_interval
      ∷ spinlock  -- j_revoke_lock
      ∷ pointer  -- j_revoke
      ∷ record { size = 2 * sizeof_pointer; align = sizeof_pointer }  -- j_revoke_table
      ∷ pointer  -- j_wbuf
      ∷ int  -- j_wbufsize
      ∷ int  -- j_last_sync_writer
      ∷ scalar 8  -- j_average_commit_time
      ∷ int  -- j_min_batch_time
      ∷ int  -- j_max_batch_time
      ∷ pointer  -- j_commit_callback
      ∷ int  -- j_failed_commit
      ∷ pointer  -- j_private
      ∷ []

  -- All but `j_flags`.
  abbrev pub journal_rest : List Member
  journal_rest = journal_state ++ journal_log ++ journal_commit

  abbrev pub journal_members : List Member
  journal_members = long ∷ journal_rest
