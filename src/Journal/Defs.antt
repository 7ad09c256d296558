-- ===== src/Journal/Defs.antt =====
-- The journal in memory: `struct txd_journal_s` of include/txdriver.h with its wait queues, locks
-- and buffer head. Fields that no function of the source reads or writes are left out.
use tx_driver.Abi.{Member, scalar, list_head_member, sizeof, sizeof_pointer}
use tx_driver.Base.{ℕ, Bool, Option, [], ◌∷◌, List}
use tx_driver.Ondisk.{Superblock}
use tx_driver.Revoke.{RevokeSlots}

-- A pthread lock: not initialised, free or held.
pub data Lock : Type 0 where
  unset free held : Lock

-- `wait_queue_t`; `wq_cnd` says whether the condition variable is initialised.
pub record WaitQueue : Type 0 where
  pub condition : ℕ
  pub wq_mtx : Lock
  pub wq_cnd : Bool

-- `struct txd_buffer_head` at `addr`; `bh_buf` stands for the superblock that it points at.
pub record BufferHead : Type 0 where
  pub addr : ℕ
  pub bh_status : ℕ
  pub bh_buf : Superblock
  pub bh_pno : ℕ

abbrev pub buffer_head_members : List Member
buffer_head_members = scalar 4 ∷ scalar sizeof_pointer ∷ scalar 4 ∷ list_head_member ∷ []

abbrev pub sizeof_buffer_head : ℕ
sizeof_buffer_head = sizeof buffer_head_members

-- `txd_journal_t` at `addr`. The superblock is reached through `j_superblock`; nothing writes to
-- it, so the value stands for the pointer.
pub record Journal (Head : Type 0) : Type 0 where
  pub addr : ℕ
  pub j_flags : ℕ
  pub j_errno : ℕ
  pub j_sb_buffer : Option BufferHead
  pub j_superblock : Option Superblock
  pub j_state_lock : Lock
  pub j_barrier : Lock
  pub j_wait_transaction_locked : WaitQueue
  pub j_wait_done_commit : WaitQueue
  pub j_wait_commit : WaitQueue
  pub j_wait_updates : WaitQueue
  pub j_wait_reserved : WaitQueue
  pub j_checkpoint_mutex : Lock
  pub j_head : ℕ
  pub j_tail : ℕ
  pub j_free : ℕ
  pub j_first : ℕ
  pub j_last : ℕ
  pub j_blocksize : ℕ  -- int
  pub j_blk_offset : ℕ
  pub j_maxlen : ℕ
  pub j_reserved_credits : ℕ  -- int
  pub j_list_lock : Lock
  pub j_tail_sequence : ℕ
  pub j_transaction_sequence : ℕ
  pub j_commit_sequence : ℕ
  pub j_commit_request : ℕ
  pub j_max_transaction_buffers : ℕ
  pub j_commit_interval : ℕ
  pub j_revoke_lock : Lock
  pub revoke : RevokeSlots Head
  pub j_wbuf : Option ℕ
  pub j_wbufsize : ℕ  -- int
  pub j_min_batch_time : ℕ
  pub j_max_batch_time : ℕ
  pub j_failed_commit : ℕ

abbrev pub txd_abort : ℕ
txd_abort = 0x002

abbrev pub txd_flushed : ℕ
txd_flushed = 0x008

abbrev pub txd_loaded : ℕ
txd_loaded = 0x010

abbrev pub journal_revoke_default_hash : ℕ
journal_revoke_default_hash = 256

abbrev pub txd_min_journal_blocks : ℕ
txd_min_journal_blocks = 1024
