-- ===== src/Journal/Create.antt =====
-- `txd_journal_init_common` and `txd_get_journal` of src/txd_journal.c.
--
-- The source asks for `sizeof(txd_journal_t*)` bytes for the journal, so the allocator zeroes the
-- first 8 bytes, which hold `j_flags`, and the other fields begin with whatever that memory holds:
-- the parameter `garbage`. Stores past the 8 bytes are taken to reach the fields that they name.
use tx_driver.Abi.{sizeof_pointer}
use tx_driver.Atomic.{atomic_xchg}
use tx_driver.Base.{
  ℕ, ◌*◌, ◌/◌, true, Option, none, some, ◌==◌, if◌then◌else◌, u32, u64, size_of_int, Cmd, pure,
  ◌>>=◌, ◌>>◌,
}
use tx_driver.Journal.Defs.{
  BufferHead, Journal, WaitQueue, Lock, sizeof_buffer_head, txd_abort, journal_revoke_default_hash,
}
use tx_driver.Malloc.{Memory, Grants, txd_zmalloc_spdk, txd_free_spdk}
use tx_driver.Ondisk.{Superblock, sizeof_block_tag}
use tx_driver.Revoke.{ListHeads, RevokeSlots, txd_journal_init_revoke, txd_journal_destroy_revoke}

abbrev pub txd_time_int_commit : ℕ
txd_time_int_commit = 5

abbrev pub txd_time_min_batch : ℕ
txd_time_min_batch = 0

abbrev pub txd_time_max_batch : ℕ
txd_time_max_batch = 15000

abbrev pub txd_j_commit_interval : ℕ
txd_j_commit_interval = 5

abbrev pub txd_j_min_batch_time : ℕ
txd_j_min_batch_time = 0

abbrev pub txd_j_max_batch_time : ℕ
txd_j_max_batch_time = 15000

-- Every field of the wait queue is set.
abbrev pub init_wait_queue : WaitQueue
init_wait_queue = record { condition = 0; wq_mtx = Lock.free; wq_cnd = true }

-- A stub: there is never a buffer.
pub getblk : (start blocksize : ℕ) → Option BufferHead
getblk start blocksize = none

module _ (lists : ListHeads) (garbage : Journal lists.Head) where
  open lists use {Head}

  -- The block of the journal as `txd_zmalloc_spdk` hands it over.
  unfoldable pub new_journal : ℕ → Journal Head
  new_journal addr = record garbage { addr = addr; j_flags = 0 }

  -- The wait queues, locks, times and flags, which are set before anything can fail.
  unfoldable pub init_defaults : Journal Head → Journal Head
  unfolding atomic_xchg
  init_defaults j = record j {
    j_wait_transaction_locked = init_wait_queue;
    j_wait_done_commit = init_wait_queue;
    j_wait_commit = init_wait_queue;
    j_wait_updates = init_wait_queue;
    j_wait_reserved = init_wait_queue;
    j_barrier = Lock.free;
    j_checkpoint_mutex = Lock.free;
    j_revoke_lock = Lock.free;
    j_list_lock = Lock.free;
    j_state_lock = Lock.free;
    j_commit_interval = txd_time_int_commit;
    j_min_batch_time = txd_time_min_batch;
    j_max_batch_time = txd_time_max_batch;
    j_reserved_credits = (atomic_xchg j.j_reserved_credits 0).0;
    j_flags = txd_abort;
  }

  -- `n = journal_t->j_blocksize / sizeof(txd_journal_block_tag_t)`: the `int` is divided as a
  -- `size_t`, and the quotient is an `int` again.
  abbrev pub tags_per_block : ℕ → ℕ
  tags_per_block j_blocksize = u32 (size_of_int j_blocksize / sizeof_block_tag)

  -- What is taken over from the superblock.
  unfoldable pub set_geometry : Superblock → Journal Head → Journal Head
  set_geometry j_sb j = record j {
    j_blk_offset = j_sb.s_first;
    j_maxlen = j_sb.s_maxlen;
    j_blocksize = j_sb.s_blocksize;
    j_tail_sequence = j_sb.s_sequence;
    j_tail = j_sb.s_start;
    j_first = j_sb.s_first;
    j_last = j_sb.s_maxlen;
    j_errno = j_sb.s_errno;
    j_wbufsize = tags_per_block j_sb.s_blocksize;
  }

  -- `n * sizeof(struct txd_buffer_head*)`
  abbrev pub wbuf_bytes : ℕ → ℕ
  wbuf_bytes n = u64 (size_of_int n * sizeof_pointer)

  module _ (grants : Grants) where
    unfoldable pub out_1 : ℕ → Cmd Memory (Option (Journal Head))
    out_1 journal = txd_free_spdk (some journal) sizeof_pointer >> pure none

    unfoldable pub out_2 : (journal bh : ℕ) → Cmd Memory (Option (Journal Head))
    unfolding out_1
    out_2 journal bh = txd_free_spdk (some bh) sizeof_buffer_head >> out_1 journal

    unfoldable pub out_3 : (journal bh : ℕ) → RevokeSlots Head → Cmd Memory (Option (Journal Head))
    unfolding out_2
    out_3 journal bh slots = txd_journal_destroy_revoke lists grants slots >> out_2 journal bh

    -- From the geometry to the end, with both revoke tables in `j`.
    unfoldable pub init_wbuf :
        Superblock → (bh : ℕ) → Journal Head → Cmd Memory (Option (Journal Head))
    unfolding out_3 set_geometry
    init_wbuf j_sb bh j = do
      let j' = set_geometry j_sb j
      wbuf ← txd_zmalloc_spdk grants (wbuf_bytes j'.j_wbufsize)
      elim wbuf [
        | none ↦ out_3 j'.addr bh j'.revoke
        | some w ↦ pure (
            some (record j' {
              j_wbuf = some w;
              j_sb_buffer = some (record { addr = bh; bh_status = 0; bh_buf = j_sb; bh_pno = 0 });
              j_superblock = some j_sb;
            }))
      ]

    -- From the revoke tables on.
    unfoldable pub init_tables :
        Superblock → (bh : ℕ) → Journal Head → Cmd Memory (Option (Journal Head))
    unfolding init_wbuf
    init_tables j_sb bh j = do
      (err, slots) ← txd_journal_init_revoke lists grants j.revoke journal_revoke_default_hash
      if err == 0 then init_wbuf j_sb bh (record j { revoke = slots }) else out_2 j.addr bh

    -- From the buffer head on, with the journal's block at `addr`.
    unfoldable pub init_buffer_head : Superblock → ℕ → Cmd Memory (Option (Journal Head))
    unfolding init_tables init_defaults new_journal
    init_buffer_head j_sb addr = do
      bh ← txd_zmalloc_spdk grants sizeof_buffer_head
      elim bh [ none ↦ out_1 addr | some b ↦ init_tables j_sb b (init_defaults (new_journal addr)) ]

    unfoldable pub txd_journal_init_common : Superblock → Cmd Memory (Option (Journal Head))
    unfolding init_buffer_head
    txd_journal_init_common j_sb = do
      journal ← txd_zmalloc_spdk grants sizeof_pointer
      elim journal [ none ↦ pure none | some a ↦ init_buffer_head j_sb a ]

    -- The caller's superblock is a buffer that it has checked, so the assertion holds.
    unfoldable pub txd_get_journal : Superblock → Cmd Memory (Option (Journal Head))
    unfolding txd_journal_init_common
    txd_get_journal j_sb = do
      journal ← txd_journal_init_common j_sb
      elim journal [
        | none ↦ pure none
        | some j ↦ pure (
            some (record j {
              j_commit_interval = txd_j_commit_interval;
              j_min_batch_time = txd_j_min_batch_time;
              j_max_batch_time = txd_j_max_batch_time;
            }))
      ]
