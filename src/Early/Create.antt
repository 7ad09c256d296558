-- ===== src/Early/Create.antt =====
-- `txd_journal_init_common` and `txd_get_journal` of src/txdriver_journal.c, with libc's memory and
-- one label for all failures.
--
-- As in the current driver, `sizeof(txd_journal_t*)` bytes are asked for, and the fields past them
-- begin with `garbage`. The one label reads and frees through such fields. The assignments of the
-- geometry are those of the current driver.
use tx_driver.Abi.{sizeof_pointer}
use tx_driver.Base.{
  ℕ, ◌*◌, true, Option, none, some, ◌==◌, if◌then◌else◌, size_of_int, Cmd, pure, ◌>>=◌, ◌>>◌,
}
use tx_driver.Early.Access.{atomic_xchg}
use tx_driver.Early.Revoke.{txd_journal_init_revoke, txd_journal_destroy_revoke}
use tx_driver.Journal.Create
use tx_driver.Journal.Create.{
  new_journal, set_geometry, txd_time_int_commit, txd_time_min_batch, txd_time_max_batch,
  txd_j_commit_interval, txd_j_min_batch_time, txd_j_max_batch_time,
}
use tx_driver.Journal.Defs.{
  BufferHead, Journal, WaitQueue, Lock, sizeof_buffer_head, txd_abort, journal_revoke_default_hash,
}
use tx_driver.Malloc.{Memory, Grants, libc, obtain, give_back}
use tx_driver.Ondisk.{Superblock}
use tx_driver.Revoke.{ListHeads}

-- The condition is not set.
abbrev pub init_wait_queue : WaitQueue → WaitQueue
init_wait_queue wq = record wq { wq_mtx = Lock.free; wq_cnd = true }

abbrev pub getblk : (start blocksize : ℕ) → Option BufferHead
getblk = Create.getblk

module _ (lists : ListHeads) (garbage : Journal lists.Head) where
  open lists use {Head}

  -- The wait queues, locks, times and flags.
  unfoldable pub init_defaults : Journal Head → Journal Head
  init_defaults j = record j {
    j_wait_transaction_locked = init_wait_queue j.j_wait_transaction_locked;
    j_wait_done_commit = init_wait_queue j.j_wait_done_commit;
    j_wait_commit = init_wait_queue j.j_wait_commit;
    j_wait_updates = init_wait_queue j.j_wait_updates;
    j_wait_reserved = init_wait_queue j.j_wait_reserved;
    j_barrier = Lock.free;
    j_checkpoint_mutex = Lock.free;
    j_revoke_lock = Lock.free;
    j_list_lock = Lock.free;
    j_state_lock = Lock.free;
    j_commit_interval = txd_time_int_commit;
    j_min_batch_time = txd_time_min_batch;
    j_max_batch_time = txd_time_max_batch;
    j_reserved_credits = (atomic_xchg j.j_reserved_credits 0).0;
    j_flags = txd_abort;
  }

  -- `calloc(n, sizeof(struct txd_buffer_head*))`: libc is handed both factors, and rejects a product
  -- that overflows, so it is asked for the exact product.
  abbrev pub wbuf_bytes : ℕ → ℕ
  wbuf_bytes n = size_of_int n * sizeof_pointer

  module _ (grants : Grants) where
    -- The label out, with the journal as it stands; the buffer head is not given back.
    unfoldable pub out : Journal Head → Cmd Memory (Option (Journal Head))
    out j = do
      give_back libc j.j_wbuf
      txd_journal_destroy_revoke lists grants j.revoke
      give_back libc (some j.addr)
      pure none

    -- From the geometry to the end, with both revoke tables in `j`.
    unfoldable pub init_wbuf :
        Superblock → (bh : ℕ) → Journal Head → Cmd Memory (Option (Journal Head))
    init_wbuf j_sb bh j = do
      let j' = set_geometry lists garbage j_sb j
      wbuf ← obtain grants libc (wbuf_bytes j'.j_wbufsize)
      elim wbuf [
        | none ↦ out (record j' { j_wbuf = none })
        | some w ↦ pure (
            some (record j' {
              j_wbuf = some w;
              j_sb_buffer = some (record { addr = bh; bh_status = 0; bh_buf = j_sb; bh_pno = 0 });
              j_superblock = some j_sb;
            }))
      ]

    -- From the revoke tables on.
    unfoldable pub init_tables :
        Superblock → (bh : ℕ) → Journal Head → Cmd Memory (Option (Journal Head))
    init_tables j_sb bh j = do
      (err, slots) ← txd_journal_init_revoke lists grants j.revoke journal_revoke_default_hash
      let j' = record j { revoke = slots }
      if err == 0 then init_wbuf j_sb bh j' else out j'

    -- From the buffer head on, with the journal's block at `addr`.
    unfoldable pub init_buffer_head : Superblock → ℕ → Cmd Memory (Option (Journal Head))
    init_buffer_head j_sb addr = do
      bh ← obtain grants libc sizeof_buffer_head
      elim bh [
        | none ↦ out (new_journal lists garbage addr)
        | some b ↦ init_tables j_sb b (init_defaults (new_journal lists garbage addr))
      ]

    unfoldable pub txd_journal_init_common : Superblock → Cmd Memory (Option (Journal Head))
    txd_journal_init_common j_sb = do
      journal ← obtain grants libc sizeof_pointer
      elim journal [ none ↦ pure none | some a ↦ init_buffer_head j_sb a ]

    -- The caller's superblock is a buffer that it has checked, so the assertion holds.
    unfoldable pub txd_get_journal : Superblock → Cmd Memory (Option (Journal Head))
    txd_get_journal j_sb = do
      journal ← txd_journal_init_common j_sb
      elim journal [
        | none ↦ pure none
        | some j ↦ pure (
            some (record j {
              j_commit_interval = txd_j_commit_interval;
              j_min_batch_time = txd_j_min_batch_time;
              j_max_batch_time = txd_j_max_batch_time;
            }))
      ]
