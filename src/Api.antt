-- ===== src/Api.antt =====
-- src/txd_api.c, `do_format` of src/txd_journal.c and `main` of src/txd_debugging.c: the entry points of
-- the driver, and the program that calls them.
--
-- The controllers and the device are in the driver's state; the journal that `tx_begin` works on is
-- passed on explicitly. `spawn` is what `pthread_create` returns. What they print is left out; Print
-- has the superblock and the sizes that they print.
pub mod Format
pub mod Untouched
pub mod Begin
pub mod Again
pub mod Behind
pub mod Ends
pub mod FormatKept
pub mod Refusals
pub mod Reject
pub mod Failing
pub mod Crossing
pub mod Outcomes
pub mod Program
use tx_driver.Base.{
  ℕ, ◌*◌, Bool, true, false, Option, none, some, ◌==◌, if◌then◌else◌, replicate, Outcome, ok,
  exited, aborted, fault, blocked, Cmd, pure, ◌>>=◌, ◌>>◌,
}
use tx_driver.Journal.Create.{txd_get_journal}
use tx_driver.Journal.Defs.{Journal}
use tx_driver.Journal.Load.{
  txd_journal_need_recovery, txd_wipe_journal_log, txd_journal_destroy, txd_journal_load,
}
use tx_driver.Malloc.{Grants, txd_zmalloc_spdk, txd_free_spdk, txd_calloc, txd_free}
use tx_driver.Ondisk.{
  clsize, BlockType, Superblock, sizeof_superblock, init_journal_header, chk_txd_sb, txd_success,
  txd_fail,
}
use tx_driver.Ondisk.Layout.{to_bytes, from_bytes}
use tx_driver.Revoke.{ListHeads}
use tx_driver.Spdk.Library.{Library}
use tx_driver.Spdk.Probe.{spdk_init, spdk_alloc_qpair, spdk_free, cleanup}
use tx_driver.Spdk.State.{Driver, on_memory}
use tx_driver.Spdk.Transfer.{Params, spdk_write, spdk_read}

-- `BLK_SIZE`
abbrev pub blk_size : ℕ
blk_size = 0x1000

-- The superblock that `tx_format` fills in, in zeroed memory.
unfoldable pub new_superblock : ℕ → Superblock
new_superblock txd_size = record {
  s_header =
      init_journal_header (record { txd_signature = 0; txd_blocktype = 0; txd_t_id = 0 })
        BlockType.super_block 0;
  s_blocksize = blk_size;
  s_maxlen = txd_size;
  s_first = 1;
  s_sequence = 0;
  s_start = 0;
  s_errno = 0;
  s_padding = replicate 28 0;
}

-- The parameters that `tx_format` fills in.
unfoldable pub format_params : (txd_addr txd_size : ℕ) → Params
format_params txd_addr txd_size = record {
  buf = to_bytes (new_superblock txd_size);
  buf_size = sizeof_superblock;
  buf_align = clsize;
  lba = txd_addr;
  lba_count = 1;
}

-- The parameters with which `tx_begin` reads, over the buffer that `txd_calloc` zeroed.
unfoldable pub begin_params : (txd_addr : ℕ) → Params
begin_params txd_addr = record {
  buf = replicate sizeof_superblock 0;
  buf_size = sizeof_superblock;
  buf_align = clsize;
  lba = txd_addr;
  lba_count = 1;
}

-- `TXD_CHK_FAIL`
abbrev pub txd_chk_fail : {S : Type 0} → ℕ → Cmd S (Unit {0})
txd_chk_fail res s = if res == txd_fail then aborted else ok tt s

-- A call on a journal, made by the driver.
abbrev pub with_journal :
    {Dev Head : Type 0} → Outcome (Journal Head) ℕ → Cmd (Driver Dev) (ℕ × Journal Head)
with_journal (ok a j) d = ok (a, j) d
with_journal (exited n) d = exited n
with_journal aborted d = aborted
with_journal fault d = fault
with_journal blocked d = blocked

-- The three that are stubs: each returns success.
pub tx_write : (meta_buffer data_buffer : ℕ) → ℕ
tx_write meta_buffer data_buffer = txd_success

pub tx_commit : ℕ
tx_commit = txd_success

pub tx_abort : ℕ
tx_abort = txd_success

module _ (lib : Library) (grants : Grants) where
  open lib use {Dev}

  -- `do_format`: prints, and writes.
  unfoldable pub do_format : (patience : ℕ) → Params → Cmd (Driver Dev) ℕ
  do_format patience params = spdk_write lib grants patience params

  -- The superblock is prepared and given back. `init_journal_header` asserts that its buffer is not
  -- NULL. Of the parameters only the buffer is used, to give it back.
  unfoldable pub tx_format : (txd_addr txd_size : ℕ) → Cmd (Driver Dev) ℕ
  tx_format txd_addr txd_size = do
    init_err ← spdk_init lib grants
    txd_chk_fail init_err
    err ← spdk_alloc_qpair lib grants
    txd_chk_fail err
    buf ← on_memory (txd_zmalloc_spdk grants sizeof_superblock)
    elim buf [
      | none ↦ λ d. aborted
      | some p ↦ do on_memory (txd_free_spdk (some p) sizeof_superblock); pure err
    ]

  module _ (patience : ℕ) (lists : ListHeads) (garbage : Journal lists.Head) (spawn : ℕ) where
    open lists use {Head}

    -- The label out1.
    unfoldable pub begin_out_1 : Cmd (Driver Dev) (Option (Journal Head))
    begin_out_1 = do err ← spdk_free lib grants; txd_chk_fail err; cleanup lib grants; pure none

    -- The label out2.
    unfoldable pub begin_out_2 : (buf : ℕ) → Cmd (Driver Dev) (Option (Journal Head))
    begin_out_2 buf = on_memory (txd_free (some buf) (sizeof_superblock * 1)) >> begin_out_1

    -- `if (!txd_journal_need_recovery(journal)) err = txd_wipe_journal_log(journal);`
    unfoldable pub wipe_unless_needed : (err : ℕ) → Cmd (Journal Head) ℕ
    wipe_unless_needed err = do
      needed ← txd_journal_need_recovery Head
      if needed == 0 then txd_wipe_journal_log Head else pure err

    -- From the journal on; the result of the load is dropped.
    unfoldable pub begin_journal :
        (buf err : ℕ) → Journal Head → Cmd (Driver Dev) (Option (Journal Head))
    begin_journal buf err j = do
      (err', j') ← with_journal (wipe_unless_needed err j)
      if err' == txd_fail
          then (do with_journal (txd_journal_destroy Head j'); begin_out_2 buf)
          else (do (_, loaded) ← with_journal (txd_journal_load Head spawn j'); pure (some loaded))

    -- From the superblock on.
    unfoldable pub begin_superblock :
        (buf err txd_size : ℕ) → Superblock → Cmd (Driver Dev) (Option (Journal Head))
    begin_superblock buf err txd_size j_sb =
        if chk_txd_sb j_sb txd_size == 0
        then (do
          journal ← on_memory (txd_get_journal lists garbage grants j_sb)
          elim journal [ none ↦ begin_out_2 buf | some j ↦ begin_journal buf err j ])
        else begin_out_2 buf

    -- From the buffer on.
    unfoldable pub begin_read :
        (txd_addr txd_size buf : ℕ) → Cmd (Driver Dev) (Option (Journal Head))
    begin_read txd_addr txd_size buf = do
      (err, params) ← spdk_read lib grants patience (begin_params txd_addr)
      if err == txd_fail
          then begin_out_2 buf
          else begin_superblock buf err txd_size (from_bytes params.buf)

    unfoldable pub tx_begin : (txd_addr txd_size : ℕ) → Cmd (Driver Dev) (Option (Journal Head))
    tx_begin txd_addr txd_size = do
      buf ← on_memory (txd_calloc grants 1 sizeof_superblock)
      elim buf [ none ↦ begin_out_1 | some b ↦ begin_read txd_addr txd_size b ]

    -- `main` of src/txd_debugging.c, less what it prints.
    unfoldable pub main : Cmd (Driver Dev) ℕ
    main = do tx_format 0 1024; tx_begin 0 1024; pure 0
