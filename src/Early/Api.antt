-- ===== src/Early/Api.antt =====
-- src/txdriver_api.c and src/txdriver_debugging.c, and `do_format` of src/txdriver_journal.c.
--
-- The header functions, `chk_txd_sb` and the parameters with which `tx_begin` reads are those of the
-- current driver. What is printed is left out.
use tx_driver.Api.{new_superblock, begin_params, txd_chk_fail, with_journal}
use tx_driver.Base.{
  ℕ, ◌*◌, ◌/◌, Option, none, some, ltb, ◌==◌, if◌then◌else◌, u32, fault, Cmd, pure, ◌>>=◌, ◌>>◌,
  aborted,
}
use tx_driver.Early.Access.{
  chk_txd_sb, spdk_init, spdk_alloc_qpair, spdk_free, cleanup, spdk_write, spdk_read,
}
use tx_driver.Early.Create.{txd_get_journal}
use tx_driver.Early.Load.{
  txd_journal_need_recovery, txd_wipe_journal_log, txd_journal_destroy, txd_journal_load,
}
use tx_driver.Journal.Defs.{Journal}
use tx_driver.Malloc.{Grants, libc, obtain}
use tx_driver.Ondisk.{clsize, Superblock, sizeof_superblock, txd_success}
use tx_driver.Ondisk.Layout.{to_bytes, from_bytes}
use tx_driver.Revoke.{ListHeads}
use tx_driver.Spdk.Library.{Library}
use tx_driver.Spdk.State.{Driver, on_memory}
use tx_driver.Spdk.Transfer.{Params}

abbrev pub lba_unit : ℕ
lba_unit = 0x0200

-- `txd_size * LBA_UNIT`, a product of `uint32_t`
abbrev pub format_bytes : ℕ → ℕ
format_bytes txd_size = u32 (txd_size * lba_unit)

-- The parameters that `tx_format` fills in. Of the buffer the superblock at its front is listed; the
-- rest is zeros, and `buf_size` leaves it out of the transfer.
unfoldable pub format_params : (txd_addr txd_size : ℕ) → Params
format_params txd_addr txd_size = record {
  buf = to_bytes (new_superblock txd_size);
  buf_size = sizeof_superblock;
  buf_align = clsize;
  lba = txd_addr / lba_unit;
  lba_count = txd_size / lba_unit;
}

module _ (lib : Library) (grants : Grants) (patience : ℕ) where
  open lib use {Dev}

  -- `do_format`: prints, and writes.
  unfoldable pub do_format : Params → Cmd (Driver Dev) ℕ
  do_format params = spdk_write lib grants patience params

  -- From the buffer on. `init_journal_header` asserts that it is not NULL; the superblock is stored
  -- into it, which is a fault where it is shorter than that.
  unfoldable pub format_from : (txd_addr txd_size : ℕ) → Cmd (Driver Dev) ℕ
  format_from txd_addr txd_size = do
    buf ← on_memory (obtain grants libc (format_bytes txd_size))
    elim buf [
      | none ↦ λ d. aborted
      | some p ↦
          if ltb (format_bytes txd_size) sizeof_superblock
          then (λ d. fault)
          else do_format (format_params txd_addr txd_size)
    ]

  unfoldable pub tx_format : (txd_addr txd_size : ℕ) → Cmd (Driver Dev) ℕ
  tx_format txd_addr txd_size = do
    init_err ← spdk_init lib grants
    txd_chk_fail init_err
    alloc_err ← spdk_alloc_qpair lib grants
    txd_chk_fail alloc_err
    format_from txd_addr txd_size

  module _ (lists : ListHeads) (garbage : Journal lists.Head) where
    open lists use {Head}

    -- The label out.
    unfoldable pub begin_out : Cmd (Driver Dev) (Option (Journal Head))
    begin_out = do err ← spdk_free lib grants; txd_chk_fail err; cleanup lib grants; pure none

    -- `if (!txd_journal_need_recovery(journal)) err = txd_wipe_journal_log(journal);`
    unfoldable pub wipe_unless_needed : (err : ℕ) → Cmd (Journal Head) ℕ
    wipe_unless_needed err = do
      needed ← txd_journal_need_recovery Head
      if needed == 0 then txd_wipe_journal_log Head else pure err

    -- `if (!err) err = txd_journal_load(journal);`
    unfoldable pub load_unless : (err : ℕ) → Cmd (Journal Head) ℕ
    load_unless err = do
      err' ← wipe_unless_needed err
      if err' == 0 then txd_journal_load Head else pure err'

    -- From the journal on.
    unfoldable pub begin_journal :
        (err : ℕ) → Journal Head → Cmd (Driver Dev) (Option (Journal Head))
    begin_journal err j = do
      (err', j') ← with_journal (load_unless err j)
      if err' == 0
          then pure (some j')
          else (do with_journal (txd_journal_destroy Head j'); begin_out)

    -- From what `txd_get_journal` returns on.
    unfoldable pub begin_created :
        (err : ℕ) → Option (Journal Head) → Cmd (Driver Dev) (Option (Journal Head))
    begin_created err none = begin_out
    begin_created err (some j) = begin_journal err j

    -- From the superblock on.
    unfoldable pub begin_superblock :
        (err txd_size : ℕ) → Superblock → Cmd (Driver Dev) (Option (Journal Head))
    begin_superblock err txd_size j_sb =
        if chk_txd_sb j_sb txd_size == 0
        then (do
          journal ← on_memory (txd_get_journal lists garbage grants j_sb)
          begin_created err journal)
        else begin_out

    -- The read into the buffer, which is a fault at the end of the transfer if the buffer is NULL.
    unfoldable pub begin_read : (txd_addr : ℕ) → (buf : Option ℕ) → Cmd (Driver Dev) (ℕ × Params)
    begin_read txd_addr none = spdk_read lib grants patience (begin_params txd_addr) >> (λ d. fault)
    begin_read txd_addr (some p) = spdk_read lib grants patience (begin_params txd_addr)

    -- The buffer is not given back.
    unfoldable pub tx_begin : (txd_addr txd_size : ℕ) → Cmd (Driver Dev) (Option (Journal Head))
    tx_begin txd_addr txd_size = do
      buf ← on_memory (obtain grants libc sizeof_superblock)
      (err, params) ← begin_read txd_addr buf
      txd_chk_fail err
      begin_superblock err txd_size (from_bytes params.buf)

    -- `main` of src/txdriver_debugging.c.
    unfoldable pub main : Cmd (Driver Dev) ℕ
    main = do tx_format 0 512; tx_begin 0 512; pure 0

-- The three that are stubs: each returns success.
pub tx_write : (meta_buffer data_buffer : ℕ) → ℕ
tx_write meta_buffer data_buffer = txd_success

pub tx_commit : ℕ
tx_commit = txd_success

pub tx_abort : ℕ
tx_abort = txd_success
