-- ===== src/Spdk/Transfer.antt =====
-- `spdk_write` and `spdk_read` of src/txd_spdk.c with their completion callbacks.
--
-- The caller's buffer is its bytes. The loop that polls for the completion runs at most `patience`
-- times here; a command that has not completed by then is taken never to complete. A transfer that
-- is longer than its buffer is taken to leave the memory behind the buffer alone.
use tx_driver.Base.{
  ℕ, zero, suc, Option, none, some, List, ◌++◌, ◌==◌, if◌then◌else◌, take, replicate, ok, exited,
  fault, blocked, Cmd, pure, ◌>>=◌, ◌>>◌,
}
use tx_driver.Malloc.{Grants, spdk, obtain, give_back}
use tx_driver.Ondisk.{txd_success}
use tx_driver.Spdk.Library.{Library}
use tx_driver.Spdk.Probe.{with_qpair}
use tx_driver.Spdk.State.{Driver, on_memory, first_namespace}

-- `struct txd_spdk_params`
pub record Params : Type 0 where
  pub buf : List ℕ
  pub buf_size : ℕ
  pub buf_align : ℕ
  pub lba : ℕ
  pub lba_count : ℕ

module _ (lib : Library) (grants : Grants) (patience : ℕ) where
  open lib use {Dev, cmd_write, cmd_read, process_completions}

  -- One round of the loop: the command has completed, or it is polled for again.
  abbrev pub after_poll :
      Option (List ℕ) × Dev → Cmd (Driver Dev) (List ℕ) → Cmd (Driver Dev) (List ℕ)
  after_poll (none, dev) again d = again (record d { device = dev })
  after_poll (some bytes, dev) again d = ok bytes (record d { device = dev })

  -- `while (!sequence.is_completed) spdk_nvme_qpair_process_completions(...)`
  unfoldable pub poll : (fuel qpair : ℕ) → Cmd (Driver Dev) (List ℕ)
  poll zero qpair d = blocked
  poll (suc fuel) qpair d = after_poll (process_completions d.device qpair) (poll fuel qpair) d

  -- `write_complete`
  unfoldable pub write_complete : ℕ → Cmd (Driver Dev) (Unit {0})
  write_complete dma = on_memory (give_back spdk (some dma))

  -- `read_complete`: `memcpy(sequence->buf_user, sequence->buf, sequence->buf_size)`, the DMA
  -- buffer being what the device wrote over zeros.
  unfoldable pub read_complete : (buf_size dma : ℕ) → List ℕ → Cmd (Driver Dev) (List ℕ)
  read_complete buf_size dma bytes = do
    on_memory (give_back spdk (some dma))
    pure (take buf_size (bytes ++ replicate buf_size 0))

  -- The submission's return code: anything but success ends the program.
  unfoldable pub submit : ℕ × Dev → Cmd (Driver Dev) (Unit {0})
  submit (rc, dev) d = if rc == txd_success then ok tt (record d { device = dev }) else exited 1

  unfoldable pub write_from : Params → (dma : ℕ) → Cmd (Driver Dev) ℕ
  write_from params dma = do
    n ← first_namespace
    with_qpair lib grants n.qpair λ q. do
      (λ d.
          submit
            (cmd_write d.device n.ns q (take params.buf_size params.buf) params.lba
              params.lba_count)
            d)
      poll patience q
      write_complete dma
      pure txd_success

  -- `memcpy` into a NULL buffer is a fault.
  unfoldable pub spdk_write : Params → Cmd (Driver Dev) ℕ
  spdk_write params = do
    dma ← on_memory (obtain grants spdk params.buf_size)
    elim dma [ none ↦ λ d. fault | some p ↦ write_from params p ]

  unfoldable pub read_into : Params → (dma : ℕ) → Cmd (Driver Dev) (ℕ × Params)
  read_into params dma = do
    n ← first_namespace
    with_qpair lib grants n.qpair λ q. do
      (λ d. submit (cmd_read d.device n.ns q params.lba params.lba_count) d)
      bytes ← poll patience q
      buf ← read_complete params.buf_size dma bytes
      pure (txd_success, record params { buf = buf })

  -- Returns the parameters with what was read in their buffer. A NULL DMA buffer is handed on to
  -- SPDK, which is a fault.
  unfoldable pub spdk_read : Params → Cmd (Driver Dev) (ℕ × Params)
  spdk_read params = do
    dma ← on_memory (obtain grants spdk params.buf_size)
    elim dma [ none ↦ λ d. fault | some p ↦ read_into params p ]
