-- ===== src/Spdk/Roundtrip.antt =====
-- A write and then a read of src/txd_spdk.c on a device that serves every command.
use tx_driver.Base.{ℕ, suc, ◌≡◌, refl, true, List, length, ◌>>◌, Returns, returns, ◌≤◌, ◌*◌}
use tx_driver.Malloc.{Grants, spdk}
use tx_driver.Ondisk.{txd_success}
use tx_driver.Spdk.Library.{Library}
use tx_driver.Spdk.State.{Driver, NsEntry}
use tx_driver.Spdk.Transfer.{Params, spdk_write, spdk_read}
use tx_driver.Spdk.Polling.{
  Disk, Usable, served, served-Usable, spdk_write-stores, spdk_read-fetches,
}

module _ (lib : Library) (grants : Grants) (patience : ℕ) where
  open lib use {Dev}

  -- `spdk_write` and then `spdk_read` of the same blocks with a buffer of the same size, on a device
  -- that serves every command within the polls, with the DMA requests granted: both return success,
  -- the second buffer holds what the first one held, and both DMA buffers are given back.
  pub write-read :
      (disk : Disk lib patience) (d : Driver Dev) (n : NsEntry) (q : ℕ) (params : Params)
      (old : List ℕ)
      → Usable lib grants patience d n q
      → length params.buf ≡ params.buf_size
      → params.buf_size ≤ 512 * params.lba_count
      → grants spdk d.memory.serial params.buf_size ≡ true
      → grants spdk (suc d.memory.serial) params.buf_size ≡ true
      → Returns
          (λ (rc, out) d'.
            (rc ≡ txd_success)
            × (out.buf ≡ params.buf)
            × (d'.memory.live ≡ d.memory.live)
            × (d'.memory.allocated_mem_size ≡ d.memory.allocated_mem_size)
            × (d'.g_namespaces ≡ d.g_namespaces))
          ((do
            spdk_write lib grants patience params
            spdk_read lib grants patience (record params { buf = old }))
            d)
  write-read disk d n q params old u len blocks granted₁ granted₂ =
      let (e, tail, written, kept) =
        spdk_write-stores lib grants patience disk d n q params u len blocks granted₁ in
      let (e', fetched) =
        spdk_read-fetches lib grants patience disk (served lib grants patience e d) n q
          (record params { buf = old }) params.buf tail
          (served-Usable lib grants patience d n q e u) len granted₂ kept in
      rw written (rw fetched (returns (refl, refl, refl, refl, refl)))
