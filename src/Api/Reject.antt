-- ===== src/Api/Reject.antt =====
-- `tx_begin` on a device that holds no superblock of the expected size.
use tx_driver.Base.{
  ℕ, ◌^◌, ◌<◌, ◌≡◌, ◌≢◌, refl, subst, ap, ◌∙◌, none, some, List, ◌++◌, arith, length, ok, fault,
  Returns, returns, Returns-bind, sub64-add, ◌==◌, Bool-cases, inl, inr, ◌*◌,
}
use tx_driver.Api.{begin_params, begin_out_1, begin_out_2, begin_superblock, begin_read, tx_begin}
use tx_driver.Journal.Defs.{Journal}
use tx_driver.Malloc.{Memory, Grants, libc, txd_free}
use tx_driver.Malloc.Accounting.{free_steps}
use tx_driver.Malloc.Owned.{take_back-head}
use tx_driver.Ondisk.{chk_txd_sb, sizeof_superblock, txd_fail}
use tx_driver.Ondisk.Layout.{from_bytes}
use tx_driver.Revoke.{ListHeads}
use tx_driver.Spdk.Cleanup.{namespace_addrs, controller_addrs, Released}
use tx_driver.Spdk.Dangling.{cleanup-dangles}
use tx_driver.Spdk.Held.{Below, Holding}
use tx_driver.Spdk.Library.{Library}
use tx_driver.Spdk.Polling.{Disk, Usable, served, spdk_read-fetches}
use tx_driver.Spdk.Probe.{spdk_alloc_qpair, spdk_free}
use tx_driver.Spdk.State.{Driver, NsEntry, on_memory, on_memory_ok, first_namespace_live}
use tx_driver.Api.Begin.{IsGenerous, with_buffer, calloc_buffer, buffer-Usable}

module _ (lib : Library) (grants : Grants) (patience : ℕ) (lists : ListHeads)
    (garbage : Journal lists.Head) (spawn : ℕ) where
  open lib use {Dev}

  -- The counter is as before, and so are the lists; all that they hold has been released: the queue pair
  -- `q`, and then every controller, was given back to SPDK, and no entry is live.
  abbrev pub Closed : (q : ℕ) → Driver Dev → Driver Dev → Type 0
  Closed q d d' =
      (d'.memory.allocated_mem_size ≡ d.memory.allocated_mem_size)
      × (d'.g_namespaces ≡ d.g_namespaces)
      × (d'.g_controllers ≡ d.g_controllers)
      × ((dev : Dev) × Released lib grants (lib.free_io_qpair dev q).1 d')
      × (spdk_alloc_qpair lib grants d' ≡ fault)

  -- SPDK does not report a failure for this queue pair with the code that is asserted against.
  pub begin_out_1-Closed :
      (d : Driver Dev) (n : NsEntry) (q bound : ℕ) (u : Usable lib grants patience d n q)
      → ((dev : Dev) → (lib.free_io_qpair dev q).0 ≢ txd_fail)
      → Below bound d.memory.live
      → Holding (namespace_addrs d.g_namespaces ++ controller_addrs d.g_controllers) d.memory.live
      → Returns
          (λ o d'. (o ≡ none) × Closed q d d')
          (begin_out_1 lib grants patience lists garbage spawn d)
  unfolding begin_out_1 spdk_free
  begin_out_1-Closed d n q bound u freed below held =
      rw (first_namespace_live d n u.others u.chosen u.live) (
        rw u.qpair (elim (Bool-cases ((lib.free_io_qpair d.device q).0 == txd_fail)) [
          | inl failed ↦ absurd (ground (arith, failed, freed d.device))
          | inr released ↦ rw released (
              Returns-bind
                (cleanup-dangles lib grants (record d { device = (lib.free_io_qpair d.device q).1 })
                  n u.others bound u.chosen below
                  (subst
                    (λ ns.
                      Holding (namespace_addrs ns ++ controller_addrs d.g_controllers)
                        d.memory.live)
                    u.chosen held))
                λ _ d' (counter, namespaces, controllers, released, dangling, _, _).
                  returns
                    (refl, (counter, namespaces, controllers, (d.device, released), dangling)))
        ]))

  -- The buffer is given back, from on top of the memory.
  pub buffer_freed :
      (d : Driver Dev) (m : Memory) (serial : ℕ)
      → m.allocated_mem_size < 2 ^ 64
      → on_memory (txd_free (some m.serial) (sizeof_superblock * 1)) (record d {
        memory = record (with_buffer lib grants patience lists garbage m) { serial = serial };
      })
        ≡ ok tt (record d { memory = record m { serial = serial } })
  buffer_freed d m serial small =
      let full : Memory = record (with_buffer lib grants patience lists garbage m) {
        serial = serial;
      } in
      on_memory_ok _ (record d { memory = full })
        (free_steps libc m.serial sizeof_superblock full m.live (take_back-head _ m.live)
          ∙ ap (λ c. ok tt (record m { allocated_mem_size = c; serial = serial }))
              (sub64-add _ _ small))

  -- `tx_begin` where the device holds something that `chk_txd_sb` refuses for the expected size, and
  -- serves every command within the polls: with its buffers granted, a usable namespace, entries that
  -- are live in blocks of their own, a counter that is a 64-bit word and a queue pair whose release
  -- does not return 1, it returns NULL, gives back its buffer with the counter as before, releases
  -- the queue pair, detaches every listed controller, and leaves no listed entry live; both lists are as
  -- before, and a `spdk_alloc_qpair` in that state is a fault.
  pub tx_begin-Closed :
      (generous : IsGenerous lib grants patience lists garbage) (disk : Disk lib patience)
      (d : Driver Dev) (n : NsEntry) (q bound txd_addr txd_size : ℕ) (bytes tail : List ℕ)
      → Usable lib grants patience d n q
      → disk.stored d.device n.ns txd_addr ≡ bytes ++ tail
      → length bytes ≡ sizeof_superblock
      → chk_txd_sb (from_bytes bytes) txd_size ≡ txd_fail
      → d.memory.allocated_mem_size < 2 ^ 64
      → ((dev : Dev) → (lib.free_io_qpair dev q).0 ≢ txd_fail)
      → Below bound d.memory.live
      → Holding (namespace_addrs d.g_namespaces ++ controller_addrs d.g_controllers) d.memory.live
      → Returns
          (λ o d'. (o ≡ none) × Closed q d d')
          (tx_begin lib grants patience lists garbage spawn txd_addr txd_size d)
  unfolding tx_begin begin_read begin_params begin_superblock begin_out_2
  tx_begin-Closed generous disk d n q bound txd_addr txd_size bytes tail u kept len bad small freed
        below held =
      let d₂ : Driver Dev = record d {
        memory = with_buffer lib grants patience lists garbage d.memory;
      } in
      let (e, fetched) =
        spdk_read-fetches lib grants patience disk d₂ n q (begin_params txd_addr) bytes tail
          (buffer-Usable lib grants patience lists garbage d n q u) len (generous.granted _ _ _)
          kept in
      let d₃ = served lib grants patience e d₂ in
      rw (on_memory_ok _ d (calloc_buffer lib grants patience lists garbage generous d.memory)) (
        rw fetched (
          rw bad (
            rw (buffer_freed d₃ d.memory d₃.memory.serial small) (
              begin_out_1-Closed
                (record d { device = e; memory = record (d.memory) { serial = d₃.memory.serial } })
                n q bound
                (record { others = u.others; chosen = u.chosen; live = u.live; qpair = u.qpair })
                freed below held))))
