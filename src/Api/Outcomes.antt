-- ===== src/Api/Outcomes.antt =====
-- `tx_begin`, whatever the device holds and whichever request for the journal is refused.
use tx_driver.Api.{
  begin_params, begin_journal, begin_superblock, begin_read, begin_out_2, tx_begin,
  wipe_unless_needed,
}
use tx_driver.Api.Begin.{buffer-Usable, on_memory-Returns, with_buffer}
use tx_driver.Api.Reject.{Closed, buffer_freed, begin_out_1-Closed}
use tx_driver.Base.{
  ℕ, suc, ◌^◌, ◌<◌, ◌≡◌, ◌≢◌, refl, ◌∙◌, sym, ap, subst, Option, none, some, List, ◌++◌, length, ok,
  true, Returns, returns, Returns-cases, Returns-bind, Returns-weaken, Bool-cases, inl, inr, arith,
  ◌==◌,
}
use tx_driver.Journal.Create.{txd_get_journal}
use tx_driver.Journal.Defs.{Journal}
use tx_driver.Journal.Load.{txd_journal_load, txd_journal_need_recovery}
use tx_driver.Journal.Ready.{IsReady, get_journal-CreateResult}
use tx_driver.Journal.Total.{IsUnlocked, load-Returns}
use tx_driver.Malloc.{Memory, Grants, spdk, libc, txd_calloc}
use tx_driver.Malloc.Owned.{Restored}
use tx_driver.Ondisk.{Superblock, chk_txd_sb, sizeof_superblock, txd_success, txd_fail}
use tx_driver.Ondisk.Layout.{from_bytes}
use tx_driver.Revoke.{ListHeads}
use tx_driver.Spdk.Library.{Library}
use tx_driver.Spdk.Cleanup.{namespace_addrs, controller_addrs}
use tx_driver.Spdk.Held.{Below, Holding}
use tx_driver.Spdk.Polling.{Disk, Usable, spdk_read-fetches}
use tx_driver.Spdk.State.{Driver, NsEntry, on_memory_ok}

module _ (lib : Library) (grants : Grants) (patience : ℕ) (lists : ListHeads)
    (garbage : Journal lists.Head) where
  open lib use {Dev}
  open lists use {Head}

  -- The journal is what `txd_journal_load` left, whatever it returned, of one that
  -- `txd_get_journal` made for the superblock.
  pub record HandedOut (sb : Superblock) (j : Journal Head) : Type 0 where
    pub fresh : Journal Head
    pub m : Memory
    pub m' : Memory
    pub made : IsReady lists garbage grants sb m fresh m'
    pub err : ℕ
    pub loaded : txd_journal_load Head 0 fresh ≡ ok err j

  begin_journal-HandedOut :
      (sb : Superblock) (buf : ℕ) (j : Journal Head) (d : Driver Dev) (m m' : Memory)
      → IsReady lists garbage grants sb m j m'
      → Returns
          (λ o d'. (j' : Journal Head) × (o ≡ some j') × HandedOut sb j')
          (begin_journal lib grants patience lists garbage 0 buf txd_success j d)
  unfolding begin_journal wipe_unless_needed txd_journal_need_recovery
  begin_journal-HandedOut sb buf j d m m' r =
      let unlocked : IsUnlocked Head sb j = record {
        superblock = r.superblock;
        checkpoint_mutex = r.checkpoint_mutex;
        wq_mtx = ap (λ wq. wq.wq_mtx) r.wait_done_commit;
      } in
      let (err, j', run, _) = Returns-cases (load-Returns Head sb j unlocked) in
      rw run (
        returns (j', refl, record { fresh = j; m = m; m' = m'; made = r; err = err; loaded = run }))

  -- NULL, with the controllers released; or the journal, and then the superblock was accepted.
  abbrev pub BeginOutcome :
      Superblock → (txd_size q : ℕ) → Driver Dev → Option (Journal Head) → Driver Dev → Type 0
  BeginOutcome sb txd_size q d none d' = Closed lib grants patience lists garbage 0 q d d'
  BeginOutcome sb txd_size q d (some j) d' = (chk_txd_sb sb txd_size ≡ txd_success) × HandedOut sb j

  module _ (n : NsEntry) (q bound : ℕ)
      (freed : (dev : Dev) → (lib.free_io_qpair dev q).0 ≢ txd_fail) (txd_size : ℕ)
      (sb : Superblock) (d : Driver Dev) (u : Usable lib grants patience d n q)
      (small : d.memory.allocated_mem_size < 2 ^ 64) (below : Below bound d.memory.live)
      (held : Holding
        (namespace_addrs d.g_namespaces ++ controller_addrs d.g_controllers)
        d.memory.live) where
    -- The driver with the buffer of `tx_begin`, on a device and with a number of requests of its own.
    abbrev buffered : Dev → (serial : ℕ) → Driver Dev
    buffered dev serial = record d {
      device = dev;
      memory = record (with_buffer lib grants patience lists garbage d.memory) { serial = serial };
    }

    begin_out_2-Closed :
        (dev : Dev) (serial : ℕ)
        → Returns
            (BeginOutcome sb txd_size q d)
            (begin_out_2 lib grants patience lists garbage 0 d.memory.serial (buffered dev serial))
    unfolding begin_out_2
    begin_out_2-Closed dev serial =
        rw
          (buffer_freed lib grants patience lists garbage 0 (record d { device = dev }) d.memory
            serial small)
          (Returns-weaken
            (begin_out_1-Closed lib grants patience lists garbage 0
              (record d { device = dev; memory = record (d.memory) { serial = serial } }) n q bound
              (record { others = u.others; chosen = u.chosen; live = u.live; qpair = u.qpair })
              freed below held)
            (λ o d' (nothing, closed).
              subst (λ o'. BeginOutcome sb txd_size q d o' d') (sym nothing) closed))

    restored :
        (dev : Dev) (serial : ℕ) (m : Memory)
        → Restored (buffered dev serial).memory m
        → record (buffered dev serial) { memory = m } ≡ buffered dev m.serial
    restored dev serial m back i = record (buffered dev serial) {
      memory = record {
        allocated_mem_size = back.allocated i;
        live = back.live i;
        serial = m.serial;
      };
    }

    begin_superblock-Outcome :
        (dev : Dev) (serial : ℕ)
        → Returns (BeginOutcome sb txd_size q d) (
            begin_superblock lib grants patience lists garbage 0 d.memory.serial txd_success
              txd_size sb
              (buffered dev serial))
    unfolding begin_superblock
    begin_superblock-Outcome dev serial = elim (Bool-cases (chk_txd_sb sb txd_size == 0)) [
      | inr refused ↦ rw refused (begin_out_2-Closed dev serial)
      | inl accepted ↦
          let counted : (buffered dev serial).memory.allocated_mem_size < 2 ^ 64 = omega arith in
          rw accepted (
            Returns-bind
              (on_memory-Returns lib grants patience lists garbage
                (txd_get_journal lists garbage grants sb) (buffered dev serial)
                (get_journal-CreateResult lists garbage grants sb (buffered dev serial).memory
                  counted))
              (elim [
                | none ↦ λ d' ((back, _), same).
                    subst
                      (λ s.
                        Returns (BeginOutcome sb txd_size q d)
                          (begin_out_2 lib grants patience lists garbage 0 d.memory.serial s))
                      (sym (same ∙ restored dev serial d'.memory back))
                      (begin_out_2-Closed dev d'.memory.serial)
                | some j ↦ λ d' (made, _).
                    Returns-weaken
                      (begin_journal-HandedOut sb d.memory.serial j d' (buffered dev serial).memory
                        d'.memory made)
                      (λ o d'' (j', handed, fresh).
                        subst (λ o'. BeginOutcome sb txd_size q d o' d'') (sym handed)
                          (ground (arith, accepted), fresh))
              ]))
    ]

  buffer_made :
      (m : Memory)
      → grants libc m.serial sizeof_superblock ≡ true
      → txd_calloc grants 1 sizeof_superblock m
        ≡ ok (some m.serial) (with_buffer lib grants patience lists garbage m)
  unfolding txd_calloc
  buffer_made m h = rw h

  -- Whatever the device holds, and whichever requests for the journal are refused: where the thread
  -- starts, the device serves every command within the polls, both buffers are granted, the counter
  -- is a 64-bit word, there is a usable namespace, and the entries are live in blocks of their own
  -- with a queue pair whose release does not return 1, `tx_begin` returns; either NULL, with the
  -- counter as before, the queue pair released, every listed controller detached, no listed entry live,
  -- both lists as before, and a `spdk_alloc_qpair` a fault;
  -- or a journal, and then the superblock was accepted, and the journal is what the load left,
  -- whatever it returned, of one made for that superblock.
  pub tx_begin-Outcome :
      (disk : Disk lib patience) (d : Driver Dev) (n : NsEntry) (q bound txd_addr txd_size : ℕ)
      (bytes tail : List ℕ)
      → Usable lib grants patience d n q
      → disk.stored d.device n.ns txd_addr ≡ bytes ++ tail
      → length bytes ≡ sizeof_superblock
      → grants libc d.memory.serial sizeof_superblock ≡ true
      → grants spdk (suc d.memory.serial) sizeof_superblock ≡ true
      → d.memory.allocated_mem_size < 2 ^ 64
      → ((dev : Dev) → (lib.free_io_qpair dev q).0 ≢ txd_fail)
      → Below bound d.memory.live
      → Holding (namespace_addrs d.g_namespaces ++ controller_addrs d.g_controllers) d.memory.live
      → Returns
          (BeginOutcome (from_bytes bytes) txd_size q d)
          (tx_begin lib grants patience lists garbage 0 txd_addr txd_size d)
  unfolding tx_begin begin_read begin_params
  tx_begin-Outcome disk d n q bound txd_addr txd_size bytes tail u kept len granted dma small freed
        below held =
      let d₂ : Driver Dev = record d {
        memory = with_buffer lib grants patience lists garbage d.memory;
      } in
      let (e, fetched) =
        spdk_read-fetches lib grants patience disk d₂ n q (begin_params txd_addr) bytes tail
          (buffer-Usable lib grants patience lists garbage d n q u) len dma kept in
      rw (on_memory_ok _ d (buffer_made d.memory granted)) (
        rw fetched (
          begin_superblock-Outcome n q bound freed txd_size (from_bytes bytes) d u small below held
            e (suc (suc d.memory.serial))))
