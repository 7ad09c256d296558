-- ===== src/Spdk/Polling.antt =====
-- Transfers on a device that serves every command: they return, and give back their DMA
-- buffer.
use mathlib.Core.List.{append_assoc}
use tx_driver.Base.{
  ℕ, zero, suc, ◌<◌, ◌≤◌, ◌*◌, ◌≡◌, refl, ◌∙◌, ap, true, some, List, [], ◌∷◌, ◌++◌, arith, length,
  take, take_all, take-append, replicate, ok, if◌then◌else◌, ◌==◌, exited,
}
use tx_driver.Malloc.{Grants, spdk, obtain, give_back}
use tx_driver.Malloc.Owned.{take_back-head, obtain_granted, give_back_found}
use tx_driver.Ondisk.{txd_success}
use tx_driver.Spdk.Library.{Library, Completes, now, later}
use tx_driver.Spdk.State.{
  Driver, NsEntry, Qpair, is_live, first_namespace, first_namespace_live, on_memory, on_memory_ok,
}
use tx_driver.Spdk.Transfer.{
  Params, poll, submit, write_complete, read_complete, write_from, read_into, spdk_write, spdk_read,
  after_poll,
}

-- What the code relies on: every command is accepted and completes before `latency` polls; a write of
-- bytes that fit the blocks of the command, of 512 bytes or more each, puts them at the head of what is
-- stored at its address, and a read fetches what is stored.
pub record Disk (lib : Library) (latency : ℕ) : Type 0 where
  pub stored : lib.Dev → (ns lba : ℕ) → List ℕ
  pub write_accepted :
      (d : lib.Dev) (ns q : ℕ) (bytes : List ℕ) (lba n : ℕ)
      → (lib.cmd_write d ns q bytes lba n).0 ≡ txd_success
  pub write_served :
      (d : lib.Dev) (ns q : ℕ) (bytes : List ℕ) (lba n : ℕ)
      → length bytes ≤ 512 * n
      → (k : ℕ) × (e : lib.Dev) × (tail : List ℕ) × (k < latency)
        × Completes lib q [] e k (lib.cmd_write d ns q bytes lba n).1
        × (stored e ns lba ≡ bytes ++ tail)
  pub read_accepted : (d : lib.Dev) (ns q lba n : ℕ) → (lib.cmd_read d ns q lba n).0 ≡ txd_success
  pub read_served :
      (d : lib.Dev) (ns q lba n : ℕ)
      → (k : ℕ) × (e : lib.Dev) × (k < latency)
        × Completes lib q (stored d ns lba) e k (lib.cmd_read d ns q lba n).1

module _ (lib : Library) (grants : Grants) (patience : ℕ) where
  open lib use {Dev}

  pub poll-Completes :
      {q : ℕ} {bytes : List ℕ} {e : Dev} {k : ℕ} {dev : Dev} (fuel : ℕ) (d : Driver Dev)
      → Completes lib q bytes e k dev
      → k < fuel
      → poll lib grants patience fuel q (record d { device = dev })
        ≡ ok bytes (record d { device = e })
  unfolding poll
  poll-Completes zero d c enough = absurd (omega arith)
  poll-Completes {q} {dev} (suc fuel) d (now e) enough =
      ap
        (λ r.
          after_poll lib grants patience r (poll lib grants patience fuel q)
            (record d { device = dev }))
        e
  poll-Completes {q} {k = suc k} {dev} (suc fuel) d (later e c) enough =
      ap
        (λ r.
          after_poll lib grants patience r (poll lib grants patience fuel q)
            (record d { device = dev }))
        e
      ∙ poll-Completes {k = k} fuel d c (omega arith)

  -- The namespace that the transfers use: the first one, live, with a queue pair.
  pub record Usable (d : Driver Dev) (n : NsEntry) (q : ℕ) : Type 0 where
    pub others : List NsEntry
    pub chosen : d.g_namespaces ≡ n ∷ others
    pub live : is_live n.addr d.memory.live ≡ true
    pub qpair : n.qpair ≡ Qpair.at q

  -- The DMA buffer is the newest block while the transfer runs.
  abbrev pub with_dma : ℕ → Driver Dev → Driver Dev
  with_dma size d = record d {
    memory = record (d.memory) {
      live = record { addr = d.memory.serial; bytes = size; source = spdk } ∷ d.memory.live;
      serial = suc d.memory.serial;
    };
  }

  -- What a transfer leaves: the device of the last poll, and the memory of before, with one serial
  -- number used up.
  abbrev pub served : Dev → Driver Dev → Driver Dev
  served e d = record d { device = e; memory = record (d.memory) { serial = suc d.memory.serial } }

  pub dma_granted :
      (size : ℕ) (d : Driver Dev)
      → grants spdk d.memory.serial size ≡ true
      → on_memory (obtain grants spdk size) d ≡ ok (some d.memory.serial) (with_dma size d)
  dma_granted size d e = on_memory_ok _ d (obtain_granted grants spdk size d.memory e)

  dma_freed :
      (size : ℕ) (d : Driver Dev) (e : Dev)
      → on_memory (give_back spdk (some d.memory.serial)) (record (with_dma size d) { device = e })
        ≡ ok tt (served e d)
  dma_freed size d e =
      on_memory_ok _ (record (with_dma size d) { device = e })
        (give_back_found spdk d.memory.serial _ (take_back-head _ d.memory.live))

  pub first_namespace_lem :
      (size : ℕ) (d : Driver Dev) (n : NsEntry) (q : ℕ)
      → Usable d n q
      → first_namespace (with_dma size d) ≡ ok n (with_dma size d)
  unfolding is_live
  first_namespace_lem size d n q u =
      first_namespace_live (with_dma size d) n u.others u.chosen (ground (arith, u.live))

  pub submit_accepted :
      (rc : ℕ) (dev : Dev) (d : Driver Dev)
      → rc ≡ txd_success
      → submit lib grants patience (rc, dev) d ≡ ok tt (record d { device = dev })
  unfolding submit
  submit_accepted rc dev d e =
      ap (λ r. if r == txd_success then ok tt (record d { device = dev }) else exited 1) e

  pub write-served :
      {bytes : List ℕ} (d : Driver Dev) (n : NsEntry) (q k : ℕ) (e dev : Dev) (rc : ℕ)
      (params : Params)
      → Usable d n q
      → grants spdk d.memory.serial params.buf_size ≡ true
      → lib.cmd_write d.device n.ns q (take params.buf_size params.buf) params.lba params.lba_count
        ≡ (rc, dev)
      → rc ≡ txd_success
      → Completes lib q bytes e k dev
      → k < patience
      → spdk_write lib grants patience params d ≡ ok txd_success (served e d)
  unfolding spdk_write write_from write_complete
  write-served d n q k e dev rc params u granted sent accepted c enough =
      rw (dma_granted params.buf_size d granted) (
        rw (first_namespace_lem params.buf_size d n q u) (
          rw (u.qpair, sent)
            (rw (submit_accepted rc dev (with_dma params.buf_size d) accepted) (
              rw (poll-Completes patience (with_dma params.buf_size d) c enough)
                (rw (dma_freed params.buf_size d e))))))

  pub read-served :
      (d : Driver Dev) (n : NsEntry) (q k : ℕ) (e dev : Dev) (rc : ℕ) (params : Params)
      (bytes : List ℕ)
      → Usable d n q
      → grants spdk d.memory.serial params.buf_size ≡ true
      → lib.cmd_read d.device n.ns q params.lba params.lba_count ≡ (rc, dev)
      → rc ≡ txd_success
      → Completes lib q bytes e k dev
      → k < patience
      → spdk_read lib grants patience params d
        ≡ ok
            (
              txd_success,
              record params { buf = take params.buf_size (bytes ++ replicate params.buf_size 0) },
            )
            (served e d)
  unfolding spdk_read read_into read_complete
  read-served d n q k e dev rc params bytes u granted sent accepted c enough =
      rw (dma_granted params.buf_size d granted) (
        rw (first_namespace_lem params.buf_size d n q u) (
          rw (u.qpair, sent)
            (rw (submit_accepted rc dev (with_dma params.buf_size d) accepted) (
              rw (poll-Completes patience (with_dma params.buf_size d) c enough)
                (rw (dma_freed params.buf_size d e))))))

  -- A write on such a device puts the whole buffer at the head of what is stored.
  pub spdk_write-stores :
      (disk : Disk lib patience) (d : Driver Dev) (n : NsEntry) (q : ℕ) (params : Params)
      → Usable d n q
      → length params.buf ≡ params.buf_size
      → params.buf_size ≤ 512 * params.lba_count
      → grants spdk d.memory.serial params.buf_size ≡ true
      → (e : Dev) × (tail : List ℕ) × (spdk_write lib grants patience params d
          ≡ ok txd_success (served e d))
        × (disk.stored e n.ns params.lba ≡ params.buf ++ tail)
  spdk_write-stores disk d n q params u len blocks granted =
      let sent = take params.buf_size params.buf in
      let (k, e, tail, soon, c, kept) =
        disk.write_served d.device n.ns q sent params.lba params.lba_count
          (omega (arith, ap length (take_all params.buf_size params.buf len), len, blocks)) in
      let accepted = disk.write_accepted d.device n.ns q sent params.lba params.lba_count in
      (
        e,
        tail,
        write-served d n q k e _ _ params u granted refl accepted c soon,
        kept ∙ ap (λ bs. bs ++ tail) (take_all params.buf_size params.buf len),
      )

  -- The device after the last poll of a read.
  abbrev pub after_read : (disk : Disk lib patience) → Dev → (ns q lba n : ℕ) → Dev
  after_read disk dev ns q lba n = (disk.read_served dev ns q lba n).1

  pub spdk_read-fetches_at :
      (disk : Disk lib patience) (d : Driver Dev) (n : NsEntry) (q : ℕ) (params : Params)
      (bytes tail : List ℕ)
      → Usable d n q
      → length bytes ≡ params.buf_size
      → grants spdk d.memory.serial params.buf_size ≡ true
      → disk.stored d.device n.ns params.lba ≡ bytes ++ tail
      → spdk_read lib grants patience params d
        ≡ ok
            (txd_success, record params { buf = bytes })
            (served (after_read disk d.device n.ns q params.lba params.lba_count) d)
  spdk_read-fetches_at disk d n q params bytes tail u len granted kept =
      let (k, e, soon, c) = disk.read_served d.device n.ns q params.lba params.lba_count in
      let accepted = disk.read_accepted d.device n.ns q params.lba params.lba_count in
      let zeros = replicate params.buf_size 0 in
      let back : take params.buf_size (disk.stored d.device n.ns params.lba ++ zeros) ≡ bytes =
        ap (λ bs. take params.buf_size (bs ++ zeros)) kept
        ∙ ap (take params.buf_size) (append_assoc bytes tail zeros)
        ∙ take-append params.buf_size bytes (tail ++ zeros) len in
      read-served d n q k e _ _ params _ u granted refl accepted c soon
      ∙ ap (λ bs. ok (txd_success, record params { buf = bs }) (served e d)) back

  -- A read of a buffer's length fetches what is at the head of what is stored.
  pub spdk_read-fetches :
      (disk : Disk lib patience) (d : Driver Dev) (n : NsEntry) (q : ℕ) (params : Params)
      (bytes tail : List ℕ)
      → Usable d n q
      → length bytes ≡ params.buf_size
      → grants spdk d.memory.serial params.buf_size ≡ true
      → disk.stored d.device n.ns params.lba ≡ bytes ++ tail
      → (e : Dev) × (spdk_read lib grants patience params d
          ≡ ok (txd_success, record params { buf = bytes }) (served e d))
  spdk_read-fetches disk d n q params bytes tail u len granted kept = (
    after_read disk d.device n.ns q params.lba params.lba_count,
    spdk_read-fetches_at disk d n q params bytes tail u len granted kept,
  )

  -- The namespace is still usable after a transfer.
  pub served-Usable :
      (d : Driver Dev) (n : NsEntry) (q : ℕ) (e : Dev) → Usable d n q → Usable (served e d) n q
  served-Usable d n q e u = record {
    others = u.others;
    chosen = u.chosen;
    live = u.live;
    qpair = u.qpair;
  }
