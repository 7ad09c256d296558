-- ===== src/Api/Begin.antt =====
-- From a formatted superblock to a loaded journal: `do_format` and then `tx_begin`.
use tx_driver.Base.{
  length, ◌++◌, List, ℕ, suc, ◌+◌, ◌^◌, ◌<◌, ◌≤◌, ◌≡◌, refl, ap, ◌∙◌, true, none, some, ◌∷◌, ◌>>◌,
  arith, ok, Returns, returns, Returns-bind, Returns-weaken, u64, ◌*◌, Returns-cases,
}
use tx_driver.Api.{
  new_superblock, format_params, begin_params, do_format, wipe_unless_needed, begin_journal,
  begin_superblock, begin_read, tx_begin, Cmd,
}
use tx_driver.Api.Format.{format_params-new_superblock, new_superblock_passes, new_superblock_log}
use tx_driver.Journal.Create.{txd_get_journal}
use tx_driver.Journal.Defs.{Journal, txd_abort, txd_min_journal_blocks}
use tx_driver.Journal.Flags.{Loaded, load-Loaded, flag_limit}
use tx_driver.Journal.Geometry.{IsAttached}
use tx_driver.Journal.Grows.{IsReady-grows}
use tx_driver.Journal.Load.{txd_journal_need_recovery}
use tx_driver.Journal.Ready.{IsReady, get_journal-CreateResult}
use tx_driver.Malloc.{Block, Memory, Grants, Source, spdk, libc, txd_calloc}
use tx_driver.Ondisk.{Superblock, sizeof_superblock, txd_success}
use tx_driver.Ondisk.Layout.{from_bytes}
use tx_driver.Revoke.{ListHeads}
use tx_driver.Spdk.Library.{Library}
use tx_driver.Spdk.Polling.{
  Disk, Usable, spdk_write-stores, served, spdk_read-fetches_at, after_read, served-Usable,
}
use tx_driver.Spdk.State.{Driver, NsEntry, on_memory, on_memory_ok, is_live}

module _ (lib : Library) (grants : Grants) (patience : ℕ) (lists : ListHeads)
    (garbage : Journal lists.Head) where
  open lib use {Dev}
  open lists use {Head}

  -- Every request is granted.
  pub record IsGenerous : Type 0 where
    pub granted : (src : Source) (serial bytes : ℕ) → grants src serial bytes ≡ true

  -- A journal that `txd_get_journal` has made is attached to its superblock.
  IsReady-IsAttached :
      (sb : Superblock) (m : Memory) (j : Journal Head) (m' : Memory)
      → sb.s_first < 2 ^ 32
      → sb.s_maxlen < 2 ^ 32
      → j.j_transaction_sequence < 2 ^ 32
      → IsReady lists garbage grants sb m j m'
      → IsAttached Head sb j
  IsReady-IsAttached sb m j m' first last sequence r = record {
    superblock = r.superblock;
    first_fits = first;
    maxlen_fits = last;
    sequence_fits = sequence;
    checkpoint_mutex = r.checkpoint_mutex;
    wq_mtx = ap (λ wq. wq.wq_mtx) r.wait_done_commit;
  }

  -- The driver with some blocks more.
  pub record Grown (n : ℕ) (d d' : Driver Dev) : Type 0 where
    pub device : d'.device ≡ d.device
    pub namespaces : d'.g_namespaces ≡ d.g_namespaces
    pub controllers : d'.g_controllers ≡ d.g_controllers
    pub added : List Block
    pub number : length added ≡ n
    pub live : d'.memory.live ≡ added ++ d.memory.live

  -- What `tx_begin` hands out: the loaded journal of its superblock.
  pub record Opened (sb : Superblock) (j' : Journal Head) : Type 0 where
    pub before : Journal Head
    pub attached : IsAttached Head sb before
    pub aborted : before.j_flags ≡ txd_abort
    pub loaded : Loaded Head sb before attached j'

  begin_journal-Opened :
      (sb : Superblock) (j : Journal Head) (buf : ℕ) (d : Driver Dev)
      → IsAttached Head sb j
      → j.j_flags ≡ txd_abort
      → j.j_failed_commit ≡ 0
      → sb.s_first + txd_min_journal_blocks ≤ sb.s_maxlen + 1
      → Returns
          (λ o d'. (j' : Journal Head) × (o ≡ some j') × Opened sb j' × (d' ≡ d))
          (begin_journal lib grants patience lists garbage 0 buf txd_success j d)
  unfolding begin_journal wipe_unless_needed txd_journal_need_recovery
  begin_journal-Opened sb j buf d a flags clean long =
      let small : j.j_flags < flag_limit = omega (arith, flags) in
      let (err, j', run, (done, l)) = Returns-cases (load-Loaded Head sb j a small clean long) in
      rw run
        (returns (j', refl, record { before = j; attached = a; aborted = flags; loaded = l }, refl))

  pub on_memory-Returns :
      {A : Type 0} {P : A → Memory → Type 0} (c : Cmd Memory A) (d : Driver Dev)
      → Returns P (c d.memory)
      → Returns (λ a d'. P a d'.memory × (d' ≡ record d { memory = d'.memory })) (on_memory c d)
  on_memory-Returns c d r =
      let (a, m, run, p) = Returns-cases r in rw (on_memory_ok c d run) (returns (p, refl))

  -- The memory once `tx_begin` has its buffer.
  abbrev pub with_buffer : Memory → Memory
  with_buffer m = record m {
    allocated_mem_size = u64 (m.allocated_mem_size + sizeof_superblock);
    live = record { addr = m.serial; bytes = 1 * sizeof_superblock; source = libc } ∷ m.live;
    serial = suc m.serial;
  }

  pub buffer-Usable :
      (d : Driver Dev) (n : NsEntry) (q : ℕ)
      → Usable lib grants patience d n q
      → Usable lib grants patience (record d { memory = with_buffer d.memory }) n q
  unfolding is_live
  buffer-Usable d n q u = record {
    others = u.others;
    chosen = u.chosen;
    live = ground (arith, u.live);
    qpair = u.qpair;
  }

  pub calloc_buffer :
      (generous : IsGenerous) (m : Memory)
      → txd_calloc grants 1 sizeof_superblock m ≡ ok (some m.serial) (with_buffer m)
  unfolding txd_calloc
  calloc_buffer generous m = rw (generous.granted libc m.serial (1 * sizeof_superblock))

  module _ (generous : IsGenerous) (clean : garbage.j_failed_commit ≡ 0)
      (sequence : garbage.j_transaction_sequence < 2 ^ 32) where
    begin_superblock-Opened :
        (txd_size buf : ℕ) (d : Driver Dev)
        → 1024 ≤ txd_size
        → txd_size < 2 ^ 32
        → d.memory.allocated_mem_size < 2 ^ 64
        → Returns
            (λ o d'.
              (j : Journal Head) × (o ≡ some j) × Opened (new_superblock txd_size) j × Grown 7 d d')
            (begin_superblock lib grants patience lists garbage 0 buf txd_success txd_size
              (new_superblock txd_size)
              d)
    unfolding begin_superblock
    begin_superblock-Opened txd_size buf d long fits small =
        let sb = new_superblock txd_size in
        rw (new_superblock_passes txd_size) (
          Returns-bind
            (on_memory-Returns (txd_get_journal lists garbage grants sb) d
              (get_journal-CreateResult lists garbage grants sb d.memory small))
            (elim [
              | none ↦ λ d' ((_, refusal), _). absurd (
                  ground
                    (arith, refusal.refused, generous.granted spdk refusal.serial refusal.bytes))
              | some j ↦ λ d' (r, same).
                  let (first, last) = new_superblock_log txd_size in
                  let attached =
                    IsReady-IsAttached sb d.memory j d'.memory (omega (arith, first))
                      (omega (arith, last)) (omega (arith, r.transaction_sequence)) r in
                  Returns-weaken
                    (begin_journal-Opened sb j buf d' attached r.flags (r.failed_commit ∙ clean)
                      (omega (arith, first, last)))
                    (λ o d'' (j', e, opened, unchanged).
                      let (added, seven, live) =
                        IsReady-grows lists garbage grants sb d.memory j d'.memory r in
                      let after : d'' ≡ record d { memory = d'.memory } = unchanged ∙ same in
                      (
                        j',
                        e,
                        opened,
                        record {
                          device = ap (λ s. s.device) after;
                          namespaces = ap (λ s. s.g_namespaces) after;
                          controllers = ap (λ s. s.g_controllers) after;
                          added = added;
                          number = seven;
                          live = ap (λ s. s.memory.live) unchanged ∙ live;
                        },
                      ))
            ]))

    -- The driver once `tx_begin` has read the superblock.
    abbrev pub after_begin_read :
        Disk lib patience → NsEntry → (q txd_addr : ℕ) → Driver Dev → Driver Dev
    after_begin_read disk n q txd_addr d =
        served lib grants patience (after_read lib grants patience disk d.device n.ns q txd_addr 1)
          (record d { memory = with_buffer d.memory })

    -- `tx_begin` where the device holds the superblock, and what it leaves.
    pub tx_begin-Grown :
        (disk : Disk lib patience) (d : Driver Dev) (n : NsEntry) (q txd_addr txd_size : ℕ)
        (bytes tail : List ℕ)
        → Usable lib grants patience d n q
        → disk.stored d.device n.ns txd_addr ≡ bytes ++ tail
        → length bytes ≡ sizeof_superblock
        → from_bytes bytes ≡ new_superblock txd_size
        → 1024 ≤ txd_size
        → txd_size < 2 ^ 32
        → Returns
            (λ o d'.
              (j : Journal Head) × (o ≡ some j)
              × Opened (new_superblock txd_size) j
              × Grown 7 (after_begin_read disk n q txd_addr d) d')
            (tx_begin lib grants patience lists garbage 0 txd_addr txd_size d)
    unfolding tx_begin begin_read begin_params
    tx_begin-Grown disk d n q txd_addr txd_size bytes tail u kept len back long fits =
        let d₂ : Driver Dev = record d { memory = with_buffer d.memory } in
        let fetched =
          spdk_read-fetches_at lib grants patience disk d₂ n q (begin_params txd_addr) bytes tail
            (buffer-Usable d n q u) len (generous.granted _ _ _) kept in
        rw (on_memory_ok _ d (calloc_buffer generous d.memory)) (
          rw fetched (
            rw back (
              begin_superblock-Opened txd_size d.memory.serial
                (after_begin_read disk n q txd_addr d) long fits (omega arith))))

    -- `tx_begin` where the device holds the superblock.
    pub tx_begin-Opened :
        (disk : Disk lib patience) (d : Driver Dev) (n : NsEntry) (q txd_addr txd_size : ℕ)
        (bytes tail : List ℕ)
        → Usable lib grants patience d n q
        → disk.stored d.device n.ns txd_addr ≡ bytes ++ tail
        → length bytes ≡ sizeof_superblock
        → from_bytes bytes ≡ new_superblock txd_size
        → 1024 ≤ txd_size
        → txd_size < 2 ^ 32
        → Returns
            (λ o d'. (j : Journal Head) × (o ≡ some j) × Opened (new_superblock txd_size) j)
            (tx_begin lib grants patience lists garbage 0 txd_addr txd_size d)
    tx_begin-Opened disk d n q txd_addr txd_size bytes tail u kept len back long fits =
        Returns-weaken
          (tx_begin-Grown disk d n q txd_addr txd_size bytes tail u kept len back long fits)
          (λ o d' (j, handed, opened, _). (j, handed, opened))

    -- `do_format` of the parameters that `tx_format` fills in, and then `tx_begin` of the same address
    -- and size: on a device that serves every command within the polls, with a usable namespace, all
    -- requests granted, a thread that starts and a counter that is a 64-bit word, for a size of 1024
    -- or more in 32 bits, `tx_begin` returns a journal that is loaded from the superblock that was formatted. The memory behind the
    -- journal's 8 bytes is taken to hold no failed commit and a 32-bit sequence number.
    pub format-begin :
        (disk : Disk lib patience) (d : Driver Dev) (n : NsEntry) (q txd_addr txd_size : ℕ)
        → Usable lib grants patience d n q
        → 1024 ≤ txd_size
        → txd_size < 2 ^ 32
        → d.memory.allocated_mem_size < 2 ^ 64
        → Returns
            (λ o d'. (j : Journal Head) × (o ≡ some j) × Opened (new_superblock txd_size) j)
            ((do
              do_format lib grants patience (format_params txd_addr txd_size)
              tx_begin lib grants patience lists garbage 0 txd_addr txd_size)
              d)
    unfolding do_format format_params
    format-begin disk d n q txd_addr txd_size u long fits small =
        let params = format_params txd_addr txd_size in
        let (len, back) = format_params-new_superblock txd_addr txd_size fits in
        let (e, tail, written, kept) =
          spdk_write-stores lib grants patience disk d n q params u len (omega arith)
            (generous.granted _ _ _) in
        rw written (
          tx_begin-Opened disk (served lib grants patience e d) n q txd_addr txd_size params.buf
            tail (served-Usable lib grants patience d n q e u) kept len back long fits)
