-- ===== src/Early/Closing.antt =====
-- `tx_begin` of the earlier variant in full: it closes the controllers and returns NULL.
use tx_driver.Api.{begin_params, begin_out_1}
use tx_driver.Api.Reject.{Closed, begin_out_1-Closed}
use tx_driver.Base.{
  ℕ, suc, ◌+◌, ◌<◌, ◌≡◌, ◌≢◌, refl, ◌∙◌, sym, subst, Option, none, some, List, ◌∷◌, ◌++◌, arith,
  length, Returns, Returns-weaken, Bool-cases, inl, inr, true, ◌==◌, Returns-cases,
}
use tx_driver.Early.Api.{begin_out, begin_created, begin_superblock, begin_read, tx_begin}
use tx_driver.Early.Creation.{early_get_journal-CreateResult}
use tx_driver.Early.Never.{begin_journal_lem}
use tx_driver.Early.Ready.{IsBlank, with_head, with_all_tables, CreateResult}
use tx_driver.Early.Tables.{libc_block, with_block, calloc_granted, with_table}
use tx_driver.Journal.Defs.{Journal, sizeof_buffer_head, journal_revoke_default_hash}
use tx_driver.Malloc.{Memory, Grants, Block, spdk, libc}
use tx_driver.Abi.{sizeof_pointer}
use tx_driver.Ondisk.{Superblock, chk_txd_sb, sizeof_superblock, txd_success, txd_fail}
use tx_driver.Ondisk.Layout.{from_bytes}
use tx_driver.Revoke.{ListHeads, sizeof_revoke_table}
use tx_driver.Spdk.Cleanup.{namespace_addrs, controller_addrs}
use tx_driver.Spdk.Held.{Below, Holding, Holding-cons, Below-cons, Below-weaken}
use tx_driver.Spdk.Library.{Library}
use tx_driver.Spdk.Polling.{Disk, Usable, served, spdk_read-fetches}
use tx_driver.Spdk.State.{Driver, NsEntry, CtrlrEntry, Qpair, is_live, on_memory_ok}

-- The lists can be closed: the first namespace is live with a queue pair, and every entry is held in
-- these blocks, which stand in the order of their addresses below `bound`.
pub record Closable (n : NsEntry) (q bound : ℕ) (live : List Block) (ns : List NsEntry)
    (cs : List CtrlrEntry) : Type 0 where
  pub others : List NsEntry
  pub chosen : ns ≡ n ∷ others
  pub first_live : is_live n.addr live ≡ true
  pub qpair : n.qpair ≡ Qpair.at q
  pub below : Below bound live
  pub held : Holding (namespace_addrs ns ++ controller_addrs cs) live

-- A younger block does not matter.
Closable-cons :
    {n : NsEntry} {q bound : ℕ} {live : List Block} {ns : List NsEntry} {cs : List CtrlrEntry}
    (b : Block)
    → bound < b.addr + 1
    → Closable n q bound live ns cs
    → Closable n q (suc b.addr) (b ∷ live) ns cs
unfolding is_live
Closable-cons {bound} {live} b h c = record {
  others = c.others;
  chosen = c.chosen;
  first_live = ground (arith, c.first_live);
  qpair = c.qpair;
  below = Below-cons bound b live c.below h;
  held = Holding-cons bound b live c.below h c.held;
}

pub Closable-weaken :
    {n : NsEntry} {q a b : ℕ} {live : List Block} {ns : List NsEntry} {cs : List CtrlrEntry}
    → a < b
    → Closable n q a live ns cs
    → Closable n q b live ns cs
Closable-weaken h c = record {
  others = c.others;
  chosen = c.chosen;
  first_live = c.first_live;
  qpair = c.qpair;
  below = Below-weaken h c.below;
  held = c.held;
}

module _ (lib : Library) (grants : Grants) (patience : ℕ) (lists : ListHeads)
    (garbage : Journal lists.Head) where
  open lib use {Dev}
  open lists use {Head}

  abbrev pub IsClosable : NsEntry → (q bound : ℕ) → Driver Dev → Type 0
  IsClosable n q bound d = Closable n q bound d.memory.live d.g_namespaces d.g_controllers

  pub IsClosable-Usable :
      {n : NsEntry} {q bound : ℕ} (d : Driver Dev)
      → IsClosable n q bound d
      → Usable lib grants patience d n q
  IsClosable-Usable d c = record {
    others = c.others;
    chosen = c.chosen;
    live = c.first_live;
    qpair = c.qpair;
  }

  abbrev pub EarlyClosed : (q : ℕ) → Driver Dev → Option (Journal Head) → Driver Dev → Type 0
  EarlyClosed q d o d' = (o ≡ none) × Closed lib grants patience lists garbage 0 q d d'

  begin_out-Closed :
      (d : Driver Dev) (n : NsEntry) (q bound : ℕ)
      → IsClosable n q bound d
      → ((dev : Dev) → (lib.free_io_qpair dev q).0 ≢ txd_fail)
      → Returns (EarlyClosed q d) (begin_out lib grants patience lists garbage d)
  unfolding begin_out begin_out_1
  begin_out-Closed d n q bound c freed =
      begin_out_1-Closed lib grants patience lists garbage 0 d n q bound (IsClosable-Usable d c)
        freed c.below c.held

  module _ (n : NsEntry) (q : ℕ) (ns : List NsEntry) (cs : List CtrlrEntry) where
    pub with_block-Closable :
        (bytes : ℕ) (m : Memory)
        → Closable n q m.serial m.live ns cs
        → Closable n q (suc m.serial) (with_block bytes m).live ns cs
    with_block-Closable bytes m c = Closable-cons (libc_block m.serial bytes) (omega arith) c

    with_table-Closable :
        (hash_size : ℕ) (m : Memory)
        → Closable n q m.serial m.live ns cs
        → Closable n q (suc (suc m.serial)) (with_table lists grants hash_size m).live ns cs
    with_table-Closable hash_size m c =
        with_block-Closable _ (with_block sizeof_revoke_table m) (with_block-Closable _ m c)

    -- After a journal that was made, and after one that was not.
    created_Closable :
        (sb : Superblock) (m : Memory) (o : Option (Journal Head)) (m' : Memory)
        → Closable n q m.serial m.live ns cs
        → CreateResult lists garbage grants sb m o m'
        → (bound : ℕ) × Closable n q bound m'.live ns cs
    created_Closable sb m none m' c failed = elim (failed.leftover) [
      | inl (same, _) ↦ (m.serial, subst (λ l. Closable n q m.serial l ns cs) (sym same) c)
      | inr (lost, _, _) ↦ (
        suc (suc m.serial),
        subst (λ l. Closable n q (suc (suc m.serial)) l ns cs) (sym lost)
            (Closable-cons (libc_block (suc m.serial) sizeof_buffer_head) (omega arith) c),
      )
    ]
    created_Closable sb m (some j) m' c (_, memory) =
        let headed =
          with_block-Closable _ (with_block sizeof_pointer m) (with_block-Closable _ m c) in
        let one_table =
          with_table-Closable journal_revoke_default_hash (with_head lists garbage grants m)
            headed in
        let two_tables =
          with_table-Closable journal_revoke_default_hash
            (with_table lists grants journal_revoke_default_hash (with_head lists garbage grants m))
            one_table in
        (
          suc (with_all_tables lists garbage grants m).serial,
          subst
              (λ r. Closable n q (suc (with_all_tables lists garbage grants m).serial) r.live ns cs)
              (sym memory)
              (with_block-Closable _ (with_all_tables lists garbage grants m) two_tables),
        )

  created_counter :
      (sb : Superblock) (m : Memory) (o : Option (Journal Head)) (m' : Memory)
      → CreateResult lists garbage grants sb m o m'
      → m'.allocated_mem_size ≡ m.allocated_mem_size
  created_counter sb m none m' failed = failed.allocated
  created_counter sb m (some j) m' (_, memory) = rw memory refl

  module _ (blank : IsBlank lists garbage grants) (n : NsEntry) (q : ℕ)
      (freed : (dev : Dev) → (lib.free_io_qpair dev q).0 ≢ txd_fail) where
    -- From what the creation returned on.
    begin_created-Closed :
        (err : ℕ) (o : Option (Journal Head)) (d : Driver Dev) (bound : ℕ)
        → IsClosable n q bound d
        → Returns (EarlyClosed q d) (begin_created lib grants patience lists garbage err o d)
    unfolding begin_created
    begin_created-Closed err none d bound c = begin_out-Closed d n q bound c freed
    begin_created-Closed err (some j) d bound c =
        rw (begin_journal_lem lib grants patience lists garbage err j d)
          (begin_out-Closed d n q bound c freed)

    begin_superblock-Closed :
        (err txd_size : ℕ) (sb : Superblock) (d : Driver Dev)
        → IsClosable n q d.memory.serial d
        → Returns
            (EarlyClosed q d)
            (begin_superblock lib grants patience lists garbage err txd_size sb d)
    unfolding begin_superblock
    begin_superblock-Closed err txd_size sb d c = elim (Bool-cases (chk_txd_sb sb txd_size == 0)) [
      | inr refused ↦ rw refused (begin_out-Closed d n q d.memory.serial c freed)
      | inl accepted ↦
          let (o, m, run, result) =
            Returns-cases (early_get_journal-CreateResult lists garbage grants blank sb d.memory) in
          let (bound, closable) =
            created_Closable n q d.g_namespaces d.g_controllers sb d.memory o m c result in
          let closed = begin_created-Closed err o (record d { memory = m }) bound closable in
          rw accepted (
            rw (on_memory_ok _ d run) (
              Returns-weaken closed (λ o' d' (nothing, (counter, same, same', released, dangling)).
                (
                  nothing,
                  (
                    counter ∙ created_counter sb d.memory o m result,
                    same,
                    same',
                    released,
                    dangling,
                  ),
                ))))
    ]

    -- On a device that serves every command within the polls, whatever it holds: with the two buffers
    -- granted, in memory that is NULL where the failing paths read it, and with lists whose entries are
    -- live in blocks of their own and a queue pair whose release does not return 1, `tx_begin` returns
    -- NULL with the counter as before, releases the queue pair, detaches every listed controller, and
    -- leaves no listed entry live; both lists are as before, and a `spdk_alloc_qpair` in that state is a
    -- fault.
    pub early_tx_begin-Closed :
        (disk : Disk lib patience) (d : Driver Dev) (txd_addr txd_size : ℕ) (bytes tail : List ℕ)
        → IsClosable n q d.memory.serial d
        → disk.stored d.device n.ns txd_addr ≡ bytes ++ tail
        → length bytes ≡ sizeof_superblock
        → grants libc d.memory.serial sizeof_superblock ≡ true
        → grants spdk (suc d.memory.serial) sizeof_superblock ≡ true
        → Returns (EarlyClosed q d) (tx_begin lib grants patience lists garbage txd_addr txd_size d)
    unfolding tx_begin begin_read begin_params
    early_tx_begin-Closed disk d txd_addr txd_size bytes tail c kept len granted dma =
        let buffered =
          with_block-Closable n q d.g_namespaces d.g_controllers sizeof_superblock d.memory c in
        let d₁ : Driver Dev = record d { memory = with_block sizeof_superblock d.memory } in
        let (e, fetched) =
          spdk_read-fetches lib grants patience disk d₁ n q (begin_params txd_addr) bytes tail
            (IsClosable-Usable d₁ buffered) len dma kept in
        let closed =
          begin_superblock-Closed txd_success txd_size (from_bytes bytes)
            (served lib grants patience e d₁) (Closable-weaken (omega arith) buffered) in
        rw (on_memory_ok _ d (calloc_granted grants sizeof_superblock d.memory granted))
          (rw fetched closed)
