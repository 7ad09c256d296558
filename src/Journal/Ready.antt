-- ===== src/Journal/Ready.antt =====
-- `txd_journal_init_common`: a journal with all its parts, or NULL and nothing kept.
use tx_driver.Abi.{sizeof_pointer}
use tx_driver.Base.{
  suc, ◌^◌, ◌<◌, ◌≤◌, ◌≡◌, refl, Option, none, some, ◌∷◌, arith, sub64, Returns, returns,
  Returns-bind, Bool-cases, inl, inr,
}
use tx_driver.Journal.Create.{
  tags_per_block, wbuf_bytes, out_1, out_2, out_3, init_wbuf, init_tables, init_buffer_head,
  init_wait_queue, txd_journal_init_common, txd_get_journal, init_defaults, new_journal,
}
use tx_driver.Journal.Defs.{
  Journal, Lock, sizeof_buffer_head, txd_abort, journal_revoke_default_hash,
}
use tx_driver.Malloc.{Memory, Grants, spdk}
use tx_driver.Malloc.Accounting.{free_newest}
use tx_driver.Malloc.Owned.{
  Restored, Refused, spdk_block, allocated, zmalloc_granted, zmalloc_refused,
}
use tx_driver.Ondisk.{Superblock}
use tx_driver.Revoke.{ListHeads, RevokeSlots}
use tx_driver.Revoke.Lifecycle.{Built, init_revoke-InitResult, destroy_revoke-restores}

module _ (lists : ListHeads) (garbage : Journal lists.Head) (grants : Grants) where
  open lists use {Head}

  -- The memory with the block of the journal, and with that of the buffer head on top of it.
  abbrev pub with_journal : Memory → Memory
  with_journal m = allocated grants sizeof_pointer m

  abbrev pub with_buffer_head : Memory → Memory
  with_buffer_head m = allocated grants sizeof_buffer_head (with_journal m)

  -- A journal that describes the log of `sb`, still marked as aborted, and the memory that it has.
  pub record IsReady (sb : Superblock) (m : Memory) (j : Journal Head) (m' : Memory) : Type 0 where
    pub addr : j.addr ≡ m.serial
    pub between : Memory
    pub tables :
        Built lists grants journal_revoke_default_hash (with_buffer_head m) j.revoke between
    pub wbuf : j.j_wbuf ≡ some between.serial
    pub wbufsize : j.j_wbufsize ≡ tags_per_block lists garbage sb.s_blocksize
    pub live :
        m'.live ≡ spdk_block between.serial (wbuf_bytes lists garbage j.j_wbufsize) ∷ between.live
    pub serial : m'.serial ≡ suc between.serial
    pub superblock : j.j_superblock ≡ some sb
    pub sb_buffer :
        j.j_sb_buffer
        ≡ some (record { addr = suc m.serial; bh_status = 0; bh_buf = sb; bh_pno = 0 })
    pub flags : j.j_flags ≡ txd_abort
    pub first : j.j_first ≡ sb.s_first
    pub last : j.j_last ≡ sb.s_maxlen
    pub maxlen : j.j_maxlen ≡ sb.s_maxlen
    pub tail : j.j_tail ≡ sb.s_start
    pub tail_sequence : j.j_tail_sequence ≡ sb.s_sequence
    pub errno : j.j_errno ≡ sb.s_errno
    pub checkpoint_mutex : j.j_checkpoint_mutex ≡ Lock.free
    pub wait_done_commit : j.j_wait_done_commit ≡ init_wait_queue
    pub failed_commit : j.j_failed_commit ≡ garbage.j_failed_commit
    pub transaction_sequence : j.j_transaction_sequence ≡ garbage.j_transaction_sequence

  abbrev pub CreateResult : Superblock → Memory → Option (Journal Head) → Memory → Type 0
  CreateResult sb m none m' = Restored m m' × Refused grants
  CreateResult sb m (some j) m' = IsReady sb m j m'

  out_1-restores :
      (sb : Superblock) (m m' : Memory)
      → m.allocated_mem_size < 2 ^ 64
      → Restored (with_journal m) m'
      → Refused grants
      → Returns (CreateResult sb m) (out_1 lists garbage grants m.serial m')
  unfolding out_1
  out_1-restores sb m m' small back refusal =
      let counter : sub64 m'.allocated_mem_size sizeof_pointer ≡ m.allocated_mem_size =
        omega (arith, back.allocated) in
      let later : m.serial ≤ m'.serial = omega (arith, back.serial) in
      rw (free_newest m.serial sizeof_pointer m' m.live back.live)
        (returns (record { live = refl; allocated = counter; serial = later }, refusal))

  out_2-restores :
      (sb : Superblock) (m m' : Memory)
      → m.allocated_mem_size < 2 ^ 64
      → Restored (with_buffer_head m) m'
      → Refused grants
      → Returns (CreateResult sb m) (out_2 lists garbage grants m.serial (suc m.serial) m')
  unfolding out_2
  out_2-restores sb m m' small back refusal =
      let m₁ = with_journal m in
      let counter : sub64 m'.allocated_mem_size sizeof_buffer_head ≡ m₁.allocated_mem_size =
        omega (arith, back.allocated) in
      let later : m₁.serial ≤ m'.serial = omega (arith, back.serial) in
      rw (free_newest (suc m.serial) sizeof_buffer_head m' m₁.live back.live) (
        out_1-restores sb m _ small (record { live = refl; allocated = counter; serial = later })
          refusal)

  out_3-restores :
      (sb : Superblock) (m between m' : Memory) (slots : RevokeSlots Head)
      → m.allocated_mem_size < 2 ^ 64
      → Built lists grants journal_revoke_default_hash (with_buffer_head m) slots between
      → Restored between m'
      → Refused grants
      → Returns (CreateResult sb m) (out_3 lists garbage grants m.serial (suc m.serial) slots m')
  unfolding out_3
  out_3-restores sb m between m' slots small built back refusal =
      Returns-bind
        (destroy_revoke-restores lists grants journal_revoke_default_hash (omega arith)
          (omega arith) (with_buffer_head m) between m' slots (omega arith) built back)
        (λ slots' m₃ (restored, _). out_2-restores sb m m₃ small restored refusal)

  -- The journal as it stands before its revoke tables.
  abbrev defaults : Memory → Journal Head
  defaults m = init_defaults lists garbage (new_journal lists garbage m.serial)

  init_wbuf-CreateResult :
      (sb : Superblock) (m between : Memory) (slots : RevokeSlots Head)
      → m.allocated_mem_size < 2 ^ 64
      → Built lists grants journal_revoke_default_hash (with_buffer_head m) slots between
      → Returns (CreateResult sb m) (
          init_wbuf lists garbage grants sb
            (suc m.serial)
            (record (defaults m) { revoke = slots })
            between)
  unfolding init_wbuf init_defaults new_journal
  init_wbuf-CreateResult sb m between slots small built =
      let bytes = wbuf_bytes lists garbage (tags_per_block lists garbage sb.s_blocksize) in
      elim (Bool-cases (grants spdk between.serial bytes)) [
        | inr refused ↦ rw (zmalloc_refused grants bytes between refused) (
            out_3-restores sb m between _ slots small built
              (record { live = refl; allocated = refl; serial = omega arith })
              (record { serial = between.serial; bytes = bytes; refused = refused }))
        | inl granted ↦ rw (zmalloc_granted grants bytes between granted) (
            returns (record {
              addr = refl;
              between = between;
              tables = built;
              wbuf = refl;
              wbufsize = refl;
              live = refl;
              serial = refl;
              superblock = refl;
              sb_buffer = refl;
              flags = refl;
              first = refl;
              last = refl;
              maxlen = refl;
              tail = refl;
              tail_sequence = refl;
              errno = refl;
              checkpoint_mutex = refl;
              wait_done_commit = refl;
              failed_commit = refl;
              transaction_sequence = refl;
            }))
      ]

  init_tables-CreateResult :
      (sb : Superblock) (m : Memory)
      → m.allocated_mem_size < 2 ^ 64
      → Returns
          (CreateResult sb m)
          (init_tables lists garbage grants sb (suc m.serial) (defaults m) (with_buffer_head m))
  unfolding init_tables init_defaults new_journal
  init_tables-CreateResult sb m small =
      Returns-bind
        (init_revoke-InitResult lists grants journal_revoke_default_hash (omega arith) (omega arith)
          (with_buffer_head m) _ (omega arith))
        (λ (err, slots) m₃ result. elim result [
          | inl (done, built) ↦ rw done (init_wbuf-CreateResult sb m m₃ slots small built)
          | inr (failed, unbuilt) ↦
              rw failed (out_2-restores sb m m₃ small unbuilt.restored unbuilt.refused)
        ])

  init_buffer_head-CreateResult :
      (sb : Superblock) (m : Memory)
      → m.allocated_mem_size < 2 ^ 64
      → Returns
          (CreateResult sb m)
          (init_buffer_head lists garbage grants sb m.serial (with_journal m))
  unfolding init_buffer_head
  init_buffer_head-CreateResult sb m small =
      elim (Bool-cases (grants spdk (suc m.serial) sizeof_buffer_head)) [
        | inr refused ↦ rw (zmalloc_refused grants sizeof_buffer_head (with_journal m) refused) (
            out_1-restores sb m _ small
              (record { live = refl; allocated = refl; serial = omega arith })
              (record { serial = suc m.serial; bytes = sizeof_buffer_head; refused = refused }))
        | inl granted ↦
            rw (zmalloc_granted grants sizeof_buffer_head (with_journal m) granted)
              (init_tables-CreateResult sb m small)
      ]

  -- `txd_journal_init_common` always returns. Either it returns a journal that describes the log of
  -- the superblock and is marked as aborted, with two revoke tables of 256 empty lists and a buffer
  -- array, and exactly the blocks of these on top of the memory; or it returns NULL, one of its
  -- requests was refused, and the live blocks and the counter are as before the call.
  pub init_common-CreateResult :
      (sb : Superblock) (m : Memory)
      → m.allocated_mem_size < 2 ^ 64
      → Returns (CreateResult sb m) (txd_journal_init_common lists garbage grants sb m)
  unfolding txd_journal_init_common
  init_common-CreateResult sb m small = elim (Bool-cases (grants spdk m.serial sizeof_pointer)) [
    | inr refused ↦ rw (zmalloc_refused grants sizeof_pointer m refused) (
        returns (
          record { live = refl; allocated = refl; serial = omega arith },
          record { serial = m.serial; bytes = sizeof_pointer; refused = refused },
        ))
    | inl granted ↦
        rw (zmalloc_granted grants sizeof_pointer m granted)
          (init_buffer_head-CreateResult sb m small)
  ]

  -- The same of `txd_get_journal`, which sets three times of the journal anew.
  pub get_journal-CreateResult :
      (sb : Superblock) (m : Memory)
      → m.allocated_mem_size < 2 ^ 64
      → Returns (CreateResult sb m) (txd_get_journal lists garbage grants sb m)
  unfolding txd_get_journal
  get_journal-CreateResult sb m small = Returns-bind (init_common-CreateResult sb m small) (elim [
    | none ↦ λ m' back. returns back
    | some j ↦ λ m' r. returns (record {
      addr = r.addr;
      between = r.between;
      tables = r.tables;
      wbuf = r.wbuf;
      wbufsize = r.wbufsize;
      live = r.live;
      serial = r.serial;
      superblock = r.superblock;
      sb_buffer = r.sb_buffer;
      flags = r.flags;
      first = r.first;
      last = r.last;
      maxlen = r.maxlen;
      tail = r.tail;
      tail_sequence = r.tail_sequence;
      errno = r.errno;
      checkpoint_mutex = r.checkpoint_mutex;
      wait_done_commit = r.wait_done_commit;
      failed_commit = r.failed_commit;
      transaction_sequence = r.transaction_sequence;
    })
  ])
