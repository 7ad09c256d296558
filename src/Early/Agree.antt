-- ===== src/Early/Agree.antt =====
-- The two variants where every request is granted: they make the same journal.
use tx_driver.Abi.{sizeof_pointer}
use tx_driver.Base.{
  none, ℕ, suc, ◌≡◌, refl, ◌∙◌, sym, ap, some, ok, true, Returns-cases, Option, arith,
}
use tx_driver.Early.Create
use tx_driver.Early.Creation.{early_get_journal-CreateResult}
use tx_driver.Early.Ready.{
  default_shift, default_shift_lem, IsBlank, tables_at, ready_journal, ready_memory, CreateResult,
}
use tx_driver.Early.Tables.{new_table}
use tx_driver.Journal.Create.{
  init_wait_queue, new_journal, set_geometry, init_defaults, tags_per_block, wbuf_bytes, init_wbuf,
  init_tables, init_buffer_head, txd_journal_init_common, txd_get_journal,
}
use tx_driver.Journal.Defs.{Journal, sizeof_buffer_head, journal_revoke_default_hash, Lock}
use tx_driver.Malloc.{Memory, Grants, Source, txd_zmalloc_spdk, libc}
use tx_driver.Malloc.Owned.{allocated, zmalloc_granted}
use tx_driver.Ondisk.{Superblock}
use tx_driver.Revoke.{
  ListHeads, RevokeSlots, sizeof_revoke_table, bucket_bytes, fill_revoke_table,
  txd_journal_init_revoke_table, init_second_table, txd_journal_init_revoke,
}

module _ (lists : ListHeads) (garbage : Journal lists.Head) (grants : Grants)
    (granted : (src : Source) (serial bytes : ℕ) → grants src serial bytes ≡ true) where
  open lists use {Head}

  abbrev hash_size : ℕ
  hash_size = journal_revoke_default_hash

  abbrev with_table : Memory → Memory
  with_table m = allocated grants (bucket_bytes hash_size) (allocated grants sizeof_revoke_table m)

  zmalloc_granted_lem :
      (size : ℕ) (m : Memory)
      → txd_zmalloc_spdk grants size m ≡ ok (some m.serial) (allocated grants size m)
  zmalloc_granted_lem size m = zmalloc_granted grants size m (granted _ _ _)

  table_made :
      (m : Memory)
      → txd_journal_init_revoke_table lists grants hash_size m
        ≡ ok (some (new_table lists grants hash_size default_shift m.serial)) (with_table m)
  unfolding txd_journal_init_revoke_table
  table_made m = rw (zmalloc_granted_lem sizeof_revoke_table m) (
      rw (default_shift_lem, fill_revoke_table)
        (rw
          (zmalloc_granted_lem (bucket_bytes hash_size) (allocated grants sizeof_revoke_table m))))

  tables_made :
      (m : Memory) (slots : RevokeSlots Head)
      → txd_journal_init_revoke lists grants slots hash_size m
        ≡ ok (0, tables_at lists garbage grants m.serial) (with_table (with_table m))
  unfolding txd_journal_init_revoke init_second_table
  tables_made m slots = rw (table_made m) (rw (table_made (with_table m)))

  abbrev with_head : Memory → Memory
  with_head m = allocated grants sizeof_buffer_head (allocated grants sizeof_pointer m)

  -- The journal that the current driver makes.
  abbrev made_journal : Superblock → ℕ → Journal Head
  made_journal sb serial =
      record (set_geometry lists garbage sb
        (record (init_defaults lists garbage (new_journal lists garbage serial)) {
          revoke = tables_at lists garbage grants (suc (suc serial));
        })) {
          j_wbuf = some (suc (suc (suc (suc (suc (suc serial))))));
          j_sb_buffer = some (record { addr = suc serial; bh_status = 0; bh_buf = sb; bh_pno = 0 });
          j_superblock = some sb;
        }

  abbrev made_memory : Superblock → Memory → Memory
  made_memory sb m =
      allocated grants (wbuf_bytes lists garbage (tags_per_block lists garbage sb.s_blocksize))
        (with_table (with_table (with_head m)))

  journal_made :
      (sb : Superblock) (m : Memory)
      → txd_get_journal lists garbage grants sb m
        ≡ ok (some (made_journal sb m.serial)) (made_memory sb m)
  unfolding txd_get_journal txd_journal_init_common init_buffer_head init_tables init_wbuf
      set_geometry init_defaults
  journal_made sb m = rw (zmalloc_granted_lem sizeof_pointer m) (
      rw (zmalloc_granted_lem sizeof_buffer_head (allocated grants sizeof_pointer m)) (
        rw (tables_made (with_head m) _) (
          rw (
            zmalloc_granted_lem
              (wbuf_bytes lists garbage (tags_per_block lists garbage sb.s_blocksize))
              (with_table (with_table (with_head m)))))))

  -- The five conditions, which the earlier variant does not set, are 0.
  pub record NoConditions : Type 0 where
    pub transaction_locked : garbage.j_wait_transaction_locked.condition ≡ 0
    pub done_commit : garbage.j_wait_done_commit.condition ≡ 0
    pub commit : garbage.j_wait_commit.condition ≡ 0
    pub updates : garbage.j_wait_updates.condition ≡ 0
    pub reserved : garbage.j_wait_reserved.condition ≡ 0

  abbrev queue_path :
      {c : ℕ}
      → c ≡ 0
      → init_wait_queue ≡ Create.init_wait_queue (record init_wait_queue { condition = c })
  queue_path e i = record { condition = sym e i; wq_mtx = Lock.free; wq_cnd = true }

  defaults_agree :
      (z : NoConditions) (serial : ℕ)
      → init_defaults lists garbage (new_journal lists garbage serial)
        ≡ Create.init_defaults lists garbage (new_journal lists garbage serial)
  unfolding init_defaults Create.init_defaults new_journal
  defaults_agree z serial i =
      record (init_defaults lists garbage (new_journal lists garbage serial)) {
        j_wait_transaction_locked = queue_path z.transaction_locked i;
        j_wait_done_commit = queue_path z.done_commit i;
        j_wait_commit = queue_path z.commit i;
        j_wait_updates = queue_path z.updates i;
        j_wait_reserved = queue_path z.reserved i;
      }

  abbrev completed : Superblock → ℕ → Journal Head → Journal Head
  completed sb serial j =
      record (set_geometry lists garbage sb
        (record j { revoke = tables_at lists garbage grants (suc (suc serial)) })) {
          j_wbuf = some (suc (suc (suc (suc (suc (suc serial))))));
          j_sb_buffer = some (record { addr = suc serial; bh_status = 0; bh_buf = sb; bh_pno = 0 });
          j_superblock = some sb;
        }

  granted_result :
      (sb : Superblock) (m : Memory) (o : Option (Journal Head)) (m' : Memory)
      → CreateResult lists garbage grants sb m o m'
      → ok o m'
        ≡ ok
            (some (ready_journal lists garbage grants sb m.serial))
            (ready_memory lists garbage grants sb m)
  granted_result sb m none m' f =
      absurd (ground (arith, f.refused.refused, granted libc f.refused.serial f.refused.bytes))
  granted_result sb m (some j) m' (made, memory) = cc

  early_made :
      (blank : IsBlank lists garbage grants) (sb : Superblock) (m : Memory)
      → Create.txd_get_journal lists garbage grants sb m
        ≡ ok
            (some (ready_journal lists garbage grants sb m.serial))
            (ready_memory lists garbage grants sb m)
  early_made blank sb m =
      let (o, m', run, result) =
        Returns-cases (early_get_journal-CreateResult lists garbage grants blank sb m) in
      run ∙ granted_result sb m o m' result

  -- Where every request is granted, the fresh memory holds no tables and no buffer array and its five
  -- conditions are 0, `txd_get_journal` of the two variants returns the same journal, after the same
  -- number of requests; the earlier one leaves the counter alone.
  pub get_journal-agrees :
      IsBlank lists garbage grants
      → NoConditions
      → (sb : Superblock) (m : Memory)
      → (j : Journal Head) × (m₁ : Memory) × (m₂ : Memory) × (txd_get_journal lists garbage grants
            sb m
          ≡ ok (some j) m₁)
        × (Create.txd_get_journal lists garbage grants sb m ≡ ok (some j) m₂)
        × (m₁.serial ≡ m₂.serial)
        × (m₂.allocated_mem_size ≡ m.allocated_mem_size)
  get_journal-agrees blank z sb m = (
    ready_journal lists garbage grants sb m.serial,
    made_memory sb m,
    ready_memory lists garbage grants sb m,
    journal_made sb m
        ∙ ap (λ j. ok (some (completed sb m.serial j)) (made_memory sb m))
            (defaults_agree z m.serial),
    early_made blank sb m,
    refl,
    refl,
  )
