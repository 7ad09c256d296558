-- ===== src/Revoke/Tables.antt =====
-- One revoke table: what `txd_journal_init_revoke_table` returns, with the memory that it takes,
-- and `txd_journal_destroy_revoke_table` of such a table.
use tx_driver.Revoke.{
  ListHeads, RevokeTable, bucket_bytes, sizeof_revoke_table, fill_revoke_table,
  txd_journal_init_revoke_table, txd_journal_destroy_revoke_table,
}
use tx_driver.Revoke.Shift.{hash_shift-log}
use tx_driver.Revoke.Buckets.{EmptyRange, init_buckets-empty, assert_empty-passes}
use tx_driver.Malloc.{Memory, Grants, Block, spdk, take_back}
use tx_driver.Malloc.Owned.{
  spdk_block, Restored, Refused, allocated, zmalloc_granted, zmalloc_refused,
}
use tx_driver.Malloc.Accounting.{free_newest, free_steps}
use tx_driver.Base.{
  ℕ, suc, ◌+◌, ◌*◌, ◌^◌, ◌<◌, ◌≤◌, ◌≡◌, refl, List, arith, length, ok, Option, some, none, ◌∷◌,
  Returns, returns, Bool-cases, inl, inr, u64, sub64, sub64-add,
}

module _ (lists : ListHeads) (grants : Grants) where
  open lists use {Head}

  -- A new table of `hash_size` empty lists.
  pub record IsFresh (hash_size : ℕ) (t : RevokeTable Head) : Type 0 where
    pub size : t.hash_size ≡ hash_size
    pub buckets : length t.hash_table ≡ hash_size
    pub empty : EmptyRange lists grants 0 hash_size t.hash_table
    pub shift_low : 2 ^ t.hash_shift ≤ hash_size
    pub shift_high : hash_size < 2 * 2 ^ t.hash_shift

  -- The two blocks of a table are the newest, and the counter has grown by their sizes.
  pub record Holds (hash_size : ℕ) (m : Memory) (t : RevokeTable Head) (m' : Memory) : Type 0 where
    pub fresh : IsFresh hash_size t
    pub addr : t.addr ≡ m.serial
    pub hash_table_at : t.hash_table_at ≡ suc m.serial
    pub serial : m'.serial ≡ suc (suc m.serial)
    pub live :
        m'.live
        ≡ spdk_block (suc m.serial) (bucket_bytes hash_size)
          ∷ (spdk_block m.serial sizeof_revoke_table ∷ m.live)
    pub allocated :
        m'.allocated_mem_size
        ≡ u64 (u64 (m.allocated_mem_size + sizeof_revoke_table) + bucket_bytes hash_size)

  abbrev pub TableResult : ℕ → Memory → Option (RevokeTable Head) → Memory → Type 0
  TableResult hash_size m none m' = Restored m m' × Refused grants
  TableResult hash_size m (some t) m' = Holds hash_size m t m'

  -- Destroying a fresh table passes its assertions, and gives back its two blocks, wherever these
  -- stand among the live ones.
  pub destroy_revoke_table-frees :
      (hash_size : ℕ) (t : RevokeTable Head) (m : Memory) {l₁ l₂ : List Block}
      → IsFresh hash_size t
      → take_back spdk t.hash_table_at m.live ≡ some l₁
      → take_back spdk t.addr l₁ ≡ some l₂
      → txd_journal_destroy_revoke_table lists grants t m
        ≡ ok tt (record m {
          allocated_mem_size =
              sub64 (sub64 m.allocated_mem_size (bucket_bytes hash_size)) sizeof_revoke_table;
          live = l₂;
        })
  unfolding txd_journal_destroy_revoke_table
  destroy_revoke_table-frees hash_size t m {l₁} {l₂} fresh first second =
      rw
        (
          fresh.size,
          assert_empty-passes lists grants hash_size 0 hash_size t.hash_table m (omega arith)
              fresh.empty,
        )
        (rw (free_steps spdk t.hash_table_at (bucket_bytes hash_size) m l₁ first) (
          free_steps spdk t.addr sizeof_revoke_table
            (record m {
              allocated_mem_size = sub64 m.allocated_mem_size (bucket_bytes hash_size);
              live = l₁;
            })
            l₂ second))

  module _ (hash_size : ℕ) (pos : 0 < hash_size) (fits : hash_size < 2 ^ 31) where
    -- The second half, with the struct at `m.serial` and `m₁` the memory after that request.
    fill_revoke_table-TableResult :
        (m : Memory)
        → m.allocated_mem_size < 2 ^ 64
        → Returns (TableResult hash_size m) (
            fill_revoke_table lists grants m.serial hash_size
              (allocated grants sizeof_revoke_table m))
    unfolding fill_revoke_table
    fill_revoke_table-TableResult m small =
        let (e, run, low, high) = hash_shift-log hash_size pos fits in
        let m₁ = allocated grants sizeof_revoke_table m in
        let bytes = bucket_bytes hash_size in
        rw (run, fill_revoke_table)
          (elim (Bool-cases (grants spdk (suc m.serial) bytes)) [
            | inr refused ↦ rw (zmalloc_refused grants bytes m₁ refused) (
                rw
                  (free_newest m.serial sizeof_revoke_table (record m₁ { serial = suc m₁.serial })
                    m.live refl)
                  (returns (
                    record { live = refl; allocated = sub64-add _ _ small; serial = omega arith },
                    record { serial = suc m.serial; bytes = bytes; refused = refused },
                  )))
            | inl granted ↦ rw (zmalloc_granted grants bytes m₁ granted) (
                returns (record {
                  fresh = record {
                    size = refl;
                    buckets = (init_buckets-empty lists grants hash_size).1;
                    empty = (init_buckets-empty lists grants hash_size).0;
                    shift_low = low;
                    shift_high = high;
                  };
                  addr = refl;
                  hash_table_at = refl;
                  serial = refl;
                  live = refl;
                  allocated = refl;
                }))
          ])

    -- `txd_journal_init_revoke_table` always returns, for a positive `int` size: either a table of
    -- that many empty lists with the right shift, or NULL with all that it took given back,
    -- and then a request was refused.
    pub init_revoke_table-TableResult :
        (m : Memory)
        → m.allocated_mem_size < 2 ^ 64
        → Returns (TableResult hash_size m) (txd_journal_init_revoke_table lists grants hash_size m)
    unfolding txd_journal_init_revoke_table
    init_revoke_table-TableResult m small =
        elim (Bool-cases (grants spdk m.serial sizeof_revoke_table)) [
          | inr refused ↦ rw (zmalloc_refused grants sizeof_revoke_table m refused) (
              returns (
                record { live = refl; allocated = refl; serial = omega arith },
                record { serial = m.serial; bytes = sizeof_revoke_table; refused = refused },
              ))
          | inl granted ↦
              rw (zmalloc_granted grants sizeof_revoke_table m granted)
                (fill_revoke_table-TableResult m small)
        ]
