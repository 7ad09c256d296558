-- ===== src/Early/Tables.antt =====
-- The revoke tables of the earlier variant: what their functions return, and the blocks of libc that
-- they take and give back.
use tx_driver.Base.{
  ℕ, suc, ◌≡◌, refl, Option, none, some, List, ◌∷◌, arith, ok, replicate, Returns, returns,
  Bool-cases, inl, inr, true, false,
}
use tx_driver.Early.Revoke.{
  fill_revoke_table, txd_journal_init_revoke_table, txd_journal_destroy_revoke_table,
}
use tx_driver.Malloc.{Memory, Grants, Block, libc, take_back, obtain}
use tx_driver.Malloc.Owned.{take_back-head, obtain_granted, give_back_found}
use tx_driver.Revoke.{
  ListHeads, RevokeTable, sizeof_revoke_table, bucket_bytes, shift_loop, int_bits, init_buckets,
}
use tx_driver.Revoke.Buckets.{init_buckets-empty, assert_empty-passes}

abbrev pub libc_block : ℕ → ℕ → Block
libc_block addr bytes = record { addr = addr; bytes = bytes; source = libc }

-- The memory with one more block of libc, and with one more request that was refused.
abbrev pub with_block : ℕ → Memory → Memory
with_block bytes m = record m { live = libc_block m.serial bytes ∷ m.live; serial = suc m.serial }

abbrev pub passed_over : Memory → Memory
passed_over m = record m { serial = suc m.serial }

-- The live blocks and the counter are as before.
pub record Restored (m m' : Memory) : Type 0 where
  pub live : m'.live ≡ m.live
  pub allocated : m'.allocated_mem_size ≡ m.allocated_mem_size

module _ (grants : Grants) where
  -- libc refused a request.
  pub record Refused : Type 0 where
    pub serial : ℕ
    pub bytes : ℕ
    pub refused : grants libc serial bytes ≡ false

  pub calloc_granted :
      (bytes : ℕ) (m : Memory)
      → grants libc m.serial bytes ≡ true
      → obtain grants libc bytes m ≡ ok (some m.serial) (with_block bytes m)
  calloc_granted bytes m e = obtain_granted grants libc bytes m e

  pub calloc_refused :
      (bytes : ℕ) (m : Memory)
      → grants libc m.serial bytes ≡ false
      → obtain grants libc bytes m ≡ ok none (passed_over m)
  unfolding obtain
  calloc_refused bytes m e = rw e

module _ (lists : ListHeads) (grants : Grants) where
  open lists use {Head, zeroed}

  -- The table that is made from the next two requests.
  abbrev pub new_table : (hash_size shift serial : ℕ) → RevokeTable Head
  new_table hash_size shift serial = record {
    addr = serial;
    hash_size = hash_size;
    hash_shift = shift;
    hash_table_at = suc serial;
    hash_table = init_buckets lists grants hash_size 0 (replicate hash_size zeroed);
  }

  abbrev pub with_table : ℕ → Memory → Memory
  with_table hash_size m = with_block (bucket_bytes hash_size) (with_block sizeof_revoke_table m)

  -- Giving back a table whose blocks are found.
  pub destroy_revoke_table-frees :
      (hash_size shift serial : ℕ) (m : Memory) {l₁ l₂ : List Block}
      → take_back libc (suc serial) m.live ≡ some l₁
      → take_back libc serial l₁ ≡ some l₂
      → txd_journal_destroy_revoke_table lists grants (new_table hash_size shift serial) m
        ≡ ok tt (record m { live = l₂ })
  unfolding txd_journal_destroy_revoke_table
  destroy_revoke_table-frees hash_size shift serial m {l₁} {l₂} first second =
      rw
        (assert_empty-passes lists grants hash_size 0 hash_size _ m (omega arith)
          (init_buckets-empty lists grants hash_size).0)
        (rw (give_back_found libc (suc serial) m first)
          (give_back_found libc serial (record m { live = l₁ }) second))

  module _ (hash_size shift : ℕ) (run : shift_loop int_bits hash_size 0 ≡ some shift) where
    -- A table, or nothing.
    abbrev pub TableResult : Memory → Option (RevokeTable Head) → Memory → Type 0
    TableResult m none m' = Restored m m' × Refused grants
    TableResult m (some t) m' =
        (t ≡ new_table hash_size shift m.serial)
        × (m' ≡ with_table hash_size m)
        × (grants libc m.serial sizeof_revoke_table ≡ true)
        × (grants libc (suc m.serial) (bucket_bytes hash_size) ≡ true)

    pub init_revoke_table_lem :
        (m : Memory)
        → Returns (TableResult m) (txd_journal_init_revoke_table lists grants hash_size m)
    unfolding txd_journal_init_revoke_table fill_revoke_table
    init_revoke_table_lem m =
        let m₁ = with_block sizeof_revoke_table m in
        let bytes = bucket_bytes hash_size in
        elim (Bool-cases (grants libc m.serial sizeof_revoke_table)) [
          | inr refused ↦ rw (calloc_refused grants sizeof_revoke_table m refused) (
              returns (
                record { live = refl; allocated = refl },
                record { serial = m.serial; bytes = sizeof_revoke_table; refused = refused },
              ))
          | inl granted ↦ rw (calloc_granted grants sizeof_revoke_table m granted) (
              rw (run, fill_revoke_table)
                (elim (Bool-cases (grants libc m₁.serial bytes)) [
                  | inr refused ↦ rw (calloc_refused grants bytes m₁ refused) (
                      rw
                        (give_back_found libc m.serial (passed_over m₁)
                          (take_back-head (libc_block m.serial sizeof_revoke_table) m.live))
                        (returns (
                          record { live = refl; allocated = refl },
                          record { serial = m₁.serial; bytes = bytes; refused = refused },
                        )))
                  | inl granted' ↦
                      rw (calloc_granted grants bytes m₁ granted')
                        (returns (refl, refl, granted, granted'))
                ]))
        ]
