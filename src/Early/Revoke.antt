-- ===== src/Early/Revoke.antt =====
-- src/txdriver_revoke.c: the revoke tables in libc's memory. The shift loop, the initialisation of
-- the buckets and the assertions on them are the same statements as in src/txd_revoke.c.
use tx_driver.Base.{ℕ, Option, none, some, aborted, blocked, Cmd, pure, ◌>>=◌, ◌>>◌, replicate}
use tx_driver.Malloc.{Memory, Grants, libc, obtain, give_back}
use tx_driver.Revoke.{
  ListHeads, RevokeTable, RevokeSlots, sizeof_revoke_table, bucket_bytes, shift_loop, int_bits,
  minus_enomem, init_buckets, assert_empty,
}

module _ (lists : ListHeads) (grants : Grants) where
  open lists use {Head, zeroed}

  -- The rest of the function once the struct is there.
  unfoldable pub fill_revoke_table : ℕ → ℕ → Cmd Memory (Option (RevokeTable Head))
  fill_revoke_table table hash_size = elim (shift_loop int_bits hash_size 0) [
    | none ↦ λ m. blocked
    | some shift ↦ do
      buckets ← obtain grants libc (bucket_bytes hash_size)
      elim buckets [
        | none ↦ give_back libc (some table) >> pure none
        | some b ↦ pure (
            some (record {
              addr = table;
              hash_size = hash_size;
              hash_shift = shift;
              hash_table_at = b;
              hash_table = init_buckets lists grants hash_size 0 (replicate hash_size zeroed);
            }))
      ]
  ]

  unfoldable pub txd_journal_init_revoke_table : ℕ → Cmd Memory (Option (RevokeTable Head))
  txd_journal_init_revoke_table hash_size = do
    table ← obtain grants libc sizeof_revoke_table
    elim table [ none ↦ pure none | some t ↦ fill_revoke_table t hash_size ]

  unfoldable pub txd_journal_destroy_revoke_table : RevokeTable Head → Cmd Memory (Unit {0})
  txd_journal_destroy_revoke_table table = do
    assert_empty lists grants table.hash_size 0 table.hash_table
    give_back libc (some table.hash_table_at)
    give_back libc (some table.addr)

  -- `if (table) txd_journal_destroy_revoke_table(table);`
  abbrev pub destroy_if_set : Option (RevokeTable Head) → Cmd Memory (Unit {0})
  destroy_if_set none = pure tt
  destroy_if_set (some table) = txd_journal_destroy_revoke_table table

  unfoldable pub txd_journal_destroy_revoke : RevokeSlots Head → Cmd Memory (RevokeSlots Head)
  txd_journal_destroy_revoke slots = do
    destroy_if_set slots.j_revoke_table_0
    destroy_if_set slots.j_revoke_table_1
    pure (record slots { j_revoke = none })

  -- The second table, and the way out if there is none.
  unfoldable pub init_second_table :
      RevokeSlots Head → RevokeTable Head → ℕ → Cmd Memory (ℕ × RevokeSlots Head)
  init_second_table slots first hash_size = do
    second ← txd_journal_init_revoke_table hash_size
    elim second [
      | none ↦ do
        txd_journal_destroy_revoke_table first
        pure (minus_enomem, record slots { j_revoke_table_0 = none; j_revoke_table_1 = none })
      | some t ↦ pure (
        0,
        record { j_revoke = some t; j_revoke_table_0 = some first; j_revoke_table_1 = some t },
      )
    ]

  -- Both tables, once the assertion has passed.
  unfoldable pub init_tables : RevokeSlots Head → ℕ → Cmd Memory (ℕ × RevokeSlots Head)
  init_tables slots hash_size = do
    first ← txd_journal_init_revoke_table hash_size
    elim first [
      | none ↦ pure (minus_enomem, record slots { j_revoke_table_0 = none })
      | some t ↦ init_second_table slots t hash_size
    ]

  -- `assert(journal_t->j_revoke_table[0] == NULL)` comes first.
  unfoldable pub txd_journal_init_revoke : RevokeSlots Head → ℕ → Cmd Memory (ℕ × RevokeSlots Head)
  txd_journal_init_revoke slots hash_size = elim slots.j_revoke_table_0 [
    | none ↦ init_tables slots hash_size
    | some t ↦ λ m. aborted
  ]
