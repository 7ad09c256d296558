-- ===== src/Examples/Revocation.antt =====
-- src/txd_revoke.c with tables of one and two buckets.
use tx_driver.Base.{
  ℕ, ◌+◌, ◌*◌, ◌^◌, ◌<◌, ◌≤◌, ◌≡◌, refl, none, some, arith, Returns, Returns-value, inl, inr, [],
  ◌∷◌, Bool, true, ok,
}
use tx_driver.Examples.{generous, bit_heads, fresh_memory, no_slots}
use tx_driver.Malloc.{Memory, txd_zmalloc_spdk}
use tx_driver.Malloc.Owned.{Restored, spdk_block}
use tx_driver.Revoke.{
  RevokeTable, RevokeSlots, shift_loop, int_bits, txd_journal_init_revoke_table,
  txd_journal_init_revoke, txd_journal_destroy_revoke,
}
use tx_driver.Revoke.Shift.{hash_shift-log}
use tx_driver.Revoke.Lifecycle.{Built, InitResult, init_revoke-InitResult, destroy_revoke-restores}

hash_shift-log_example :
    (e : ℕ) × (shift_loop int_bits 256 0 ≡ some e) × (2 ^ e ≤ 256) × (256 < 2 * 2 ^ e)
hash_shift-log_example = hash_shift-log 256 (omega arith) (omega arith)

init_revoke-InitResult_example :
    Returns
      (InitResult bit_heads generous 256 fresh_memory)
      (txd_journal_init_revoke bit_heads generous no_slots 256 fresh_memory)
init_revoke-InitResult_example =
    init_revoke-InitResult bit_heads generous 256 (omega arith) (omega arith) fresh_memory no_slots
      (omega arith)

abbrev table : ℕ → RevokeTable Bool
table addr = record {
  addr = addr;
  hash_size = 2;
  hash_shift = 1;
  hash_table_at = addr + 1;
  hash_table = true ∷ true ∷ [];
}

abbrev two_tables : RevokeSlots Bool
two_tables = record {
  j_revoke = some (table 3);
  j_revoke_table_0 = some (table 1);
  j_revoke_table_1 = some (table 3);
}

abbrev tables_memory : Memory
tables_memory = record {
  allocated_mem_size = 96;
  live = spdk_block 4 32 ∷ spdk_block 3 16 ∷ spdk_block 2 32 ∷ spdk_block 1 16 ∷ [];
  serial = 5;
}

two_tables_run :
    txd_journal_init_revoke bit_heads generous no_slots 2 fresh_memory
    ≡ ok (0, two_tables) tables_memory
unfolding txd_journal_init_revoke txd_journal_init_revoke_table txd_zmalloc_spdk shift_loop
two_tables_run = refl

two_tables-Built : Built bit_heads generous 2 fresh_memory two_tables tables_memory
two_tables-Built =
    elim (Returns-value
      (init_revoke-InitResult bit_heads generous 2 (omega arith) (omega arith) fresh_memory no_slots
        (omega arith))
      two_tables_run) [ inl (_, built) ↦ built | inr (wrong, _) ↦ absurd (omega (arith, wrong)) ]

destroy_revoke-restores_example :
    Returns
      (λ slots' m₃. Restored fresh_memory m₃ × (slots'.j_revoke ≡ none))
      (txd_journal_destroy_revoke bit_heads generous two_tables tables_memory)
destroy_revoke-restores_example =
    destroy_revoke-restores bit_heads generous 2 (omega arith) (omega arith) fresh_memory
      tables_memory tables_memory two_tables (omega arith) two_tables-Built
      (record { live = refl; allocated = refl; serial = omega arith })
