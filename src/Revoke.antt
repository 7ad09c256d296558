-- ===== src/Revoke.antt =====
-- src/txd_revoke.c: the two revoke tables of a journal, each an array of list heads.
--
-- The list operations (`INIT_LIST_HEAD`, `list_empty`) come from a copy of the Linux list library,
-- which is not modelled: they are the parameter `lists`, with the one fact that the code relies on.
pub mod Shift
pub mod Buckets
pub mod Tables
pub mod Lifecycle
use tx_driver.Abi.{Member, scalar, sizeof, sizeof_pointer, sizeof_list_head}
use tx_driver.Malloc.{Memory, Grants, txd_zmalloc_spdk, txd_free_spdk}
use tx_driver.Base.{
  ℕ, zero, suc, ◌+◌, ◌*◌, ◌/◌, ◌^◌, ◌-◌, ◌<◌, ◌≡◌, Bool, true, false, Option, none, some, List, [],
  ◌∷◌, ltb, ◌==◌, if◌then◌else◌, u64, size_of_int, get_or, set, replicate, ok, aborted, blocked,
  Cmd, pure, ◌>>=◌, ◌>>◌,
}

pub record ListHeads : Type 1 where
  pub Head : Type 0
  pub zeroed : Head  -- memory of all zeros
  pub init_list_head : Head → Head
  pub list_empty : Head → Bool
  pub list_empty-init : (h : Head) → list_empty (init_list_head h) ≡ true

-- `txd_revoke_table_t`, with the addresses of the struct and of its array.
pub record RevokeTable (Head : Type 0) : Type 0 where
  pub addr : ℕ
  pub hash_size : ℕ
  pub hash_shift : ℕ
  pub hash_table_at : ℕ
  pub hash_table : List Head

abbrev pub revoke_table_members : List Member
revoke_table_members = scalar 4 ∷ scalar 4 ∷ scalar sizeof_pointer ∷ []

abbrev pub sizeof_revoke_table : ℕ
sizeof_revoke_table = sizeof revoke_table_members

-- The fields `j_revoke` and `j_revoke_table[2]` of a journal. `j_revoke` points at a table of the
-- array, and is that table here.
pub record RevokeSlots (Head : Type 0) : Type 0 where
  pub j_revoke : Option (RevokeTable Head)
  pub j_revoke_table_0 : Option (RevokeTable Head)
  pub j_revoke_table_1 : Option (RevokeTable Head)

-- `hash_size * sizeof(struct list_head)`, as a `size_t`
abbrev pub bucket_bytes : ℕ → ℕ
bucket_bytes hash_size = u64 (size_of_int hash_size * sizeof_list_head)

-- `tmp >> 1` on an `int`: the sign bit stays.
abbrev pub shift_right : ℕ → ℕ
shift_right tmp = if ltb tmp (2 ^ 31) then tmp / 2 else tmp / 2 + 2 ^ 31

-- `while ((tmp >>= 1UL) != 0UL) shift++;` in at most `fuel` rounds.
unfoldable pub shift_loop : (fuel tmp shift : ℕ) → Option ℕ
shift_loop zero tmp shift = none
shift_loop (suc fuel) tmp shift =
    let rest = shift_loop fuel (shift_right tmp) (shift + 1) in
    if shift_right tmp == 0 then some shift else rest

-- An `int` has 32 bits, so a loop that has not ended after 32 rounds never ends.
abbrev pub int_bits : ℕ
int_bits = 32

-- `-ENOMEM` as an `int`
abbrev pub minus_enomem : ℕ
minus_enomem = 2 ^ 32 - 12

module _ (lists : ListHeads) (grants : Grants) where
  open lists use {Head, zeroed, init_list_head, list_empty}

  -- `for (tmp = 0; tmp < hash_size; tmp++) INIT_LIST_HEAD(&table->hash_table[tmp]);`
  unfoldable pub init_buckets : (rounds tmp : ℕ) → List Head → List Head
  init_buckets zero tmp heads = heads
  init_buckets (suc n) tmp heads =
      init_buckets n (tmp + 1) (set heads tmp (init_list_head (get_or heads tmp zeroed)))

  -- The rest of the function once the struct is there.
  unfoldable pub fill_revoke_table : ℕ → ℕ → Cmd Memory (Option (RevokeTable Head))
  unfolding init_buckets
  fill_revoke_table table hash_size = elim (shift_loop int_bits hash_size 0) [
    | none ↦ λ m. blocked
    | some shift ↦ do
      buckets ← txd_zmalloc_spdk grants (bucket_bytes hash_size)
      elim buckets [
        | none ↦ txd_free_spdk (some table) sizeof_revoke_table >> pure none
        | some b ↦ pure (
            some (record {
              addr = table;
              hash_size = hash_size;
              hash_shift = shift;
              hash_table_at = b;
              hash_table = init_buckets hash_size 0 (replicate hash_size zeroed);
            }))
      ]
  ]

  unfoldable pub txd_journal_init_revoke_table : ℕ → Cmd Memory (Option (RevokeTable Head))
  unfolding fill_revoke_table
  txd_journal_init_revoke_table hash_size = do
    table ← txd_zmalloc_spdk grants sizeof_revoke_table
    elim table [ none ↦ pure none | some t ↦ fill_revoke_table t hash_size ]

  -- `for (i = 0; i < table->hash_size; i++) assert(list_empty(&table->hash_table[i]));`
  unfoldable pub assert_empty : (rounds i : ℕ) → List Head → Cmd Memory (Unit {0})
  assert_empty zero i heads m = ok tt m
  assert_empty (suc n) i heads m =
      let rest = assert_empty n (i + 1) heads m in
      if list_empty (get_or heads i zeroed) then rest else aborted

  unfoldable pub txd_journal_destroy_revoke_table : RevokeTable Head → Cmd Memory (Unit {0})
  unfolding assert_empty
  txd_journal_destroy_revoke_table table = do
    assert_empty table.hash_size 0 table.hash_table
    txd_free_spdk (some table.hash_table_at) (bucket_bytes table.hash_size)
    txd_free_spdk (some table.addr) sizeof_revoke_table

  -- `if (table) txd_journal_destroy_revoke_table(table);`
  unfoldable pub destroy_if_set : Option (RevokeTable Head) → Cmd Memory (Unit {0})
  destroy_if_set none = pure tt
  destroy_if_set (some table) = txd_journal_destroy_revoke_table table

  -- The pointers in the array are left as they are.
  unfoldable pub txd_journal_destroy_revoke : RevokeSlots Head → Cmd Memory (RevokeSlots Head)
  unfolding destroy_if_set
  txd_journal_destroy_revoke slots = do
    destroy_if_set slots.j_revoke_table_0
    destroy_if_set slots.j_revoke_table_1
    pure (record slots { j_revoke = none })

  -- The second table, and the way out if there is none.
  unfoldable pub init_second_table :
      RevokeSlots Head → RevokeTable Head → ℕ → Cmd Memory (ℕ × RevokeSlots Head)
  init_second_table slots first hash_size = do
    second ← txd_journal_init_revoke_table hash_size
    elim second [
      | none ↦ do
        txd_journal_destroy_revoke_table first
        pure (minus_enomem, record slots { j_revoke_table_0 = none; j_revoke_table_1 = none })
      | some t ↦ pure (
        0,
        record { j_revoke = some t; j_revoke_table_0 = some first; j_revoke_table_1 = some t },
      )
    ]

  unfoldable pub txd_journal_init_revoke : RevokeSlots Head → ℕ → Cmd Memory (ℕ × RevokeSlots Head)
  unfolding init_second_table
  txd_journal_init_revoke slots hash_size = do
    first ← txd_journal_init_revoke_table hash_size
    elim first [
      | none ↦ pure (minus_enomem, record slots { j_revoke_table_0 = none })
      | some t ↦ init_second_table slots t hash_size
    ]
