-- ===== src/Revoke/Lifecycle.antt =====
-- The pair of tables of a journal: built together or not at all, and given back whole.
use tx_driver.Revoke.{
  ListHeads, RevokeTable, RevokeSlots, bucket_bytes, sizeof_revoke_table, minus_enomem,
  init_second_table, txd_journal_init_revoke, txd_journal_destroy_revoke, destroy_if_set,
}
use tx_driver.Revoke.Tables.{Holds, init_revoke_table-TableResult, destroy_revoke_table-frees}
use tx_driver.Malloc.{Memory, Grants, Block, spdk, take_back}
use tx_driver.Malloc.Owned.{Restored, Refused, spdk_block, take_back-head, take_back-tail}
use tx_driver.Base.{
  ℕ, suc, ◌^◌, ◌<◌, ◌≤◌, ◌≡◌, refl, List, arith, some, none, ◌∷◌, Returns, returns, Returns-bind,
  inl, inr, sub64, ◌⊎◌,
}

-- Behind the two blocks of a younger table, a block is found.
take_back_past :
    (p a b n k : ℕ) (bs rest : List Block)
    → p < a
    → p < b
    → take_back spdk p bs ≡ some rest
    → take_back spdk p (spdk_block a n ∷ (spdk_block b k ∷ bs))
      ≡ some (spdk_block a n ∷ (spdk_block b k ∷ rest))
take_back_past p a b n k bs rest ha hb e =
    take_back-tail spdk p (spdk_block a n) _ _ ha (take_back-tail spdk p (spdk_block b k) _ _ hb e)

module _ (lists : ListHeads) (grants : Grants) where
  open lists use {Head}

  -- Both tables are there, the second is the current one, and their four blocks are the newest.
  pub record Built (hash_size : ℕ) (m : Memory) (slots : RevokeSlots Head) (m' : Memory)
      : Type 0 where
    pub between : Memory
    pub table_0 : RevokeTable Head
    pub table_1 : RevokeTable Head
    pub slots_eq : slots ≡ record {
      j_revoke = some table_1;
      j_revoke_table_0 = some table_0;
      j_revoke_table_1 = some table_1;
    }
    pub first : Holds lists grants hash_size m table_0 between
    pub second : Holds lists grants hash_size between table_1 m'

  -- No table is there, the memory is as before, and a request was refused.
  pub record Unbuilt (m : Memory) (slots : RevokeSlots Head) (m' : Memory) : Type 0 where
    pub slot_0 : slots.j_revoke_table_0 ≡ none
    pub restored : Restored m m'
    pub refused : Refused grants

  abbrev pub InitResult : ℕ → Memory → ℕ × RevokeSlots Head → Memory → Type 0
  InitResult hash_size m (err, slots) m' =
      ((err ≡ 0) × Built hash_size m slots m') ⊎ ((err ≡ minus_enomem) × Unbuilt m slots m')

  module _ (hash_size : ℕ) (pos : 0 < hash_size) (fits : hash_size < 2 ^ 31) where
    second_table-InitResult :
        (m m₁ : Memory) (slots : RevokeSlots Head) (t : RevokeTable Head)
        → m.allocated_mem_size < 2 ^ 64
        → Holds lists grants hash_size m t m₁
        → Returns (InitResult hash_size m) (init_second_table lists grants slots t hash_size m₁)
    unfolding init_second_table
    second_table-InitResult m m₁ slots t small held =
        Returns-bind
          (init_revoke_table-TableResult lists grants hash_size pos fits m₁
            (omega (arith, held.allocated)))
          (elim [
            | some t' ↦ λ m₂ held'. returns (
                inl (
                  refl,
                  record {
                    between = m₁;
                    table_0 = t;
                    table_1 = t';
                    slots_eq = refl;
                    first = held;
                    second = held';
                  },
                ))
            | none ↦ λ m₂ (back, refusal).
                let struct_left = spdk_block m.serial sizeof_revoke_table ∷ m.live in
                let array : take_back spdk t.hash_table_at m₂.live ≡ some struct_left =
                  rw (held.hash_table_at, back.live, held.live) (take_back-head _ _) in
                let struct : take_back spdk t.addr struct_left ≡ some m.live =
                  rw held.addr (take_back-head _ _) in
                let counter : sub64 (sub64 m₂.allocated_mem_size (bucket_bytes hash_size))
                      sizeof_revoke_table
                    ≡ m.allocated_mem_size =
                  omega (arith, back.allocated, held.allocated) in
                let later : m.serial ≤ m₂.serial = omega (arith, back.serial, held.serial) in
                rw (destroy_revoke_table-frees lists grants hash_size t m₂ held.fresh array struct)
                  (returns (
                    inr (
                      refl,
                      record {
                        slot_0 = refl;
                        restored = record { live = refl; allocated = counter; serial = later };
                        refused = refusal;
                      },
                    )))
          ])

    -- `txd_journal_init_revoke` always returns, for a positive `int` size. With 0 it has built both
    -- tables, each of `hash_size` empty lists and made current the second; with `-ENOMEM` it has
    -- given back all that it took, and a request was refused.
    pub init_revoke-InitResult :
        (m : Memory) (slots : RevokeSlots Head)
        → m.allocated_mem_size < 2 ^ 64
        → Returns (InitResult hash_size m) (txd_journal_init_revoke lists grants slots hash_size m)
    unfolding txd_journal_init_revoke
    init_revoke-InitResult m slots small =
        Returns-bind (init_revoke_table-TableResult lists grants hash_size pos fits m small) (elim [
          | some t ↦ λ m₁ held. second_table-InitResult m m₁ slots t small held
          | none ↦ λ m₁ (back, refusal).
              returns (inr (refl, record { slot_0 = refl; restored = back; refused = refusal }))
        ])

    -- `txd_journal_destroy_revoke` of two tables that `txd_journal_init_revoke` built, whose blocks
    -- are still the newest, passes every assertion and takes the memory back to where it was.
    pub destroy_revoke-restores :
        (m m' m₂ : Memory) (slots : RevokeSlots Head)
        → m.allocated_mem_size < 2 ^ 64
        → Built hash_size m slots m'
        → Restored m' m₂
        → Returns
            (λ slots' m₃. Restored m m₃ × (slots'.j_revoke ≡ none))
            (txd_journal_destroy_revoke lists grants slots m₂)
    unfolding txd_journal_destroy_revoke
    destroy_revoke-restores m m' m₂ slots small b back =
        let p₀ = b.first in
        let p₁ = b.second in
        let n = bucket_bytes hash_size in
        let k : ℕ = sizeof_revoke_table in
        let struct_left = spdk_block m.serial k ∷ m.live in
        let second_left = λ (bs : List Block).
          spdk_block (suc b.between.serial) n ∷ (spdk_block b.between.serial k ∷ bs) in
        let array_0 : take_back spdk b.table_0.hash_table_at m₂.live
            ≡ some (second_left struct_left) =
          rw (p₀.hash_table_at, back.live, p₁.live, p₀.live)
            (take_back_past _ _ _ n k _ _ (omega (arith, p₀.serial)) (omega (arith, p₀.serial))
              (take_back-head (spdk_block (suc m.serial) n) struct_left)) in
        let struct_0 : take_back spdk b.table_0.addr (second_left struct_left)
            ≡ some (second_left m.live) =
          rw p₀.addr (
            take_back_past _ _ _ n k _ _ (omega (arith, p₀.serial)) (omega (arith, p₀.serial))
              (take_back-head (spdk_block m.serial k) m.live)) in
        let array_1 : take_back spdk b.table_1.hash_table_at (second_left m.live)
            ≡ some (spdk_block b.between.serial k ∷ m.live) =
          rw p₁.hash_table_at (take_back-head _ _) in
        let struct_1 : take_back spdk b.table_1.addr (spdk_block b.between.serial k ∷ m.live)
            ≡ some m.live =
          rw p₁.addr (take_back-head _ _) in
        let counter : sub64 (sub64 (sub64 (sub64 m₂.allocated_mem_size n) sizeof_revoke_table) n)
              sizeof_revoke_table
            ≡ m.allocated_mem_size =
          omega (arith, back.allocated, p₁.allocated, p₀.allocated) in
        let later : m.serial ≤ m₂.serial = omega (arith, back.serial, p₁.serial, p₀.serial) in
        let m₃ : Memory = record m₂ {
          allocated_mem_size = sub64 (sub64 m₂.allocated_mem_size n) k;
          live = second_left m.live;
        } in
        rw (b.slots_eq, destroy_if_set)
          (rw
            (destroy_revoke_table-frees lists grants hash_size b.table_0 m₂ p₀.fresh array_0
              struct_0)
            (rw
              (destroy_revoke_table-frees lists grants hash_size b.table_1 m₃ p₁.fresh array_1
                struct_1)
              (returns (record { live = refl; allocated = counter; serial = later }, refl))))
