-- ===== src/Early/Lifecycle.antt =====
-- The pair of tables of the earlier variant: built together or not at all, and given back whole.
use tx_driver.Base.{
  ℕ, suc, ◌<◌, ◌≡◌, refl, none, some, List, ◌∷◌, arith, ok, Returns, returns, Returns-bind, inl,
  inr, ◌⊎◌,
}
use tx_driver.Early.Revoke.{
  txd_journal_destroy_revoke, init_second_table, init_tables, txd_journal_init_revoke,
}
use tx_driver.Early.Tables.{
  libc_block, Restored, Refused, new_table, with_table, destroy_revoke_table-frees,
  init_revoke_table_lem,
}
use tx_driver.Malloc.{Memory, Grants, Block, libc, take_back}
use tx_driver.Malloc.Owned.{take_back-head, take_back-tail}
use tx_driver.Revoke.{
  ListHeads, RevokeSlots, sizeof_revoke_table, bucket_bytes, shift_loop, int_bits, minus_enomem,
}

-- Behind the two blocks of a younger table, a block is found.
take_back_past :
    (p a b n k : ℕ) (bs rest : List Block)
    → p < a
    → p < b
    → take_back libc p bs ≡ some rest
    → take_back libc p (libc_block a n ∷ (libc_block b k ∷ bs))
      ≡ some (libc_block a n ∷ (libc_block b k ∷ rest))
take_back_past p a b n k bs rest ha hb e =
    take_back-tail libc p (libc_block a n) _ _ ha (take_back-tail libc p (libc_block b k) _ _ hb e)

module _ (lists : ListHeads) (grants : Grants) (hash_size shift : ℕ)
    (run : shift_loop int_bits hash_size 0 ≡ some shift) where
  open lists use {Head}

  -- Both tables, made from the next four requests; the second is the current one.
  abbrev pub two_tables : (serial : ℕ) → RevokeSlots Head
  two_tables serial = record {
    j_revoke = some (new_table lists grants hash_size shift (suc (suc serial)));
    j_revoke_table_0 = some (new_table lists grants hash_size shift serial);
    j_revoke_table_1 = some (new_table lists grants hash_size shift (suc (suc serial)));
  }

  abbrev pub with_tables : Memory → Memory
  with_tables m = with_table lists grants hash_size (with_table lists grants hash_size m)

  abbrev pub Empty : RevokeSlots Head → Type 0
  Empty slots = (slots.j_revoke_table_0 ≡ none) × (slots.j_revoke_table_1 ≡ none)

  -- The memory as before, no table, and a request that was refused.
  pub record Unbuilt (m : Memory) (slots : RevokeSlots Head) (m' : Memory) : Type 0 where
    pub empty : Empty slots
    pub restored : Restored m m'
    pub refused : Refused grants

  abbrev pub InitResult : Memory → ℕ × RevokeSlots Head → Memory → Type 0
  InitResult m (err, slots) m' =
      ((err ≡ 0) × (slots ≡ two_tables m.serial) × (m' ≡ with_tables m))
      ⊎ ((err ≡ minus_enomem) × Unbuilt m slots m')

  second_table-InitResult :
      (m : Memory) (slots : RevokeSlots Head)
      → Returns (InitResult m) (
          init_second_table lists grants slots
            (new_table lists grants hash_size shift m.serial)
            hash_size
            (with_table lists grants hash_size m))
  unfolding init_second_table
  second_table-InitResult m slots =
      Returns-bind
        (init_revoke_table_lem lists grants hash_size shift run
          (with_table lists grants hash_size m))
        (elim [
          | some t ↦ λ m' (made, memory, _, _). returns (inl (refl, rw made refl, memory))
          | none ↦ λ m' (back, refusal).
              let struct_left = libc_block m.serial sizeof_revoke_table ∷ m.live in
              let found : take_back libc (suc m.serial) m'.live ≡ some struct_left =
                rw back.live (
                  take_back-head (libc_block (suc m.serial) (bucket_bytes hash_size))
                    struct_left) in
              rw
                (destroy_revoke_table-frees lists grants hash_size shift m.serial m' found
                  (take_back-head (libc_block m.serial sizeof_revoke_table) m.live))
                (returns (
                  inr (
                    refl,
                    record {
                      empty = (refl, refl);
                      restored = record { live = refl; allocated = back.allocated };
                      refused = refusal;
                    },
                  )))
        ])

  -- From slots that hold no table, `txd_journal_init_revoke` always returns: with both tables, or
  -- with `-ENOMEM` and all that it took given back.
  pub init_revoke_lem :
      (m : Memory) (slots : RevokeSlots Head)
      → Empty slots
      → Returns (InitResult m) (txd_journal_init_revoke lists grants slots hash_size m)
  unfolding txd_journal_init_revoke init_tables
  init_revoke_lem m slots (e₀, e₁) = rw e₀ (
      Returns-bind (init_revoke_table_lem lists grants hash_size shift run m) (elim [
        | some t ↦ λ m' (made, memory, _, _). rw (made, memory) (second_table-InitResult m _)
        | none ↦ λ m' (back, refusal).
            returns (inr (refl, record { empty = (refl, e₁); restored = back; refused = refusal }))
      ]))

  -- Two tables whose blocks are the newest are given back whole.
  pub destroy_two_tables :
      (m : Memory) (m' : Memory)
      → m'.live ≡ (with_tables m).live
      → txd_journal_destroy_revoke lists grants (two_tables m.serial) m'
        ≡ ok (record (two_tables m.serial) { j_revoke = none }) (record m' { live = m.live })
  unfolding txd_journal_destroy_revoke
  destroy_two_tables m m' e =
      let n = bucket_bytes hash_size in
      let k : ℕ = sizeof_revoke_table in
      let s = m.serial in
      let second =
        λ (bs : List Block). libc_block (suc (suc (suc s))) n ∷ (libc_block (suc (suc s)) k ∷ bs) in
      let array_0 : take_back libc (suc s) m'.live ≡ some (second (libc_block s k ∷ m.live)) =
        rw e (
          take_back_past _ _ _ n k _ _ (omega arith) (omega arith)
            (take_back-head (libc_block (suc s) n) _)) in
      let struct_0 : take_back libc s (second (libc_block s k ∷ m.live)) ≡ some (second m.live) =
        take_back_past _ _ _ n k _ _ (omega arith) (omega arith)
          (take_back-head (libc_block s k) _) in
      rw (destroy_revoke_table-frees lists grants hash_size shift s m' array_0 struct_0) (
        rw (
          destroy_revoke_table-frees lists grants hash_size shift (suc (suc s))
            (record m' { live = second m.live })
            (take_back-head (libc_block (suc (suc (suc s))) n) _)
            (take_back-head (libc_block (suc (suc s)) k) _)))
