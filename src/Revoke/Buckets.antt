-- ===== src/Revoke/Buckets.antt =====
-- The array of a revoke table: what the loops over it establish and test.
use tx_driver.Revoke.{ListHeads, init_buckets, assert_empty}
use tx_driver.Malloc.{Memory, Grants}
use tx_driver.Base.{
  ℕ, zero, suc, ◌+◌, ◌<◌, ◌≤◌, ◌≡◌, refl, true, List, arith, get_or, set, length, replicate, ok,
  length-set, length-replicate, get_or-set_self, get_or-set_ne, ◌∙◌,
}
use native.Mathlib.Decide.{ℕ_discrete}

module _ (lists : ListHeads) (grants : Grants) where
  open lists use {Head, zeroed, init_list_head, list_empty, list_empty-init}

  -- The list heads from `i` up to `j` are those of empty lists.
  pub record EmptyRange (i j : ℕ) (heads : List Head) : Type 0 where
    pub empty : (k : ℕ) → i ≤ k → k < j → list_empty (get_or heads k zeroed) ≡ true

  set-EmptyRange :
      (tmp : ℕ) (heads : List Head)
      → tmp < length heads
      → EmptyRange 0 tmp heads
      → EmptyRange 0 (tmp + 1) (set heads tmp (init_list_head (get_or heads tmp zeroed)))
  set-EmptyRange tmp heads h e = record {
    empty = λ k low high. elim (ℕ_discrete tmp k) [
      | yes same ↦ rw (← same, get_or-set_self heads tmp _ zeroed h) (list_empty-init _)
      | no other ↦ rw (get_or-set_ne heads tmp k _ zeroed other) (e.empty k low (omega arith))
    ];
  }

  init_buckets-EmptyRange :
      (rounds tmp : ℕ) (heads : List Head)
      → tmp + rounds ≡ length heads
      → EmptyRange 0 tmp heads
      → EmptyRange 0 (length heads) (init_buckets lists grants rounds tmp heads)
        × (length (init_buckets lists grants rounds tmp heads) ≡ length heads)
  unfolding init_buckets
  init_buckets-EmptyRange zero tmp heads e done =
      (record { empty = λ k low high. done.empty k low (omega arith) }, refl)
  init_buckets-EmptyRange (suc n) tmp heads e done =
      let heads' = set heads tmp (init_list_head (get_or heads tmp zeroed)) in
      let same : length heads' ≡ length heads = length-set heads tmp _ in
      let (all, len) =
        init_buckets-EmptyRange n (tmp + 1) heads' (omega (arith, same))
          (set-EmptyRange tmp heads (omega arith) done) in
      (rw same at all, len ∙ same)

  -- The loop of `txd_journal_init_revoke_table` makes every one of `hash_size` heads an empty list.
  pub init_buckets-empty :
      (hash_size : ℕ)
      → EmptyRange 0 hash_size (init_buckets lists grants hash_size 0 (replicate hash_size zeroed))
        × (length (init_buckets lists grants hash_size 0 (replicate hash_size zeroed)) ≡ hash_size)
  init_buckets-empty n =
      let len : length (replicate n zeroed) ≡ n = length-replicate n zeroed in
      let (all, size) =
        init_buckets-EmptyRange n 0 (replicate n zeroed) (omega (arith, len))
          (record { empty = λ k low high. absurd (omega arith) }) in
      (rw len at all, size ∙ len)

  -- The loop of `txd_journal_destroy_revoke_table` passes over empty lists, and changes nothing.
  pub assert_empty-passes :
      (rounds i j : ℕ) (heads : List Head) (m : Memory)
      → i + rounds ≡ j
      → EmptyRange i j heads
      → assert_empty lists grants rounds i heads m ≡ ok tt m
  unfolding assert_empty
  assert_empty-passes zero i j heads m e all = refl
  assert_empty-passes (suc n) i j heads m e all = rw (all.empty i (omega arith) (omega arith)) (
      assert_empty-passes n (i + 1) j heads m (omega arith)
        (record { empty = λ k low high. all.empty k (omega arith) high }))
