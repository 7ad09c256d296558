-- ===== src/Early/Creation.antt =====
-- `txd_journal_init_common` and `txd_get_journal` of the earlier variant, at whichever request they
-- fail.
use tx_driver.Abi.{sizeof_pointer}
use tx_driver.Base.{
  ℕ, suc, ◌≡◌, refl, none, some, ◌∷◌, arith, Returns, returns, Returns-bind, inl, inr, true, false,
  Bool-cases,
}
use tx_driver.Early.Create.{
  init_defaults, out, init_wbuf, init_tables, init_buffer_head, txd_journal_init_common,
  txd_get_journal,
}
use tx_driver.Early.Lifecycle.{Empty, Unbuilt, init_revoke_lem, destroy_two_tables}
use tx_driver.Early.Tables.{
  libc_block, with_block, passed_over, Refused, calloc_granted, calloc_refused,
}
use tx_driver.Journal.Create.{new_journal, set_geometry}
use tx_driver.Journal.Defs.{Journal, sizeof_buffer_head, journal_revoke_default_hash}
use tx_driver.Malloc.{Memory, Grants, libc, take_back}
use tx_driver.Malloc.Owned.{take_back-head, take_back-tail}
use tx_driver.Ondisk.{Superblock}
use tx_driver.Revoke.{ListHeads, RevokeSlots}
use tx_driver.Early.Ready.{
  default_shift, default_shift_lem, IsBlank, tables_at, with_head, with_all_tables, wbuf_size,
  CreateResult, destroy_empty, out-frees,
}

module _ (lists : ListHeads) (garbage : Journal lists.Head) (grants : Grants)
    (blank : IsBlank lists garbage grants) where
  open lists use {Head}

  -- Behind the buffer head, the block of the journal is found.
  journal_behind :
      (m : Memory)
      → take_back libc m.serial (with_head lists garbage grants m).live
        ≡ some (libc_block (suc m.serial) sizeof_buffer_head ∷ m.live)
  journal_behind m =
      take_back-tail libc m.serial (libc_block (suc m.serial) sizeof_buffer_head) _ _ (omega arith)
        (take_back-head (libc_block m.serial sizeof_pointer) m.live)

  -- The journal before its tables.
  abbrev defaults : ℕ → Journal Head
  defaults serial = init_defaults lists garbage (new_journal lists garbage serial)

  abbrev tabled : ℕ → Journal Head
  tabled serial = record (defaults serial) {
    revoke = tables_at lists garbage grants (suc (suc serial));
  }

  -- The journal whose buffer array was refused.
  abbrev without_wbuf : Superblock → ℕ → Journal Head
  without_wbuf sb serial = record (set_geometry lists garbage sb (tabled serial)) { j_wbuf = none }

  defaults-Empty :
      (serial : ℕ)
      → Empty lists grants journal_revoke_default_hash default_shift default_shift_lem
          (defaults serial).revoke
  unfolding init_defaults new_journal
  defaults-Empty serial = blank.slots

  -- Both of the first two requests were granted.
  module _ (sb : Superblock) (m : Memory) (first : grants libc m.serial sizeof_pointer ≡ true)
      (second : grants libc (suc m.serial) sizeof_buffer_head ≡ true) where
    no_wbuf-CreateResult :
        (refusal : Refused grants)
        → Returns (CreateResult lists garbage grants sb m) (
            out lists garbage grants
              (without_wbuf sb m.serial)
              (passed_over (with_all_tables lists garbage grants m)))
    unfolding set_geometry init_defaults new_journal
    no_wbuf-CreateResult refusal =
        rw
          (out-frees lists garbage grants (without_wbuf sb m.serial)
            (passed_over (with_all_tables lists garbage grants m)) refl
            (destroy_two_tables lists grants journal_revoke_default_hash default_shift
              default_shift_lem (with_head lists garbage grants m)
              (passed_over (with_all_tables lists garbage grants m)) refl)
            (journal_behind m))
          (returns
            (record { refused = refusal; allocated = refl; leftover = inr (refl, first, second) }))

    init_wbuf-CreateResult : Returns (CreateResult lists garbage grants sb m) (
        init_wbuf lists garbage grants sb
          (suc m.serial)
          (tabled m.serial)
          (with_all_tables lists garbage grants m))
    unfolding init_wbuf set_geometry
    init_wbuf-CreateResult =
        let bytes = wbuf_size lists garbage grants sb in
        elim (Bool-cases (grants libc (with_all_tables lists garbage grants m).serial bytes)) [
          | inr refused ↦
              rw (calloc_refused grants bytes (with_all_tables lists garbage grants m) refused) (
                no_wbuf-CreateResult (record {
                  serial = (with_all_tables lists garbage grants m).serial;
                  bytes = bytes;
                  refused = refused;
                }))
          | inl granted ↦
              rw (calloc_granted grants bytes (with_all_tables lists garbage grants m) granted)
                (returns (refl, refl))
        ]

    no_tables-CreateResult :
        (slots : RevokeSlots Head) (m' : Memory)
        → Unbuilt lists grants journal_revoke_default_hash default_shift default_shift_lem
            (with_head lists garbage grants m)
            slots
            m'
        → Returns
            (CreateResult lists garbage grants sb m)
            (out lists garbage grants (record (defaults m.serial) { revoke = slots }) m')
    unfolding init_defaults new_journal
    no_tables-CreateResult slots m' u =
        let back = u.restored in
        let found : take_back libc m.serial m'.live
            ≡ some (libc_block (suc m.serial) sizeof_buffer_head ∷ m.live) =
          rw back.live (journal_behind m) in
        rw
          (out-frees lists garbage grants (record (defaults m.serial) { revoke = slots }) m'
            {l = m'.live} {rest = libc_block (suc m.serial) sizeof_buffer_head ∷ m.live} blank.wbuf
            (destroy_empty lists garbage grants slots m' u.empty.0 u.empty.1) found)
          (returns (record {
            refused = u.refused;
            allocated = back.allocated;
            leftover = inr (refl, first, second);
          }))

    init_tables-CreateResult : Returns (CreateResult lists garbage grants sb m) (
        init_tables lists garbage grants sb
          (suc m.serial)
          (defaults m.serial)
          (with_head lists garbage grants m))
    unfolding init_tables
    init_tables-CreateResult =
        Returns-bind
          (init_revoke_lem lists grants journal_revoke_default_hash default_shift default_shift_lem
            (with_head lists garbage grants m) (defaults m.serial).revoke (defaults-Empty m.serial))
          (λ (err, slots) m' result. elim result [
            | inl (done, made, memory) ↦ rw (done, made, memory) init_wbuf-CreateResult
            | inr (failed, unbuilt) ↦ rw failed (no_tables-CreateResult slots m' unbuilt)
          ])

  no_head-CreateResult :
      (sb : Superblock) (m : Memory)
      → grants libc (suc m.serial) sizeof_buffer_head ≡ false
      → Returns (CreateResult lists garbage grants sb m) (
          out lists garbage grants
            (new_journal lists garbage m.serial)
            (passed_over (with_block sizeof_pointer m)))
  unfolding new_journal
  no_head-CreateResult sb m refused =
      let m' = passed_over (with_block sizeof_pointer m) in
      rw
        (out-frees lists garbage grants (new_journal lists garbage m.serial) m' blank.wbuf
          (destroy_empty lists garbage grants garbage.revoke m' blank.slots.0 blank.slots.1)
          (take_back-head (libc_block m.serial sizeof_pointer) m.live))
        (returns (record {
          refused = record { serial = suc m.serial; bytes = sizeof_buffer_head; refused = refused };
          allocated = refl;
          leftover = inl (refl, inr refused);
        }))

  init_head-CreateResult :
      (sb : Superblock) (m : Memory)
      → grants libc m.serial sizeof_pointer ≡ true
      → Returns
          (CreateResult lists garbage grants sb m)
          (init_buffer_head lists garbage grants sb m.serial (with_block sizeof_pointer m))
  unfolding init_buffer_head
  init_head-CreateResult sb m first =
      let m₁ = with_block sizeof_pointer m in
      elim (Bool-cases (grants libc (suc m.serial) sizeof_buffer_head)) [
        | inr refused ↦
            rw (calloc_refused grants sizeof_buffer_head m₁ refused)
              (no_head-CreateResult sb m refused)
        | inl second ↦
            rw (calloc_granted grants sizeof_buffer_head m₁ second)
              (init_tables-CreateResult sb m first second)
      ]

  -- `txd_journal_init_common` in memory that is NULL where the failing paths read it always returns:
  -- the journal that is made of the next seven blocks; or NULL, because a request was refused, with
  -- the counter as before, and with the live blocks as before if that was one of the first two, and
  -- otherwise with the buffer head lost.
  pub early_init_common-CreateResult :
      (sb : Superblock) (m : Memory)
      → Returns
          (CreateResult lists garbage grants sb m)
          (txd_journal_init_common lists garbage grants sb m)
  unfolding txd_journal_init_common
  early_init_common-CreateResult sb m = elim (Bool-cases (grants libc m.serial sizeof_pointer)) [
    | inr refused ↦ rw (calloc_refused grants sizeof_pointer m refused) (
        returns (record {
          refused = record { serial = m.serial; bytes = sizeof_pointer; refused = refused };
          allocated = refl;
          leftover = inl (refl, inl refused);
        }))
    | inl first ↦
        rw (calloc_granted grants sizeof_pointer m first) (init_head-CreateResult sb m first)
  ]

  -- The same of `txd_get_journal`, which sets three times to the values that they have.
  pub early_get_journal-CreateResult :
      (sb : Superblock) (m : Memory)
      → Returns (CreateResult lists garbage grants sb m) (txd_get_journal lists garbage grants sb m)
  unfolding txd_get_journal set_geometry init_defaults
  early_get_journal-CreateResult sb m = Returns-bind (early_init_common-CreateResult sb m) (elim [
    | none ↦ λ m' failed. returns failed
    | some j ↦ λ m' (made, memory). returns (rw made refl, memory)
  ])
