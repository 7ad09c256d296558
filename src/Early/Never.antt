-- ===== src/Early/Never.antt =====
-- `tx_begin` of the earlier variant never hands out a journal.
use tx_driver.Base.{
  ℕ, ◌≡◌, ◌≢◌, sym, ◌∙◌, Option, none, some, ok, and_then_ok, Bool-cases, inl, inr, arith, ◌==◌,
}
use tx_driver.Api.{txd_chk_fail}
use tx_driver.Early.Access.{spdk_free, cleanup}
use tx_driver.Early.Api.{
  begin_out, begin_created, wipe_unless_needed, load_unless, begin_journal, begin_superblock,
  begin_read, tx_begin,
}
use tx_driver.Early.Create.{txd_get_journal}
use tx_driver.Early.Load.{
  txd_journal_recover, txd_journal_need_recovery, txd_journal_load, txd_journal_destroy,
}
use tx_driver.Journal.Defs.{Journal}
use tx_driver.Malloc.{Grants, obtain, libc}
use tx_driver.Ondisk.{Superblock, chk_txd_sb, sizeof_superblock}
use tx_driver.Ondisk.Layout.{from_bytes}
use tx_driver.Revoke.{ListHeads}
use tx_driver.Spdk.Library.{Library}
use tx_driver.Spdk.State.{Driver, on_memory}

module _ (lib : Library) (grants : Grants) (patience : ℕ) (lists : ListHeads)
    (garbage : Journal lists.Head) where
  open lib use {Dev}
  open lists use {Head}

  -- The load is refused, whatever the journal.
  pub load_refused :
      (err : ℕ) (j : Journal Head)
      → (e : ℕ) × (e ≢ 0) × (load_unless lib grants patience lists garbage err j ≡ ok e j)
  unfolding load_unless wipe_unless_needed txd_journal_load txd_journal_recover
      txd_journal_need_recovery
  load_refused err j = elim (Bool-cases (err == 0)) [
    | inl done ↦ (1, omega arith, rw done)
    | inr failed ↦ (err, ground (arith, failed), rw failed)
  ]

  begin_out-none :
      (d d' : Driver Dev) (o : Option (Journal Head))
      → begin_out lib grants patience lists garbage d ≡ ok o d'
      → o ≡ none
  unfolding begin_out
  begin_out-none d d' o e =
      let (a, s, _, e₁) = and_then_ok (spdk_free lib grants d) _ e in
      let (_, s₁, _, e₂) = and_then_ok (txd_chk_fail a s) _ e₁ in
      let (_, s₂, _, e₃) = and_then_ok (cleanup lib grants s₁) _ e₂ in ground (arith, e₃)

  pub begin_journal_lem :
      (err : ℕ) (j : Journal Head) (d : Driver Dev)
      → begin_journal lib grants patience lists garbage err j d
        ≡ begin_out lib grants patience lists garbage d
  unfolding begin_journal txd_journal_destroy
  begin_journal_lem err j d =
      let (e, failed, run) = load_refused err j in rw run (ground (arith, failed))

  begin_created-none :
      (err : ℕ) (journal : Option (Journal Head)) (d d' : Driver Dev) (o : Option (Journal Head))
      → begin_created lib grants patience lists garbage err journal d ≡ ok o d'
      → o ≡ none
  unfolding begin_created
  begin_created-none err none d d' o e = begin_out-none d d' o e
  begin_created-none err (some j) d d' o e =
      begin_out-none d d' o (sym (begin_journal_lem err j d) ∙ e)

  begin_superblock-none :
      (err txd_size : ℕ) (sb : Superblock) (d d' : Driver Dev) (o : Option (Journal Head))
      → begin_superblock lib grants patience lists garbage err txd_size sb d ≡ ok o d'
      → o ≡ none
  unfolding begin_superblock
  begin_superblock-none err txd_size sb d d' o e = elim (Bool-cases (chk_txd_sb sb txd_size == 0)) [
    | inr refused ↦ begin_out-none d d' o (rw refused at e)
    | inl accepted ↦
        let (journal, s, _, e₁) =
          and_then_ok (on_memory (txd_get_journal lists garbage grants sb) d) _
            (rw accepted at e) in
        begin_created-none err journal s d' o e₁
  ]

  -- Whatever the device holds and the allocator grants, if `tx_begin` returns then it returns NULL:
  -- no superblock gives a journal, since the recovery that the load begins with is a stub that fails.
  pub tx_begin-none :
      (txd_addr txd_size : ℕ) (d d' : Driver Dev) (o : Option (Journal Head))
      → tx_begin lib grants patience lists garbage txd_addr txd_size d ≡ ok o d'
      → o ≡ none
  unfolding tx_begin
  tx_begin-none txd_addr txd_size d d' o e =
      let (buf, s, _, e₁) = and_then_ok (on_memory (obtain grants libc sizeof_superblock) d) _ e in
      let ((err, params), s₁, _, e₂) =
        and_then_ok (begin_read lib grants patience lists garbage txd_addr buf s) _ e₁ in
      let (_, s₂, _, e₃) = and_then_ok (txd_chk_fail err s₁) _ e₂ in
      begin_superblock-none err txd_size (from_bytes params.buf) s₂ d' o e₃
