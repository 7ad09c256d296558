-- ===== src/Journal/Total.antt =====
-- `txd_journal_load` of a journal whose locks are free, where the thread starts: it always returns.
use tx_driver.Base.{
  ℕ, ◌≡◌, ap, sym, subst, some, Returns, returns, Returns-bind, Bool-cases, inl, inr, ◌==◌,
}
use tx_driver.Journal.Defs.{Journal, Lock}
use tx_driver.Journal.Geometry.{update_superblock_lem}
use tx_driver.Journal.Load.{
  reset_log, reset_from, is_too_short, with_superblock, txd_journal_start_thread, txd_journal_reset,
  load_clean, load_recovered, txd_journal_recover, txd_journal_load, mark_loaded,
}
use tx_driver.Ondisk.{Superblock}

module _ (Head : Type 0) where
  -- It points at a superblock, and the locks that a reset takes are free.
  pub record IsUnlocked (sb : Superblock) (j : Journal Head) : Type 0 where
    pub superblock : j.j_superblock ≡ some sb
    pub checkpoint_mutex : j.j_checkpoint_mutex ≡ Lock.free
    pub wq_mtx : j.j_wait_done_commit.wq_mtx ≡ Lock.free

  abbrev Ends : ℕ → Journal Head → Type 0
  Ends err j = Unit {0}

  start-Returns :
      (j : Journal Head)
      → j.j_wait_done_commit.wq_mtx ≡ Lock.free
      → Returns Ends (txd_journal_start_thread Head 0 j)
  unfolding txd_journal_start_thread
  start-Returns j free = rw free (returns tt)

  reset_from-Returns :
      (sb : Superblock) (j : Journal Head) → IsUnlocked sb j → Returns Ends (reset_from Head 0 sb j)
  unfolding reset_from reset_log
  reset_from-Returns sb j u = elim (Bool-cases (is_too_short Head sb)) [
    | inl short ↦ rw short (returns tt)
    | inr long ↦ rw long (
        rw (update_superblock_lem Head sb (reset_log Head sb j) u.checkpoint_mutex)
          (start-Returns _ u.wq_mtx))
  ]

  reset-Returns :
      (sb : Superblock) (j : Journal Head)
      → IsUnlocked sb j
      → Returns Ends (txd_journal_reset Head 0 j)
  unfolding txd_journal_reset
  reset-Returns sb j u =
      subst (Returns Ends)
        (ap (λ o. with_superblock Head o (reset_from Head 0) j) (sym u.superblock))
        (reset_from-Returns sb j u)

  load_clean-Returns :
      (sb : Superblock) (j : Journal Head) → IsUnlocked sb j → Returns Ends (load_clean Head 0 j)
  unfolding load_clean mark_loaded
  load_clean-Returns sb j u = Returns-bind (reset-Returns sb j u) λ err j' _.
      elim (Bool-cases (err == 0)) [
        | inl done ↦ rw done (returns tt)
        | inr failed ↦ rw failed (returns tt)
      ]

  pub load-Returns :
      (sb : Superblock) (j : Journal Head)
      → IsUnlocked sb j
      → Returns Ends (txd_journal_load Head 0 j)
  unfolding txd_journal_load txd_journal_recover load_recovered
  load-Returns sb j u = elim (Bool-cases (j.j_failed_commit == 0)) [
    | inl clean ↦ rw clean (load_clean-Returns sb j u)
    | inr corrupt ↦ rw corrupt (returns tt)
  ]
