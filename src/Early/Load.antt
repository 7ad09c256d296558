-- ===== src/Early/Load.antt =====
-- `txd_journal_load` of src/txdriver_journal.c and what it calls: all of the callees are stubs.
use tx_driver.Base.{ℕ, ◌==◌, if◌then◌else◌, ok, Cmd, pure, ◌>>=◌}
use tx_driver.Journal.Defs.{Journal, txd_abort, txd_loaded}
use tx_driver.Journal.Load.{set_flag, clear_flag, txd_true}
use tx_driver.Ondisk.{txd_success, txd_fail}

module _ (Head : Type 0) where
  unfoldable pub txd_journal_recover : Cmd (Journal Head) ℕ
  txd_journal_recover = pure txd_fail

  unfoldable pub txd_journal_need_recovery : Cmd (Journal Head) ℕ
  txd_journal_need_recovery = pure txd_true

  unfoldable pub txd_wipe_journal_log : Cmd (Journal Head) ℕ
  txd_wipe_journal_log = pure txd_fail

  unfoldable pub txd_journal_destroy : Cmd (Journal Head) ℕ
  txd_journal_destroy = pure txd_fail

  unfoldable pub txd_journal_reset : Cmd (Journal Head) ℕ
  txd_journal_reset = pure txd_fail

  -- `j_flags &= ~TXD_ABORT; j_flags |= TXD_LOADED;`
  unfoldable pub mark_loaded : Cmd (Journal Head) ℕ
  mark_loaded j =
      ok txd_success (record j { j_flags = set_flag (clear_flag j.j_flags txd_abort) txd_loaded })

  -- After a recovery that returned 0.
  unfoldable pub load_recovered : Cmd (Journal Head) ℕ
  load_recovered j =
      if j.j_failed_commit == 0
      then (do err ← txd_journal_reset; if err == 0 then mark_loaded else pure txd_fail) j
      else ok txd_fail j

  unfoldable pub txd_journal_load : Cmd (Journal Head) ℕ
  txd_journal_load = do
    err ← txd_journal_recover
    if err == 0 then load_recovered else pure txd_fail
