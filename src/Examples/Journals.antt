-- ===== src/Examples/Journals.antt =====
-- src/txd_journal.c with the formatted superblock.
use tx_driver.Base.{◌≡◌, refl, some, arith, ok, Returns, Bool}
use tx_driver.Examples.{generous, bit_heads, blank, fresh_memory, formatted}
use tx_driver.Journal.Create.{txd_journal_init_common}
use tx_driver.Journal.Defs.{Journal, txd_abort}
use tx_driver.Journal.Ready.{CreateResult, init_common-CreateResult}
use tx_driver.Journal.Geometry.{IsAttached, EmptyLog, reset-EmptyLog}
use tx_driver.Journal.Flags.{Loaded, load-Loaded}
use tx_driver.Journal.Load.{
  txd_journal_recover, load_recovered, load_clean, reset_from, update_superblock, reset_log,
  mark_loaded, txd_journal_reset, txd_journal_load, txd_journal_start_thread,
}
use tx_driver.Ondisk.{Superblock, txd_success}

init_common-CreateResult_example :
    Returns
      (CreateResult bit_heads blank generous formatted fresh_memory)
      (txd_journal_init_common bit_heads blank generous formatted fresh_memory)
init_common-CreateResult_example =
    init_common-CreateResult bit_heads blank generous formatted fresh_memory (omega arith)

-- The journal of the formatted superblock, before it is loaded.
abbrev opened : Journal Bool
opened = record blank { j_superblock = some formatted; j_flags = txd_abort }

opened-IsAttached : IsAttached Bool formatted opened
opened-IsAttached = record {
  superblock = refl;
  first_fits = omega arith;
  maxlen_fits = omega arith;
  sequence_fits = omega arith;
  checkpoint_mutex = refl;
  wq_mtx = refl;
}

abbrev short : Superblock
short = record formatted { s_maxlen = 1000 }

abbrev opened_short : Journal Bool
opened_short = record opened { j_superblock = some short }

opened_short-IsAttached : IsAttached Bool short opened_short
opened_short-IsAttached = record {
  superblock = refl;
  first_fits = omega arith;
  maxlen_fits = omega arith;
  sequence_fits = omega arith;
  checkpoint_mutex = refl;
  wq_mtx = refl;
}

reset-EmptyLog_example :
    Returns
      (λ err j'. (err ≡ txd_success) × EmptyLog Bool formatted opened j')
      (txd_journal_reset Bool 0 opened)
reset-EmptyLog_example = reset-EmptyLog Bool formatted opened opened-IsAttached (omega arith)

load-Loaded_example :
    Returns
      (λ err j'. (err ≡ txd_success) × Loaded Bool formatted opened opened-IsAttached j')
      (txd_journal_load Bool 0 opened)
load-Loaded_example =
    load-Loaded Bool formatted opened opened-IsAttached (omega arith) refl (omega arith)

abbrev loaded : Journal Bool
loaded = record opened {
  j_first = 1;
  j_last = 1024;
  j_head = 1;
  j_tail = 1;
  j_free = 1023;
  j_tail_sequence = 7;
  j_commit_sequence = 6;
  j_commit_request = 6;
  j_max_transaction_buffers = 256;
  j_flags = 0x018;
  j_wait_done_commit = record (opened.j_wait_done_commit) { condition = 1 };
}

opened_loads : txd_journal_load Bool 0 opened ≡ ok txd_success loaded
unfolding txd_journal_load txd_journal_reset txd_journal_start_thread txd_journal_recover
    load_recovered load_clean reset_from update_superblock reset_log mark_loaded
opened_loads = refl
