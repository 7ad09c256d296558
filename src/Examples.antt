-- ===== src/Examples.antt =====
-- Concrete inputs: an allocator that grants everything and one that grants nothing, list heads that
-- only know whether they were initialised, a superblock and a memory. The children run the theorems
-- on them.
mod Counters
mod Allocations
mod Revocation
mod Journals
mod Threads
mod Transfers
mod Entry
mod Refusal
mod Sessions
mod Refusals
mod Printing
mod Earlier
mod EarlierEntry
mod Blocks
mod Structs
mod Missing
mod Crossing
use tx_driver.Base.{ℕ, Bool, true, false, none, [], ◌≡◌, refl, replicate}
use tx_driver.Journal.Create.{init_wait_queue}
use tx_driver.Journal.Defs.{Journal, Lock}
use tx_driver.Malloc.{Grants, Memory}
use tx_driver.Ondisk.{Superblock, sig_txd, sig_super_block}
use tx_driver.Revoke.{ListHeads, RevokeSlots}

abbrev pub generous : Grants
generous src serial bytes = true

abbrev pub miserly : Grants
miserly src serial bytes = false

-- A list head is whether it was initialised; all lists are empty.
abbrev pub bit_heads : ListHeads
bit_heads = record {
  Head = Bool;
  zeroed = false;
  init_list_head = λ h. true;
  list_empty = λ h. h;
  list_empty-init = λ h. refl;
}

abbrev pub fresh_memory : Memory
fresh_memory = record { allocated_mem_size = 0; live = []; serial = 1 }

abbrev pub no_slots : RevokeSlots Bool
no_slots = record { j_revoke = none; j_revoke_table_0 = none; j_revoke_table_1 = none }

abbrev pub formatted : Superblock
formatted = record {
  s_header = record { txd_signature = sig_txd; txd_blocktype = sig_super_block; txd_t_id = 0 };
  s_blocksize = 4096;
  s_maxlen = 1024;
  s_first = 1;
  s_sequence = 0;
  s_start = 0;
  s_errno = 0;
  s_padding = replicate 28 0;
}

-- A journal whose locks are set up, with nothing in it.
abbrev pub blank : Journal Bool
blank = record {
  addr = 1;
  j_flags = 0;
  j_errno = 0;
  j_sb_buffer = none;
  j_superblock = none;
  j_state_lock = Lock.free;
  j_barrier = Lock.free;
  j_wait_transaction_locked = init_wait_queue;
  j_wait_done_commit = init_wait_queue;
  j_wait_commit = init_wait_queue;
  j_wait_updates = init_wait_queue;
  j_wait_reserved = init_wait_queue;
  j_checkpoint_mutex = Lock.free;
  j_head = 0;
  j_tail = 0;
  j_free = 0;
  j_first = 0;
  j_last = 0;
  j_blocksize = 0;
  j_blk_offset = 0;
  j_maxlen = 1024;
  j_reserved_credits = 0;
  j_list_lock = Lock.free;
  j_tail_sequence = 0;
  j_transaction_sequence = 7;
  j_commit_sequence = 0;
  j_commit_request = 0;
  j_max_transaction_buffers = 0;
  j_commit_interval = 0;
  j_revoke_lock = Lock.free;
  revoke = no_slots;
  j_wbuf = none;
  j_wbufsize = 0;
  j_min_batch_time = 0;
  j_max_batch_time = 0;
  j_failed_commit = 0;
}
