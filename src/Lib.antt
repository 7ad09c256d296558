-- ===== src/Lib.antt =====
-- TxDriver: a user-level transaction driver in the manner of jbd2, in C, on NVMe devices through
-- SPDK. This library models the current driver, the files src/txd_*.c and include/*.h, and the
-- earlier variant of it that the repository keeps beside it, the files src/txdriver_*.c and
-- src/atomic.c, and proves what makes their parts correct.
--
-- The parts, from the bottom up:
--
-- - Base: lists over native numbers, machine words (u32, u64 and subtraction that wraps), and
--   `Outcome`, what a C call comes to: it returns with a value and a state, calls exit, fails an
--   assert, does something undefined (a NULL or dangling pointer, a bad free), or never returns.
--   `Cmd S A` is a call on a state `S`, and `Returns P` says that it returns and that `P` holds of
--   the value and the state, so no theorem of that form holds of a call that hangs. `IfReturns` is
--   the weaker form, used where a call that does not return keeps what is claimed, and `IfOk` is
--   that with the value. Base.Digits writes numbers as printf does, and Base.Reading is about
--   their texts.
-- - Abi: struct sizes by the x86-64 rules, from lists of members (Abi.Offsets bounds them).
-- - Ondisk: include/ondisk.h, and init_journal_header and chk_txd_sb of src/txd_journal.c.
--   Ondisk.Layout has the superblock's bytes, little-endian, since the source casts a char buffer.
-- - Atomic: src/txd_atomic.c. Each function is one locked instruction, so threads interleave as
--   sequences of calls (Atomic.Counting), under schedules of threads (Atomic.Schedules).
-- - Malloc: src/txd_malloc.c. `Memory` is the counter allocated_mem_size and the live blocks of the
--   three allocators. Whether an allocator grants a request is the parameter `grants`, any function
--   of the request's number and size; an address is the number of the request that got it. A memory
--   is well-formed when its live blocks stand in the order of their addresses, the newest first, and
--   all below the number of the next request (Spdk.Held). Malloc.Traces is about sequences of calls.
-- - Revoke: src/txd_revoke.c. The list heads are the parameter `lists` (include/list.h is a copy of
--   the Linux lists). The shift loop runs 32 rounds, which is enough since an int has 32 bits: each
--   round of a positive int clears its highest bit.
-- - Journal: the rest of src/txd_journal.c. Journal.Defs has struct txd_journal_s, less the fields
--   that nothing reads or writes; Journal.Create is txd_journal_init_common and txd_get_journal;
--   Journal.Load is txd_journal_load with the reset and the start of the journal thread as one
--   command. The source asks for 8 bytes for the journal; what the memory behind them holds is the
--   parameter `garbage`, and stores to it are taken to reach their fields. Journal.Structs has the
--   members of struct txd_journal_s in full, and of the structs of include/txdriver.h that no
--   function uses yet (transactions, buffers, handles, inodes); Journal.Layout is about their size
--   against that of the block. The pthread types are a parameter.
-- - Thread: txd_journald and txd_journal_start_thread as two threads, statement by statement, on
--   the wait queue that they share; spurious wakeups are steps of their own.
-- - Spdk: src/txd_spdk.c. Spdk.Library is what SPDK and the device do, a parameter. The two loops
--   that poll for a completion run at most `patience` rounds; a theorem that such a call returns
--   asks that the device completes within that many (the record Disk, or a law of its own), and
--   Spdk.Waiting is about what happens otherwise. Following a pointer into a block that was given
--   back is a fault. Spdk.Session is about sessions of calls, and Spdk.Stable about what every call
--   keeps: that the entries of the two lists are live in blocks of their own (Spdk.Sound), or that
--   one of them is not (Spdk.Doomed); Spdk.Kept adds what the entry points do to the memory.
--   Spdk.Busy is about the transfers among the calls, Spdk.Startup about the two calls that a
--   session begins with, and Spdk.Failing about how they fail. Spdk.Blocks is an abstract
--   namespace, a byte at every address, and Spdk.Refine runs sequences of transfers against it.
-- - Api: src/txd_api.c, and do_format of src/txd_journal.c, as calls on the driver's memory, device
--   and lists. tx_begin goes through Spdk, Ondisk, Journal.Create and Journal.Load. main of
--   src/txd_debugging.c is there too (Api.Program). Api.Failing is about devices with nothing on
--   them, in both variants, Api.Crossing about a device that the earlier tx_format wrote, in
--   another process, and Api.Again about tx_begin more than once. Api.Refusals is about any calls
--   of the entry points and of the access functions, one after another; Api.Ends (with Api.Behind)
--   and Api.FormatKept say what tx_begin and tx_format keep.
-- - Print: print_sb_info, txd_allocated_mem_info and the struct sizes that the two programs print, as
--   text in ASCII codes; %d of a uint32_t is taken to print its pattern as an int.
-- - Early: the earlier variant, which defines the same functions under the same names. What the two
--   have in common is used from the modules above: the SPDK functions and the atomics of
--   Early.Access, the layout of the superblock, and the structs. Early.Revoke is
--   src/txdriver_revoke.c; Early.Create and Early.Load are src/txdriver_journal.c, with calloc in
--   place of the counted wrappers, one label for all failures and stubs for the recovery and the
--   reset; Early.Api is src/txdriver_api.c and the program of src/txdriver_debugging.c. Its other
--   modules are proofs: of the tables and the journal at whichever request they fail (Tables,
--   Lifecycle, Ready, Creation), of the two variants against each other (Agree), of tx_begin (Never,
--   Closing), of tx_format (Format) and of the program (Program).
-- - Examples: concrete inputs for the theorems.
--
-- Not modelled: include/list.h and include/poison.h, copies of the Linux headers; what the other
-- functions print on their way; the flag words of the block tags and of buffers, which nothing
-- reads; what the device does to the memory behind a DMA buffer that is shorter than its blocks
-- (those of the superblock are: 64 bytes for blocks of 512); the code between #if 0 and #endif; the
-- source files that are empty; mem_size, core_mask and the other options of the SPDK environment.
pub mod Base
pub mod Abi
pub mod Ondisk
pub mod Atomic
pub mod Malloc
pub mod Revoke
pub mod Thread
pub mod Spdk
pub mod Journal
pub mod Print
pub mod Api
pub mod Early
pub mod Examples
