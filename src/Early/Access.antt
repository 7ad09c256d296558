-- ===== src/Early/Access.antt =====
-- src/txdriver_spdk.c and src/atomic.c, the header functions and print_sb_info of
-- src/txdriver_journal.c, and what the program of src/txdriver_debugging.c prints. They differ from those
-- of src/txd_spdk.c, src/txd_atomic.c, src/txd_journal.c and src/txd_debugging.c in what the functions on
-- the device print, in the options of the SPDK environment and in a comment, none of which is modelled,
-- and in calling printf(...) for fprintf(stdout, ...): the functions are the same.
use tx_driver.Abi.{Member}
use tx_driver.Atomic
use tx_driver.Ondisk
use tx_driver.Print
use tx_driver.Ondisk.{BlockType, Header, Superblock}
use tx_driver.Base.{ℕ, Bool, Option, List, Cmd}
use tx_driver.Malloc.{Grants}
use tx_driver.Spdk.Library.{Library}
use tx_driver.Spdk.Probe
use tx_driver.Spdk.State
use tx_driver.Spdk.State.{Driver}
use tx_driver.Spdk.Transfer
use tx_driver.Spdk.Transfer.{Params}

abbrev pub atomic_add : ℕ → ℕ → ℕ
atomic_add = Atomic.atomic_add

abbrev pub atomic_sub : ℕ → ℕ → ℕ
atomic_sub = Atomic.atomic_sub

abbrev pub atomic_inc : ℕ → ℕ
atomic_inc = Atomic.atomic_inc

abbrev pub atomic_dec : ℕ → ℕ
atomic_dec = Atomic.atomic_dec

abbrev pub atomic_dec_and_test : ℕ → ℕ × Bool
atomic_dec_and_test = Atomic.atomic_dec_and_test

abbrev pub atomic_inc_and_test : ℕ → ℕ × Bool
atomic_inc_and_test = Atomic.atomic_inc_and_test

abbrev pub test_and_set : ℕ → ℕ × ℕ
test_and_set = Atomic.test_and_set

abbrev pub atomic_xchg : ℕ → ℕ → ℕ × ℕ
atomic_xchg = Atomic.atomic_xchg

abbrev pub init_journal_header : Header → BlockType → ℕ → Header
init_journal_header = Ondisk.init_journal_header

abbrev pub chk_txd_sb : Superblock → ℕ → ℕ
chk_txd_sb = Ondisk.chk_txd_sb

abbrev pub print_sb_info : Option Superblock → Cmd (List ℕ) (Unit {0})
print_sb_info = Print.print_sb_info

abbrev pub print_sizes : Cmd (List ℕ) (Unit {0})
print_sizes = Print.print_sizes

abbrev pub sequence_members : List Member
sequence_members = State.sequence_members

abbrev pub sizeof_ctrlr_entry : ℕ
sizeof_ctrlr_entry = State.sizeof_ctrlr_entry

abbrev pub sizeof_ns_entry : ℕ
sizeof_ns_entry = State.sizeof_ns_entry

module _ (lib : Library) (grants : Grants) where
  open lib use {Dev}

  abbrev pub probe_cb : (ctrlr : ℕ) → Bool
  probe_cb = Probe.probe_cb lib grants

  abbrev pub register_ns : (ctrlr ns : ℕ) → Cmd (Driver Dev) (Unit {0})
  register_ns = Probe.register_ns lib grants

  abbrev pub attach_cb : ℕ → Cmd (Driver Dev) (Unit {0})
  attach_cb = Probe.attach_cb lib grants

  abbrev pub spdk_init : Cmd (Driver Dev) ℕ
  spdk_init = Probe.spdk_init lib grants

  abbrev pub spdk_alloc_qpair : Cmd (Driver Dev) ℕ
  spdk_alloc_qpair = Probe.spdk_alloc_qpair lib grants

  abbrev pub spdk_free : Cmd (Driver Dev) ℕ
  spdk_free = Probe.spdk_free lib grants

  abbrev pub cleanup : Cmd (Driver Dev) (Unit {0})
  cleanup = Probe.cleanup lib grants

  module _ (patience : ℕ) where
    abbrev pub write_complete : ℕ → Cmd (Driver Dev) (Unit {0})
    write_complete = Transfer.write_complete lib grants patience

    abbrev pub read_complete : (buf_size dma : ℕ) → List ℕ → Cmd (Driver Dev) (List ℕ)
    read_complete = Transfer.read_complete lib grants patience

    abbrev pub spdk_write : Params → Cmd (Driver Dev) ℕ
    spdk_write = Transfer.spdk_write lib grants patience

    abbrev pub spdk_read : Params → Cmd (Driver Dev) (ℕ × Params)
    spdk_read = Transfer.spdk_read lib grants patience
