-- ===== src/Examples/Blocks.antt =====
-- src/txd_spdk.c on a device with the bytes of one namespace, which completes every command at its
-- second poll.
use tx_driver.Base.{
  ℕ, zero, suc, ◌+◌, ◌*◌, ◌≤◌, ◌≡◌, refl, some, none, Option, List, [], ◌∷◌, arith, Returns, true,
  replicate, inl,
}
use tx_driver.Examples.{generous}
use tx_driver.Examples.Transfers.{first_ns}
use tx_driver.Malloc.{libc}
use tx_driver.Spdk.Blocks.{
  Disc, block_size, patch, slice, Op, write, read, IsSized, no_more, one_more, observe, after,
}
use tx_driver.Spdk.Library.{Library, now, later}
use tx_driver.Spdk.Polling.{Usable}
use tx_driver.Spdk.Refine.{BlockStore, transfers, transfers_refines, transfers-keep}
use tx_driver.Spdk.State.{Driver, is_live}
use tx_driver.Spdk.Transfer.{Params}

record Namespace : Type 0 where
  disc : Disc
  fetched : List ℕ
  polls : ℕ

abbrev poll_namespace : Namespace → Option (List ℕ) × Namespace
poll_namespace s = elim s.polls [
  | zero ↦ (some s.fetched, s)
  | suc n ↦ (none, record s { polls = n })
]

abbrev one_namespace : Library
one_namespace = record {
  Dev = Namespace;
  probe = λ s. (0, 1 ∷ [], s);
  num_ns = λ ctrlr. 1;
  get_ns = λ ctrlr nsid. some nsid;
  is_active = λ ns. true;
  alloc_io_qpair = λ s ctrlr. (some 7, s);
  free_io_qpair = λ s q. (0, s);
  detach = λ s ctrlr. s;
  cmd_write = λ s ns q bytes lba n.
      (0, record { disc = patch s.disc (block_size * lba) bytes; fetched = []; polls = 1 });
  cmd_read = λ s ns q lba n.
      (0, record s { fetched = slice s.disc (block_size * lba) (block_size * n); polls = 1 });
  process_completions = λ s q. poll_namespace s;
}

abbrev namespace_store : BlockStore one_namespace 4
namespace_store = record {
  capacity = λ ns. 1024;
  view = λ s ns. s.disc;
  write_accepted = λ d ns q bytes lba n fits. refl;
  write_served = λ d ns q bytes lba n fits long. (
    1,
    record { disc = patch d.disc (block_size * lba) bytes; fetched = []; polls = 0 },
    omega arith,
    later refl (now refl),
    refl,
  );
  read_accepted = λ d ns q lba n fits. refl;
  read_served = λ d ns q lba n fits. (
    1,
    record d { fetched = slice d.disc (block_size * lba) (block_size * n); polls = 0 },
    omega arith,
    later refl (now refl),
    refl,
  );
}

abbrev empty_disc : Driver Namespace
empty_disc = record {
  memory = record {
    allocated_mem_size = 0;
    live = record { addr = 1; bytes = 32; source = libc } ∷ [];
    serial = 2;
  };
  device = record { disc = λ a. 0; fetched = []; polls = 0 };
  g_controllers = [];
  g_namespaces = first_ns ∷ [];
}

empty_disc-Usable : Usable one_namespace generous 4 empty_disc first_ns 7
unfolding is_live
empty_disc-Usable = record { others = []; chosen = refl; live = refl; qpair = refl }

abbrev block_of : (byte lba : ℕ) → Params
block_of byte lba = record {
  buf = replicate 512 byte;
  buf_size = 512;
  buf_align = 64;
  lba = lba;
  lba_count = 1;
}

block_of-IsSized : (byte lba : ℕ) → lba + 1 ≤ 1024 → IsSized 1024 (block_of byte lba)
block_of-IsSized byte lba h = record { on_disc = h; filled = refl; blocks = refl }

abbrev two_operations : List Op
two_operations = write (block_of 9 5) ∷ read (block_of 0 5) ∷ []

transfers_refines_example :
    Returns
      (λ out d'.
        (out ≡ observe (λ a. 0) two_operations)
        × (d'.device.disc ≡ after (λ a. 0) two_operations)
        × (d'.memory.live ≡ empty_disc.memory.live)
        × (d'.memory.allocated_mem_size ≡ 0)
        × (d'.g_namespaces ≡ first_ns ∷ []))
      (transfers one_namespace generous 4 two_operations empty_disc)
transfers_refines_example =
    transfers_refines one_namespace generous 4 namespace_store (λ serial bytes. refl) first_ns 7
      two_operations empty_disc empty_disc-Usable
      (one_more (block_of-IsSized 9 5 (omega arith))
        (one_more (block_of-IsSized 0 5 (omega arith)) no_more))

transfers-keep_example :
    Returns
      (λ out d'. out ≡ (block_of 9 5).buf ∷ [])
      (transfers one_namespace generous 4
        (write (block_of 9 5) ∷ write (block_of 3 6) ∷ read (block_of 0 5) ∷ [])
        empty_disc)
transfers-keep_example =
    transfers-keep one_namespace generous 4 namespace_store (λ serial bytes. refl) first_ns 7
      (block_of 9 5) (block_of 3 6) (block_of 0 5) empty_disc empty_disc-Usable
      (block_of-IsSized 9 5 (omega arith)) (block_of-IsSized 3 6 (omega arith))
      (block_of-IsSized 0 5 (omega arith)) refl refl (inl (omega arith))
