-- ===== src/Examples/Transfers.antt =====
-- src/txd_spdk.c on a device with one store that completes every command at its second poll.
use mathlib.Core.List.{append-nil, take, replicate}
use tx_driver.Base.{
  ℕ, zero, suc, ◌≡◌, refl, sym, some, none, Option, List, [], ◌∷◌, arith, true, ok, ◌⊎◌, blocked,
  ◌++◌,
}
use tx_driver.Examples.{generous}
use tx_driver.Malloc.{libc}
use tx_driver.Ondisk.{txd_success}
use tx_driver.Spdk.Library.{Library, now, later}
use tx_driver.Spdk.Polling.{Disk, Usable, served}
use tx_driver.Spdk.Waiting.{Completing, transfers_wait}
use tx_driver.Spdk.State.{Driver, NsEntry, Qpair, is_live}
use tx_driver.Spdk.Transfer.{Params, spdk_write, spdk_read}

-- What is stored, what a read in flight fetches, and how many polls are left.
pub record Store : Type 0 where
  pub stored : List ℕ
  pub fetched : List ℕ
  pub polls : ℕ

abbrev pub poll_store : Store → Option (List ℕ) × Store
poll_store s = elim s.polls [ zero ↦ (some s.fetched, s) | suc n ↦ (none, record s { polls = n }) ]

-- A device with one controller, one namespace and one store behind every address.
abbrev pub one_store : Library
one_store = record {
  Dev = Store;
  probe = λ s. (0, 1 ∷ [], s);
  num_ns = λ ctrlr. 1;
  get_ns = λ ctrlr nsid. some nsid;
  is_active = λ ns. true;
  alloc_io_qpair = λ s ctrlr. (some 7, s);
  free_io_qpair = λ s q. (0, s);
  detach = λ s ctrlr. s;
  cmd_write = λ s ns q bytes lba n. (0, record { stored = bytes; fetched = []; polls = 1 });
  cmd_read = λ s ns q lba n. (0, record s { fetched = s.stored; polls = 1 });
  process_completions = λ s q. poll_store s;
}

abbrev pub one_store_serves : Disk one_store 4
one_store_serves = record {
  stored = λ s ns lba. s.stored;
  write_accepted = λ d ns q bytes lba n. refl;
  write_served = λ d ns q bytes lba n fits. (
    1,
    record { stored = bytes; fetched = []; polls = 0 },
    [],
    omega arith,
    later refl (now refl),
    sym (append-nil bytes),
  );
  read_accepted = λ d ns q lba n. refl;
  read_served = λ d ns q lba n.
      (1, record d { fetched = d.stored; polls = 0 }, omega arith, later refl (now refl));
}

abbrev pub first_ns : NsEntry
first_ns = record { addr = 1; ctrlr = 1; ns = 1; qpair = Qpair.at 7 }

abbrev pub attached : Driver Store
attached = record {
  memory = record {
    allocated_mem_size = 0;
    live = record { addr = 1; bytes = 32; source = libc } ∷ [];
    serial = 2;
  };
  device = record { stored = []; fetched = []; polls = 0 };
  g_controllers = [];
  g_namespaces = first_ns ∷ [];
}

pub attached-Usable : Usable one_store generous 4 attached first_ns 7
unfolding is_live
attached-Usable = record { others = []; chosen = refl; live = refl; qpair = refl }

abbrev four_bytes : Params
four_bytes = record {
  buf = 10 ∷ 20 ∷ 30 ∷ 40 ∷ [];
  buf_size = 4;
  buf_align = 64;
  lba = 5;
  lba_count = 1;
}

-- The device with the write in flight, and with the read in flight.
abbrev writing : Store
writing = record { stored = four_bytes.buf; fetched = []; polls = 1 }

abbrev reading : Store
reading = record { stored = []; fetched = []; polls = 1 }

transfers_wait_example :
    (((c : Completing one_store 4 7 writing) × (spdk_write one_store generous 4 four_bytes attached
          ≡ ok txd_success (served one_store generous 4 c.end attached)))
      ⊎ ((spdk_write one_store generous 4 four_bytes attached ≡ blocked)
          × ¬ Completing one_store 4 7 writing))
    × (((c : Completing one_store 4 7 reading) × (spdk_read one_store generous 4 four_bytes attached
            ≡ ok
                (txd_success, record four_bytes { buf = take 4 (c.bytes ++ replicate 4 0) })
                (served one_store generous 4 c.end attached)))
        ⊎ ((spdk_read one_store generous 4 four_bytes attached ≡ blocked)
            × ¬ Completing one_store 4 7 reading))
transfers_wait_example =
    transfers_wait one_store generous 4 attached first_ns 7 four_bytes writing reading
      attached-Usable refl refl refl
