-- ===== src/Examples/Refusals.antt =====
-- The calls of src/txd_api.c on a device without a superblock.
use tx_driver.Api.{tx_begin, tx_format}
use tx_driver.Examples.{generous, bit_heads, blank}
use tx_driver.Examples.Entry.{start, probed, tx_format_run}
use tx_driver.Examples.Transfers.{Store, one_store}
use tx_driver.Spdk.State.{Driver}
use tx_driver.Api.{begin_read, begin_superblock, begin_out_1, begin_out_2, begin_params}
use tx_driver.Api.Refusals.{
  accessed, ApiCalls, started, called, formatted, begun, refusals, one_refusal,
}
use tx_driver.Base.{◌≡◌, refl, ok, fault, none, [], ◌∷◌, ◌⊎◌, Returns}
use tx_driver.Malloc.{txd_calloc, txd_free, obtain, give_back, take_back}
use tx_driver.Ondisk.{chk_txd_sb, txd_success}
use tx_driver.Ondisk.Layout.{from_bytes}
use tx_driver.Spdk.Session.{free}
use tx_driver.Spdk.Probe.{
  spdk_init, register_ns, register_all, attach_cb, attach_all, check_probe, spdk_alloc_qpair,
}
use tx_driver.Malloc.{libc, txd_zmalloc_spdk, txd_free_spdk}
use tx_driver.Spdk.State.{Qpair}
use tx_driver.Spdk.Held.{empty}
use tx_driver.Spdk.Probe.{spdk_free, cleanup, free_namespaces, free_controllers}
use tx_driver.Spdk.State.{on_memory, first_namespace, is_live, follow}
use tx_driver.Spdk.Transfer.{spdk_read, read_into, submit, poll, read_complete}

-- `tx_begin` has read what is no superblock, and the driver has been released.
abbrev turned_down : Driver Store
turned_down = record probed {
  memory = record { allocated_mem_size = 0; live = []; serial = 6 };
  device = record { stored = 1 ∷ 2 ∷ 3 ∷ []; fetched = 1 ∷ 2 ∷ 3 ∷ []; polls = 0 };
}

tx_begin_run : tx_begin one_store generous 4 bit_heads blank 0 0 1024 probed ≡ ok none turned_down
unfolding tx_begin txd_calloc begin_read begin_superblock begin_out_1 begin_out_2 begin_params
    spdk_read read_into submit poll read_complete on_memory first_namespace is_live obtain give_back
    take_back txd_free chk_txd_sb from_bytes spdk_free cleanup free_namespaces free_controllers
    follow
tx_begin_run = refl

-- The device is found a second time, and its entries come in front of those that were given back.
abbrev found_twice : Driver Store
found_twice = record turned_down {
  memory = record {
    allocated_mem_size = 0;
    live =
        record { addr = 7; bytes = 32; source = libc }
        ∷ record { addr = 6; bytes = 1040; source = libc }
        ∷ [];
    serial = 9;
  };
  g_controllers = record { addr = 6; ctrlr = 1 } ∷ turned_down.g_controllers;
  g_namespaces =
      record { addr = 7; ctrlr = 1; ns = 1; qpair = Qpair.at 7 } ∷ turned_down.g_namespaces;
}

second_format : tx_format one_store generous 0 1024 turned_down ≡ ok txd_success found_twice
unfolding tx_format spdk_init register_ns register_all attach_cb attach_all check_probe
    spdk_alloc_qpair on_memory first_namespace is_live obtain txd_zmalloc_spdk txd_free_spdk
second_format = refl

released : spdk_free one_store generous found_twice ≡ ok 0 found_twice
unfolding spdk_free first_namespace is_live
released = refl

four_entries : ApiCalls one_store generous 4 bit_heads start found_twice
four_entries =
    called
      (called
        (called (called started (formatted 0 1024 txd_success tx_format_run))
          (begun blank 0 0 1024 none tx_begin_run))
        (formatted 0 1024 txd_success second_format))
      (accessed (free 0 released))

one_refusal_example :
    ((refusals one_store generous 4 bit_heads four_entries ≡ 0)
      × Returns
          (λ _ e. e.memory.allocated_mem_size ≡ found_twice.memory.allocated_mem_size)
          (cleanup one_store generous found_twice))
    ⊎ ((refusals one_store generous 4 bit_heads four_entries ≡ 1)
        × (cleanup one_store generous found_twice ≡ fault))
one_refusal_example = one_refusal one_store generous 4 bit_heads four_entries refl refl empty
