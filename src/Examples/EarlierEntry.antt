-- ===== src/Examples/EarlierEntry.antt =====
-- The entry points of the earlier variant, on the device with one store.
use tx_driver.Base.{sym, ◌≡◌, refl, arith, fault, [], ◌∷◌, ◌/◌, Returns, ℕ}
use tx_driver.Api.{new_superblock}
use tx_driver.Early.Api.{lba_unit, format_bytes, tx_format, tx_begin, main}
use tx_driver.Early.Closing.{IsClosable, EarlyClosed, early_tx_begin-Closed}
use tx_driver.Early.Format.{tx_format_overflows, early_tx_format-stores}
use mathlib.Core.List.{append-nil}
use tx_driver.Api.Format.{new_superblock-Fits}
use tx_driver.Early.Program.{early_main-releases}
use tx_driver.Examples.Sessions.{
  entry, found_at, with_queue, start_found, start_queued, start-Finds,
}
use tx_driver.Spdk.Cleanup.{Released}
use tx_driver.Spdk.Registry.{controllers_of, namespaces_of, push_all, active_of}
use tx_driver.Early.Tables.{libc_block}
use tx_driver.Examples.{generous, bit_heads, blank}
use tx_driver.Examples.Earlier.{blank-IsBlank}
use tx_driver.Examples.Entry.{start, probed-Holding}
use tx_driver.Examples.Transfers.{Store, one_store, one_store_serves}
use tx_driver.Ondisk.{txd_success}
use tx_driver.Ondisk.Layout.{from_bytes, to_bytes, from_bytes-to_bytes}
use tx_driver.Spdk.Held.{newest, empty}
use tx_driver.Spdk.Polling.{Usable}
use tx_driver.Spdk.Probe
use tx_driver.Spdk.Probe.{attach_all, attach_cb, register_all, register_ns, check_probe}
use tx_driver.Spdk.State.{Driver, Qpair, is_live}

with_queue-Usable : Usable one_store generous 4 with_queue (entry (Qpair.at 7)) 7
unfolding is_live
with_queue-Usable = record { others = []; chosen = refl; live = refl; qpair = refl }

-- The lists of the driver that has its queue pair, whatever its device and memory besides.
with_queue-IsClosable :
    IsClosable one_store generous 4 bit_heads blank (entry (Qpair.at 7)) 7 3 with_queue
unfolding is_live
with_queue-IsClosable = record {
  others = [];
  chosen = refl;
  first_live = refl;
  qpair = refl;
  below = newest (omega arith) (newest (omega arith) empty);
  held = probed-Holding;
}

tx_format_overflows_example : tx_format one_store generous 4 0 8388608 start ≡ fault
tx_format_overflows_example =
    tx_format_overflows one_store generous 4 0 8388608 start found_at with_queue start_found
      start_queued (omega arith) refl

early_tx_format-stores_example :
    Returns
      (λ err d'.
        (err ≡ txd_success)
        × (from_bytes (one_store_serves.stored d'.device 1 (1024 / lba_unit)) ≡ new_superblock 2048)
        × (d'.memory.live ≡ libc_block 3 (format_bytes 2048) ∷ with_queue.memory.live)
        × (d'.g_namespaces ≡ with_queue.g_namespaces))
      (tx_format one_store generous 4 1024 2048 start)
early_tx_format-stores_example =
    early_tx_format-stores one_store generous 4 1024 2048 start found_at with_queue start_found
      start_queued one_store_serves (entry (Qpair.at 7)) 7 with_queue-Usable (omega arith)
      (omega arith) (omega arith) refl refl

-- The device of `main`, formatted.
abbrev superblock_stored : Driver Store
superblock_stored = record with_queue {
  device = record { stored = to_bytes (new_superblock 512); fetched = []; polls = 0 };
}

early_tx_begin-Closed_example :
    Returns
      (EarlyClosed one_store generous 4 bit_heads blank 7 superblock_stored)
      (tx_begin one_store generous 4 bit_heads blank 0 512 superblock_stored)
early_tx_begin-Closed_example =
    early_tx_begin-Closed one_store generous 4 bit_heads blank (blank-IsBlank generous)
      (entry (Qpair.at 7)) 7 (λ dev. omega arith) one_store_serves superblock_stored 0 512
      (to_bytes (new_superblock 512)) [] with_queue-IsClosable
      (sym (append-nil (to_bytes (new_superblock 512))))
      (from_bytes-to_bytes (new_superblock 512) [] (new_superblock-Fits 512 (omega arith))).0 refl
      refl

early_main-releases_example :
    Returns
      (λ r d'.
        (r ≡ 0)
        × (d'.memory.allocated_mem_size ≡ start.memory.allocated_mem_size)
        × (namespaces_of d'.g_namespaces ≡ push_all (active_of one_store (1 ∷ [])) [])
        × (controllers_of d'.g_controllers ≡ push_all (1 ∷ []) [])
        × ((dev : Store) × (q : ℕ) × Released one_store generous
              (one_store.free_io_qpair dev q).1
              d')
        × (Probe.spdk_alloc_qpair one_store generous d' ≡ fault))
      (main one_store generous 4 bit_heads blank start)
early_main-releases_example =
    early_main-releases one_store generous 4 bit_heads blank (blank-IsBlank generous)
      one_store_serves start 1 [] (λ src serial bytes. refl) (λ dev q. omega arith)
      (start-Finds start.device) refl refl empty
