-- ===== src/Examples/Entry.antt =====
-- src/txd_api.c on the device with one store.
use tx_driver.Spdk.Held.{Holding, one_more, none_held}
use tx_driver.Base.{Bool, Returns, ◌>>◌, ℕ, ◌≡◌, refl, arith, ok, [], ◌∷◌, some}
use tx_driver.Api.{tx_format, format_params, new_superblock, do_format, tx_begin}
use tx_driver.Api.Untouched.{IsKept, tx_format-stored}
use tx_driver.Examples.{generous, fresh_memory, bit_heads, blank}
use tx_driver.Examples.Transfers.{
  Store, one_store, one_store_serves, first_ns, attached, attached-Usable,
}
use mathlib.Core.List.{append-nil}
use tx_driver.Api.Again.{ReadsKeep, AllOpened, begins, begins-AllOpened}
use tx_driver.Api.Format.{new_superblock-Fits}
use tx_driver.Ondisk.Layout.{to_bytes, from_bytes-to_bytes}
use tx_driver.Spdk.Polling.{Usable}
use tx_driver.Base.{List, ◌++◌, length, ap, sym, ◌∙◌}
use tx_driver.Api.Begin.{Opened, format-begin}
use tx_driver.Journal.Defs.{Journal}
use tx_driver.Malloc.{take_back, libc, obtain, txd_zmalloc_spdk, txd_free_spdk}
use tx_driver.Ondisk.{txd_success, sizeof_superblock}
use tx_driver.Ondisk.Layout.{from_bytes}
use tx_driver.Spdk.Probe.{
  spdk_init, register_ns, register_all, attach_cb, attach_all, check_probe, spdk_alloc_qpair,
}
use tx_driver.Spdk.State.{Driver, Qpair, on_memory, first_namespace, is_live}

abbrev pub start : Driver Store
start = record {
  memory = fresh_memory;
  device = record { stored = 1 ∷ 2 ∷ 3 ∷ []; fetched = []; polls = 0 };
  g_controllers = [];
  g_namespaces = [];
}

-- The controller and its namespace are found, and the superblock's buffer has been given back.
abbrev pub probed : Driver Store
probed = record start {
  memory = record {
    allocated_mem_size = 0;
    live =
        record { addr = 2; bytes = 32; source = libc }
        ∷ record { addr = 1; bytes = 1040; source = libc }
        ∷ [];
    serial = 4;
  };
  g_controllers = record { addr = 1; ctrlr = 1 } ∷ [];
  g_namespaces = record { addr = 2; ctrlr = 1; ns = 1; qpair = Qpair.at 7 } ∷ [];
}

pub tx_format_run : tx_format one_store generous 0 1024 start ≡ ok txd_success probed
unfolding tx_format spdk_init register_ns register_all attach_cb attach_all check_probe
    spdk_alloc_qpair on_memory first_namespace is_live obtain txd_zmalloc_spdk txd_free_spdk
tx_format_run = refl

stored-IsKept : IsKept one_store (λ s. s.stored)
stored-IsKept = record { probe = λ d. refl; alloc = λ d ctrlr. refl; detach = λ d ctrlr. refl }

tx_format-stored_example : probed.device.stored ≡ start.device.stored
tx_format-stored_example =
    tx_format-stored one_store generous (λ s. s.stored) stored-IsKept 0 1024 start probed
      txd_success tx_format_run

format-begin_example :
    Returns
      (λ o d'.
        (j : Journal Bool) × (o ≡ some j)
        × Opened one_store generous 4 bit_heads blank (new_superblock 1024) j)
      ((do
        do_format one_store generous 4 (format_params 5 1024)
        tx_begin one_store generous 4 bit_heads blank 0 5 1024)
        attached)
format-begin_example =
    format-begin one_store generous 4 bit_heads blank
      (record { granted = λ src serial bytes. refl }) refl (omega arith) one_store_serves attached
      first_ns 7 5 1024 attached-Usable (omega arith) (omega arith) (omega arith)

pub probed-Holding : Holding (2 ∷ 1 ∷ []) probed.memory.live
unfolding take_back
probed-Holding = one_more refl (one_more refl none_held)

-- The superblock is on the device, and reading leaves it there.
abbrev formatted_device : Driver Store
formatted_device = record attached {
  device = record { stored = to_bytes (new_superblock 1024); fetched = []; polls = 0 };
}

formatted_device-Usable : Usable one_store generous 4 formatted_device first_ns 7
unfolding is_live
formatted_device-Usable = record { others = []; chosen = refl; live = refl; qpair = refl }

reads-Keep : ReadsKeep one_store 4 one_store_serves
reads-Keep = record { kept = λ d ns q lba n ns' lba'. refl }

abbrev formatted_bytes : List ℕ
formatted_bytes = to_bytes (new_superblock 1024)

read_back :
    (length formatted_bytes ≡ sizeof_superblock)
    × (from_bytes formatted_bytes ≡ new_superblock 1024)
read_back =
    let (len, back) =
      from_bytes-to_bytes (new_superblock 1024) [] (new_superblock-Fits 1024 (omega arith)) in
    (len, ap from_bytes (sym (append-nil formatted_bytes)) ∙ back)

begins-AllOpened_example :
    Returns
      (λ os d'.
        (length os ≡ 3)
        × AllOpened one_store generous 4 bit_heads blank (new_superblock 1024) os
        × (length d'.memory.live ≡ 25)
        × (one_store_serves.stored d'.device 1 5 ≡ formatted_bytes ++ []))
      (begins one_store generous 4 bit_heads blank 3 5 1024 formatted_device)
begins-AllOpened_example =
    begins-AllOpened one_store generous 4 bit_heads blank
      (record { granted = λ src serial bytes. refl }) refl (omega arith) one_store_serves reads-Keep
      first_ns 7 5 1024 formatted_bytes [] 3 formatted_device formatted_device-Usable
      (sym (append-nil formatted_bytes)) read_back.0 read_back.1 (omega arith) (omega arith)
