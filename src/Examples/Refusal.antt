-- ===== src/Examples/Refusal.antt =====
-- `tx_begin` on a formatted device, where the third request for the journal is refused.
use mathlib.Core.List.{append-nil}
use tx_driver.Api.{new_superblock, tx_begin}
use tx_driver.Api.Format.{new_superblock-Fits}
use tx_driver.Api.Outcomes.{BeginOutcome, tx_begin-Outcome}
use tx_driver.Base.{refl, sym, true, false, arith, [], Returns, ◌==◌, if◌then◌else◌}
use tx_driver.Examples.{bit_heads, blank}
use tx_driver.Examples.Entry.{probed, probed-Holding}
use tx_driver.Examples.Transfers.{Store, one_store, one_store_serves}
use tx_driver.Malloc.{Grants}
use tx_driver.Ondisk.Layout.{from_bytes, to_bytes, from_bytes-to_bytes}
use tx_driver.Spdk.Held.{newest, empty}
use tx_driver.Spdk.Polling.{Usable}
use tx_driver.Spdk.State.{Driver, NsEntry, Qpair, is_live}

abbrev eighth_refused : Grants
eighth_refused src serial bytes = if serial == 8 then false else true

abbrev formatted_store : Driver Store
formatted_store = record probed {
  device = record { stored = to_bytes (new_superblock 1024); fetched = []; polls = 0 };
}

abbrev only_ns : NsEntry
only_ns = record { addr = 2; ctrlr = 1; ns = 1; qpair = Qpair.at 7 }

formatted_store-Usable : Usable one_store eighth_refused 4 formatted_store only_ns 7
unfolding is_live
formatted_store-Usable = record { others = []; chosen = refl; live = refl; qpair = refl }

tx_begin-Outcome_example :
    Returns
      (BeginOutcome one_store eighth_refused 4 bit_heads blank
        (from_bytes (to_bytes (new_superblock 1024)))
        1024
        7
        formatted_store)
      (tx_begin one_store eighth_refused 4 bit_heads blank 0 5 1024 formatted_store)
tx_begin-Outcome_example =
    tx_begin-Outcome one_store eighth_refused 4 bit_heads blank one_store_serves formatted_store
      only_ns 7 4 5 1024 (to_bytes (new_superblock 1024)) [] formatted_store-Usable
      (sym (append-nil (to_bytes (new_superblock 1024))))
      (from_bytes-to_bytes (new_superblock 1024) [] (new_superblock-Fits 1024 (omega arith))).0 refl
      refl (omega arith) (λ dev. omega arith) (newest (omega arith) (newest (omega arith) empty))
      probed-Holding
