-- ===== src/Examples/Crossing.antt =====
-- The earlier `tx_format` and then the current driver in another process, on the device with one store.
use tx_driver.Api.{new_superblock, tx_begin, tx_format}
use tx_driver.Api.Begin.{Opened}
use tx_driver.Api.Crossing.{new_process, format-crosses}
use tx_driver.Base.{Bool, [], ◌≡◌, refl, some, arith, Returns, ◌>>◌}
use tx_driver.Early
use tx_driver.Examples.{fresh_memory, generous, bit_heads, blank}
use tx_driver.Examples.Entry.{start}
use tx_driver.Examples.Sessions.{start-Finds, serves-IsKept}
use tx_driver.Examples.Transfers.{one_store, one_store_serves}
use tx_driver.Journal.Defs.{Journal}
use tx_driver.Spdk.Held.{empty}

format-crosses_example :
    Returns
      (λ o d'.
        (j : Journal Bool) × (o ≡ some j)
        × Opened one_store generous 4 bit_heads blank (new_superblock 1024) j)
      ((do
        Early.Api.tx_format one_store generous 4 2560 1024
        new_process fresh_memory
        tx_format one_store generous 5 1024
        tx_begin one_store generous 4 bit_heads blank 0 5 1024)
        start)
format-crosses_example =
    format-crosses one_store generous 4 bit_heads blank
      (record { granted = λ src serial bytes. refl }) refl (omega arith) one_store_serves
      serves-IsKept start fresh_memory 1 [] 2560 1024 start-Finds refl refl empty empty
      (omega arith) (omega arith) (omega arith) (omega arith)
