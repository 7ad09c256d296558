-- ===== src/Examples/Structs.antt =====
-- The structs of include/txdriver.h with the pthread types of glibc on x86-64.
use tx_driver.Abi.{sizeof}
use tx_driver.Base.{◌≡◌, refl, arith, Returns}
use tx_driver.Examples.{generous, fresh_memory, bit_heads, blank, formatted}
use tx_driver.Journal.Create.{txd_get_journal}
use tx_driver.Journal.Layout.{IsSane, ShortResult, get_journal-ShortResult}
use tx_driver.Journal.Structs
use tx_driver.Ondisk.{clsize, sizeof_superblock, sizeof_block_tag, sizeof_commit_header}

abbrev glibc : Structs.Pthread
glibc = record {
  mutex = record { size = 40; align = 8 };
  cond = record { size = 48; align = 8 };
  rwlock = record { size = 56; align = 8 };
  spinlock = record { size = 4; align = 4 };
}

glibc-IsSane : IsSane glibc
glibc-IsSane = record {
  mutex = omega arith;
  cond = omega arith;
  rwlock = omega arith;
  spinlock = omega arith;
}

get_journal-ShortResult_example :
    Returns
      (ShortResult glibc glibc-IsSane bit_heads blank generous)
      (txd_get_journal bit_heads blank generous formatted fresh_memory)
get_journal-ShortResult_example =
    get_journal-ShortResult glibc glibc-IsSane bit_heads blank generous formatted fresh_memory
      (omega arith)

-- A journal and a transaction in bytes, and the structs that take a cache line.
glibc_sizes :
    (sizeof (Structs.journal_members glibc) ≡ 1376)
    × (sizeof (Structs.transaction_members glibc) ≡ 224)
    × (sizeof_superblock ≡ clsize)
    × (sizeof_block_tag ≡ clsize)
    × (sizeof_commit_header ≡ clsize)
glibc_sizes = (refl, refl, refl, refl, refl)
