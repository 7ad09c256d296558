-- ===== src/Examples/Allocations.antt =====
-- src/txd_malloc.c on concrete memories.
use tx_driver.Base.{refl, some, arith, [], ◌∷◌}
use tx_driver.Examples.{generous, fresh_memory}
use tx_driver.Malloc.{
  Memory, txd_zmalloc_spdk, txd_malloc_dpdk, take_back, spdk, dpdk, obtain_counted, txd_free_dpdk,
  give_back,
}
use tx_driver.Malloc.Traces.{
  Calls, started, called, malloc_dpdk, zmalloc_spdk, free, Calls-Accounted,
}
use tx_driver.Malloc.Accounting.{Accounted}

fresh-Accounted : Accounted fresh_memory
fresh-Accounted = record { exact = omega arith }

-- A block of DPDK, then one of SPDK, of which the first is given back.
abbrev one_block : Memory
one_block = record {
  allocated_mem_size = 64;
  live = record { addr = 1; bytes = 64; source = dpdk } ∷ [];
  serial = 2;
}

abbrev second_block : Memory
second_block = record {
  allocated_mem_size = 96;
  live =
      record { addr = 2; bytes = 32; source = spdk }
      ∷ record { addr = 1; bytes = 64; source = dpdk }
      ∷ [];
  serial = 3;
}

abbrev given_back : Memory
given_back = record {
  allocated_mem_size = 32;
  live = record { addr = 2; bytes = 32; source = spdk } ∷ [];
  serial = 3;
}

three-Calls : Calls generous fresh_memory given_back
unfolding txd_malloc_dpdk txd_zmalloc_spdk obtain_counted txd_free_dpdk give_back take_back
three-Calls =
    called
      (called (called started (malloc_dpdk 64 (some 1) (omega arith) refl))
        (zmalloc_spdk 32 (some 2) (omega arith) refl))
      (free dpdk 1 64 refl refl)

Calls-Accounted_example : Accounted given_back
Calls-Accounted_example = Calls-Accounted generous fresh-Accounted three-Calls
