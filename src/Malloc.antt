-- ===== src/Malloc.antt =====
-- src/txd_malloc.c: the wrappers over three allocators, and the counter `allocated_mem_size`.
--
-- The allocators are not part of the repository: whether a request is granted is the parameter
-- `grants`, asked with the serial number of the request and its size. A granted block gets its
-- serial number as its address. `live` lists the blocks that are granted and not yet given back;
-- `free` of NULL does nothing, and `free` of what is not live in that allocator is a fault.
pub mod Accounting
pub mod Traces
pub mod Owned
use tx_driver.Base.{
  ℕ, suc, ◌+◌, ◌*◌, ◌^◌, Bool, true, false, Option, none, some, List, [], ◌∷◌, ◌==◌, ◌&&◌, sub64,
  if◌then◌else◌, u64, Outcome, ok, fault, Cmd, pure, ◌>>=◌, ◌>>◌, map, replicate,
}
use mathlib.Core.Option

pub data Source : Type 0 where
  spdk dpdk libc : Source

abbrev pub same_source : Source → Source → Bool
same_source spdk spdk = true
same_source dpdk dpdk = true
same_source libc libc = true
same_source _ _ = false

pub record Block : Type 0 where
  pub addr : ℕ
  pub bytes : ℕ
  pub source : Source

pub record Memory : Type 0 where
  pub allocated_mem_size : ℕ  -- unsigned long long
  pub live : List Block
  pub serial : ℕ

-- Whether an allocator grants request number `serial` for `bytes` bytes.
abbrev pub Grants : Type 0
Grants = Source → (serial bytes : ℕ) → Bool

-- Takes the block at `p` off a list; `none` if there is none.
unfoldable pub take_back : Source → ℕ → List Block → Option (List Block)
take_back src p [] = none
take_back src p (b ∷ bs) =
    let rest = take_back src p bs in
    if (b.addr == p) && same_source b.source src then some bs else Option.map (λ r. b ∷ r) rest

-- `allocated_mem_size += size` and `-= size`
abbrev pub count_up : ℕ → Cmd Memory (Unit {0})
count_up size m = ok tt (record m { allocated_mem_size = u64 (m.allocated_mem_size + size) })

abbrev pub count_down : ℕ → Cmd Memory (Unit {0})
count_down size m = ok tt (record m { allocated_mem_size = sub64 m.allocated_mem_size size })

-- `spdk_dma_free`, `rte_free` and `free`; `none` is NULL.
unfoldable pub give_back : Source → Option ℕ → Cmd Memory (Unit {0})
unfolding take_back
give_back src none m = ok tt m
give_back src (some p) m = elim (take_back src p m.live) [
  | none ↦ fault
  | some rest ↦ ok tt (record m { live = rest })
]

module _ (grants : Grants) where
  -- A request to one of the three allocators.
  unfoldable pub obtain : Source → ℕ → Cmd Memory (Option ℕ)
  obtain src bytes m =
      if grants src m.serial bytes
      then ok (some m.serial) (record m {
        live = record { addr = m.serial; bytes = bytes; source = src } ∷ m.live;
        serial = suc m.serial;
      })
      else ok none (record m { serial = suc m.serial })

  -- The body that the five SPDK and DPDK wrappers share: the counter moves on success only.
  unfoldable pub obtain_counted : Source → (bytes counted : ℕ) → Cmd Memory (Option ℕ)
  unfolding obtain
  obtain_counted src bytes counted = do
    p ← obtain src bytes
    elim p [ none ↦ pure none | some a ↦ count_up counted >> pure (some a) ]

  unfoldable pub txd_malloc_spdk : ℕ → Cmd Memory (Option ℕ)
  unfolding obtain_counted
  txd_malloc_spdk size = obtain_counted spdk size size

  unfoldable pub txd_zmalloc_spdk : ℕ → Cmd Memory (Option ℕ)
  unfolding obtain_counted
  txd_zmalloc_spdk size = obtain_counted spdk size size

  unfoldable pub txd_malloc_dpdk : ℕ → Cmd Memory (Option ℕ)
  unfolding obtain_counted
  txd_malloc_dpdk size = obtain_counted dpdk size size

  unfoldable pub txd_zmalloc_dpdk : ℕ → Cmd Memory (Option ℕ)
  unfolding obtain_counted
  txd_zmalloc_dpdk size = obtain_counted dpdk size size

  -- `rte_calloc` is handed both factors and rejects a product that overflows, so it is asked for
  -- the exact product; the counter takes the product as a `size_t`.
  unfoldable pub txd_calloc_dpdk : ℕ → ℕ → Cmd Memory (Option ℕ)
  unfolding obtain_counted
  txd_calloc_dpdk num size = obtain_counted dpdk (num * size) (u64 (size * num))

  -- The libc wrappers count before they ask, and whatever the answer; `txd_calloc` counts one item.
  unfoldable pub txd_malloc : ℕ → Cmd Memory (Option ℕ)
  unfolding obtain
  txd_malloc size = do count_up size; obtain libc size

  unfoldable pub txd_calloc : ℕ → ℕ → Cmd Memory (Option ℕ)
  unfolding obtain
  txd_calloc num size = do count_up size; obtain libc (num * size)

unfoldable pub txd_free_spdk : Option ℕ → ℕ → Cmd Memory (Unit {0})
unfolding give_back
txd_free_spdk buf size = do count_down size; give_back spdk buf

unfoldable pub txd_free_dpdk : Option ℕ → ℕ → Cmd Memory (Unit {0})
unfolding give_back
txd_free_dpdk ptr size = do count_down size; give_back dpdk ptr

unfoldable pub txd_free : Option ℕ → ℕ → Cmd Memory (Unit {0})
unfolding give_back
txd_free ptr size = do count_down size; give_back libc ptr
