-- ===== src/Malloc/Accounting.antt =====
-- The counter `allocated_mem_size` against the blocks that are live.
use tx_driver.Base.{
  ℕ, ◌+◌, ◌*◌, ◌^◌, ◌<◌, ◌≡◌, refl, List, [], ◌∷◌, some, none, Option, arith, ok, ◌==◌, true, false,
  Returns, returns, u64, sub64, Bool-cases, if◌then◌else◌, ◌&&◌, Cmd, inl, inr,
}
use tx_driver.Malloc.Owned.{spdk_block, take_back-head}
use tx_driver.Malloc.{
  Source, Grants, Block, Memory, take_back, give_back, same_source, obtain_counted, txd_malloc_spdk,
  txd_zmalloc_spdk, txd_malloc_dpdk, txd_zmalloc_dpdk, txd_calloc_dpdk, txd_malloc, txd_calloc,
  txd_free_spdk, txd_free_dpdk, txd_free, spdk, dpdk, libc,
}

abbrev pub total : List Block → ℕ
total [] = 0
total (b ∷ bs) = b.bytes + total bs

-- The counter is the number of bytes in live blocks.
pub record Accounted (m : Memory) : Type 0 where
  pub exact : m.allocated_mem_size ≡ u64 (total m.live)

-- The size of the block that `free` of `p` gives back.
abbrev pub size_at : Source → ℕ → List Block → Option ℕ
size_at src p [] = none
size_at src p (b ∷ bs) =
    let rest = size_at src p bs in
    if (b.addr == p) && same_source b.source src then some b.bytes else rest

total-take_back :
    (src : Source) (p : ℕ) (bs : List Block) {n : ℕ}
    → size_at src p bs ≡ some n
    → (rest : List Block) × (take_back src p bs ≡ some rest) × (total bs ≡ n + total rest)
unfolding take_back
total-take_back src p [] e = cc
total-take_back src p (b ∷ bs) e = elim (Bool-cases ((b.addr == p) && same_source b.source src)) [
  | inl here ↦ (bs, rw here, ground (arith, here))
  | inr below ↦
      let (rest, taken, sum) = total-take_back src p bs (rw below at e) in
      (b ∷ rest, ground (arith, taken, below), omega (arith, sum))
]

module _ (grants : Grants) where
  obtain_counted-Accounted :
      (src : Source) (bytes counted : ℕ) (m : Memory)
      → counted ≡ u64 bytes
      → Accounted m
      → Returns (λ p m'. Accounted m') (obtain_counted grants src bytes counted m)
  unfolding obtain_counted
  obtain_counted-Accounted src bytes counted m e acc =
      elim (Bool-cases (grants src m.serial bytes)) [
        | inl granted ↦ rw granted (returns (omega (arith, e, acc.exact)))
        | inr refused ↦ rw refused (returns (omega (arith, acc.exact)))
      ]

  -- The five SPDK and DPDK wrappers keep the counter exact, whether the request is granted or not.
  pub wrappers-Accounted :
      (num size : ℕ) (m : Memory)
      → size < 2 ^ 64
      → Accounted m
      → Returns (λ p m'. Accounted m') (txd_malloc_spdk grants size m)
        × Returns (λ p m'. Accounted m') (txd_zmalloc_spdk grants size m)
        × Returns (λ p m'. Accounted m') (txd_malloc_dpdk grants size m)
        × Returns (λ p m'. Accounted m') (txd_zmalloc_dpdk grants size m)
        × Returns (λ p m'. Accounted m') (txd_calloc_dpdk grants num size m)
  unfolding txd_malloc_spdk txd_zmalloc_spdk txd_malloc_dpdk txd_zmalloc_dpdk txd_calloc_dpdk
  wrappers-Accounted num size m h acc = (
    obtain_counted-Accounted spdk size size m (omega arith) acc,
    obtain_counted-Accounted spdk size size m (omega arith) acc,
    obtain_counted-Accounted dpdk size size m (omega arith) acc,
    obtain_counted-Accounted dpdk size size m (omega arith) acc,
    obtain_counted-Accounted dpdk (num * size) (u64 (size * num)) m (omega arith) acc,
  )

  -- `txd_malloc` counts a request that libc refuses: from an exact counter it returns NULL and
  -- leaves a counter that is wrong.
  pub txd_malloc-miscounts :
      (size : ℕ) (m : Memory)
      → 0 < size
      → size < 2 ^ 64
      → grants libc m.serial size ≡ false
      → Accounted m
      → Returns (λ p m'. (p ≡ none) × ¬ Accounted m') (txd_malloc grants size m)
  unfolding txd_malloc
  txd_malloc-miscounts size m pos fits refused acc =
      rw refused (returns (refl, λ acc'. omega (arith, acc.exact, acc'.exact)))

  -- `txd_calloc` counts one item: for two or more items of a size that is not zero, a granted
  -- request from an exact counter leaves a counter that is wrong.
  txd_calloc-miscounts :
      (num size : ℕ) (m : Memory)
      → 1 < num
      → 0 < size
      → num * size < 2 ^ 64
      → grants libc m.serial (num * size) ≡ true
      → Accounted m
      → Returns (λ p m'. (p ≡ some m.serial) × ¬ Accounted m') (txd_calloc grants num size m)
  unfolding txd_calloc
  txd_calloc-miscounts num size m many pos fits granted acc =
      rw granted (returns (refl, λ acc'. grind (arith, acc.exact, acc'.exact)))

-- The wrapper that gives back to an allocator.
abbrev pub free_of : Source → Option ℕ → ℕ → Cmd Memory (Unit {0})
free_of spdk = txd_free_spdk
free_of dpdk = txd_free_dpdk
free_of libc = txd_free

pub free_steps :
    (src : Source) (p size : ℕ) (m : Memory) (rest : List Block)
    → take_back src p m.live ≡ some rest
    → free_of src (some p) size m
      ≡ ok tt (record m { allocated_mem_size = sub64 m.allocated_mem_size size; live = rest })
unfolding txd_free_spdk txd_free_dpdk txd_free
free_steps spdk p size m rest e = rw (e, give_back)
free_steps dpdk p size m rest e = rw (e, give_back)
free_steps libc p size m rest e = rw (e, give_back)

-- The newest block is given back, by its address and size.
pub free_newest :
    (p n : ℕ) (m : Memory) (rest : List Block)
    → m.live ≡ spdk_block p n ∷ rest
    → txd_free_spdk (some p) n m
      ≡ ok tt (record m { allocated_mem_size = sub64 m.allocated_mem_size n; live = rest })
free_newest p n m rest e = free_steps spdk p n m rest (rw e (take_back-head (spdk_block p n) rest))

-- `txd_free_spdk`, `txd_free_dpdk` and `txd_free` of a live block of their allocator, with the
-- block's own size, return, take that block off the live ones and keep the counter exact.
pub free-Accounted :
    (src : Source) (p size : ℕ) (m : Memory)
    → size_at src p m.live ≡ some size
    → Accounted m
    → Returns
        (λ _ m'. Accounted m' × (take_back src p m.live ≡ some m'.live))
        (free_of src (some p) size m)
free-Accounted src p size m e acc =
    let (rest, taken, sum) = total-take_back src p m.live e in
    rw (free_steps src p size m rest taken)
      (returns (record { exact = omega (arith, sum, acc.exact) }, taken))
