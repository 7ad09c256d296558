-- ===== src/Malloc/Traces.antt =====
-- Any sequence of the calls of src/txd_malloc.c that keep the counter: the five wrappers for SPDK and
-- DPDK, and the three that give back.
use tx_driver.Base.{ℕ, ◌^◌, ◌<◌, ◌≡◌, refl, [], Option, some, ok, Returns-value}
use tx_driver.Malloc.{
  Source, Grants, Memory, txd_malloc_spdk, txd_zmalloc_spdk, txd_malloc_dpdk, txd_zmalloc_dpdk,
  txd_calloc_dpdk,
}
use tx_driver.Malloc.Accounting.{Accounted, size_at, free_of, wrappers-Accounted, free-Accounted}

module _ (grants : Grants) where
  -- A call that returned, from one memory to another. What is given back is a live block of its
  -- allocator, with its own size.
  pub data Call (m m' : Memory) : Type 0 where
    malloc_spdk :
        (size : ℕ) (p : Option ℕ)
        → size < 2 ^ 64
        → txd_malloc_spdk grants size m ≡ ok p m'
        → Call m m'
    zmalloc_spdk :
        (size : ℕ) (p : Option ℕ)
        → size < 2 ^ 64
        → txd_zmalloc_spdk grants size m ≡ ok p m'
        → Call m m'
    malloc_dpdk :
        (size : ℕ) (p : Option ℕ)
        → size < 2 ^ 64
        → txd_malloc_dpdk grants size m ≡ ok p m'
        → Call m m'
    zmalloc_dpdk :
        (size : ℕ) (p : Option ℕ)
        → size < 2 ^ 64
        → txd_zmalloc_dpdk grants size m ≡ ok p m'
        → Call m m'
    calloc_dpdk :
        (num size : ℕ) (p : Option ℕ)
        → size < 2 ^ 64
        → txd_calloc_dpdk grants num size m ≡ ok p m'
        → Call m m'
    free :
        (src : Source) (p size : ℕ)
        → size_at src p m.live ≡ some size
        → free_of src (some p) size m ≡ ok tt m'
        → Call m m'

  pub data Calls (m : Memory) : Memory → Type 0 where
    started : Calls m m
    called : {m' m'' : Memory} → Calls m m' → Call m' m'' → Calls m m''

  Call-Accounted : {m m' : Memory} → Accounted m → Call m m' → Accounted m'
  Call-Accounted {m} acc (malloc_spdk size p fits e) =
      Returns-value (wrappers-Accounted grants 0 size m fits acc).0 e
  Call-Accounted {m} acc (zmalloc_spdk size p fits e) =
      Returns-value (wrappers-Accounted grants 0 size m fits acc).1 e
  Call-Accounted {m} acc (malloc_dpdk size p fits e) =
      Returns-value (wrappers-Accounted grants 0 size m fits acc).2 e
  Call-Accounted {m} acc (zmalloc_dpdk size p fits e) =
      Returns-value (wrappers-Accounted grants 0 size m fits acc).3 e
  Call-Accounted {m} acc (calloc_dpdk num size p fits e) =
      Returns-value (wrappers-Accounted grants num size m fits acc).4 e
  Call-Accounted {m} acc (free src p size found e) =
      (Returns-value (free-Accounted src p size m found acc) e).0

  -- From a counter that is exact, any sequence of these calls leaves it exact.
  pub Calls-Accounted : {m m' : Memory} → Accounted m → Calls m m' → Accounted m'
  Calls-Accounted acc started = acc
  Calls-Accounted acc (called before call) = Call-Accounted (Calls-Accounted acc before) call

  -- From no live blocks and a counter at 0, any sequence of these calls after which all blocks have
  -- been given back leaves the counter at 0.
  pub Calls-balanced :
      {m m' : Memory}
      → m.live ≡ []
      → m.allocated_mem_size ≡ 0
      → Calls m m'
      → m'.live ≡ []
      → m'.allocated_mem_size ≡ 0
  Calls-balanced {m} {m'} empty zeroed trace gone =
      let acc = Calls-Accounted (record { exact = rw (empty, zeroed) refl }) trace in
      rw gone at acc.exact
