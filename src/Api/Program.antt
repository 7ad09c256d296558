-- ===== src/Api/Program.antt =====
-- `main` of src/txd_debugging.c, on a device that holds no superblock.
use tx_driver.Api.{tx_format, main}
use tx_driver.Api.Begin.{IsGenerous}
use tx_driver.Api.Reject.{tx_begin-Closed}
use tx_driver.Api.Untouched.{IsKept, tx_format-stored}
use tx_driver.Base.{
  ℕ, suc, ◌^◌, ◌<◌, ◌≡◌, ◌≢◌, refl, ◌∙◌, ap, true, List, [], ◌∷◌, ◌++◌, length, ok, fault, Returns,
  Returns-bind, returns, arith, sub64-add,
}
use tx_driver.Journal.Defs.{Journal}
use tx_driver.Malloc.{Grants, spdk, libc}
use tx_driver.Malloc.Accounting.{free_steps}
use tx_driver.Malloc.Owned.{allocated, zmalloc_granted, take_back-head}
use tx_driver.Ondisk.{chk_txd_sb, sizeof_superblock, txd_success, txd_fail}
use tx_driver.Ondisk.Layout.{from_bytes}
use tx_driver.Revoke.{ListHeads}
use tx_driver.Spdk.Cleanup.{Released}
use tx_driver.Spdk.Held.{Below, Below-weaken}
use tx_driver.Spdk.Library.{Library}
use tx_driver.Spdk.Polling.{Disk}
use tx_driver.Spdk.Probe.{spdk_init, spdk_alloc_qpair}
use tx_driver.Spdk.Registry.{controllers_of, namespaces_of, push_all, active_of}
use tx_driver.Spdk.Startup.{Finds, startup-Started}
use tx_driver.Spdk.State.{Driver, on_memory_ok}

module _ (lib : Library) (grants : Grants) where
  open lib use {Dev}

  -- The driver with one more serial number used up.
  abbrev pub after_format : Driver Dev → Driver Dev
  after_format d = record d { memory = record (d.memory) { serial = suc d.memory.serial } }

  -- Once the device is found and its queue pair made, `tx_format` takes its buffer and gives it back.
  pub tx_format_run :
      (txd_addr txd_size : ℕ) (d d₁ d₂ : Driver Dev)
      → spdk_init lib grants d ≡ ok txd_success d₁
      → spdk_alloc_qpair lib grants d₁ ≡ ok txd_success d₂
      → grants spdk d₂.memory.serial sizeof_superblock ≡ true
      → d₂.memory.allocated_mem_size < 2 ^ 64
      → tx_format lib grants txd_addr txd_size d ≡ ok txd_success (after_format d₂)
  unfolding tx_format
  tx_format_run txd_addr txd_size d d₁ d₂ found queued granted small =
      let m = d₂.memory in
      rw found (
        rw queued (
          rw (on_memory_ok _ d₂ (zmalloc_granted grants sizeof_superblock m granted)) (
            rw
              (on_memory_ok _ (record d₂ { memory = allocated grants sizeof_superblock m })
                (free_steps spdk m.serial sizeof_superblock (allocated grants sizeof_superblock m)
                  m.live (take_back-head _ m.live)))
              (ap
                (λ k. ok txd_success (record d₂ {
                  memory = record m { allocated_mem_size = k; serial = suc m.serial };
                }))
                (sub64-add _ _ small)))))

  module _ (patience : ℕ) (lists : ListHeads) (garbage : Journal lists.Head) (spawn : ℕ) where
    -- From empty lists in a well-formed memory, with a counter that is a 64-bit word and every
    -- request granted: where SPDK finds controllers with an active namespace, makes every queue pair
    -- and releases them with another code than 1, none of which changes what is stored, and on a
    -- device that serves every command within the polls, and on which block 0 of no namespace begins
    -- with a superblock of 1024 blocks, `main` returns 0 with the counter as before; a queue
    -- pair was released, and then every controller that SPDK found was detached; no entry
    -- of theirs or of their namespaces is live, the lists still have exactly these and the active
    -- namespaces, and a `spdk_alloc_qpair` is a fault.
    pub main-releases :
        (generous : IsGenerous lib grants patience lists garbage) (disk : Disk lib patience)
        (kept : IsKept lib (λ dev. disk.stored dev)) (d : Driver Dev) (c : ℕ) (cs : List ℕ)
        (bytes tail : (ns : ℕ) → List ℕ)
        → ((dev : Dev) (q : ℕ) → (lib.free_io_qpair dev q).0 ≢ txd_fail)
        → Finds lib grants d c cs
        → d.g_namespaces ≡ []
        → d.g_controllers ≡ []
        → Below d.memory.serial d.memory.live
        → d.memory.allocated_mem_size < 2 ^ 64
        → ((ns : ℕ) → disk.stored d.device ns 0 ≡ bytes ns ++ tail ns)
        → ((ns : ℕ) → length (bytes ns) ≡ sizeof_superblock)
        → ((ns : ℕ) → chk_txd_sb (from_bytes (bytes ns)) 1024 ≡ txd_fail)
        → Returns
            (λ r d'.
              (r ≡ 0)
              × (d'.memory.allocated_mem_size ≡ d.memory.allocated_mem_size)
              × (namespaces_of d'.g_namespaces ≡ push_all (active_of lib (c ∷ cs)) [])
              × (controllers_of d'.g_controllers ≡ push_all (c ∷ cs) [])
              × ((dev : Dev) × (q : ℕ) × Released lib grants (lib.free_io_qpair dev q).1 d')
              × (spdk_alloc_qpair lib grants d' ≡ fault))
            (main lib grants patience lists garbage spawn d)
    unfolding main
    main-releases generous disk kept d c cs bytes tail freed f nss css below small stored len bad =
        let s = startup-Started lib grants d c cs (generous.granted libc) f nss css below in
        let d₃ = after_format s.d₂ in
        let small₂ : s.d₂.memory.allocated_mem_size < 2 ^ 64 = omega (arith, small, s.counter) in
        let run =
          tx_format_run 0 1024 d s.d₁ s.d₂ s.init s.alloc (generous.granted spdk _ _) small₂ in
        let same : disk.stored d₃.device s.n.ns 0 ≡ disk.stored d.device s.n.ns 0 =
          ap (λ view. view s.n.ns 0)
            (tx_format-stored lib grants (λ dev. disk.stored dev) kept 0 1024 d d₃ txd_success
              run) in
        rw run (
          Returns-bind
            (tx_begin-Closed lib grants patience lists garbage spawn generous disk d₃ s.n s.q
              (suc s.d₂.memory.serial) 0 1024 (bytes s.n.ns) (tail s.n.ns)
              (record { others = s.others; chosen = s.chosen; live = s.live; qpair = s.qpair })
              (same ∙ stored s.n.ns) (len s.n.ns) (bad s.n.ns) small₂ (λ dev. freed dev s.q)
              (Below-weaken (omega arith) s.sound.below) s.sound.held)
            (λ o d' (_, (counter, unchanged, unchanged', (dev, released), dangling)). returns (
              refl,
              counter ∙ s.counter,
              ap namespaces_of unchanged ∙ s.namespaces,
              ap controllers_of unchanged' ∙ s.controllers,
              (dev, s.q, released),
              dangling,
            )))
