-- ===== src/Early/Program.antt =====
-- `main` of src/txdriver_debugging.c: it formats 512 blocks from block 0 on, and then begins there.
use tx_driver.Base.{
  fault, ap, Returns-weaken, ◌∷◌, ℕ, ◌≡◌, ◌≢◌, refl, ◌∙◌, arith, Returns, Returns-bind, returns, [],
  ok, true, List,
}
use tx_driver.Api.Reject.{Closed}
use tx_driver.Early.Access.{spdk_init, spdk_alloc_qpair}
use tx_driver.Early.Api.{main, format_bytes}
use tx_driver.Early.Closing.{
  IsClosable, IsClosable-Usable, early_tx_begin-Closed, Closable-weaken, with_block-Closable,
}
use tx_driver.Early.Format.{format_from_lem, format_reaches, with_format_buffer}
use tx_driver.Early.Ready.{IsBlank}
use tx_driver.Journal.Defs.{Journal}
use tx_driver.Ondisk.Layout.{to_bytes, from_bytes-to_bytes}
use tx_driver.Api.{new_superblock}
use tx_driver.Api.Format.{new_superblock-Fits}
use tx_driver.Malloc.{Grants, Source, libc}
use tx_driver.Ondisk.{txd_success, txd_fail}
use tx_driver.Revoke.{ListHeads}
use tx_driver.Spdk.Library.{Library}
use tx_driver.Spdk.Polling.{Disk, served}
use tx_driver.Spdk.Cleanup.{Released}
use tx_driver.Spdk.Held.{Below}
use tx_driver.Spdk.Registry.{controllers_of, namespaces_of, push_all, active_of}
use tx_driver.Spdk.Startup.{Finds, startup-Started}
use tx_driver.Spdk.State.{Driver, NsEntry}

module _ (lib : Library) (grants : Grants) (patience : ℕ) (lists : ListHeads)
    (garbage : Journal lists.Head) (blank : IsBlank lists garbage grants) where
  open lib use {Dev}

  -- Where the device is found and its queue pair made, serves every command within the polls, and every
  -- request is granted, in memory that is NULL where the failing paths read it: `main` returns 0, the
  -- journal that it asked for was refused, and the controllers are released with their namespaces
  -- still listed.
  pub early_main-Closed :
      (disk : Disk lib patience) (n : NsEntry) (q : ℕ) (d d₁ d₂ : Driver Dev)
      → ((src : Source) (serial bytes : ℕ) → grants src serial bytes ≡ true)
      → ((dev : Dev) → (lib.free_io_qpair dev q).0 ≢ txd_fail)
      → spdk_init lib grants d ≡ ok txd_success d₁
      → spdk_alloc_qpair lib grants d₁ ≡ ok txd_success d₂
      → IsClosable lib grants patience lists garbage n q d₂.memory.serial d₂
      → Returns
          (λ r d'. (r ≡ 0) × Closed lib grants patience lists garbage 0 q d₂ d')
          (main lib grants patience lists garbage d)
  unfolding main
  early_main-Closed disk n q d d₁ d₂ granted freed found queued c =
      let (e, tail, run, kept) =
        format_from_lem lib grants patience disk d₂ n q 0 512
          (IsClosable-Usable lib grants patience lists garbage d₂ c) (omega arith) (omega arith)
          (omega arith) (granted _ _ _) (granted _ _ _) in
      let (len, _) =
        from_bytes-to_bytes (new_superblock 512) [] (new_superblock-Fits 512 (omega arith)) in
      let lost =
        with_block-Closable lib grants patience lists garbage n q d₂.g_namespaces d₂.g_controllers
          (format_bytes 512) d₂.memory c in
      rw (format_reaches lib grants patience 0 512 d d₁ d₂ found queued ∙ run) (
        Returns-bind
          (early_tx_begin-Closed lib grants patience lists garbage blank n q freed disk
            (served lib grants patience e (with_format_buffer lib grants patience 512 d₂)) 0 512
            (to_bytes (new_superblock 512)) tail (Closable-weaken (omega arith) lost) kept len
            (granted _ _ _) (granted _ _ _))
          (λ o d' (_, closed). returns (refl, closed)))

  -- From empty lists in a well-formed memory, where SPDK finds controllers with an active namespace,
  -- makes every queue pair, serves every command within the polls, and releases queue pairs with
  -- another code than 1, and every request is granted, in memory that is NULL where the failing
  -- paths read it: `main` returns 0 with the counter as before; a queue pair was
  -- released, and then every controller that SPDK found was detached; no entry of theirs or
  -- of their namespaces is live, the lists still have exactly these and the active namespaces, and a
  -- `spdk_alloc_qpair` is a fault.
  pub early_main-releases :
      (disk : Disk lib patience) (d : Driver Dev) (c : ℕ) (cs : List ℕ)
      → ((src : Source) (serial bytes : ℕ) → grants src serial bytes ≡ true)
      → ((dev : Dev) (q : ℕ) → (lib.free_io_qpair dev q).0 ≢ txd_fail)
      → Finds lib grants d c cs
      → d.g_namespaces ≡ []
      → d.g_controllers ≡ []
      → Below d.memory.serial d.memory.live
      → Returns
          (λ r d'.
            (r ≡ 0)
            × (d'.memory.allocated_mem_size ≡ d.memory.allocated_mem_size)
            × (namespaces_of d'.g_namespaces ≡ push_all (active_of lib (c ∷ cs)) [])
            × (controllers_of d'.g_controllers ≡ push_all (c ∷ cs) [])
            × ((dev : Dev) × (q : ℕ) × Released lib grants (lib.free_io_qpair dev q).1 d')
            × (spdk_alloc_qpair lib grants d' ≡ fault))
          (main lib grants patience lists garbage d)
  early_main-releases disk d c cs granted freed f nss css below =
      let s = startup-Started lib grants d c cs (granted libc) f nss css below in
      let closable : IsClosable lib grants patience lists garbage s.n s.q s.d₂.memory.serial s.d₂ =
        record {
          others = s.others;
          chosen = s.chosen;
          first_live = s.live;
          qpair = s.qpair;
          below = s.sound.below;
          held = s.sound.held;
        } in
      Returns-weaken
        (early_main-Closed disk s.n s.q d s.d₁ s.d₂ granted (λ dev. freed dev s.q) s.init s.alloc
          closable)
        (λ r d' (done, (counter, same, same', (dev, released), dangling)). (
          done,
          counter ∙ s.counter,
          ap namespaces_of same ∙ s.namespaces,
          ap controllers_of same' ∙ s.controllers,
          (dev, s.q, released),
          dangling,
        ))
