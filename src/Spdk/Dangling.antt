-- ===== src/Spdk/Dangling.antt =====
-- `cleanup` leaves the globals as they were: what the calls after it come to.
use tx_driver.Base.{◌++◌, ℕ, ◌≡◌, ◌∙◌, false, List, ◌∷◌, fault, Returns, Returns-weaken}
use tx_driver.Malloc.{Grants}
use tx_driver.Spdk.Library.{Library}
use tx_driver.Spdk.Probe.{spdk_free, free_namespaces, cleanup, spdk_alloc_qpair}
use tx_driver.Spdk.State.{Driver, NsEntry, follow, is_live, first_namespace_freed}
use tx_driver.Spdk.Held.{Below, Holding}
use tx_driver.Spdk.Cleanup.{
  namespace_addrs, controller_addrs, Released, cleanup-Cleaned, cleanup_unfold,
}

module _ (lib : Library) (grants : Grants) where
  open lib use {Dev}

  -- The first namespace has been given back, and the list still begins with it.
  module _ (d : Driver Dev) (n : NsEntry) (others : List NsEntry)
      (chosen : d.g_namespaces ≡ n ∷ others) (dead : is_live n.addr d.memory.live ≡ false) where
    dangling_alloc : spdk_alloc_qpair lib grants d ≡ fault
    unfolding spdk_alloc_qpair
    dangling_alloc = rw (first_namespace_freed d n others chosen dead)

    dangling_free : spdk_free lib grants d ≡ fault
    unfolding spdk_free
    dangling_free = rw (first_namespace_freed d n others chosen dead)

    dangling_first : free_namespaces lib grants (n ∷ others) d ≡ fault
    unfolding free_namespaces follow
    dangling_first = rw dead

    dangling_cleanup : cleanup lib grants d ≡ fault
    dangling_cleanup = cleanup_unfold lib grants d chosen ∙ rw dangling_first

  -- `cleanup` of lists whose entries are live, each in a block of its own, returns, and leaves the
  -- counter and both globals as they were: an `spdk_alloc_qpair`, `spdk_free` or `cleanup` in that state follows a
  -- pointer to a namespace that was given back. There is a namespace among the entries.
  pub cleanup-dangles :
      (d : Driver Dev) (n : NsEntry) (others : List NsEntry) (bound : ℕ)
      → d.g_namespaces ≡ n ∷ others
      → Below bound d.memory.live
      → Holding (namespace_addrs (n ∷ others) ++ controller_addrs d.g_controllers) d.memory.live
      → Returns
          (λ _ d'.
            (d'.memory.allocated_mem_size ≡ d.memory.allocated_mem_size)
            × (d'.g_namespaces ≡ d.g_namespaces)
            × (d'.g_controllers ≡ d.g_controllers)
            × Released lib grants d.device d'
            × (spdk_alloc_qpair lib grants d' ≡ fault)
            × (spdk_free lib grants d' ≡ fault)
            × (cleanup lib grants d' ≡ fault))
          (cleanup lib grants d)
  cleanup-dangles d n others bound chosen below held =
      Returns-weaken (cleanup-Cleaned lib grants d n others bound chosen below held) (λ _ d' c.
        let still : d'.g_namespaces ≡ n ∷ others = c.namespaces ∙ chosen in
        (
          c.counter,
          c.namespaces,
          c.controllers,
          c.released,
          dangling_alloc d' n others still c.gone,
          dangling_free d' n others still c.gone,
          dangling_cleanup d' n others still c.gone,
        ))
