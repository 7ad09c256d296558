-- ===== src/Spdk/Session.antt =====
-- A session: the calls of src/txd_spdk.c that return, in any order, before `cleanup`.
use tx_driver.Base.{ℕ, ◌≡◌, List, [], ◌∷◌, ◌++◌, ok, fault, Returns, IfReturns-ok, subst}
use tx_driver.Malloc.{Grants}
use tx_driver.Ondisk.{txd_success}
use tx_driver.Spdk.Busy.{Quiet, spdk_write-Quiet, spdk_read-Quiet}
use tx_driver.Spdk.Cleanup.{namespace_addrs, controller_addrs, Released}
use tx_driver.Spdk.Dangling.{cleanup-dangles}
use tx_driver.Spdk.Held.{Below, Holding, none_held}
use tx_driver.Spdk.Library.{Library}
use tx_driver.Spdk.Probe.{spdk_init, spdk_alloc_qpair, spdk_free, cleanup}
use tx_driver.Spdk.Sound.{IsSound, IsSound-Stable}
use tx_driver.Spdk.Stable.{Stable, spdk_init-Stable, spdk_alloc_qpair-Stable, spdk_free-Stable}
use tx_driver.Spdk.State.{Driver, NsEntry}
use tx_driver.Spdk.Transfer.{Params, spdk_write, spdk_read}

module _ (lib : Library) (grants : Grants) (patience : ℕ) where
  open lib use {Dev}

  -- A call that returned; `spdk_init` with success.
  pub data Call (d d' : Driver Dev) : Type 0 where
    init : spdk_init lib grants d ≡ ok txd_success d' → Call d d'
    alloc : (rc : ℕ) → spdk_alloc_qpair lib grants d ≡ ok rc d' → Call d d'
    write :
        (params : Params) (rc : ℕ) → spdk_write lib grants patience params d ≡ ok rc d' → Call d d'
    read :
        (params out : Params) (rc : ℕ)
        → spdk_read lib grants patience params d ≡ ok (rc, out) d'
        → Call d d'
    free : (rc : ℕ) → spdk_free lib grants d ≡ ok rc d' → Call d d'

  pub data Session (d : Driver Dev) : Driver Dev → Type 0 where
    opened : Session d d
    called : {d' d'' : Driver Dev} → Session d d' → Call d' d'' → Session d d''

  module _ (P : Driver Dev → Type 0) (stable : Stable lib grants P) where
    pub call-Stable : {d d' : Driver Dev} → P d → Call d d' → P d'
    call-Stable {d} {d'} s (init e) = spdk_init-Stable lib grants P stable d d' s e
    call-Stable {d} {d'} s (alloc rc e) =
        IfReturns-ok P (spdk_alloc_qpair-Stable lib grants P stable d s) e
    call-Stable {d} {d'} s (write params rc e) =
        stable.transfer (IfReturns-ok (Quiet d) (spdk_write-Quiet lib grants patience params d) e) s
    call-Stable {d} {d'} s (read params out rc e) =
        stable.transfer (IfReturns-ok (Quiet d) (spdk_read-Quiet lib grants patience params d) e) s
    call-Stable {d} {d'} s (free rc e) = IfReturns-ok P (spdk_free-Stable lib grants P stable d s) e

    pub session-Stable : {d d' : Driver Dev} → P d → Session d d' → P d'
    session-Stable s opened = s
    session-Stable s (called before call) = call-Stable (session-Stable s before) call

  -- In a driver whose entries are live in blocks of their own, whatever the device and the
  -- allocators do, they are so after any calls that return, with `spdk_init` returning success.
  pub session-IsSound :
      {d d' : Driver Dev} → IsSound lib grants d → Session d d' → IsSound lib grants d'
  session-IsSound = session-Stable (IsSound lib grants) (IsSound-Stable lib grants)

  -- A driver with empty lists is sound.
  pub empty-IsSound :
      (d : Driver Dev)
      → d.g_namespaces ≡ []
      → d.g_controllers ≡ []
      → Below d.memory.serial d.memory.live
      → IsSound lib grants d
  empty-IsSound d nss css below = record { below = below; held = rw (nss, css) none_held }

  -- From a driver with empty lists in a well-formed memory, after any calls that return of `spdk_init`
  -- with success, `spdk_alloc_qpair`, `spdk_write`, `spdk_read` and `spdk_free`, but no `cleanup`, with a
  -- namespace on the list, `cleanup` returns with the counter and both globals as they were, has detached
  -- every listed controller, and leaves no listed entry live; a `spdk_alloc_qpair`, `spdk_free` or
  -- `cleanup` after that is a fault.
  pub session-cleanup :
      {d d' : Driver Dev} (n : NsEntry) (others : List NsEntry)
      → d.g_namespaces ≡ []
      → d.g_controllers ≡ []
      → Below d.memory.serial d.memory.live
      → Session d d'
      → d'.g_namespaces ≡ n ∷ others
      → Returns
          (λ _ d''.
            (d''.memory.allocated_mem_size ≡ d'.memory.allocated_mem_size)
            × (d''.g_namespaces ≡ d'.g_namespaces)
            × (d''.g_controllers ≡ d'.g_controllers)
            × Released lib grants d'.device d''
            × (spdk_alloc_qpair lib grants d'' ≡ fault)
            × (spdk_free lib grants d'' ≡ fault)
            × (cleanup lib grants d'' ≡ fault))
          (cleanup lib grants d')
  session-cleanup {d} {d'} n others nss css below session chosen =
      let s = session-IsSound (empty-IsSound d nss css below) session in
      cleanup-dangles lib grants d' n others d'.memory.serial chosen s.below (
        subst
          (λ ns. Holding (namespace_addrs ns ++ controller_addrs d'.g_controllers) d'.memory.live)
          chosen s.held)
