-- ===== src/Spdk/Sound.antt =====
-- The globals of src/txd_spdk.c are sound: their entries are live, each in a block of its own.
use tx_driver.Base.{ℕ, ◌≡◌, refl, sym, subst, List, [], ◌∷◌, ◌++◌, ok, IfReturns, arith}
use tx_driver.Malloc.{Grants}
use tx_driver.Spdk.Cleanup.{namespace_addrs, controller_addrs}
use tx_driver.Spdk.Held.{Sound, Sound-insert}
use tx_driver.Ondisk.{txd_success}
use tx_driver.Spdk.Library.{Library}
use tx_driver.Spdk.Probe.{attach_all, spdk_init, set_qpair}
use tx_driver.Spdk.State.{Driver, NsEntry, Qpair, sizeof_ns_entry, sizeof_ctrlr_entry}
use tx_driver.Spdk.Held.{Below-weaken}
use tx_driver.Spdk.Busy.{Quiet}
use tx_driver.Spdk.Stable.{Stable, attach_all-Stable, spdk_init-Stable}

module _ (lib : Library) (grants : Grants) where
  open lib use {Dev}

  -- The entries of both lists.
  abbrev pub IsSound : Driver Dev → Type 0
  IsSound d = Sound (namespace_addrs d.g_namespaces ++ controller_addrs d.g_controllers) d.memory

  pub set_qpair_addrs :
      (q : Qpair) (ns : List NsEntry)
      → namespace_addrs (set_qpair lib grants q ns) ≡ namespace_addrs ns
  set_qpair_addrs q [] = refl
  set_qpair_addrs q (n ∷ ns) = refl

  pub set_qpair-IsSound :
      (q : Qpair) (dev : Dev) (d : Driver Dev)
      → IsSound d
      → IsSound (record d { device = dev; g_namespaces = set_qpair lib grants q d.g_namespaces })
  set_qpair-IsSound q dev d s =
      subst (λ ps. Sound (ps ++ controller_addrs d.g_controllers) d.memory)
        (sym (set_qpair_addrs q d.g_namespaces)) s

  transfer-IsSound : {d d' : Driver Dev} → Quiet d d' → IsSound d → IsSound d'
  transfer-IsSound {d} {d'} q s = record {
    below = rw q.live (Below-weaken (omega (arith, q.serial)) s.below);
    held = rw (q.live, q.namespaces, q.controllers) s.held;
  }

  pub IsSound-Stable : Stable lib grants IsSound
  IsSound-Stable = record {
    device = λ d dev s. s;
    namespace = λ d ctrlr ns s. Sound-insert [] _ sizeof_ns_entry d.memory s;
    controller = λ d ctrlr s.
        Sound-insert (namespace_addrs d.g_namespaces) (controller_addrs d.g_controllers)
          sizeof_ctrlr_entry d.memory s;
    qpair = λ d q dev s. set_qpair-IsSound q dev d s;
    transfer = transfer-IsSound;
  }

  pub attach_all-IsSound :
      (cs : List ℕ) (d : Driver Dev) → IsSound d → IfReturns IsSound (attach_all lib grants cs d)
  attach_all-IsSound = attach_all-Stable lib grants IsSound IsSound-Stable

  -- `spdk_init` that returns success.
  pub spdk_init-IsSound :
      (d d' : Driver Dev) → IsSound d → spdk_init lib grants d ≡ ok txd_success d' → IsSound d'
  spdk_init-IsSound = spdk_init-Stable lib grants IsSound IsSound-Stable
