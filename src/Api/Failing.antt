-- ===== src/Api/Failing.antt =====
-- `tx_format` of both variants where the device is missing.
use tx_driver.Api.{tx_format}
use tx_driver.Base.{
  ℕ, ◌≡◌, ◌≢◌, refl, ◌∙◌, ap, true, List, [], ◌∷◌, ◌⊎◌, ok, aborted, fault, Returns-cases,
}
use tx_driver.Early
use tx_driver.Malloc.{Grants, libc}
use tx_driver.Ondisk.{txd_fail}
use tx_driver.Spdk.Failing.{spdk_init-fails, spdk_alloc_qpair-follows_null}
use tx_driver.Spdk.Held.{Below}
use tx_driver.Spdk.Library.{Library}
use tx_driver.Spdk.Probe.{spdk_init}
use tx_driver.Spdk.Registry.{active_of}
use tx_driver.Spdk.State.{Driver}

module _ (lib : Library) (grants : Grants) (patience : ℕ)
    (granted : (serial bytes : ℕ) → grants libc serial bytes ≡ true) where
  open lib use {Dev}

  -- Both variants of `tx_format` assert that the device was found: from empty lists in a well-formed
  -- memory, when `malloc` grants every request, they abort if the probe fails or finds no controller.
  pub tx_format-aborts :
      (txd_addr txd_size : ℕ) (d : Driver Dev) (rc : ℕ) (cs : List ℕ) (dev : Dev)
      → lib.probe d.device ≡ (rc, cs, dev)
      → (rc ≢ 0) ⊎ (cs ≡ [])
      → d.g_namespaces ≡ []
      → d.g_controllers ≡ []
      → Below d.memory.serial d.memory.live
      → (tx_format lib grants txd_addr txd_size d ≡ aborted)
        × (Early.Api.tx_format lib grants patience txd_addr txd_size d ≡ aborted)
  unfolding tx_format Early.Api.tx_format
  tx_format-aborts txd_addr txd_size d rc cs dev probed why nss css below =
      let (err, d', run, (failed, _)) =
        Returns-cases (spdk_init-fails lib grants granted d rc cs dev probed why nss css below) in
      let init : spdk_init lib grants d ≡ ok txd_fail d' = run ∙ ap (λ r. ok r d') failed in
      (rw init refl, rw init refl)

  -- In both, if controllers are found but none of their namespaces is active, the queue pair is made
  -- for a namespace that is NULL.
  pub tx_format-follows_null :
      (txd_addr txd_size : ℕ) (d : Driver Dev) (c : ℕ) (cs : List ℕ) (dev : Dev)
      → lib.probe d.device ≡ (0, c ∷ cs, dev)
      → active_of lib (c ∷ cs) ≡ []
      → d.g_namespaces ≡ []
      → (tx_format lib grants txd_addr txd_size d ≡ fault)
        × (Early.Api.tx_format lib grants patience txd_addr txd_size d ≡ fault)
  unfolding tx_format Early.Api.tx_format
  tx_format-follows_null txd_addr txd_size d c cs dev probed idle nss =
      let (d', init, null) =
        spdk_alloc_qpair-follows_null lib grants granted d c cs dev probed idle nss in
      (rw init (rw null refl), rw init (rw null refl))
