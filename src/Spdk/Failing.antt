-- ===== src/Spdk/Failing.antt =====
-- `spdk_init` and `spdk_alloc_qpair` where SPDK finds nothing to work with.
use tx_driver.Base.{
  ℕ, ◌≡◌, ◌≢◌, refl, ◌∙◌, ap, true, List, [], ◌∷◌, ◌⊎◌, inl, inr, ok, fault, arith, ◌==◌, Returns,
  returns, Returns-bind, Returns-cases, Returns-weaken, and_then, IfReturns-ok, Bool-cases,
}
use tx_driver.Malloc.{Grants, libc}
use tx_driver.Ondisk.{txd_success, txd_fail}
use tx_driver.Spdk.Cleanup.{cleanup-Returns}
use tx_driver.Spdk.Held.{Below}
use tx_driver.Spdk.Library.{Library}
use tx_driver.Spdk.Probe.{spdk_init, spdk_alloc_qpair, check_probe, no_controllers, cleanup}
use tx_driver.Spdk.Registry.{
  namespaces_of, controllers_of, push_all, active_of, attach_all-Registered, spdk_init-Registered,
}
use tx_driver.Spdk.Session.{empty-IsSound}
use tx_driver.Spdk.Sound.{IsSound, attach_all-IsSound}
use tx_driver.Spdk.State.{Driver, NsEntry, CtrlrEntry, first_namespace}

module _ (lib : Library) (grants : Grants)
    (granted : (serial bytes : ℕ) → grants libc serial bytes ≡ true) where
  open lib use {Dev}

  nothing_listed : (cs : List CtrlrEntry) → controllers_of cs ≡ [] → cs ≡ []
  nothing_listed [] e = refl
  nothing_listed (c ∷ cs) e = cc

  none_listed : (ns : List NsEntry) → namespaces_of ns ≡ [] → ns ≡ []
  none_listed [] e = refl
  none_listed (n ∷ ns) e = cc

  -- The probe failed, or listed no controller.
  check_probe-fails :
      (rc : ℕ) (d : Driver Dev)
      → IsSound lib grants d
      → (rc ≢ 0) ⊎ (d.g_controllers ≡ [])
      → Returns
          (λ err d'.
            (err ≡ txd_fail) × (d'.memory.allocated_mem_size ≡ d.memory.allocated_mem_size))
          (check_probe lib grants rc d)
  unfolding check_probe
  check_probe-fails rc d s why =
      let closed : Returns
          (λ err d'.
            (err ≡ txd_fail) × (d'.memory.allocated_mem_size ≡ d.memory.allocated_mem_size))
          (and_then (cleanup lib grants d) (λ _. ok txd_fail)) =
        Returns-bind (cleanup-Returns lib grants d d.memory.serial s.below s.held)
          (λ _ d' (counter, _, _, _, _). returns (refl, counter)) in
      elim (Bool-cases (rc == 0)) [
        | inr failed ↦ rw failed closed
        | inl probed ↦ elim why [
          | inl bad ↦ absurd (ground (arith, bad, probed))
          | inr empty ↦
              let nothing : no_controllers lib grants d ≡ true = rw empty refl in
              rw (probed, nothing) closed
        ]
      ]

  -- From empty lists in a well-formed memory, when `malloc` grants every request: if the probe fails
  -- or finds no controller, `spdk_init` gives back what it took and returns `TXD_FAIL`, with the
  -- counter as before.
  pub spdk_init-fails :
      (d : Driver Dev) (rc : ℕ) (cs : List ℕ) (dev : Dev)
      → lib.probe d.device ≡ (rc, cs, dev)
      → (rc ≢ 0) ⊎ (cs ≡ [])
      → d.g_namespaces ≡ []
      → d.g_controllers ≡ []
      → Below d.memory.serial d.memory.live
      → Returns
          (λ err d'.
            (err ≡ txd_fail) × (d'.memory.allocated_mem_size ≡ d.memory.allocated_mem_size))
          (spdk_init lib grants d)
  unfolding spdk_init
  spdk_init-fails d rc cs dev probed why nss css below =
      let d₀ : Driver Dev = record d { device = dev } in
      let (_, d', run, reg) = Returns-cases (attach_all-Registered lib grants granted cs d₀) in
      let sound =
        IfReturns-ok (IsSound lib grants)
          (attach_all-IsSound lib grants cs d₀ (empty-IsSound lib grants 0 d₀ nss css below)) run in
      let why' : (rc ≢ 0) ⊎ (d'.g_controllers ≡ []) = elim why [
        | inl bad ↦ inl bad
        | inr none_found ↦ inr (
            nothing_listed d'.g_controllers (
              reg.controllers
              ∙ ap (λ xs. push_all xs (controllers_of d.g_controllers)) none_found
              ∙ ap controllers_of css))
      ] in
      rw probed (
        rw run (
          Returns-weaken (check_probe-fails rc d' sound why')
            (λ err d'' (failed, counter). (failed, counter ∙ reg.counter))))

  -- From an empty list of namespaces, if SPDK finds controllers but none of their namespaces is
  -- active, `spdk_init` returns success and `spdk_alloc_qpair` then follows NULL.
  pub spdk_alloc_qpair-follows_null :
      (d : Driver Dev) (c : ℕ) (cs : List ℕ) (dev : Dev)
      → lib.probe d.device ≡ (0, c ∷ cs, dev)
      → active_of lib (c ∷ cs) ≡ []
      → d.g_namespaces ≡ []
      → (d' : Driver Dev) × (spdk_init lib grants d ≡ ok txd_success d')
        × (spdk_alloc_qpair lib grants d' ≡ fault)
  unfolding spdk_alloc_qpair first_namespace
  spdk_alloc_qpair-follows_null d c cs dev probed idle nss =
      let (err, d', run, (done, reg)) =
        Returns-cases (spdk_init-Registered lib grants granted d c cs dev probed) in
      let nothing = none_listed d'.g_namespaces (
        reg.namespaces
        ∙ ap (λ hs. push_all hs (namespaces_of d.g_namespaces)) idle
        ∙ ap namespaces_of nss) in
      (d', run ∙ ap (λ r. ok r d') done, rw nothing refl)
