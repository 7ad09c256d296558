-- ===== src/Spdk/Stable.antt =====
-- What the calls of src/txd_spdk.c keep, whatever the device and the allocators do: any predicate on
-- the driver that survives a new entry, a new queue pair, a change of the device and a transfer.
use tx_driver.Base.{
  ℕ, zero, suc, ◌+◌, ◌≡◌, sym, subst, Option, none, some, List, [], ◌∷◌, ◌⊎◌, inl, inr, ok, exited,
  IfReturns, IfReturns-bind, and_then, ◌==◌, Option-cases, IfReturns-ok, and_then_ok, Bool-cases,
  Cmd,
}
use tx_driver.Malloc.{Grants, libc, obtain}
use tx_driver.Spdk.Held.{with_entry}
use tx_driver.Ondisk.{txd_success, txd_fail}
use tx_driver.Spdk.Library.{Library}
use tx_driver.Spdk.Probe.{
  malloc_or_exit, register_ns, register_all, attach_cb, attach_all, check_probe, spdk_init,
  spdk_alloc_qpair, spdk_free, cleanup, no_controllers, set_qpair,
}
use tx_driver.Spdk.State.{Driver, Qpair, on_memory, sizeof_ns_entry, sizeof_ctrlr_entry}
use tx_driver.Spdk.Busy.{Quiet, first_namespace_same, with_qpair_keeps}

module _ (lib : Library) (grants : Grants) where
  open lib use {Dev}

  pub record Stable (P : Driver Dev → Type 0) : Type 0 where
    pub device : (d : Driver Dev) (dev : Dev) → P d → P (record d { device = dev })
    pub namespace :
        (d : Driver Dev) (ctrlr ns : ℕ)
        → P d
        → P (record d {
          memory = with_entry sizeof_ns_entry d.memory;
          g_namespaces =
              record { addr = d.memory.serial; ctrlr = ctrlr; ns = ns; qpair = Qpair.unset }
              ∷ d.g_namespaces;
        })
    pub controller :
        (d : Driver Dev) (ctrlr : ℕ)
        → P d
        → P (record d {
          memory = with_entry sizeof_ctrlr_entry d.memory;
          g_controllers = record { addr = d.memory.serial; ctrlr = ctrlr } ∷ d.g_controllers;
        })
    pub qpair :
        (d : Driver Dev) (q : Qpair) (dev : Dev)
        → P d
        → P (record d { device = dev; g_namespaces = set_qpair lib grants q d.g_namespaces })
    pub transfer : {d d' : Driver Dev} → Quiet d d' → P d → P d'

  malloc_cases :
      (size : ℕ) (d : Driver Dev)
      → (malloc_or_exit lib grants size d
          ≡ ok d.memory.serial (record d { memory = with_entry size d.memory }))
        ⊎ (malloc_or_exit lib grants size d ≡ exited 1)
  unfolding on_memory obtain
  malloc_cases size d = elim (Bool-cases (grants libc d.memory.serial size)) [
    | inl granted ↦ inl (rw granted)
    | inr refused ↦ inr (rw refused)
  ]

  ok_state : {A : Type 0} {a b : A} {d d' : Driver Dev} → ok a d ≡ ok b d' → d ≡ d'
  ok_state e = cc

  closed_fails :
      (k : Cmd (Driver Dev) (Unit {0})) (d d' : Driver Dev)
      → and_then (k d) (λ _. ok txd_fail) ≡ ok txd_success d'
      → ⊥
  closed_fails k d d' e = let (_, _, _, failed) = and_then_ok (k d) _ e in cc

  check_probe_ok :
      (rc : ℕ) (d d' : Driver Dev) → check_probe lib grants rc d ≡ ok txd_success d' → d ≡ d'
  unfolding check_probe
  check_probe_ok rc d d' e = elim (Bool-cases (rc == 0)) [
    | inr failed ↦ absurd (closed_fails (cleanup lib grants) d d' (rw failed at e))
    | inl probed ↦ elim (Bool-cases (no_controllers lib grants d)) [
      | inl nothing ↦ absurd (closed_fails (cleanup lib grants) d d' (rw (probed, nothing) at e))
      | inr found ↦ ok_state (rw (probed, found) at e)
    ]
  ]

  module _ (P : Driver Dev → Type 0) (stable : Stable P) where
    register_ns-Stable :
        (ctrlr ns : ℕ) (d : Driver Dev) → P d → IfReturns P (register_ns lib grants ctrlr ns d)
    unfolding register_ns
    register_ns-Stable ctrlr ns d s = elim (Bool-cases (lib.is_active ns)) [
      | inr idle ↦ rw idle s
      | inl active ↦ rw active (elim (malloc_cases sizeof_ns_entry d) [
        | inl made ↦ rw made (stable.namespace d ctrlr ns s)
        | inr ended ↦ rw ended tt
      ])
    ]

    found-Stable :
        (ctrlr : ℕ) (o : Option ℕ) (d : Driver Dev)
        → P d
        → IfReturns P (
            (elim o as (λ _. Cmd (Driver Dev) (Unit {0})) [
              | none ↦ λ s. ok tt s
              | some ns ↦ register_ns lib grants ctrlr ns
            ])
              d)
    found-Stable ctrlr none d s = s
    found-Stable ctrlr (some ns) d s = register_ns-Stable ctrlr ns d s

    register_all-Stable :
        (rounds nsid ctrlr : ℕ) (d : Driver Dev)
        → P d
        → IfReturns P (register_all lib grants rounds nsid ctrlr d)
    unfolding register_all
    register_all-Stable zero nsid ctrlr d s = s
    register_all-Stable (suc n) nsid ctrlr d s =
        IfReturns-bind P P _ _ (found-Stable ctrlr (lib.get_ns ctrlr nsid) d s)
          λ _ d' s'. register_all-Stable n (nsid + 1) ctrlr d' s'

    attach_cb-Stable :
        (ctrlr : ℕ) (d : Driver Dev) → P d → IfReturns P (attach_cb lib grants ctrlr d)
    unfolding attach_cb
    attach_cb-Stable ctrlr d s = elim (malloc_cases sizeof_ctrlr_entry d) [
      | inl made ↦
          rw made (register_all-Stable (lib.num_ns ctrlr) 1 ctrlr _ (stable.controller d ctrlr s))
      | inr ended ↦ rw ended tt
    ]

    pub attach_all-Stable :
        (cs : List ℕ) (d : Driver Dev) → P d → IfReturns P (attach_all lib grants cs d)
    unfolding attach_all
    attach_all-Stable [] d s = s
    attach_all-Stable (c ∷ cs) d s =
        IfReturns-bind P P _ _ (attach_cb-Stable c d s) λ _ d' s'. attach_all-Stable cs d' s'

    -- `spdk_init` that returns success.
    pub spdk_init-Stable :
        (d d' : Driver Dev) → P d → spdk_init lib grants d ≡ ok txd_success d' → P d'
    unfolding spdk_init
    spdk_init-Stable d d' s e =
        let (rc, attached, dev) = lib.probe d.device in
        let (_, d'', run, checked) =
          and_then_ok (attach_all lib grants attached (record d { device = dev })) _ e in
        let sound =
          IfReturns-ok P
            (attach_all-Stable attached (record d { device = dev }) (stable.device d dev s)) run in
        subst P (check_probe_ok rc d'' d' checked) sound

    pub spdk_alloc_qpair-Stable :
        (d : Driver Dev) → P d → IfReturns P (spdk_alloc_qpair lib grants d)
    unfolding spdk_alloc_qpair
    spdk_alloc_qpair-Stable d s =
        IfReturns-bind (λ d'. d' ≡ d) P _ _ (first_namespace_same lib grants d)
          λ n d' same.
            let s' : P d' = subst P (sym same) s in
            elim (Option-cases (lib.alloc_io_qpair d'.device n.ctrlr).0) [
              | inl nothing ↦
                  rw nothing
                    (stable.qpair d' Qpair.null (lib.alloc_io_qpair d'.device n.ctrlr).1 s')
              | inr (p, made) ↦
                  rw made (stable.qpair d' (Qpair.at p) (lib.alloc_io_qpair d'.device n.ctrlr).1 s')
            ]

    pub spdk_free-Stable : (d : Driver Dev) → P d → IfReturns P (spdk_free lib grants d)
    unfolding spdk_free
    spdk_free-Stable d s =
        IfReturns-bind (λ d'. d' ≡ d) P _ _ (first_namespace_same lib grants d)
          λ n d' same.
            let s' : P d' = subst P (sym same) s in
            with_qpair_keeps lib grants P n.qpair _ d' (λ p. stable.device d' _ s')
