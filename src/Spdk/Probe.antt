-- ===== src/Spdk/Probe.antt =====
-- `register_ns`, `attach_cb`, `spdk_init`, `spdk_alloc_qpair`, `spdk_free` and `cleanup` of
-- src/txd_spdk.c.
use tx_driver.Base.{
  ℕ, zero, suc, ◌+◌, Bool, true, false, none, some, List, [], ◌∷◌, ◌==◌, if◌then◌else◌, ok, exited,
  fault, Cmd, pure, ◌>>=◌, ◌>>◌,
}
use tx_driver.Malloc.{Grants, libc, obtain, give_back}
use tx_driver.Ondisk.{txd_success, txd_fail}
use tx_driver.Spdk.Library.{Library}
use tx_driver.Spdk.State.{
  Driver, NsEntry, CtrlrEntry, Qpair, sizeof_ns_entry, sizeof_ctrlr_entry, on_memory, follow,
  first_namespace,
}

module _ (lib : Library) (grants : Grants) where
  open lib use {Dev, probe, num_ns, get_ns, is_active, alloc_io_qpair, free_io_qpair, detach}

  -- `malloc`, where NULL ends the program.
  abbrev pub malloc_or_exit : ℕ → Cmd (Driver Dev) ℕ
  malloc_or_exit size = do
    p ← on_memory (obtain grants libc size)
    elim p [ none ↦ λ d. exited 1 | some a ↦ pure a ]

  unfoldable pub register_ns : (ctrlr ns : ℕ) → Cmd (Driver Dev) (Unit {0})
  register_ns ctrlr ns =
      if is_active ns
      then (do
        entry ← malloc_or_exit sizeof_ns_entry
        λ d. ok tt (record d {
          g_namespaces =
              record { addr = entry; ctrlr = ctrlr; ns = ns; qpair = Qpair.unset } ∷ d.g_namespaces;
        }))
      else pure tt

  -- `for (nsid = 1; nsid <= num_ns; nsid++)`, with the rounds that are left.
  unfoldable pub register_all : (rounds nsid ctrlr : ℕ) → Cmd (Driver Dev) (Unit {0})
  register_all zero nsid ctrlr d = ok tt d
  register_all (suc n) nsid ctrlr d =
      ((elim (get_ns ctrlr nsid) [ none ↦ pure tt | some ns ↦ register_ns ctrlr ns ])
          >> register_all n (nsid + 1) ctrlr)
        d

  unfoldable pub attach_cb : ℕ → Cmd (Driver Dev) (Unit {0})
  attach_cb ctrlr = do
    entry ← malloc_or_exit sizeof_ctrlr_entry
    (λ d.
        ok tt
          (record d { g_controllers = record { addr = entry; ctrlr = ctrlr } ∷ d.g_controllers }))
    register_all (num_ns ctrlr) 1 ctrlr

  -- Every controller that the probe finds is to be attached.
  abbrev pub probe_cb : (ctrlr : ℕ) → Bool
  probe_cb ctrlr = true

  unfoldable pub attach_all : List ℕ → Cmd (Driver Dev) (Unit {0})
  attach_all [] d = ok tt d
  attach_all (c ∷ cs) d = ((if probe_cb c then attach_cb c else pure tt) >> attach_all cs) d

  -- The loops of `cleanup`: the entry is read for its successor, and then freed.
  unfoldable pub free_namespaces : List NsEntry → Cmd (Driver Dev) (Unit {0})
  free_namespaces [] d = ok tt d
  free_namespaces (n ∷ ns) d =
      ((follow n.addr >> on_memory (give_back libc (some n.addr))) >> free_namespaces ns) d

  unfoldable pub free_controllers : List CtrlrEntry → Cmd (Driver Dev) (Unit {0})
  free_controllers [] d = ok tt d
  free_controllers (c ∷ cs) d =
      (do
        follow c.addr
        (λ e. ok tt (record e { device = detach e.device c.ctrlr }))
        on_memory (give_back libc (some c.addr))
        free_controllers cs)
        d

  -- `g_namespaces` and `g_controllers` keep their values.
  unfoldable pub cleanup : Cmd (Driver Dev) (Unit {0})
  cleanup d = (free_namespaces d.g_namespaces >> free_controllers d.g_controllers) d

  -- `if (g_controllers == NULL)`
  abbrev pub no_controllers : Driver Dev → Bool
  no_controllers d = elim d.g_controllers [ [] ↦ true | _ ∷ _ ↦ false ]

  -- What `spdk_init` does with the return code of the probe.
  unfoldable pub check_probe : ℕ → Cmd (Driver Dev) ℕ
  check_probe rc d =
      if rc == 0
      then if no_controllers d then (cleanup >> pure txd_fail) d else ok txd_success d
      else (cleanup >> pure txd_fail) d

  unfoldable pub spdk_init : Cmd (Driver Dev) ℕ
  spdk_init d =
      let (rc, attached, dev) = probe d.device in
      (attach_all attached >> check_probe rc) (record d { device = dev })

  abbrev pub set_qpair : Qpair → List NsEntry → List NsEntry
  set_qpair q [] = []
  set_qpair q (n ∷ ns) = record n { qpair = q } ∷ ns

  unfoldable pub spdk_alloc_qpair : Cmd (Driver Dev) ℕ
  spdk_alloc_qpair = do
    n ← first_namespace
    λ d.
        let (q, dev) = alloc_io_qpair d.device n.ctrlr in
        elim q [
          | none ↦
              ok txd_fail
                (record d { device = dev; g_namespaces = set_qpair Qpair.null d.g_namespaces })
          | some p ↦
              ok txd_success
                (record d { device = dev; g_namespaces = set_qpair (Qpair.at p) d.g_namespaces })
        ]

  -- Handing SPDK a queue pair that is NULL or was never set is a fault.
  abbrev pub with_qpair : {A : Type 0} → Qpair → (ℕ → Cmd (Driver Dev) A) → Cmd (Driver Dev) A
  with_qpair Qpair.unset body d = fault
  with_qpair Qpair.null body d = fault
  with_qpair (Qpair.at q) body d = body q d

  unfoldable pub spdk_free : Cmd (Driver Dev) ℕ
  spdk_free = do
    n ← first_namespace
    with_qpair n.qpair
        (λ q d. let (rc, dev) = free_io_qpair d.device q in ok rc (record d { device = dev }))
