-- ===== src/Api/Untouched.antt =====
-- `tx_format` sends no command: what the device stores is as before.
use tx_driver.Base.{
  IfReturns, IfReturns-bind, IfReturns-ok, ℕ, zero, suc, ◌+◌, ◌≡◌, refl, ◌∙◌, Bool, true, false,
  Option, none, some, List, [], ◌∷◌, ◌==◌, if◌then◌else◌, Outcome, ok, exited, aborted, fault,
  blocked, Cmd, and_then, Bool-cases, inl, inr, Option-cases,
}
use tx_driver.Api.{tx_format, txd_chk_fail}
use tx_driver.Malloc.{Memory, Grants, txd_zmalloc_spdk, txd_free_spdk, libc, obtain, give_back}
use tx_driver.Ondisk.{txd_fail, sizeof_superblock}
use tx_driver.Spdk.Library.{Library}
use tx_driver.Spdk.Probe.{
  malloc_or_exit, register_ns, register_all, attach_cb, attach_all, free_namespaces,
  free_controllers, cleanup, check_probe, no_controllers, spdk_init, spdk_alloc_qpair,
}
use tx_driver.Spdk.State.{
  Driver, NsEntry, CtrlrEntry, on_memory, follow, first_namespace, first_of_list, is_live,
  sizeof_ns_entry, sizeof_ctrlr_entry, lift,
}

-- A view of the device, such as what it stores, that probing, making a queue pair and detaching do
-- not change.
pub record IsKept (lib : Library) {A : Type 0} (stored : lib.Dev → A) : Type 0 where
  pub probe : (d : lib.Dev) → stored (lib.probe d).2 ≡ stored d
  pub alloc : (d : lib.Dev) (ctrlr : ℕ) → stored (lib.alloc_io_qpair d ctrlr).1 ≡ stored d
  pub detach : (d : lib.Dev) (ctrlr : ℕ) → stored (lib.detach d ctrlr) ≡ stored d

module _ (lib : Library) (grants : Grants) {A : Type 0} (stored : lib.Dev → A)
    (kept : IsKept lib stored) where
  open lib use {Dev}

  abbrev Stores : A → Driver Dev → Type 0
  Stores x d = stored d.device ≡ x

  -- Whatever the call returns, what is stored is as before.
  abbrev Keeps : {B : Type 0} → Cmd (Driver Dev) B → Type 0
  Keeps c = (x : A) (d : Driver Dev) → Stores x d → IfReturns (Stores x) (c d)

  bind-Keeps :
      {B C : Type 0} (c : Cmd (Driver Dev) B) (k : B → Cmd (Driver Dev) C)
      → Keeps c
      → ((b : B) → Keeps (k b))
      → Keeps (λ d. and_then (c d) k)
  bind-Keeps c k first next x d e =
      IfReturns-bind (Stores x) (Stores x) (c d) k (first x d e) λ b d' e'. next b x d' e'

  if-Keeps :
      {B : Type 0} (b : Bool) (c c' : Cmd (Driver Dev) B)
      → Keeps c
      → Keeps c'
      → Keeps (if b then c else c')
  if-Keeps true c c' first second = first
  if-Keeps false c c' first second = second

  option-Keeps :
      {B C : Type 0} (o : Option B) (c : Cmd (Driver Dev) C) (k : B → Cmd (Driver Dev) C)
      → Keeps c
      → ((b : B) → Keeps (k b))
      → Keeps (elim o [ none ↦ c | some b ↦ k b ])
  option-Keeps none c k first second = first
  option-Keeps (some b) c k first second = second b

  lift-Keeps :
      {B : Type 0} (r : Outcome Memory B) (x : A) (d : Driver Dev)
      → Stores x d
      → IfReturns (Stores x) (lift d r)
  lift-Keeps (ok a m) x d e = e
  lift-Keeps (exited n) x d e = tt
  lift-Keeps aborted x d e = tt
  lift-Keeps fault x d e = tt
  lift-Keeps blocked x d e = tt

  on_memory-Keeps : {B : Type 0} (c : Cmd Memory B) → Keeps (on_memory {Dev = Dev} c)
  unfolding on_memory
  on_memory-Keeps c x d e = lift-Keeps (c d.memory) x d e

  -- A test of the state before the call.
  guard-Keeps :
      (b : Bool) (x : A) (d : Driver Dev)
      → Stores x d
      → IfReturns {A = Unit {0}} (Stores x) (if b then ok tt d else fault)
  guard-Keeps true x d e = e
  guard-Keeps false x d e = tt

  malloc_or_exit-Keeps : (size : ℕ) → Keeps (malloc_or_exit lib grants size)
  malloc_or_exit-Keeps size =
      bind-Keeps _ _ (on_memory-Keeps (obtain grants libc size))
        (elim [ none ↦ λ x d e. tt | some a ↦ λ x d e. e ])

  register_ns-Keeps : (ctrlr ns : ℕ) → Keeps (register_ns lib grants ctrlr ns)
  unfolding register_ns
  register_ns-Keeps ctrlr ns =
      if-Keeps (lib.is_active ns) _ _
        (bind-Keeps _ _ (malloc_or_exit-Keeps sizeof_ns_entry) (λ entry x d e. e)) (λ x d e. e)

  register_all-Keeps : (rounds nsid ctrlr : ℕ) → Keeps (register_all lib grants rounds nsid ctrlr)
  unfolding register_all
  register_all-Keeps zero nsid ctrlr x d e = e
  register_all-Keeps (suc n) nsid ctrlr x d e =
      bind-Keeps _ _
        (option-Keeps (lib.get_ns ctrlr nsid) _ _ (λ y d' e'. e') (register_ns-Keeps ctrlr))
        (λ _. register_all-Keeps n (nsid + 1) ctrlr) x d e

  attach_cb-Keeps : (ctrlr : ℕ) → Keeps (attach_cb lib grants ctrlr)
  unfolding attach_cb
  attach_cb-Keeps ctrlr = bind-Keeps _ _ (malloc_or_exit-Keeps sizeof_ctrlr_entry) λ entry x d e.
      register_all-Keeps (lib.num_ns ctrlr) 1 ctrlr x
        (record d { g_controllers = record { addr = entry; ctrlr = ctrlr } ∷ d.g_controllers }) e

  attach_all-Keeps : (ctrlrs : List ℕ) → Keeps (attach_all lib grants ctrlrs)
  unfolding attach_all
  attach_all-Keeps [] x d e = e
  attach_all-Keeps (c ∷ cs) x d e =
      bind-Keeps _ _ (attach_cb-Keeps c) (λ _. attach_all-Keeps cs) x d e

  follow-Keeps : (p : ℕ) → Keeps (follow {Dev = Dev} p)
  unfolding follow
  follow-Keeps p x d e = guard-Keeps (is_live p d.memory.live) x d e

  first_of_list-Keeps : (ns : List NsEntry) → Keeps (first_of_list {Dev = Dev} ns)
  first_of_list-Keeps [] x d e = tt
  first_of_list-Keeps (n ∷ ns) x d e =
      elim (is_live n.addr d.memory.live)
        as (λ b. IfReturns (Stores x) (if b then ok n d else fault)) [ true ↦ e | false ↦ tt ]

  first_namespace-Keeps : Keeps (first_namespace {Dev = Dev})
  unfolding first_namespace
  first_namespace-Keeps x d e = first_of_list-Keeps d.g_namespaces x d e

  free_namespaces-Keeps : (ns : List NsEntry) → Keeps (free_namespaces lib grants ns)
  unfolding free_namespaces
  free_namespaces-Keeps [] x d e = e
  free_namespaces-Keeps (n ∷ ns) x d e =
      bind-Keeps _ _
        (bind-Keeps _ _ (follow-Keeps n.addr) (λ _. on_memory-Keeps (give_back libc (some n.addr))))
        (λ _. free_namespaces-Keeps ns) x d e

  free_controllers-Keeps : (cs : List CtrlrEntry) → Keeps (free_controllers lib grants cs)
  unfolding free_controllers
  free_controllers-Keeps [] x d e = e
  free_controllers-Keeps (c ∷ cs) x d e =
      bind-Keeps _ _ (follow-Keeps c.addr)
        (λ _ y d' e'.
          bind-Keeps _ _ (on_memory-Keeps (give_back libc (some c.addr)))
            (λ _. free_controllers-Keeps cs) y (record d' { device = lib.detach d'.device c.ctrlr })
            (kept.detach d'.device c.ctrlr ∙ e'))
        x d e

  cleanup-Keeps : Keeps (cleanup lib grants)
  unfolding cleanup
  cleanup-Keeps x d e =
      bind-Keeps _ _ (free_namespaces-Keeps d.g_namespaces)
        (λ _. free_controllers-Keeps d.g_controllers) x d e

  failed-Keeps : Keeps (λ d. and_then (cleanup lib grants d) (λ _. ok txd_fail))
  failed-Keeps = bind-Keeps (cleanup lib grants) _ cleanup-Keeps λ _ x d e. e

  check_probe-Keeps : (rc : ℕ) → Keeps (check_probe lib grants rc)
  unfolding check_probe
  check_probe-Keeps rc x d e = elim (Bool-cases (rc == 0)) [
    | inr failed ↦ rw failed (failed-Keeps x d e)
    | inl done ↦ rw done (elim (Bool-cases (no_controllers lib grants d)) [
      | inl lonely ↦ rw lonely (failed-Keeps x d e)
      | inr found ↦ rw found e
    ])
  ]

  spdk_init-Keeps : Keeps (spdk_init lib grants)
  unfolding spdk_init
  spdk_init-Keeps x d e =
      let (rc, attached, dev) = lib.probe d.device in
      bind-Keeps _ _ (attach_all-Keeps attached) (λ _. check_probe-Keeps rc) x
        (record d { device = dev }) (kept.probe d.device ∙ e)

  spdk_alloc_qpair-Keeps : Keeps (spdk_alloc_qpair lib grants)
  unfolding spdk_alloc_qpair
  spdk_alloc_qpair-Keeps = bind-Keeps _ _ first_namespace-Keeps λ n x d e.
      elim (Option-cases (lib.alloc_io_qpair d.device n.ctrlr).0) [
        | inl refused ↦ rw refused (kept.alloc d.device n.ctrlr ∙ e)
        | inr (p, granted) ↦ rw granted (kept.alloc d.device n.ctrlr ∙ e)
      ]

  chk_fail-Keeps : (res : ℕ) → Keeps (txd_chk_fail res)
  chk_fail-Keeps res x d e = elim (Bool-cases (res == txd_fail)) [
    | inl failed ↦ rw failed tt
    | inr done ↦ rw done e
  ]

  tx_format-Keeps : (txd_addr txd_size : ℕ) → Keeps (tx_format lib grants txd_addr txd_size)
  unfolding tx_format
  tx_format-Keeps txd_addr txd_size = bind-Keeps _ _ spdk_init-Keeps λ init_err.
      bind-Keeps _ _ (chk_fail-Keeps init_err) λ _. bind-Keeps _ _ spdk_alloc_qpair-Keeps λ err.
        bind-Keeps _ _ (chk_fail-Keeps err) λ _.
          bind-Keeps _ _ (on_memory-Keeps (txd_zmalloc_spdk grants sizeof_superblock)) (elim [
            | none ↦ λ x d e. tt
            | some p ↦
                bind-Keeps _ _ (on_memory-Keeps (txd_free_spdk (some p) sizeof_superblock))
                  (λ _ x d e. e)
          ])

  -- Whatever `tx_format` returns, with whatever address and size, what the device stores is what it
  -- stored before: nothing is written.
  pub tx_format-stored :
      (txd_addr txd_size : ℕ) (d d' : Driver Dev) (err : ℕ)
      → tx_format lib grants txd_addr txd_size d ≡ ok err d'
      → stored d'.device ≡ stored d.device
  tx_format-stored txd_addr txd_size d d' err e =
      IfReturns-ok (Stores (stored d.device))
        (tx_format-Keeps txd_addr txd_size (stored d.device) d refl) e
