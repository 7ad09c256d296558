-- ===== src/Spdk/Registry.antt =====
-- What the probe registers: the controllers that SPDK found and their active namespaces.
use tx_driver.Base.{
  ℕ, zero, suc, ◌+◌, ◌≡◌, refl, ◌∙◌, sym, ap, true, false, Option, none, some, List, [], ◌∷◌, ◌++◌,
  map, if◌then◌else◌, Cmd, pure, ◌≢◌, Returns, returns, Returns-bind, Returns-weaken, Bool-cases,
  inl, inr,
}
use tx_driver.Malloc.{Grants, libc}
use tx_driver.Malloc.Owned.{obtain_granted}
use tx_driver.Ondisk.{txd_success}
use tx_driver.Spdk.Library.{Library}
use tx_driver.Spdk.Probe.{
  no_controllers, malloc_or_exit, register_ns, register_all, attach_cb, attach_all, check_probe,
  spdk_init,
}
use tx_driver.Spdk.State.{
  Driver, NsEntry, CtrlrEntry, on_memory_ok, sizeof_ns_entry, sizeof_ctrlr_entry,
}

-- A namespace with its controller.
abbrev pub Handle : Type 0
Handle = ℕ × ℕ

abbrev pub namespaces_of : List NsEntry → List Handle
namespaces_of [] = []
namespaces_of (n ∷ ns) = (n.ctrlr, n.ns) ∷ namespaces_of ns

abbrev pub controllers_of : List CtrlrEntry → List ℕ
controllers_of [] = []
controllers_of (c ∷ cs) = c.ctrlr ∷ controllers_of cs

-- Each item in turn goes to the front.
abbrev pub push_all : {A : Type 0} → List A → List A → List A
push_all [] ys = ys
push_all (x ∷ xs) ys = push_all xs (x ∷ ys)

module _ (lib : Library) where
  abbrev pub is_found : Option ℕ → List ℕ
  is_found none = []
  is_found (some ns) = if lib.is_active ns then ns ∷ [] else []

  -- The active ones of the namespaces with the numbers from `nsid` on.
  unfoldable pub active_from : (rounds nsid ctrlr : ℕ) → List Handle
  active_from zero nsid ctrlr = []
  active_from (suc n) nsid ctrlr =
      map (λ ns. (ctrlr, ns)) (is_found (lib.get_ns ctrlr nsid)) ++ active_from n (nsid + 1) ctrlr

  -- The active namespaces of some controllers, in the order of their numbers.
  unfoldable pub active_of : List ℕ → List Handle
  active_of [] = []
  active_of (c ∷ cs) = active_from (lib.num_ns c) 1 c ++ active_of cs

push_all-append :
    {A : Type 0} (xs ys zs : List A) → push_all (xs ++ ys) zs ≡ push_all ys (push_all xs zs)
push_all-append [] ys zs = refl
push_all-append (x ∷ xs) ys zs = push_all-append xs ys (x ∷ zs)

pub push_all_not_empty : {A : Type 0} (xs ys : List A) (y : A) → push_all xs (y ∷ ys) ≢ []
push_all_not_empty [] ys y e = cc
push_all_not_empty (x ∷ xs) ys y e = push_all_not_empty xs (y ∷ ys) x e

module _ (lib : Library) (grants : Grants)
    (granted : (serial bytes : ℕ) → grants libc serial bytes ≡ true) where
  open lib use {Dev}

  -- Some namespaces and controllers have been put in front of those of `d`, and the device and the
  -- counter are as before.
  pub record Registered (ctrlrs : List ℕ) (found : List Handle) (d d' : Driver Dev) : Type 0 where
    pub namespaces : namespaces_of d'.g_namespaces ≡ push_all found (namespaces_of d.g_namespaces)
    pub controllers :
        controllers_of d'.g_controllers ≡ push_all ctrlrs (controllers_of d.g_controllers)
    pub device : d'.device ≡ d.device
    pub counter : d'.memory.allocated_mem_size ≡ d.memory.allocated_mem_size

  Registered-then :
      {cs cs' : List ℕ} {fs fs' : List Handle} {d d' d'' : Driver Dev}
      → Registered cs fs d d'
      → Registered cs' fs' d' d''
      → Registered (cs ++ cs') (fs ++ fs') d d''
  Registered-then {cs} {cs'} {fs} {fs'} a b = record {
    namespaces = b.namespaces ∙ ap (push_all fs') a.namespaces ∙ sym (push_all-append fs fs' _);
    controllers = b.controllers ∙ ap (push_all cs') a.controllers ∙ sym (push_all-append cs cs' _);
    device = b.device ∙ a.device;
    counter = b.counter ∙ a.counter;
  }

  nothing-Registered : (d : Driver Dev) → Registered [] [] d d
  nothing-Registered d = record {
    namespaces = refl;
    controllers = refl;
    device = refl;
    counter = refl;
  }

  malloc_granted :
      (size : ℕ) (d : Driver Dev)
      → Returns (λ a d'. Registered [] [] d d') (malloc_or_exit lib grants size d)
  malloc_granted size d =
      rw (on_memory_ok _ d (obtain_granted grants libc size d.memory (granted _ _)))
        (returns (record { namespaces = refl; controllers = refl; device = refl; counter = refl }))

  found-Registered :
      (ctrlr : ℕ) (o : Option ℕ) (d : Driver Dev)
      → Returns
          (λ _ d'. Registered [] (map (λ ns. (ctrlr, ns)) (is_found lib o)) d d')
          ((elim o as (λ _. Cmd (Driver Dev) (Unit {0})) [
            | none ↦ pure tt
            | some ns ↦ register_ns lib grants ctrlr ns
          ])
            d)
  unfolding register_ns
  found-Registered ctrlr none d = returns (nothing-Registered d)
  found-Registered ctrlr (some ns) d = elim (Bool-cases (lib.is_active ns)) [
    | inr idle ↦ rw idle (returns (nothing-Registered d))
    | inl active ↦ rw active (
        Returns-bind (malloc_granted sizeof_ns_entry d) λ a d' r. returns (record {
          namespaces = ap (λ hs. (ctrlr, ns) ∷ hs) r.namespaces;
          controllers = r.controllers;
          device = r.device;
          counter = r.counter;
        }))
  ]

  register_all-Registered :
      (rounds nsid ctrlr : ℕ) (d : Driver Dev)
      → Returns
          (λ _ d'. Registered [] (active_from lib rounds nsid ctrlr) d d')
          (register_all lib grants rounds nsid ctrlr d)
  unfolding register_all active_from
  register_all-Registered zero nsid ctrlr d = returns (nothing-Registered d)
  register_all-Registered (suc n) nsid ctrlr d =
      Returns-bind (found-Registered ctrlr (lib.get_ns ctrlr nsid) d) λ _ d' r.
        Returns-weaken (register_all-Registered n (nsid + 1) ctrlr d')
          λ _ d'' r'. Registered-then r r'

  attach_cb-Registered :
      (ctrlr : ℕ) (d : Driver Dev)
      → Returns
          (λ _ d'. Registered (ctrlr ∷ []) (active_from lib (lib.num_ns ctrlr) 1 ctrlr) d d')
          (attach_cb lib grants ctrlr d)
  unfolding attach_cb
  attach_cb-Registered ctrlr d = Returns-bind (malloc_granted sizeof_ctrlr_entry d) λ a d' r.
      Returns-weaken (register_all-Registered (lib.num_ns ctrlr) 1 ctrlr _) λ _ d'' r'.
        Registered-then {cs = ctrlr ∷ []} {fs = []}
          (record {
            namespaces = r.namespaces;
            controllers = ap (λ cs. ctrlr ∷ cs) r.controllers;
            device = r.device;
            counter = r.counter;
          })
          r'

  pub attach_all-Registered :
      (cs : List ℕ) (d : Driver Dev)
      → Returns (λ _ d'. Registered cs (active_of lib cs) d d') (attach_all lib grants cs d)
  unfolding attach_all active_of
  attach_all-Registered [] d = returns (nothing-Registered d)
  attach_all-Registered (c ∷ cs) d =
      Returns-bind (attach_cb-Registered c d)
        λ _ d' r. Returns-weaken (attach_all-Registered cs d') λ _ d'' r'. Registered-then r r'

  has_controllers :
      (d : Driver Dev) (cs : List CtrlrEntry)
      → d.g_controllers ≡ cs
      → controllers_of cs ≢ []
      → no_controllers lib grants d ≡ false
  has_controllers d [] e some_found = absurd (some_found refl)
  has_controllers d (c ∷ cs) e some_found = rw e

  -- When SPDK finds controllers and `malloc` grants every request, `spdk_init` returns `TXD_SUCCESS`
  -- and has put these controllers and exactly their active namespaces in front of the lists, each
  -- list with the one found last at its head; the counter, and the device after the probe, are as
  -- they were.
  pub spdk_init-Registered :
      (d : Driver Dev) (c : ℕ) (cs : List ℕ) (dev : Dev)
      → lib.probe d.device ≡ (0, c ∷ cs, dev)
      → Returns
          (λ err d'.
            (err ≡ txd_success)
            × Registered (c ∷ cs) (active_of lib (c ∷ cs)) (record d { device = dev }) d')
          (spdk_init lib grants d)
  unfolding spdk_init check_probe
  spdk_init-Registered d c cs dev e = rw e (
      Returns-bind (attach_all-Registered (c ∷ cs) (record d { device = dev })) λ _ d' r.
        let found : no_controllers lib grants d' ≡ false =
          has_controllers d' d'.g_controllers refl (λ none.
            push_all_not_empty cs (controllers_of d.g_controllers) c (sym r.controllers ∙ none)) in
        rw found (returns (refl, r)))
