-- ===== src/Spdk/Startup.antt =====
-- `spdk_init` and then `spdk_alloc_qpair`, from empty lists.
use tx_driver.Base.{
  ℕ, ◌≡◌, ◌≢◌, refl, ◌∙◌, sym, ap, subst, true, some, List, [], ◌∷◌, ◌++◌, ok, Returns-cases,
}
use tx_driver.Malloc.{Grants, Block, libc}
use tx_driver.Ondisk.{txd_success}
use tx_driver.Spdk.Cleanup.{namespace_addrs, controller_addrs}
use tx_driver.Spdk.Held.{Below, Holding, one_more, take_back-Below}
use tx_driver.Spdk.Library.{Library}
use tx_driver.Spdk.Probe.{set_qpair, spdk_init, spdk_alloc_qpair}
use tx_driver.Spdk.Registry.{
  Handle, controllers_of, namespaces_of, push_all, push_all_not_empty, active_of,
  spdk_init-Registered,
}
use tx_driver.Spdk.Session.{empty-IsSound}
use tx_driver.Spdk.Sound.{IsSound, spdk_init-IsSound, set_qpair-IsSound}
use tx_driver.Spdk.State.{Driver, NsEntry, Qpair, is_live, first_namespace_live}

-- The first of the entries that are held is live.
first_live :
    (p bound : ℕ) {ps : List ℕ} (bs : List Block)
    → Below bound bs
    → Holding (p ∷ ps) bs
    → is_live p bs ≡ true
first_live p bound bs below (one_more taken held) = (take_back-Below p bound bs below taken).2

module _ (lib : Library) (grants : Grants) where
  open lib use {Dev}

  -- SPDK finds these controllers, with an active namespace among them, and makes every queue pair.
  pub record Finds (d : Driver Dev) (c : ℕ) (cs : List ℕ) : Type 0 where
    pub dev : Dev
    pub probed : lib.probe d.device ≡ (0, c ∷ cs, dev)
    pub active : active_of lib (c ∷ cs) ≢ []
    pub makes : (e : Dev) (ctrlr : ℕ) → (q : ℕ) × ((lib.alloc_io_qpair e ctrlr).0 ≡ some q)

  -- What the two calls leave: the namespaces registered, the first one with a queue pair, and all
  -- entries sound.
  pub record Started (d : Driver Dev) (ctrlrs : List ℕ) (found : List Handle) : Type 0 where
    pub d₁ : Driver Dev
    pub d₂ : Driver Dev
    pub init : spdk_init lib grants d ≡ ok txd_success d₁
    pub alloc : spdk_alloc_qpair lib grants d₁ ≡ ok txd_success d₂
    pub n : NsEntry
    pub others : List NsEntry
    pub q : ℕ
    pub chosen : d₂.g_namespaces ≡ n ∷ others
    pub qpair : n.qpair ≡ Qpair.at q
    pub live : is_live n.addr d₂.memory.live ≡ true
    pub sound : IsSound lib grants d₂
    pub counter : d₂.memory.allocated_mem_size ≡ d.memory.allocated_mem_size
    pub namespaces : namespaces_of d₂.g_namespaces ≡ push_all found []
    pub controllers : controllers_of d₂.g_controllers ≡ push_all ctrlrs []

  alloc_run :
      (d₁ : Driver Dev) (n : NsEntry) (others : List NsEntry) (q : ℕ)
      → d₁.g_namespaces ≡ n ∷ others
      → is_live n.addr d₁.memory.live ≡ true
      → (lib.alloc_io_qpair d₁.device n.ctrlr).0 ≡ some q
      → spdk_alloc_qpair lib grants d₁
        ≡ ok txd_success (record d₁ {
          device = (lib.alloc_io_qpair d₁.device n.ctrlr).1;
          g_namespaces = set_qpair lib grants (Qpair.at q) d₁.g_namespaces;
        })
  unfolding spdk_alloc_qpair
  alloc_run d₁ n others q chosen live made =
      rw (first_namespace_live d₁ n others chosen live) (rw made refl)

  -- With a namespace at the head of the list of a sound driver, `spdk_alloc_qpair` gives it a queue
  -- pair.
  start_first :
      (d d₁ : Driver Dev) (ctrlrs : List ℕ) (found : List Handle) (n : NsEntry)
      (others : List NsEntry) (q : ℕ)
      → spdk_init lib grants d ≡ ok txd_success d₁
      → IsSound lib grants d₁
      → d₁.memory.allocated_mem_size ≡ d.memory.allocated_mem_size
      → namespaces_of d₁.g_namespaces ≡ push_all found []
      → controllers_of d₁.g_controllers ≡ push_all ctrlrs []
      → d₁.g_namespaces ≡ n ∷ others
      → (lib.alloc_io_qpair d₁.device n.ctrlr).0 ≡ some q
      → Started d ctrlrs found
  start_first d d₁ ctrlrs found n others q run s counter names ctrls chosen made =
      let live : is_live n.addr d₁.memory.live ≡ true =
        first_live n.addr d₁.memory.serial d₁.memory.live s.below (
          subst
            (λ ns. Holding (namespace_addrs ns ++ controller_addrs d₁.g_controllers) d₁.memory.live)
            chosen s.held) in
      let d₂ : Driver Dev = record d₁ {
        device = (lib.alloc_io_qpair d₁.device n.ctrlr).1;
        g_namespaces = set_qpair lib grants (Qpair.at q) d₁.g_namespaces;
      } in
      let headed : d₂.g_namespaces ≡ record n { qpair = Qpair.at q } ∷ others =
        ap (set_qpair lib grants (Qpair.at q)) chosen in
      record {
        d₁ = d₁;
        d₂ = d₂;
        init = run;
        alloc = alloc_run d₁ n others q chosen live made;
        n = record n { qpair = Qpair.at q };
        others = others;
        q = q;
        chosen = headed;
        qpair = refl;
        live = live;
        sound =
            set_qpair-IsSound lib grants (Qpair.at q) (lib.alloc_io_qpair d₁.device n.ctrlr).1 d₁ s;
        counter = counter;
        namespaces = ap namespaces_of headed ∙ sym (ap namespaces_of chosen) ∙ names;
        controllers = ctrls;
      }

  not_empty :
      (d : Driver Dev) (found : List Handle) (ns : List NsEntry)
      → found ≢ []
      → namespaces_of ns ≡ push_all found []
      → (n : NsEntry) × (others : List NsEntry) × (ns ≡ n ∷ others)
  not_empty d [] ns active names = absurd (active refl)
  not_empty d (h ∷ hs) [] active names = absurd (push_all_not_empty hs [] h (sym names))
  not_empty d (h ∷ hs) (n ∷ others) active names = (n, others, refl)

  -- From empty lists in a well-formed memory, when `malloc` grants every request, and SPDK finds
  -- controllers with an active namespace and makes every queue pair, `spdk_init` and then
  -- `spdk_alloc_qpair` return success with the counter as before, exactly the active namespaces
  -- and exactly the controllers registered, the one found last first, the first namespace with its queue
  -- pair, and all entries live in blocks of their own.
  pub startup-Started :
      (d : Driver Dev) (c : ℕ) (cs : List ℕ)
      → ((serial bytes : ℕ) → grants libc serial bytes ≡ true)
      → Finds d c cs
      → d.g_namespaces ≡ []
      → d.g_controllers ≡ []
      → Below d.memory.serial d.memory.live
      → Started d (c ∷ cs) (active_of lib (c ∷ cs))
  startup-Started d c cs granted f nss css below =
      let (err, d₁, run, (done, reg)) =
        Returns-cases (spdk_init-Registered lib grants granted d c cs f.dev f.probed) in
      let init : spdk_init lib grants d ≡ ok txd_success d₁ = run ∙ ap (λ r. ok r d₁) done in
      let sound =
        spdk_init-IsSound lib grants d d₁ (empty-IsSound lib grants 0 d nss css below) init in
      let names =
        reg.namespaces ∙ ap (λ ns. push_all (active_of lib (c ∷ cs)) (namespaces_of ns)) nss in
      let (n, others, chosen) =
        not_empty d (active_of lib (c ∷ cs)) d₁.g_namespaces f.active names in
      let (q, made) = f.makes d₁.device n.ctrlr in
      let ctrls = reg.controllers ∙ ap (λ cs'. push_all (c ∷ cs) (controllers_of cs')) css in
      start_first d d₁ (c ∷ cs) (active_of lib (c ∷ cs)) n others q init sound reg.counter names
        ctrls chosen made
