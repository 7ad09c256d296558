-- ===== src/Spdk/Cleanup.antt =====
-- `cleanup`: every entry is given back, and the globals still point at them.
use tx_driver.Base.{
  and_then, subst, ◌++◌, ℕ, ◌≡◌, refl, ◌∙◌, sym, ap, false, some, List, [], ◌∷◌, ok, Returns,
  returns, Returns-bind, Returns-weaken,
}
use tx_driver.Malloc.{Grants, Block, libc, take_back, give_back}
use tx_driver.Malloc.Owned.{give_back_found}
use tx_driver.Spdk.Library.{Library}
use tx_driver.Spdk.Probe.{free_namespaces, free_controllers, cleanup}
use tx_driver.Spdk.State.{Driver, NsEntry, CtrlrEntry, on_memory, on_memory_ok, follow, is_live}
use tx_driver.Spdk.Held.{Below, Holding, one_more, take_back-Below, take_back_gone}

abbrev pub namespace_addrs : List NsEntry → List ℕ
namespace_addrs [] = []
namespace_addrs (n ∷ ns) = n.addr ∷ namespace_addrs ns

abbrev pub controller_addrs : List CtrlrEntry → List ℕ
controller_addrs [] = []
controller_addrs (c ∷ cs) = c.addr ∷ controller_addrs cs

-- None of these is the address of a live block.
abbrev pub AllGone : List ℕ → List Block → Type 0
AllGone [] bs = Unit {0}
AllGone (p ∷ ps) bs = (is_live p bs ≡ false) × AllGone ps bs

AllGone-append :
    (ps qs : List ℕ) (bs : List Block) → AllGone ps bs → AllGone qs bs → AllGone (ps ++ qs) bs
AllGone-append [] qs bs a b = b
AllGone-append (p ∷ ps) qs bs (dead, a) b = (dead, AllGone-append ps qs bs a b)

AllGone-later :
    (ps : List ℕ) (bs cs : List Block)
    → ((p : ℕ) → is_live p bs ≡ false → is_live p cs ≡ false)
    → AllGone ps bs
    → AllGone ps cs
AllGone-later [] bs cs gone a = tt
AllGone-later (p ∷ ps) bs cs gone (dead, a) = (gone p dead, AllGone-later ps bs cs gone a)

module _ (lib : Library) (grants : Grants) where
  open lib use {Dev}

  -- The device after these controllers have been detached, one after the other.
  abbrev pub detach_all : List CtrlrEntry → Dev → Dev
  detach_all [] dev = dev
  detach_all (c ∷ cs) dev = detach_all cs (lib.detach dev c.ctrlr)

  -- All that the lists hold has been released: from `dev` on, every listed controller was detached,
  -- and no listed entry is live.
  pub record Released (dev : Dev) (d : Driver Dev) : Type 0 where
    pub device : d.device ≡ detach_all d.g_controllers dev
    pub entries :
        AllGone (namespace_addrs d.g_namespaces ++ controller_addrs d.g_controllers) d.memory.live

  -- From `d` to `d'` some blocks were given back: those at `ps` are still held, and what was not live
  -- is not live.
  record Freed (ps : List ℕ) (d d' : Driver Dev) : Type 0 where
    bound : ℕ
    below : Below bound d'.memory.live
    held : Holding ps d'.memory.live
    counter : d'.memory.allocated_mem_size ≡ d.memory.allocated_mem_size
    serial : d'.memory.serial ≡ d.memory.serial
    namespaces : d'.g_namespaces ≡ d.g_namespaces
    controllers : d'.g_controllers ≡ d.g_controllers
    gone : (p : ℕ) → is_live p d.memory.live ≡ false → is_live p d'.memory.live ≡ false

  Freed-then :
      {ps qs : List ℕ} {d d' d'' : Driver Dev} → Freed ps d d' → Freed qs d' d'' → Freed qs d d''
  Freed-then a b = record {
    bound = b.bound;
    below = b.below;
    held = b.held;
    counter = b.counter ∙ a.counter;
    serial = b.serial ∙ a.serial;
    namespaces = b.namespaces ∙ a.namespaces;
    controllers = b.controllers ∙ a.controllers;
    gone = λ p h. b.gone p (a.gone p h);
  }

  -- One entry is followed, and given back.
  free_one :
      (p : ℕ) (ps : List ℕ) (bound : ℕ) (d : Driver Dev) {rest : List Block}
      → Below bound d.memory.live
      → take_back libc p d.memory.live ≡ some rest
      → Holding ps rest
      → (follow p d ≡ ok tt d)
        × Returns
            (λ _ d'. Freed ps d d' × (d'.device ≡ d.device) × (is_live p d'.memory.live ≡ false))
            (on_memory (give_back libc (some p)) d)
  unfolding follow
  free_one p ps bound d {rest} below taken held =
      let (under, dead, there) = take_back-Below p bound d.memory.live below taken in
      (
        rw there,
        rw (on_memory_ok _ d (give_back_found libc p d.memory taken)) (
            returns (
              record {
                bound = bound;
                below = under;
                held = held;
                counter = refl;
                serial = refl;
                namespaces = refl;
                controllers = refl;
                gone = λ q h. take_back_gone q p d.memory.live taken h;
              },
              refl,
              dead,
            )),
      )

  nothing-Freed :
      {ps : List ℕ} (bound : ℕ) (d : Driver Dev)
      → Below bound d.memory.live
      → Holding ps d.memory.live
      → Freed ps d d
  nothing-Freed bound d below held = record {
    bound = bound;
    below = below;
    held = held;
    counter = refl;
    serial = refl;
    namespaces = refl;
    controllers = refl;
    gone = λ p h. h;
  }

  free_namespaces-Freed :
      (ns : List NsEntry) (ps : List ℕ) (bound : ℕ) (d : Driver Dev)
      → Below bound d.memory.live
      → Holding (namespace_addrs ns ++ ps) d.memory.live
      → Returns
          (λ _ d'.
            Freed ps d d' × (d'.device ≡ d.device) × AllGone (namespace_addrs ns) d'.memory.live)
          (free_namespaces lib grants ns d)
  unfolding free_namespaces
  free_namespaces-Freed [] ps bound d below held =
      returns (nothing-Freed bound d below held, refl, tt)
  free_namespaces-Freed (n ∷ ns) ps bound d below (one_more taken held) =
      let (followed, freed) = free_one n.addr (namespace_addrs ns ++ ps) bound d below taken held in
      rw followed (
        Returns-bind freed λ _ d' (f, same, dead).
          Returns-weaken (free_namespaces-Freed ns ps f.bound d' f.below f.held)
            λ _ d'' (g, same', all). (Freed-then f g, same' ∙ same, (g.gone n.addr dead, all)))

  free_controllers-Freed :
      (cs : List CtrlrEntry) (bound : ℕ) (d : Driver Dev)
      → Below bound d.memory.live
      → Holding (controller_addrs cs) d.memory.live
      → Returns
          (λ _ d'.
            Freed [] d d'
            × (d'.device ≡ detach_all cs d.device)
            × AllGone (controller_addrs cs) d'.memory.live)
          (free_controllers lib grants cs d)
  unfolding free_controllers
  free_controllers-Freed [] bound d below held =
      returns (nothing-Freed bound d below held, refl, tt)
  free_controllers-Freed (c ∷ cs) bound d below (one_more taken held) =
      let e = record d { device = lib.detach d.device c.ctrlr } in
      let (followed, _) = free_one c.addr (controller_addrs cs) bound d below taken held in
      let (_, freed) = free_one c.addr (controller_addrs cs) bound e below taken held in
      rw followed (
        Returns-bind freed λ _ d' (f, same, dead).
          Returns-weaken (free_controllers-Freed cs f.bound d' f.below f.held)
            λ _ d'' (g, device, all).
              let both = Freed-then f g in
              (
                record {
                  bound = both.bound;
                  below = both.below;
                  held = both.held;
                  counter = both.counter;
                  serial = both.serial;
                  namespaces = both.namespaces;
                  controllers = both.controllers;
                  gone = both.gone;
                },
                device ∙ ap (detach_all cs) same,
                (g.gone c.addr dead, all),
              ))

  pub cleanup_unfold :
      (d : Driver Dev) {ns : List NsEntry}
      → d.g_namespaces ≡ ns
      → cleanup lib grants d
        ≡ and_then
            (free_namespaces lib grants ns d)
            (λ _. free_controllers lib grants d.g_controllers)
  unfolding cleanup
  cleanup_unfold d e =
      ap
        (λ ns.
          and_then (free_namespaces lib grants ns d)
            (λ _. free_controllers lib grants d.g_controllers))
        e

  -- The entries have been released, and are still listed, a first namespace `n` among them.
  pub record Cleaned (n : NsEntry) (d d' : Driver Dev) : Type 0 where
    pub counter : d'.memory.allocated_mem_size ≡ d.memory.allocated_mem_size
    pub serial : d'.memory.serial ≡ d.memory.serial
    pub namespaces : d'.g_namespaces ≡ d.g_namespaces
    pub controllers : d'.g_controllers ≡ d.g_controllers
    pub gone : is_live n.addr d'.memory.live ≡ false
    pub released : Released d.device d'

  -- `cleanup` of lists whose entries are live, each in a block of its own, returns, and has released
  -- them all.
  pub cleanup-Returns :
      (d : Driver Dev) (bound : ℕ)
      → Below bound d.memory.live
      → Holding (namespace_addrs d.g_namespaces ++ controller_addrs d.g_controllers) d.memory.live
      → Returns
          (λ _ d'.
            (d'.memory.allocated_mem_size ≡ d.memory.allocated_mem_size)
            × (d'.memory.serial ≡ d.memory.serial)
            × (d'.g_namespaces ≡ d.g_namespaces)
            × (d'.g_controllers ≡ d.g_controllers)
            × Released d.device d')
          (cleanup lib grants d)
  unfolding cleanup
  cleanup-Returns d bound below held =
      Returns-bind
        (free_namespaces-Freed d.g_namespaces (controller_addrs d.g_controllers) bound d below held)
        λ _ d' (f, same, first).
          Returns-weaken (free_controllers-Freed d.g_controllers f.bound d' f.below f.held)
            λ _ d'' (g, device, second).
              let namespaces = g.namespaces ∙ f.namespaces in
              let controllers = g.controllers ∙ f.controllers in
              (
                g.counter ∙ f.counter,
                g.serial ∙ f.serial,
                namespaces,
                controllers,
                record {
                  device = rw controllers (device ∙ ap (detach_all d.g_controllers) same);
                  entries =
                      rw (namespaces, controllers)
                        (AllGone-append (namespace_addrs d.g_namespaces)
                          (controller_addrs d.g_controllers) d''.memory.live
                          (AllGone-later (namespace_addrs d.g_namespaces) d'.memory.live
                            d''.memory.live g.gone first)
                          second);
                },
              )

  pub cleanup-Cleaned :
      (d : Driver Dev) (n : NsEntry) (others : List NsEntry) (bound : ℕ)
      → d.g_namespaces ≡ n ∷ others
      → Below bound d.memory.live
      → Holding (namespace_addrs (n ∷ others) ++ controller_addrs d.g_controllers) d.memory.live
      → Returns (λ _ d'. Cleaned n d d') (cleanup lib grants d)
  cleanup-Cleaned d n others bound chosen below held =
      Returns-weaken
        (cleanup-Returns d bound below (
          subst
            (λ ns. Holding (namespace_addrs ns ++ controller_addrs d.g_controllers) d.memory.live)
            (sym chosen) held))
        λ _ d' (counter, serial, namespaces, controllers, released).
          let all =
            subst
              (λ ns.
                AllGone (namespace_addrs ns ++ controller_addrs d'.g_controllers) d'.memory.live)
              (namespaces ∙ chosen) released.entries in
          record {
            counter = counter;
            serial = serial;
            namespaces = namespaces;
            controllers = controllers;
            gone = all.0;
            released = released;
          }
