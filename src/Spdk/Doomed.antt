-- ===== src/Spdk/Doomed.antt =====
-- After `cleanup` of src/txd_spdk.c the globals still list entries that were given back. What that
-- means for the calls that come later, a second `spdk_init` among them.
use tx_driver.Base.{
  ℕ, ◌<◌, ◌≡◌, refl, sym, subst, false, some, none, List, [], ◌∷◌, ◌++◌, arith, ok, fault,
  Option-cases, Bool-cases, inl, inr, ◌∙◌, Returns-value,
}
use tx_driver.Malloc.{Grants, Block, libc, take_back, give_back}
use tx_driver.Malloc.Owned.{give_back_found}
use tx_driver.Spdk.Cleanup.{namespace_addrs, cleanup_unfold, controller_addrs, cleanup-Cleaned}
use tx_driver.Spdk.Held.{take_back_gone, with_entry, Below, Holding, one_more, taken-Below}
use tx_driver.Spdk.Library.{Library}
use tx_driver.Spdk.Probe.{cleanup, free_namespaces}
use tx_driver.Spdk.Session.{Session, session-Stable, session-IsSound, empty-IsSound}
use tx_driver.Spdk.Sound.{IsSound, set_qpair_addrs}
use tx_driver.Spdk.Stable.{Stable}
use tx_driver.Spdk.State.{Driver, NsEntry, is_live, follow, on_memory, on_memory_ok}

-- An address that is on the list.
pub data Listed (p : ℕ) : List ℕ → Type 0 where
  here : {ps : List ℕ} → Listed p (p ∷ ps)
  further : {q : ℕ} {ps : List ℕ} → Listed p ps → Listed p (q ∷ ps)

module _ (lib : Library) (grants : Grants) where
  open lib use {Dev}

  -- A namespace is listed whose entry was given back. Its address is one of an earlier request.
  pub record Dangles (p : ℕ) (d : Driver Dev) : Type 0 where
    pub listed : Listed p (namespace_addrs d.g_namespaces)
    pub dead : is_live p d.memory.live ≡ false
    pub old : p < d.memory.serial

  -- A new entry has another address.
  entry_dead :
      (p size : ℕ) (d : Driver Dev)
      → p < d.memory.serial
      → is_live p d.memory.live ≡ false
      → is_live p (with_entry size d.memory).live ≡ false
  unfolding is_live
  entry_dead p size d old dead = ground arith

  pub Dangles-Stable : (p : ℕ) → Stable lib grants (Dangles p)
  Dangles-Stable p = record {
    device = λ d dev s. record { listed = s.listed; dead = s.dead; old = s.old };
    namespace = λ d ctrlr ns s. record {
      listed = further s.listed;
      dead = entry_dead p _ d s.old s.dead;
      old = omega (arith, s.old);
    };
    controller = λ d ctrlr s. record {
      listed = s.listed;
      dead = entry_dead p _ d s.old s.dead;
      old = omega (arith, s.old);
    };
    qpair = λ d q dev s. record {
      listed = subst (Listed p) (sym (set_qpair_addrs lib grants q d.g_namespaces)) s.listed;
      dead = s.dead;
      old = s.old;
    };
    transfer = λ {d} {d'} q s. record {
      listed = rw q.namespaces s.listed;
      dead = rw q.live s.dead;
      old = omega (arith, q.serial, s.old);
    };
  }

  free_missing :
      (q : ℕ) (d : Driver Dev)
      → take_back libc q d.memory.live ≡ none
      → on_memory (give_back libc (some q)) d ≡ fault
  unfolding on_memory give_back
  free_missing q d e = rw (e, give_back)

  -- The loop over the namespaces comes to it, and follows it.
  free_namespaces-Dangles :
      (p : ℕ) (ns : List NsEntry) (d : Driver Dev)
      → Listed p (namespace_addrs ns)
      → is_live p d.memory.live ≡ false
      → free_namespaces lib grants ns d ≡ fault
  unfolding free_namespaces follow
  free_namespaces-Dangles p [] d l dead = elim l [ ]
  free_namespaces-Dangles p (n ∷ ns) d here dead = rw dead
  free_namespaces-Dangles p (n ∷ ns) d (further l) dead =
      elim (Bool-cases (is_live n.addr d.memory.live)) [
        | inr gone ↦ rw gone
        | inl live ↦ elim (Option-cases (take_back libc n.addr d.memory.live)) [
          | inl missing ↦ rw live (rw (free_missing n.addr d missing) refl)
          | inr (rest, taken) ↦ rw live (
              rw (on_memory_ok _ d (give_back_found libc n.addr d.memory taken)) (
                free_namespaces-Dangles p ns
                  (record d { memory = record (d.memory) { live = rest } }) l
                  (take_back_gone p n.addr d.memory.live taken dead)))
        ]
      ]

  pub cleanup-Dangles : (p : ℕ) (d : Driver Dev) → Dangles p d → cleanup lib grants d ≡ fault
  cleanup-Dangles p d s =
      cleanup_unfold lib grants d refl
      ∙ rw (free_namespaces-Dangles p d.g_namespaces d s.listed s.dead) refl

  -- Whatever calls return after that, `cleanup` is a fault.
  session-Dangles :
      (patience p : ℕ) {d d' : Driver Dev}
      → Dangles p d
      → Session lib grants patience d d'
      → cleanup lib grants d' ≡ fault
  session-Dangles patience p {d} {d'} s session =
      cleanup-Dangles p d'
        (session-Stable lib grants patience (Dangles p) (Dangles-Stable p) s session)

  first_taken :
      (p bound : ℕ) {ps : List ℕ} (bs : List Block)
      → Below bound bs
      → Holding (p ∷ ps) bs
      → p < bound
  first_taken p bound bs below (one_more taken held) = taken-Below p bound bs below taken

  -- `cleanup` of a sound driver with a namespace on the list leaves it listed.
  pub cleaned-Dangles :
      (n : NsEntry) (others : List NsEntry) (d d' : Driver Dev)
      → IsSound lib grants d
      → d.g_namespaces ≡ n ∷ others
      → cleanup lib grants d ≡ ok tt d'
      → Dangles n.addr d'
  cleaned-Dangles n others d d' s chosen run =
      let held =
        subst (λ ns. Holding (namespace_addrs ns ++ controller_addrs d.g_controllers) d.memory.live)
          chosen s.held in
      let old : n.addr < d.memory.serial =
        first_taken n.addr d.memory.serial d.memory.live s.below held in
      let c =
        Returns-value (cleanup-Cleaned lib grants d n others d.memory.serial chosen s.below held)
          run in
      record {
        listed = rw (c.namespaces, chosen) here;
        dead = c.gone;
        old = omega (arith, old, c.serial);
      }

  -- From a driver with empty lists in a well-formed memory: after any calls that return of `spdk_init`
  -- with success, `spdk_alloc_qpair`, `spdk_write`, `spdk_read` and `spdk_free`, with a namespace on the
  -- list, after `cleanup`, and after any more of these calls, `spdk_init` among them, whatever the device
  -- and the allocators do, a second `cleanup` is a fault, since it follows the entries of the first session.
  pub second_session-faults :
      (patience : ℕ) {d₀ d d' d'' : Driver Dev} (n : NsEntry) (others : List NsEntry)
      → d₀.g_namespaces ≡ []
      → d₀.g_controllers ≡ []
      → Below d₀.memory.serial d₀.memory.live
      → Session lib grants patience d₀ d
      → d.g_namespaces ≡ n ∷ others
      → cleanup lib grants d ≡ ok tt d'
      → Session lib grants patience d' d''
      → cleanup lib grants d'' ≡ fault
  second_session-faults patience {d₀} {d} {d'} n others nss css below first chosen run second =
      let s =
        session-IsSound lib grants patience (empty-IsSound lib grants patience d₀ nss css below)
          first in
      session-Dangles patience n.addr (cleaned-Dangles n others d d' s chosen run) second
