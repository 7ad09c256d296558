-- ===== src/Api/Refusals.antt =====
-- Any calls of src/txd_api.c, and of the access functions of src/txd_spdk.c, one after another in one
-- process.
use tx_driver.Api.{tx_format, tx_begin}
use tx_driver.Api.Ends.{Ends, tx_begin-Ends}
use tx_driver.Api.FormatKept.{tx_format-Kept}
use tx_driver.Base.{
  ℕ, ◌+◌, ◌≡◌, refl, subst, fault, Returns, Returns-weaken, Option, none, some, [], ◌⊎◌, inl, inr,
  ok, IfOk-value, arith,
}
use tx_driver.Journal.Defs.{Journal}
use tx_driver.Malloc.{Grants}
use tx_driver.Revoke.{ListHeads}
use tx_driver.Spdk.Doomed.{Dangles, Dangles-Stable, cleanup-Dangles, cleaned-Dangles}
use tx_driver.Spdk.Held.{Below}
use tx_driver.Spdk.Kept.{IsSound-Kept, Dangles-Kept}
use tx_driver.Spdk.Library.{Library}
use tx_driver.Spdk.Cleanup.{cleanup-Returns}
use tx_driver.Spdk.Probe.{cleanup}
use tx_driver.Spdk.Session.{Call, call-Stable, empty-IsSound}
use tx_driver.Spdk.Sound.{IsSound, IsSound-Stable}
use tx_driver.Spdk.State.{Driver}

module _ (lib : Library) (grants : Grants) (patience : ℕ) (lists : ListHeads) where
  open lib use {Dev}
  open lists use {Head}

  -- A call that returned, and with what. What `malloc` hands out and whether a thread starts differ from
  -- call to call.
  pub data ApiCall (d d' : Driver Dev) : Type 0 where
    formatted :
        (txd_addr txd_size rc : ℕ)
        → tx_format lib grants txd_addr txd_size d ≡ ok rc d'
        → ApiCall d d'
    accessed : Call lib grants patience d d' → ApiCall d d'
    begun :
        (garbage : Journal Head) (spawn txd_addr txd_size : ℕ) (o : Option (Journal Head))
        → tx_begin lib grants patience lists garbage spawn txd_addr txd_size d ≡ ok o d'
        → ApiCall d d'

  pub data ApiCalls (d : Driver Dev) : Driver Dev → Type 0 where
    started : ApiCalls d d
    called : {d' d'' : Driver Dev} → ApiCalls d d' → ApiCall d' d'' → ApiCalls d d''

  abbrev null : Option (Journal Head) → ℕ
  null none = 1
  null (some j) = 0

  -- The calls of `tx_begin` that returned NULL.
  unfoldable pub refused : {d d' : Driver Dev} → ApiCall d d' → ℕ
  refused (formatted txd_addr txd_size rc run) = 0
  refused (accessed call) = 0
  refused (begun garbage spawn txd_addr txd_size o run) = null o

  unfoldable pub refusals : {d d' : Driver Dev} → ApiCalls d d' → ℕ
  refusals started = 0
  refusals (called before call) = refusals before + refused call

  -- The entries are live until the first refusal; after it one that was given back is listed.
  abbrev After : ℕ → Driver Dev → Type 0
  After times d =
      ((times ≡ 0) × IsSound lib grants d) ⊎ ((times ≡ 1) × ((p : ℕ) × Dangles lib grants p d))

  module _ (garbage : Journal Head) (spawn txd_addr txd_size : ℕ) (d d' : Driver Dev) where
    -- The first refusal.
    begun-After :
        (o : Option (Journal Head))
        → IsSound lib grants d
        → Ends lib grants (IsSound lib grants) (IsSound-Kept lib grants) o d'
        → After (null o) d'
    begun-After none s (d₁, n, others, s₁, listed, run) =
        inr (refl, (n.addr, cleaned-Dangles lib grants n others d₁ d' s₁ listed run))
    begun-After (some j) s s' = inl (refl, s')

    -- There is no second one.
    begun-Dangles :
        (p : ℕ) (o : Option (Journal Head))
        → Ends lib grants (Dangles lib grants p) (Dangles-Kept lib grants p) o d'
        → (null o ≡ 0) × Dangles lib grants p d'
    begun-Dangles p none (d₁, n, others, s₁, listed, run) =
        absurd (cc (run, cleanup-Dangles lib grants p d₁ s₁))
    begun-Dangles p (some j) s = (refl, s)

  sound_call : {d d' : Driver Dev} (c : ApiCall d d') → IsSound lib grants d → After (refused c) d'
  unfolding refused
  sound_call {d} {d'} (formatted txd_addr txd_size rc run) s = inl (
    refl,
    tx_format-Kept lib grants (IsSound lib grants) (IsSound-Kept lib grants) txd_addr txd_size rc d
        d' s run,
  )
  sound_call {d} {d'} (accessed call) s = inl (
    refl,
    call-Stable lib grants patience (IsSound lib grants) (IsSound-Stable lib grants) s call,
  )
  sound_call {d} {d'} (begun garbage spawn txd_addr txd_size o run) s =
      begun-After garbage spawn txd_addr txd_size d d' o s (
        IfOk-value _
          (tx_begin-Ends lib grants (IsSound lib grants) (IsSound-Kept lib grants) patience lists
            garbage spawn txd_addr txd_size d s)
          run)

  dangling_call :
      {d d' : Driver Dev} (p : ℕ) (c : ApiCall d d')
      → Dangles lib grants p d
      → (refused c ≡ 0) × Dangles lib grants p d'
  unfolding refused
  dangling_call {d} {d'} p (formatted txd_addr txd_size rc run) s = (
    refl,
    tx_format-Kept lib grants (Dangles lib grants p) (Dangles-Kept lib grants p) txd_addr txd_size
        rc d d' s run,
  )
  dangling_call {d} {d'} p (accessed call) s = (
    refl,
    call-Stable lib grants patience (Dangles lib grants p) (Dangles-Stable lib grants p) s call,
  )
  dangling_call {d} {d'} p (begun garbage spawn txd_addr txd_size o run) s =
      begun-Dangles garbage spawn txd_addr txd_size d d' p o (
        IfOk-value _
          (tx_begin-Ends lib grants (Dangles lib grants p) (Dangles-Kept lib grants p) patience
            lists garbage spawn txd_addr txd_size d s)
          run)

  then_call :
      {d d' : Driver Dev} (times : ℕ) (c : ApiCall d d')
      → After times d
      → After (times + refused c) d'
  then_call {d} {d'} times c (inl (first, s)) =
      subst (λ k. After k d') (omega (arith, first)) (sound_call c s)
  then_call times c (inr (second, (p, s))) =
      let (same, s') = dangling_call p c s in inr (omega (arith, second, same), (p, s'))

  calls-After :
      {d d' : Driver Dev} (cs : ApiCalls d d') → IsSound lib grants d → After (refusals cs) d'
  unfolding refusals
  calls-After started s = inl (refl, s)
  calls-After (called before call) s = then_call (refusals before) call (calls-After before s)

  -- From a driver with empty lists in a well-formed memory, whatever the device and the allocators do:
  -- among any calls that return, one after another, of `tx_format`, of `tx_begin` and of the access
  -- functions, `spdk_init` with success, but not `cleanup`, either no `tx_begin` returns NULL, and a
  -- `cleanup` after them returns with the counter as it was, or exactly one does, and a `cleanup` after
  -- them is a fault.
  pub one_refusal :
      {d d' : Driver Dev} (cs : ApiCalls d d')
      → d.g_namespaces ≡ []
      → d.g_controllers ≡ []
      → Below d.memory.serial d.memory.live
      → ((refusals cs ≡ 0)
          × Returns
              (λ _ e. e.memory.allocated_mem_size ≡ d'.memory.allocated_mem_size)
              (cleanup lib grants d'))
        ⊎ ((refusals cs ≡ 1) × (cleanup lib grants d' ≡ fault))
  one_refusal {d} {d'} cs nss css below =
      elim (calls-After cs (empty-IsSound lib grants patience d nss css below)) [
        | inl (none_yet, s) ↦ inl (
          none_yet,
          Returns-weaken (cleanup-Returns lib grants d' d'.memory.serial s.below s.held)
              λ _ e (counter, _, _, _, _). counter,
        )
        | inr (once, (p, s)) ↦ inr (once, cleanup-Dangles lib grants p d' s)
      ]
