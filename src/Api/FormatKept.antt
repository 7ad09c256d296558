-- ===== src/Api/FormatKept.antt =====
-- `tx_format` of src/txd_api.c keeps the predicates on the lists and the blocks of memory that the calls
-- of src/txd_spdk.c keep.
use tx_driver.Api.{txd_chk_fail, tx_format}
use tx_driver.Base.{
  and_then_ok, ℕ, ◌≡◌, refl, subst, false, none, some, arith, ◌==◌, ok, aborted, and_then, pure,
  IfReturns, IfReturns-ok, Bool-cases, inl, inr,
}
use tx_driver.Malloc.{txd_zmalloc_spdk, txd_free_spdk, Grants, spdk}
use tx_driver.Ondisk.{txd_fail, txd_success, sizeof_superblock}
use tx_driver.Spdk.Kept.{Kept}
use tx_driver.Spdk.Library.{Library}
use tx_driver.Spdk.Probe.{
  attach_all, check_probe, no_controllers, spdk_init, spdk_alloc_qpair, cleanup,
}
use tx_driver.Spdk.Stable.{spdk_init-Stable, spdk_alloc_qpair-Stable}
use tx_driver.Spdk.State.{Driver, on_memory, on_memory_ok}
use tx_driver.Malloc.Accounting.{free_steps}
use tx_driver.Malloc.Owned.{spdk_block, allocated, zmalloc_granted, zmalloc_refused, take_back-head}

module _ (lib : Library) (grants : Grants) (P : Driver lib.Dev → Type 0)
    (kept : Kept lib grants P) where
  open lib use {Dev}

  -- The buffer of `tx_format` is taken and given back.
  format_buffer-Kept :
      (err : ℕ) (d : Driver Dev)
      → P d
      → IfReturns P (
          and_then (on_memory (txd_zmalloc_spdk grants sizeof_superblock) d) (elim [
            | none ↦ λ d. aborted
            | some p ↦ λ d'.
                and_then (on_memory (txd_free_spdk (some p) sizeof_superblock) d') (λ _. pure err)
          ]))
  format_buffer-Kept err d s =
      let m = d.memory in
      elim (Bool-cases (grants spdk m.serial sizeof_superblock)) [
        | inr refused ↦
            rw (on_memory_ok _ d (zmalloc_refused grants sizeof_superblock m refused)) tt
        | inl granted ↦ rw (on_memory_ok _ d (zmalloc_granted grants sizeof_superblock m granted)) (
            rw
              (on_memory_ok _ (record d { memory = allocated grants sizeof_superblock m })
                (free_steps spdk m.serial sizeof_superblock (allocated grants sizeof_superblock m)
                  m.live (take_back-head (spdk_block m.serial sizeof_superblock) m.live)))
              (kept.idle
                (record {
                  live = refl;
                  serial = omega arith;
                  namespaces = refl;
                  controllers = refl;
                })
                s))
      ]

  ok_value : {A : Type 0} {a b : A} {d d' : Driver Dev} → ok a d ≡ ok b d' → b ≡ a
  ok_value e = cc

  closed_fails :
      (r : ℕ) (d d' : Driver Dev)
      → and_then (cleanup lib grants d) (λ _. ok txd_fail) ≡ ok r d'
      → (r == txd_fail) ≡ false
      → ⊥
  closed_fails r d d' e passed =
      let (_, _, _, failed) = and_then_ok (cleanup lib grants d) _ e in
      let same : r ≡ txd_fail = cc in ground (arith, same, passed)

  check_probe_success :
      (rc r : ℕ) (d d' : Driver Dev)
      → check_probe lib grants rc d ≡ ok r d'
      → (r == txd_fail) ≡ false
      → r ≡ txd_success
  unfolding check_probe
  check_probe_success rc r d d' e passed = elim (Bool-cases (rc == 0)) [
    | inr failed ↦ absurd (closed_fails r d d' (rw failed at e) passed)
    | inl probed ↦ elim (Bool-cases (no_controllers lib grants d)) [
      | inl nothing ↦ absurd (closed_fails r d d' (rw (probed, nothing) at e) passed)
      | inr found ↦ ok_value (rw (probed, found) at e)
    ]
  ]

  spdk_init_success :
      (d d' : Driver Dev) (r : ℕ)
      → spdk_init lib grants d ≡ ok r d'
      → (r == txd_fail) ≡ false
      → r ≡ txd_success
  unfolding spdk_init
  spdk_init_success d d' r e passed =
      let (rc, found, dev) = lib.probe d.device in
      let (_, d₁, _, checked) =
        and_then_ok (attach_all lib grants found (record d { device = dev })) _ e in
      check_probe_success rc r d₁ d' checked passed

  -- A result of `spdk_init` that `TXD_CHK_FAIL` lets through is a success.
  spdk_init-Kept :
      (d d' : Driver Dev) (r : ℕ)
      → P d
      → spdk_init lib grants d ≡ ok r d'
      → (r == txd_fail) ≡ false
      → P d'
  spdk_init-Kept d d' r s e passed =
      spdk_init-Stable lib grants P kept.stable d d' s
        (subst (λ r'. spdk_init lib grants d ≡ ok r' d') (spdk_init_success d d' r e passed) e)

  ok_state : {A : Type 0} {a b : A} {d d' : Driver Dev} → ok a d ≡ ok b d' → d ≡ d'
  ok_state e = cc

  stopped : {A : Type 0} {a : A} {d : Driver Dev} → aborted ≡ ok a d → ⊥
  stopped e = cc

  chk_fail_passed :
      (r : ℕ) (d d' : Driver Dev) (u : Unit {0})
      → txd_chk_fail r d ≡ ok u d'
      → ((r == txd_fail) ≡ false) × (d ≡ d')
  chk_fail_passed r d d' u e = elim (Bool-cases (r == txd_fail)) [
    | inl failed ↦ absurd (stopped (rw failed at e))
    | inr passed ↦ (passed, ok_state (rw passed at e))
  ]

  pub tx_format-Kept :
      (txd_addr txd_size rc : ℕ) (d d' : Driver Dev)
      → P d
      → tx_format lib grants txd_addr txd_size d ≡ ok rc d'
      → P d'
  unfolding tx_format
  tx_format-Kept txd_addr txd_size rc d d' s e =
      let (r, d₁, init, rest) = and_then_ok (spdk_init lib grants d) _ e in
      let (u, d₂, checked, rest₂) = and_then_ok (txd_chk_fail r d₁) _ rest in
      let (passed, same) = chk_fail_passed r d₁ d₂ u checked in
      let (err, d₃, queued, rest₃) = and_then_ok (spdk_alloc_qpair lib grants d₂) _ rest₂ in
      let (u', d₄, checked₂, rest₄) = and_then_ok (txd_chk_fail err d₃) _ rest₃ in
      let s₂ : P d₂ = subst P same (spdk_init-Kept d d₁ r s init passed) in
      let s₃ : P d₃ =
        IfReturns-ok P (spdk_alloc_qpair-Stable lib grants P kept.stable d₂ s₂) queued in
      let s₄ : P d₄ = subst P (chk_fail_passed err d₃ d₄ u' checked₂).1 s₃ in
      IfReturns-ok P (format_buffer-Kept err d₄ s₄) rest₄
