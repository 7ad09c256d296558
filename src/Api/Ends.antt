-- ===== src/Api/Ends.antt =====
-- `tx_begin` of src/txd_api.c: a predicate on the lists and the blocks of memory that the calls of
-- src/txd_spdk.c keep, when it has returned.
use tx_driver.Api.{
  begin_params, begin_out_1, begin_out_2, begin_journal, begin_superblock, begin_read,
  wipe_unless_needed, tx_begin, with_journal,
}
use tx_driver.Base.{
  ◌*◌, ℕ, ◌<◌, ◌^◌, ◌≡◌, refl, false, Option, none, some, List, [], ◌∷◌, arith, ◌==◌, Outcome, ok,
  aborted, exited, fault, blocked, Cmd, and_then, pure, IfReturns, IfReturns-bind, ◌∙◌, IfOk,
  IfOk-bind, IfOk-state, IfOk-Returns, Bool-cases, inl, inr,
}
use tx_driver.Journal.Defs.{Journal}
use tx_driver.Journal.Load.{txd_journal_load, txd_journal_need_recovery, txd_journal_destroy}
use tx_driver.Journal.Create.{txd_get_journal}
use tx_driver.Journal.Ready.{CreateResult, get_journal-CreateResult}
use tx_driver.Api.Behind.{Behind, Behind-Quiet, Behind-Kept, free_buffer, IsReady-Kept}
use tx_driver.Api.Begin.{on_memory-Returns}
use tx_driver.Malloc.{Grants, libc, txd_calloc}
use tx_driver.Ondisk.{Superblock, chk_txd_sb, txd_fail, sizeof_superblock}
use tx_driver.Ondisk.Layout.{from_bytes}
use tx_driver.Revoke.{ListHeads}
use tx_driver.Spdk.Busy.{with_qpair_keeps, Quiet, spdk_read-Quiet}
use tx_driver.Spdk.Kept.{Kept, Idle}
use tx_driver.Spdk.Library.{Library}
use tx_driver.Spdk.Probe.{spdk_free, cleanup}
use tx_driver.Spdk.State.{first_of_list, Driver, NsEntry, on_memory, first_namespace, is_live}
use tx_driver.Spdk.Transfer.{spdk_read}

module _ (lib : Library) (grants : Grants) (P : Driver lib.Dev → Type 0)
    (kept : Kept lib grants P) where
  open lib use {Dev}

  -- What a `tx_begin` that returned has done: with a journal, `P` holds after it; with NULL, it held
  -- before the `cleanup` that came last, with a namespace on the list.
  abbrev pub Ends : {Head : Type 0} → Option (Journal Head) → Driver Dev → Type 0
  Ends none d' =
      (d : Driver Dev) × (n : NsEntry) × (others : List NsEntry) × P d
      × (d.g_namespaces ≡ n ∷ others)
      × (cleanup lib grants d ≡ ok tt d')
  Ends (some j) d' = P d'

  -- A driver in which `P` holds, with a namespace on the list.
  abbrev Open : Driver Dev → Type 0
  Open d = P d × ((n : NsEntry) × (others : List NsEntry) × (d.g_namespaces ≡ n ∷ others))

  first_of_list-Open :
      (ns : List NsEntry) (d : Driver Dev)
      → d.g_namespaces ≡ ns
      → P d
      → IfReturns Open (first_of_list ns d)
  first_of_list-Open [] d listed s = tt
  first_of_list-Open (n ∷ others) d listed s = elim (Bool-cases (is_live n.addr d.memory.live)) [
    | inl live ↦ rw live (s, (n, others, listed))
    | inr dead ↦ rw dead tt
  ]

  -- `spdk_free` that returned has found a namespace.
  spdk_free-Open : (d : Driver Dev) → P d → IfReturns Open (spdk_free lib grants d)
  unfolding spdk_free first_namespace
  spdk_free-Open d s =
      IfReturns-bind Open Open _ _ (first_of_list-Open d.g_namespaces d refl s) λ n d' (s', listed).
        with_qpair_keeps lib grants Open n.qpair _ d'
          λ q. (kept.stable.device d' (lib.free_io_qpair d'.device q).1 s', listed)

  module _ (patience : ℕ) (lists : ListHeads) (garbage : Journal lists.Head) (spawn : ℕ) where
    open lists use {Head}

    cleaned-Ends :
        (d : Driver Dev) (r : Outcome (Driver Dev) (Unit {0}))
        → cleanup lib grants d ≡ r
        → Open d
        → IfOk Ends (and_then r (λ _. pure {A = Option (Journal Head)} none))
    cleaned-Ends d (ok done d') e (s, (n, others, listed)) = (d, n, others, s, listed, e)
    cleaned-Ends d (exited n) e o = tt
    cleaned-Ends d aborted e o = tt
    cleaned-Ends d fault e o = tt
    cleaned-Ends d blocked e o = tt

    cleanup-Ends :
        (d : Driver Dev)
        → Open d
        → IfOk Ends (and_then (cleanup lib grants d) (λ _. pure {A = Option (Journal Head)} none))
    cleanup-Ends d o = cleaned-Ends d (cleanup lib grants d) refl o

    out_1-Ends :
        (d : Driver Dev) → P d → IfOk Ends (begin_out_1 lib grants patience lists garbage spawn d)
    unfolding begin_out_1
    out_1-Ends d s =
        IfOk-bind (λ _. Open) Ends (spdk_free lib grants d) _
          (IfOk-state Open (spdk_free lib grants d) (spdk_free-Open d s))
          (λ err d₁ o. elim (Bool-cases (err == txd_fail)) [
            | inl failed ↦ rw failed tt
            | inr released ↦ rw released (cleanup-Ends d₁ o)
          ])

    out_2-Ends :
        (d d' : Driver Dev)
        → P d
        → Behind d d'
        → IfOk Ends (begin_out_2 lib grants patience lists garbage spawn d.memory.serial d')
    unfolding begin_out_2
    out_2-Ends d d' s b =
        IfOk-bind (λ _. Idle d) Ends _ _
          (IfOk-state (Idle d) _ (free_buffer (sizeof_superblock * 1) d d' b))
          (λ _ d₁ i. out_1-Ends d₁ (kept.idle i s))

    loaded-Ends :
        (r : Outcome (Journal Head) ℕ) (d : Driver Dev)
        → P d
        → IfOk Ends (and_then (with_journal r d) (λ (err, j). pure (some j)))
    loaded-Ends (ok err j) d s = s
    loaded-Ends (exited n) d s = tt
    loaded-Ends aborted d s = tt
    loaded-Ends fault d s = tt
    loaded-Ends blocked d s = tt

    -- The label out3 is not reached: the journal is taken to need a recovery.
    begin_journal-Ends :
        (buf err : ℕ) (j : Journal Head) (d : Driver Dev)
        → (err == txd_fail) ≡ false
        → P d
        → IfOk Ends (begin_journal lib grants patience lists garbage spawn buf err j d)
    unfolding begin_journal wipe_unless_needed txd_journal_need_recovery txd_journal_destroy
    begin_journal-Ends buf err j d fine s =
        rw fine (loaded-Ends (txd_journal_load Head spawn j) d s)

    -- What `txd_get_journal` leaves, in the driver.
    abbrev Created : Superblock → Driver Dev → Option (Journal Head) → Driver Dev → Type 0
    Created sb d o d' =
        CreateResult lists garbage grants sb d.memory o d'.memory
        × (d' ≡ record d { memory = d'.memory })

    txd_get_journal-Ends :
        (err : ℕ) (sb : Superblock) (d d₁ : Driver Dev) (o : Option (Journal Head))
        (d' : Driver Dev)
        → (err == txd_fail) ≡ false
        → P d
        → Behind d d₁
        → Created sb d₁ o d'
        → IfOk Ends (
            (elim o as (λ _. Cmd (Driver Dev) (Option (Journal Head))) [
              | none ↦ begin_out_2 lib grants patience lists garbage spawn d.memory.serial
              | some j ↦ begin_journal lib grants patience lists garbage spawn d.memory.serial err j
            ])
              d')
    txd_get_journal-Ends err sb d d₁ none d' fine s b ((back, _), same) =
        out_2-Ends d d' s (record {
          live = back.live ∙ b.live;
          serial = omega (arith, b.serial, back.serial);
          namespaces = rw same b.namespaces;
          controllers = rw same b.controllers;
        })
    txd_get_journal-Ends err sb d d₁ (some j) d' fine s b (r, same) =
        begin_journal-Ends d.memory.serial err j d' fine (
          IsReady-Kept lib grants P kept lists garbage sb j d₁ d' r same
            (Behind-Kept lib grants P kept d d₁ b s))

    begin_superblock-Ends :
        (err txd_size : ℕ) (sb : Superblock) (d d₁ : Driver Dev)
        → (err == txd_fail) ≡ false
        → d₁.memory.allocated_mem_size < 2 ^ 64
        → P d
        → Behind d d₁
        → IfOk Ends (
            begin_superblock lib grants patience lists garbage spawn d.memory.serial err txd_size sb
              d₁)
    unfolding begin_superblock
    begin_superblock-Ends err txd_size sb d d₁ fine small s b =
        elim (Bool-cases (chk_txd_sb sb txd_size == 0)) [
          | inr refused ↦ rw refused (out_2-Ends d d₁ s b)
          | inl accepted ↦ rw accepted (
              IfOk-bind (Created sb d₁) Ends
                (on_memory (txd_get_journal lists garbage grants sb) d₁) _
                (IfOk-Returns (
                  on_memory-Returns lib grants patience lists garbage
                    (txd_get_journal lists garbage grants sb) d₁
                    (get_journal-CreateResult lists garbage grants sb d₁.memory small)))
                (λ o d' made. txd_get_journal-Ends err sb d d₁ o d' fine s b made))
        ]

    begin_read-Ends :
        (txd_addr txd_size : ℕ) (d d₁ : Driver Dev)
        → d₁.memory.allocated_mem_size < 2 ^ 64
        → P d
        → Behind d d₁
        → IfOk Ends (
            begin_read lib grants patience lists garbage spawn txd_addr txd_size d.memory.serial d₁)
    unfolding begin_read
    begin_read-Ends txd_addr txd_size d d₁ small s b =
        IfOk-bind (λ _. Quiet d₁) Ends (spdk_read lib grants patience (begin_params txd_addr) d₁) _
          (IfOk-state (Quiet d₁) _ (spdk_read-Quiet lib grants patience (begin_params txd_addr) d₁))
          (λ (err, params) d₂ quiet.
            let b₂ = Behind-Quiet b quiet in
            elim (Bool-cases (err == txd_fail)) [
              | inl failed ↦ rw failed (out_2-Ends d d₂ s b₂)
              | inr fine ↦ rw fine (
                  begin_superblock-Ends err txd_size (from_bytes params.buf) d d₂ fine
                    (omega (arith, small, quiet.counter)) s b₂)
            ])

    pub tx_begin-Ends :
        (txd_addr txd_size : ℕ) (d : Driver Dev)
        → P d
        → IfOk Ends (tx_begin lib grants patience lists garbage spawn txd_addr txd_size d)
    unfolding tx_begin txd_calloc on_memory
    tx_begin-Ends txd_addr txd_size d s =
        elim (Bool-cases (grants libc d.memory.serial (1 * sizeof_superblock))) [
          | inr refused ↦ rw refused (
              out_1-Ends _ (
                kept.idle
                  (record {
                    live = refl;
                    serial = omega arith;
                    namespaces = refl;
                    controllers = refl;
                  })
                  s))
          | inl granted ↦ rw granted (
              begin_read-Ends txd_addr txd_size d _ (omega arith) s (record {
                live = refl;
                serial = omega arith;
                namespaces = refl;
                controllers = refl;
              }))
        ]
