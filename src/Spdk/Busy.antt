-- ===== src/Spdk/Busy.antt =====
-- `spdk_write` and `spdk_read` of src/txd_spdk.c leave the lists and the blocks of memory as they were,
-- whatever the device does.
use tx_driver.Base.{
  [], ℕ, zero, suc, ◌≡◌, refl, sym, subst, some, IfReturns, IfReturns-bind, and_then, take,
  Bool-cases, Option-cases, inl, inr, Cmd, ◌==◌, ◌∷◌, List,
}
use tx_driver.Malloc.{Grants, Memory, spdk, obtain, take_back, give_back}
use tx_driver.Malloc.Owned.{take_back-head, give_back_found}
use tx_driver.Ondisk.{txd_success}
use tx_driver.Spdk.Library.{Library}
use tx_driver.Spdk.Probe.{with_qpair}
use tx_driver.Spdk.State.{
  Driver, NsEntry, first_namespace, on_memory, on_memory_ok, Qpair, first_of_list, is_live,
}
use tx_driver.Spdk.Transfer.{
  Params, submit, poll, write_complete, read_complete, write_from, read_into, spdk_write, spdk_read,
}

-- One more transfer has come and gone.
pub record Quiet {Dev : Type 0} (d d' : Driver Dev) : Type 0 where
  pub live : d'.memory.live ≡ d.memory.live
  pub serial : d'.memory.serial ≡ suc d.memory.serial
  pub counter : d'.memory.allocated_mem_size ≡ d.memory.allocated_mem_size
  pub namespaces : d'.g_namespaces ≡ d.g_namespaces
  pub controllers : d'.g_controllers ≡ d.g_controllers

module _ (lib : Library) (grants : Grants) where
  open lib use {Dev}

  first_of_list_same :
      (ns : List NsEntry) (d : Driver Dev) → IfReturns (λ d'. d' ≡ d) (first_of_list ns d)
  first_of_list_same [] d = tt
  first_of_list_same (n ∷ ns) d = elim (Bool-cases (is_live n.addr d.memory.live)) [
    | inl live ↦ rw live refl
    | inr dead ↦ rw dead tt
  ]

  pub first_namespace_same : (d : Driver Dev) → IfReturns (λ d'. d' ≡ d) (first_namespace d)
  unfolding first_namespace
  first_namespace_same d = first_of_list_same d.g_namespaces d

  pub with_qpair_keeps :
      {A : Type 0} (P : Driver Dev → Type 0) (q : Qpair) (body : ℕ → Cmd (Driver Dev) A)
      (d : Driver Dev)
      → ((p : ℕ) → IfReturns P (body p d))
      → IfReturns P (with_qpair lib grants q body d)
  with_qpair_keeps P Qpair.unset body d h = tt
  with_qpair_keeps P Qpair.null body d h = tt
  with_qpair_keeps P (Qpair.at p) body d h = h p

module _ (lib : Library) (grants : Grants) (patience : ℕ) where
  open lib use {Dev}

  -- The memory with the DMA buffer.
  abbrev with_buffer : ℕ → Memory → Memory
  with_buffer size m = record m {
    live = record { addr = m.serial; bytes = size; source = spdk } ∷ m.live;
    serial = suc m.serial;
  }

  -- A transfer of `size` bytes is under way: only the device has changed.
  record Busy (size : ℕ) (d d' : Driver Dev) : Type 0 where
    memory : d'.memory ≡ with_buffer size d.memory
    namespaces : d'.g_namespaces ≡ d.g_namespaces
    controllers : d'.g_controllers ≡ d.g_controllers

  poll-Busy :
      (size fuel q : ℕ) (d d' : Driver Dev)
      → Busy size d d'
      → IfReturns (Busy size d) (poll lib grants patience fuel q d')
  unfolding poll
  poll-Busy size zero q d d' b = tt
  poll-Busy size (suc fuel) q d d' b = elim (Option-cases (lib.process_completions d'.device q).0) [
    | inl waiting ↦ rw waiting (
        poll-Busy size fuel q d (record d' { device = (lib.process_completions d'.device q).1 })
          (record { memory = b.memory; namespaces = b.namespaces; controllers = b.controllers }))
    | inr (bytes, done) ↦
        rw done
          (record { memory = b.memory; namespaces = b.namespaces; controllers = b.controllers })
  ]

  submit-Busy :
      (size rc : ℕ) (dev : Dev) (d d' : Driver Dev)
      → Busy size d d'
      → IfReturns (Busy size d) (submit lib grants patience (rc, dev) d')
  unfolding submit
  submit-Busy size rc dev d d' b = elim (Bool-cases (rc == txd_success)) [
    | inl accepted ↦
        rw accepted
          (record { memory = b.memory; namespaces = b.namespaces; controllers = b.controllers })
    | inr refused ↦ rw refused tt
  ]

  -- The DMA buffer is given back.
  buffer-Quiet :
      (size : ℕ) (d d' : Driver Dev)
      → Busy size d d'
      → IfReturns (Quiet d) (on_memory (give_back spdk (some d.memory.serial)) d')
  buffer-Quiet size d d' b =
      let m = d.memory in
      let found : take_back spdk m.serial d'.memory.live ≡ some m.live =
        rw b.memory
          (take_back-head (record { addr = m.serial; bytes = size; source = spdk }) m.live) in
      rw (on_memory_ok _ d' (give_back_found spdk m.serial d'.memory found)) (record {
        live = refl;
        serial = rw b.memory refl;
        counter = rw b.memory refl;
        namespaces = b.namespaces;
        controllers = b.controllers;
      })

  started-Busy :
      (size : ℕ) (d : Driver Dev) → Busy size d (record d { memory = with_buffer size d.memory })
  started-Busy size d = record { memory = refl; namespaces = refl; controllers = refl }

  -- The first namespace is looked up and its queue pair is used.
  queued :
      {A : Type 0} (size : ℕ) (d d₁ : Driver Dev) (body : NsEntry → ℕ → Cmd (Driver Dev) A)
      → Busy size d d₁
      → ((n : NsEntry) (q : ℕ) (d' : Driver Dev)
          → Busy size d d'
          → IfReturns (Quiet d) (body n q d'))
      → IfReturns
          (Quiet d)
          (and_then (first_namespace d₁) (λ n. with_qpair lib grants n.qpair (body n)))
  queued size d d₁ body b rest =
      IfReturns-bind (λ d'. d' ≡ d₁) (Quiet d) _ _ (first_namespace_same lib grants d₁)
        λ n d' same.
          with_qpair_keeps lib grants (Quiet d) n.qpair (body n) d'
            λ q. rest n q d' (subst (Busy size d) (sym same) b)

  write_from-Quiet :
      (params : Params) (d d₁ : Driver Dev)
      → Busy params.buf_size d d₁
      → IfReturns (Quiet d) (write_from lib grants patience params d.memory.serial d₁)
  unfolding write_from write_complete
  write_from-Quiet params d d₁ b =
      let size = params.buf_size in
      queued size d d₁ _ b λ n q d₂ b₂.
        let (rc, dev) =
          lib.cmd_write d₂.device n.ns q (take size params.buf) params.lba params.lba_count in
        IfReturns-bind (Busy size d) (Quiet d) _ _ (submit-Busy size rc dev d d₂ b₂) λ _ d₃ b₃.
          IfReturns-bind (Busy size d) (Quiet d) _ _ (poll-Busy size patience q d d₃ b₃) λ _ d₄ b₄.
            IfReturns-bind (Quiet d) (Quiet d) _ _ (buffer-Quiet size d d₄ b₄) λ _ d₅ s₅. s₅

  read_into-Quiet :
      (params : Params) (d d₁ : Driver Dev)
      → Busy params.buf_size d d₁
      → IfReturns (Quiet d) (read_into lib grants patience params d.memory.serial d₁)
  unfolding read_into read_complete
  read_into-Quiet params d d₁ b =
      let size = params.buf_size in
      queued size d d₁ _ b λ n q d₂ b₂.
        let (rc, dev) = lib.cmd_read d₂.device n.ns q params.lba params.lba_count in
        IfReturns-bind (Busy size d) (Quiet d) _ _ (submit-Busy size rc dev d d₂ b₂) λ _ d₃ b₃.
          IfReturns-bind (Busy size d) (Quiet d) _ _ (poll-Busy size patience q d d₃ b₃)
            λ bytes d₄ b₄.
              IfReturns-bind (Quiet d) (Quiet d) _ _
                (IfReturns-bind (Quiet d) (Quiet d) _ _ (buffer-Quiet size d d₄ b₄) λ _ d₅ s₅. s₅)
                λ _ d₅ s₅. s₅

  pub spdk_write-Quiet :
      (params : Params) (d : Driver Dev)
      → IfReturns (Quiet d) (spdk_write lib grants patience params d)
  unfolding spdk_write on_memory obtain
  spdk_write-Quiet params d = elim (Bool-cases (grants spdk d.memory.serial params.buf_size)) [
    | inr refused ↦ rw refused tt
    | inl granted ↦ rw granted (write_from-Quiet params d _ (started-Busy params.buf_size d))
  ]

  pub spdk_read-Quiet :
      (params : Params) (d : Driver Dev)
      → IfReturns (Quiet d) (spdk_read lib grants patience params d)
  unfolding spdk_read on_memory obtain
  spdk_read-Quiet params d = elim (Bool-cases (grants spdk d.memory.serial params.buf_size)) [
    | inr refused ↦ rw refused tt
    | inl granted ↦ rw granted (read_into-Quiet params d _ (started-Busy params.buf_size d))
  ]
