-- ===== src/Api/Crossing.antt =====
-- The two variants on one device, each in a process of its own: the earlier `tx_format` writes the
-- superblock that the current `tx_begin` looks for.
use mathlib.Core.List.{append-nil}
use tx_driver.Api.{new_superblock, tx_begin, tx_format}
use tx_driver.Api.Program.{tx_format_run, after_format}
use tx_driver.Api.Untouched.{IsKept, tx_format-stored}
use tx_driver.Ondisk.{txd_success}
use tx_driver.Api.Begin.{IsGenerous, Opened, tx_begin-Opened}
use tx_driver.Api.Format.{new_superblock-Fits}
use tx_driver.Base.{
  ℕ, ◌/◌, ◌%◌, ◌^◌, ◌≤◌, ◌<◌, ◌≡◌, ◌≢◌, ◌∙◌, sym, ap, some, List, [], ◌∷◌, ◌++◌, ok, Cmd, arith,
  refl, Returns, ◌>>◌,
}
use tx_driver.Early
use tx_driver.Early.Api.{lba_unit, format_bytes}
use tx_driver.Early.Format.{format_from_lem, format_reaches}
use tx_driver.Journal.Defs.{Journal}
use tx_driver.Malloc.{Memory, Grants, libc, spdk}
use tx_driver.Ondisk.Layout.{to_bytes, from_bytes, from_bytes-to_bytes}
use tx_driver.Revoke.{ListHeads}
use tx_driver.Spdk.Held.{Below}
use tx_driver.Spdk.Library.{Library}
use tx_driver.Spdk.Polling.{Disk, Usable}
use tx_driver.Spdk.Registry.{Handle, namespaces_of}
use tx_driver.Spdk.Startup.{Started, Finds, startup-Started}
use tx_driver.Spdk.State.{Driver}

-- Another process: its own memory, and lists that are empty, on the device as it was left.
abbrev pub new_process : {Dev : Type 0} → Memory → Cmd (Driver Dev) (Unit {0})
new_process m d =
    ok tt (record { memory = m; device = d.device; g_controllers = []; g_namespaces = [] })

first_ns : {a b : Handle} {hs ks : List Handle} → a ∷ hs ≡ b ∷ ks → a.1 ≡ b.1
first_ns e = cc

module _ (lib : Library) (grants : Grants) (patience : ℕ) (lists : ListHeads)
    (garbage : Journal lists.Head) (generous : IsGenerous lib grants patience lists garbage)
    (clean : garbage.j_failed_commit ≡ 0) (sequence : garbage.j_transaction_sequence < 2 ^ 32) where
  open lib use {Dev}
  open lists use {Head}

  -- The first namespace of two drivers with the same registered namespaces.
  same_first :
      {d d' : Driver Dev} {ctrlrs : List ℕ} {found : List Handle}
      (s : Started lib grants d ctrlrs found) (s' : Started lib grants d' ctrlrs found)
      → s.n.ns ≡ s'.n.ns
  same_first s s' =
      let both : namespaces_of (s.n ∷ s.others) ≡ namespaces_of (s'.n ∷ s'.others) =
        sym (ap namespaces_of s.chosen)
        ∙ s.namespaces
        ∙ sym s'.namespaces
        ∙ ap namespaces_of s'.chosen in
      first_ns both

  -- Two processes on one device, the first with the earlier variant and the second with the current
  -- driver. SPDK finds, on whatever state of the device, the same controllers with an active namespace,
  -- makes every queue pair and serves every command within the polls; every request is granted, and
  -- probing, making a queue pair and detaching do not change what is stored. From empty lists in
  -- well-formed memories: the earlier `tx_format` of an address in bytes, in the first process, and in
  -- the second one `tx_format` and `tx_begin` of the block at that address, for a size of 1024 or more in
  -- 32 bits that is no multiple of 2 ^ 23, return a journal that is loaded from the superblock that the
  -- first one wrote. The thread starts, the counter of the second process is a 64-bit word, and the
  -- memory behind the 8 bytes of the journal holds no failed commit and a 32-bit sequence number.
  pub format-crosses :
      (disk : Disk lib patience) (kept : IsKept lib (λ dev. disk.stored dev)) (d : Driver Dev)
      (m : Memory) (c : ℕ) (cs : List ℕ) (txd_addr txd_size : ℕ)
      → ((dev : Dev) → Finds lib grants (record d { device = dev }) c cs)
      → d.g_namespaces ≡ []
      → d.g_controllers ≡ []
      → Below d.memory.serial d.memory.live
      → Below m.serial m.live
      → m.allocated_mem_size < 2 ^ 64
      → 1024 ≤ txd_size
      → txd_size < 2 ^ 32
      → txd_size % 2 ^ 23 ≢ 0
      → Returns
          (λ o d'.
            (j : Journal Head) × (o ≡ some j)
            × Opened lib grants patience lists garbage (new_superblock txd_size) j)
          ((do
            Early.Api.tx_format lib grants patience txd_addr txd_size
            new_process m
            tx_format lib grants (txd_addr / lba_unit) txd_size
            tx_begin lib grants patience lists garbage 0 (txd_addr / lba_unit) txd_size)
            d)
  format-crosses disk kept d m c cs txd_addr txd_size finds nss css below fresh small long fits
        whole =
      let s =
        startup-Started lib grants d c cs (generous.granted libc) (finds d.device) nss css below in
      let u : Usable lib grants patience s.d₂ s.n s.q = record {
        others = s.others;
        chosen = s.chosen;
        live = s.live;
        qpair = s.qpair;
      } in
      let sb = new_superblock txd_size in
      let (len, back) = from_bytes-to_bytes sb [] (new_superblock-Fits txd_size fits) in
      let (e, tail, run, stored) =
        format_from_lem lib grants patience disk s.d₂ s.n s.q txd_addr txd_size u
          (omega (arith, long)) whole fits (generous.granted _ _ _) (generous.granted _ _ _) in
      let d' : Driver Dev = record {
        memory = m;
        device = e;
        g_controllers = [];
        g_namespaces = [];
      } in
      let f = finds e in
      let s' =
        startup-Started lib grants d' c cs (generous.granted libc)
          (record { dev = f.dev; probed = f.probed; active = f.active; makes = f.makes }) refl refl
          fresh in
      let second =
        tx_format_run lib grants (txd_addr / lba_unit) txd_size d' s'.d₁ s'.d₂ s'.init s'.alloc
          (generous.granted spdk _ _) (omega (arith, small, s'.counter)) in
      let same : disk.stored s'.d₂.device s'.n.ns (txd_addr / lba_unit) ≡ to_bytes sb ++ tail =
        ap (λ view. view s'.n.ns (txd_addr / lba_unit))
          (tx_format-stored lib grants (λ dev. disk.stored dev) kept (txd_addr / lba_unit) txd_size
            d' (after_format lib grants s'.d₂) txd_success second)
        ∙ ap (λ ns. disk.stored e ns (txd_addr / lba_unit)) (sym (same_first s s'))
        ∙ stored in
      rw (format_reaches lib grants patience txd_addr txd_size d s.d₁ s.d₂ s.init s.alloc ∙ run) (
        rw second (
          tx_begin-Opened lib grants patience lists garbage generous clean sequence disk
            (after_format lib grants s'.d₂) s'.n s'.q (txd_addr / lba_unit) txd_size (to_bytes sb)
            tail
            (record { others = s'.others; chosen = s'.chosen; live = s'.live; qpair = s'.qpair })
            same len (ap from_bytes (sym (append-nil (to_bytes sb))) ∙ back) long fits))
