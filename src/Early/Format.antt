-- ===== src/Early/Format.antt =====
-- `tx_format` of the earlier variant: the buffer that it asks for, and what it puts on the device.
use tx_driver.Api.{new_superblock}
use tx_driver.Api.Format.{new_superblock-Fits}
use tx_driver.Base.{
  ℕ, suc, ◌*◌, ◌/◌, ◌%◌, ◌^◌, ◌<◌, ◌≤◌, ◌≡◌, ◌≢◌, ◌↔◌, refl, ◌∙◌, ap, List, ◌∷◌, ◌++◌, arith, ok,
  fault, true, false, ltb, Returns, [], returns,
}
use tx_driver.Early.Access.{spdk_init, spdk_alloc_qpair}
use tx_driver.Early.Api.{lba_unit, format_bytes, format_params, do_format, format_from, tx_format}
use tx_driver.Early.Tables.{libc_block, with_block, calloc_granted}
use tx_driver.Malloc.{Grants, spdk, libc}
use tx_driver.Ondisk.{sizeof_superblock, txd_success}
use tx_driver.Ondisk.Layout.{to_bytes, from_bytes, from_bytes-to_bytes}
use tx_driver.Spdk.Library.{Library}
use tx_driver.Spdk.Polling.{Disk, Usable, served, spdk_write-stores}
use tx_driver.Spdk.State.{Driver, NsEntry, on_memory_ok, is_live}

-- The product of `tx_format` wraps: the buffer is as long as 512 times the size modulo 2 ^ 23, and it
-- holds a superblock exactly if that is not 0.
pub format_bytes-bounds :
    (txd_size : ℕ)
    → (format_bytes txd_size ≡ lba_unit * (txd_size % 2 ^ 23))
      × ((sizeof_superblock ≤ format_bytes txd_size) ↔ (txd_size % 2 ^ 23 ≢ 0))
format_bytes-bounds txd_size = (omega arith, ((λ h. omega arith), (λ h. omega arith)))

long_enough :
    (txd_size : ℕ) → txd_size % 2 ^ 23 ≢ 0 → ltb (format_bytes txd_size) sizeof_superblock ≡ false
long_enough txd_size h = ground arith

too_short :
    (txd_size : ℕ) → txd_size % 2 ^ 23 ≡ 0 → ltb (format_bytes txd_size) sizeof_superblock ≡ true
too_short txd_size h = ground arith

module _ (lib : Library) (grants : Grants) (patience : ℕ) where
  open lib use {Dev}

  -- The driver with the buffer of `tx_format`, which is never given back.
  abbrev pub with_format_buffer : ℕ → Driver Dev → Driver Dev
  with_format_buffer txd_size d = record d { memory = with_block (format_bytes txd_size) d.memory }

  pub buffer-Usable :
      (bytes : ℕ) (d : Driver Dev) (n : NsEntry) (q : ℕ)
      → Usable lib grants patience d n q
      → Usable lib grants patience (record d { memory = with_block bytes d.memory }) n q
  unfolding is_live
  buffer-Usable bytes d n q u = record {
    others = u.others;
    chosen = u.chosen;
    live = ground (arith, u.live);
    qpair = u.qpair;
  }

  format_from_short :
      (txd_addr txd_size : ℕ) (d : Driver Dev)
      → txd_size % 2 ^ 23 ≡ 0
      → grants libc d.memory.serial (format_bytes txd_size) ≡ true
      → format_from lib grants patience txd_addr txd_size d ≡ fault
  unfolding format_from
  format_from_short txd_addr txd_size d h granted =
      rw (on_memory_ok _ d (calloc_granted grants (format_bytes txd_size) d.memory granted))
        (rw (too_short txd_size h))

  pub format_from_lem :
      (disk : Disk lib patience) (d : Driver Dev) (n : NsEntry) (q txd_addr txd_size : ℕ)
      → Usable lib grants patience d n q
      → 512 ≤ txd_size
      → txd_size % 2 ^ 23 ≢ 0
      → txd_size < 2 ^ 32
      → grants libc d.memory.serial (format_bytes txd_size) ≡ true
      → grants spdk (suc d.memory.serial) sizeof_superblock ≡ true
      → (e : Dev) × (tail : List ℕ) × (format_from lib grants patience txd_addr txd_size d
          ≡ ok txd_success (served lib grants patience e (with_format_buffer txd_size d)))
        × (disk.stored e n.ns (txd_addr / lba_unit) ≡ to_bytes (new_superblock txd_size) ++ tail)
  unfolding format_from do_format format_params
  format_from_lem disk d n q txd_addr txd_size u block h fits granted dma =
      let (len, _) =
        from_bytes-to_bytes (new_superblock txd_size) [] (new_superblock-Fits txd_size fits) in
      let (e, tail, run, kept) =
        spdk_write-stores lib grants patience disk (with_format_buffer txd_size d) n q
          (format_params txd_addr txd_size) (buffer-Usable (format_bytes txd_size) d n q u) len
          (omega (arith, block)) dma in
      (
        e,
        tail,
        rw (on_memory_ok _ d (calloc_granted grants (format_bytes txd_size) d.memory granted))
            (rw (long_enough txd_size h) run),
        kept,
      )

  module _ (txd_addr txd_size : ℕ) (d d₁ d₂ : Driver Dev)
      (found : spdk_init lib grants d ≡ ok txd_success d₁)
      (queued : spdk_alloc_qpair lib grants d₁ ≡ ok txd_success d₂) where
    pub format_reaches :
        tx_format lib grants patience txd_addr txd_size d
        ≡ format_from lib grants patience txd_addr txd_size d₂
    unfolding tx_format
    format_reaches = rw found (rw queued)

    -- When the device is found and its queue pair made, and libc grants the buffer, a size that is a
    -- multiple of 2 ^ 23 makes `tx_format` write past its buffer.
    pub tx_format_overflows :
        txd_size % 2 ^ 23 ≡ 0
        → grants libc d₂.memory.serial (format_bytes txd_size) ≡ true
        → tx_format lib grants patience txd_addr txd_size d ≡ fault
    tx_format_overflows h granted =
        format_reaches ∙ format_from_short txd_addr txd_size d₂ h granted

    -- When the device is found and its queue pair made, serves every command within the polls, has a
    -- usable namespace, and both buffers are granted, for a 32-bit size that is 512 or more and no
    -- multiple of 2 ^ 23 `tx_format` returns success; the blocks from `txd_addr / 512` on then begin with the superblock
    -- for that size, and the buffer is never given back.
    pub early_tx_format-stores :
        (disk : Disk lib patience) (n : NsEntry) (q : ℕ)
        → Usable lib grants patience d₂ n q
        → 512 ≤ txd_size
        → txd_size % 2 ^ 23 ≢ 0
        → txd_size < 2 ^ 32
        → grants libc d₂.memory.serial (format_bytes txd_size) ≡ true
        → grants spdk (suc d₂.memory.serial) sizeof_superblock ≡ true
        → Returns
            (λ err d'.
              (err ≡ txd_success)
              × (from_bytes (disk.stored d'.device n.ns (txd_addr / lba_unit))
                  ≡ new_superblock txd_size)
              × (d'.memory.live
                  ≡ libc_block d₂.memory.serial (format_bytes txd_size) ∷ d₂.memory.live)
              × (d'.g_namespaces ≡ d₂.g_namespaces))
            (tx_format lib grants patience txd_addr txd_size d)
    early_tx_format-stores disk n q u block h fits granted dma =
        let (e, tail, run, kept) =
          format_from_lem disk d₂ n q txd_addr txd_size u block h fits granted dma in
        let (_, back) =
          from_bytes-to_bytes (new_superblock txd_size) tail (new_superblock-Fits txd_size fits) in
        rw (format_reaches ∙ run) (returns (refl, ap from_bytes kept ∙ back, refl, refl))
