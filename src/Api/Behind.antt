-- ===== src/Api/Behind.antt =====
-- The memory of `tx_begin` of src/txd_api.c while it has its buffer, and with a journal.
use tx_driver.Base.{◌*◌, ℕ, ◌<◌, ◌≡◌, refl, some, ◌∷◌, arith, IfReturns, ◌∙◌}
use tx_driver.Journal.Defs.{Journal}
use tx_driver.Journal.Ready.{IsReady}
use tx_driver.Journal.Create.{wbuf_bytes}
use tx_driver.Journal.Defs.{journal_revoke_default_hash, sizeof_buffer_head}
use tx_driver.Revoke.{bucket_bytes, sizeof_revoke_table}
use tx_driver.Abi.{sizeof_pointer}
use tx_driver.Malloc.{Grants, libc, spdk, take_back, txd_free}
use tx_driver.Ondisk.{Superblock, sizeof_superblock}
use tx_driver.Revoke.{ListHeads}
use tx_driver.Spdk.Busy.{Quiet}
use tx_driver.Spdk.Kept.{Kept, Idle, pushed}
use tx_driver.Spdk.Library.{Library}
use tx_driver.Spdk.State.{Driver, on_memory, on_memory_ok}
use tx_driver.Malloc.Accounting.{free_steps}
use tx_driver.Malloc.Owned.{take_back-head}

-- The block of the buffer is the newest; the rest is as it was.
pub record Behind {Dev : Type 0} (d d' : Driver Dev) : Type 0 where
  pub live :
      d'.memory.live
      ≡ record { addr = d.memory.serial; bytes = 1 * sizeof_superblock; source = libc }
        ∷ d.memory.live
  pub serial : d.memory.serial < d'.memory.serial
  pub namespaces : d'.g_namespaces ≡ d.g_namespaces
  pub controllers : d'.g_controllers ≡ d.g_controllers

pub Behind-Quiet : {Dev : Type 0} {d d₁ d₂ : Driver Dev} → Behind d d₁ → Quiet d₁ d₂ → Behind d d₂
Behind-Quiet b q = record {
  live = q.live ∙ b.live;
  serial = omega (arith, b.serial, q.serial);
  namespaces = q.namespaces ∙ b.namespaces;
  controllers = q.controllers ∙ b.controllers;
}

pub free_buffer :
    {Dev : Type 0} (size : ℕ) (d d' : Driver Dev)
    → Behind d d'
    → IfReturns (Idle d) (on_memory (txd_free (some d.memory.serial) size) d')
free_buffer size d d' b =
    let found : take_back libc d.memory.serial d'.memory.live ≡ some d.memory.live = rw b.live (
      take_back-head
        (record { addr = d.memory.serial; bytes = 1 * sizeof_superblock; source = libc })
        d.memory.live) in
    rw (on_memory_ok _ d' (free_steps libc d.memory.serial size d'.memory d.memory.live found))
      (record {
        live = refl;
        serial = omega (arith, b.serial);
        namespaces = b.namespaces;
        controllers = b.controllers;
      })

module _ (lib : Library) (grants : Grants) (P : Driver lib.Dev → Type 0)
    (kept : Kept lib grants P) where
  open lib use {Dev}

  pub Behind-Kept : (d d' : Driver Dev) → Behind d d' → P d → P d'
  Behind-Kept d d' b s =
      kept.idle
        (record {
          live = b.live;
          serial = omega (arith, b.serial);
          namespaces = b.namespaces;
          controllers = b.controllers;
        })
        (kept.push libc (1 * sizeof_superblock) 0 d s)

  -- The driver before and after the blocks of a journal.
  pub IsReady-Kept :
      (lists : ListHeads) (garbage : Journal lists.Head) (sb : Superblock) (j : Journal lists.Head)
      (d d' : Driver Dev)
      → IsReady lists garbage grants sb d.memory j d'.memory
      → d' ≡ record d { memory = d'.memory }
      → P d
      → P d'
  IsReady-Kept lists garbage sb j d d' r same s =
      let first = r.tables.first in
      let second = r.tables.second in
      let bytes = bucket_bytes journal_revoke_default_hash in
      let array = wbuf_bytes lists garbage j.j_wbufsize in
      let push : (size : ℕ) (e : Driver Dev) → P e → P (pushed spdk size 0 e) =
        λ size. kept.push spdk size 0 in
      kept.idle
        (record {
          live = rw (r.live, second.live, first.live, second.serial, first.serial) refl;
          serial = omega (arith, r.serial, first.serial, second.serial);
          namespaces = rw same refl;
          controllers = rw same refl;
        })
        (push array _ (
          push bytes _ (
            push sizeof_revoke_table _ (
              push bytes _ (
                push sizeof_revoke_table _
                  (push sizeof_buffer_head _ (push sizeof_pointer d s)))))))
