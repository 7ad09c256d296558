-- ===== src/Journal/Grows.antt =====
-- The blocks of the journal that `txd_get_journal` of src/txd_journal.c makes.
use tx_driver.Base.{length, ◌++◌, List, ℕ, suc, ◌≡◌, refl, ap, ◌∙◌, ◌∷◌, []}
use tx_driver.Journal.Create.{wbuf_bytes}
use tx_driver.Journal.Defs.{journal_revoke_default_hash, sizeof_buffer_head, Journal}
use tx_driver.Journal.Ready.{IsReady}
use tx_driver.Malloc.{Block, Memory, Grants}
use tx_driver.Ondisk.{Superblock}
use tx_driver.Revoke.{ListHeads, bucket_bytes, sizeof_revoke_table}
use tx_driver.Abi.{sizeof_pointer}
use tx_driver.Malloc.Owned.{spdk_block}

module _ (lists : ListHeads) (garbage : Journal lists.Head) (grants : Grants) where
  open lists use {Head}

  -- The blocks of a new journal stand before those of before: itself, the buffer head, the two
  -- tables with their buckets, and the buffer array.
  pub IsReady-grows :
      (sb : Superblock) (m : Memory) (j : Journal Head) (m' : Memory)
      → IsReady lists garbage grants sb m j m'
      → (added : List Block) × (length added ≡ 7) × (m'.live ≡ added ++ m.live)
  IsReady-grows sb m j m' r =
      let array : Block = spdk_block r.between.serial (wbuf_bytes lists garbage j.j_wbufsize) in
      let bytes = bucket_bytes journal_revoke_default_hash in
      let table : ℕ → Block = λ serial. spdk_block serial sizeof_revoke_table in
      let buckets : ℕ → Block = λ serial. spdk_block (suc serial) bytes in
      let mid = r.tables.between.serial in
      let first = suc (suc m.serial) in
      let seven : List Block =
        array
        ∷ buckets mid
        ∷ table mid
        ∷ buckets first
        ∷ table first
        ∷ spdk_block (suc m.serial) sizeof_buffer_head
        ∷ spdk_block m.serial sizeof_pointer
        ∷ [] in
      (
        seven,
        refl,
        r.live
            ∙ ap (λ l. array ∷ l)
                (r.tables.second.live ∙ ap (λ l. buckets mid ∷ table mid ∷ l) r.tables.first.live),
      )
