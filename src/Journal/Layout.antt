-- ===== src/Journal/Layout.antt =====
-- How much of a journal lies inside the block that `txd_journal_init_common` asks for, whatever the sizes
-- of the pthread types.
use tx_driver.Abi.{sizeof, sizeof_pointer, max_align, end_of}
use tx_driver.Abi.Offsets.{Aligned, align_up-le, max_align-pos, total, end_of-total}
use tx_driver.Base.{
  ℕ, ◌+◌, ◌^◌, ◌≤◌, ◌<◌, ◌≡◌, Option, some, List, ◌∷◌, arith, Returns, Returns-weaken, none,
}
use tx_driver.Journal.Create.{txd_get_journal}
use tx_driver.Journal.Defs.{Journal}
use tx_driver.Journal.Ready.{CreateResult, IsReady, get_journal-CreateResult}
use tx_driver.Journal.Structs
use tx_driver.Malloc.{Grants, Memory, Block, spdk}
use tx_driver.Malloc.Accounting.{size_at}
use tx_driver.Malloc.Owned.{Refused, spdk_block}
use tx_driver.Ondisk.{Superblock}
use tx_driver.Revoke.{ListHeads}

-- The alignments of the pthread types are at least 1.
pub record IsSane (p : Structs.Pthread) : Type 0 where
  pub mutex : 0 < p.mutex.align
  pub cond : 0 < p.cond.align
  pub rwlock : 0 < p.rwlock.align
  pub spinlock : 0 < p.spinlock.align

-- SPDK's block at this address is this long.
record HasSize (p n : ℕ) (bs : List Block) : Type 0 where
  size : size_at spdk p bs ≡ some n

newest-HasSize : (p n : ℕ) (bs : List Block) → HasSize p n (spdk_block p n ∷ bs)
newest-HasSize p n bs = record { size = ground arith }

-- A younger block does not matter.
HasSize-later :
    {p n k size : ℕ} {bs : List Block}
    → p < k
    → HasSize p n bs
    → HasSize p n (spdk_block k size ∷ bs)
HasSize-later h s = record { size = ground (arith, h, s.size) }

module _ (p : Structs.Pthread) (sane : IsSane p) where
  wait_queue-pos : 0 < max_align (Structs.wait_queue_members p)
  wait_queue-pos = max_align-pos (Structs.wait_queue_members p)

  journal_rest-Aligned : Aligned (Structs.journal_rest p)
  journal_rest-Aligned =
      omega (arith, sane.mutex, sane.cond, sane.rwlock, sane.spinlock, wait_queue-pos)

  journal_rest-total : 512 < total (Structs.journal_rest p)
  journal_rest-total = omega arith

  -- The struct is longer than the block, by more than the 512 bytes of `j_chkpt_bhs`.
  journal_longer : sizeof_pointer + 512 < sizeof (Structs.journal_members p)
  journal_longer =
      let inside : end_of sizeof_pointer (Structs.journal_rest p)
          ≤ sizeof (Structs.journal_members p) =
        align_up-le (end_of 0 (Structs.journal_members p)) (max_align (Structs.journal_members p))
          (max_align-pos (Structs.journal_members p)) in
      omega (
        arith,
        inside,
        end_of-total sizeof_pointer (Structs.journal_rest p) journal_rest-Aligned,
        journal_rest-total,
      )

  module _ (lists : ListHeads) (garbage : Journal lists.Head) (grants : Grants) where
    open lists use {Head}

    -- The block at the address of a new journal.
    ready_block :
        (sb : Superblock) (j : Journal Head) (m m' : Memory)
        → IsReady lists garbage grants sb m j m'
        → HasSize j.addr sizeof_pointer m'.live
    ready_block sb j m m' r =
        let first = r.tables.first in
        let second = r.tables.second in
        rw (r.addr, r.live, second.live, first.live)
          (HasSize-later (omega (arith, first.serial, second.serial)) (
            HasSize-later (omega (arith, first.serial)) (
              HasSize-later (omega (arith, first.serial)) (
                HasSize-later (omega arith) (
                  HasSize-later (omega arith) (
                    HasSize-later (omega arith)
                      (newest-HasSize m.serial sizeof_pointer m.live)))))))

    -- NULL, because a request was refused; or a journal, and its block is too short for the struct.
    abbrev pub ShortResult : Option (Journal Head) → Memory → Type 0
    ShortResult none m' = Refused grants
    ShortResult (some j) m' =
        (n : ℕ) × (size_at spdk j.addr m'.live ≡ some n)
        × (n + 512 < sizeof (Structs.journal_members p))

    short_result :
        (sb : Superblock) (m : Memory) (o : Option (Journal Head)) (m' : Memory)
        → CreateResult lists garbage grants sb m o m'
        → ShortResult o m'
    short_result sb m none m' (back, refusal) = refusal
    short_result sb m (some j) m' r =
        (sizeof_pointer, (ready_block sb j m m' r).size, journal_longer)

    -- Whatever the pthread types are, and whichever requests are granted: `txd_get_journal` returns, NULL
    -- because a request was refused, or a journal, and then the block at its address is too short for the
    -- struct by more than the 512 bytes of `j_chkpt_bhs`. The counter is a 64-bit word, and the alignments
    -- of the pthread types are at least 1.
    pub get_journal-ShortResult :
        (sb : Superblock) (m : Memory)
        → m.allocated_mem_size < 2 ^ 64
        → Returns ShortResult (txd_get_journal lists garbage grants sb m)
    get_journal-ShortResult sb m small =
        Returns-weaken (get_journal-CreateResult lists garbage grants sb m small)
          (λ o m' r. short_result sb m o m' r)
