-- ===== src/Malloc/Owned.antt =====
-- The live blocks: addresses are distinct, and a block that is given back leaves the others.
use tx_driver.Base.{ℕ, suc, ◌+◌, ◌<◌, ◌≡◌, List, ◌∷◌, some, none, arith, ok, true, false, u64, ◌≤◌}
use tx_driver.Malloc.{
  Source, spdk, Block, Memory, take_back, give_back, same_source, Grants, txd_zmalloc_spdk, obtain,
}

abbrev pub spdk_block : ℕ → ℕ → Block
spdk_block addr bytes = record { addr = addr; bytes = bytes; source = spdk }

-- The memory is as before, except that serial numbers may be used up.
pub record Restored (m m' : Memory) : Type 0 where
  pub live : m'.live ≡ m.live
  pub allocated : m'.allocated_mem_size ≡ m.allocated_mem_size
  pub serial : m.serial ≤ m'.serial

same_source_self : (s : Source) → same_source s s ≡ true
same_source_self s = ground arith

-- The newest block is taken off the front.
pub take_back-head : (b : Block) (bs : List Block) → take_back b.source b.addr (b ∷ bs) ≡ some bs
unfolding take_back
take_back-head b bs = ground (arith, same_source_self b.source)

-- A block further down is found behind younger ones.
pub take_back-tail :
    (src : Source) (p : ℕ) (b : Block) (bs rest : List Block)
    → p < b.addr
    → take_back src p bs ≡ some rest
    → take_back src p (b ∷ bs) ≡ some (b ∷ rest)
unfolding take_back
take_back-tail src p b bs rest h e = ground arith

-- SPDK refused a request.
pub record Refused (grants : Grants) : Type 0 where
  pub serial : ℕ
  pub bytes : ℕ
  pub refused : grants spdk serial bytes ≡ false

-- What `txd_zmalloc_spdk` does on either answer of the allocator.
module _ (grants : Grants) (size : ℕ) (m : Memory) where
  abbrev pub allocated : Memory
  allocated = record m {
    allocated_mem_size = u64 (m.allocated_mem_size + size);
    live = record { addr = m.serial; bytes = size; source = spdk } ∷ m.live;
    serial = suc m.serial;
  }

  pub zmalloc_granted :
      grants spdk m.serial size ≡ true
      → txd_zmalloc_spdk grants size m ≡ ok (some m.serial) allocated
  unfolding txd_zmalloc_spdk
  zmalloc_granted e = rw e

  pub zmalloc_refused :
      grants spdk m.serial size ≡ false
      → txd_zmalloc_spdk grants size m ≡ ok none (record m { serial = suc m.serial })
  unfolding txd_zmalloc_spdk
  zmalloc_refused e = rw e

-- An allocator that grants a request.
pub obtain_granted :
    (grants : Grants) (src : Source) (size : ℕ) (m : Memory)
    → grants src m.serial size ≡ true
    → obtain grants src size m
      ≡ ok (some m.serial) (record m {
        live = record { addr = m.serial; bytes = size; source = src } ∷ m.live;
        serial = suc m.serial;
      })
unfolding obtain
obtain_granted grants src size m e = rw e

-- Giving back a block that is found.
pub give_back_found :
    (src : Source) (p : ℕ) (m : Memory) {rest : List Block}
    → take_back src p m.live ≡ some rest
    → give_back src (some p) m ≡ ok tt (record m { live = rest })
unfolding give_back
give_back_found src p m {rest} e = rw (e, give_back)
