-- ===== src/Early/Ready.antt =====
-- What `txd_journal_init_common` of the earlier variant returns: a journal with all its parts, or NULL
-- and, where it had one, the buffer head lost.
use tx_driver.Abi.{sizeof_pointer}
use tx_driver.Base.{ℕ, suc, ◌≡◌, refl, Option, none, some, List, ◌∷◌, ok, ◌⊎◌, true, false}
use tx_driver.Early.Create.{init_defaults, wbuf_bytes, out}
use tx_driver.Early.Lifecycle.{two_tables, with_tables, Empty}
use tx_driver.Early.Revoke.{txd_journal_destroy_revoke}
use tx_driver.Early.Tables.{libc_block, with_block, Refused}
use tx_driver.Journal.Create.{new_journal, set_geometry, tags_per_block}
use tx_driver.Journal.Defs.{Journal, sizeof_buffer_head, journal_revoke_default_hash}
use tx_driver.Malloc.{Memory, Grants, Block, libc, take_back, give_back}
use tx_driver.Malloc.Owned.{give_back_found}
use tx_driver.Ondisk.{Superblock}
use tx_driver.Revoke.{ListHeads, RevokeSlots, shift_loop, int_bits}

-- The shift of a table of 256 buckets
abbrev pub default_shift : ℕ
default_shift = 8

pub default_shift_lem : shift_loop int_bits journal_revoke_default_hash 0 ≡ some default_shift
unfolding shift_loop
default_shift_lem = refl

module _ (lists : ListHeads) (garbage : Journal lists.Head) (grants : Grants) where
  open lists use {Head}

  -- The fields of the fresh journal that the failing paths read are NULL.
  pub record IsBlank : Type 0 where
    pub wbuf : garbage.j_wbuf ≡ none
    pub slots :
        Empty lists grants journal_revoke_default_hash default_shift default_shift_lem
          garbage.revoke

  abbrev pub tables_at : ℕ → RevokeSlots Head
  tables_at serial =
      two_tables lists grants journal_revoke_default_hash default_shift default_shift_lem serial

  -- The memory with the block of the journal, and with that of the buffer head on top of it.
  abbrev pub with_head : Memory → Memory
  with_head m = with_block sizeof_buffer_head (with_block sizeof_pointer m)

  abbrev pub with_all_tables : Memory → Memory
  with_all_tables m =
      with_tables lists grants journal_revoke_default_hash default_shift default_shift_lem
        (with_head m)

  abbrev pub wbuf_size : Superblock → ℕ
  wbuf_size sb = wbuf_bytes lists garbage (tags_per_block lists garbage sb.s_blocksize)

  -- The journal that is made from the next seven requests.
  abbrev pub ready_journal : Superblock → ℕ → Journal Head
  ready_journal sb serial =
      record (set_geometry lists garbage sb
        (record (init_defaults lists garbage (new_journal lists garbage serial)) {
          revoke = tables_at (suc (suc serial));
        })) {
          j_wbuf = some (suc (suc (suc (suc (suc (suc serial))))));
          j_sb_buffer = some (record { addr = suc serial; bh_status = 0; bh_buf = sb; bh_pno = 0 });
          j_superblock = some sb;
        }

  abbrev pub ready_memory : Superblock → Memory → Memory
  ready_memory sb m = with_block (wbuf_size sb) (with_all_tables m)

  -- What is left of a failure: nothing if one of the first two requests was refused, and otherwise
  -- the buffer head.
  abbrev pub Leftover : Memory → Memory → Type 0
  Leftover m m' =
      ((m'.live ≡ m.live)
        × ((grants libc m.serial sizeof_pointer ≡ false)
            ⊎ (grants libc (suc m.serial) sizeof_buffer_head ≡ false)))
      ⊎ ((m'.live ≡ libc_block (suc m.serial) sizeof_buffer_head ∷ m.live)
          × (grants libc m.serial sizeof_pointer ≡ true)
          × (grants libc (suc m.serial) sizeof_buffer_head ≡ true))

  pub record Failed (m m' : Memory) : Type 0 where
    pub refused : Refused grants
    pub allocated : m'.allocated_mem_size ≡ m.allocated_mem_size
    pub leftover : Leftover m m'

  abbrev pub CreateResult : Superblock → Memory → Option (Journal Head) → Memory → Type 0
  CreateResult sb m none m' = Failed m m'
  CreateResult sb m (some j) m' = (j ≡ ready_journal sb m.serial) × (m' ≡ ready_memory sb m)

  pub destroy_empty :
      (slots : RevokeSlots Head) (m : Memory)
      → slots.j_revoke_table_0 ≡ none
      → slots.j_revoke_table_1 ≡ none
      → txd_journal_destroy_revoke lists grants slots m ≡ ok (record slots { j_revoke = none }) m
  unfolding txd_journal_destroy_revoke
  destroy_empty slots m e₀ e₁ = rw (e₀, e₁)

  -- The label out, where the buffer array is NULL and the tables are given back.
  pub out-frees :
      (j : Journal Head) (m : Memory) {slots : RevokeSlots Head} {l rest : List Block}
      → j.j_wbuf ≡ none
      → txd_journal_destroy_revoke lists grants j.revoke m ≡ ok slots (record m { live = l })
      → take_back libc j.addr l ≡ some rest
      → out lists garbage grants j m ≡ ok none (record m { live = rest })
  unfolding out give_back
  out-frees j m {slots} {l} wbuf destroyed taken =
      rw wbuf (rw destroyed (rw (give_back_found libc j.addr (record m { live = l }) taken)))
