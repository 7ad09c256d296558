-- ===== src/Ondisk.antt =====
-- include/ondisk.h, and the functions of src/txd_journal.c that fill in and check the superblock.
pub mod Layout
pub mod Checks
use tx_driver.Abi.{Member, scalar, byte_array, sizeof}
use tx_driver.Base.{ℕ, Bool, List, [], ◌∷◌, ◌==◌, ◌&&◌, if◌then◌else◌, u32}

-- `txd_type_t`
pub data BlockType : Type 0 where
  descriptor_block commit_block super_block revoke_block : BlockType

-- `CLSIZE`, the cache line.
abbrev pub clsize : ℕ
clsize = 64

abbrev pub sig_txd : ℕ
sig_txd = 0x00484a53

abbrev pub sig_descriptor_block : ℕ
sig_descriptor_block = 0x45445854

abbrev pub sig_commit_block : ℕ
sig_commit_block = 0x54435854

abbrev pub sig_super_block : ℕ
sig_super_block = 0x42535854

abbrev pub sig_revoke_block : ℕ
sig_revoke_block = 0x56525854

-- `txd_j_header_t`
pub record Header : Type 0 where
  pub txd_signature : ℕ
  pub txd_blocktype : ℕ
  pub txd_t_id : ℕ

-- `txd_j_superblock_t`: all but the padding are `uint32_t`.
pub record Superblock : Type 0 where
  pub s_header : Header
  pub s_blocksize : ℕ
  pub s_maxlen : ℕ
  pub s_first : ℕ
  pub s_sequence : ℕ
  pub s_start : ℕ
  pub s_errno : ℕ
  pub s_padding : List ℕ

abbrev pub superblock_members : List Member
superblock_members =
    scalar 4
    ∷ scalar 4
    ∷ scalar 4
    ∷ scalar 4
    ∷ scalar 4
    ∷ scalar 4
    ∷ scalar 4
    ∷ scalar 4
    ∷ scalar 4
    ∷ byte_array 28
    ∷ []

abbrev pub sizeof_superblock : ℕ
sizeof_superblock = sizeof superblock_members

-- `txd_journal_block_tag_t`
abbrev pub block_tag_members : List Member
block_tag_members = scalar 4 ∷ scalar 2 ∷ scalar 2 ∷ byte_array 56 ∷ []

abbrev pub sizeof_block_tag : ℕ
sizeof_block_tag = sizeof block_tag_members

-- `struct txd_journal_block_tail_s`, which is not padded.
abbrev pub block_tail_members : List Member
block_tail_members = scalar 4 ∷ []

-- `txd_j_commit_header_t`
abbrev pub commit_header_members : List Member
commit_header_members = scalar 4 ∷ scalar 4 ∷ scalar 4 ∷ scalar 8 ∷ scalar 4 ∷ byte_array 32 ∷ []

abbrev pub sizeof_commit_header : ℕ
sizeof_commit_header = sizeof commit_header_members

abbrev pub signature_of : BlockType → ℕ
signature_of BlockType.descriptor_block = sig_descriptor_block
signature_of BlockType.commit_block = sig_commit_block
signature_of BlockType.super_block = sig_super_block
signature_of BlockType.revoke_block = sig_revoke_block

-- `tid` is an `int`, taken as its 32-bit pattern. The source's `switch` has no default, and a value
-- of the enumeration is always one of the four.
unfoldable pub init_journal_header : Header → BlockType → ℕ → Header
init_journal_header h blk_type tid = record h {
  txd_signature = sig_txd;
  txd_t_id = tid;
  txd_blocktype = signature_of blk_type;
}

abbrev pub txd_success : ℕ
txd_success = 0

abbrev pub txd_fail : ℕ
txd_fail = 1

unfoldable pub chk_txd_sb : Superblock → ℕ → ℕ
chk_txd_sb sb txd_size =
    if (sb.s_header.txd_signature == sig_txd) && (sb.s_maxlen == txd_size)
    then txd_success
    else txd_fail
