-- ===== src/Ondisk/Checks.antt =====
-- What a header and a superblock must be to be accepted.
use tx_driver.Base.{ℕ, ◌≡◌, ◌≢◌, arith, ◌↔◌}
use tx_driver.Ondisk.{
  Header, Superblock, BlockType, init_journal_header, chk_txd_sb, txd_success, txd_fail,
}

-- `init_journal_header` marks the header as the driver's and with the transaction id, and headers of
-- two kinds of block are never equal, whatever they held before.
pub init_journal_header-injective :
    (h h' : Header) (a b : BlockType) (tid tid' : ℕ)
    → init_journal_header h a tid ≡ init_journal_header h' b tid'
    → (a ≡ b) × (tid ≡ tid')
unfolding init_journal_header
init_journal_header-injective h h' a b tid tid' e = ground arith

-- The check looks at the signature and the size alone: whatever else a superblock holds, one whose
-- header is of any kind of block passes exactly if its size is the one that the caller expects, and
-- otherwise the check returns `TXD_FAIL`.
pub chk_txd_sb-kind :
    (sb : Superblock) (kind : BlockType) (tid txd_size : ℕ)
    → let marked = record sb { s_header = init_journal_header sb.s_header kind tid } in
      ((chk_txd_sb marked txd_size ≡ txd_success) ↔ (sb.s_maxlen ≡ txd_size))
      × ((chk_txd_sb marked txd_size ≡ txd_fail) ↔ (sb.s_maxlen ≢ txd_size))
unfolding init_journal_header chk_txd_sb
chk_txd_sb-kind sb kind tid txd_size = ground arith
