-- ===== src/Api/Format.antt =====
-- `tx_format`: what it prepares, and what it leaves on the device.
use mathlib.Core.List.{append-nil}
use tx_driver.Base.{ℕ, ◌^◌, ◌<◌, ◌≡◌, refl, sym, ap, ◌∙◌, ◌↔◌, arith, length, []}
use tx_driver.Api.{new_superblock, format_params}
use tx_driver.Ondisk.{init_journal_header, chk_txd_sb, txd_success}
use tx_driver.Ondisk.Layout.{Fits, from_bytes, to_bytes, from_bytes-to_bytes}

pub new_superblock-Fits : (txd_size : ℕ) → txd_size < 2 ^ 32 → Fits (new_superblock txd_size)
unfolding new_superblock init_journal_header
new_superblock-Fits txd_size h = record {
  signature = omega arith;
  blocktype = omega arith;
  t_id = omega arith;
  blocksize = omega arith;
  maxlen = h;
  first = omega arith;
  sequence = omega arith;
  start = omega arith;
  errno = omega arith;
  padding = refl;
}

-- What the buffer of `tx_format` reads back as.
pub format_params-new_superblock :
    (txd_addr txd_size : ℕ)
    → txd_size < 2 ^ 32
    → (length (format_params txd_addr txd_size).buf ≡ (format_params txd_addr txd_size).buf_size)
      × (from_bytes (format_params txd_addr txd_size).buf ≡ new_superblock txd_size)
unfolding format_params
format_params-new_superblock txd_addr txd_size h =
    let sb = new_superblock txd_size in
    let (len, back) = from_bytes-to_bytes sb [] (new_superblock-Fits txd_size h) in
    (len, ap from_bytes (sym (append-nil (to_bytes sb))) ∙ back)

-- The buffer that `tx_format` prepares is a superblock that `chk_txd_sb` accepts for the size that
-- it was given and for no other.
pub format_params-accepted :
    (txd_addr txd_size size : ℕ)
    → txd_size < 2 ^ 32
    → (chk_txd_sb (from_bytes (format_params txd_addr txd_size).buf) size ≡ txd_success)
      ↔ (txd_size ≡ size)
unfolding chk_txd_sb new_superblock init_journal_header
format_params-accepted txd_addr txd_size size h =
    rw (format_params-new_superblock txd_addr txd_size h).1 (ground arith)

-- The superblock passes the check for its own size.
pub new_superblock_passes : (txd_size : ℕ) → chk_txd_sb (new_superblock txd_size) txd_size ≡ 0
unfolding chk_txd_sb new_superblock init_journal_header
new_superblock_passes txd_size = ground arith

pub new_superblock_log :
    (txd_size : ℕ)
    → ((new_superblock txd_size).s_first ≡ 1) × ((new_superblock txd_size).s_maxlen ≡ txd_size)
unfolding new_superblock
new_superblock_log txd_size = (refl, refl)
