-- ===== src/Ondisk/Layout.antt =====
-- The superblock in memory and on disk: the struct of include/ondisk.h, little-endian, which the
-- source reaches by casting a `char *` buffer (tx_format and tx_begin of src/txd_api.c). The source has
-- no encoder or decoder: the two functions here are the memory representation that the casts rely on.
use tx_driver.Ondisk.{Superblock, sizeof_superblock}
use tx_driver.Base.{
  ℕ, suc, zero, ◌+◌, ◌*◌, ◌/◌, ◌%◌, ◌^◌, ◌<◌, ◌≡◌, List, [], ◌∷◌, ◌++◌, arith, take, get_or, length,
  take-append,
}

abbrev pub Bytes : Type 0
Bytes = List ℕ

abbrev pub le32 : ℕ → Bytes
le32 w = w % 256 ∷ w / 256 % 256 ∷ w / 65536 % 256 ∷ w / 16777216 % 256 ∷ []

-- Reads a word off the front; bytes past the end of the buffer read as 0.
abbrev pub word : Bytes → ℕ
word bs = get_or bs 0 0 + 256 * get_or bs 1 0 + 65536 * get_or bs 2 0 + 16777216 * get_or bs 3 0

abbrev pub drop : ℕ → Bytes → Bytes
drop zero xs = xs
drop (suc n) [] = []
drop (suc n) (x ∷ xs) = drop n xs

-- The bytes of `buf`, once the struct is filled in through `(txd_j_superblock_t *)buf`.
pub to_bytes : Superblock → Bytes
to_bytes sb =
    le32 sb.s_header.txd_signature
    ++ (le32 sb.s_header.txd_blocktype
        ++ (le32 sb.s_header.txd_t_id
            ++ (le32 sb.s_blocksize
                ++ (le32 sb.s_maxlen
                    ++ (le32 sb.s_first
                        ++ (le32 sb.s_sequence
                            ++ (le32 sb.s_start ++ (le32 sb.s_errno ++ sb.s_padding))))))))

-- The struct that `(txd_j_superblock_t *)params.buf` reads.
unfoldable pub from_bytes : Bytes → Superblock
from_bytes bs = record {
  s_header = record {
    txd_signature = word bs;
    txd_blocktype = word (drop 4 bs);
    txd_t_id = word (drop 8 bs);
  };
  s_blocksize = word (drop 12 bs);
  s_maxlen = word (drop 16 bs);
  s_first = word (drop 20 bs);
  s_sequence = word (drop 24 bs);
  s_start = word (drop 28 bs);
  s_errno = word (drop 32 bs);
  s_padding = take 28 (drop 36 bs);
}

-- Every word of the struct is in range, and the padding has its size.
pub record Fits (sb : Superblock) : Type 0 where
  pub signature : sb.s_header.txd_signature < 2 ^ 32
  pub blocktype : sb.s_header.txd_blocktype < 2 ^ 32
  pub t_id : sb.s_header.txd_t_id < 2 ^ 32
  pub blocksize : sb.s_blocksize < 2 ^ 32
  pub maxlen : sb.s_maxlen < 2 ^ 32
  pub first : sb.s_first < 2 ^ 32
  pub sequence : sb.s_sequence < 2 ^ 32
  pub start : sb.s_start < 2 ^ 32
  pub errno : sb.s_errno < 2 ^ 32
  pub padding : length sb.s_padding ≡ 28

word-le32 : (w : ℕ) (rest : Bytes) → w < 2 ^ 32 → word (le32 w ++ rest) ≡ w
word-le32 w rest h = omega arith

-- The struct takes `sizeof(txd_j_superblock_t)` bytes, and reading it back from a buffer that
-- begins with those bytes, whatever follows, gives the same superblock.
pub from_bytes-to_bytes :
    (sb : Superblock) (rest : Bytes)
    → Fits sb
    → (length (to_bytes sb) ≡ sizeof_superblock) × (from_bytes (to_bytes sb ++ rest) ≡ sb)
unfolding to_bytes from_bytes
from_bytes-to_bytes sb rest f = (
  omega (arith, f.padding),
  λ i. record {
    s_header = record {
      txd_signature = word-le32 _ [] f.signature i;
      txd_blocktype = word-le32 _ [] f.blocktype i;
      txd_t_id = word-le32 _ [] f.t_id i;
    };
    s_blocksize = word-le32 _ [] f.blocksize i;
    s_maxlen = word-le32 _ [] f.maxlen i;
    s_first = word-le32 _ [] f.first i;
    s_sequence = word-le32 _ [] f.sequence i;
    s_start = word-le32 _ [] f.start i;
    s_errno = word-le32 _ [] f.errno i;
    s_padding = take-append 28 sb.s_padding rest f.padding i;
  },
)
