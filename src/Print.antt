-- ===== src/Print.antt =====
-- What the driver prints: `print_sb_info` of src/txd_journal.c and src/txdriver_journal.c,
-- `txd_allocated_mem_info` of src/txd_malloc.c, and the sizes at the start of the programs in
-- src/txd_debugging.c and src/txdriver_debugging.c. The state is what has been printed, in ASCII codes.
pub mod Shown
use Prim.Native.Char.{code}
use Prim.Native.String.{String}
use tx_driver.Base.{
  ℕ, Option, none, some, List, [], ◌∷◌, ◌++◌, Outcome, ok, aborted, Cmd, ◌>>=◌, ◌>>◌, ten, sixteen,
  natural_text, int_text,
}
use tx_driver.Malloc.{Memory}
use tx_driver.Ondisk.{Superblock, sizeof_superblock, sizeof_block_tag, sizeof_commit_header}

abbrev pub codes : String → List ℕ
codes String.[] = []
codes (String.◌∷◌ c s) = code c ∷ codes s

abbrev pub put : List ℕ → Cmd (List ℕ) (Unit {0})
put text out = ok tt (out ++ text)

-- A label with a number after it, and the end of the line.
abbrev pub line : String → List ℕ → List ℕ
line label number = codes label ++ (number ++ (b'\n' ∷ []))

-- `%d` of the fields, which are `uint32_t`, prints their patterns as `int`.
unfoldable pub print_sb_info : Option Superblock → Cmd (List ℕ) (Unit {0})
print_sb_info none out = aborted
print_sb_info (some sb) out =
    (do
      put (codes "\n TXD super block information \n")
      put (line "    signature       : " (natural_text sixteen sb.s_header.txd_signature))
      put (line "    blocktype       : " (natural_text sixteen sb.s_header.txd_blocktype))
      put (line "    tid             : " (natural_text sixteen sb.s_header.txd_t_id))
      put (line "    blocksize       : " (int_text sb.s_blocksize))
      put (line "    maxlen          : " (int_text sb.s_maxlen))
      put (line "    log start address : " (int_text sb.s_first))
      put (line "    sequence        : " (int_text sb.s_sequence))
      put (line "    journal start   : " (int_text sb.s_start) ++ (b'\n' ∷ [])))
      out

unfoldable pub txd_allocated_mem_info : Memory → Cmd (List ℕ) (Unit {0})
txd_allocated_mem_info m =
    put (codes "   allocated mem size : " ++ natural_text ten m.allocated_mem_size)

-- A size, as `main` prints it.
abbrev size_line : String → ℕ → List ℕ
size_line label size = codes label ++ (natural_text ten size ++ codes " \n")

unfoldable pub print_sizes : Cmd (List ℕ) (Unit {0})
print_sizes = do
  put (b'\n' ∷ [])
  put (size_line "super block size        : " sizeof_superblock)
  put (size_line "descriptor block size   : " sizeof_block_tag)
  put (size_line "commit block size       : " sizeof_commit_header)
  put (b'\n' ∷ [])
