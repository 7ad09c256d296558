-- ===== src/Examples/Printing.antt =====
-- What is printed of the superblock that `tx_format` prepares, and of some numbers.
use tx_driver.Api.{new_superblock}
use tx_driver.Api.Format.{new_superblock-Fits}
use tx_driver.Base.{
  ◌≡◌, refl, [], ◌++◌, some, none, ok, aborted, arith, ten, sixteen, digits, digit_char,
  natural_text, int_text, ◌^◌, ◌-◌,
}
use tx_driver.Examples.{fresh_memory}
use tx_driver.Ondisk.{Superblock, init_journal_header, chk_txd_sb}
use tx_driver.Ondisk.Layout.{Fits}
use tx_driver.Print.{codes, print_sb_info, print_sizes, txd_allocated_mem_info}
use tx_driver.Print.Shown.{Agree, print_sb_info_injective}

-- The error number is not printed.
abbrev failed_superblock : Superblock
failed_superblock = record (new_superblock 1024) { s_errno = 5 }

failed_superblock-Fits : Fits failed_superblock
failed_superblock-Fits =
    let f = new_superblock-Fits 1024 (omega arith) in
    record {
      signature = f.signature;
      blocktype = f.blocktype;
      t_id = f.t_id;
      blocksize = f.blocksize;
      maxlen = f.maxlen;
      first = f.first;
      sequence = f.sequence;
      start = f.start;
      errno = omega arith;
      padding = f.padding;
    }

same_print :
    print_sb_info (some (new_superblock 1024)) [] ≡ print_sb_info (some failed_superblock) []
unfolding print_sb_info
same_print = refl

print_sb_info_injective_example :
    Agree (new_superblock 1024) failed_superblock
    × (chk_txd_sb (new_superblock 1024) 1024 ≡ chk_txd_sb failed_superblock 1024)
print_sb_info_injective_example =
    print_sb_info_injective (new_superblock 1024) failed_superblock 1024 []
      (new_superblock-Fits 1024 (omega arith)) failed_superblock-Fits same_print

-- A size of half the range and more is printed as a negative number.
printed_numbers :
    (int_text 1024 ≡ codes "1024")
    × (int_text (2 ^ 31) ≡ codes "-2147483648")
    × (int_text (2 ^ 32 - 1) ≡ codes "-1")
    × (natural_text sixteen 48879 ≡ codes "beef")
    × (natural_text ten 0 ≡ codes "0")
unfolding int_text natural_text digits digit_char
printed_numbers = (refl, refl, refl, refl, refl)

printed_sizes :
    print_sizes []
    ≡ ok tt (
        codes
          "\nsuper block size        : 64 \ndescriptor block size   : 64 \ncommit block size       : 64 \n\n")
unfolding print_sizes natural_text digits digit_char
printed_sizes = refl

printed_superblock :
    print_sb_info (some (new_superblock 1024)) []
    ≡ ok tt (
        codes "\n TXD super block information \n    signature       : 484a53\n"
        ++ codes "    blocktype       : 42535854\n    tid             : 0\n"
        ++ codes "    blocksize       : 4096\n    maxlen          : 1024\n"
        ++ codes "    log start address : 1\n    sequence        : 0\n"
        ++ codes "    journal start   : 0\n\n")
unfolding print_sb_info int_text natural_text digits digit_char new_superblock init_journal_header
printed_superblock = refl

printed_counter :
    (txd_allocated_mem_info fresh_memory [] ≡ ok tt (codes "   allocated mem size : 0"))
    × (print_sb_info none [] ≡ aborted)
unfolding txd_allocated_mem_info print_sb_info natural_text digits digit_char
printed_counter = (refl, refl)
