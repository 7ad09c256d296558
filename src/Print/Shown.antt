-- ===== src/Print/Shown.antt =====
-- What `print_sb_info` prints determines the fields that it prints.
use mathlib.Core.List.{append_assoc, append_cancel_left}
use Prim.Native.String.{String}
use tx_driver.Base.{
  ℕ, ◌^◌, ◌<◌, ◌≡◌, refl, sym, ◌∙◌, some, List, [], ◌∷◌, ◌++◌, ok, sixteen, natural_text, int_text,
  arith, Above, Above-weaken, natural_text-Above, int_text-Above, natural_text_injective,
  int_text_injective, line_split,
}
use tx_driver.Ondisk.{Superblock, chk_txd_sb}
use tx_driver.Ondisk.Layout.{Fits}
use tx_driver.Print.{codes, print_sb_info}

-- The text, from the first character on.
abbrev after : String → List ℕ → List ℕ → List ℕ
after label number rest = codes label ++ (number ++ (b'\n' ∷ rest))

superblock_text : Superblock → List ℕ
superblock_text sb =
    codes "\n TXD super block information \n"
    ++ after "    signature       : " (natural_text sixteen sb.s_header.txd_signature) (
        after "    blocktype       : " (natural_text sixteen sb.s_header.txd_blocktype) (
          after "    tid             : " (natural_text sixteen sb.s_header.txd_t_id) (
            after "    blocksize       : " (int_text sb.s_blocksize) (
              after "    maxlen          : " (int_text sb.s_maxlen) (
                after "    log start address : " (int_text sb.s_first) (
                  after "    sequence        : " (int_text sb.s_sequence)
                    (after "    journal start   : " (int_text sb.s_start) (b'\n' ∷ []))))))))

print_sb_info-superblock_text :
    (sb : Superblock) (out : List ℕ)
    → print_sb_info (some sb) out ≡ ok tt (out ++ superblock_text sb)
unfolding print_sb_info superblock_text
print_sb_info-superblock_text sb out = simp (append_assoc)

after-split :
    (label : String) (cs ds : List ℕ) {rest rest' : List ℕ}
    → Above b'\n' cs
    → Above b'\n' ds
    → after label cs rest ≡ after label ds rest'
    → (cs ≡ ds) × (rest ≡ rest')
after-split label cs ds a b e = line_split b'\n' cs ds a b (append_cancel_left (codes label) _ _ e)

hex_split :
    (label : String) (n m : ℕ) {rest rest' : List ℕ}
    → after label (natural_text sixteen n) rest ≡ after label (natural_text sixteen m) rest'
    → (n ≡ m) × (rest ≡ rest')
hex_split label n m e =
    let above : (k : ℕ) → Above b'\n' (natural_text sixteen k) =
      λ k. Above-weaken (omega arith) (natural_text-Above sixteen k) in
    let (same, more) = after-split label _ _ (above n) (above m) e in
    (natural_text_injective sixteen n m same, more)

int_split :
    (label : String) (n m : ℕ) {rest rest' : List ℕ}
    → n < 2 ^ 32
    → m < 2 ^ 32
    → after label (int_text n) rest ≡ after label (int_text m) rest'
    → (n ≡ m) × (rest ≡ rest')
int_split label n m h k e =
    let above : (i : ℕ) → Above b'\n' (int_text i) =
      λ i. Above-weaken (omega arith) (int_text-Above i) in
    let (same, more) = after-split label _ _ (above n) (above m) e in
    (int_text_injective n m h k same, more)

-- The fields of two superblocks that are printed are the same.
pub record Agree (sb sb' : Superblock) : Type 0 where
  pub header : sb.s_header ≡ sb'.s_header
  pub blocksize : sb.s_blocksize ≡ sb'.s_blocksize
  pub maxlen : sb.s_maxlen ≡ sb'.s_maxlen
  pub first : sb.s_first ≡ sb'.s_first
  pub sequence : sb.s_sequence ≡ sb'.s_sequence
  pub start : sb.s_start ≡ sb'.s_start

superblock_text_injective :
    (sb sb' : Superblock)
    → Fits sb
    → Fits sb'
    → superblock_text sb ≡ superblock_text sb'
    → Agree sb sb'
unfolding superblock_text
superblock_text_injective sb sb' f f' e =
    let e₁ = append_cancel_left (codes "\n TXD super block information \n") _ _ e in
    let (signature, e₂) = hex_split "    signature       : " _ _ e₁ in
    let (blocktype, e₃) = hex_split "    blocktype       : " _ _ e₂ in
    let (t_id, e₄) = hex_split "    tid             : " _ _ e₃ in
    let (blocksize, e₅) = int_split "    blocksize       : " _ _ f.blocksize f'.blocksize e₄ in
    let (maxlen, e₆) = int_split "    maxlen          : " _ _ f.maxlen f'.maxlen e₅ in
    let (first, e₇) = int_split "    log start address : " _ _ f.first f'.first e₆ in
    let (sequence, e₈) = int_split "    sequence        : " _ _ f.sequence f'.sequence e₇ in
    let (start, _) = int_split "    journal start   : " _ _ f.start f'.start e₈ in
    record {
      header = λ i. record {
        txd_signature = signature i;
        txd_blocktype = blocktype i;
        txd_t_id = t_id i;
      };
      blocksize = blocksize;
      maxlen = maxlen;
      first = first;
      sequence = sequence;
      start = start;
    }

printed : {A S : Type 0} {a b : A} {s s' : S} → ok a s ≡ ok b s' → s ≡ s'
printed e = cc

-- Two superblocks whose fields fit their types, and after whose `print_sb_info` the same has been printed
-- from the same on, agree in their headers and in every other field that is printed, and `chk_txd_sb`
-- makes the same of both, whatever the size.
pub print_sb_info_injective :
    (sb sb' : Superblock) (txd_size : ℕ) (out : List ℕ)
    → Fits sb
    → Fits sb'
    → print_sb_info (some sb) out ≡ print_sb_info (some sb') out
    → Agree sb sb' × (chk_txd_sb sb txd_size ≡ chk_txd_sb sb' txd_size)
unfolding chk_txd_sb
print_sb_info_injective sb sb' txd_size out f f' e =
    let texts =
      printed
        (sym (print_sb_info-superblock_text sb out) ∙ e ∙ print_sb_info-superblock_text sb' out) in
    let a = superblock_text_injective sb sb' f f' (append_cancel_left out _ _ texts) in
    (a, rw (a.header, a.maxlen) refl)
