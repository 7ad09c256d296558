-- ===== src/Spdk/Blocks.antt =====
-- The abstract view of a namespace: a byte at every address, written and read in blocks.
use tx_driver.Base.{
  ℕ, zero, suc, ◌+◌, ◌-◌, ◌*◌, ◌≤◌, ◌<◌, ◌≡◌, refl, ap, ◌∙◌, List, [], ◌∷◌, arith, length, get_or,
  ltb, if◌then◌else◌, ◌⊎◌, inl, inr,
}
use tx_driver.Spdk.Transfer.{Params}

abbrev pub Disc : Type 0
Disc = ℕ → ℕ

abbrev pub block_size : ℕ
block_size = 512

-- Some bytes put in from an address on.
unfoldable pub patch : Disc → (start : ℕ) → List ℕ → Disc
patch c start bytes a =
    if ltb a start
    then c a
    else if ltb a (start + length bytes)
    then get_or bytes (a - start) 0
    else c a

-- The `n` bytes from an address on.
abbrev pub slice : Disc → (start n : ℕ) → List ℕ
slice c start zero = []
slice c start (suc n) = c start ∷ slice c (start + 1) n

pub data Op : Type 0 where
  write : Params → Op
  read : Params → Op

-- The transfer is as long as its blocks, which are on the namespace.
pub record IsSized (capacity : ℕ) (params : Params) : Type 0 where
  pub on_disc : params.lba + params.lba_count ≤ capacity
  pub filled : length params.buf ≡ params.buf_size
  pub blocks : params.buf_size ≡ block_size * params.lba_count

abbrev pub params_of : Op → Params
params_of (write params) = params
params_of (read params) = params

pub data AllSized (capacity : ℕ) : List Op → Type 0 where
  no_more : AllSized capacity []
  one_more :
      {op : Op} {ops : List Op}
      → IsSized capacity (params_of op)
      → AllSized capacity ops
      → AllSized capacity (op ∷ ops)

-- What the reads return, and what is left.
abbrev pub written : Disc → Params → Disc
written c params = patch c (block_size * params.lba) params.buf

abbrev pub fetched : Disc → Params → List ℕ
fetched c params = slice c (block_size * params.lba) params.buf_size

abbrev pub observe : Disc → List Op → List (List ℕ)
observe c [] = []
observe c (write params ∷ ops) = observe (written c params) ops
observe c (read params ∷ ops) = fetched c params ∷ observe c ops

abbrev pub after : Disc → List Op → Disc
after c [] = c
after c (write params ∷ ops) = after (written c params) ops
after c (read params ∷ ops) = after c ops

pub length-slice : (c : Disc) (start n : ℕ) → length (slice c start n) ≡ n
length-slice c start zero = refl
length-slice c start (suc n) = ap suc (length-slice c (start + 1) n)

-- A slice of what is behind, or in front of, what was put in.
slice-ext :
    (c c' : Disc) (start n : ℕ)
    → ((a : ℕ) → start ≤ a → a < start + n → c a ≡ c' a)
    → slice c start n ≡ slice c' start n
slice-ext c c' start zero h = refl
slice-ext c c' start (suc n) h =
    let head = h start (omega arith) (omega arith) in
    let rest = slice-ext c c' (start + 1) n (λ a low high. h a (omega arith) (omega arith)) in
    λ i. head i ∷ rest i

pub slice-patch_apart :
    (c : Disc) (start : ℕ) (bytes : List ℕ) (from n : ℕ)
    → (from + n ≤ start) ⊎ (start + length bytes ≤ from)
    → slice (patch c start bytes) from n ≡ slice c from n
unfolding patch
slice-patch_apart c start bytes from n (inl below) =
    slice-ext (patch c start bytes) c from n (λ a low high. ground arith)
slice-patch_apart c start bytes from n (inr above) =
    slice-ext (patch c start bytes) c from n (λ a low high. ground arith)

-- A slice of exactly what was put in.
slice_listed :
    (c : Disc) (start : ℕ) (bytes : List ℕ)
    → ((i : ℕ) → i < length bytes → c (start + i) ≡ get_or bytes i 0)
    → slice c start (length bytes) ≡ bytes
slice_listed c start [] h = refl
slice_listed c start (x ∷ xs) h =
    let here : start ≡ start + 0 = omega arith in
    let head : c start ≡ x = ap c here ∙ h 0 (omega arith) in
    let rest = slice_listed c (start + 1) xs (λ i low.
      let moved : start + 1 + i ≡ start + suc i = omega arith in
      ap c moved ∙ h (suc i) (omega arith)) in
    λ i. head i ∷ rest i

pub slice-patch_same :
    (c : Disc) (start : ℕ) (bytes : List ℕ)
    → slice (patch c start bytes) start (length bytes) ≡ bytes
unfolding patch
slice-patch_same c start bytes =
    slice_listed (patch c start bytes) start bytes (λ i low. ground arith)
