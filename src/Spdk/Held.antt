-- ===== src/Spdk/Held.antt =====
-- Blocks of libc that the entries of the lists stand in: live, and not live once given back.
use tx_driver.Base.{
  subst, ℕ, ◌+◌, ◌<◌, ◌≡◌, refl, true, false, some, List, [], ◌∷◌, arith, Bool-cases, Option-cases,
  inl, inr, ◌==◌, ◌&&◌, suc, dec_lt, ◌++◌,
}
use tx_driver.Malloc.{Memory, Block, libc, take_back, same_source}
use tx_driver.Malloc.Owned.{take_back-head, take_back-tail}
use tx_driver.Spdk.State.{is_live}

-- The blocks stand in the order of their addresses, the newest first, all below `bound`.
pub data Below : ℕ → List Block → Type 0 where
  empty : {bound : ℕ} → Below bound []
  newest :
      {bound : ℕ} {b : Block} {bs : List Block}
      → b.addr < bound
      → Below b.addr bs
      → Below bound (b ∷ bs)

-- The blocks at these addresses are live in libc, each once.
pub data Holding : List ℕ → List Block → Type 0 where
  none_held : {bs : List Block} → Holding [] bs
  one_more :
      {p : ℕ} {ps : List ℕ} {bs rest : List Block}
      → take_back libc p bs ≡ some rest
      → Holding ps rest
      → Holding (p ∷ ps) bs

not_live :
    {bound : ℕ} {bs : List Block} (p : ℕ) → Below bound bs → bound < p + 1 → is_live p bs ≡ false
unfolding is_live
not_live p empty h = refl
not_live p (newest lt below) h = ground (arith, not_live p below (omega arith))

pub Below-weaken : {a b : ℕ} {bs : List Block} → a < b → Below a bs → Below b bs
Below-weaken h empty = empty
Below-weaken h (newest lt below) = newest (omega arith) below

-- Giving back a block keeps the order, and its address is not live again.
pub take_back-Below :
    (p bound : ℕ) (bs : List Block) {rest : List Block}
    → Below bound bs
    → take_back libc p bs ≡ some rest
    → Below bound rest × (is_live p rest ≡ false) × (is_live p bs ≡ true)
unfolding take_back is_live
take_back-Below p bound [] below e = cc
take_back-Below p bound (b ∷ bs) {rest} (newest lt below) e =
    elim (Bool-cases ((b.addr == p) && same_source b.source libc)) [
      | inl here ↦
          let same : bs ≡ rest = ground (arith, here, e) in
          subst (λ r. Below bound r × (is_live p r ≡ false) × (is_live p (b ∷ bs) ≡ true)) same
            (Below-weaken lt below, not_live p below (ground (arith, here)), rw here)
      | inr further ↦ elim (Option-cases (take_back libc p bs)) [
        | inl missing ↦ absurd (ground (arith, further, missing, e))
        | inr (r, taken) ↦
            let (under, gone, there) = take_back-Below p b.addr bs below taken in
            let same : b ∷ r ≡ rest = ground (arith, further, taken, e) in
            subst (λ r'. Below bound r' × (is_live p r' ≡ false) × (is_live p (b ∷ bs) ≡ true)) same
              (newest lt under, rw (further, gone), rw (further, there))
      ]
    ]

-- What is not live does not come back when another block is given back.
pub take_back_gone :
    (p q : ℕ) (bs : List Block) {rest : List Block}
    → take_back libc q bs ≡ some rest
    → is_live p bs ≡ false
    → is_live p rest ≡ false
unfolding take_back is_live
take_back_gone p q [] e h = cc
take_back_gone p q (b ∷ bs) {rest} e h =
    elim (Bool-cases ((b.addr == q) && same_source b.source libc)) [
      | inl here ↦
          let same : bs ≡ rest = ground (arith, here, e) in
          subst (λ r. is_live p r ≡ false) same (ground (arith, h))
      | inr further ↦ elim (Option-cases (take_back libc q bs)) [
        | inl missing ↦ absurd (ground (arith, further, missing, e))
        | inr (r, taken) ↦
            let same : b ∷ r ≡ rest = ground (arith, further, taken, e) in
            subst (λ r'. is_live p r' ≡ false) same (ground (arith, h, take_back_gone p q bs taken))
      ]
    ]

-- An address that is live is below the bound.
pub taken-Below :
    (p bound : ℕ) (bs : List Block) {rest : List Block}
    → Below bound bs
    → take_back libc p bs ≡ some rest
    → p < bound
taken-Below p bound bs below taken = elim (dec_lt p bound) [
  | yes lower ↦ lower
  | no higher ↦
      let (_, _, there) = take_back-Below p bound bs below taken in
      cc (there, not_live p below (omega arith))
]

-- A younger block leaves what is held alone.
pub Holding-cons :
    {ps : List ℕ} (bound : ℕ) (b : Block) (bs : List Block)
    → Below bound bs
    → bound < b.addr + 1
    → Holding ps bs
    → Holding ps (b ∷ bs)
Holding-cons bound b bs below h none_held = none_held
Holding-cons bound b bs below h (one_more {p} {rest = rest} taken held) =
    one_more
      (take_back-tail libc p b bs rest (omega (arith, taken-Below p bound bs below taken)) taken)
      (Holding-cons bound b rest (take_back-Below p bound bs below taken).0 h held)

pub Below-cons :
    (bound : ℕ) (b : Block) (bs : List Block)
    → Below bound bs
    → bound < b.addr + 1
    → Below (suc b.addr) (b ∷ bs)
Below-cons bound b [] below h = newest (omega arith) empty
Below-cons bound b (c ∷ cs) (newest lt below) h = newest (omega arith) (newest (omega arith) below)

-- The entries at these addresses are held in blocks that stand in the order of their addresses.
pub record Sound (ps : List ℕ) (m : Memory) : Type 0 where
  pub below : Below m.serial m.live
  pub held : Holding ps m.live

-- The memory with one more block of libc.
abbrev pub with_entry : ℕ → Memory → Memory
with_entry bytes m = record m {
  live = record { addr = m.serial; bytes = bytes; source = libc } ∷ m.live;
  serial = suc m.serial;
}

-- The newest block is held in front of what is held, or behind some of it.
Holding-insert :
    (ps qs : List ℕ) (bytes bound : ℕ) (bs : List Block)
    → Below bound bs
    → Holding (ps ++ qs) bs
    → Holding (ps ++ (bound ∷ qs)) (record { addr = bound; bytes = bytes; source = libc } ∷ bs)
Holding-insert [] qs bytes bound bs below held =
    one_more (take_back-head (record { addr = bound; bytes = bytes; source = libc }) bs) held
Holding-insert (p ∷ ps) qs bytes bound bs below (one_more {rest = rest} taken held) =
    one_more
      (take_back-tail libc p (record { addr = bound; bytes = bytes; source = libc }) bs rest
        (taken-Below p bound bs below taken) taken)
      (Holding-insert ps qs bytes bound rest (take_back-Below p bound bs below taken).0 held)

pub Sound-insert :
    (ps qs : List ℕ) (bytes : ℕ) (m : Memory)
    → Sound (ps ++ qs) m
    → Sound (ps ++ (m.serial ∷ qs)) (with_entry bytes m)
Sound-insert ps qs bytes m s = record {
  below =
      Below-cons m.serial (record { addr = m.serial; bytes = bytes; source = libc }) m.live s.below
        (omega arith);
  held = Holding-insert ps qs bytes m.serial m.live s.below s.held;
}
