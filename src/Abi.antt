-- ===== src/Abi.antt =====
-- Struct layout on x86-64, for the `sizeof` expressions of the source: each member stands at the
-- next multiple of its alignment, and the size is rounded up to the largest alignment.
pub mod Offsets
use tx_driver.Base.{ℕ, ◌+◌, ◌-◌, ◌*◌, ◌/◌, List, [], ◌∷◌, ltb, if◌then◌else◌}

pub record Member : Type 0 where
  pub size : ℕ
  pub align : ℕ

abbrev pub align_up : ℕ → ℕ → ℕ
align_up offset align = (offset + align - 1) / align * align

-- The end of the last member, from the offset reached so far.
abbrev pub end_of : ℕ → List Member → ℕ
end_of offset [] = offset
end_of offset (f ∷ fs) = end_of (align_up offset f.align + f.size) fs

abbrev pub max_align : List Member → ℕ
max_align [] = 1
max_align (f ∷ fs) = let rest = max_align fs in if ltb rest f.align then f.align else rest

abbrev pub sizeof : List Member → ℕ
sizeof fs = align_up (end_of 0 fs) (max_align fs)

abbrev pub scalar : ℕ → Member
scalar n = record { size = n; align = n }

abbrev pub byte_array : ℕ → Member
byte_array n = record { size = n; align = 1 }

abbrev pub sizeof_pointer : ℕ
sizeof_pointer = 8

-- `struct list_head`: two pointers
abbrev pub list_head_member : Member
list_head_member = record { size = 2 * sizeof_pointer; align = sizeof_pointer }

abbrev pub sizeof_list_head : ℕ
sizeof_list_head = 2 * sizeof_pointer
