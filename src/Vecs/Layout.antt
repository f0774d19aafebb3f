-- ===== src/Vecs/Layout.antt =====
-- Sizes and alignments: vecs/src/freestanding_vec.rs, `HeaderSpace` and the constants.
pub mod Multiples
use lockness.Prelude.{ℕ, ◌+◌, ◌-◌, ◌*◌, ◌%◌, ◌^◌, max, ◌==◌, leb, if◌then◌else◌}

-- `size_of` and the logarithm of `align_of`; a size is a multiple of the alignment.
pub record TypeLayout : Type 0 where
  pub size : ℕ
  pub log_align : ℕ

abbrev pub align : TypeLayout → ℕ
align t = 2 ^ t.log_align

-- `usize::next_multiple_of`.
unfoldable pub next_multiple_of : ℕ → ℕ → ℕ
next_multiple_of x m = if x % m == 0 then x else x + (m - x % m)

-- The layout of the union of `Header<M>` and a type.
unfoldable pub header_space : TypeLayout → TypeLayout → TypeLayout
unfolding next_multiple_of
header_space header t = record {
  size = next_multiple_of (max header.size t.size) (2 ^ max header.log_align t.log_align);
  log_align = max header.log_align t.log_align;
}

abbrev pub unit_layout : TypeLayout
unit_layout = record { size = 0; log_align = 0 }

abbrev pub header_size : TypeLayout → TypeLayout → ℕ
header_size header t = (header_space header t).size

unfoldable pub min_non_zero_cap : TypeLayout → TypeLayout → ℕ
min_non_zero_cap header t =
    (if t.size == 1 then 8 else (if leb t.size 1024 then 4 else 1)) * t.size + header_size header t

-- `usize::MAX` and `isize::MAX` on a 64-bit target.
abbrev pub usize_max : ℕ
usize_max = 0xffff_ffff_ffff_ffff

abbrev pub isize_max : ℕ
isize_max = 0x7fff_ffff_ffff_ffff

abbrev pub header_alignment : TypeLayout → TypeLayout → ℕ
header_alignment header t = align (header_space header t) % 2 ^ 32

abbrev pub elem_size : TypeLayout → ℕ
elem_size t = t.size % 2 ^ 32
