-- ===== src/Bags/CachePadded.antt =====
-- bags/src/cache_padded.rs: the alignment of a padded value.
pub mod Lines
use lockness.Prelude.{ℕ, ◌+◌, ◌^◌, max, Bool, true, false, ◌||◌, not, if◌then◌else◌}
use lockness.Vecs.Layout.{TypeLayout, next_multiple_of}

-- `target_arch`, as far as the source tells the architectures apart.
pub data Arch : Type 0 where
  x86_64 aarch64 arm64ec powerpc64 : Arch
  arm mips mips32r6 mips64 mips64r6 sparc hexagon : Arch
  m68k s390x : Arch
  others : Arch

-- The conditions of the five `cfg_attr`.
abbrev pub align_128 : Arch → Bool
align_128 x86_64 = true
align_128 aarch64 = true
align_128 arm64ec = true
align_128 powerpc64 = true
align_128 _ = false

abbrev pub align_32 : Arch → Bool
align_32 arm = true
align_32 mips = true
align_32 mips32r6 = true
align_32 mips64 = true
align_32 mips64r6 = true
align_32 sparc = true
align_32 hexagon = true
align_32 _ = false

abbrev pub align_16 : Arch → Bool
align_16 m68k = true
align_16 _ = false

abbrev pub align_256 : Arch → Bool
align_256 s390x = true
align_256 _ = false

abbrev pub align_64 : Arch → Bool
align_64 x86_64 = false
align_64 aarch64 = false
align_64 arm64ec = false
align_64 powerpc64 = false
align_64 arm = false
align_64 mips = false
align_64 mips32r6 = false
align_64 mips64 = false
align_64 mips64r6 = false
align_64 sparc = false
align_64 hexagon = false
align_64 m68k = false
align_64 s390x = false
align_64 _ = true

-- The logarithm of the largest `repr(align)` whose condition holds.
unfoldable pub log_repr : Arch → ℕ
log_repr a = max (if align_128 a then 7 else 0) (
    max (if align_32 a then 5 else 0) (
      max (if align_16 a then 4 else 0)
        (max (if align_256 a then 8 else 0) (if align_64 a then 6 else 0))))

-- The layout of a `CachePadded<T>`, a struct with one field at its start.
unfoldable pub cache_padded : Arch → TypeLayout → TypeLayout
unfolding log_repr next_multiple_of
cache_padded a t = record {
  size = next_multiple_of t.size (2 ^ max (log_repr a) t.log_align);
  log_align = max (log_repr a) t.log_align;
}
