-- ===== src/Fat/Data.antt =====
-- The helpers of gpt/fat.c on a BPB of any FAT, `numSectorDataRegion` and `clusterToFATEntry`.
use tlibc.Base.{
  ℕ, ◌+◌, ◌-◌, ◌*◌, ◌/◌, ◌%◌, ◌^◌, ◌≤◌, ◌<◌, ◌≡◌, Option, none, some, arith, ltb, ◌==◌,
  if◌then◌else◌, bit_or,
}
use native.Mathlib.Nat.{mod-lt}
use tlibc.Base.Bits.{bit_or_low, zero-bit_or}
use tlibc.Fat.Create.{u32}

-- The numbers of the BPB that they read, as the host sees them.
pub record Region : Type 0 where
  pub bytes_per_sector : ℕ
  pub root_entry_count : ℕ
  pub num_reserved : ℕ
  pub num_tables : ℕ
  pub fat_size_16 : ℕ
  pub fat_size_32 : ℕ
  pub num_sectors_16 : ℕ
  pub num_sectors_32 : ℕ

unfoldable pub fat_size : Region → ℕ
fat_size r = if r.fat_size_16 == 0 then r.fat_size_32 else r.fat_size_16

total_sectors : Region → ℕ
total_sectors r = if r.num_sectors_16 == 0 then r.num_sectors_32 else r.num_sectors_16

-- `none`: the assertion fails.
num_sector_data_region : Region → Option ℕ
num_sector_data_region r =
    let total = total_sectors r in
    let other = u32 (r.num_reserved + u32 (fat_size r * r.num_tables) + r.root_entry_count) in
    let rest = u32 (total + 2 ^ 32 - other) in if ltb rest total then some rest else none

-- `none`: the assertion fails, or a division by 0 traps.
pub cluster_to_fat_entry : Region → ℕ → Option ℕ
cluster_to_fat_entry r n =
    let offset = u32 (if r.fat_size_16 == 0 then n * 4 else n * 2) in
    let sector = u32 (r.num_reserved + offset / r.bytes_per_sector) in
    if fat_size r == 0
    then none
    else if r.bytes_per_sector == 0
    then none
    else some (bit_or (bit_or 0 (sector * 2 ^ 32)) (offset % r.bytes_per_sector))

-- The number of sectors in the data region, when the other regions do not add up past the volume
-- and are not empty.
num_sector_data_region-rest :
    (r : Region)
    → 1 ≤ r.num_reserved
    → total_sectors r < 2 ^ 32
    → r.num_reserved + fat_size r * r.num_tables + r.root_entry_count ≤ total_sectors r
    → num_sector_data_region r
      ≡ some (total_sectors r - (r.num_reserved + fat_size r * r.num_tables + r.root_entry_count))
unfolding num_sector_data_region
num_sector_data_region-rest r pos small fit =
    rest (total_sectors r) (fat_size r * r.num_tables) r.num_reserved r.root_entry_count pos small
      fit
  where
    rest :
        (t f v e : ℕ)
        → 1 ≤ v
        → t < 2 ^ 32
        → v + f + e ≤ t
        → (if ltb (u32 (t + 2 ^ 32 - u32 (v + u32 f + e))) t
            then some (u32 (t + 2 ^ 32 - u32 (v + u32 f + e)))
            else none)
          ≡ some (t - (v + f + e))
    rest t f v e pos small fit = ground arith

-- `clusterToFATEntry` of a FAT32 volume packs, without loss, the sector and the offset of entry
-- `n` of the first table: the sector in the high 32 bits, the offset in the low ones.
pub cluster_to_fat_entry-packed :
    (r : Region) (n : ℕ)
    → r.fat_size_16 ≡ 0
    → 1 ≤ r.fat_size_32
    → 1 ≤ r.bytes_per_sector
    → r.bytes_per_sector < 2 ^ 16
    → n * 4 < 2 ^ 32
    → r.num_reserved + n * 4 / r.bytes_per_sector < 2 ^ 32
    → cluster_to_fat_entry r n
      ≡ some ((r.num_reserved + n * 4 / r.bytes_per_sector) * 2 ^ 32 + n * 4 % r.bytes_per_sector)
unfolding cluster_to_fat_entry fat_size
cluster_to_fat_entry-packed r n e f lo hi fits few =
    let whole : n * 4 % 2 ^ 32 ≡ n * 4 = omega arith in
    let sector : (r.num_reserved + n * 4 / r.bytes_per_sector) % 2 ^ 32
        ≡ r.num_reserved + n * 4 / r.bytes_per_sector =
      omega arith in
    rw (e, zero-bit_or, whole, sector)
      (guards r.fat_size_32 r.bytes_per_sector f lo (
        bit_or_low 32 (r.num_reserved + n * 4 / r.bytes_per_sector) (n * 4 % r.bytes_per_sector)
          (offset r.bytes_per_sector lo hi)))
  where
    offset : (b : ℕ) → 1 ≤ b → b < 2 ^ 16 → n * 4 % b < 2 ^ 32
    offset b lo hi = omega (arith, mod-lt (n * 4) lo)

    guards :
        (k b : ℕ) {x y : ℕ}
        → 1 ≤ k
        → 1 ≤ b
        → x ≡ y
        → (if k == 0 then none else if b == 0 then none else some x) ≡ some y
    guards k b lo hi e = ground arith
