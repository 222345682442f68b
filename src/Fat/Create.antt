-- ===== src/Fat/Create.antt =====
-- `createFAT32` of gpt/fat.c. A `uint32_t` is computed modulo 2 ^ 32.
pub mod Config
pub mod Image
pub mod Read
pub mod Free
use tlibc.Base.{
  ℕ, zero, suc, ◌+◌, ◌-◌, ◌*◌, ◌/◌, ◌%◌, ◌^◌, Bool, true, false, List, [], ◌∷◌, Memory, memset,
  memcpy, codes, ltb, ◌==◌, if◌then◌else◌, not, bit_or,
}
use tlibc.Endian.{ByteOrder, w32}
use tlibc.Fields.{Item, num, raw, put_items}
use tlibc.Fat.Layout.{
  Bpb, jmp_boot_0, jmp_boot_1, jmp_boot_2, bytes_per_sector, num_sector_per_cluster,
  num_reserved_sectors, num_alloc_table, root_entry_count, num_sectors_16, media, sectors_per_track,
  num_heads, hidden_sec, num_sectors_32, fat_size_32, ext_flags, revision, root_cluster, fs_info,
  boot_record_sector, driver_num, boot_signature, vol_serial_number, signature_byte_1,
  signature_byte_2, oef_name_offset, vol_label_offset, file_sys_type_offset, bpb_size, set_bpb,
  FsInfo, lead_signature, struct_signature, free_count, next_free, trail_signature, fsi_size,
  set_fsi,
}

-- `struct FATConfig`
pub record FatConfig : Type 0 where
  pub n_sector : ℕ
  pub bytes_per_sector : ℕ
  pub cluster_size : ℕ
  pub write_random_data : Bool
  pub is_fixed : Bool

-- `for (int i = first; i < limit; i *= 2) if (x == i) ...`; eight rounds are enough for both loops.
power_from : ℕ → ℕ → ℕ → ℕ → Bool
power_from zero limit i x = false
power_from (suc fuel) limit i x =
    let rest = power_from fuel limit (i * 2) x in
    if ltb i limit then (if x == i then true else rest) else false

pub bytes_is_valid : ℕ → Bool
bytes_is_valid x = power_from 9 8192 512 x

pub cluster_size_is_valid : ℕ → Bool
cluster_size_is_valid x = power_from 9 256 1 x

abbrev pub u32 : ℕ → ℕ
u32 x = x % 2 ^ 32

-- `CDIV(a, b)` in `uint32_t`
abbrev pub cdiv : ℕ → ℕ → ℕ
cdiv a b = u32 (u32 (a + b) + 2 ^ 32 - 1) / b

-- The constants that the function computes from the configuration.
abbrev pub entries_per_sector : FatConfig → ℕ
entries_per_sector c = c.bytes_per_sector / 4

abbrev pub clusters_on_disk : FatConfig → ℕ
clusters_on_disk c = c.n_sector / c.cluster_size

abbrev pub fat_sectors : FatConfig → ℕ
fat_sectors c = cdiv (clusters_on_disk c) (entries_per_sector c)

abbrev pub reserved_sectors : ℕ
reserved_sectors = 8

-- `numFATSector`: both copies.
abbrev pub both_fats : FatConfig → ℕ
both_fats c = u32 (fat_sectors c * 2)

abbrev pub free_entries : FatConfig → ℕ
free_entries c = u32 (u32 (both_fats c * entries_per_sector c) + 2 ^ 32 - 3)

abbrev media_byte : FatConfig → ℕ
media_byte c = if c.is_fixed then 0xF8 else 0xF0

unfoldable pub bpb_items : FatConfig → List Item
bpb_items c =
    set_bpb jmp_boot_0 0xeb
    ∷ set_bpb jmp_boot_1 0x00
    ∷ set_bpb jmp_boot_2 0x90
    ∷ raw oef_name_offset (codes "mkfs.fat")
    ∷ set_bpb bytes_per_sector c.bytes_per_sector
    ∷ set_bpb num_sector_per_cluster c.cluster_size
    ∷ set_bpb num_reserved_sectors reserved_sectors
    ∷ set_bpb num_alloc_table 2
    ∷ set_bpb root_entry_count 0
    ∷ set_bpb num_sectors_16 0
    ∷ set_bpb media (media_byte c)
    ∷ set_bpb sectors_per_track 32
    ∷ set_bpb num_heads 8
    ∷ set_bpb hidden_sec 0
    ∷ set_bpb num_sectors_32 c.n_sector
    ∷ set_bpb fat_size_32 (fat_sectors c)
    ∷ set_bpb ext_flags 0
    ∷ set_bpb revision 0
    ∷ set_bpb root_cluster 2
    ∷ set_bpb fs_info 1
    ∷ set_bpb boot_record_sector 6
    ∷ set_bpb driver_num 0x80
    ∷ set_bpb boot_signature 0x29
    ∷ set_bpb vol_serial_number 0xe5792f15
    ∷ raw vol_label_offset (codes "NO NAME    ")
    ∷ raw file_sys_type_offset (codes "FAT32   ")
    ∷ set_bpb signature_byte_1 0x55
    ∷ set_bpb signature_byte_2 0xaa
    ∷ []

unfoldable pub fsi_items : FatConfig → List Item
fsi_items c =
    set_fsi lead_signature 0x41615252
    ∷ set_fsi struct_signature 0x61417272
    ∷ set_fsi free_count (free_entries c)
    ∷ set_fsi next_free 0x3
    ∷ set_fsi trail_signature 0xAA550000
    ∷ []

-- `firstTable[0]` to `firstTable[2]`, and the same of the second table.
pub table_items : FatConfig → List Item
table_items c =
    num 0 w32 (bit_or 0xFFFF00 (media_byte c))
    ∷ num 4 w32 (bit_or 0x08000000 0x04000000)
    ∷ num 8 w32 0xFFFFFFFF
    ∷ []

-- The address of a sector, `buf + (sectorSize * sector)`.
abbrev pub sector_at : FatConfig → ℕ → ℕ → ℕ
sector_at c buf sector = buf + u32 (c.bytes_per_sector * sector)

pub with_bpb : ByteOrder → FatConfig → ℕ → Memory → Memory
with_bpb o c buf m =
    let m1 = put_items o (memset m buf 0 bpb_size) buf (bpb_items c) in
    memcpy m1 (sector_at c buf 6) buf bpb_size

pub with_fsi : ByteOrder → FatConfig → ℕ → Memory → Memory
with_fsi o c buf m =
    let m1 = put_items o m (sector_at c buf 1) (fsi_items c) in
    memcpy m1 (sector_at c buf 7) (sector_at c buf 1) fsi_size

pub with_tables : ByteOrder → FatConfig → ℕ → Memory → Memory
with_tables o c buf m =
    let fats = sector_at c buf reserved_sectors in
    let m1 = memset m fats 0 (u32 (c.bytes_per_sector * both_fats c)) in
    let m2 = put_items o m1 fats (table_items c) in
    put_items o m2 (sector_at c buf (u32 (reserved_sectors + fat_sectors c))) (table_items c)

pub with_root : FatConfig → ℕ → Memory → Memory
with_root c buf m =
    memset m (sector_at c buf (u32 (reserved_sectors + both_fats c))) 0
      (u32 (c.bytes_per_sector * c.cluster_size))

-- Everything that is written for an accepted configuration.
pub image : ByteOrder → FatConfig → ℕ → Memory → Memory
image o c buf m = with_root c buf (with_tables o c buf (with_fsi o c buf (with_bpb o c buf m)))

-- `refused` is the return of 1, and `asserted` a failed assertion: both before the first store.
pub data Created : Type 0 where
  refused asserted : Created
  created : Memory → Created

pub create_fat32 : ByteOrder → Memory → ℕ → FatConfig → Created
create_fat32 o m buf c =
    if ltb c.n_sector 16
    then refused
    else if not (bytes_is_valid c.bytes_per_sector)
    then refused
    else if not (cluster_size_is_valid c.cluster_size)
    then refused
    else if not (ltb 2 (clusters_on_disk c))
    then asserted
    else created (image o c buf m)
