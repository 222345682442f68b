-- ===== src/Fat/Mount.antt =====
-- `struct FAT32Super` of gpt/fat.c and its functions: the view of a mounted image.
pub mod Fresh
pub mod Tables
use tlibc.Base.{
  ℕ, zero, suc, ◌+◌, ◌-◌, ◌*◌, ◌/◌, ◌%◌, ◌^◌, Bool, true, false, ◌||◌, ◌&&◌, Option, none, some,
  Memory, memcpy, ltb, leb, ◌==◌, if◌then◌else◌, ◌>>=◌, not,
}
use tlibc.Endian.{ByteOrder, w32, load_le, store_le}
use tlibc.Fat.Layout.{
  bytes_per_sector, num_sector_per_cluster, num_reserved_sectors, num_alloc_table, num_sectors_32,
  fat_size_32, root_cluster, get_bpb, entry_size,
}
use tlibc.Fat.Create.{u32}

-- The BPB lies at `buf`.
pub record Super : Type 0 where
  pub buf : ℕ
  pub fs_info : ℕ
  pub bytes_per_sector : ℕ
  pub bytes_per_cluster : ℕ
  pub bytes_per_fat : ℕ
  pub num_sector : ℕ
  pub num_reserved : ℕ
  pub num_fat : ℕ
  pub num_data : ℕ
  pub max_cluster : ℕ
  pub root_cluster : ℕ
  pub num_entry_table : ℕ
  pub root_dir : ℕ
  pub next_root_entry : ℕ
  pub num_root_entry : ℕ

-- `FAT32SuperGetSector`, of the fields that it reads. NULL is 0.
unfoldable pub get_sector : ℕ → ℕ → ℕ → ℕ → ℕ
get_sector start sectors bps sector = if leb sectors sector then 0 else start + u32 (sector * bps)

-- `FAT32SuperCluster`
cluster_address : Super → ℕ → ℕ
cluster_address sb cluster =
    if ltb cluster 2 || leb sb.max_cluster cluster
    then 0
    else sb.buf
      + u32 (
          u32 (sb.bytes_per_sector * u32 (sb.num_fat + sb.num_reserved))
          + u32 (sb.bytes_per_cluster * (cluster - 2)))

-- `sb->tables[i]`: each table stands `bytesPerFAT / 4` entries behind the one before.
abbrev pub table_address : Super → ℕ → ℕ
table_address sb i =
    sb.buf + u32 (sb.bytes_per_sector * sb.num_reserved) + i * (sb.bytes_per_fat / 4 * 4)

-- `while (nextPtr != 0xFFFFFFFFu)`: how many clusters the root directory has. `none`: the fuel ran
-- out.
unfoldable pub walk_root : ℕ → ByteOrder → Memory → ℕ → ℕ → ℕ → Option ℕ
walk_root zero o m table next count = none
walk_root (suc fuel) o m table next count =
    let rest = walk_root fuel o m table (load_le o w32 m (table + next * 4)) (u32 (count + 1)) in
    if next == 0xFFFFFFFF then some count else rest

-- The first root entry whose name begins with 0, among the `left` from the `i`-th on.
unfoldable pub scan_root : ℕ → Memory → ℕ → ℕ → ℕ
scan_root zero m root_dir i = i
scan_root (suc left) m root_dir i =
    let rest = scan_root left m root_dir (i + 1) in
    if m (root_dir + i * entry_size) == 0 then i else rest

-- The numbers that `FAT32SuperInit` computes before it walks the root directory.
unfoldable pub super_numbers : ByteOrder → Memory → ℕ → Super
super_numbers o m buf =
    let bps = get_bpb o m buf bytes_per_sector in
    let per_cluster = get_bpb o m buf num_sector_per_cluster in
    let fat_size = get_bpb o m buf fat_size_32 in
    let sectors = get_bpb o m buf num_sectors_32 in
    let reserved = get_bpb o m buf num_reserved_sectors in
    let tables = get_bpb o m buf num_alloc_table in
    let fats = u32 (fat_size * tables) in
    let data_sectors = u32 (u32 (sectors + 2 ^ 32 - reserved) + 2 ^ 32 - fats) in
    record {
      buf = buf;
      fs_info = get_sector buf sectors bps 1;
      bytes_per_sector = bps;
      bytes_per_cluster = u32 (per_cluster * bps);
      bytes_per_fat = u32 (fat_size * bps);
      num_sector = sectors;
      num_reserved = reserved;
      num_fat = fats;
      num_data = data_sectors;
      max_cluster = data_sectors / per_cluster;
      root_cluster = get_bpb o m buf root_cluster;
      num_entry_table = tables;
      root_dir = get_sector buf sectors bps (u32 (reserved + fats));
      next_root_entry = 0;
      num_root_entry = 0;
    }

unfoldable pub with_root_entries : Memory → Super → ℕ → Super
with_root_entries m sb count =
    let entries = u32 (count * sb.bytes_per_cluster) / entry_size in
    record sb { num_root_entry = entries; next_root_entry = scan_root entries m sb.root_dir 0 }

-- `FAT32SuperInit`. `none`: a division by 0 traps, or the fuel ran out on the root directory's
-- chain.
unfoldable pub super_init : ℕ → ByteOrder → Memory → ℕ → Option Super
super_init fuel o m buf =
    let sb = super_numbers o m buf in
    let first = load_le o w32 m (table_address sb 0 + sb.root_cluster * 4) in
    let walked = walk_root fuel o m (table_address sb 0) first 1 in
    if get_bpb o m buf num_sector_per_cluster == 0
    then none
    else (walked >>= λ count. some (with_root_entries m sb count))

-- `FAT32SuperReadEntry`. `none`: the assertion fails.
read_entry : ByteOrder → Memory → Super → ℕ → Option ℕ
read_entry o m sb cluster =
    if ltb cluster sb.max_cluster
    then some (load_le o w32 m (table_address sb 0 + cluster * 4))
    else none

-- The loop over the tables, from table `i` on.
unfoldable pub write_tables : ByteOrder → Super → ℕ → ℕ → ℕ → ℕ → Memory → Memory
write_tables o sb zero i cluster value m = m
write_tables o sb (suc left) i cluster value m =
    write_tables o sb left (i + 1) cluster value
      (store_le o w32 m (table_address sb i + cluster * 4) value)

-- `FAT32SuperWriteEntry`. `none`: an assertion fails.
pub write_entry : ByteOrder → Memory → Super → ℕ → ℕ → Option Memory
write_entry o m sb cluster value =
    if ltb cluster sb.max_cluster && leb 1 cluster
    then some (write_tables o sb sb.num_entry_table 0 cluster value m)
    else none

-- `FAT32SuperFree`: sector 0 to sector 6, sector 1 to sector 7.
unfoldable pub super_free : Memory → Super → Memory
super_free m sb =
    let at = get_sector sb.buf sb.num_sector sb.bytes_per_sector in
    let m1 = memcpy m (at 6) sb.buf sb.bytes_per_sector in
    memcpy m1 (at 7) (at 1) sb.bytes_per_sector
