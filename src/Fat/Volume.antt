-- ===== src/Fat/Volume.antt =====
-- A mounted volume of gpt/fat.c: how its regions lie, and what its memory holds between two calls.
pub mod Mount
pub mod Regions
pub mod Fresh
pub mod Files
use tlibc.Base.{ℕ, ◌+◌, ◌-◌, ◌*◌, ◌/◌, ◌^◌, ◌≤◌, ◌<◌, ◌≡◌, ◌≢◌, ◌⊎◌, Memory}
use tlibc.Endian.{ByteOrder, w32, load_le}
use tlibc.Fat.Layout.{num_sector_per_cluster, get_bpb, next_free, free_count, get_fsi}
use tlibc.Fat.Create.{u32}
use tlibc.Fat.Mount.{Super, get_sector, super_numbers}
use tlibc.Fat.Mount.Tables.{slot, HasRoom}

-- The regions of a volume lie one behind the other: the sectors 0 to 7, the tables, the cluster of
-- the root directory and the clusters of the files.
pub record IsLaidOut (sb : Super) : Type 0 where
  pub sector_lo : 512 ≤ sb.bytes_per_sector
  pub info : sb.fs_info ≡ sb.buf + sb.bytes_per_sector
  pub sector_1 :
      get_sector sb.buf sb.num_sector sb.bytes_per_sector 1 ≡ sb.buf + sb.bytes_per_sector
  pub sector_6 :
      get_sector sb.buf sb.num_sector sb.bytes_per_sector 6 ≡ sb.buf + sb.bytes_per_sector * 6
  pub sector_7 :
      get_sector sb.buf sb.num_sector sb.bytes_per_sector 7 ≡ sb.buf + sb.bytes_per_sector * 7
  pub two_tables : sb.num_entry_table ≡ 2
  pub root_is_2 : sb.root_cluster ≡ 2
  pub room : HasRoom sb
  pub tables :
      (t d : ℕ)
      → t < 2
      → d < sb.max_cluster
      → (sb.buf + sb.bytes_per_sector * 8 ≤ slot sb t d) × (slot sb t d + 4 ≤ sb.root_dir)
  pub root_lo : sb.buf + sb.bytes_per_sector * 8 ≤ sb.root_dir
  pub entries : sb.num_root_entry ≡ u32 sb.bytes_per_cluster / 32
  pub cluster_lo : 512 ≤ sb.bytes_per_cluster
  pub clusters : sb.max_cluster < 2 ^ 23
  pub small : (k : ℕ) → k ≤ sb.max_cluster → k * sb.bytes_per_cluster < 2 ^ 32
  pub data_at :
      (n : ℕ)
      → 2 ≤ n
      → n < sb.max_cluster
      → get_sector sb.buf sb.num_sector sb.bytes_per_sector (
          u32 (
            u32 ((n - 2) * (sb.bytes_per_cluster / sb.bytes_per_sector))
            + u32 (sb.num_reserved + sb.num_fat)))
        ≡ sb.root_dir + (n - 2) * sb.bytes_per_cluster
  pub inside :
      sb.root_dir + (sb.max_cluster - 2) * sb.bytes_per_cluster
      ≤ sb.buf + sb.bytes_per_sector * sb.num_sector

-- A volume whose next free cluster is `n`, with a free count of `free`: the BPB says how the
-- regions lie, the root directory has one cluster, its entries are used one behind the other, and
-- the free count is enough for the clusters from `n` on.
pub record IsVolume (o : ByteOrder) (sb : Super) (n free : ℕ) (m : Memory) : Type 0 where
  pub numbers : super_numbers o m sb.buf ≡ record sb { next_root_entry = 0; num_root_entry = 0 }
  pub divisor : get_bpb o m sb.buf num_sector_per_cluster ≢ 0
  pub root_end : load_le o w32 m (slot sb 0 sb.root_cluster) ≡ 0xFFFFFFFF
  pub next : get_fsi o m sb.fs_info next_free ≡ n
  pub count : get_fsi o m sb.fs_info free_count ≡ free
  pub free_hi : free < 2 ^ 32
  pub lo : 3 ≤ n
  pub hi : n ≤ sb.max_cluster
  pub enough : sb.max_cluster ≤ n + free
  pub used : (i : ℕ) → i < sb.next_root_entry → m (sb.root_dir + i * 32) ≢ 0
  pub unused :
      (i : ℕ) → sb.next_root_entry ≤ i → i < sb.num_root_entry → m (sb.root_dir + i * 32) ≡ 0
  pub entry_hi : sb.next_root_entry ≤ sb.num_root_entry

-- Where the data of cluster `n` lies.
abbrev pub data_address : Super → ℕ → ℕ
data_address sb n = sb.root_dir + (n - 2) * sb.bytes_per_cluster

-- The addresses outside of the volume, and those of its first part: all in front of cluster `n`
-- but for the sectors 6 and 7.
abbrev pub Outside : Super → ℕ → Type 0
Outside sb q = (q < sb.buf) ⊎ (sb.buf + sb.bytes_per_sector * sb.num_sector ≤ q)

abbrev pub InFront : Super → ℕ → ℕ → Type 0
InFront sb n q =
    (q < sb.buf + sb.bytes_per_sector * 6)
    ⊎ ((sb.buf + sb.bytes_per_sector * 8 ≤ q) × (q < data_address sb n))
