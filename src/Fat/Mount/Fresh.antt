-- ===== src/Fat/Mount/Fresh.antt =====
-- A fresh image is mounted with the geometry that it was made with.
use tlibc.Base.{
  ℕ, zero, suc, ◌+◌, ◌-◌, ◌*◌, ◌/◌, ◌^◌, ◌≤◌, ◌≡◌, refl, ap, ◌∙◌, Option, none, some, ◌==◌, ◌>>=◌,
  Memory, arith, if◌then◌else◌,
}
use tlibc.Endian.{ByteOrder, w32, load_le, size}
use tlibc.Fields.{lookup_num}
use tlibc.Fat.Layout.{
  bytes_per_sector, num_sector_per_cluster, num_reserved_sectors, num_alloc_table, num_sectors_32,
  fat_size_32, root_cluster, get_bpb,
}
use tlibc.Fat.Create.{FatConfig, u32, fat_sectors, image, bpb_items}
use tlibc.Fat.Create.Config.{IsUsable, HasGeometry, usable-HasGeometry}
use tlibc.Fat.Create.Image.{mul_mono}
use tlibc.Fat.Create.Read.{get_bpb-image, root_entry, root_is_zero}
use tlibc.Fat.Mount.{
  Super, get_sector, super_init, super_numbers, walk_root, scan_root, with_root_entries,
  table_address,
}

-- What is known of a fresh volume: the FAT of cluster 2 onward is free, and the root directory is
-- its one cluster, with no entry in use.
unfoldable pub fresh_super : FatConfig → ℕ → Super
fresh_super c buf =
    let s = c.bytes_per_sector in
    let f = fat_sectors c in
    record {
      buf = buf;
      fs_info = buf + s;
      bytes_per_sector = s;
      bytes_per_cluster = c.cluster_size * s;
      bytes_per_fat = f * s;
      num_sector = c.n_sector;
      num_reserved = 8;
      num_fat = f * 2;
      num_data = c.n_sector - 8 - f * 2;
      max_cluster = (c.n_sector - 8 - f * 2) / c.cluster_size;
      root_cluster = 2;
      num_entry_table = 2;
      root_dir = buf + s * (8 + f * 2);
      next_root_entry = 0;
      num_root_entry = c.cluster_size * s / 32;
    }

module _ (o : ByteOrder) (c : FatConfig) (buf : ℕ) (u : IsUsable c) (m : Memory) where
  g : HasGeometry c
  g = usable-HasGeometry c u

  read_sector_size : get_bpb o (image o c buf m) buf bytes_per_sector ≡ c.bytes_per_sector
  unfolding bpb_items lookup_num size
  read_sector_size =
      get_bpb-image o c buf u m bytes_per_sector c.bytes_per_sector refl
      ∙ omega (arith, g.sector_hi)

  pub read_cluster_size : get_bpb o (image o c buf m) buf num_sector_per_cluster ≡ c.cluster_size
  unfolding bpb_items lookup_num size
  read_cluster_size =
      get_bpb-image o c buf u m num_sector_per_cluster c.cluster_size refl
      ∙ omega (arith, g.cluster_hi)

  read_reserved : get_bpb o (image o c buf m) buf num_reserved_sectors ≡ 8
  unfolding bpb_items lookup_num size
  read_reserved = get_bpb-image o c buf u m num_reserved_sectors 8 refl

  read_tables : get_bpb o (image o c buf m) buf num_alloc_table ≡ 2
  unfolding bpb_items lookup_num size
  read_tables = get_bpb-image o c buf u m num_alloc_table 2 refl

  read_sectors : get_bpb o (image o c buf m) buf num_sectors_32 ≡ c.n_sector
  unfolding bpb_items lookup_num size
  read_sectors = get_bpb-image o c buf u m num_sectors_32 c.n_sector refl ∙ omega (arith, g.few)

  read_fat_size : get_bpb o (image o c buf m) buf fat_size_32 ≡ fat_sectors c
  unfolding bpb_items lookup_num size
  read_fat_size =
      get_bpb-image o c buf u m fat_size_32 (fat_sectors c) refl ∙ omega (arith, g.table_hi)

  read_root : get_bpb o (image o c buf m) buf root_cluster ≡ 2
  unfolding bpb_items lookup_num size
  read_root = get_bpb-image o c buf u m root_cluster 2 refl

  abbrev s : ℕ
  s = c.bytes_per_sector

  cluster_bytes : u32 (c.cluster_size * s) ≡ c.cluster_size * s
  cluster_bytes =
      omega (arith, mul_mono s c.cluster_size c.n_sector (omega (arith, g.regions)), u.small)

  fats : (f : ℕ) → 8 + f * 2 + c.cluster_size ≤ c.n_sector → u32 (f * s) ≡ f * s
  fats f fit = omega (arith, mul_mono s f c.n_sector (omega arith), u.small)

  both : (f : ℕ) → 8 + f * 2 + c.cluster_size ≤ c.n_sector → u32 (f * 2) ≡ f * 2
  both f fit = omega (arith, g.few)

  data_sectors :
      (f : ℕ)
      → 8 + f * 2 + c.cluster_size ≤ c.n_sector
      → u32 (u32 (c.n_sector + 2 ^ 32 - 8) + 2 ^ 32 - u32 (f * 2)) ≡ c.n_sector - 8 - f * 2
  data_sectors f fit = omega (arith, g.few)

  info_at : get_sector buf c.n_sector s 1 ≡ buf + s
  unfolding get_sector
  info_at = ground (arith, g.sector_hi, u.accepted.sectors)

  root_at :
      (f : ℕ)
      → 8 + f * 2 + c.cluster_size ≤ c.n_sector
      → 1 ≤ c.cluster_size
      → get_sector buf c.n_sector s (u32 (8 + u32 (f * 2))) ≡ buf + s * (8 + f * 2)
  unfolding get_sector
  root_at f fit pos =
      rw (both f fit)
        (ground (arith, g.few, mul_mono s (8 + f * 2) c.n_sector (omega arith), u.small))

  pub super_numbers-image :
      super_numbers o (image o c buf m) buf ≡ record (fresh_super c buf) { num_root_entry = 0 }
  unfolding super_numbers fresh_super
  super_numbers-image =
      rw
        (
          read_sector_size, read_cluster_size, read_reserved, read_tables, read_sectors,
          read_fat_size, read_root,
        )
        (λ i. record {
          buf = buf;
          fs_info = info_at i;
          bytes_per_sector = s;
          bytes_per_cluster = cluster_bytes i;
          bytes_per_fat = fats (fat_sectors c) g.regions i;
          num_sector = c.n_sector;
          num_reserved = 8;
          num_fat = both (fat_sectors c) g.regions i;
          num_data = data_sectors (fat_sectors c) g.regions i;
          max_cluster = data_sectors (fat_sectors c) g.regions i / c.cluster_size;
          root_cluster = 2;
          num_entry_table = 2;
          root_dir = root_at (fat_sectors c) g.regions g.cluster_lo i;
          next_root_entry = 0;
          num_root_entry = 0;
        })

  table_start : buf + u32 (s * 8) + 0 * (fat_sectors c * s / 4 * 4) + 2 * 4 ≡ buf + s * 8 + 8
  table_start = omega (arith, g.sector_hi)

  pub first_entry :
      load_le o w32 (image o c buf m) (table_address (fresh_super c buf) 0 + 2 * 4) ≡ 0xFFFFFFFF
  unfolding fresh_super
  first_entry = ap (load_le o w32 (image o c buf m)) table_start ∙ root_entry o c buf u m

  root_is_one_cluster :
      (fuel : ℕ)
      → walk_root (suc fuel) o (image o c buf m) (table_address (fresh_super c buf) 0) 0xFFFFFFFF 1
        ≡ some 1
  unfolding walk_root
  root_is_one_cluster fuel = refl

  root_entries : u32 (1 * (c.cluster_size * s)) / 32 ≡ c.cluster_size * s / 32
  root_entries = omega (arith, cluster_bytes)

  root_is_empty :
      (left : ℕ) → scan_root left (image o c buf m) (buf + s * (8 + fat_sectors c * 2)) 0 ≡ 0
  unfolding scan_root
  root_is_empty zero = refl
  root_is_empty (suc left) = ground (
    arith,
    g.sector_lo,
    mul_mono s 1 c.cluster_size g.cluster_lo,
    root_is_zero o c buf u m (buf + s * (8 + fat_sectors c * 2) + 0),
  )

  with_root_entries-image :
      with_root_entries (image o c buf m) (record (fresh_super c buf) { num_root_entry = 0 }) 1
      ≡ fresh_super c buf
  unfolding with_root_entries fresh_super
  with_root_entries-image = λ i. record (fresh_super c buf) {
    num_root_entry = root_entries i;
    next_root_entry = root_is_empty (u32 (1 * (c.cluster_size * s)) / 32) i;
  }

  -- `FAT32SuperInit` mounts what `createFAT32` made of a usable configuration, with the geometry
  -- of the configuration and an empty root directory of one cluster.
  pub super_init-image :
      (fuel : ℕ) → super_init (suc fuel) o (image o c buf m) buf ≡ some (fresh_super c buf)
  unfolding super_init fresh_super
  super_init-image fuel =
      rw (read_cluster_size, super_numbers-image) (nonzero c.cluster_size g.cluster_lo _ ∙ walked)
    where
      nonzero : (k : ℕ) → 1 ≤ k → (x : Option Super) → (if k == 0 then none else x) ≡ x
      nonzero k h x = ground arith

      walked :
          (walk_root
              (suc fuel)
              o
              (image o c buf m)
              (table_address (fresh_super c buf) 0)
              (load_le o w32 (image o c buf m) (table_address (fresh_super c buf) 0 + 2 * 4))
              1
            >>= λ count. some (
                with_root_entries
                  (image o c buf m)
                  (record (fresh_super c buf) { num_root_entry = 0 })
                  count))
          ≡ some (fresh_super c buf)
      walked = rw (first_entry, root_is_one_cluster fuel) (ap some with_root_entries-image)
