-- ===== src/Fat/Create/Read.antt =====
-- What is read from the image that `createFAT32` leaves.
use tlibc.Base.{
  ℕ, ◌+◌, ◌*◌, ◌%◌, ◌^◌, ◌≤◌, ◌<◌, ◌≡◌, inl, refl, ◌∙◌, some, Memory, memset, read_out-cong, arith,
}
use tlibc.Endian.{ByteOrder, w32, size, load_le}
use tlibc.Endian.Laws.{load_le-cong}
use tlibc.Fields.{put_items, lookup_num}
use tlibc.Fields.Laws.{put_items-lookup_num}
use tlibc.Fat.Layout.{
  Bpb, jmp_boot_0, bpb_offset, bpb_width, get_bpb, FsInfo, lead_signature, fsi_offset, get_fsi,
}
use tlibc.Fat.Create.{FatConfig, fat_sectors, bpb_items, fsi_items, table_items, image}
use tlibc.Fat.Create.Config.{IsUsable, HasGeometry, usable-HasGeometry}
use tlibc.Fat.Create.Image.{
  with_bpb-inside, with_fsi-inside, with_fsi-outside, with_tables-outside, with_tables-first,
  with_root-outside, with_root-inside, regions_in_order, bpb_written, fsi_written, tables_written,
}

pub bpb_fits : (f : Bpb) → bpb_offset f + size (bpb_width f) ≤ 512
unfolding size
bpb_fits jmp_boot_0 = omega arith
bpb_fits _ = omega arith

fsi_fits : (f : FsInfo) → fsi_offset f + 4 ≤ 512
fsi_fits lead_signature = omega arith
fsi_fits _ = omega arith

module _ (o : ByteOrder) (c : FatConfig) (buf : ℕ) (u : IsUsable c) (m : Memory) where
  abbrev s : ℕ
  s = c.bytes_per_sector

  g : HasGeometry c
  g = usable-HasGeometry c u

  image-bpb :
      (q : ℕ)
      → buf ≤ q
      → q < buf + 512
      → image o c buf m q ≡ put_items o (memset m buf 0 512) buf (bpb_items c) q
  unfolding image
  image-bpb q lo hi =
      let (e8, e9, en) = regions_in_order o c buf u in
      with_root-outside o c buf u (tables_written o c buf u m) q (inl (omega (arith, g.sector_lo)))
      ∙ with_tables-outside o c buf u (fsi_written o c buf u m) q (inl (omega (arith, g.sector_lo)))
      ∙ with_fsi-outside o c buf u (bpb_written o c buf u m) q (inl (omega (arith, g.sector_lo)))
      ∙ with_bpb-inside o c buf u m q lo hi

  -- Each number of the BPB that the function stores is read back, as far as it fits its field.
  pub get_bpb-image :
      (f : Bpb) (v : ℕ)
      → lookup_num (bpb_offset f) (bpb_width f) (bpb_items c) ≡ some v
      → get_bpb o (image o c buf m) buf f ≡ v % 256 ^ size (bpb_width f)
  get_bpb-image f v e =
      load_le-cong o (bpb_width f) (image o c buf m)
        (put_items o (memset m buf 0 512) buf (bpb_items c)) (buf + bpb_offset f)
        (buf + bpb_offset f)
        (read_out-cong (image o c buf m) (put_items o (memset m buf 0 512) buf (bpb_items c))
          (buf + bpb_offset f) (size (bpb_width f))
          (λ q lo hi. image-bpb q (omega arith) (omega (arith, bpb_fits f))))
      ∙ put_items-lookup_num o (memset m buf 0 512) buf (bpb_offset f) (bpb_width f) v (bpb_items c)
          e

  image-fsi :
      (q : ℕ)
      → buf + s ≤ q
      → q < buf + s + 512
      → image o c buf m q ≡ put_items o (bpb_written o c buf u m) (buf + s * 1) (fsi_items c) q
  unfolding image
  image-fsi q lo hi =
      let (e8, e9, en) = regions_in_order o c buf u in
      with_root-outside o c buf u (tables_written o c buf u m) q (inl (omega (arith, g.sector_lo)))
      ∙ with_tables-outside o c buf u (fsi_written o c buf u m) q (inl (omega (arith, g.sector_lo)))
      ∙ with_fsi-inside o c buf u (bpb_written o c buf u m) q lo hi

  -- So is each number of FSInfo.
  pub get_fsi-image :
      (f : FsInfo) (v : ℕ)
      → lookup_num (fsi_offset f) w32 (fsi_items c) ≡ some v
      → get_fsi o (image o c buf m) (buf + s * 1) f ≡ v % 2 ^ 32
  unfolding size
  get_fsi-image f v e =
      let fsi = put_items o (bpb_written o c buf u m) (buf + s * 1) (fsi_items c) in
      let at = buf + s * 1 + fsi_offset f in
      load_le-cong o w32 (image o c buf m) fsi at at (
        read_out-cong (image o c buf m) fsi at 4
          (λ q lo hi. image-fsi q (omega arith) (omega (arith, fsi_fits f))))
      ∙ put_items-lookup_num o (bpb_written o c buf u m) (buf + s * 1) (fsi_offset f) w32 v
          (fsi_items c) e

  image-table :
      (q : ℕ)
      → buf + s * 8 ≤ q
      → q < buf + s * 8 + 12
      → image o c buf m q
        ≡ put_items o
            (memset (fsi_written o c buf u m) (buf + s * 8) 0 (s * (fat_sectors c * 2)))
            (buf + s * 8)
            (table_items c)
            q
  unfolding image
  image-table q lo hi =
      let (e8, e9, en) = regions_in_order o c buf u in
      with_root-outside o c buf u (tables_written o c buf u m) q (inl (omega (arith, g.sector_lo)))
      ∙ with_tables-first o c buf u (fsi_written o c buf u m) q lo hi

  -- The entry of cluster 2, the root directory, ends its chain.
  pub root_entry : load_le o w32 (image o c buf m) (buf + s * 8 + 8) ≡ 0xFFFFFFFF
  unfolding size lookup_num table_items
  root_entry =
      let before = memset (fsi_written o c buf u m) (buf + s * 8) 0 (s * (fat_sectors c * 2)) in
      let table = put_items o before (buf + s * 8) (table_items c) in
      load_le-cong o w32 (image o c buf m) table (buf + s * 8 + 8) (buf + s * 8 + 8) (
        read_out-cong (image o c buf m) table (buf + s * 8 + 8) 4
          (λ q lo hi. image-table q (omega arith) (omega arith)))
      ∙ put_items-lookup_num o before (buf + s * 8) 8 w32 0xFFFFFFFF (table_items c) refl

  -- The first cluster of the root directory is zero.
  pub root_is_zero :
      (q : ℕ)
      → buf + s * (8 + fat_sectors c * 2) ≤ q
      → q < buf + s * (8 + fat_sectors c * 2) + s * c.cluster_size
      → image o c buf m q ≡ 0
  unfolding image
  root_is_zero q lo hi = with_root-inside o c buf u (tables_written o c buf u m) q lo hi
