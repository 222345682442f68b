-- ===== src/Fat/Create/Image.antt =====
-- The image that `createFAT32` leaves: where it writes, and what its structs hold.
use tlibc.Base.{ℕ, ◌+◌, ◌*◌, ◌≤◌, ◌<◌, ◌≡◌, ◌⊎◌, inl, refl, ◌∙◌, true, Memory, memset, arith}
use tlibc.Endian.{ByteOrder}
use tlibc.Fields.{put_items, fits_in}
use tlibc.Fields.Laws.{put_items-outside}
use tlibc.Fat.Create.{
  FatConfig, u32, fat_sectors, both_fats, reserved_sectors, sector_at, bpb_items, fsi_items,
  table_items, with_bpb, with_fsi, with_tables, with_root, image,
}
use tlibc.Fat.Create.Config.{IsUsable, HasGeometry, usable-HasGeometry}

pub mul_mono : (s a b : ℕ) → a ≤ b → s * a ≤ s * b
mul_mono s a b h = grind arith

bpb_items-fits_in : (c : FatConfig) → fits_in 512 (bpb_items c) ≡ true
unfolding bpb_items fits_in
bpb_items-fits_in c = refl

fsi_items-fits_in : (c : FatConfig) → fits_in 512 (fsi_items c) ≡ true
unfolding fsi_items fits_in
fsi_items-fits_in c = refl

table_items-fits_in : (c : FatConfig) → fits_in 12 (table_items c) ≡ true
unfolding table_items fits_in
table_items-fits_in c = refl

module _ (o : ByteOrder) (c : FatConfig) (buf : ℕ) (u : IsUsable c) where
  abbrev s : ℕ
  s = c.bytes_per_sector

  g : HasGeometry c
  g = usable-HasGeometry c u

  -- A sector of the volume lies at the product, which does not wrap around.
  sector_at-mul : (k : ℕ) → k ≤ c.n_sector → sector_at c buf k ≡ buf + s * k
  sector_at-mul k h = omega (arith, mul_mono s k c.n_sector h, u.small)

  with_bpb-outside :
      (m : Memory) (q : ℕ) → (q < buf) ⊎ (buf + s * 8 ≤ q) → with_bpb o c buf m q ≡ m q
  unfolding with_bpb
  with_bpb-outside m q h = rw (sector_at-mul 6 (omega (arith, u.accepted.sectors))) (
      ground (
        arith,
        g.sector_lo,
        put_items-outside o (memset m buf 0 512) buf 512 q (bpb_items c) (bpb_items-fits_in c),
      ))

  -- In the first 512 bytes stands the BPB.
  pub with_bpb-inside :
      (m : Memory) (q : ℕ)
      → buf ≤ q
      → q < buf + 512
      → with_bpb o c buf m q ≡ put_items o (memset m buf 0 512) buf (bpb_items c) q
  unfolding with_bpb
  with_bpb-inside m q lo hi =
      rw (sector_at-mul 6 (omega (arith, u.accepted.sectors))) (ground (arith, g.sector_lo))

  pub with_fsi-outside :
      (m : Memory) (q : ℕ) → (q < buf + s) ⊎ (buf + s * 8 ≤ q) → with_fsi o c buf m q ≡ m q
  unfolding with_fsi
  with_fsi-outside m q h =
      rw
        (
          sector_at-mul 7 (omega (arith, u.accepted.sectors)),
          sector_at-mul 1 (omega (arith, u.accepted.sectors)),
        )
        (ground (
          arith,
          g.sector_lo,
          put_items-outside o m (buf + s * 1) 512 q (fsi_items c) (fsi_items-fits_in c),
        ))

  -- In sector 1 stand the numbers of FSInfo.
  pub with_fsi-inside :
      (m : Memory) (q : ℕ)
      → buf + s ≤ q
      → q < buf + s + 512
      → with_fsi o c buf m q ≡ put_items o m (buf + s * 1) (fsi_items c) q
  unfolding with_fsi
  with_fsi-inside m q lo hi =
      rw
        (
          sector_at-mul 7 (omega (arith, u.accepted.sectors)),
          sector_at-mul 1 (omega (arith, u.accepted.sectors)),
        )
        (ground (arith, g.sector_lo))

  table_end : u32 (reserved_sectors + fat_sectors c) ≡ 8 + fat_sectors c
  table_end = omega (arith, g.table_hi)

  data_start : u32 (reserved_sectors + both_fats c) ≡ 8 + fat_sectors c * 2
  data_start = omega (arith, g.both, g.table_hi)

  fats_size : u32 (s * both_fats c) ≡ s * (fat_sectors c * 2)
  fats_size =
      rw g.both (
        omega
          (arith, mul_mono s (fat_sectors c * 2) c.n_sector (omega (arith, g.regions)), u.small))

  root_size : u32 (s * c.cluster_size) ≡ s * c.cluster_size
  root_size =
      omega (arith, mul_mono s c.cluster_size c.n_sector (omega (arith, g.regions)), u.small)

  pub with_tables-outside :
      (m : Memory) (q : ℕ)
      → (q < buf + s * 8) ⊎ (buf + s * (8 + fat_sectors c * 2) ≤ q)
      → with_tables o c buf m q ≡ m q
  unfolding with_tables
  with_tables-outside m q h =
      rw
        (
          fats_size,
          table_end,
          sector_at-mul 8 (omega (arith, u.accepted.sectors)),
          sector_at-mul (8 + fat_sectors c) (omega (arith, g.regions)),
        )
        (tables (fat_sectors c) g.table h)
    where
      tables :
          (f : ℕ)
          → 1 ≤ f
          → (q < buf + s * 8) ⊎ (buf + s * (8 + f * 2) ≤ q)
          → put_items o
              (put_items o (memset m (buf + s * 8) 0 (s * (f * 2))) (buf + s * 8) (table_items c))
              (buf + s * (8 + f))
              (table_items c)
              q
            ≡ m q
      tables f pos h = ground (
        arith,
        g.sector_lo,
        mul_mono s 1 f pos,
        put_items-outside o
            (put_items o (memset m (buf + s * 8) 0 (s * (f * 2))) (buf + s * 8) (table_items c))
            (buf + s * (8 + f)) 12 q (table_items c) (table_items-fits_in c),
        put_items-outside o (memset m (buf + s * 8) 0 (s * (f * 2))) (buf + s * 8) 12 q
            (table_items c) (table_items-fits_in c),
      )

  pub with_root-outside :
      (m : Memory) (q : ℕ)
      → (q < buf + s * (8 + fat_sectors c * 2)) ⊎ (buf + s * c.n_sector ≤ q)
      → with_root c buf m q ≡ m q
  unfolding with_root
  with_root-outside m q h =
      rw (data_start, root_size, sector_at-mul (8 + fat_sectors c * 2) (omega (arith, g.regions)))
        (root (fat_sectors c) g.regions h)
    where
      root :
          (f : ℕ)
          → 8 + f * 2 + c.cluster_size ≤ c.n_sector
          → (q < buf + s * (8 + f * 2)) ⊎ (buf + s * c.n_sector ≤ q)
          → memset m (buf + s * (8 + f * 2)) 0 (s * c.cluster_size) q ≡ m q
      root f fit h = ground (arith, mul_mono s (8 + f * 2 + c.cluster_size) c.n_sector fit)

  -- In the first table stand the three reserved entries.
  pub with_tables-first :
      (m : Memory) (q : ℕ)
      → buf + s * 8 ≤ q
      → q < buf + s * 8 + 12
      → with_tables o c buf m q
        ≡ put_items o
            (memset m (buf + s * 8) 0 (s * (fat_sectors c * 2)))
            (buf + s * 8)
            (table_items c)
            q
  unfolding with_tables
  with_tables-first m q lo hi =
      rw
        (
          fats_size,
          table_end,
          sector_at-mul 8 (omega (arith, u.accepted.sectors)),
          sector_at-mul (8 + fat_sectors c) (omega (arith, g.regions)),
        )
        (put_items-outside o
          (put_items o (memset m (buf + s * 8) 0 (s * (fat_sectors c * 2))) (buf + s * 8)
            (table_items c))
          (buf + s * (8 + fat_sectors c)) 12 q (table_items c) (table_items-fits_in c)
          (inl (below (fat_sectors c) g.table)))
    where
      below : (f : ℕ) → 1 ≤ f → q < buf + s * (8 + f)
      below f pos = omega (arith, g.sector_lo, mul_mono s 1 f pos)

  pub with_root-inside :
      (m : Memory) (q : ℕ)
      → buf + s * (8 + fat_sectors c * 2) ≤ q
      → q < buf + s * (8 + fat_sectors c * 2) + s * c.cluster_size
      → with_root c buf m q ≡ 0
  unfolding with_root
  with_root-inside m q lo hi =
      rw (data_start, root_size, sector_at-mul (8 + fat_sectors c * 2) (omega (arith, g.regions)))
        (ground arith)

  pub regions_in_order :
      (s * 8 ≤ s * (8 + fat_sectors c * 2))
      × (s * 8 + s ≤ s * (8 + fat_sectors c * 2))
      × (s * (8 + fat_sectors c * 2) ≤ s * c.n_sector)
  regions_in_order = order (fat_sectors c) g.table g.regions
    where
      order :
          (f : ℕ)
          → 1 ≤ f
          → 8 + f * 2 + c.cluster_size ≤ c.n_sector
          → (s * 8 ≤ s * (8 + f * 2))
            × (s * 8 + s ≤ s * (8 + f * 2))
            × (s * (8 + f * 2) ≤ s * c.n_sector)
      order f pos fit =
          omega (arith, mul_mono s 1 f pos, mul_mono s (8 + f * 2) c.n_sector (omega arith))

  module _ (m : Memory) where
    abbrev pub bpb_written : Memory
    bpb_written = with_bpb o c buf m

    abbrev pub fsi_written : Memory
    fsi_written = with_fsi o c buf bpb_written

    abbrev pub tables_written : Memory
    tables_written = with_tables o c buf fsi_written

    -- For a configuration that is accepted and has a volume of less than 4 GiB (`IsUsable`),
    -- `createFAT32` writes to its volume of `nSector` sectors alone.
    pub image-outside : (q : ℕ) → (q < buf) ⊎ (buf + s * c.n_sector ≤ q) → image o c buf m q ≡ m q
    unfolding image
    image-outside q h =
        let (e8, e9, en) = regions_in_order in
        with_root-outside tables_written q
          (apart_from (s * (8 + fat_sectors c * 2)) (s * c.n_sector) h en)
        ∙ with_tables-outside fsi_written q
            (both_from (s * 8) (s * (8 + fat_sectors c * 2)) (s * c.n_sector) h en)
        ∙ with_fsi-outside bpb_written q (both_from s (s * 8) (s * c.n_sector) h (omega arith))
        ∙ with_bpb-outside m q (from_start (s * 8) (s * c.n_sector) h (omega arith))
      where
        apart_from : (a n : ℕ) → (q < buf) ⊎ (buf + n ≤ q) → a ≤ n → (q < buf + a) ⊎ (buf + n ≤ q)
        apart_from a n h le = omega arith

        from_start : (b n : ℕ) → (q < buf) ⊎ (buf + n ≤ q) → b ≤ n → (q < buf) ⊎ (buf + b ≤ q)
        from_start b n h le = omega arith

        both_from : (a b n : ℕ) → (q < buf) ⊎ (buf + n ≤ q) → b ≤ n → (q < buf + a) ⊎ (buf + b ≤ q)
        both_from a b n h le = omega arith
