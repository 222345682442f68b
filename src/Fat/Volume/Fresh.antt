-- ===== src/Fat/Volume/Fresh.antt =====
-- What createFAT32 of gpt/fat.c makes is a volume.
use tlibc.Base.{ℕ, ◌+◌, ◌-◌, ◌*◌, ◌/◌, ◌^◌, ◌≤◌, ◌<◌, ◌≡◌, refl, ◌∙◌, Memory, arith}
use native.Mathlib.Nat.{div-mul-le_self, le-div_iff_mul-le}
use tlibc.Endian.{ByteOrder, size}
use tlibc.Fields.{lookup_num}
use tlibc.Fat.Layout.{next_free, free_count}
use tlibc.Fat.Create.{
  FatConfig, u32, fat_sectors, entries_per_sector, clusters_on_disk, free_entries, fsi_items, image,
}
use tlibc.Fat.Create.Config.{IsUsable, HasGeometry, usable-HasGeometry}
use tlibc.Fat.Create.Read.{get_fsi-image, root_is_zero}
use tlibc.Fat.Create.Free.{free_count-image}
use tlibc.Fat.Mount.Tables.{HasRoom}
use tlibc.Fat.Mount.Fresh.{fresh_super, super_numbers-image, read_cluster_size, first_entry}
use tlibc.Fat.Volume.{IsLaidOut, IsVolume}
use tlibc.Fat.Volume.Regions.{
  quarter, sector-mul, clusters_small, clusters_inside, data_sector, root_behind, cluster_whole,
  max_small, slot_inside,
}

module _ (c : FatConfig) (buf : ℕ) (u : IsUsable c) where
  g : HasGeometry c
  g = usable-HasGeometry c u

  abbrev s : ℕ
  s = c.bytes_per_sector

  abbrev f : ℕ
  f = fat_sectors c

  abbrev cs : ℕ
  cs = c.cluster_size

  abbrev max : ℕ
  max = (c.n_sector - 8 - f * 2) / cs

  max_fits : max * cs ≤ c.n_sector - 8 - f * 2
  max_fits = div-mul-le_self (c.n_sector - 8 - f * 2) cs

  max_few : max ≤ clusters_on_disk c
  max_few = (le-div_iff_mul-le (omega (arith, g.cluster_lo))).1 (omega (arith, max_fits))

  max_holds : max ≤ f * (s / 4)
  max_holds = trans_le max_few g.holds
    where
      trans_le : {a b d : ℕ} → a ≤ b → b ≤ d → a ≤ d
      trans_le h k = omega (arith, h, k)

  room_lem : HasRoom (fresh_super c buf)
  unfolding fresh_super
  room_lem =
      let q = quarter f s u.accepted.sector_size in
      rw q.0 (below max (s * f) (f * (s / 4)) q.1 max_holds)
    where
      below : (k z e : ℕ) → e * 4 ≡ z → k ≤ e → k * 4 ≤ z
      below k z e h le = omega (arith, h, le)

  pub fresh-IsLaidOut : IsLaidOut (fresh_super c buf)
  unfolding fresh_super
  fresh-IsLaidOut =
      let sz = u.accepted.sector_size in
      let at =
        sector-mul s f cs c.n_sector max buf sz g.sector_lo g.cluster_lo g.few u.small g.regions
          max_fits in
      record {
        sector_lo = g.sector_lo;
        info = refl;
        sector_1 = at 1 (omega (arith, u.accepted.sectors)) ∙ omega arith;
        sector_6 = at 6 (omega (arith, u.accepted.sectors));
        sector_7 = at 7 (omega (arith, u.accepted.sectors));
        two_tables = refl;
        root_is_2 = refl;
        room = room_lem;
        tables = λ t d ht hd.
            slot_inside s f cs c.n_sector max buf sz g.sector_lo g.cluster_lo g.few u.small
              g.regions max_fits t d ht hd max_holds g.sector_hi;
        root_lo =
            root_behind s f cs c.n_sector max buf sz g.sector_lo g.cluster_lo g.few u.small
              g.regions max_fits;
        entries =
            whole (cs * s)
              (cluster_whole s f cs c.n_sector max buf sz g.sector_lo g.cluster_lo g.few u.small
                g.regions max_fits).1;
        cluster_lo =
            (cluster_whole s f cs c.n_sector max buf sz g.sector_lo g.cluster_lo g.few u.small
              g.regions max_fits).0;
        clusters =
            max_small s f cs c.n_sector max buf sz g.sector_lo g.cluster_lo g.few u.small g.regions
              max_fits;
        small =
            clusters_small s f cs c.n_sector max buf sz g.sector_lo g.cluster_lo g.few u.small
              g.regions max_fits;
        data_at =
            data_sector s f cs c.n_sector max buf sz g.sector_lo g.cluster_lo g.few u.small
              g.regions max_fits;
        inside = in_volume _ _ _ (
            clusters_inside s f cs c.n_sector max buf sz g.sector_lo g.cluster_lo g.few u.small
              g.regions max_fits (max - 2) (sub_le max));
      }
    where
      whole : (k : ℕ) → k < 2 ^ 32 → k / 32 ≡ u32 k / 32
      whole k h = omega arith

      sub_le : (k : ℕ) → k - 2 ≤ k
      sub_le k = omega arith

      in_volume : (a b z : ℕ) → a + b ≤ z → buf + a + b ≤ buf + z
      in_volume a b z h = omega (arith, h)

  fsi_at : buf + s * 1 ≡ buf + s
  fsi_at = omega arith

  -- What `createFAT32` leaves of a usable configuration is a volume: the next free cluster is the
  -- one behind the root directory.
  pub fresh-IsVolume :
      (o : ByteOrder) (m : Memory)
      → 3 ≤ max
      → IsVolume o (fresh_super c buf) 3 (f * 2 * entries_per_sector c - 3) (image o c buf m)
  unfolding fresh_super fsi_items lookup_num size
  fresh-IsVolume o m few = record {
    numbers = super_numbers-image o c buf u m;
    divisor = λ e. absurd (omega (arith, read_cluster_size o c buf u m, e, g.cluster_lo));
    root_end = first_entry o c buf u m;
    next = rw (← fsi_at) (get_fsi-image o c buf u m next_free 3 refl);
    count = rw (← fsi_at) (free_count-image o c buf u m).0;
    free_hi = omega (
      arith,
      (free_count-image o c buf u m).0,
      get_fsi-image o c buf u m free_count (free_entries c) refl,
    );
    lo = omega arith;
    hi = few;
    enough = omega (arith, max_few, (free_count-image o c buf u m).1);
    used = λ i h. absurd (omega arith);
    unused = λ i _ h.
        root_is_zero o c buf u m (buf + s * (8 + f * 2) + i * 32) (omega arith) (below i cs s h);
    entry_hi = omega arith;
  }
    where
      below :
          (i k z : ℕ)
          → i < k * z / 32
          → buf + s * (8 + f * 2) + i * 32 < buf + s * (8 + f * 2) + z * k
      below i k z h = omega (arith, h, comm)
        where
          comm : k * z ≡ z * k
          comm = grind arith
