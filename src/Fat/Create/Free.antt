-- ===== src/Fat/Create/Free.antt =====
-- The free count that `createFAT32` stores.
use tlibc.Base.{ℕ, ◌+◌, ◌-◌, ◌*◌, ◌%◌, ◌^◌, ◌≤◌, ◌<◌, ◌≡◌, refl, ◌∙◌, Memory, arith}
use tlibc.Endian.{ByteOrder, size}
use tlibc.Fields.{lookup_num}
use tlibc.Fat.Layout.{free_count, get_fsi}
use tlibc.Fat.Create.{
  FatConfig, u32, fat_sectors, both_fats, entries_per_sector, clusters_on_disk, free_entries,
  fsi_items, image,
}
use tlibc.Fat.Create.Config.{IsUsable, usable-HasGeometry}
use tlibc.Fat.Create.Image.{mul_mono}
use tlibc.Fat.Create.Read.{get_fsi-image}

-- The entries of both tables, counted in 32 bits, do not wrap around.
entries_fit : (s f n e : ℕ) → s * n < 2 ^ 32 → f * 2 ≤ n → e * 4 ≤ s → f * 2 * e * 4 < 2 ^ 32
entries_fit s f n e small fit quarter = omega (
  arith,
  mul_mono s (f * 2) n fit,
  mul_mono (f * 2) (e * 4) s quarter,
  reorder (f * 2) e,
  swapped s (f * 2),
)
  where
    reorder : (a e : ℕ) → a * (e * 4) ≡ a * e * 4
    reorder a e = grind arith

    swapped : (a b : ℕ) → a * b ≡ b * a
    swapped a b = grind arith

-- The free count of a fresh volume is the number of entries of both copies of the table, less 3:
-- at least the number of clusters that the whole disk could hold, its reserved and FAT sectors
-- included.
pub free_count-image :
    (o : ByteOrder) (c : FatConfig) (buf : ℕ)
    → IsUsable c
    → (m : Memory)
    → (get_fsi o (image o c buf m) (buf + c.bytes_per_sector * 1) free_count
        ≡ fat_sectors c * 2 * entries_per_sector c - 3)
      × (clusters_on_disk c ≤ fat_sectors c * 2 * entries_per_sector c - 3)
unfolding lookup_num fsi_items size
free_count-image o c buf u m =
    let g = usable-HasGeometry c u in
    let small =
      entries_fit c.bytes_per_sector (fat_sectors c) c.n_sector (entries_per_sector c) u.small
        (omega (arith, g.regions)) (omega arith) in
    let few : 3 ≤ clusters_on_disk c = u.clusters in
    let holds = g.holds in
    (
      get_fsi-image o c buf u m free_count (free_entries c) refl
          ∙ count (both_fats c) (fat_sectors c) (entries_per_sector c) (clusters_on_disk c) g.both
              small holds few,
      enough (fat_sectors c) (entries_per_sector c) (clusters_on_disk c) holds few,
    )
  where
    count :
        (b f e k : ℕ)
        → b ≡ f * 2
        → f * 2 * e * 4 < 2 ^ 32
        → k ≤ f * e
        → 3 ≤ k
        → u32 (u32 (b * e) + 2 ^ 32 - 3) % 2 ^ 32 ≡ f * 2 * e - 3
    count b f e k eq small holds few = rw eq (omega (arith, twice f e))
      where
        twice : (f e : ℕ) → f * 2 * e ≡ f * e * 2
        twice f e = grind arith

    enough : (f e k : ℕ) → k ≤ f * e → 3 ≤ k → k ≤ f * 2 * e - 3
    enough f e k holds few = omega (arith, twice' f e)
      where
        twice' : (f e : ℕ) → f * 2 * e ≡ f * e * 2
        twice' f e = grind arith
