-- ===== src/Fat/Create/Config.antt =====
-- Which configurations `createFAT32` accepts, and the geometry that it makes of one.
use tlibc.Base.{
  ℕ, ◌+◌, ◌*◌, ◌/◌, ◌^◌, ◌≤◌, ◌<◌, ◌≡◌, ◌⊎◌, inl, inr, ◌↔◌, true, Memory, arith, Bool-cases,
}
use tlibc.Endian.{ByteOrder}
use tlibc.Fat.Create.{
  FatConfig, power_from, bytes_is_valid, cluster_size_is_valid, cdiv, entries_per_sector,
  clusters_on_disk, fat_sectors, both_fats, refused, created, create_fat32, image,
}
use native.Mathlib.Decide.{dec_lt}

abbrev pub IsSectorSize : ℕ → Type 0
IsSectorSize x = (x ≡ 512) ⊎ (x ≡ 1024) ⊎ (x ≡ 2048) ⊎ (x ≡ 4096)

abbrev pub IsClusterSize : ℕ → Type 0
IsClusterSize x = (x ≡ 1) ⊎ (x ≡ 2) ⊎ (x ≡ 4) ⊎ (x ≡ 8) ⊎ (x ≡ 16) ⊎ (x ≡ 32) ⊎ (x ≡ 64) ⊎ (x ≡ 128)

bytes_is_valid_iff : (x : ℕ) → (bytes_is_valid x ≡ true) ↔ IsSectorSize x
unfolding bytes_is_valid power_from
bytes_is_valid_iff x = ground arith

cluster_size_is_valid_iff : (x : ℕ) → (cluster_size_is_valid x ≡ true) ↔ IsClusterSize x
unfolding cluster_size_is_valid power_from
cluster_size_is_valid_iff x = ground arith

-- At least 16 sectors, a sector size and a cluster size that FAT32 knows.
pub record IsAccepted (c : FatConfig) : Type 0 where
  pub sectors : 16 ≤ c.n_sector
  pub sector_size : IsSectorSize c.bytes_per_sector
  pub cluster : IsClusterSize c.cluster_size

-- `createFAT32` returns 1 exactly for a configuration that is not accepted: fewer than 16
-- sectors, a sector size other than 512, 1024, 2048 and 4096, or a cluster size that is no power
-- of two from 1 to 128.
pub create_fat32-refused_iff :
    (o : ByteOrder) (m : Memory) (buf : ℕ) (c : FatConfig)
    → (create_fat32 o m buf c ≡ refused) ↔ (¬ IsAccepted c)
unfolding create_fat32
create_fat32-refused_iff o m buf c = (
  (λ e a. ground (
    arith,
    e,
    a.sectors,
    (bytes_is_valid_iff c.bytes_per_sector).1 a.sector_size,
    (cluster_size_is_valid_iff c.cluster_size).1 a.cluster,
  )),
  λ n. elim (Bool-cases (bytes_is_valid c.bytes_per_sector)) [
    | inr f ↦ ground arith
    | inl t ↦ elim (Bool-cases (cluster_size_is_valid c.cluster_size)) [
      | inr f ↦ ground arith
      | inl t' ↦ elim (dec_lt c.n_sector 16) [
        | yes p ↦ ground arith
        | no p ↦ absurd (
            n (record {
              sectors = omega arith;
              sector_size = (bytes_is_valid_iff c.bytes_per_sector).0 t;
              cluster = (cluster_size_is_valid_iff c.cluster_size).0 t';
            }))
      ]
    ]
  ],
)

-- An accepted configuration with three clusters or more, on a volume smaller than 4 GiB.
pub record IsUsable (c : FatConfig) : Type 0 where
  pub accepted : IsAccepted c
  pub clusters : 3 ≤ clusters_on_disk c
  pub small : c.bytes_per_sector * c.n_sector < 2 ^ 32

pub create_fat32-image :
    (o : ByteOrder) (m : Memory) (buf : ℕ) (c : FatConfig)
    → IsUsable c
    → create_fat32 o m buf c ≡ created (image o c buf m)
unfolding create_fat32
create_fat32-image o m buf c u = ground (
  arith,
  u.clusters,
  u.accepted.sectors,
  (bytes_is_valid_iff c.bytes_per_sector).1 u.accepted.sector_size,
  (cluster_size_is_valid_iff c.cluster_size).1 u.accepted.cluster,
)

-- With `clusters` and a table of `fats` sectors, all regions fit `n` sectors.
regions_fit :
    (n cs : ℕ) → IsClusterSize cs → 16 ≤ n → 3 ≤ n / cs → 8 + (n / cs + 127) / 128 * 2 + cs ≤ n
regions_fit n cs (inl e) h k = rw e (omega (arith, rw e at k))
regions_fit n cs (inr (inl e)) h k = rw e (omega (arith, rw e at k))
regions_fit n cs (inr (inr (inl e))) h k = rw e (omega (arith, rw e at k))
regions_fit n cs (inr (inr (inr (inl e)))) h k = rw e (omega (arith, rw e at k))
regions_fit n cs (inr (inr (inr (inr (inl e))))) h k = rw e (omega (arith, rw e at k))
regions_fit n cs (inr (inr (inr (inr (inr (inl e)))))) h k = rw e (omega (arith, rw e at k))
regions_fit n cs (inr (inr (inr (inr (inr (inr (inl e))))))) h k = rw e (omega (arith, rw e at k))
regions_fit n cs (inr (inr (inr (inr (inr (inr (inr e))))))) h k = rw e (omega (arith, rw e at k))

-- What a table of `cdiv clusters (s / 4)` sectors holds.
record IsTable (s clusters fats : ℕ) : Type 0 where
  fits : fats ≤ (clusters + 127) / 128
  holds : clusters ≤ fats * (s / 4)
  some_sector : 1 ≤ fats

cdiv-IsTable :
    (s clusters : ℕ)
    → IsSectorSize s
    → 1 ≤ clusters
    → clusters < 2 ^ 23
    → IsTable s clusters (cdiv clusters (s / 4))
cdiv-IsTable s clusters (inl e) h k =
    rw e (record { fits = omega arith; holds = omega arith; some_sector = omega arith })
cdiv-IsTable s clusters (inr (inl e)) h k =
    rw e (record { fits = omega arith; holds = omega arith; some_sector = omega arith })
cdiv-IsTable s clusters (inr (inr (inl e))) h k =
    rw e (record { fits = omega arith; holds = omega arith; some_sector = omega arith })
cdiv-IsTable s clusters (inr (inr (inr e))) h k =
    rw e (record { fits = omega arith; holds = omega arith; some_sector = omega arith })

few_sectors : (s n : ℕ) → IsSectorSize s → s * n < 2 ^ 32 → (n < 2 ^ 23) × (512 ≤ s) × (s ≤ 4096)
few_sectors s n (inl e) h = rw e (omega (arith, rw e at h))
few_sectors s n (inr (inl e)) h = rw e (omega (arith, rw e at h))
few_sectors s n (inr (inr (inl e))) h = rw e (omega (arith, rw e at h))
few_sectors s n (inr (inr (inr e))) h = rw e (omega (arith, rw e at h))

cluster_pos :
    (n cs : ℕ) → IsClusterSize cs → (1 ≤ cs) × (cs ≤ 128) × (n / cs ≤ n) × (cs * (n / cs) ≤ n)
cluster_pos n cs (inl e) = rw e (omega arith)
cluster_pos n cs (inr (inl e)) = rw e (omega arith)
cluster_pos n cs (inr (inr (inl e))) = rw e (omega arith)
cluster_pos n cs (inr (inr (inr (inl e)))) = rw e (omega arith)
cluster_pos n cs (inr (inr (inr (inr (inl e))))) = rw e (omega arith)
cluster_pos n cs (inr (inr (inr (inr (inr (inl e)))))) = rw e (omega arith)
cluster_pos n cs (inr (inr (inr (inr (inr (inr (inl e))))))) = rw e (omega arith)
cluster_pos n cs (inr (inr (inr (inr (inr (inr (inr e))))))) = rw e (omega arith)

-- The regions of the volume: none of the sums and products wraps around, the table holds an entry
-- for each cluster, and the first cluster of the root directory ends within the volume.
pub record HasGeometry (c : FatConfig) : Type 0 where
  pub sector_lo : 512 ≤ c.bytes_per_sector
  pub sector_hi : c.bytes_per_sector ≤ 4096
  pub cluster_lo : 1 ≤ c.cluster_size
  pub cluster_hi : c.cluster_size ≤ 128
  pub few : c.n_sector < 2 ^ 23
  pub table : 1 ≤ fat_sectors c
  pub table_hi : fat_sectors c < 2 ^ 23
  pub both : both_fats c ≡ fat_sectors c * 2
  pub holds : clusters_on_disk c ≤ fat_sectors c * entries_per_sector c
  pub regions : 8 + fat_sectors c * 2 + c.cluster_size ≤ c.n_sector

pub usable-HasGeometry : (c : FatConfig) → IsUsable c → HasGeometry c
usable-HasGeometry c u =
    let (few, lo, hi) = few_sectors c.bytes_per_sector c.n_sector u.accepted.sector_size u.small in
    let (clo, chi, cle, cmul) = cluster_pos c.n_sector c.cluster_size u.accepted.cluster in
    let t : IsTable c.bytes_per_sector (clusters_on_disk c) (fat_sectors c) =
      cdiv-IsTable c.bytes_per_sector (clusters_on_disk c) u.accepted.sector_size
        (omega (arith, u.clusters)) (omega arith) in
    let fit =
      regions_fit c.n_sector c.cluster_size u.accepted.cluster u.accepted.sectors u.clusters in
    record {
      sector_lo = lo;
      sector_hi = hi;
      cluster_lo = clo;
      cluster_hi = chi;
      few = few;
      table = t.some_sector;
      table_hi = omega (arith, t.fits);
      both = omega (arith, t.fits);
      holds = t.holds;
      regions = omega (arith, t.fits, fit);
    }
