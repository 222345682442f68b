-- ===== src/Fat/Copyin/Path.antt =====
-- The way through `FAT32Copyin` when the file fits the volume and the host reads it.
use tlibc.Base.{
  ℕ, suc, ◌+◌, ◌-◌, ◌*◌, ◌/◌, ◌^◌, ◌≤◌, ◌<◌, ◌≡◌, refl, ap, ◌∙◌, true, false, not, ◌&&◌, ◌||◌, none,
  some, [], ◌∷◌, Bytes, Memory, memset, write_all, length, ltb, leb, ◌==◌, arith,
}
use tlibc.Endian.{ByteOrder}
use tlibc.Fields.{put_items}
use tlibc.Fat.Layout.{free_count, next_free, set_fsi}
use tlibc.Fat.Create.{u32, cdiv}
use tlibc.Fat.Mount.{Super, get_sector, super_init, super_free}
use tlibc.Fat.Copyin.{
  HostFile, copied, failed, trapped, put_entry, mark_chain, finish, fill_clusters, copy_to,
  fat32_copyin,
}
use tlibc.Fat.Copyin.Stages.{cdiv_bounds}
use tlibc.Fat.Volume.{IsLaidOut, IsVolume, data_address}
use tlibc.Fat.Volume.Mount.{super_init-volume}

-- The calls on the descriptor succeed and deliver the bytes.
pub record Delivers (file : HostFile) (bs : Bytes) : Type 0 where
  pub stat : file.stat_size ≡ some (length bs)
  pub seek : file.seek_is_zero ≡ true
  pub read : file.read_up_to (length bs) ≡ some bs

-- What the file of `bytes` bytes needs of the volume: bytes, clusters for them, and a root entry.
pub record Fits (sb : Super) (n bytes : ℕ) : Type 0 where
  pub some_bytes : 1 ≤ bytes
  pub clusters : bytes ≤ sb.bytes_per_cluster * (sb.max_cluster - n)
  pub entry : sb.next_root_entry < sb.num_root_entry

-- The number of the sector that the call returns.
abbrev pub first_sector : Super → ℕ → ℕ
first_sector sb n = u32 (
    u32 ((n - 2) * (sb.bytes_per_cluster / sb.bytes_per_sector))
    + u32 (sb.num_reserved + sb.num_fat))

-- Where the first unused root entry lies.
abbrev pub entry_address : Super → ℕ
entry_address sb = sb.root_dir + sb.next_root_entry * 32

-- The memory after the clusters are filled, and the memory at the end, when `m2` is the one after
-- the chain is marked.
abbrev pub filled : Super → ℕ → Bytes → Memory → Memory
filled sb n bs m =
    let at = data_address sb n in
    write_all (memset m at 0 (u32 (cdiv (length bs) sb.bytes_per_cluster * sb.bytes_per_cluster)))
      at bs

abbrev pub ended : ByteOrder → Super → ℕ → ℕ → ℕ → Memory → Memory
ended o sb n free c m2 =
    super_free
      (put_items o m2 sb.fs_info
        (set_fsi free_count (free - c) ∷ set_fsi next_free (u32 (n + (c - 1) + 1)) ∷ []))
      sb

module _ (o : ByteOrder) (sb : Super) (n free : ℕ) (m : Memory) (l : IsLaidOut sb)
    (v : IsVolume o sb n free m) where
  -- One cluster more than are left does not wrap around.
  pub clusters_small : sb.bytes_per_cluster * (sb.max_cluster - n) + sb.bytes_per_cluster < 2 ^ 32
  clusters_small =
      omega (arith, l.small (sb.max_cluster - n + 1) (omega (arith, v.lo, v.hi)), split)
    where
      split :
          (sb.max_cluster - n + 1) * sb.bytes_per_cluster
          ≡ sb.bytes_per_cluster * (sb.max_cluster - n) + sb.bytes_per_cluster
      split = grind arith

  module _ (bytes : ℕ) (fits : Fits sb n bytes) where
    abbrev count : ℕ
    count = cdiv bytes sb.bytes_per_cluster

    pub count_bounds :
        (1 ≤ count) × (count ≤ sb.max_cluster - n) × (bytes ≤ count * sb.bytes_per_cluster)
    count_bounds =
        cdiv_bounds sb.bytes_per_cluster bytes (sb.max_cluster - n) (omega (arith, l.cluster_lo))
          fits.some_bytes fits.clusters clusters_small

    pub capacity :
        u32 (sb.bytes_per_cluster * (sb.max_cluster - n))
        ≡ sb.bytes_per_cluster * (sb.max_cluster - n)
    capacity = omega (arith, l.small (sb.max_cluster - n) (omega (arith, v.lo, v.hi)), turn)
      where
        turn :
            (sb.max_cluster - n) * sb.bytes_per_cluster
            ≡ sb.bytes_per_cluster * (sb.max_cluster - n)
        turn = grind arith

  module _ (file : HostFile) (name bs : Bytes) (attributes : ℕ) (host : Delivers file bs)
      (fits : Fits sb n (length bs)) where
    copy_to-fill_clusters :
        copy_to o file sb name attributes (length bs) m
        ≡ fill_clusters o file sb name attributes (length bs) n free m
    unfolding copy_to
    copy_to-fill_clusters =
        let c = capacity (length bs) fits in
        let k = fits.clusters in
        let t0 : ((sb.bytes_per_sector == 0)
              || (sb.bytes_per_cluster == 0)
              || (sb.fs_info == 0)
              || ltb sb.max_cluster n)
            ≡ false =
          ground (arith, l.sector_lo, l.cluster_lo, l.info, v.hi) in
        let t1 : ltb (sb.bytes_per_cluster * (sb.max_cluster - n)) (length bs) ≡ false =
          ground arith in
        let t2 : (sb.next_root_entry == sb.num_root_entry) ≡ false = ground (arith, fits.entry) in
        rw (v.next, v.count, t0, c, t1, t2) refl

    fill_clusters-finish :
        fill_clusters o file sb name attributes (length bs) n free m
        ≡ finish o sb name attributes
            (length bs)
            (cdiv (length bs) sb.bytes_per_cluster)
            n
            free
            (first_sector sb n)
            (filled sb n bs m)
    unfolding fill_clusters
    fill_clusters-finish =
        let b = count_bounds (length bs) fits in
        let e = l.data_at n (omega (arith, v.lo)) (omega (arith, b.0, b.1)) in
        let at = get_sector sb.buf sb.num_sector sb.bytes_per_sector (first_sector sb n) in
        let t0 : (leb n 2 || ((at == 0) && not (length bs == 0))) ≡ false =
          rw e (ground (arith, v.lo, l.root_lo, l.sector_lo)) in
        let t1 : (length bs == length bs) ≡ true = ground arith in
        rw (t0, host.seek, host.read, t1)
          (ap
            (λ a.
              finish o sb name attributes (length bs) (cdiv (length bs) sb.bytes_per_cluster) n free
                (first_sector sb n)
                (write_all
                  (memset m a 0
                    (u32 (cdiv (length bs) sb.bytes_per_cluster * sb.bytes_per_cluster)))
                  a bs))
            e)

    finish-copied :
        (m2 : Memory)
        → filled sb n bs m (entry_address sb) ≡ 0
        → mark_chain o sb
            (cdiv (length bs) sb.bytes_per_cluster - 1)
            n
            (put_entry o (filled sb n bs m) (entry_address sb) name attributes n (length bs))
          ≡ some m2
        → finish o sb name attributes
            (length bs)
            (cdiv (length bs) sb.bytes_per_cluster)
            n
            free
            (first_sector sb n)
            (filled sb n bs m)
          ≡ copied
              (first_sector sb n)
              (ended o sb n free (cdiv (length bs) sb.bytes_per_cluster) m2)
    unfolding finish
    finish-copied m2 z e =
        let b = count_bounds (length bs) fits in
        let t0 : ((sb.root_dir == 0) || not (0 == 0)) ≡ false =
          ground (arith, l.root_lo, l.sector_lo) in
        let t1 : ltb free (cdiv (length bs) sb.bytes_per_cluster) ≡ false =
          ground (arith, b.1, v.enough) in
        rw (z, t0, e, t1) refl

    pub fat32_copyin-ended :
        (fuel : ℕ) (m2 : Memory)
        → filled sb n bs m (entry_address sb) ≡ 0
        → mark_chain o sb
            (cdiv (length bs) sb.bytes_per_cluster - 1)
            n
            (put_entry o (filled sb n bs m) (entry_address sb) name attributes n (length bs))
          ≡ some m2
        → fat32_copyin (suc (suc fuel)) o m sb.buf file name attributes
          ≡ copied
              (first_sector sb n)
              (ended o sb n free (cdiv (length bs) sb.bytes_per_cluster) m2)
    unfolding fat32_copyin
    fat32_copyin-ended fuel m2 z e =
        let c = capacity (length bs) fits in
        let k = fits.clusters in
        let w : u32 (length bs) ≡ length bs = omega arith in
        ap
          (λ s. elim s [
            | none ↦ failed file.errno m
            | some size ↦ elim (super_init (suc (suc fuel)) o m sb.buf) [
              | none ↦ trapped
              | some sb ↦ copy_to o file sb name attributes (u32 size) m
            ]
          ])
          host.stat
        ∙ ap
            (λ s. elim s [
              | none ↦ trapped
              | some sb ↦ copy_to o file sb name attributes (u32 (length bs)) m
            ])
            (super_init-volume o sb n free m l v fuel)
        ∙ ap (λ k. copy_to o file sb name attributes k m) w
        ∙ copy_to-fill_clusters
        ∙ fill_clusters-finish
        ∙ finish-copied m2 z e
