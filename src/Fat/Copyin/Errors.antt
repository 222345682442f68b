-- ===== src/Fat/Copyin/Errors.antt =====
-- A call of `FAT32Copyin` that fails, and what no call touches.
use mathlib.Core.Path.{subst}
use tlibc.Base.{
  ℕ, suc, ◌-◌, ◌*◌, ◌<◌, ◌≡◌, ◌⊎◌, inr, ap, ◌∙◌, false, ◌||◌, none, some, Bytes, Memory, ltb, ◌==◌,
  if◌then◌else◌, arith,
}
use tlibc.Endian.{ByteOrder}
use tlibc.Fat.Create.{u32}
use tlibc.Fat.Mount.{super_init, super_free}
use tlibc.Fat.Copyin.{
  HostFile, Copyin, copied, failed, trapped, edquot, give_up, copy_to, fat32_copyin,
}
use tlibc.Fat.Copyin.Stages.{IsName}
use tlibc.Fat.Copyin.Path.{clusters_small}
use tlibc.Fat.Copyin.Outcome.{ReadsAtMost, Leaves}
use tlibc.Fat.Copyin.Ways.{fat32_copyin-Leaves}
use tlibc.Fat.Copyin.Several.{Volume, Represents}
use tlibc.Fat.Copyin.Represented.{Represents-same}
use tlibc.Fat.Volume.{Outside}
use tlibc.Fat.Volume.Mount.{super_init-volume}

-- When `FAT32Copyin` fails on a volume, whatever the name and whatever call of the host failed, the
-- image still holds the same volume with the same files.
pub fat32_copyin-failed :
    (o : ByteOrder) (volume : Volume) (fuel errno : ℕ) (m m' : Memory) (file : HostFile)
    (name : Bytes) (attributes : ℕ)
    → Represents o volume m
    → ReadsAtMost file
    → fat32_copyin (suc (suc fuel)) o m volume.super.buf file name attributes ≡ failed errno m'
    → Represents o volume m'
fat32_copyin-failed o volume fuel errno m m' file name attributes h most e =
    Represents-same o volume m m'
      (λ q _ front.
        subst (Leaves volume.super volume.next m name q) e
          (fat32_copyin-Leaves o volume.super volume.next volume.free fuel m file name attributes q
            h.laid_out h.holds.volume most)
          (inr front))
      h

-- A call of `FAT32Copyin` that succeeds on a volume, with a name that does not begin with '.' and
-- that fits the entry, changes no address outside of the volume.
pub fat32_copyin-Outside :
    (o : ByteOrder) (volume : Volume) (fuel ret : ℕ) (m m' : Memory) (file : HostFile)
    (name : Bytes) (attributes q : ℕ)
    → Represents o volume m
    → ReadsAtMost file
    → IsName name
    → Outside volume.super q
    → fat32_copyin (suc (suc fuel)) o m volume.super.buf file name attributes ≡ copied ret m'
    → m' q ≡ m q
fat32_copyin-Outside o volume fuel ret m m' file name attributes q h most known out e =
    subst (Leaves volume.super volume.next m name q) e
      (fat32_copyin-Leaves o volume.super volume.next volume.free fuel m file name attributes q
        h.laid_out h.holds.volume most)
      known out

-- Too few free clusters for the bytes, or no unused entry in the root directory.
abbrev pub IsFull : Volume → ℕ → Type 0
IsFull volume bytes =
    (volume.super.bytes_per_cluster * (volume.super.max_cluster - volume.next) < bytes)
    ⊎ (volume.super.next_root_entry ≡ volume.super.num_root_entry)

full_lem :
    (k bytes x y : ℕ) (a b : Copyin)
    → (k < bytes) ⊎ (x ≡ y)
    → (if ltb k bytes then a else if x == y then a else b) ≡ a
full_lem k bytes x y a b h = ground arith

copy_to-full :
    (o : ByteOrder) (volume : Volume) (m : Memory) (file : HostFile) (name : Bytes)
    (attributes bytes : ℕ)
    → Represents o volume m
    → IsFull volume bytes
    → copy_to o file volume.super name attributes bytes m
      ≡ failed edquot (super_free m volume.super)
unfolding copy_to give_up
copy_to-full o volume m file name attributes bytes h full =
    let sb = volume.super in
    let l = h.laid_out in
    let v = h.holds.volume in
    let t0 : ((sb.bytes_per_sector == 0)
          || (sb.bytes_per_cluster == 0)
          || (sb.fs_info == 0)
          || ltb sb.max_cluster volume.next)
        ≡ false =
      ground (arith, l.sector_lo, l.cluster_lo, l.info, v.hi) in
    let small = clusters_small o sb volume.next volume.free m l v in
    let w : u32 (sb.bytes_per_cluster * (sb.max_cluster - volume.next))
        ≡ sb.bytes_per_cluster * (sb.max_cluster - volume.next) =
      omega arith in
    rw (v.next, v.count, t0, w)
      (full_lem (sb.bytes_per_cluster * (sb.max_cluster - volume.next)) bytes sb.next_root_entry
        sb.num_root_entry (failed edquot (super_free m sb)) _ full)

-- A volume with too few free clusters for the size of the file modulo 2 ^ 32, or with no unused
-- entry in the root directory, makes `FAT32Copyin` fail with EDQUOT, before it looks at the bytes of
-- the file; it writes nothing but the copies of the sectors 0 and 1. (The code keeps the size in a
-- `uint32_t`, so that of a larger file nothing but the remainder is asked for.)
pub fat32_copyin-full :
    (o : ByteOrder) (volume : Volume) (fuel size : ℕ) (m : Memory) (file : HostFile) (name : Bytes)
    (attributes : ℕ)
    → Represents o volume m
    → file.stat_size ≡ some size
    → IsFull volume (u32 size)
    → fat32_copyin (suc (suc fuel)) o m volume.super.buf file name attributes
      ≡ failed edquot (super_free m volume.super)
unfolding fat32_copyin
fat32_copyin-full o volume fuel size m file name attributes h e full =
    ap
      (λ s. elim s [
        | none ↦ failed file.errno m
        | some size ↦ elim (super_init (suc (suc fuel)) o m volume.super.buf) [
          | none ↦ trapped
          | some sb ↦ copy_to o file sb name attributes (u32 size) m
        ]
      ])
      e
    ∙ ap (λ s. elim s [ none ↦ trapped | some sb ↦ copy_to o file sb name attributes (u32 size) m ])
        (super_init-volume o volume.super volume.next volume.free m h.laid_out h.holds.volume fuel)
    ∙ copy_to-full o volume m file name attributes (u32 size) h full
