-- ===== src/Fat/Copyin/Ways.antt =====
-- The ways through `FAT32Copyin`, one for each check, and what each leaves alone.
use mathlib.Core.Path.{subst}
use tlibc.Base.{
  ℕ, suc, ◌+◌, ◌-◌, ◌*◌, ◌≤◌, ◌<◌, ◌≡◌, ◌⊎◌, inl, inr, refl, sym, ◌∙◌, not, ◌&&◌, ◌||◌, Option,
  none, some, Bytes, Memory, memset, write_all, memset-outside, write_all-outside, length, ltb, leb,
  ◌==◌, if◌then◌else◌, arith,
}
use tlibc.Endian.{ByteOrder}
use tlibc.Fat.Create.{u32, cdiv}
use tlibc.Fat.Mount.{Super, get_sector, super_init}
use tlibc.Fat.Copyin.{
  HostFile, failed, trapped, finish, give_up, fill_clusters, copy_to, fat32_copyin,
}
use tlibc.Fat.Copyin.Path.{first_sector, clusters_small}
use tlibc.Fat.Volume.{IsLaidOut, IsVolume, data_address, Outside, InFront}
use tlibc.Fat.Volume.Mount.{super_init-volume}
use tlibc.Fat.Copyin.Outcome.{
  ReadsAtMost, Leaves, if_lem, cdiv_zero, give_up-Leaves, count_fit, beyond, finish-Leaves,
}

module _ (o : ByteOrder) (sb : Super) (n free : ℕ) (m : Memory) (l : IsLaidOut sb)
    (v : IsVolume o sb n free m) (name : Bytes) (q : ℕ) where
  module _ (file : HostFile) (attributes bytes : ℕ) (most : ReadsAtMost file)
      (fits : bytes ≤ sb.bytes_per_cluster * (sb.max_cluster - n))
      (entry : sb.next_root_entry < sb.num_root_entry) where
    abbrev c : ℕ
    c = cdiv bytes sb.bytes_per_cluster

    abbrev at : ℕ
    at = get_sector sb.buf sb.num_sector sb.bytes_per_sector (first_sector sb n)

    -- Where the clusters are cleared, unless there are none.
    at_data : (at ≡ data_address sb n) ⊎ (bytes ≡ 0)
    at_data = elim (count_fit o sb n free m l v name q bytes fits).2 [
      | inl e ↦ inr e
      | inr p ↦ inl (
          l.data_at n (omega (arith, v.lo))
            (omega (arith, (count_fit o sb n free m l v name q bytes fits).0, p)))
    ]

    -- Up to `c` clusters written from there on.
    written_apart :
        (len : ℕ)
        → (bytes ≡ 0 → len ≡ 0)
        → len ≤ c * sb.bytes_per_cluster
        → Outside sb q ⊎ InFront sb n q
        → (q < at) ⊎ (at + len ≤ q)
    written_apart len none_lem h out = elim at_data [
      | inl e ↦
          beyond o sb n free m l v name q at len c (inl (e, h))
            (count_fit o sb n free m l v name q bytes fits).0 out
      | inr z ↦
          beyond o sb n free m l v name q at len c (inr (none_lem z))
            (count_fit o sb n free m l v name q bytes fits).0 out
    ]

    abbrev cleared : Memory
    cleared = memset m at 0 (u32 (c * sb.bytes_per_cluster))

    cleared_same : Outside sb q ⊎ InFront sb n q → cleared q ≡ m q
    cleared_same out =
        memset-outside m at 0 (u32 (c * sb.bytes_per_cluster)) q
          (written_apart (u32 (c * sb.bytes_per_cluster)) no_bytes (omega arith) out)
      where
        no_bytes : bytes ≡ 0 → u32 (c * sb.bytes_per_cluster) ≡ 0
        no_bytes z =
            let e =
              cdiv_zero sb.bytes_per_cluster (omega (arith, l.cluster_lo))
                (omega (arith, clusters_small o sb n free m l v)) in
            rw (z, e) (omega arith)

    written_same :
        (bs : Bytes)
        → length bs ≤ bytes
        → Outside sb q ⊎ InFront sb n q
        → write_all cleared at bs q ≡ m q
    written_same bs h out =
        write_all-outside cleared at bs q (
          written_apart (length bs) (λ z. omega arith)
            (omega (arith, h, (count_fit o sb n free m l v name q bytes fits).1)) out)
        ∙ cleared_same out

    read-Leaves :
        (x : Option Bytes)
        → file.read_up_to bytes ≡ x
        → (Leaves sb n m name q) (elim x [
          | none ↦ give_up file.errno cleared sb
          | some bs ↦
              if not (length bs == bytes)
              then give_up file.errno (write_all cleared at bs) sb
              else finish o sb name attributes bytes c n free
                  (first_sector sb n)
                  (write_all cleared at bs)
        ])
    read-Leaves none e = give_up-Leaves o sb n free m l v name q cleared file.errno cleared_same
    read-Leaves (some bs) e =
        let h = most.bound bytes bs e in
        if_lem (Leaves sb n m name q) (not (length bs == bytes)) _ _
          (λ _.
            give_up-Leaves o sb n free m l v name q (write_all cleared at bs) file.errno
              (written_same bs h))
          (λ _.
            finish-Leaves o sb n free m l v name q attributes bytes c (first_sector sb n)
              (write_all cleared at bs) (count_fit o sb n free m l v name q bytes fits).0 entry
              (λ out. written_same bs h (inl out)))

    fill_clusters-Leaves :
        (Leaves sb n m name q) (fill_clusters o file sb name attributes bytes n free m)
    unfolding fill_clusters
    fill_clusters-Leaves =
        if_lem (Leaves sb n m name q) (leb n 2 || ((at == 0) && not (bytes == 0))) trapped _
          (λ _. tt)
          (λ _.
            if_lem (Leaves sb n m name q) (not file.seek_is_zero) (give_up file.errno cleared sb) _
              (λ _. give_up-Leaves o sb n free m l v name q cleared file.errno cleared_same)
              (λ _. read-Leaves (file.read_up_to bytes) refl))

  copy_to-Leaves :
      (file : HostFile) (attributes bytes : ℕ)
      → ReadsAtMost file
      → (Leaves sb n m name q) (copy_to o file sb name attributes bytes m)
  unfolding copy_to
  copy_to-Leaves file attributes bytes most =
      rw (v.next, v.count)
        (if_lem (Leaves sb n m name q) _ trapped _ (λ _. tt)
          (λ _.
            if_lem (Leaves sb n m name q)
              (ltb (u32 (sb.bytes_per_cluster * (sb.max_cluster - n))) bytes) _ _
              (λ _. give_up-Leaves o sb n free m l v name q m 122 (λ _. refl))
              (λ enough.
                if_lem (Leaves sb n m name q) (sb.next_root_entry == sb.num_root_entry) _ _
                  (λ _. give_up-Leaves o sb n free m l v name q m 122 (λ _. refl))
                  (λ entry.
                    fill_clusters-Leaves file attributes bytes most
                      (ground (arith, clusters_small o sb n free m l v))
                      (ground (arith, v.entry_hi))))))

-- Every way through `FAT32Copyin` on a volume, whatever the file and the host: an error changes
-- nothing outside of the volume and nothing in front of its free clusters but for the sectors 6 and
-- 7, and a success, where the name does not begin with '.' and fits the entry, changes nothing
-- outside of the volume.
pub fat32_copyin-Leaves :
    (o : ByteOrder) (sb : Super) (n free fuel : ℕ) (m : Memory) (file : HostFile) (name : Bytes)
    (attributes q : ℕ)
    → IsLaidOut sb
    → IsVolume o sb n free m
    → ReadsAtMost file
    → Leaves sb n m name q (fat32_copyin (suc (suc fuel)) o m sb.buf file name attributes)
unfolding fat32_copyin
fat32_copyin-Leaves o sb n free fuel m file name attributes q l v most = stat_lem file.stat_size
  where
    stat_lem :
        (x : Option ℕ)
        → Leaves sb n m name q (elim x [
          | none ↦ failed file.errno m
          | some st_size ↦ elim (super_init (suc (suc fuel)) o m sb.buf) [
            | none ↦ trapped
            | some sb ↦ copy_to o file sb name attributes (u32 st_size) m
          ]
        ])
    stat_lem none = λ _. refl
    stat_lem (some st_size) =
        subst
          (λ s. Leaves sb n m name q (elim s [
            | none ↦ trapped
            | some sb ↦ copy_to o file sb name attributes (u32 st_size) m
          ]))
          (sym (super_init-volume o sb n free m l v fuel))
          (copy_to-Leaves o sb n free m l v name q file attributes (u32 st_size) most)
