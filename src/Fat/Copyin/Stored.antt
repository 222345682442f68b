-- ===== src/Fat/Copyin/Stored.antt =====
-- `FAT32Copyin` on a volume: it adds the file, keeps the files that were there, and leaves a volume.
use tlibc.Base.{
  ℕ, suc, ◌+◌, ◌-◌, ◌*◌, ◌<◌, ◌≡◌, inl, inr, some, refl, sym, ◌∙◌, List, ◌∷◌, Bytes, Memory, length,
  All, All-map, arith,
}
use native.Mathlib.Decide.{dec_lt}
use tlibc.Endian.{ByteOrder, size}
use tlibc.Fields.{lookup_num, apart}
use tlibc.Fat.Layout.{num_sector_per_cluster, free_count, next_free}
use tlibc.Fat.Create.{u32, cdiv}
use tlibc.Fat.Mount.{Super}
use tlibc.Fat.Copyin.{HostFile, mark_chain, copied, fat32_copyin}
use tlibc.Fat.Copyin.Chain.{IsChained, mark_chain-IsChained}
use tlibc.Fat.Copyin.Entry.{IsEntry, put_entry-IsEntry, IsEntry-used}
use tlibc.Fat.Copyin.Stages.{IsName}
use tlibc.Fat.Copyin.Path.{
  capacity, Delivers, Fits, first_sector, entry_address, filled, ended, count_bounds,
  fat32_copyin-ended,
}
use tlibc.Fat.Copyin.Frame.{
  entry_in_root, data_behind, entry_free, entered, chain_room, slot-final, final-Keeps, final-Holds,
  final-root, final-fsi, final-entered,
}
use tlibc.Fat.Volume.{IsLaidOut, IsVolume}
use tlibc.Fat.Volume.Mount.{get_bpb-cong, super_numbers-cong}
use tlibc.Fat.Volume.Files.{StoredFile, IsStored, IsEntry-kept, IsStored-kept}

-- The volume after one more root entry is used.
abbrev pub with_entry : Super → Super
with_entry sb = record sb { next_root_entry = sb.next_root_entry + 1 }

pub with_entry-IsLaidOut : (sb : Super) → IsLaidOut sb → IsLaidOut (with_entry sb)
with_entry-IsLaidOut sb l = record {
  sector_lo = l.sector_lo;
  info = l.info;
  sector_1 = l.sector_1;
  sector_6 = l.sector_6;
  sector_7 = l.sector_7;
  two_tables = l.two_tables;
  root_is_2 = l.root_is_2;
  room = l.room;
  tables = l.tables;
  root_lo = l.root_lo;
  entries = l.entries;
  cluster_lo = l.cluster_lo;
  clusters = l.clusters;
  small = l.small;
  data_at = l.data_at;
  inside = l.inside;
}

-- A volume that holds these files.
pub record HoldsFiles (o : ByteOrder) (sb : Super) (n free : ℕ) (m : Memory)
    (files : List StoredFile) : Type 0 where
  pub volume : IsVolume o sb n free m
  pub stored : All (IsStored o sb n m) files

module _ (o : ByteOrder) (sb : Super) (n free : ℕ) (m : Memory) (l : IsLaidOut sb)
    (v : IsVolume o sb n free m) (name bs : Bytes) (attributes : ℕ) (fits : Fits sb n (length bs))
    (known : IsName name) (byte : attributes < 256) where
  abbrev c : ℕ
  c = cdiv (length bs) sb.bytes_per_cluster

  abbrev before : Memory
  before = entered o sb n free m l v name bs attributes fits known

  -- The file as the volume holds it.
  abbrev new_file : StoredFile
  new_file = record {
    entry = sb.next_root_entry;
    first = n;
    name = name;
    attributes = attributes;
    contents = bs;
  }

  module _ (m2 : Memory) (marked : mark_chain o sb (c - 1) n before ≡ some m2)
      (chained : IsChained o sb l.room n (c - 1) before m2) where
    abbrev after : Memory
    after = ended o sb n free c m2

    new-IsEntry : IsEntry o (entry_address sb) name attributes n (length bs) after
    new-IsEntry =
        let cap = capacity o sb n free m l v (length bs) fits in
        let k = fits.clusters in
        IsEntry-kept o (entry_address sb) name attributes n (length bs) before after
          known.stem_short
          (λ q lo _.
            final-entered o sb n free m l v name bs attributes fits known m2 marked chained q
              (inr (omega arith)))
          (put_entry-IsEntry o (filled sb n bs m) (entry_address sb) name attributes n (length bs)
            known byte (omega (arith, l.clusters, v.hi)) (omega arith))

    new-IsStored : IsStored o (with_entry sb) (n + c) after new_file
    new-IsStored =
        let b = count_bounds o sb n free m l v (length bs) fits in
        let room = chain_room o sb n free m l v name bs attributes fits known in
        let slot_kept =
          slot-final o sb n free m l v name bs attributes fits known m2 marked chained in
        record {
          entry_hi = omega arith;
          first_lo = v.lo;
          first_hi = omega arith;
          held = b.2;
          stem_short = known.stem_short;
          described = new-IsEntry;
          bytes = final-Holds o sb n free m l v name bs attributes fits known m2 marked chained;
          links = λ t d ht lo hi.
              slot_kept t d ht (omega (arith, room))
              ∙ chained.links t d (omega (arith, l.two_tables)) lo (omega arith);
          ends = λ t d ht e.
              let e' : d ≡ n + (c - 1) = omega (arith, b.0) in
              slot_kept t d ht (omega (arith, room))
              ∙ rw e' (chained.end t (omega (arith, l.two_tables)));
        }

    old_entry :
        (i : ℕ) → i < sb.next_root_entry → after (sb.root_dir + i * 32) ≡ m (sb.root_dir + i * 32)
    old_entry i h =
        (final-Keeps o sb n free m l v name bs attributes fits known m2 marked chained).clusters
          (sb.root_dir + i * 32) (omega arith)
          (omega (
            arith,
            data_behind o sb n free m l v name bs attributes fits known,
            entry_in_root o sb n free m l v name bs attributes fits known,
          ))
          (inl (omega arith))

    new-IsVolume : IsVolume o (with_entry sb) (n + c) (free - c) after
    unfolding lookup_num apart size
    new-IsVolume =
        let b = count_bounds o sb n free m l v (length bs) fits in
        let kept = final-Keeps o sb n free m l v name bs attributes fits known m2 marked chained in
        let fsi = final-fsi o sb n free m l v name bs attributes fits known m2 marked chained in
        record {
          numbers = super_numbers-cong o m after sb.buf kept.boot ∙ v.numbers;
          divisor = λ e.
              v.divisor (sym (get_bpb-cong o m after sb.buf num_sector_per_cluster kept.boot) ∙ e);
          root_end =
              kept.slots 0 sb.root_cluster (omega arith) (omega (arith, l.root_is_2, v.lo))
              ∙ v.root_end;
          next =
              fsi next_free (u32 (n + (c - 1) + 1)) (omega arith) refl
              ∙ omega (arith, b.0, b.1, v.hi, l.clusters);
          count = fsi free_count (free - c) (omega arith) refl ∙ omega (arith, v.free_hi);
          free_hi = omega (arith, v.free_hi);
          lo = omega (arith, v.lo);
          hi = omega (arith, b.1, v.hi);
          enough = omega (arith, b.1, v.hi, v.enough);
          used = λ i h. elim (dec_lt i sb.next_root_entry) [
            | yes p ↦ λ z. v.used i p (sym (old_entry i p) ∙ z)
            | no p ↦
                let e : i ≡ sb.next_root_entry = omega arith in
                rw e (
                  IsEntry-used o (entry_address sb) name attributes n (length bs) after known
                    new-IsEntry)
          ];
          unused = λ i lo hi.
              final-root o sb n free m l v name bs attributes fits known m2 marked chained
                (sb.root_dir + i * 32) (omega arith) (omega (arith, l.entries))
              ∙ v.unused i (omega arith) hi;
          entry_hi = omega (arith, fits.entry);
        }

    old-IsStored :
        (f : StoredFile) → IsStored o sb n m f → IsStored o (with_entry sb) (n + c) after f
    old-IsStored f s =
        IsStored-kept o sb n m after f
          (omega (arith, entry_in_root o sb n free m l v name bs attributes fits known)) v.lo s
          (final-Keeps o sb n free m l v name bs attributes fits known m2 marked chained) (n + c)
          (omega arith)

-- `FAT32Copyin`, given a file of at least one byte that the volume has clusters and a root entry
-- for, whose bytes the host delivers, attributes below 256, and a name that begins with neither '.'
-- nor 0, with at most 8 bytes in front of the first '.' and at most 24 from it on: it returns the
-- sector of the next free cluster. Afterwards the image holds the new file, with its chain, its
-- bytes and its entry: the name up to its first '.', the first three bytes from there on, the
-- attributes, the first cluster, the size and the fixed dates. It also holds every file it held
-- before, and is a volume with fewer free clusters.
pub fat32_copyin-HoldsFiles :
    (o : ByteOrder) (sb : Super) (n free : ℕ) (m : Memory) (files : List StoredFile)
    (file : HostFile) (name bs : Bytes) (attributes fuel : ℕ)
    → IsLaidOut sb
    → HoldsFiles o sb n free m files
    → Delivers file bs
    → Fits sb n (length bs)
    → IsName name
    → attributes < 256
    → (m' : Memory) × (fat32_copyin (suc (suc fuel)) o m sb.buf file name attributes
        ≡ copied (first_sector sb n) m')
      × HoldsFiles o
          (with_entry sb)
          (n + cdiv (length bs) sb.bytes_per_cluster)
          (free - cdiv (length bs) sb.bytes_per_cluster)
          m'
          (record {
            entry = sb.next_root_entry;
            first = n;
            name = name;
            attributes = attributes;
            contents = bs;
          }
            ∷ files)
fat32_copyin-HoldsFiles o sb n free m files file name bs attributes fuel l h host fits known byte =
    let v = h.volume in
    let k = cdiv (length bs) sb.bytes_per_cluster in
    let (m2, marked, chained) =
      mark_chain-IsChained o sb l.room (k - 1) n
        (entered o sb n free m l v name bs attributes fits known) (omega (arith, l.clusters))
        (omega (arith, v.lo)) (chain_room o sb n free m l v name bs attributes fits known) in
    (
      ended o sb n free k m2,
      fat32_copyin-ended o sb n free m l v file name bs attributes host fits fuel m2
          (entry_free o sb n free m l v name bs attributes fits known) marked,
      record {
        volume =
            new-IsVolume o sb n free m l v name bs attributes fits known byte m2 marked chained;
        stored = (
          new-IsStored o sb n free m l v name bs attributes fits known byte m2 marked chained,
          All-map
              (old-IsStored o sb n free m l v name bs attributes fits known byte m2 marked chained)
              files h.stored,
        );
      },
    )
