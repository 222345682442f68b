-- ===== src/Fat/Copyin/Several.antt =====
-- `FAT32Copyin`, one call after the other, against a volume that is a list of files.
use mathlib.Core.Path.{subst}
use tlibc.Base.{
  ℕ, suc, ◌+◌, ◌-◌, ◌≤◌, ◌<◌, ◌≡◌, refl, ap, ◌∙◌, ◌>>=◌, Option, some, List, [], ◌∷◌, Bytes, Memory,
  length, All, All-map, Holds, arith,
}
use tlibc.Endian.{ByteOrder}
use tlibc.Fat.Create.{cdiv}
use tlibc.Fat.Mount.{Super}
use tlibc.Fat.Copyin.{HostFile, copied, copied_memory, fat32_copyin}
use tlibc.Fat.Copyin.Stages.{IsName, ceil_div, cdiv-ceil_div, ceil_div-covers}
use tlibc.Fat.Copyin.Path.{Delivers, Fits, first_sector, clusters_small}
use tlibc.Fat.Copyin.Stored.{with_entry, with_entry-IsLaidOut, HoldsFiles, fat32_copyin-HoldsFiles}
use tlibc.Fat.Volume.{data_address, IsLaidOut}
use tlibc.Fat.Volume.Files.{StoredFile}

-- A file to copy: what the host says of it, and the arguments of the call.
pub record Request : Type 0 where
  pub host : HostFile
  pub name : Bytes
  pub attributes : ℕ
  pub bytes : Bytes

-- A file that can be copied to a volume with room for it: the host delivers its bytes, of which
-- there is at least one, and its name fits an entry.
pub record IsCopyable (r : Request) : Type 0 where
  pub delivers : Delivers r.host r.bytes
  pub known : IsName r.name
  pub byte : r.attributes < 256
  pub some_bytes : 1 ≤ length r.bytes

-- A volume, as far as a caller sees it: where its regions lie, the next free cluster, how many are
-- free, and the files that it holds, the last one first.
pub record Volume : Type 0 where
  pub super : Super
  pub next : ℕ
  pub free : ℕ
  pub files : List StoredFile

-- The memory holds the volume.
pub record Represents (o : ByteOrder) (volume : Volume) (m : Memory) : Type 0 where
  pub laid_out : IsLaidOut volume.super
  pub holds : HoldsFiles o volume.super volume.next volume.free m volume.files

-- The clusters of so many bytes that a file needs.
abbrev pub need : ℕ → Request → ℕ
need cluster r = ceil_div (length r.bytes) cluster

-- The volume with one more file.
abbrev pub add : Request → Volume → Volume
add r volume = record {
  super = with_entry volume.super;
  next = volume.next + need volume.super.bytes_per_cluster r;
  free = volume.free - need volume.super.bytes_per_cluster r;
  files =
      record {
        entry = volume.super.next_root_entry;
        first = volume.next;
        name = r.name;
        attributes = r.attributes;
        contents = r.bytes;
      }
      ∷ volume.files;
}

-- Room for these files: clusters and root entries.
abbrev pub total : ℕ → List Request → ℕ
total cluster [] = 0
total cluster (r ∷ rs) = need cluster r + total cluster rs

pub record HasSpace (volume : Volume) (rs : List Request) : Type 0 where
  pub clusters : total volume.super.bytes_per_cluster rs ≤ volume.super.max_cluster - volume.next
  pub entries : volume.super.next_root_entry + length rs ≤ volume.super.num_root_entry

-- `FAT32Copyin` of a file that can be copied, on a volume with room for it, adds the file to the
-- volume: it returns the first sector of the new file, and the image then holds the volume with the
-- file added.
pub fat32_copyin-add :
    (o : ByteOrder) (volume : Volume) (m : Memory) (r : Request) (rs : List Request) (fuel : ℕ)
    → Represents o volume m
    → IsCopyable r
    → HasSpace volume (r ∷ rs)
    → (m' : Memory) × (fat32_copyin (suc (suc fuel)) o m volume.super.buf r.host r.name r.attributes
        ≡ copied (first_sector volume.super volume.next) m')
      × Represents o (add r volume) m'
fat32_copyin-add o volume m r rs fuel h ok space =
    let sb = volume.super in
    let l = h.laid_out in
    let v = h.holds.volume in
    let fits : Fits sb volume.next (length r.bytes) = record {
      some_bytes = ok.some_bytes;
      clusters =
          ceil_div-covers sb.bytes_per_cluster (length r.bytes) (sb.max_cluster - volume.next)
            (omega (arith, l.cluster_lo)) (omega (arith, space.clusters));
      entry = omega (arith, space.entries);
    } in
    let (m', e, holds) =
      fat32_copyin-HoldsFiles o sb volume.next volume.free m volume.files r.host r.name r.bytes
        r.attributes fuel l h.holds ok.delivers fits ok.known ok.byte in
    let count : cdiv (length r.bytes) sb.bytes_per_cluster ≡ need sb.bytes_per_cluster r =
      cdiv-ceil_div sb.bytes_per_cluster (length r.bytes) (omega (arith, l.cluster_lo))
        (omega (arith, fits.clusters, clusters_small o sb volume.next volume.free m l v)) in
    (
      m',
      e,
      record {
        laid_out = with_entry-IsLaidOut sb l;
        holds =
            subst
              (λ c.
                HoldsFiles o (with_entry sb) (volume.next + c) (volume.free - c) m'
                  (add r volume).files)
              count holds;
      },
    )

pub HasSpace-add :
    (volume : Volume) (r : Request) (rs : List Request)
    → HasSpace volume (r ∷ rs)
    → HasSpace (add r volume) rs
HasSpace-add volume r rs space = record {
  clusters = omega (arith, space.clusters);
  entries = omega (arith, space.entries);
}

-- The calls for a list of files, one behind the other, each on the image that the call before left.
unfoldable pub copy_each : ℕ → ByteOrder → ℕ → List Request → Memory → Option Memory
copy_each fuel o buf [] m = some m
copy_each fuel o buf (r ∷ rs) m =
    copied_memory (fat32_copyin fuel o m buf r.host r.name r.attributes) >>= λ m'.
    copy_each fuel o buf rs m'

abbrev pub add_each : List Request → Volume → Volume
add_each [] volume = volume
add_each (r ∷ rs) volume = add_each rs (add r volume)

-- Any number of files that can be copied, on a volume with room for all of them: every call of
-- `FAT32Copyin` succeeds, and in the end the image holds the volume with all the files added, those
-- of before included.
pub copy_each-add_each :
    (o : ByteOrder) (rs : List Request) (volume : Volume) (m : Memory) (fuel : ℕ)
    → Represents o volume m
    → All IsCopyable rs
    → HasSpace volume rs
    → (m' : Memory) × (copy_each (suc (suc fuel)) o volume.super.buf rs m ≡ some m')
      × Represents o (add_each rs volume) m'
unfolding copy_each
copy_each-add_each o [] volume m fuel h _ space = (m, refl, h)
copy_each-add_each o (r ∷ rs) volume m fuel h (ok, oks) space =
    let (m1, e, h1) = fat32_copyin-add o volume m r rs fuel h ok space in
    let (m', e', h') =
      copy_each-add_each o rs (add r volume) m1 fuel h1 oks (HasSpace-add volume r rs space) in
    (
      m',
      ap (λ x. copied_memory x >>= λ m2. copy_each (suc (suc fuel)) o volume.super.buf rs m2) e
          ∙ e',
      h',
    )

-- The files of before are among those of after.
pub add_each-files {ℓ} :
    (P : StoredFile → Type ℓ) (rs : List Request) (volume : Volume)
    → All P (add_each rs volume).files
    → All P volume.files
add_each-files P [] volume h = h
add_each-files P (r ∷ rs) volume h = (add_each-files P rs (add r volume) h).1

-- The regions of the volume stay where they are.
pub add_each-data :
    (rs : List Request) (volume : Volume) (n : ℕ)
    → data_address (add_each rs volume).super n ≡ data_address volume.super n
add_each-data [] volume n = refl
add_each-data (r ∷ rs) volume n = add_each-data rs (add r volume) n

-- The bytes of every file lie behind each other from its first cluster on.
pub add_each-Holds :
    (o : ByteOrder) (rs : List Request) (volume : Volume) (m : Memory)
    → Represents o (add_each rs volume) m
    → All (λ f. Holds m (data_address volume.super f.first) f.contents) (add_each rs volume).files
add_each-Holds o rs volume m h =
    All-map (λ f s. subst (λ a. Holds m a f.contents) (add_each-data rs volume f.first) s.bytes)
      (add_each rs volume).files h.holds.stored
