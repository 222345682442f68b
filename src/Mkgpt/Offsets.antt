-- ===== src/Mkgpt/Offsets.antt =====
-- gpt/mkgpt.c: the offsets that it prints are where the files lie on the disk.
use mathlib.Core.Path.{subst}
use tlibc.Base.{
  ℕ, suc, ◌+◌, ◌-◌, ◌*◌, ◌^◌, ◌≤◌, ◌<◌, ◌≡◌, refl, ap, ◌∙◌, ◌>>=◌, true, some, List, [], ◌∷◌, ◌++◌,
  Bytes, Memory, write_all, write_all-Holds, Holds, codes, map, take, All, arith,
}
use native.Mathlib.Nat.{le_refl}
use tlibc.Endian.{ByteOrder}
use tlibc.Gpt.{generated, gpt_generate}
use tlibc.Gpt.Generate.{disk, gpt_generate-disk}
use tlibc.Fat.Create.{image}
use tlibc.Fat.Mount.Fresh.{fresh_super}
use tlibc.Fat.Copyin.{copied, fat32_copyin}
use tlibc.Fat.Copyin.Path.{first_sector}
use tlibc.Fat.Copyin.Several.{
  Request, IsCopyable, Volume, Represents, HasSpace, add, add_each, add_each-files, add_each-Holds,
  HasSpace-add, fat32_copyin-add, need,
}
use tlibc.Fat.Copyin.Represented.{fresh_volume, image-Represents}
use tlibc.Install.{format, config_of}
use tlibc.Install.Partitions.{both, config-IsDisk, config-plan}
use tlibc.Install.Files.{
  boot_config, boot_config-IsUsable, boot_config-clusters, format-image, boot_code-Represents,
}
use tlibc.Fat.Volume.Files.{StoredFile}
use tlibc.Mkgpt.{
  disk_size, volume, boot_volume, config, Define, Ended, finished, Calls, printed, Task, tasks,
  copy_files, write_out, fill_disk, main,
}

-- The sector of the file system where cluster `n` lies.
abbrev pub sector_of : ℕ → ℕ
sector_of n = 520 + (n - 2) * 8

-- A task, and the bytes that its host delivers.
abbrev pub Job : Type 0
Job = Task × Bytes

abbrev pub request : Job → Request
request (t, bs) = record { host = t.host; name = t.name; attributes = t.attributes; bytes = bs }

-- The lines for the jobs, and where the disk holds their bytes, when the first file starts at
-- cluster `n`.
abbrev pub lines : ℕ → List Job → List Define
lines n [] = []
lines n (j ∷ jobs) =
    record { name = j.0.label; value = sector_of n } ∷ lines (n + need 4096 (request j)) jobs

abbrev pub Located : ℕ → Memory → ℕ → List Job → Type 0
Located fat m n [] = Unit
Located fat m n (j ∷ jobs) =
    Holds m (fat + 512 * sector_of n) j.1 × Located fat m (n + need 4096 (request j)) jobs

config-config_of :
    (o : ByteOrder) (buf : ℕ) → config o buf ≡ config_of o buf disk_size (boot_volume * 512)
unfolding config config_of
config-config_of o buf = refl

fresh-sector :
    (buf n k : ℕ)
    → n < 2 ^ 23
    → first_sector (record (fresh_super (boot_config boot_volume) buf) { next_root_entry = k }) n
      ≡ sector_of n
unfolding fresh_super
fresh-sector buf n k h = omega (arith, h)

-- The file system of `main` with so many files.
abbrev boot_files : ℕ → ℕ → ℕ → ℕ → List StoredFile → Volume
boot_files fat k n free files = record {
  super = record (fresh_super (boot_config boot_volume) fat) { next_root_entry = k };
  next = n;
  free = free;
  files = files;
}

copy_step :
    (fuel : ℕ) (o : ByteOrder) (fat : ℕ) (t : Task) (ts : List Task) (m m1 m2 : Memory) (ret : ℕ)
    (rest : List Define)
    → fat32_copyin fuel o m fat t.host t.name t.attributes ≡ copied ret m1
    → copy_files fuel o fat ts m1 ≡ some (rest, m2)
    → copy_files fuel o fat (t ∷ ts) m ≡ some (record { name = t.label; value = ret } ∷ rest, m2)
unfolding copy_files
copy_step fuel o fat t ts m m1 m2 ret rest e e' =
    ap
      (λ x. printed x >>= λ (ret, m1). copy_files fuel o fat ts m1 >>= λ (rest, m2).
        some (record { name = t.label; value = ret } ∷ rest, m2))
      e
    ∙ ap (λ x. x >>= λ (rest, m2). some (record { name = t.label; value = ret } ∷ rest, m2)) e'

copy_files-lines :
    (o : ByteOrder) (fuel fat : ℕ) (jobs : List Job) (k n free : ℕ) (files : List StoredFile)
    (m : Memory)
    → Represents o (boot_files fat k n free files) m
    → All IsCopyable (map request jobs)
    → HasSpace (boot_files fat k n free files) (map request jobs)
    → (m' : Memory) × (copy_files (suc (suc fuel)) o fat (map (λ j. j.0) jobs) m
        ≡ some (lines n jobs, m'))
      × Represents o (add_each (map request jobs) (boot_files fat k n free files)) m'
unfolding copy_files fresh_super
copy_files-lines o fuel fat [] k n free files m h _ space = (m, refl, h)
copy_files-lines o fuel fat (j ∷ jobs) k n free files m h (ok, oks) space =
    let volume = boot_files fat k n free files in
    let r = request j in
    let (m1, e, h1) = fat32_copyin-add o volume m r (map request jobs) fuel h ok space in
    let (m2, e2, h2) =
      copy_files-lines o fuel fat jobs (k + 1) (n + need 4096 r) (free - need 4096 r)
        (add r volume).files m1 h1 oks (HasSpace-add volume r (map request jobs) space) in
    let at : first_sector volume.super n ≡ sector_of n =
      fresh-sector fat n k (omega (arith, h.holds.volume.hi)) in
    (
      m2,
      copy_step (suc (suc fuel)) o fat j.0 (map (λ j. j.0) jobs) m m1 m2 (sector_of n)
          (lines (n + need 4096 r) jobs) (e ∙ ap (λ s. copied s m1) at) e2,
      h2,
    )

located :
    (fat : ℕ) (m : Memory) (jobs : List Job) (k n free : ℕ) (files : List StoredFile)
    → 2 ≤ n
    → All
        (λ f. Holds m (fat + 512 * 520 + (f.first - 2) * 4096) f.contents)
        (add_each (map request jobs) (boot_files fat k n free files)).files
    → Located fat m n jobs
unfolding fresh_super
located fat m [] k n free files lo h = tt
located fat m (j ∷ jobs) k n free files lo h =
    let volume = boot_files fat k n free files in
    let at : fat + 512 * 520 + (n - 2) * 4096 ≡ fat + 512 * sector_of n = omega arith in
    (
      subst (λ a. Holds m a j.1) at
          (add_each-files (λ f. Holds m (fat + 512 * 520 + (f.first - 2) * 4096) f.contents)
            (map request jobs) (add (request j) volume) h).0,
      located fat m jobs (k + 1) (n + need 4096 (request j)) (free - need 4096 (request j))
          (add (request j) volume).files (omega arith) h,
    )

-- The calls that `main` makes find all they ask for.
pub record AllWell (calls : Calls) (buf : ℕ) (mbr : Bytes) : Type 0 where
  pub opened : calls.opened ≡ true
  pub mapped : calls.mapped ≡ some buf
  pub read : calls.mbr ≡ some mbr
  pub written : calls.written ≡ true

-- The tasks of `main` with the bytes of the four files.
abbrev pub jobs_of : Calls → Bytes → Bytes → Bytes → Bytes → List Job
jobs_of calls l k b i =
    (
      record {
        host = calls.loader;
        label = codes "BOOTLOADER_OFFSET";
        name = codes "linuz";
        attributes = 5;
      },
      l,
    )
    ∷ (
      record {
        host = calls.kernel;
        label = codes "KERNEL_OFFSET";
        name = codes "kernel";
        attributes = 5;
      },
      k,
    )
    ∷ (
      record {
        host = calls.busybox;
        label = codes "BUSYBOX_OFFSET";
        name = codes "busybox";
        attributes = 1;
      },
      b,
    )
    ∷ (
      record {
        host = calls.init;
        label = codes "INIT_OFFSET";
        name = codes "init";
        attributes = 1;
      },
      i,
    )
    ∷ []

abbrev pub partition_lines : List Define
partition_lines =
    record { name = codes "PARTITION_0_START"; value = 3 }
    ∷ record { name = codes "PARTITION_1_START"; value = 262143 }
    ∷ []

generate-both :
    (o : ByteOrder) (buf : ℕ) (m : Memory)
    → gpt_generate o m (config o buf)
      ≡ generated (disk o m (config o buf)) (both o volume boot_volume)
generate-both o buf m = rw (config-config_of o buf) (
    gpt_generate-disk o m (config_of o buf disk_size (boot_volume * 512))
      (config-IsDisk o buf disk_size (boot_volume * 512) (omega arith) (omega arith))
    ∙ ap (generated (disk o m (config_of o buf disk_size (boot_volume * 512))))
        (config-plan o buf disk_size (boot_volume * 512) (omega arith) (omega arith)))

module _ (o : ByteOrder) (m : Memory) (calls : Calls) (buf : ℕ) (l k b i mbr : Bytes)
    (well : AllWell calls buf mbr) where
  abbrev jobs : List Job
  jobs = jobs_of calls l k b i

  fill_disk-finished :
      (fuel : ℕ) (m1 m2 : Memory)
      → format o (buf + 512 * 3) boot_volume (disk o m (config o buf)) ≡ some m1
      → copy_files fuel o (buf + 512 * 3) (tasks calls) m1 ≡ some (lines 3 jobs, m2)
      → fill_disk fuel o calls buf (generated (disk o m (config o buf)) (both o volume boot_volume))
        ≡ finished (partition_lines ++ lines 3 jobs) (write_all m2 buf (take 440 mbr))
  unfolding fill_disk write_out
  fill_disk-finished fuel m1 m2 e1 e2 =
      ap
        (λ x.
          write_out calls buf partition_lines
            (x >>= λ m1. copy_files fuel o (buf + 512 * 3) (tasks calls) m1))
        e1
      ∙ ap (write_out calls buf partition_lines) e2
      ∙ rw (well.written, well.read) refl

  main-fill_disk :
      (fuel : ℕ) (m' : Ended)
      → fill_disk fuel o calls buf (generated (disk o m (config o buf)) (both o volume boot_volume))
        ≡ m'
      → main fuel o calls m ≡ m'
  unfolding main
  main-fill_disk fuel m' e = rw (well.opened, well.mapped, generate-both o buf m) e

-- When the calls of the host succeed and the four files can be copied and fit the file system
-- together, `main` writes a disk and returns 0. It prints that the partitions start at the blocks 3
-- and 262143, and for each file the sector of the boot partition where all its bytes lie one behind
-- the other. The partition holds a volume with the four files, and the disk begins with at most 440
-- bytes of the boot sector.
pub main-Located :
    (o : ByteOrder) (m : Memory) (calls : Calls) (buf fuel : ℕ) (l k b i mbr : Bytes)
    → AllWell calls buf mbr
    → All IsCopyable (map request (jobs_of calls l k b i))
    → HasSpace
        (fresh_volume (boot_config boot_volume) (buf + 512 * 3))
        (map request (jobs_of calls l k b i))
    → (m' : Memory) × (main (suc (suc fuel)) o calls m
        ≡ finished (partition_lines ++ lines 3 (jobs_of calls l k b i)) m')
      × Located (buf + 512 * 3) m' 3 (jobs_of calls l k b i)
      × Represents o
          (add_each
            (map request (jobs_of calls l k b i))
            (fresh_volume (boot_config boot_volume) (buf + 512 * 3)))
          m'
      × Holds m' buf (take 440 mbr)
unfolding fresh_super
main-Located o m calls buf fuel l k b i mbr well ok space =
    let fat = buf + 512 * 3 in
    let jobs = jobs_of calls l k b i in
    let c = boot_config boot_volume in
    let m0 = disk o m (config o buf) in
    let m1 = image o c fat m0 in
    let v = fresh_volume c fat in
    let start : Represents o v m1 =
      image-Represents o c fat m0 (boot_config-IsUsable boot_volume (omega arith) (omega arith))
        (boot_config-clusters boot_volume (omega arith) (omega arith)) in
    let (m2, e, h) = copy_files-lines o fuel fat jobs 0 3 v.free [] m1 start ok space in
    let h' =
      boot_code-Represents o (add_each (map request jobs) v) m2 buf mbr (le_refl (buf + 1536)) h in
    (
      write_all m2 buf (take 440 mbr),
      main-fill_disk o m calls buf l k b i mbr well (suc (suc fuel)) _ (
          fill_disk-finished o m calls buf l k b i mbr well (suc (suc fuel)) m1 m2
            (format-image o fat boot_volume m0 (omega arith) (omega arith)) e),
      located fat _ jobs 0 3 v.free [] (omega arith)
          (add_each-Holds o (map request jobs) v (write_all m2 buf (take 440 mbr)) h'),
      h',
      write_all-Holds m2 buf (take 440 mbr),
    )
